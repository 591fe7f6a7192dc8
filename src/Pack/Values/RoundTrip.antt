-- ===== src/Pack/Values/RoundTrip.antt =====
-- Values of properties: what `ptp_pack_DPV` packs `ptp_unpack_DPV` reads back.
use mathlib.Core.List.{append_assoc, append-nil}
use native.Mathlib.Nat.{suc-mul, add-mul}
use vita_mtp.Base.{
  ℕ, ◌+◌, ◌*◌, ◌%◌, ◌^◌, ◌<◌, ◌≤◌, ◌≡◌, refl, sym, ap, ◌∙◌, Bool, true, false, some, List, [], ◌∷◌,
  ◌++◌, arith, lt→ltb, length, length-append, All,
}
use vita_mtp.Bytes.{
  ByteOrder, little, big, dtoh8a, dtoh32a, htod8a, htod16a, htod32a, htod64a, store, wire_bytes,
  le_bytes, wire_value,
}
use vita_mtp.Bytes.Layout.{store_at, split_at}
use vita_mtp.Bytes.Words.{word_at, dtoh16a_at, dtoh32a_at, dtoh64a_at, length-wire_bytes}
use vita_mtp.Pack.Arrays.RoundTrip.{elements, wire_array, length-wire_array}
use vita_mtp.Pack.Params.{Params}
use vita_mtp.Pack.Values.{
  PropertyValue, num, arr, Width, w8, w16, w32, w64, bytes_in, Kind, number, array, read_num,
  write_num, is_short, ok, ctval, rarr_loop, rarr, unpack_dpv, pack_nums, pack_dpv,
}

read_num_at :
    (o : ByteOrder) (w : Width) (pre rest : List ℕ) {x offset : ℕ}
    → x < 256 ^ bytes_in w
    → offset ≡ length pre
    → read_num o w (pre ++ (wire_bytes o (bytes_in w) x ++ rest)) offset ≡ some x
unfolding read_num dtoh8a wire_bytes wire_value le_bytes
read_num_at little w8 pre rest h e = word_at little 1 pre rest h e
read_num_at big w8 pre rest h e = word_at little 1 pre rest h e
read_num_at o w16 pre rest h e = dtoh16a_at o pre rest h e
read_num_at o w32 pre rest h e = dtoh32a_at o pre rest h e
read_num_at o w64 pre rest h e = dtoh64a_at o pre rest h e

write_num_at :
    (o : ByteOrder) (w : Width) (pre old rest : List ℕ) (x : ℕ) {offset : ℕ}
    → offset ≡ length pre
    → length old ≡ bytes_in w
    → write_num o w (pre ++ (old ++ rest)) offset x
      ≡ some (pre ++ (wire_bytes o (bytes_in w) x ++ rest))
unfolding write_num htod8a htod16a htod32a htod64a wire_bytes le_bytes
write_num_at little w8 pre old rest x e l = store_at pre old rest _ e (sym l)
write_num_at big w8 pre old rest x e l = store_at pre old rest _ e (sym l)
write_num_at o w16 pre old rest x e l = store_at pre old rest _ e (length-wire_bytes o 2 x ∙ sym l)
write_num_at o w32 pre old rest x e l = store_at pre old rest _ e (length-wire_bytes o 4 x ∙ sym l)
write_num_at o w64 pre old rest x e l = store_at pre old rest _ e (length-wire_bytes o 8 x ∙ sym l)

not_short : (offset total n : ℕ) → offset + n ≤ total → is_short offset total n ≡ false
not_short offset total n k = ground arith

-- The number is read where it is not cut short.
pub ctval_at :
    (o : ByteOrder) (w : Width) (pre rest : List ℕ) (x : ℕ) {offset total : ℕ}
    → x < 256 ^ bytes_in w
    → offset ≡ length pre
    → offset + bytes_in w ≤ total
    → ctval o w (pre ++ (wire_bytes o (bytes_in w) x ++ rest)) offset total ≡ some (some x)
unfolding ctval
ctval_at o w pre rest x {offset} {total} h e k =
    rw (not_short offset total (bytes_in w) k, read_num_at o w pre rest h e) refl

rarr_loop-elements :
    (o : ByteOrder) (w : Width) (pre xs rest : List ℕ) (offset total : ℕ)
    → All (λ x. x < 256 ^ bytes_in w) xs
    → offset ≡ length pre
    → offset + length xs * bytes_in w ≤ total
    → rarr_loop o w (pre ++ (elements o (bytes_in w) xs ++ rest)) total (length xs) offset
      ≡ some (offset + length xs * bytes_in w, some xs)
unfolding rarr_loop
rarr_loop-elements o w pre [] rest offset total a e k = ap (λ n. some (n, some [])) (omega arith)
rarr_loop-elements o w pre (x ∷ xs) rest offset total a e k =
    let b : List ℕ = wire_bytes o (bytes_in w) x in
    let es : List ℕ = elements o (bytes_in w) xs in
    let more = suc-mul (length xs) (bytes_in w) in
    let first : ctval o w (pre ++ ((b ++ es) ++ rest)) offset total ≡ some (some x) =
      rw (append_assoc b es rest) (ctval_at o w pre (es ++ rest) x a.0 e (omega (arith, more))) in
    let later : rarr_loop o w (pre ++ ((b ++ es) ++ rest)) total (length xs) (offset + bytes_in w)
        ≡ some (offset + bytes_in w + length xs * bytes_in w, some xs) =
      rw (append_assoc b es rest, ← append_assoc pre b (es ++ rest))
        (rarr_loop-elements o w (pre ++ b) xs rest (offset + bytes_in w) total a.1
          (omega (arith, length-append pre b, length-wire_bytes o (bytes_in w) x))
          (omega (arith, more))) in
    rw (first, later) (ap (λ n. some (n, some (x ∷ xs))) (omega (arith, more)))

-- The loop overwrites just the room of the elements.
pack_nums-elements :
    (o : ByteOrder) (w : Width) (pre xs old rest : List ℕ) (i : ℕ)
    → 4 + i * bytes_in w ≡ length pre
    → length old ≡ length xs * bytes_in w
    → pack_nums o w xs i (pre ++ (old ++ rest)) ≡ some (pre ++ (elements o (bytes_in w) xs ++ rest))
unfolding pack_nums
pack_nums-elements o w pre [] [] rest i e h = refl
pack_nums-elements o w pre [] (y ∷ old) rest i e h = absurd (omega arith)
pack_nums-elements o w pre (x ∷ xs) old rest i e h =
    let more = suc-mul (length xs) (bytes_in w) in
    let (front, back, split, full) = split_at (bytes_in w) old (omega (arith, more)) in
    let b : List ℕ = wire_bytes o (bytes_in w) x in
    let written = write_num_at o w pre front (back ++ rest) x e full in
    let later =
      pack_nums-elements o w (pre ++ b) xs back rest (i + 1)
        (omega (
          arith,
          add-mul i 1 (bytes_in w),
          length-append pre b,
          length-wire_bytes o (bytes_in w) x,
        ))
        (omega (arith, more, ap length split, length-append front back)) in
    rw (split, append_assoc front back rest, written, ← append_assoc pre b (back ++ rest))
      (later ∙ ap some (simp append_assoc))

-- The bytes of a value.
abbrev pub wire_value_of : ByteOrder → Kind → PropertyValue → List ℕ
wire_value_of o (number w) (num x) = wire_bytes o (bytes_in w) x
wire_value_of o (array w) (arr xs) = wire_array o (bytes_in w) xs
wire_value_of o kind value = []

-- The value is a number of the kind, or an array of such that an int can count and a uint32_t
-- can measure.
abbrev pub IsTyped : Kind → PropertyValue → Type 0
IsTyped (number w) (num x) = x < 256 ^ bytes_in w
IsTyped (array w) (arr xs) =
    (length xs < 2 ^ 31)
    × All (λ x. x < 256 ^ bytes_in w) xs
    × (4 + length xs * bytes_in w < 2 ^ 32)
IsTyped kind value = ⊥

module _ (p : Params) where
  pub pack_dpv-wire :
      (malloc : ℕ → List ℕ) (packed : List ℕ) (kind : Kind) (value : PropertyValue)
      → ((n : ℕ) → length (malloc n) ≡ n)
      → IsTyped kind value
      → pack_dpv p malloc packed value kind
        ≡ some (
          some (wire_value_of p.byteorder kind value),
          length (wire_value_of p.byteorder kind value),
        )
  unfolding pack_dpv htod32a
  pack_dpv-wire malloc packed (number w) (num x) sized t =
      let o = p.byteorder in
      let n : ℕ = bytes_in w in
      let written : write_num o w (malloc n) 0 x ≡ some (wire_bytes o n x) =
        rw (sym (append-nil (malloc n))) (
          write_num_at o w [] (malloc n) [] x refl (sized n)
          ∙ ap some (append-nil (wire_bytes o n x))) in
      rw (written, length-wire_bytes o n x) refl
  pack_dpv-wire malloc packed (array w) (arr xs) sized t =
      let o = p.byteorder in
      let n : ℕ = 4 + length xs * bytes_in w in
      let c : List ℕ = wire_bytes o 4 (length xs) in
      let (front, back, split, four) = split_at 4 (malloc n) (omega (arith, sized n)) in
      let counted : store (malloc n) 0 c ≡ some (c ++ back) =
        rw split (store_at [] front back c refl (length-wire_bytes o 4 (length xs) ∙ sym four)) in
      let filled : pack_nums o w xs 0 (c ++ back) ≡ some (c ++ elements o (bytes_in w) xs) =
        rw (← append-nil back) (
          pack_nums-elements o w c xs back [] 0 (omega (arith, length-wire_bytes o 4 (length xs)))
            (omega (arith, ap length split, length-append front back, sized n))
          ∙ ap (λ t. some (c ++ t)) (append-nil (elements o (bytes_in w) xs))) in
      let fits : n % 2 ^ 32 ≡ n = omega (arith, t.2) in
      rw (fits, counted, filled, length-wire_array o (bytes_in w) xs) refl
  pack_dpv-wire malloc packed kind value sized t = absurd t

  unpack_array :
      (malloc_ok : ℕ → Bool) (pre xs rest : List ℕ) (w : Width) (offset total : ℕ)
      → length xs < 2 ^ 31
      → All (λ x. x < 256 ^ bytes_in w) xs
      → malloc_ok (16 * length xs) ≡ true
      → offset ≡ length pre
      → offset + length (wire_array p.byteorder (bytes_in w) xs) ≤ total
      → rarr p.byteorder malloc_ok w
          (pre ++ (wire_array p.byteorder (bytes_in w) xs ++ rest))
          offset
          total
        ≡ some (ok (offset + length (wire_array p.byteorder (bytes_in w) xs)) (some (arr xs)))
  unfolding rarr
  unpack_array malloc_ok pre xs rest w offset total few a got e k =
      let o = p.byteorder in
      let b : ℕ = bytes_in w in
      let c : List ℕ = wire_bytes o 4 (length xs) in
      let es : List ℕ = elements o b xs in
      let l = length-wire_array o b xs in
      let count : dtoh32a o (pre ++ ((c ++ es) ++ rest)) offset ≡ some (length xs) =
        rw (append_assoc c es rest) (dtoh32a_at o pre (es ++ rest) (omega arith) e) in
      let loop : rarr_loop o w (pre ++ ((c ++ es) ++ rest)) total (length xs) (offset + 4)
          ≡ some (offset + 4 + length xs * b, some xs) =
        rw (append_assoc c es rest, ← append_assoc pre c (es ++ rest))
          (rarr_loop-elements o w (pre ++ c) xs rest (offset + 4) total a
            (omega (arith, length-append pre c, length-wire_bytes o 4 (length xs)))
            (omega (arith, l))) in
      rw (not_short offset total 4 (omega (arith, l)), count, lt→ltb _ _ few, got, loop)
        (ap (λ n. some (ok n (some (arr xs)))) (omega (arith, l)))

  pub unpack_dpv-wire :
      (malloc_ok : ℕ → Bool) (pre rest : List ℕ) (kind : Kind) (value : PropertyValue)
      (offset total : ℕ)
      → ((n : ℕ) → malloc_ok n ≡ true)
      → IsTyped kind value
      → offset ≡ length pre
      → offset + length (wire_value_of p.byteorder kind value) ≤ total
      → unpack_dpv p malloc_ok
          (pre ++ (wire_value_of p.byteorder kind value ++ rest))
          offset
          total
          kind
        ≡ some (ok (offset + length (wire_value_of p.byteorder kind value)) (some value))
  unfolding unpack_dpv
  unpack_dpv-wire malloc_ok pre rest (number w) (num x) offset total got t e k =
      let l = length-wire_bytes p.byteorder (bytes_in w) x in
      rw
        (
          ctval_at p.byteorder w pre rest x {offset = offset} {total = total} t e
              (omega (arith, l)),
          l,
        )
        refl
  unpack_dpv-wire malloc_ok pre rest (array w) (arr xs) offset total got t e k =
      unpack_array malloc_ok pre xs rest w offset total t.0 t.1 (got _) e k
  unpack_dpv-wire malloc_ok pre rest kind value offset total got t e k = absurd t

  -- A number, or an array of numbers that an int can count and a uint32_t can measure, signed or not: `ptp_pack_DPV` packs it
  -- in a block of its size, whatever `malloc` returned held. From that block, anywhere inside a
  -- dataset that goes on at least as far, `ptp_unpack_DPV` reads the value back and moves the
  -- offset behind it, given that `malloc` gets memory.
  pub unpack_dpv-pack_dpv :
      (malloc : ℕ → List ℕ) (packed : List ℕ) (malloc_ok : ℕ → Bool) (kind : Kind)
      (value : PropertyValue)
      → ((n : ℕ) → length (malloc n) ≡ n)
      → ((n : ℕ) → malloc_ok n ≡ true)
      → IsTyped kind value
      → (bytes : List ℕ) × (pack_dpv p malloc packed value kind ≡ some (some bytes, length bytes))
        × ((pre rest : List ℕ) (total : ℕ)
            → length pre + length bytes ≤ total
            → unpack_dpv p malloc_ok (pre ++ (bytes ++ rest)) (length pre) total kind
              ≡ some (ok (length pre + length bytes) (some value)))
  unpack_dpv-pack_dpv malloc packed malloc_ok kind value sized got t = (
    wire_value_of p.byteorder kind value,
    pack_dpv-wire malloc packed kind value sized t,
    λ pre rest total k.
        unpack_dpv-wire malloc_ok pre rest kind value (length pre) total got t refl k,
  )
