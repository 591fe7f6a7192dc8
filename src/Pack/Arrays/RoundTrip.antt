-- ===== src/Pack/Arrays/RoundTrip.antt =====
-- Arrays are read back as they were written.
use mathlib.Core.List.{append_assoc, append-nil}
use vita_mtp.Base.{
  ℕ, ◌+◌, ◌-◌, ◌*◌, ◌%◌, ◌^◌, ◌<◌, ◌≡◌, refl, sym, ap, ◌∙◌, some, List, [], ◌∷◌, ◌++◌, arith,
  length, length-append, All,
}
use vita_mtp.Bytes.{ByteOrder, dtoh16a, dtoh32a, htod32a, store, wire_bytes}
use vita_mtp.Bytes.Layout.{store_at, split_at}
use vita_mtp.Bytes.Words.{dtoh16a_at, dtoh32a_at, length-wire_bytes}
use vita_mtp.Pack.Arrays.{
  unpack_u32s, unpack_u16s, unpack_u32_array, unpack_u16_array, pack_u32s, pack_u32_array,
  u32_array_size,
}

-- The elements on the wire, `k` bytes each.
abbrev pub elements : ByteOrder → ℕ → List ℕ → List ℕ
elements o k [] = []
elements o k (x ∷ xs) = wire_bytes o k x ++ elements o k xs

-- An array on the wire.
abbrev pub wire_array : ByteOrder → ℕ → List ℕ → List ℕ
wire_array o k xs = wire_bytes o 4 (length xs) ++ elements o k xs

pub length-elements :
    (o : ByteOrder) (k : ℕ) (xs : List ℕ) → length (elements o k xs) ≡ length xs * k
length-elements o k [] = omega arith
length-elements o k (x ∷ xs) = grind (
  arith,
  length-append (wire_bytes o k x) (elements o k xs),
  length-wire_bytes o k x,
  length-elements o k xs,
)

pub length-wire_array :
    (o : ByteOrder) (k : ℕ) (xs : List ℕ) → length (wire_array o k xs) ≡ 4 + length xs * k
length-wire_array o k xs = omega (
  arith,
  length-append (wire_bytes o 4 (length xs)) (elements o k xs),
  length-wire_bytes o 4 (length xs),
  length-elements o k xs,
)

unpack_u32s-elements :
    (o : ByteOrder) (pre xs rest : List ℕ) (offset i : ℕ)
    → All (λ x. x < 2 ^ 32) xs
    → offset + 4 * (i + 1) ≡ length pre
    → unpack_u32s o (pre ++ (elements o 4 xs ++ rest)) offset (length xs) i ≡ some xs
unfolding unpack_u32s
unpack_u32s-elements o pre [] rest offset i a e = refl
unpack_u32s-elements o pre (x ∷ xs) rest offset i a e =
    let b : List ℕ = wire_bytes o 4 x in
    let later : unpack_u32s o (pre ++ ((b ++ elements o 4 xs) ++ rest)) offset (length xs) (i + 1)
        ≡ some xs =
      rw (append_assoc b (elements o 4 xs) rest, ← append_assoc pre b (elements o 4 xs ++ rest))
        (unpack_u32s-elements o (pre ++ b) xs rest offset (i + 1) a.1
          (omega (arith, length-append pre b, length-wire_bytes o 4 x))) in
    let first : dtoh32a o (pre ++ ((b ++ elements o 4 xs) ++ rest)) (offset + 4 * (i + 1))
        ≡ some x =
      rw (append_assoc b (elements o 4 xs) rest)
        (dtoh32a_at o pre (elements o 4 xs ++ rest) a.0 e) in
    rw (first, later) refl

unpack_u16s-elements :
    (o : ByteOrder) (pre xs rest : List ℕ) (offset i : ℕ)
    → All (λ x. x < 2 ^ 16) xs
    → offset + 2 * (i + 2) ≡ length pre
    → unpack_u16s o (pre ++ (elements o 2 xs ++ rest)) offset (length xs) i ≡ some xs
unfolding unpack_u16s
unpack_u16s-elements o pre [] rest offset i a e = refl
unpack_u16s-elements o pre (x ∷ xs) rest offset i a e =
    let b : List ℕ = wire_bytes o 2 x in
    let later : unpack_u16s o (pre ++ ((b ++ elements o 2 xs) ++ rest)) offset (length xs) (i + 1)
        ≡ some xs =
      rw (append_assoc b (elements o 2 xs) rest, ← append_assoc pre b (elements o 2 xs ++ rest))
        (unpack_u16s-elements o (pre ++ b) xs rest offset (i + 1) a.1
          (omega (arith, length-append pre b, length-wire_bytes o 2 x))) in
    let first : dtoh16a o (pre ++ ((b ++ elements o 2 xs) ++ rest)) (offset + 2 * (i + 2))
        ≡ some x =
      rw (append_assoc b (elements o 2 xs) rest)
        (dtoh16a_at o pre (elements o 2 xs ++ rest) a.0 e) in
    rw (first, later) refl

module _ (o : ByteOrder) (pre xs rest : List ℕ) (offset : ℕ) (count : length xs < 2 ^ 32)
    (at : offset ≡ length pre) where
  count_at : (k : ℕ) → dtoh32a o (pre ++ (wire_array o k xs ++ rest)) offset ≡ some (length xs)
  count_at k =
      rw (append_assoc (wire_bytes o 4 (length xs)) (elements o k xs) rest)
        (dtoh32a_at o pre (elements o k xs ++ rest) count at)

  split_count :
      (k : ℕ)
      → pre ++ (wire_array o k xs ++ rest)
        ≡ (pre ++ wire_bytes o 4 (length xs)) ++ (elements o k xs ++ rest)
  split_count k = simp append_assoc

  -- A reader finds the array of fewer than 2 ^ 32 elements that stands at its offset, whatever
  -- surrounds it, elements of 32 bits.
  pub unpack_u32_array-wire :
      All (λ x. x < 2 ^ 32) xs
      → unpack_u32_array o (pre ++ (wire_array o 4 xs ++ rest)) offset ≡ some xs
  unfolding unpack_u32_array
  unpack_u32_array-wire a =
      rw (count_at 4, split_count 4)
        (unpack_u32s-elements o (pre ++ wire_bytes o 4 (length xs)) xs rest offset 0 a (
          omega (
            arith,
            length-append pre (wire_bytes o 4 (length xs)),
            length-wire_bytes o 4 (length xs),
          )))

  -- The same for elements of 16 bits.
  pub unpack_u16_array-wire :
      All (λ x. x < 2 ^ 16) xs
      → unpack_u16_array o (pre ++ (wire_array o 2 xs ++ rest)) offset ≡ some xs
  unfolding unpack_u16_array
  unpack_u16_array-wire a =
      rw (count_at 2, split_count 2)
        (unpack_u16s-elements o (pre ++ wire_bytes o 4 (length xs)) xs rest offset 0 a (
          omega (
            arith,
            length-append pre (wire_bytes o 4 (length xs)),
            length-wire_bytes o 4 (length xs),
          )))

-- The loop overwrites just the room of the elements.
pack_u32s-elements :
    (o : ByteOrder) (pre xs old rest : List ℕ) (i : ℕ)
    → 4 * (i + 1) ≡ length pre
    → length old ≡ length xs * 4
    → pack_u32s o xs i (pre ++ (old ++ rest)) ≡ some (pre ++ (elements o 4 xs ++ rest))
unfolding pack_u32s htod32a
pack_u32s-elements o pre [] [] rest i e h = refl
pack_u32s-elements o pre [] (x ∷ old) rest i e h = absurd (omega arith)
pack_u32s-elements o pre (x ∷ xs) old rest i e h =
    let (front, back, split, four) = split_at 4 old (omega arith) in
    let b : List ℕ = wire_bytes o 4 x in
    let written = store_at pre front (back ++ rest) b e (length-wire_bytes o 4 x ∙ sym four) in
    let later =
      pack_u32s-elements o (pre ++ b) xs back rest (i + 1)
        (omega (arith, length-append pre b, length-wire_bytes o 4 x))
        (omega (arith, ap length split, length-append front back)) in
    rw (split, append_assoc front back rest, written, ← append_assoc pre b (back ++ rest))
      (later ∙ ap some (simp append_assoc))

-- An array of fewer than 2 ^ 30 - 1 elements is packed as its size says, whatever the block of
-- that size held, and the reader gives the array back from it.
pub unpack_u32_array-pack_u32_array :
    (o : ByteOrder) (malloc : ℕ → List ℕ) (xs : List ℕ)
    → ((n : ℕ) → length (malloc n) ≡ n)
    → length xs < 2 ^ 30 - 1
    → All (λ x. x < 2 ^ 32) xs
    → (buf : List ℕ) × (pack_u32_array o malloc xs ≡ some (buf, length buf))
      × (unpack_u32_array o buf 0 ≡ some xs)
unfolding pack_u32_array u32_array_size htod32a
unpack_u32_array-pack_u32_array o malloc xs sized short a =
    let n : ℕ = length xs in
    let size : (n + 1) % 2 ^ 32 * 4 ≡ 4 + n * 4 = omega arith in
    let total : (4 + n * 4) % 2 ^ 32 ≡ length (wire_array o 4 xs) =
      omega (arith, length-wire_array o 4 xs) in
    let (front, back, split, four) =
      split_at 4 (malloc (4 + n * 4)) (omega (arith, sized (4 + n * 4))) in
    let c : List ℕ = wire_bytes o 4 n in
    let counted : store (front ++ back) 0 c ≡ some (c ++ back) =
      store_at [] front back c refl (length-wire_bytes o 4 n ∙ sym four) in
    let filled : pack_u32s o xs 0 (c ++ back) ≡ some (c ++ elements o 4 xs) =
      rw (← append-nil back) (
        pack_u32s-elements o c xs back [] 0 (sym (length-wire_bytes o 4 n))
          (omega (arith, ap length split, length-append front back, sized (4 + n * 4)))
        ∙ ap (λ t. some (c ++ t)) (append-nil (elements o 4 xs))) in
    let reads = unpack_u32_array-wire o [] xs [] 0 (omega arith) refl a in
    (wire_array o 4 xs, rw (size, split, counted, filled, total) refl, (rw append-nil at reads))
