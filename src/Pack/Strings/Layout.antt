-- ===== src/Pack/Strings/Layout.antt =====
-- What `ptp_pack_string` leaves in the buffer, once the array of units is known.
use mathlib.Core.List.{append_assoc}
use vita_mtp.Base.{
  ℕ, zero, suc, ◌+◌, ◌*◌, ◌≤◌, ◌%◌, ◌≡◌, refl, sym, ap, false, ◌&&◌, some, List, [], ◌∷◌, ◌++◌,
  arith, length, length-append, ◌==◌, ltb,
}
use vita_mtp.Bytes.{ByteOrder, little, big, store, wire_bytes, htod8a, htod16a}
use vita_mtp.Bytes.Layout.{fetch_at, store_at, split_at}
use vita_mtp.Pack.Params.{Params}
use vita_mtp.Pack.Strings.{to_ucs2, ucs2strlen, pack_string}

-- `u` is the bytes of `n` units, none of them zero.
abbrev pub IsUnits : ℕ → List ℕ → Type 0
IsUnits zero [] = Unit {0}
IsUnits zero (_ ∷ _) = ⊥
IsUnits (suc n) [] = ⊥
IsUnits (suc n) (_ ∷ []) = ⊥
IsUnits (suc n) (a ∷ b ∷ u) = (((a == 0) && (b == 0)) ≡ false) × IsUnits n u

-- A string of `n` units on the wire: the count with the terminator, the units, the terminator.
abbrev pub wire_string : ℕ → List ℕ → List ℕ
wire_string n u = (n + 1) ∷ (u ++ (0 ∷ 0 ∷ []))

pub length-units : (n : ℕ) (u : List ℕ) → IsUnits n u → length u ≡ n * 2
length-units zero [] h = refl
length-units zero (_ ∷ _) h = absurd h
length-units (suc n) [] h = absurd h
length-units (suc n) (_ ∷ []) h = absurd h
length-units (suc n) (a ∷ b ∷ u) h = omega (arith, length-units n u h.1)

pub ucs2strlen-units :
    (n : ℕ) (u more : List ℕ) → IsUnits n u → ucs2strlen (u ++ (0 ∷ 0 ∷ more)) ≡ some n
unfolding ucs2strlen
ucs2strlen-units zero [] more h = refl
ucs2strlen-units zero (_ ∷ _) more h = absurd h
ucs2strlen-units (suc n) [] more h = absurd h
ucs2strlen-units (suc n) (_ ∷ []) more h = absurd h
ucs2strlen-units (suc n) (a ∷ b ∷ u) more h =
    rw (h.0, ucs2strlen-units n u more h.1) (ap some (omega arith))

wire_bytes-zero : (o : ByteOrder) → wire_bytes o 2 0 ≡ 0 ∷ 0 ∷ []
unfolding wire_bytes
wire_bytes-zero little = refl
wire_bytes-zero big = refl

store_eq :
    (pre old rest bs buf : List ℕ) (offset : ℕ)
    → buf ≡ pre ++ (old ++ rest)
    → offset ≡ length pre
    → length bs ≡ length old
    → store buf offset bs ≡ some (pre ++ (bs ++ rest))
store_eq pre old rest bs buf offset e e' e'' = rw e (store_at pre old rest bs e' e'')

module _ (p : Params) (string : List ℕ) (n : ℕ) (u more : List ℕ)
    (converts : to_ucs2 p string ≡ some (u ++ (0 ∷ 0 ∷ more))) (units : IsUnits n u)
    (short : n ≤ 254) where
  pack_string_split :
      (pre m rest : List ℕ) (x y z offset : ℕ)
      → length m ≡ n * 2
      → offset ≡ length pre
      → pack_string p string (pre ++ (x ∷ (m ++ (y ∷ z ∷ rest)))) offset
        ≡ some (pre ++ (wire_string n u ++ rest), n + 1)
  unfolding pack_string htod8a htod16a
  pack_string_split pre m rest x y z offset e e' =
      let small : ltb 254 n ≡ false = ground arith in
      let front : List ℕ = pre ++ ((n + 1) % 256 ∷ []) in
      let s1 = store_at pre (x ∷ []) (m ++ (y ∷ z ∷ rest)) ((n + 1) % 256 ∷ []) e' refl in
      let f1 =
        fetch_at [] u (0 ∷ 0 ∷ more) {offset = 0} {n = n * 2} refl (sym (length-units n u units)) in
      let s2 : store (pre ++ ((n + 1) % 256 ∷ (m ++ (y ∷ z ∷ rest)))) (offset + 1) u
          ≡ some (front ++ (u ++ (y ∷ z ∷ rest))) =
        store_eq front m (y ∷ z ∷ rest) u (pre ++ ((n + 1) % 256 ∷ (m ++ (y ∷ z ∷ rest))))
          (offset + 1) (simp append_assoc) (omega (arith, length-append pre ((n + 1) % 256 ∷ [])))
          (omega (arith, length-units n u units)) in
      let s3 : store (front ++ (u ++ (y ∷ z ∷ rest))) (offset + n * 2 + 1) (0 ∷ 0 ∷ [])
          ≡ some ((front ++ u) ++ (0 ∷ 0 ∷ rest)) =
        store_eq (front ++ u) (y ∷ z ∷ []) rest (0 ∷ 0 ∷ []) (front ++ (u ++ (y ∷ z ∷ rest)))
          (offset + n * 2 + 1) (simp append_assoc)
          (omega (
            arith,
            length-append front u,
            length-append pre ((n + 1) % 256 ∷ []),
            length-units n u units,
          ))
          refl in
      let count : (n + 1) % 256 ≡ n + 1 = omega arith in
      let len : (n % 256 + 1) % 256 ≡ n + 1 = omega arith in
      rw
        (
          converts,
          ucs2strlen-units n u more units,
          small,
          s1,
          f1,
          wire_bytes-zero p.byteorder,
          s2,
          s3,
        )
        (rw (count, len) (simp append_assoc))

  -- With room for the whole string behind `pre`, exactly that room is written.
  pub pack_string-layout :
      (pre old rest : List ℕ) (offset : ℕ)
      → length old ≡ n * 2 + 3
      → offset ≡ length pre
      → pack_string p string (pre ++ (old ++ rest)) offset
        ≡ some (pre ++ (wire_string n u ++ rest), n + 1)
  pack_string-layout pre [] rest offset e e' = absurd (omega arith)
  pack_string-layout pre (x ∷ old) rest offset e e' =
      let (m, back, split, e'') = split_at (n * 2) old (omega arith) in
      finish m back split e'' (omega (arith, ap length split, length-append m back))
    where
      finish :
          (m back : List ℕ)
          → old ≡ m ++ back
          → length m ≡ n * 2
          → length back ≡ 2
          → pack_string p string (pre ++ (x ∷ (old ++ rest))) offset
            ≡ some (pre ++ (wire_string n u ++ rest), n + 1)
      finish m [] split h h' = absurd (omega arith)
      finish m (y ∷ []) split h h' = absurd (omega arith)
      finish m (y ∷ z ∷ []) split h h' =
          rw (split, append_assoc m (y ∷ z ∷ []) rest)
            (pack_string_split pre m rest x y z offset h e')
      finish m (y ∷ z ∷ w ∷ back) split h h' = absurd (omega arith)
