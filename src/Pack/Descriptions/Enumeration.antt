-- ===== src/Pack/Descriptions/Enumeration.antt =====
-- Enumerations in the descriptions of properties of src/ptp-pack.c, and a count that is too large.
use mathlib.Core.List.{append_assoc}
use native.Mathlib.Nat.{suc-mul}
use vita_mtp.Base.{
  ℕ, zero, suc, ◌+◌, ◌*◌, ◌^◌, ◌<◌, ◌≤◌, ◌≡◌, refl, Bool, true, Option, none, some, List, [], ◌∷◌,
  ◌++◌, arith, length, length-append, All,
}
use vita_mtp.Bytes.{dtoh16a, wire_bytes}
use vita_mtp.Bytes.Words.{dtoh16a_at, length-wire_bytes}
use vita_mtp.Pack.Arrays.RoundTrip.{elements}
use vita_mtp.Pack.Params.{Params}
use vita_mtp.Pack.Values.{
  PropertyValue, num, Width, w8, w16, w32, w64, bytes_in, number, is_short, ctval, unpack_dpv,
}
use vita_mtp.Pack.Values.RoundTrip.{ctval_at}
use vita_mtp.Pack.Descriptions.{enumeration, value_at, values_at, form_at}

abbrev pub values_of : List ℕ → List (Option PropertyValue)
values_of [] = []
values_of (x ∷ xs) = some (num x) ∷ values_of xs

module _ (p : Params) (malloc_ok : ℕ → Bool) where
  -- At the end of the dataset a number is cut short.
  value_at-end :
      (buf : List ℕ) (total : ℕ) (w : Width)
      → value_at p malloc_ok buf total (number w) total ≡ some none
  unfolding value_at unpack_dpv ctval
  value_at-end buf total w = rw (at_end total w) refl
    where
      at_end : (total : ℕ) (w : Width) → is_short total total (bytes_in w) ≡ true
      at_end total w8 = ground arith
      at_end total w16 = ground arith
      at_end total w32 = ground arith
      at_end total w64 = ground arith

  value_at-number :
      (pre rest : List ℕ) (x offset total : ℕ) (w : Width)
      → x < 256 ^ bytes_in w
      → offset ≡ length pre
      → offset + bytes_in w ≤ total
      → value_at p malloc_ok
          (pre ++ (wire_bytes p.byteorder (bytes_in w) x ++ rest))
          total
          (number w)
          offset
        ≡ some (some (some (num x), offset + bytes_in w))
  unfolding value_at unpack_dpv
  value_at-number pre rest x offset total w h e k =
      rw (ctval_at p.byteorder w pre rest x {offset = offset} {total = total} h e k) refl

  values_at-elements :
      (pre xs : List ℕ) (left offset total : ℕ) (w : Width)
      → All (λ x. x < 256 ^ bytes_in w) xs
      → length xs ≤ left
      → offset ≡ length pre
      → total ≡ offset + length xs * bytes_in w
      → values_at p malloc_ok
          (pre ++ elements p.byteorder (bytes_in w) xs)
          total
          (number w)
          left
          offset
        ≡ some (values_of xs)
  unfolding values_at
  values_at-elements pre [] zero offset total w a l e t = refl
  values_at-elements pre [] (suc left) offset total w a l e t =
      let end : offset ≡ total = omega (arith, t) in rw (end, value_at-end (pre ++ []) total w) refl
  values_at-elements pre (x ∷ xs) zero offset total w a l e t = absurd (omega arith)
  values_at-elements pre (x ∷ xs) (suc left) offset total w a l e t =
      let b : List ℕ = wire_bytes p.byteorder (bytes_in w) x in
      let es : List ℕ = elements p.byteorder (bytes_in w) xs in
      let more = suc-mul (length xs) (bytes_in w) in
      let later : values_at p malloc_ok (pre ++ (b ++ es)) total (number w) left
            (offset + bytes_in w)
          ≡ some (values_of xs) =
        rw (← append_assoc pre b es) (
          values_at-elements (pre ++ b) xs left (offset + bytes_in w) total w a.1 (omega arith)
            (omega (arith, length-append pre b, length-wire_bytes p.byteorder (bytes_in w) x))
            (omega (arith, more))) in
      rw (value_at-number pre es x offset total w a.0 e (omega (arith, more)), later) refl

  -- An enumeration of numbers at the end of a dataset is read up to the end of the dataset when the
  -- count in front of it is right or too large: the values are those that are there, at least one,
  -- given that `malloc` gets memory.
  pub form_at-enumeration :
      (pre xs : List ℕ) (x n offset total : ℕ) (w : Width)
      → ((n : ℕ) → malloc_ok n ≡ true)
      → All (λ y. y < 256 ^ bytes_in w) (x ∷ xs)
      → length (x ∷ xs) ≤ n
      → n < 2 ^ 16
      → offset ≡ length pre
      → total ≡ offset + 2 + length (x ∷ xs) * bytes_in w
      → form_at p malloc_ok
          (pre ++ (wire_bytes p.byteorder 2 n ++ elements p.byteorder (bytes_in w) (x ∷ xs)))
          total
          (number w)
          2
          offset
        ≡ some (some (enumeration (values_of (x ∷ xs))))
  unfolding form_at
  form_at-enumeration pre xs x zero offset total w got a l k e t = absurd (omega arith)
  form_at-enumeration pre xs x (suc n) offset total w got a l k e t =
      let c : List ℕ = wire_bytes p.byteorder 2 (suc n) in
      let es : List ℕ = elements p.byteorder (bytes_in w) (x ∷ xs) in
      let count : dtoh16a p.byteorder (pre ++ (c ++ es)) offset ≡ some (suc n) =
        dtoh16a_at p.byteorder pre es k e in
      let listed : values_at p malloc_ok (pre ++ (c ++ es)) total (number w) (suc n) (offset + 2)
          ≡ some (values_of (x ∷ xs)) =
        rw (← append_assoc pre c es) (
          values_at-elements (pre ++ c) (x ∷ xs) (suc n) (offset + 2) total w a l
            (omega (arith, length-append pre c, length-wire_bytes p.byteorder 2 (suc n))) t) in
      rw (count, got (suc n * 16), listed) refl
