-- ===== src/Bytes/Words.antt =====
-- What is written as a number of `k` bytes is read back, in either byte order.
use mathlib.Core.Option
use mathlib.Core.List.{reverse-reverse}
use native.Mathlib.Nat.{pow-suc}
use vita_mtp.Base.{
  ℕ, zero, suc, ◌/◌, ◌^◌, ◌<◌, ◌≡◌, refl, sym, ap, ◌∙◌, some, List, ◌++◌, arith, length,
  length-reverse,
}
use vita_mtp.Bytes.{
  ByteOrder, little, big, fetch, le_bytes, le_value, wire_bytes, wire_value, dtoh16a, dtoh32a,
  dtoh64a,
}
use vita_mtp.Bytes.Layout.{fetch_at}

pub length-le_bytes : (k x : ℕ) → length (le_bytes k x) ≡ k
unfolding le_bytes
length-le_bytes zero x = refl
length-le_bytes (suc k) x = ap suc (length-le_bytes k (x / 256))

le_value-le_bytes : (k x : ℕ) → x < 256 ^ k → le_value (le_bytes k x) ≡ x
unfolding le_bytes le_value
le_value-le_bytes zero x h = omega arith
le_value-le_bytes (suc k) x h =
    omega (arith, le_value-le_bytes k (x / 256) (omega (arith, pow-suc 256 k)))

pub length-wire_bytes : (o : ByteOrder) (k x : ℕ) → length (wire_bytes o k x) ≡ k
unfolding wire_bytes
length-wire_bytes little k x = length-le_bytes k x
length-wire_bytes big k x = length-reverse (le_bytes k x) ∙ length-le_bytes k x

pub wire_value-wire_bytes :
    (o : ByteOrder) (k x : ℕ) → x < 256 ^ k → wire_value o (wire_bytes o k x) ≡ x
unfolding wire_bytes wire_value
wire_value-wire_bytes little k x h = le_value-le_bytes k x h
wire_value-wire_bytes big k x h = rw (reverse-reverse (le_bytes k x)) (le_value-le_bytes k x h)

-- A number at an offset that the buffer's front leads up to.
pub word_at :
    (o : ByteOrder) (k : ℕ) (pre rest : List ℕ) {x offset : ℕ}
    → x < 256 ^ k
    → offset ≡ length pre
    → Option.map (wire_value o) (fetch (pre ++ (wire_bytes o k x ++ rest)) offset k) ≡ some x
word_at o k pre rest {x} h e =
    rw (fetch_at pre (wire_bytes o k x) rest e (sym (length-wire_bytes o k x)))
      (ap some (wire_value-wire_bytes o k x h))

module _ (o : ByteOrder) (pre rest : List ℕ) {x offset : ℕ} where
  pub dtoh16a_at :
      x < 2 ^ 16
      → offset ≡ length pre
      → dtoh16a o (pre ++ (wire_bytes o 2 x ++ rest)) offset ≡ some x
  unfolding dtoh16a
  dtoh16a_at = word_at o 2 pre rest

  pub dtoh32a_at :
      x < 2 ^ 32
      → offset ≡ length pre
      → dtoh32a o (pre ++ (wire_bytes o 4 x ++ rest)) offset ≡ some x
  unfolding dtoh32a
  dtoh32a_at = word_at o 4 pre rest

  pub dtoh64a_at :
      x < 2 ^ 64
      → offset ≡ length pre
      → dtoh64a o (pre ++ (wire_bytes o 8 x ++ rest)) offset ≡ some x
  unfolding dtoh64a
  dtoh64a_at = word_at o 8 pre rest
