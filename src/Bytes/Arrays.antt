-- ===== src/Bytes/Arrays.antt =====
-- Arrays of 32-bit numbers, as they lie in memory or on the wire.
use mathlib.Core.Option
use mathlib.Core.List.{append_assoc}
use vita_mtp.Base.{
  ℕ, zero, suc, ◌+◌, ◌*◌, ◌^◌, ◌<◌, ◌≡◌, refl, ap, ◌∙◌, some, List, [], ◌∷◌, ◌++◌, get_elem?,
  length, length-append, All, arith,
}
use vita_mtp.Bytes.{ByteOrder, wire_bytes, wire_value, dtoh32a}
use vita_mtp.Bytes.Layout.{fetch-append_right}
use vita_mtp.Bytes.Words.{length-wire_bytes, dtoh32a_at}

-- The members of an array of 32-bit numbers in a row.
unfoldable pub host_words : ByteOrder → List ℕ → List ℕ
host_words o [] = []
host_words o (x ∷ xs) = wire_bytes o 4 x ++ host_words o xs

abbrev pub Is32 : ℕ → Type 0
Is32 x = x < 2 ^ 32

module _ (o : ByteOrder) where
  pub length-host_words : (xs : List ℕ) → length (host_words o xs) ≡ 4 * length xs
  unfolding host_words
  length-host_words [] = refl
  length-host_words (x ∷ xs) = omega (
    arith,
    length-append (wire_bytes o 4 x) (host_words o xs),
    length-wire_bytes o 4 x,
    length-host_words xs,
  )

  -- Behind a front of the buffer.
  pub dtoh32a-append :
      (pre buf : List ℕ) (offset : ℕ) {at : ℕ}
      → at ≡ length pre + offset
      → dtoh32a o (pre ++ buf) at ≡ dtoh32a o buf offset
  unfolding dtoh32a
  dtoh32a-append pre buf offset e =
      rw e (ap (Option.map (wire_value o)) (fetch-append_right pre buf offset 4))

  pub host_words_at :
      (xs rest : List ℕ) (i : ℕ) {x : ℕ}
      → All Is32 xs
      → get_elem? xs i ≡ some x
      → dtoh32a o (host_words o xs ++ rest) (4 * i) ≡ some x
  unfolding host_words
  host_words_at [] rest i a e = cc
  host_words_at (x ∷ xs) rest zero a e =
      rw (append_assoc (wire_bytes o 4 x) (host_words o xs) rest)
        (dtoh32a_at o [] (host_words o xs ++ rest) a.0 refl ∙ e)
  host_words_at (x ∷ xs) rest (suc i) a e =
      rw (append_assoc (wire_bytes o 4 x) (host_words o xs) rest) (
        dtoh32a-append (wire_bytes o 4 x) (host_words o xs ++ rest) (4 * i)
          (omega (arith, length-wire_bytes o 4 x))
        ∙ host_words_at xs rest i a.1 e)
