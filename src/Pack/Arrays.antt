-- ===== src/Pack/Arrays.antt =====
-- src/ptp-pack.c, lines 230 to 268: counted arrays on the wire, a 32-bit count and the elements.
pub mod RoundTrip
use vita_mtp.Base.{
  ℕ, zero, suc, ◌+◌, ◌*◌, ◌%◌, ◌^◌, ◌≡◌, refl, Option, none, some, List, [], ◌∷◌, ◌>>=◌, length,
  replicate,
}
use vita_mtp.Bytes.{
  ByteOrder, little, dtoh16a, dtoh32a, htod32a, fetch, store, wire_value, wire_bytes,
}

-- The loops with `left` rounds to go. `malloc` is taken to succeed, as the source does.
module _ (o : ByteOrder) (buf : List ℕ) (offset : ℕ) where
  unfoldable pub unpack_u32s : ℕ → ℕ → Option (List ℕ)
  unpack_u32s zero i = some []
  unpack_u32s (suc left) i = do
    x ← dtoh32a o buf (offset + 4 * (i + 1))
    xs ← unpack_u32s left (i + 1)
    some (x ∷ xs)

  unfoldable pub unpack_u16s : ℕ → ℕ → Option (List ℕ)
  unpack_u16s zero i = some []
  unpack_u16s (suc left) i = do
    x ← dtoh16a o buf (offset + 2 * (i + 2))
    xs ← unpack_u16s left (i + 1)
    some (x ∷ xs)

-- The array; the functions also return its length, the count that was read.
unfoldable pub unpack_u32_array : ByteOrder → List ℕ → ℕ → Option (List ℕ)
unpack_u32_array o buf offset = do n ← dtoh32a o buf offset; unpack_u32s o buf offset n 0

unfoldable pub unpack_u16_array : ByteOrder → List ℕ → ℕ → Option (List ℕ)
unpack_u16_array o buf offset = do n ← dtoh32a o buf offset; unpack_u16s o buf offset n 0

unfoldable pub pack_u32s : ByteOrder → List ℕ → ℕ → List ℕ → Option (List ℕ)
pack_u32s o [] i buf = some buf
pack_u32s o (x ∷ xs) i buf = do buf ← htod32a o buf (4 * (i + 1)) x; pack_u32s o xs (i + 1) buf

-- `arraylen + 1` and the size returned are 32-bit numbers.
unfoldable pub u32_array_size : ℕ → ℕ
u32_array_size arraylen = (arraylen + 1) % 2 ^ 32 * 4

-- `malloc` is the block that the call of `malloc` returns for that size, as it stands. The
-- result is the block and the size returned.
unfoldable pub pack_u32_array : ByteOrder → (ℕ → List ℕ) → List ℕ → Option (List ℕ × ℕ)
pack_u32_array o malloc array = do
  buf ← htod32a o (malloc (u32_array_size (length array))) 0 (length array)
  buf ← pack_u32s o array 0 buf
  some (buf, u32_array_size (length array) % 2 ^ 32)

test_pack :
    pack_u32_array little (λ n. replicate n 7) (258 ∷ 5 ∷ [])
    ≡ some (2 ∷ 0 ∷ 0 ∷ 0 ∷ 2 ∷ 1 ∷ 0 ∷ 0 ∷ 5 ∷ 0 ∷ 0 ∷ 0 ∷ [], 12)
unfolding pack_u32_array pack_u32s u32_array_size htod32a
test_pack = refl

test_unpack :
    unpack_u16_array little (9 ∷ 2 ∷ 0 ∷ 0 ∷ 0 ∷ 2 ∷ 1 ∷ 5 ∷ 0 ∷ []) 1 ≡ some (258 ∷ 5 ∷ [])
unfolding unpack_u16_array unpack_u16s dtoh32a dtoh16a
test_unpack = refl
