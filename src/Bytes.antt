-- ===== src/Bytes.antt =====
-- src/ptp-pack.c, lines 7 to 95, over the accessors that m4/byteorder.m4 generates: numbers at
-- an offset of a byte buffer, in the byte order of the device. A buffer is the list of its bytes;
-- `none` is an access outside of it, which C leaves undefined.
pub mod Arrays
pub mod Layout
pub mod Words
use vita_mtp.Base.{
  ℕ, zero, suc, ◌+◌, ◌*◌, ◌/◌, ◌%◌, ◌<◌, Option, none, some, List, [], ◌∷◌, reverse, ◌≡◌, refl,
}
use mathlib.Core.Option

pub data ByteOrder : Type 0 where
  little big : ByteOrder

-- `memcpy` from the buffer: `n` bytes from its start, and from an offset.
unfoldable pub take_bytes : ℕ → List ℕ → Option (List ℕ)
take_bytes zero buf = some []
take_bytes (suc n) [] = none
take_bytes (suc n) (b ∷ buf) = Option.map (◌∷◌ b) (take_bytes n buf)

unfoldable pub fetch : List ℕ → ℕ → ℕ → Option (List ℕ)
unfolding take_bytes
fetch buf zero n = take_bytes n buf
fetch [] (suc offset) n = none
fetch (b ∷ buf) (suc offset) n = fetch buf offset n

-- `memcpy` into the buffer: at its start, and at an offset.
unfoldable pub overlay : List ℕ → List ℕ → Option (List ℕ)
overlay buf [] = some buf
overlay [] (b ∷ bs) = none
overlay (_ ∷ buf) (b ∷ bs) = Option.map (◌∷◌ b) (overlay buf bs)

unfoldable pub store : List ℕ → ℕ → List ℕ → Option (List ℕ)
unfolding overlay
store buf zero bs = overlay buf bs
store [] (suc offset) bs = none
store (b ∷ buf) (suc offset) bs = Option.map (◌∷◌ b) (store buf offset bs)

-- `htole16a` to `htole64a` write the lowest byte first, and `le16atoh` to `le64atoh` read so.
unfoldable pub le_bytes : ℕ → ℕ → List ℕ
le_bytes zero x = []
le_bytes (suc k) x = x % 256 ∷ le_bytes k (x / 256)

unfoldable pub le_value : List ℕ → ℕ
le_value [] = 0
le_value (b ∷ bs) = b + 256 * le_value bs

-- The `k` bytes of a number on the wire, and the number that bytes on the wire stand for.
unfoldable pub wire_bytes : ByteOrder → ℕ → ℕ → List ℕ
unfolding le_bytes
wire_bytes little k x = le_bytes k x
wire_bytes big k x = reverse (le_bytes k x)

unfoldable pub wire_value : ByteOrder → List ℕ → ℕ
unfolding le_value
wire_value little bs = le_value bs
wire_value big bs = le_value (reverse bs)

unfoldable pub dtoh8a : List ℕ → ℕ → Option ℕ
unfolding fetch le_value
dtoh8a buf offset = Option.map le_value (fetch buf offset 1)

unfoldable pub htod8a : List ℕ → ℕ → ℕ → Option (List ℕ)
unfolding store
htod8a buf offset x = store buf offset (x % 256 ∷ [])

module _ (o : ByteOrder) where
  unfoldable pub dtoh16a : List ℕ → ℕ → Option ℕ
  unfolding fetch wire_value
  dtoh16a buf offset = Option.map (wire_value o) (fetch buf offset 2)

  unfoldable pub dtoh32a : List ℕ → ℕ → Option ℕ
  unfolding fetch wire_value
  dtoh32a buf offset = Option.map (wire_value o) (fetch buf offset 4)

  unfoldable pub dtoh64a : List ℕ → ℕ → Option ℕ
  unfolding fetch wire_value
  dtoh64a buf offset = Option.map (wire_value o) (fetch buf offset 8)

  unfoldable pub htod16a : List ℕ → ℕ → ℕ → Option (List ℕ)
  unfolding store wire_bytes
  htod16a buf offset x = store buf offset (wire_bytes o 2 x)

  unfoldable pub htod32a : List ℕ → ℕ → ℕ → Option (List ℕ)
  unfolding store wire_bytes
  htod32a buf offset x = store buf offset (wire_bytes o 4 x)

  unfoldable pub htod64a : List ℕ → ℕ → ℕ → Option (List ℕ)
  unfolding store wire_bytes
  htod64a buf offset x = store buf offset (wire_bytes o 8 x)

test_word : wire_bytes big 4 0x01020304 ≡ 1 ∷ 2 ∷ 3 ∷ 4 ∷ []
unfolding wire_bytes
test_word = refl
