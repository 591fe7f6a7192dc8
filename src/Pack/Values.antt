-- ===== src/Pack/Values.antt =====
-- The value of a property: its type of src/ptp.h, and `ptp_pack_DPV` and `ptp_unpack_DPV` of
-- src/ptp-pack.c.
pub mod Advance
pub mod RoundTrip
mod Tests
use mathlib.Core.Option
use vita_mtp.Base.{
  ℕ, zero, suc, ◌+◌, ◌-◌, ◌*◌, ◌%◌, ◌^◌, Bool, ◌&&◌, ◌||◌, Option, none, some, ◌>>=◌, List, [], ◌∷◌,
  ltb, leb, ◌==◌, if◌then◌else◌, length,
}
use vita_mtp.Bytes.{ByteOrder, dtoh8a, dtoh16a, dtoh32a, dtoh64a, htod8a, htod16a, htod32a, htod64a}
use vita_mtp.Pack.Params.{Params}
use vita_mtp.Pack.Strings.{unpack_string, get_packed_stringcopy}

-- `PTPPropertyValue`: the member of the union that the data type selects. A number is held by
-- its bit pattern.
pub data PropertyValue : Type 0 where
  num : ℕ → PropertyValue
  arr : List ℕ → PropertyValue
  str : Option (List ℕ) → PropertyValue

-- `MTPProperties`.
pub record MtpProperty : Type 0 where
  pub property : ℕ
  pub datatype : ℕ
  pub object_handle : ℕ
  pub propval : PropertyValue

-- The integers of the data types, signed or not.
pub data Width : Type 0 where
  w8 w16 w32 w64 : Width

abbrev pub bytes_in : Width → ℕ
bytes_in w8 = 1
bytes_in w16 = 2
bytes_in w32 = 4
bytes_in w64 = 8

-- The cases of the `switch` on the data type (`PTP_DTC_*`).
pub data Kind : Type 0 where
  number : Width → Kind
  array : Width → Kind
  wide string unknown : Kind

unfoldable pub kind_of : ℕ → Kind
kind_of datatype =
    if (datatype == 1) || (datatype == 2)
    then number w8
    else if (datatype == 3) || (datatype == 4)
    then number w16
    else if (datatype == 5) || (datatype == 6)
    then number w32
    else if (datatype == 7) || (datatype == 8)
    then number w64
    else if (datatype == 9) || (datatype == 10)
    then wide
    else if (datatype == 0x4001) || (datatype == 0x4002)
    then array w8
    else if (datatype == 0x4003) || (datatype == 0x4004)
    then array w16
    else if (datatype == 0x4005) || (datatype == 0x4006)
    then array w32
    else if (datatype == 0x4007) || (datatype == 0x4008)
    then array w64
    else if datatype == 0xffff
    then string
    else unknown

unfoldable pub read_num : ByteOrder → Width → List ℕ → ℕ → Option ℕ
read_num o w8 buf offset = dtoh8a buf offset
read_num o w16 buf offset = dtoh16a o buf offset
read_num o w32 buf offset = dtoh32a o buf offset
read_num o w64 buf offset = dtoh64a o buf offset

unfoldable pub write_num : ByteOrder → Width → List ℕ → ℕ → ℕ → Option (List ℕ)
write_num o w8 buf offset x = htod8a buf offset x
write_num o w16 buf offset x = htod16a o buf offset x
write_num o w32 buf offset x = htod32a o buf offset x
write_num o w64 buf offset x = htod64a o buf offset x

-- `total - *offset < size`, which compares as unsigned numbers: behind the end it does not hold.
-- Lengths and offsets are taken to be below 2 ^ 31.
abbrev pub is_short : ℕ → ℕ → ℕ → Bool
is_short offset total size = leb offset total && ltb (total - offset) size

-- How `ptp_unpack_DPV` returns: with 1, the offset and what it set, or with 0 and the offset.
pub data Unpacked : Type 0 where
  ok : ℕ → Option PropertyValue → Unpacked
  failed : ℕ → Unpacked

-- `CTVAL`: the number, if it is not cut short.
unfoldable pub ctval : ByteOrder → Width → List ℕ → ℕ → ℕ → Option (Option ℕ)
ctval o w buf offset total =
    if is_short offset total (bytes_in w)
    then some none
    else Option.map some (read_num o w buf offset)

-- The loop of `RARR` with `left` rounds to go: the offset that it reaches, and the elements if it
-- is not cut short.
unfoldable pub rarr_loop : ByteOrder → Width → List ℕ → ℕ → ℕ → ℕ → Option (ℕ × Option (List ℕ))
rarr_loop o w buf total zero offset = some (offset, some [])
rarr_loop o w buf total (suc left) offset =
    let later = rarr_loop o w buf total left (offset + bytes_in w) in
    ctval o w buf offset total >>= λ r. elim r [
      | none ↦ some (offset, none)
      | some x ↦ later >>= λ rest. some (rest.0, Option.map (λ xs. x ∷ xs) rest.1)
    ]

abbrev pub loop_result : ℕ × Option (List ℕ) → Unpacked
loop_result (offset, none) = failed offset
loop_result (offset, some xs) = ok offset (some (arr xs))

-- `RARR`. `malloc_ok` is whether `malloc` gets that many bytes; a count that is negative as an int
-- asks for more than there can be. An element takes 16 bytes.
unfoldable pub rarr : ByteOrder → (ℕ → Bool) → Width → List ℕ → ℕ → ℕ → Option Unpacked
rarr o malloc_ok w buf offset total =
    if is_short offset total 4
    then some (failed offset)
    else (dtoh32a o buf offset >>= λ n.
        let elements = rarr_loop o w buf total n (offset + 4) in
        if ltb n (2 ^ 31) && malloc_ok (16 * n)
        then Option.map loop_result elements
        else some (failed (offset + 4)))

-- The offset of `ptp_unpack_string` is a uint16_t.
unfoldable pub unpack_dpv : Params → (ℕ → Bool) → List ℕ → ℕ → ℕ → Kind → Option Unpacked
unpack_dpv p malloc_ok buf offset total (number w) = ctval p.byteorder w buf offset total >>= λ r.
    elim r [ none ↦ some (failed offset) | some x ↦ some (ok (offset + bytes_in w) (some (num x))) ]
unpack_dpv p malloc_ok buf offset total (array w) = rarr p.byteorder malloc_ok w buf offset total
unpack_dpv p malloc_ok buf offset total wide = some (ok (offset + 16) none)
unpack_dpv p malloc_ok buf offset total string = unpack_string p buf (offset % 2 ^ 16) >>= λ r.
    some (ok (offset + (r.1 * 2 + 1)) (some (str r.0)))
unpack_dpv p malloc_ok buf offset total unknown = some (failed offset)

-- The loop over the elements of an array.
unfoldable pub pack_nums : ByteOrder → Width → List ℕ → ℕ → List ℕ → Option (List ℕ)
pack_nums o w [] i buf = some buf
pack_nums o w (x ∷ xs) i buf =
    write_num o w buf (4 + i * bytes_in w) x >>= λ buf. pack_nums o w xs (i + 1) buf

-- `ptp_pack_DPV`: the block and its size, a uint32_t. `malloc` is the block that the call of `malloc` returns,
-- and `packed` the local array of `ptp_get_packed_stringcopy`. A value whose member in use is not
-- the one that the data type selects is out of the model, and is `none` too.
unfoldable pub pack_dpv :
    Params → (ℕ → List ℕ) → List ℕ → PropertyValue → Kind → Option (Option (List ℕ) × ℕ)
pack_dpv p malloc packed (num x) (number w) =
    write_num p.byteorder w (malloc (bytes_in w)) 0 x >>= λ buf. some (some buf, bytes_in w)
pack_dpv p malloc packed (arr xs) (array w) =
    let size : ℕ = (4 + length xs * bytes_in w) % 2 ^ 32 in
    htod32a p.byteorder (malloc size) 0 (length xs) >>= λ buf.
    pack_nums p.byteorder w xs 0 buf >>= λ buf. some (some buf, size)
pack_dpv p malloc packed (str s) string =
    get_packed_stringcopy p packed s >>= λ bytes. some (some bytes, length bytes)
pack_dpv p malloc packed value wide = some (none, 0)
pack_dpv p malloc packed value unknown = some (none, 0)
pack_dpv p malloc packed value kind = none
