-- ===== src/Pack/PropertyList.antt =====
-- The list of object properties of src/ptp-pack.c: `ptp_pack_OPL` and `ptp_unpack_OPL`.
pub mod RoundTrip
mod Tests
pub mod Wire
use vita_mtp.Base.{
  ℕ, zero, suc, ◌+◌, ◌-◌, ◌*◌, ◌%◌, ◌^◌, Bool, not, Option, none, some, ◌>>=◌, List, [], ◌∷◌, ◌==◌,
  if◌then◌else◌, length, take, drop,
}
use vita_mtp.Bytes.{ByteOrder, dtoh16a, dtoh32a, htod16a, htod32a, store}
use vita_mtp.Pack.Params.{Params}
use vita_mtp.Pack.Values.{
  PropertyValue, MtpProperty, kind_of, Unpacked, ok, failed, unpack_dpv, pack_dpv,
}

abbrev pub max_mtp_props : ℕ
max_mtp_props = 127

-- A block that may be missing, as the bytes that `memcpy` takes of it.
abbrev pub packed_bytes : Option (List ℕ) → List ℕ
packed_bytes none = []
packed_bytes (some bytes) = bytes

-- The first loop of `ptp_pack_OPL`: each property with its packed value. `malloc` and `packed` are
-- as for `pack_dpv`.
unfoldable pub pack_each :
    Params → (ℕ → List ℕ) → List ℕ → List MtpProperty → Option (List (MtpProperty × List ℕ))
pack_each p malloc packed [] = some []
pack_each p malloc packed (m ∷ ms) =
    pack_dpv p malloc packed m.propval (kind_of m.datatype) >>= λ v.
    pack_each p malloc packed ms >>= λ items. some ((m, packed_bytes v.0) ∷ items)

-- `totalsize` behind the count.
abbrev pub items_size : List (MtpProperty × List ℕ) → ℕ
items_size [] = 0
items_size (item ∷ items) = 8 + length item.1 + items_size items

-- The second loop, at `bufp`.
unfoldable pub write_items : ByteOrder → List (MtpProperty × List ℕ) → ℕ → List ℕ → Option (List ℕ)
write_items o [] bufp buf = some buf
write_items o (item ∷ items) bufp buf = htod32a o buf bufp item.0.object_handle >>= λ buf.
    htod16a o buf (bufp + 4) item.0.property >>= λ buf.
    htod16a o buf (bufp + 6) item.0.datatype >>= λ buf.
    store buf (bufp + 8) item.1 >>= λ buf. write_items o items (bufp + 8 + length item.1) buf

-- `ptp_pack_OPL`: the block and the size returned, a uint32_t.
unfoldable pub pack_opl : Params → (ℕ → List ℕ) → List ℕ → List MtpProperty → Option (List ℕ × ℕ)
pack_opl p malloc packed props = pack_each p malloc packed (take max_mtp_props props) >>= λ items.
    let totalsize : ℕ = (4 + items_size items) % 2 ^ 32 in
    htod32a p.byteorder (malloc totalsize) 0 (length items) >>= λ buf.
    write_items p.byteorder items 4 buf >>= λ buf. some (buf, totalsize)

-- An entry of the array that `ptp_unpack_OPL` fills. A value that was not set is `none`.
pub record Entry : Type 0 where
  pub property : ℕ
  pub datatype : ℕ
  pub object_handle : ℕ
  pub propval : Option PropertyValue

abbrev pub value_set : Unpacked → Option PropertyValue
value_set (ok offset value) = value
value_set (failed offset) = none

abbrev pub offset_after : Unpacked → ℕ
offset_after (ok offset value) = offset
offset_after (failed offset) = offset

-- The loop of `ptp_unpack_OPL` with `left` properties to go, at the offset `pos` of the block and
-- with `len` bytes left, which is unsigned.
unfoldable pub unpack_entries : Params → (ℕ → Bool) → List ℕ → ℕ → ℕ → ℕ → Option (List Entry)
unpack_entries p malloc_ok buf zero pos len = some []
unpack_entries p malloc_ok buf (suc left) pos len =
    let entries = dtoh32a p.byteorder buf pos >>= λ object_handle.
    dtoh16a p.byteorder buf (pos + 4) >>= λ property.
    dtoh16a p.byteorder buf (pos + 6) >>= λ datatype.
    unpack_dpv p malloc_ok (drop (pos + 8) buf) 0 ((len + 2 ^ 32 - 8) % 2 ^ 32) (kind_of datatype)
    >>= λ v.
        unpack_entries p malloc_ok buf left (pos + 8 + offset_after v)
          ((len + 2 ^ 32 - 8 + (2 ^ 32 - offset_after v % 2 ^ 32)) % 2 ^ 32)
        >>= λ rest. some (
            record {
              property = property;
              datatype = datatype;
              object_handle = object_handle;
              propval = value_set v;
            }
            ∷ rest) in
    if len == 0 then some [] else entries

-- `ptp_unpack_OPL`: the array, with its length returned. `sort` is `qsort` with `_compare_func`,
-- and `array_ok` whether `malloc` gets an array of that many entries; where it does not, no array
-- is set.
unfoldable pub unpack_opl :
    Params → (ℕ → Bool) → (ℕ → Bool) → (List Entry → List Entry) → List ℕ → ℕ → Option (List Entry)
unpack_opl p malloc_ok array_ok sort buf len = dtoh32a p.byteorder buf 0 >>= λ prop_count.
    let entries = unpack_entries p malloc_ok buf prop_count 4 ((len + 2 ^ 32 - 4) % 2 ^ 32) in
    if prop_count == 0
    then some []
    else if not (array_ok prop_count)
    then some []
    else (entries >>= λ es. some (sort es))
