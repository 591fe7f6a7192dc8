-- ===== src/Pack/Tests.antt =====
-- The theorems on arrays and object infos at concrete data.
use vita_mtp.Base.{
  ℕ, ◌≡◌, refl, some, none, List, [], ◌∷◌, length, replicate, length-replicate, arith, pos,
}
use vita_mtp.Bytes.{little, big, fetch}
use vita_mtp.Pack.Params.{Params}
use vita_mtp.Pack.Strings.{host_units}
use vita_mtp.Pack.Strings.RoundTrip.{IsCarried}
use vita_mtp.Pack.Arrays.{pack_u32_array, unpack_u32_array}
use vita_mtp.Pack.Arrays.RoundTrip.{unpack_u32_array-pack_u32_array}
use vita_mtp.Pack.ObjectInfo.{ObjectInfo, pack_object_info, unpack_object_info}
use vita_mtp.Pack.ObjectInfo.RoundTrip.{unpack_object_info-pack_object_info}

abbrev handles : List ℕ
handles = 0x10002 ∷ 7 ∷ []

unpack_u32_array-pack_u32_array_example :
    (buf : List ℕ) × (pack_u32_array big (λ n. replicate n 9) handles ≡ some (buf, length buf))
    × (unpack_u32_array big buf 0 ≡ some handles)
unpack_u32_array-pack_u32_array_example =
    unpack_u32_array-pack_u32_array big (λ n. replicate n 9) handles (λ n. length-replicate n 9)
      (omega arith) (omega arith)

-- A device that is written to without converters, and the object info of a folder.
abbrev device : Params
device = record {
  byteorder = little;
  host = little;
  cd_locale_to_ucs2 = none;
  cd_ucs2_to_locale = none;
}

abbrev folder : ObjectInfo
folder = record {
  storage_id = 0x10001;
  object_format = 0x3001;
  protection_status = 0;
  object_compressed_size = 4096;
  thumb_format = 0;
  thumb_compressed_size = 0;
  thumb_pix_width = 0;
  thumb_pix_height = 0;
  image_pix_width = 0;
  image_pix_height = 0;
  image_bit_depth = 0;
  parent_object = 12;
  association_type = 1;
  association_desc = 0;
  sequence_number = 0;
  filename = some (b'a' ∷ b'b' ∷ []);
  capture_date = pos 5;
  modification_date = pos 6;
}

unpack_object_info-pack_object_info_example :
    (buf wire : List ℕ) × (len : ℕ) × (pack_object_info device folder ≡ some (buf, len))
    × (fetch buf 0 len ≡ some wire)
    × (unpack_object_info device (λ _. pos 1) wire
        ≡ some (record folder { capture_date = pos 0; modification_date = pos 0 }))
unfolding host_units
unpack_object_info-pack_object_info_example =
    unpack_object_info-pack_object_info device folder (λ _. pos 1) (b'a' ∷ b'b' ∷ [])
      (b'a' ∷ 0 ∷ b'b' ∷ 0 ∷ []) 2 refl (IsCarried.plain refl refl refl (omega arith) refl refl)
      (omega arith) (omega arith)
