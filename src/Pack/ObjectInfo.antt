-- ===== src/Pack/ObjectInfo.antt =====
-- `ptp_pack_OI` and `ptp_unpack_OI` of src/ptp-pack.c, lines 439 to 516 and 563 to 604.
pub mod Layout
pub mod RoundTrip
use vita_mtp.Base.{
  ℕ, ◌+◌, ◌*◌, ◌%◌, ◌^◌, ◌≡◌, refl, Option, none, some, List, [], ◌∷◌, ◌>>=◌, replicate, ℤ,
}
use vita_mtp.Bytes.{ByteOrder, dtoh16a, dtoh32a, htod16a, htod32a}
use vita_mtp.Pack.Params.{Params}
use vita_mtp.Pack.Strings.{pack_string, unpack_string}
use vita_mtp.Pack.Times.{Tm, unpack_time}

-- `PTPObjectInfo` (src/ptp.h). The dates are of type `time_t`.
pub record ObjectInfo : Type 0 where
  pub storage_id : ℕ
  pub object_format : ℕ
  pub protection_status : ℕ
  pub object_compressed_size : ℕ
  pub thumb_format : ℕ
  pub thumb_compressed_size : ℕ
  pub thumb_pix_width : ℕ
  pub thumb_pix_height : ℕ
  pub image_pix_width : ℕ
  pub image_pix_height : ℕ
  pub image_bit_depth : ℕ
  pub parent_object : ℕ
  pub association_type : ℕ
  pub association_desc : ℕ
  pub sequence_number : ℕ
  pub filename : Option (List ℕ)
  pub capture_date : ℤ
  pub modification_date : ℤ

-- `PTP_oi_MaxLen`.
abbrev pub oi_max_len : ℕ
oi_max_len = 53 + (255 + 1) * 2 + 3

-- The fields in front of the file name.
unfoldable pub pack_fields : ByteOrder → ObjectInfo → List ℕ → Option (List ℕ)
unfolding htod16a htod32a
pack_fields o oi buf = do
  buf ← htod32a o buf 0 oi.storage_id
  buf ← htod16a o buf 4 oi.object_format
  buf ← htod16a o buf 6 oi.protection_status
  buf ← htod32a o buf 8 oi.object_compressed_size
  buf ← htod16a o buf 12 oi.thumb_format
  buf ← htod32a o buf 14 oi.thumb_compressed_size
  buf ← htod32a o buf 18 oi.thumb_pix_width
  buf ← htod32a o buf 22 oi.thumb_pix_height
  buf ← htod32a o buf 26 oi.image_pix_width
  buf ← htod32a o buf 30 oi.image_pix_height
  buf ← htod32a o buf 34 oi.image_bit_depth
  buf ← htod32a o buf 38 oi.parent_object
  buf ← htod16a o buf 42 oi.association_type
  buf ← htod32a o buf 44 oi.association_desc
  htod32a o buf 48 oi.sequence_number

-- The block, cleared and filled, and the length returned. A null file name is a fault.
unfoldable pub pack_object_info : Params → ObjectInfo → Option (List ℕ × ℕ)
pack_object_info p oi = do
  buf ← pack_fields p.byteorder oi (replicate oi_max_len 0)
  filename ← oi.filename
  (buf, filenamelen) ← pack_string p filename buf 52
  some (buf, 53 + filenamelen * 2 + (0 + 1) * 3)

unfoldable pub unpack_object_info : Params → (Tm → ℤ) → List ℕ → Option ObjectInfo
unpack_object_info p mktime buf = do
  let o = p.byteorder
  storage_id ← dtoh32a o buf 0
  object_format ← dtoh16a o buf 4
  protection_status ← dtoh16a o buf 6
  object_compressed_size ← dtoh32a o buf 8
  thumb_format ← dtoh16a o buf 12
  thumb_compressed_size ← dtoh32a o buf 14
  thumb_pix_width ← dtoh32a o buf 18
  thumb_pix_height ← dtoh32a o buf 22
  image_pix_width ← dtoh32a o buf 26
  image_pix_height ← dtoh32a o buf 30
  image_bit_depth ← dtoh32a o buf 34
  parent_object ← dtoh32a o buf 38
  association_type ← dtoh16a o buf 42
  association_desc ← dtoh32a o buf 44
  sequence_number ← dtoh32a o buf 48
  (filename, filenamelen) ← unpack_string p buf 52
  (capture_date, capturedatelen) ← unpack_string p buf (52 + filenamelen * 2 + 1)
  (modification_date, _) ← unpack_string p buf (52 + filenamelen * 2 + capturedatelen * 2 + 2)
  some (record {
    storage_id = storage_id;
    object_format = object_format;
    protection_status = protection_status;
    object_compressed_size = object_compressed_size;
    thumb_format = thumb_format;
    thumb_compressed_size = thumb_compressed_size;
    thumb_pix_width = thumb_pix_width;
    thumb_pix_height = thumb_pix_height;
    image_pix_width = image_pix_width;
    image_pix_height = image_pix_height;
    image_bit_depth = image_bit_depth;
    parent_object = parent_object;
    association_type = association_type;
    association_desc = association_desc;
    sequence_number = sequence_number;
    filename = filename;
    capture_date = unpack_time mktime capture_date;
    modification_date = unpack_time mktime modification_date;
  })
