-- ===== src/Pack/ObjectInfo/Layout.antt =====
-- The 52 bytes of an object info in front of the file name.
use vita_mtp.Base.{ℕ, ◌^◌, ◌<◌, ◌≡◌, refl, ap, some, List, ◌++◌, replicate}
use vita_mtp.Bytes.{ByteOrder, little, big, wire_bytes, dtoh16a, dtoh32a}
use vita_mtp.Bytes.Words.{wire_value-wire_bytes}
use vita_mtp.Pack.ObjectInfo.{ObjectInfo, pack_fields}

abbrev pub header : ByteOrder → ObjectInfo → List ℕ
header o oi =
    wire_bytes o 4 oi.storage_id
    ++ (wire_bytes o 2 oi.object_format
        ++ (wire_bytes o 2 oi.protection_status
            ++ (wire_bytes o 4 oi.object_compressed_size
                ++ (wire_bytes o 2 oi.thumb_format
                    ++ (wire_bytes o 4 oi.thumb_compressed_size
                        ++ (wire_bytes o 4 oi.thumb_pix_width
                            ++ (wire_bytes o 4 oi.thumb_pix_height
                                ++ (wire_bytes o 4 oi.image_pix_width
                                    ++ (wire_bytes o 4 oi.image_pix_height
                                        ++ (wire_bytes o 4 oi.image_bit_depth
                                            ++ (wire_bytes o 4 oi.parent_object
                                                ++ (wire_bytes o 2 oi.association_type
                                                    ++ (wire_bytes o 4 oi.association_desc
                                                        ++ wire_bytes o 4
                                                            oi.sequence_number)))))))))))))

pub pack_fields-header :
    (o : ByteOrder) (oi : ObjectInfo)
    → pack_fields o oi (replicate 568 0) ≡ some (header o oi ++ replicate 516 0)
unfolding pack_fields
pack_fields-header little oi = refl
pack_fields-header big oi = refl

-- The numbers of an object info fit their fields.
pub record IsInRange (oi : ObjectInfo) : Type 0 where
  pub storage_id_fits : oi.storage_id < 2 ^ 32
  pub object_format_fits : oi.object_format < 2 ^ 16
  pub protection_status_fits : oi.protection_status < 2 ^ 16
  pub object_compressed_size_fits : oi.object_compressed_size < 2 ^ 32
  pub thumb_format_fits : oi.thumb_format < 2 ^ 16
  pub thumb_compressed_size_fits : oi.thumb_compressed_size < 2 ^ 32
  pub thumb_pix_width_fits : oi.thumb_pix_width < 2 ^ 32
  pub thumb_pix_height_fits : oi.thumb_pix_height < 2 ^ 32
  pub image_pix_width_fits : oi.image_pix_width < 2 ^ 32
  pub image_pix_height_fits : oi.image_pix_height < 2 ^ 32
  pub image_bit_depth_fits : oi.image_bit_depth < 2 ^ 32
  pub parent_object_fits : oi.parent_object < 2 ^ 32
  pub association_type_fits : oi.association_type < 2 ^ 16
  pub association_desc_fits : oi.association_desc < 2 ^ 32
  pub sequence_number_fits : oi.sequence_number < 2 ^ 32

-- Behind any header stands what follows it, and each reader of a field finds that field.
module _ (oi : ObjectInfo) (rest : List ℕ) (ok : IsInRange oi) where
  abbrev pub HeaderReads : ByteOrder → Type 0
  HeaderReads o =
      (dtoh32a o (header o oi ++ rest) 0 ≡ some oi.storage_id)
      × (dtoh16a o (header o oi ++ rest) 4 ≡ some oi.object_format)
      × (dtoh16a o (header o oi ++ rest) 6 ≡ some oi.protection_status)
      × (dtoh32a o (header o oi ++ rest) 8 ≡ some oi.object_compressed_size)
      × (dtoh16a o (header o oi ++ rest) 12 ≡ some oi.thumb_format)
      × (dtoh32a o (header o oi ++ rest) 14 ≡ some oi.thumb_compressed_size)
      × (dtoh32a o (header o oi ++ rest) 18 ≡ some oi.thumb_pix_width)
      × (dtoh32a o (header o oi ++ rest) 22 ≡ some oi.thumb_pix_height)
      × (dtoh32a o (header o oi ++ rest) 26 ≡ some oi.image_pix_width)
      × (dtoh32a o (header o oi ++ rest) 30 ≡ some oi.image_pix_height)
      × (dtoh32a o (header o oi ++ rest) 34 ≡ some oi.image_bit_depth)
      × (dtoh32a o (header o oi ++ rest) 38 ≡ some oi.parent_object)
      × (dtoh16a o (header o oi ++ rest) 42 ≡ some oi.association_type)
      × (dtoh32a o (header o oi ++ rest) 44 ≡ some oi.association_desc)
      × (dtoh32a o (header o oi ++ rest) 48 ≡ some oi.sequence_number)

  pub header_reads : (o : ByteOrder) → HeaderReads o
  unfolding dtoh16a dtoh32a wire_bytes
  header_reads little = (
    ap some (wire_value-wire_bytes little 4 oi.storage_id ok.storage_id_fits),
    ap some (wire_value-wire_bytes little 2 oi.object_format ok.object_format_fits),
    ap some (wire_value-wire_bytes little 2 oi.protection_status ok.protection_status_fits),
    ap some
        (wire_value-wire_bytes little 4 oi.object_compressed_size ok.object_compressed_size_fits),
    ap some (wire_value-wire_bytes little 2 oi.thumb_format ok.thumb_format_fits),
    ap some (wire_value-wire_bytes little 4 oi.thumb_compressed_size ok.thumb_compressed_size_fits),
    ap some (wire_value-wire_bytes little 4 oi.thumb_pix_width ok.thumb_pix_width_fits),
    ap some (wire_value-wire_bytes little 4 oi.thumb_pix_height ok.thumb_pix_height_fits),
    ap some (wire_value-wire_bytes little 4 oi.image_pix_width ok.image_pix_width_fits),
    ap some (wire_value-wire_bytes little 4 oi.image_pix_height ok.image_pix_height_fits),
    ap some (wire_value-wire_bytes little 4 oi.image_bit_depth ok.image_bit_depth_fits),
    ap some (wire_value-wire_bytes little 4 oi.parent_object ok.parent_object_fits),
    ap some (wire_value-wire_bytes little 2 oi.association_type ok.association_type_fits),
    ap some (wire_value-wire_bytes little 4 oi.association_desc ok.association_desc_fits),
    ap some (wire_value-wire_bytes little 4 oi.sequence_number ok.sequence_number_fits),
  )
  header_reads big = (
    ap some (wire_value-wire_bytes big 4 oi.storage_id ok.storage_id_fits),
    ap some (wire_value-wire_bytes big 2 oi.object_format ok.object_format_fits),
    ap some (wire_value-wire_bytes big 2 oi.protection_status ok.protection_status_fits),
    ap some (wire_value-wire_bytes big 4 oi.object_compressed_size ok.object_compressed_size_fits),
    ap some (wire_value-wire_bytes big 2 oi.thumb_format ok.thumb_format_fits),
    ap some (wire_value-wire_bytes big 4 oi.thumb_compressed_size ok.thumb_compressed_size_fits),
    ap some (wire_value-wire_bytes big 4 oi.thumb_pix_width ok.thumb_pix_width_fits),
    ap some (wire_value-wire_bytes big 4 oi.thumb_pix_height ok.thumb_pix_height_fits),
    ap some (wire_value-wire_bytes big 4 oi.image_pix_width ok.image_pix_width_fits),
    ap some (wire_value-wire_bytes big 4 oi.image_pix_height ok.image_pix_height_fits),
    ap some (wire_value-wire_bytes big 4 oi.image_bit_depth ok.image_bit_depth_fits),
    ap some (wire_value-wire_bytes big 4 oi.parent_object ok.parent_object_fits),
    ap some (wire_value-wire_bytes big 2 oi.association_type ok.association_type_fits),
    ap some (wire_value-wire_bytes big 4 oi.association_desc ok.association_desc_fits),
    ap some (wire_value-wire_bytes big 4 oi.sequence_number ok.sequence_number_fits),
  )
