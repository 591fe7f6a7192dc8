-- ===== src/Pack/Storage.antt =====
-- The datasets of storages and object handles of src/ptp-pack.c: `ptp_unpack_SI`, `ptp_unpack_SIDs`
-- and `ptp_unpack_OH`.
use vita_mtp.Base.{ℕ, ◌+◌, ◌*◌, Option, some, ◌>>=◌, List, [], ◌==◌, if◌then◌else◌}
use vita_mtp.Bytes.{dtoh16a, dtoh32a, dtoh64a}
use vita_mtp.Pack.Params.{Params}
use vita_mtp.Pack.Strings.{unpack_string}
use vita_mtp.Pack.Arrays.{unpack_u32_array}

-- `PTPStorageInfo`.
pub record StorageInfo : Type 0 where
  pub storage_type : ℕ
  pub filesystem_type : ℕ
  pub access_capability : ℕ
  pub max_capability : ℕ
  pub free_space_in_bytes : ℕ
  pub free_space_in_images : ℕ
  pub storage_description : Option (List ℕ)
  pub volume_label : Option (List ℕ)

unfoldable pub unpack_si : Params → List ℕ → Option StorageInfo
unpack_si p buf = do
  let o = p.byteorder
  storage_type ← dtoh16a o buf 0
  filesystem_type ← dtoh16a o buf 2
  access_capability ← dtoh16a o buf 4
  max_capability ← dtoh64a o buf 6
  free_space_in_bytes ← dtoh64a o buf 14
  free_space_in_images ← dtoh32a o buf 22
  (storage_description, storagedescriptionlen) ← unpack_string p buf 26
  (volume_label, _) ← unpack_string p buf (26 + storagedescriptionlen * 2 + 1)
  some (record {
    storage_type = storage_type;
    filesystem_type = filesystem_type;
    access_capability = access_capability;
    max_capability = max_capability;
    free_space_in_bytes = free_space_in_bytes;
    free_space_in_images = free_space_in_images;
    storage_description = storage_description;
    volume_label = volume_label;
  })

-- `PTPStorageIDs` and `PTPObjectHandles` are arrays with their length. The length of the storage
-- dataset is not looked at.
unfoldable pub unpack_sids : Params → List ℕ → Option (List ℕ)
unpack_sids p buf = unpack_u32_array p.byteorder buf 0

unfoldable pub unpack_oh : Params → List ℕ → ℕ → Option (List ℕ)
unpack_oh p buf len =
    let handles = unpack_u32_array p.byteorder buf 0 in if len == 0 then some [] else handles
