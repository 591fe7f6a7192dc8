-- ===== src/Database.antt =====
-- The database of OpenCMA (src/database.c, src/opencma.h): the objects that the Vita is shown.
-- Strings are lists of bytes.
pub mod DataType
pub mod DirType
pub mod Entries
pub mod Operations
pub mod Reach
pub mod Remove
pub mod Rename
mod Tests
pub mod Valid
pub mod Lookup
use vita_mtp.Base.{ℕ, Bool, bit_and, Option, List, ◌==◌}

-- `struct media_track`: its type and the codec.
pub record MediaTrack : Type 0 where
  pub type : ℕ
  pub codec_type : ℕ

-- The union `metadata.data`, with the member that is in use.
pub data MediaData : Type 0 where
  no_data : MediaData
  save_data :
      (title detail dir_name savedata_title : List ℕ) (date_time_updated status_type : ℕ)
      → MediaData
  photo :
      (title file_name : List ℕ) (file_format_type status_type date_time_original : ℕ)
      → List MediaTrack
      → MediaData
  music :
      (title file_name : List ℕ) (file_format_type status_type : ℕ) (album artist : List ℕ)
      → List MediaTrack
      → MediaData
  video :
      (title explanation file_name copyright : List ℕ)
      (date_time_updated status_type file_format_type parental_level : ℕ)
      → List MediaTrack
      → MediaData

-- `metadata_t`. `handle` is used by object commands only, and `next_metadata` by the lists that
-- a query returns. A null string is `none`.
pub record Metadata : Type 0 where
  pub ohfi_parent : ℕ
  pub ohfi : ℕ
  pub handle : ℕ
  pub name : Option (List ℕ)
  pub path : Option (List ℕ)
  pub type : ℕ
  pub date_time_created : ℕ
  pub size : ℕ
  pub data_type : ℕ
  pub media : MediaData

-- `struct cma_object`. The `next_object` of the source links the objects of a list.
pub record CmaObject : Type 0 where
  pub metadata : Metadata
  pub path : List ℕ
  pub filters : List Metadata

-- `struct cma_database` as the array that the functions walk over, each master object with the
-- objects that are linked behind it; and `g_ohfi_count`.
pub record Database : Type 0 where
  pub lists : List (List CmaObject)
  pub ohfi_count : ℕ

abbrev pub ohfi_of : CmaObject → ℕ
ohfi_of x = x.metadata.ohfi

abbrev pub parent_of : CmaObject → ℕ
parent_of x = x.metadata.ohfi_parent

-- `MASK_SET`.
abbrev pub mask_set : ℕ → ℕ → Bool
mask_set v m = bit_and v m == m
