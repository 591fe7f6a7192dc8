-- ===== src/Database/Entries.antt =====
-- Objects and filters as `initDatabase`, `addToDatabase` and `createFilter` of src/database.c
-- make them.
use vita_mtp.Base.{ℕ, bit_and, bit_or, Option, none, some, List, [], ◌∷◌, ◌++◌, if◌then◌else◌}
use vita_mtp.Database.DataType
use vita_mtp.Database.DirType
use vita_mtp.Database.{
  MediaData, no_data, save_data, photo, music, video, Metadata, CmaObject, mask_set,
}

-- `p ? p : ""`.
abbrev pub string_or_empty : Option (List ℕ) → List ℕ
string_or_empty none = []
string_or_empty (some s) = s

-- The `else if` chain of `addToDatabase`. Strings that are made empty are [].
abbrev pub new_media : CmaObject → List ℕ → ℕ → MediaData
new_media root name data_type =
    if mask_set data_type (bit_or DataType.save_data DataType.folder)
    then save_data name [] name [] 0 1
    else if mask_set data_type (bit_or DataType.photo DataType.file)
    then photo name name 28 1 0 (record { type = 3; codec_type = 17 } ∷ [])
    else if mask_set data_type (bit_or DataType.music DataType.file)
    then music name name 20 1 (string_or_empty root.metadata.name) []
        (record { type = 1; codec_type = 12 } ∷ [])
    else if mask_set data_type (bit_or DataType.video DataType.file)
    then video name [] name [] 0 1 1 0 (record { type = 2; codec_type = 3 } ∷ [])
    else no_data

-- "%s/%s".
abbrev pub join_path : List ℕ → List ℕ → List ℕ
join_path dir name = dir ++ 47 ∷ name

abbrev pub relative_path : Option (List ℕ) → List ℕ → List ℕ
relative_path none name = name
relative_path (some dir) name = join_path dir name

-- `type | (root->metadata.dataType & ~Folder)`, on 32 bits.
abbrev pub child_data_type : ℕ → ℕ → ℕ
child_data_type type root_type = bit_or type (bit_and root_type 0xfffffffe)

-- `current`.
abbrev pub new_entry : CmaObject → ℕ → List ℕ → ℕ → ℕ → CmaObject
new_entry root ohfi name size type =
    let data_type = child_data_type type root.metadata.data_type in
    record {
      metadata = record {
        ohfi_parent = root.metadata.ohfi;
        ohfi = ohfi;
        handle = 0;
        name = some name;
        path = some (relative_path root.metadata.path name);
        type = DirType.regular;
        date_time_created = 0;
        size = size;
        data_type = data_type;
        media = new_media root name data_type;
      };
      path = join_path root.path name;
      filters = [];
    }

-- `createFilter`, with the id that it takes.
abbrev pub create_filter : Metadata → ℕ → List ℕ → ℕ → Metadata
create_filter dir ohfi name type = record {
  ohfi_parent = dir.ohfi;
  ohfi = ohfi;
  handle = 0;
  name = some name;
  path = some (string_or_empty dir.path);
  type = type;
  date_time_created = 0;
  size = 0;
  data_type = bit_or DataType.folder DataType.special;
  media = no_data;
}

-- The fields that `initDatabase` sets of a master object that was cleared.
abbrev pub master_metadata : ℕ → ℕ → Metadata
master_metadata ohfi data_type = record {
  ohfi_parent = 0;
  ohfi = ohfi;
  handle = 0;
  name = none;
  path = none;
  type = bit_or DirType.root DirType.regular;
  date_time_created = 0;
  size = 0;
  data_type = data_type;
  media = no_data;
}

abbrev pub master : ℕ → ℕ → List ℕ → List Metadata → List CmaObject
master ohfi data_type path filters =
    record { metadata = master_metadata ohfi data_type; path = path; filters = filters } ∷ []
