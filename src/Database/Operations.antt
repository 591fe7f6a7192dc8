-- ===== src/Database/Operations.antt =====
-- The operations on the database of src/database.c: `initDatabase`, `addToDatabase`, the lookups
-- and the filters. The mutex is recursive and held throughout each, so each is one step.
use vita_mtp.Base.{
  ℕ, zero, suc, ◌+◌, bit_and, bit_or, Bool, false, not, ◌&&◌, ◌||◌, Option, none, some, ◌>>=◌, List,
  [], ◌∷◌, ◌++◌, ◌==◌, if◌then◌else◌, length, get_elem?,
}
use vita_mtp.Database.{Metadata, CmaObject, Database, ohfi_of, parent_of, mask_set}
use vita_mtp.Database.DataType
use vita_mtp.Database.DirType
use vita_mtp.Database.Entries.{master, master_metadata, create_filter, new_entry, join_path}

-- `struct cma_paths`.
pub record Paths : Type 0 where
  pub photos : List ℕ
  pub videos : List ℕ
  pub music : List ℕ
  pub apps : List ℕ
  pub packages : List ℕ

-- "Folders" and "All".
abbrev pub folders_name : List ℕ
folders_name = 70 ∷ 111 ∷ 108 ∷ 100 ∷ 101 ∷ 114 ∷ 115 ∷ []

abbrev pub all_name : List ℕ
all_name = 65 ∷ 108 ∷ 108 ∷ []

-- "%s/%s/%s".
abbrev pub app_path : List ℕ → List ℕ → List ℕ → List ℕ
app_path apps kind uuid = join_path (join_path apps kind) uuid

abbrev pub ohfi_offset : ℕ
ohfi_offset = 1000

-- Calls of `createFilter` one after the other, each with `g_ohfi_count++` as its id: the filters, and
-- the count behind them.
abbrev pub create_filters : Metadata → ℕ → List (List ℕ × ℕ) → List Metadata × ℕ
create_filters dir count [] = ([], count)
create_filters dir count ((name, type) ∷ rest) =
    let others = create_filters dir (count + 1) rest in
    (create_filter dir count name type ∷ others.0, others.1)

-- The master objects of the photos, the videos and the music, and the count behind their filters.
abbrev pub media_masters : Paths → ℕ → List (List CmaObject) × ℕ
media_masters paths count =
    let photos = master_metadata 2 DataType.photo in
    let videos = master_metadata 3 DataType.video in
    let music = master_metadata 1 DataType.music in
    let folders : ℕ = bit_or DirType.root DirType.regular in
    let all : ℕ = bit_or DirType.root DirType.all in
    let of_photos =
      create_filters photos count (
        (folders_name, bit_or DirType.photo folders) ∷ (all_name, bit_or DirType.photo all) ∷ []) in
    let of_videos =
      create_filters videos of_photos.1 (
        (folders_name, bit_or DirType.video folders) ∷ (all_name, bit_or DirType.video all) ∷ []) in
    let of_music =
      create_filters music of_videos.1
        ((all_name, bit_or DirType.music (bit_or DirType.root DirType.songs)) ∷ []) in
    (
      master 2 DataType.photo paths.photos of_photos.0
          ∷ master 3 DataType.video paths.videos of_videos.0
          ∷ master 1 DataType.music paths.music of_music.0
          ∷ [],
      of_music.1,
    )

-- The others: packages, then the applications, then the backups.
abbrev pub app_masters : Paths → List ℕ → List (List CmaObject)
app_masters paths uuid =
    let app : ℕ → ℕ → List ℕ → List CmaObject =
      (λ ohfi data_type kind. master ohfi data_type (app_path paths.apps kind uuid) []) in
    master 5 DataType.game paths.packages []
    ∷ app 0xa DataType.app (65 ∷ 80 ∷ 80 ∷ [])
    ∷ app 0xd DataType.app (80 ∷ 71 ∷ 65 ∷ 77 ∷ 69 ∷ [])
    ∷ app 0xe DataType.save_data (80 ∷ 83 ∷ 65 ∷ 86 ∷ 69 ∷ 68 ∷ 65 ∷ 84 ∷ 65 ∷ [])
    ∷ app 0x10 DataType.app (80 ∷ 83 ∷ 71 ∷ 65 ∷ 77 ∷ 69 ∷ [])
    ∷ app 0x12 DataType.app (80 ∷ 83 ∷ 77 ∷ [])
    ∷ app 6 DataType.app (83 ∷ 89 ∷ 83 ∷ 84 ∷ 69 ∷ 77 ∷ [])
    ∷ []

unfoldable pub init_database : Paths → List ℕ → Database
init_database paths uuid =
    let media = media_masters paths ohfi_offset in
    record { lists = media.0 ++ app_masters paths uuid; ohfi_count = media.1 }

-- A pointer to an object of the database: the number of the list and the place in it.
pub record Ref : Type 0 where
  pub list : ℕ
  pub place : ℕ

unfoldable pub fetch_object : Database → Ref → Option CmaObject
fetch_object db ref = get_elem? db.lists ref.list >>= λ xs. get_elem? xs ref.place

-- The list of a number, with an object linked behind its last one.
unfoldable pub append_to : ℕ → CmaObject → List (List CmaObject) → List (List CmaObject)
append_to i x [] = []
append_to zero x (xs ∷ lists) = (xs ++ x ∷ []) ∷ lists
append_to (suc i) x (xs ∷ lists) = xs ∷ append_to i x lists

-- `none` where `root` does not point to an object; allocations are taken to succeed, as the
-- source does.
unfoldable pub add_to_database : Database → Ref → List ℕ → ℕ → ℕ → Option Database
add_to_database db root_ref name size type = fetch_object db root_ref >>= λ root. some (record {
  lists = append_to root_ref.list (new_entry root db.ohfi_count name size type) db.lists;
  ohfi_count = db.ohfi_count + 1;
})

unfoldable pub has_filter : ℕ → List Metadata → Bool
has_filter ohfi [] = false
has_filter ohfi (f ∷ filters) = (f.ohfi == ohfi) || has_filter ohfi filters

-- The loop over one list, whose `break` on a filter leaves the loop over the filters only.
unfoldable pub find_in : ℕ → List CmaObject → ℕ → Option ℕ → Option ℕ
find_in ohfi [] place found = found
find_in ohfi (x ∷ xs) place found =
    let rest =
      find_in ohfi xs (suc place) (if has_filter ohfi x.filters then some place else found) in
    if ohfi_of x == ohfi then some place else rest

unfoldable pub find_ohfi : ℕ → List (List CmaObject) → ℕ → Option Ref
find_ohfi ohfi [] i = none
find_ohfi ohfi (xs ∷ lists) i =
    let rest = find_ohfi ohfi lists (suc i) in
    elim (find_in ohfi xs 0 none) [
      | none ↦ rest
      | some place ↦ some (record { list = i; place = place })
    ]

unfoldable pub ohfi_to_object : Database → ℕ → Option Ref
ohfi_to_object db ohfi = find_ohfi ohfi db.lists 0

-- `acceptFilteredObject`, whose `result` is only tested.
unfoldable pub accept_filtered_object : CmaObject → CmaObject → ℕ → Bool
accept_filtered_object parent current type =
    let data_type = current.metadata.data_type in
    let kind : Bool =
      if mask_set type DirType.photo
      then not (bit_and data_type DataType.photo == 0)
      else if mask_set type DirType.video
      then not (bit_and data_type DataType.video == 0)
      else if mask_set type DirType.music
      then not (bit_and data_type DataType.music == 0)
      else false in
    if not (bit_and type (bit_or DirType.all DirType.songs) == 0)
    then kind && not (bit_and data_type DataType.file == 0)
    else if not (bit_and type DirType.regular == 0)
    then ohfi_of parent == parent_of current
    else kind

-- The type of the filter of an id, or the type of the object.
unfoldable pub filter_type : ℕ → List Metadata → ℕ → ℕ
filter_type ohfi [] type = type
filter_type ohfi (f ∷ filters) type =
    if f.ohfi == ohfi then f.type else filter_type ohfi filters type

unfoldable pub accepted : CmaObject → ℕ → List CmaObject → List Metadata
accepted parent type [] = []
accepted parent type (x ∷ xs) =
    if accept_filtered_object parent x type
    then x.metadata ∷ accepted parent type xs
    else accepted parent type xs

-- The loop over the lists, which ends behind the first list with an accepted object.
unfoldable pub first_accepted : CmaObject → ℕ → List (List CmaObject) → List Metadata
first_accepted parent type [] = []
first_accepted parent type (xs ∷ lists) = elim (accepted parent type xs) [
  | [] ↦ first_accepted parent type lists
  | m ∷ ms ↦ m ∷ ms
]

-- `filterObjects` with `getFilters`: the metadata that `*p_head` links; their number is returned.
-- `filters > 0` is taken as whether there are filters.
unfoldable pub filter_objects : Database → ℕ → List Metadata
filter_objects db ohfi = elim (ohfi_to_object db ohfi >>= fetch_object db) [
  | none ↦ []
  | some parent ↦
      let type = filter_type ohfi parent.filters parent.metadata.type in
      if length parent.filters == 0
      then first_accepted parent parent.metadata.type db.lists
      else if ohfi == ohfi_of parent
      then parent.filters
      else first_accepted parent type db.lists
]
