-- ===== src/Database/Tests.antt =====
-- Runs of src/database.c, and the theorems about it at them.
use vita_mtp.Base.{ℕ, ◌≡◌, refl, some, List, [], ◌∷◌, arith}
use vita_mtp.Database.{CmaObject, Database}
use vita_mtp.Database.DataType
use vita_mtp.Database.Entries.{master_metadata, new_entry}
use vita_mtp.Database.Operations.{
  Paths, init_database, Ref, fetch_object, add_to_database, append_to, ohfi_to_object,
}
use vita_mtp.Database.Reach.{IsFound, Reach-IsFound, add, begin}
use vita_mtp.Database.Remove.{
  remove_from_database, done, fault, at_start, unset, walk, finish, mark, resume, unlink,
}
use vita_mtp.Database.Remove.Sweep.{sweep, survivors, IsValid}
use vita_mtp.Database.Remove.Below.{IsRest}
use vita_mtp.Database.Remove.Whole.{remove_from_database-IsRest}
use vita_mtp.Database.Remove.Correct.{remove_from_database_lem, remove_from_database-absent}
use vita_mtp.Database.Valid.{IsWellFormed, Added, add_to_database_lem}
use vita_mtp.Database.Lookup.{init_database-IsWellFormed, IsLookup, ohfi_to_object-IsLookup}

abbrev paths : Paths
paths = record {
  photos = 112 ∷ [];
  videos = 118 ∷ [];
  music = 109 ∷ [];
  apps = 97 ∷ [];
  packages = 107 ∷ [];
}

abbrev uuid : List ℕ
uuid = 117 ∷ []

abbrev initial : Database
initial = init_database paths uuid

-- The master object of the saves, a folder in it with a file and a folder with a file, and
-- another folder.
abbrev saves : CmaObject
saves = record { metadata = master_metadata 0xe DataType.save_data; path = 97 ∷ []; filters = [] }

abbrev game : CmaObject
game = new_entry saves 1005 (103 ∷ []) 0 DataType.folder

abbrev icon : CmaObject
icon = new_entry game 1006 (105 ∷ []) 10 DataType.file

abbrev sub : CmaObject
sub = new_entry game 1007 (115 ∷ []) 0 DataType.folder

abbrev other : CmaObject
other = new_entry saves 1008 (111 ∷ []) 0 DataType.folder

abbrev slot : CmaObject
slot = new_entry sub 1009 (120 ∷ []) 20 DataType.file

abbrev behind : List CmaObject
behind = game ∷ icon ∷ sub ∷ other ∷ slot ∷ []

behind-IsValid : IsValid (saves ∷ behind)
behind-IsValid = omega arith

remove_from_database_example :
    remove_from_database 1005 (saves ∷ behind) ≡ done (saves ∷ other ∷ [])
unfolding survivors sweep
remove_from_database_example = remove_from_database_lem saves behind 0 game behind-IsValid refl

remove_from_database-IsRest_example :
    (left : List CmaObject) × (remove_from_database 1005 (saves ∷ behind) ≡ done (saves ∷ left))
    × IsRest (saves ∷ behind) 1005 (saves ∷ behind) (saves ∷ left)
remove_from_database-IsRest_example =
    remove_from_database-IsRest saves behind 0 game behind-IsValid refl

-- The same by running the loop.
remove_from_database_run : remove_from_database 1005 (saves ∷ behind) ≡ done (saves ∷ other ∷ [])
unfolding remove_from_database walk finish mark resume unlink
remove_from_database_run = refl

-- The first object of the list cannot be removed.
remove_from_database_of_start : remove_from_database 0xe (saves ∷ behind) ≡ fault at_start
unfolding remove_from_database walk finish mark resume unlink
remove_from_database_of_start = refl

remove_from_database-absent_example : remove_from_database 77 (saves ∷ other ∷ []) ≡ fault unset
remove_from_database-absent_example =
    remove_from_database-absent 77 (saves ∷ other ∷ [])
      ((omega arith, omega arith), ((omega arith, omega arith), tt))

initial-IsWellFormed : IsWellFormed initial
initial-IsWellFormed = init_database-IsWellFormed paths uuid

abbrev saves_ref : Ref
saves_ref = record { list = 6; place = 0 }

abbrev saves_there : CmaObject
saves_there = record {
  metadata = master_metadata 0xe DataType.save_data;
  path = 97 ∷ 47 ∷ 80 ∷ 83 ∷ 65 ∷ 86 ∷ 69 ∷ 68 ∷ 65 ∷ 84 ∷ 65 ∷ 47 ∷ 117 ∷ [];
  filters = [];
}

add_to_database_example :
    (db : Database) × (add_to_database initial saves_ref (103 ∷ []) 0 DataType.folder ≡ some db)
    × Added initial saves_ref (new_entry saves_there 1005 (103 ∷ []) 0 DataType.folder) db
unfolding init_database fetch_object
add_to_database_example =
    add_to_database_lem initial saves_ref saves_there (103 ∷ []) 0 DataType.folder
      initial-IsWellFormed refl

ohfi_to_object-IsLookup_example : IsLookup initial 1003 (ohfi_to_object initial 1003)
ohfi_to_object-IsLookup_example = ohfi_to_object-IsLookup initial 1003

-- The database behind that call.
abbrev with_game : Database
with_game = record {
  lists = append_to 6 (new_entry saves_there 1005 (103 ∷ []) 0 DataType.folder) initial.lists;
  ohfi_count = 1006;
}

with_game-added : add_to_database initial saves_ref (103 ∷ []) 0 DataType.folder ≡ some with_game
unfolding init_database fetch_object append_to add_to_database
with_game-added = refl

Reach-IsFound_example : IsWellFormed with_game × IsFound with_game
Reach-IsFound_example =
    Reach-IsFound paths uuid with_game
      (add saves_ref (103 ∷ []) 0 DataType.folder begin with_game-added)
