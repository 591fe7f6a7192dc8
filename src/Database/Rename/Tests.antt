-- ===== src/Database/Rename/Tests.antt =====
-- Renaming an entry of a small database of src/database.c.
use Prim.{tt}
use vita_mtp.Base.{ℕ, ◌≡◌, ◌≢◌, refl, some, List, [], ◌∷◌, All, map, arith}
use vita_mtp.Database.{CmaObject, no_data}
use vita_mtp.Database.Rename.{rename, rename_root_entry, renamed, strreplace, strstr}
use vita_mtp.Database.Rename.Correct.{IsNamed, rename_root_entry_lem, shape}
use vita_mtp.Text.{behind}

-- An object by its number, its parent, its name, and its paths.
abbrev object : ℕ → ℕ → List ℕ → List ℕ → List ℕ → CmaObject
object id parent name rel_path path = record {
  metadata = record {
    ohfi_parent = parent;
    ohfi = id;
    handle = 0;
    name = some name;
    path = some rel_path;
    type = 1;
    date_time_created = 0;
    size = 0;
    data_type = 0;
    media = no_data;
  };
  path = path;
  filters = [];
}

-- The folder a in /p with a file b, and a file of another folder.
abbrev folder : CmaObject
folder = object 6 1 (b'a' ∷ []) (b'a' ∷ []) (b'/' ∷ b'p' ∷ b'/' ∷ b'a' ∷ [])

abbrev files : List CmaObject
files =
    object 7 6 (b'b' ∷ []) (b'a' ∷ b'/' ∷ b'b' ∷ []) (b'/' ∷ b'p' ∷ b'/' ∷ b'a' ∷ b'/' ∷ b'b' ∷ [])
    ∷ object 8 1 (b'a' ∷ []) (b'a' ∷ []) (b'/' ∷ b'a' ∷ [])
    ∷ []

object_IsNamed :
    (id parent : ℕ) (name rel_path path : List ℕ)
    → parent ≢ id
    → IsNamed (object id parent name rel_path path)
object_IsNamed id parent name rel_path path h = record {
  name = name;
  path = rel_path;
  named = refl;
  placed = refl;
  other_parent = h;
}

folder-IsNamed : All IsNamed (folder ∷ files)
folder-IsNamed = (
  object_IsNamed _ _ _ _ _ (λ e. omega (arith, e)),
  (
    object_IsNamed _ _ _ _ _ (λ e. omega (arith, e)),
    (object_IsNamed _ _ _ _ _ (λ e. omega (arith, e)), tt),
  ),
)

rename_root_entry_lem_example :
    (y : CmaObject) × (ys : List CmaObject) × (rename_root_entry (b'c' ∷ []) (folder ∷ files)
      ≡ some (y ∷ ys))
    × (map shape (y ∷ ys) ≡ map shape (folder ∷ files))
    × (y.metadata.name ≡ some (b'c' ∷ []))
rename_root_entry_lem_example = rename_root_entry_lem (b'c' ∷ []) folder files folder-IsNamed

-- The child is found under the new name.
test_child :
    rename_root_entry (b'c' ∷ []) (folder ∷ files)
    ≡ some (
        object 6 1 (b'c' ∷ []) (b'c' ∷ []) (b'/' ∷ b'p' ∷ b'/' ∷ b'c' ∷ [])
        ∷ object 7 6
            (b'b' ∷ [])
            (b'c' ∷ b'/' ∷ b'b' ∷ [])
            (b'/' ∷ b'p' ∷ b'/' ∷ b'c' ∷ b'/' ∷ b'b' ∷ [])
        ∷ object 8 1 (b'a' ∷ []) (b'a' ∷ []) (b'/' ∷ b'a' ∷ [])
        ∷ [])
unfolding rename_root_entry rename renamed strreplace strstr behind
test_child = refl

-- The file a in /ma: the letter of the folder is replaced, and the path leads elsewhere.
test_other_folder :
    rename_root_entry
      (b'c' ∷ [])
      (object 6 1 (b'a' ∷ []) (b'a' ∷ []) (b'/' ∷ b'm' ∷ b'a' ∷ b'/' ∷ b'a' ∷ []) ∷ [])
    ≡ some (object 6 1 (b'c' ∷ []) (b'c' ∷ []) (b'/' ∷ b'm' ∷ b'c' ∷ b'/' ∷ b'a' ∷ []) ∷ [])
unfolding rename_root_entry rename renamed strreplace strstr behind
test_other_folder = refl
