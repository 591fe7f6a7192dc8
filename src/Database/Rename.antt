-- ===== src/Database/Rename.antt =====
-- `renameRootEntry` of src/database.c, on the objects from the renamed one on, and `strreplace` of
-- src/utilities.c.
pub mod Correct
mod Tests
use mathlib.Core.Option
use vita_mtp.Base.{
  ℕ, zero, suc, ◌+◌, Option, none, some, ◌>>=◌, List, [], ◌∷◌, ◌++◌, ◌==◌, if◌then◌else◌, length,
  take, drop,
}
use vita_mtp.Database.{CmaObject, ohfi_of, parent_of}
use vita_mtp.Database.Entries.{join_path}
use vita_mtp.Text.{behind}

-- `strstr`, as an offset.
unfoldable pub strstr : List ℕ → List ℕ → Option ℕ
unfolding behind
strstr [] find = elim (behind find []) [ none ↦ none | some s ↦ some 0 ]
strstr (c ∷ cs) find =
    let later = Option.map suc (strstr cs find) in
    elim (behind find (c ∷ cs)) [ none ↦ later | some s ↦ some 0 ]

-- `asprintf` is taken to get memory.
unfoldable pub strreplace : List ℕ → List ℕ → List ℕ → List ℕ
unfolding strstr
strreplace haystack find replace = elim (strstr haystack find) [
  | none ↦ haystack
  | some off ↦ take off haystack ++ (replace ++ drop (off + length find) haystack)
]

-- The three strings of an object; `none` is a null string.
unfoldable pub renamed : List ℕ → List ℕ → CmaObject → Option CmaObject
unfolding strreplace
renamed name newname x = x.metadata.name >>= λ orig_name. x.metadata.path >>= λ orig_rel_path.
    let rel_path = strreplace orig_rel_path name newname in
    some (record x {
      metadata = record x.metadata {
        name = some (strreplace orig_name name newname);
        path = some rel_path;
      };
      path = strreplace x.path orig_rel_path rel_path;
    })

-- A call for the first object of a list, or its loop for the children of an object, with the
-- relative path of that before and after.
pub data Renaming : Type 0 where
  entry : (name newname : List ℕ) → Renaming
  children : (ohfi : ℕ) (orig_rel_path rel_path : List ℕ) → Renaming

-- On fuel; `none` is a null pointer too, or an object that is its own parent, for which the source does
-- not end.
unfoldable pub rename : ℕ → Renaming → List CmaObject → Option (List CmaObject)
unfolding renamed
rename zero task xs = none
rename (suc fuel) (entry name newname) [] = none
rename (suc fuel) (entry name newname) (x ∷ rest) =
    let below = renamed name newname x >>= λ x'. x.metadata.path >>= λ orig_rel_path.
    x'.metadata.path >>= λ rel_path.
    rename fuel (children (ohfi_of x) orig_rel_path rel_path) rest >>= λ ys. some (x' ∷ ys) in
    if parent_of x == ohfi_of x then none else below
rename (suc fuel) (children ohfi orig_rel_path rel_path) [] = some []
rename (suc fuel) (children ohfi orig_rel_path rel_path) (x ∷ rest) =
    let next : List CmaObject → Option (List CmaObject) =
      (λ ys. rename fuel (children ohfi orig_rel_path rel_path) ys) in
    let child = x.metadata.name >>= λ name.
    rename fuel (entry (join_path orig_rel_path name) (join_path rel_path name)) (x ∷ rest)
    >>= λ zs. elim zs [ [] ↦ none | y ∷ ys ↦ next ys >>= λ ws. some (y ∷ ws) ] in
    let kept = next rest >>= λ ys. some (x ∷ ys) in if parent_of x == ohfi then child else kept

-- The call with a null `name`, by which the callers rename an entry. Each object takes two rounds.
unfoldable pub rename_root_entry : List ℕ → List CmaObject → Option (List CmaObject)
unfolding rename
rename_root_entry newname [] = none
rename_root_entry newname (x ∷ rest) = x.metadata.name >>= λ name.
    rename (length (x ∷ rest) + length (x ∷ rest)) (entry name newname) (x ∷ rest)
