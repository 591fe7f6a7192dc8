-- ===== src/Database/Rename/Correct.antt =====
-- `renameRootEntry` of src/database.c ends, and changes only names and paths.
use mathlib.Core.List.{append-nil}
use Prim.{tt}
use vita_mtp.Base.{
  ℕ, zero, suc, ◌+◌, ◌≤◌, ◌<◌, ◌≡◌, ◌≢◌, inl, inr, refl, ap, ◌∙◌, Bool-cases, true, Option, none,
  some, ◌>>=◌, List, [], ◌∷◌, All, arith, length, map, ◌==◌, ==_false, drop,
}
use vita_mtp.Database.{CmaObject, ohfi_of, parent_of}
use vita_mtp.Database.Entries.{join_path}
use vita_mtp.Database.Rename.{
  Renaming, children, entry, rename, rename_root_entry, renamed, strreplace, strstr,
}
use vita_mtp.Text.{behind}

-- What a renaming leaves of an object: all but the name and the paths.
abbrev pub shape : CmaObject → CmaObject
shape x = record x { metadata = record x.metadata { name = none; path = none }; path = [] }

-- An object with a name and a path, which is not its own parent.
pub record IsNamed (x : CmaObject) : Type 0 where
  pub name : List ℕ
  pub path : List ℕ
  pub named : x.metadata.name ≡ some name
  pub placed : x.metadata.path ≡ some path
  pub other_parent : parent_of x ≢ ohfi_of x

-- A renaming that has ended.
record Renames (xs : List CmaObject) (o : Option (List CmaObject)) : Type 0 where
  left : List CmaObject
  ran : o ≡ some left
  same : map shape left ≡ map shape xs
  good : All IsNamed left

length-shape : (xs ys : List CmaObject) → map shape xs ≡ map shape ys → length xs ≡ length ys
length-shape [] [] e = refl
length-shape [] (y ∷ ys) e = absurd (cc e)
length-shape (x ∷ xs) [] e = absurd (cc e)
length-shape (x ∷ xs) (y ∷ ys) e = ap suc (length-shape xs ys (cc e))

-- The object itself.
new_strings : List ℕ → List ℕ → (x : CmaObject) → IsNamed x → CmaObject
new_strings name newname x g = record x {
  metadata = record x.metadata {
    name = some (strreplace g.name name newname);
    path = some (strreplace g.path name newname);
  };
  path = strreplace x.path g.path (strreplace g.path name newname);
}

renamed_lem :
    (name newname : List ℕ) (x : CmaObject) (g : IsNamed x)
    → renamed name newname x ≡ some (new_strings name newname x g)
unfolding renamed new_strings
renamed_lem name newname x g = rw (renamed, g.named, g.placed) refl

new_strings-shape :
    (name newname : List ℕ) (x : CmaObject) (g : IsNamed x)
    → shape (new_strings name newname x g) ≡ shape x
unfolding new_strings
new_strings-shape name newname x g = refl

new_strings-IsNamed :
    (name newname : List ℕ) (x : CmaObject) (g : IsNamed x) → IsNamed (new_strings name newname x g)
unfolding new_strings
new_strings-IsNamed name newname x g = record {
  name = strreplace g.name name newname;
  path = strreplace g.path name newname;
  named = refl;
  placed = refl;
  other_parent = g.other_parent;
}

-- A call, from its loop.
entry-round :
    (fuel : ℕ) (name newname : List ℕ) (x : CmaObject) (rest ys : List CmaObject) (g : IsNamed x)
    → rename fuel (children (ohfi_of x) g.path (strreplace g.path name newname)) rest ≡ some ys
    → rename (suc fuel) (entry name newname) (x ∷ rest) ≡ some (new_strings name newname x g ∷ ys)
unfolding rename new_strings
entry-round fuel name newname x rest ys g e =
    rw
      (==_false (parent_of x) (ohfi_of x) g.other_parent, renamed_lem name newname x g, g.placed, e)
      refl

-- A round of the loop with a child, whose call has left some objects.
child-Renames :
    (fuel ohfi : ℕ) (from to name : List ℕ) (x : CmaObject) (rest zs : List CmaObject)
    → (parent_of x == ohfi) ≡ true
    → x.metadata.name ≡ some name
    → rename fuel (entry (join_path from name) (join_path to name)) (x ∷ rest) ≡ some zs
    → map shape zs ≡ map shape (x ∷ rest)
    → All IsNamed zs
    → ((ys : List CmaObject)
        → All IsNamed ys
        → length ys ≡ length rest
        → Renames ys (rename fuel (children ohfi from to) ys))
    → Renames (x ∷ rest) (rename (suc fuel) (children ohfi from to) (x ∷ rest))
unfolding rename
child-Renames fuel ohfi from to name x rest [] p n e s g next = absurd (cc s)
child-Renames fuel ohfi from to name x rest (y ∷ ys) p n e s g next =
    let tails : map shape ys ≡ map shape rest = cc s in
    let more = next ys g.1 (length-shape ys rest tails) in
    record {
      left = y ∷ more.left;
      ran = simp (p, n, e, more.ran) refl;
      same = cc (s, more.same);
      good = (g.0, more.good);
    }

-- Enough fuel.
abbrev rounds : Renaming → List CmaObject → ℕ
rounds (entry name newname) xs = length xs + length xs
rounds (children ohfi from to) xs = length xs + length xs + 1

abbrev Fits : Renaming → List CmaObject → Type 0
Fits (entry name newname) xs = 0 < length xs
Fits (children ohfi from to) xs = 0 ≤ length xs

rename-Renames :
    (fuel : ℕ) (task : Renaming) (xs : List CmaObject)
    → All IsNamed xs
    → Fits task xs
    → rounds task xs ≤ fuel
    → Renames xs (rename fuel task xs)
unfolding rename
rename-Renames zero (entry name newname) xs g f k = absurd (omega arith)
rename-Renames zero (children ohfi from to) xs g f k = absurd (omega arith)
rename-Renames (suc fuel) (entry name newname) [] g f k = absurd (omega arith)
rename-Renames (suc fuel) (entry name newname) (x ∷ rest) g f k =
    let moved = strreplace g.0.path name newname in
    let more =
      rename-Renames fuel (children (ohfi_of x) g.0.path moved) rest g.1 (omega arith)
        (omega arith) in
    record {
      left = new_strings name newname x g.0 ∷ more.left;
      ran = entry-round fuel name newname x rest more.left g.0 more.ran;
      same = cc (new_strings-shape name newname x g.0, more.same);
      good = (new_strings-IsNamed name newname x g.0, more.good);
    }
rename-Renames (suc fuel) (children ohfi from to) [] g f k = record {
  left = [];
  ran = refl;
  same = refl;
  good = tt;
}
rename-Renames (suc fuel) (children ohfi from to) (x ∷ rest) g f k =
    elim (Bool-cases (parent_of x == ohfi)) [
      | inl child ↦
          let n = g.0.name in
          let zs =
            rename-Renames fuel (entry (join_path from n) (join_path to n)) (x ∷ rest) g
              (omega arith) (omega arith) in
          child-Renames fuel ohfi from to n x rest zs.left child g.0.named zs.ran zs.same zs.good
            (λ ys h l.
              rename-Renames fuel (children ohfi from to) ys h (omega arith) (omega (arith, k, l)))
      | inr other ↦
          let more =
            rename-Renames fuel (children ohfi from to) rest g.1 (omega arith) (omega arith) in
          record {
            left = x ∷ more.left;
            ran = rw (other, more.ran) refl;
            same = ap (λ ys. shape x ∷ ys) more.same;
            good = (g.0, more.good);
          }
    ]

-- A text is replaced in itself.
behind_self : (s : List ℕ) → behind s s ≡ some []
unfolding behind
behind_self [] = refl
behind_self (c ∷ cs) = ground (arith, behind_self cs)

drop_self : (s : List ℕ) → drop (length s) s ≡ []
drop_self [] = refl
drop_self (c ∷ cs) = drop_self cs

drop_start : (s : List ℕ) → drop (0 + length s) s ≡ []
drop_start s = ap (λ n. drop n s) (omega arith) ∙ drop_self s

strreplace_self : (s replace : List ℕ) → strreplace s s replace ≡ replace
unfolding strreplace strstr behind
strreplace_self [] replace = append-nil replace
strreplace_self (c ∷ cs) replace =
    rw (strreplace, strstr, behind_self (c ∷ cs), drop_start (c ∷ cs)) (append-nil replace)

-- `renameRootEntry` with a null `name`, on a list whose objects have names and paths and are not their
-- own parents: it ends, the object gets the new name, and of all objects, in their order, nothing
-- but names and paths is changed.
pub rename_root_entry_lem :
    (newname : List ℕ) (x : CmaObject) (rest : List CmaObject)
    → All IsNamed (x ∷ rest)
    → (y : CmaObject) × (ys : List CmaObject) × (rename_root_entry newname (x ∷ rest)
        ≡ some (y ∷ ys))
      × (map shape (y ∷ ys) ≡ map shape (x ∷ rest))
      × (y.metadata.name ≡ some newname)
unfolding rename_root_entry new_strings
rename_root_entry_lem newname x rest g =
    let name = g.0.name in
    let moved = strreplace g.0.path name newname in
    let fuel = length rest + length (x ∷ rest) in
    let more =
      rename-Renames fuel (children (ohfi_of x) g.0.path moved) rest g.1 (omega arith)
        (omega arith) in
    let enough : length (x ∷ rest) + length (x ∷ rest) ≡ suc fuel = omega arith in
    (
      new_strings name newname x g.0,
      more.left,
      ap
            (λ m. m >>= λ n.
              rename (length (x ∷ rest) + length (x ∷ rest)) (entry n newname) (x ∷ rest))
            g.0.named
          ∙ (ap (λ n. rename n (entry name newname) (x ∷ rest)) enough
              ∙ entry-round fuel name newname x rest more.left g.0 more.ran),
      cc (new_strings-shape name newname x g.0, more.same),
      ap some (strreplace_self name newname),
    )
