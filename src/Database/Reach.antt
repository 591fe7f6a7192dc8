-- ===== src/Database/Reach.antt =====
-- The databases of src/database.c that `initDatabase` and calls of `addToDatabase` make: every id is
-- that of one object or filter.
use mathlib.Core.Option.{some-injective}
use mathlib.Core.Path.{subst}
use vita_mtp.Base.{
  ℕ, zero, suc, ◌<◌, ◌≡◌, ◌≢◌, refl, sym, ap, ap₂, ◌∙◌, true, false, some, List, [], ◌∷◌, ◌==◌,
  get_elem?, All, All-get_elem?, inl, inr, Bool-cases, arith, ==_iff, bind-some, ◌⊎◌,
}
use vita_mtp.Database.{CmaObject, Database, Metadata, ohfi_of}
use vita_mtp.Database.Entries.{new_entry}
use vita_mtp.Database.Lookup.{Answers, init_database-IsWellFormed}
use vita_mtp.Database.Operations.{
  Paths, Ref, add_to_database, fetch_object, find_in, find_ohfi, has_filter, init_database,
  ohfi_to_object,
}
use vita_mtp.Database.Valid.{
  Added, IsBounded, IsWellFormed, add_to_database_lem, fetch_object-cases,
}

-- The databases that are made, step by step.
pub data Reach (paths : Paths) (uuid : List ℕ) : Database → Type 0 where
  begin : Reach paths uuid (init_database paths uuid)
  add :
      {db db' : Database} (root_ref : Ref) (name : List ℕ) (size type : ℕ)
      → Reach paths uuid db
      → add_to_database db root_ref name size type ≡ some db'
      → Reach paths uuid db'

-- Every id leads to the object that has it, or has a filter with it.
abbrev pub IsFound : Database → Type 0
IsFound db =
    (ref : Ref) (x : CmaObject) (ohfi : ℕ)
    → fetch_object db ref ≡ some x
    → Answers ohfi x
    → ohfi_to_object db ohfi ≡ some ref

has_filter-cons :
    (ohfi : ℕ) (f : Metadata) (fs : List Metadata)
    → has_filter ohfi (f ∷ fs) ≡ true
    → (f.ohfi ≡ ohfi) ⊎ (has_filter ohfi fs ≡ true)
unfolding has_filter
has_filter-cons ohfi f fs e = elim (Bool-cases (f.ohfi == ohfi)) [
  | inl same ↦ inl ((==_iff f.ohfi ohfi).0 same)
  | inr differ ↦ inr (rw differ at e)
]

has_filter-nil : (ohfi : ℕ) → ¬ (has_filter ohfi [] ≡ true)
unfolding has_filter
has_filter-nil ohfi e = cc

-- A list with one object, all of whose ids lead to it.
one_found :
    (db : Database) (list : ℕ) (m : CmaObject)
    → ohfi_to_object db (ohfi_of m) ≡ some (record { list = list; place = 0 })
    → All
        (λ (f : Metadata). ohfi_to_object db f.ohfi ≡ some (record { list = list; place = 0 }))
        m.filters
    → (place : ℕ) (x : CmaObject) (ohfi : ℕ) → get_elem? (m ∷ []) place ≡ some x
    → Answers ohfi x
    → ohfi_to_object db ohfi ≡ some (record { list = list; place = place })
one_found db list m own filters (suc place) x ohfi e a = absurd (cc e)
one_found db list m own filters zero x ohfi e a =
    answered (subst (Answers ohfi) (sym (some-injective _ _ e)) a)
  where
    by_filter :
        (fs : List Metadata)
        → All
            (λ (f : Metadata). ohfi_to_object db f.ohfi ≡ some (record { list = list; place = 0 }))
            fs
        → has_filter ohfi fs ≡ true
        → ohfi_to_object db ohfi ≡ some (record { list = list; place = 0 })
    by_filter [] k h = absurd (has_filter-nil ohfi h)
    by_filter (f ∷ fs) k h = elim (has_filter-cons ohfi f fs h) [
      | inl same ↦
          subst (λ n. ohfi_to_object db n ≡ some (record { list = list; place = 0 })) same k.0
      | inr later ↦ by_filter fs k.1 later
    ]

    answered : Answers ohfi m → ohfi_to_object db ohfi ≡ some (record { list = list; place = 0 })
    answered (inl same) =
        subst (λ n. ohfi_to_object db n ≡ some (record { list = list; place = 0 })) same own
    answered (inr h) = by_filter m.filters filters h

init_database-IsFound : (paths : Paths) (uuid : List ℕ) → IsFound (init_database paths uuid)
unfolding init_database fetch_object ohfi_to_object find_ohfi find_in has_filter
init_database-IsFound paths uuid ref x ohfi e a = by_list ref.list ref.place e
  where
    by_list :
        (list place : ℕ)
        → fetch_object (init_database paths uuid) (record { list = list; place = place }) ≡ some x
        → ohfi_to_object (init_database paths uuid) ohfi
          ≡ some (record { list = list; place = place })
    by_list zero place e =
        one_found (init_database paths uuid) 0 _ refl (refl, (refl, tt)) place x ohfi e a
    by_list (suc zero) place e =
        one_found (init_database paths uuid) 1 _ refl (refl, (refl, tt)) place x ohfi e a
    by_list (suc (suc zero)) place e =
        one_found (init_database paths uuid) 2 _ refl (refl, tt) place x ohfi e a
    by_list (suc (suc (suc zero))) place e =
        one_found (init_database paths uuid) 3 _ refl tt place x ohfi e a
    by_list (suc (suc (suc (suc zero)))) place e =
        one_found (init_database paths uuid) 4 _ refl tt place x ohfi e a
    by_list (suc (suc (suc (suc (suc zero))))) place e =
        one_found (init_database paths uuid) 5 _ refl tt place x ohfi e a
    by_list (suc (suc (suc (suc (suc (suc zero)))))) place e =
        one_found (init_database paths uuid) 6 _ refl tt place x ohfi e a
    by_list (suc (suc (suc (suc (suc (suc (suc zero))))))) place e =
        one_found (init_database paths uuid) 7 _ refl tt place x ohfi e a
    by_list (suc (suc (suc (suc (suc (suc (suc (suc zero)))))))) place e =
        one_found (init_database paths uuid) 8 _ refl tt place x ohfi e a
    by_list (suc (suc (suc (suc (suc (suc (suc (suc (suc zero))))))))) place e =
        one_found (init_database paths uuid) 9 _ refl tt place x ohfi e a
    by_list (suc (suc (suc (suc (suc (suc (suc (suc (suc (suc list)))))))))) place e = absurd (cc e)

has_filter-bounded :
    (count ohfi : ℕ) (fs : List Metadata)
    → All (λ (f : Metadata). f.ohfi < count) fs
    → has_filter ohfi fs ≡ true
    → ohfi < count
has_filter-bounded count ohfi [] b h = absurd (has_filter-nil ohfi h)
has_filter-bounded count ohfi (f ∷ fs) b h = elim (has_filter-cons ohfi f fs h) [
  | inl same ↦ omega (arith, same, b.0)
  | inr later ↦ has_filter-bounded count ohfi fs b.1 later
]

-- All ids in use are given out already.
Answers-bounded :
    (db : Database) (ref : Ref) (x : CmaObject) (ohfi : ℕ)
    → IsWellFormed db
    → fetch_object db ref ≡ some x
    → Answers ohfi x
    → ohfi < db.ohfi_count
Answers-bounded db ref x ohfi v e a =
    let there = fetch_object-cases db ref x e in
    let list = All-get_elem? _ db.lists ref.list there.0 v there.1 in
    let bounds = All-get_elem? (IsBounded db.ohfi_count) there.0 ref.place x list.1 there.2 in
    elim a [
      | inl same ↦ omega (arith, same, bounds.0)
      | inr h ↦ has_filter-bounded db.ohfi_count ohfi x.filters bounds.2 h
    ]

-- The new object answers to its own id only.
new_entry-Answers :
    (root : CmaObject) (count : ℕ) (name : List ℕ) (size type ohfi : ℕ)
    → Answers ohfi (new_entry root count name size type)
    → count ≡ ohfi
new_entry-Answers root count name size type ohfi (inl same) = same
new_entry-Answers root count name size type ohfi (inr h) = absurd (has_filter-nil ohfi h)

Added-IsFound :
    (db db' : Database) (root_ref : Ref) (root : CmaObject) (name : List ℕ) (size type : ℕ)
    → IsWellFormed db
    → IsFound db
    → Added db root_ref (new_entry root db.ohfi_count name size type) db'
    → IsFound db'
Added-IsFound db db' root_ref root name size type v found added ref x ohfi e a =
    elim (Bool-cases (ref.list == added.new_ref.list)) [
      | inr other_list ↦ before (λ p. absurd (differs ref.list added.new_ref.list other_list p))
      | inl list ↦ elim (Bool-cases (ref.place == added.new_ref.place)) [
        | inr other_place ↦ before (λ p. differs ref.place added.new_ref.place other_place)
        | inl place ↦ at_new (
            ap₂ (λ l p. record { list = l; place = p }) ((==_iff ref.list _).0 list)
              ((==_iff ref.place _).0 place))
      ]
    ]
  where
    differs : (m n : ℕ) → (m == n) ≡ false → m ≢ n
    differs m n d p = cc (d, (==_iff m n).1 p)

    before :
        (ref.list ≡ added.new_ref.list → ref.place ≢ added.new_ref.place)
        → ohfi_to_object db' ohfi ≡ some ref
    before apart =
        let old : fetch_object db ref ≡ some x = sym (added.kept ref apart) ∙ e in
        let below = Answers-bounded db ref x ohfi v old a in
        added.others ohfi (λ p. omega (arith, p, below)) ∙ found ref x ohfi old a

    at_new : ref ≡ added.new_ref → ohfi_to_object db' ohfi ≡ some ref
    at_new same =
        let new_object = some-injective _ _ (sym e ∙ (ap (fetch_object db') same ∙ added.object)) in
        let own =
          new_entry-Answers root db.ohfi_count name size type ohfi
            (subst (Answers ohfi) new_object a) in
        ap (ohfi_to_object db') (sym own) ∙ (added.found ∙ ap some (sym same))

add_to_database-Added :
    (db db' : Database) (root_ref : Ref) (name : List ℕ) (size type : ℕ)
    → IsWellFormed db
    → add_to_database db root_ref name size type ≡ some db'
    → (root : CmaObject) × Added db root_ref (new_entry root db.ohfi_count name size type) db'
unfolding add_to_database
add_to_database-Added db db' root_ref name size type v e =
    let (root, there, made) = bind-some (fetch_object db root_ref) _ db' e in
    let (db1, run, added) = add_to_database_lem db root_ref root name size type v there in
    (
      root,
      subst (λ w. Added db root_ref (new_entry root db.ohfi_count name size type) w)
          (some-injective _ _ (sym run ∙ e)) added,
    )

-- In every database that `initDatabase` and any number of calls of `addToDatabase` make, each object
-- is what `ohfiToObject` finds under its own id and under the ids of its filters, so that no id is
-- used twice in different objects; and the database is well-formed.
pub Reach-IsFound :
    (paths : Paths) (uuid : List ℕ) (db : Database)
    → Reach paths uuid db
    → IsWellFormed db × IsFound db
Reach-IsFound paths uuid db begin =
    (init_database-IsWellFormed paths uuid, init_database-IsFound paths uuid)
Reach-IsFound paths uuid db (add {db = old} root_ref name size type r e) =
    let (v, found) = Reach-IsFound paths uuid old r in
    let (root, added) = add_to_database-Added old db root_ref name size type v e in
    (added.well_formed, Added-IsFound old db root_ref root name size type v found added)
