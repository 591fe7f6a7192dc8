-- ===== src/Database/Lookup.antt =====
-- The lookups and queries of src/database.c: what `ohfiToObject` finds, and `filterObjects`.
use mathlib.Core.Path.{subst}
use mathlib.Core.Option.{some-injective}
use vita_mtp.Base.{
  ℕ, suc, ◌+◌, ◌≡◌, refl, ap, ◌∙◌, true, false, Option, none, some, List, [], ◌∷◌, ◌==◌, get_elem?,
  All, inl, inr, Bool-cases, arith, ==_iff, Option-cases, ◌⊎◌,
}
use vita_mtp.Database.{CmaObject, Database, ohfi_of}
use vita_mtp.Database.Operations.{
  Paths, init_database, Ref, fetch_object, has_filter, find_in, find_ohfi, ohfi_to_object,
}
use vita_mtp.Database.Valid.{IsWellFormed}

-- The object or one of its filters has the id.
abbrev pub Answers : ℕ → CmaObject → Type 0
Answers ohfi x = (ohfi_of x ≡ ohfi) ⊎ (has_filter ohfi x.filters ≡ true)

-- The database that `initDatabase` sets up is well-formed.
pub init_database-IsWellFormed :
    (paths : Paths) (uuid : List ℕ) → IsWellFormed (init_database paths uuid)
unfolding init_database
init_database-IsWellFormed paths uuid = omega arith

-- An object that answers, at a place that is counted from `place`.
abbrev Hit : ℕ → List CmaObject → ℕ → ℕ → Type 0
Hit ohfi xs place n =
    (x : CmaObject) × (i : ℕ) × (n ≡ place + i) × (get_elem? xs i ≡ some x) × Answers ohfi x

Hit-suc :
    (ohfi : ℕ) (x : CmaObject) (xs : List CmaObject) (place n : ℕ)
    → Hit ohfi xs (suc place) n
    → Hit ohfi (x ∷ xs) place n
Hit-suc ohfi x xs place n h = (h.0, suc h.1, omega (arith, h.2), h.3, h.4)

find_in-Answers :
    (ohfi : ℕ) (xs : List CmaObject) (place : ℕ) (found : Option ℕ) (n : ℕ)
    → find_in ohfi xs place found ≡ some n
    → Hit ohfi xs place n ⊎ (found ≡ some n)
unfolding find_in
find_in-Answers ohfi [] place found n e = inr e
find_in-Answers ohfi (x ∷ xs) place found n e = elim (Bool-cases (ohfi_of x == ohfi)) [
  | inl same ↦ inl (
    x,
    0,
    omega (arith, some-injective place n (rw same at e)),
    refl,
    inl ((==_iff (ohfi_of x) ohfi).0 same),
  )
  | inr differ ↦ elim (Bool-cases (has_filter ohfi x.filters)) [
    | inl by_filter ↦
        elim (find_in-Answers ohfi xs (suc place) (some place) n (rw (differ, by_filter) at e)) [
          | inl h ↦ inl (Hit-suc ohfi x xs place n h)
          | inr h ↦ inl (x, 0, omega (arith, some-injective place n h), refl, inr by_filter)
        ]
    | inr not_filter ↦
        elim (find_in-Answers ohfi xs (suc place) found n (rw (differ, not_filter) at e)) [
          | inl h ↦ inl (Hit-suc ohfi x xs place n h)
          | inr h ↦ inr h
        ]
  ]
]

-- A pointer that answers, its list counted from `k`.
abbrev Points : ℕ → List (List CmaObject) → ℕ → Ref → Type 0
Points ohfi lists k ref =
    (x : CmaObject) × (xs : List CmaObject) × (i : ℕ) × (ref.list ≡ k + i)
    × (get_elem? lists i ≡ some xs)
    × (get_elem? xs ref.place ≡ some x)
    × Answers ohfi x

find_ohfi-Answers :
    (ohfi : ℕ) (lists : List (List CmaObject)) (k : ℕ) (ref : Ref)
    → find_ohfi ohfi lists k ≡ some ref
    → Points ohfi lists k ref
unfolding find_ohfi
find_ohfi-Answers ohfi [] k ref e = cc
find_ohfi-Answers ohfi (xs ∷ lists) k ref e = elim (Option-cases (find_in ohfi xs 0 none)) [
  | inl missing ↦
      let p = find_ohfi-Answers ohfi lists (suc k) ref (rw (missing, find_ohfi) at e) in
      (p.0, p.1, suc p.2, omega (arith, p.3), p.4, p.5, p.6)
  | inr there ↦ elim (find_in-Answers ohfi xs 0 none there.0 there.1) [
    | inl h ↦
        let same = some-injective _ _ (rw (there.1, find_ohfi) at e) in
        let at_place : h.1 ≡ ref.place = omega (arith, h.2, ap (λ (r : Ref). r.place) same) in
        (
          h.0,
          xs,
          0,
          omega (arith, ap (λ (r : Ref). r.list) same),
          refl,
          (subst (λ n. get_elem? xs n ≡ some h.0) at_place h.3),
          h.4,
        )
    | inr h ↦ cc
  ]
]

-- No object or filter before the end has the id.
find_in-none :
    (ohfi : ℕ) (xs : List CmaObject) (place : ℕ) (found : Option ℕ)
    → find_in ohfi xs place found ≡ none
    → (found ≡ none) × All (λ x. ¬ Answers ohfi x) xs
unfolding find_in
find_in-none ohfi [] place found e = (e, tt)
find_in-none ohfi (x ∷ xs) place found e = elim (Bool-cases (ohfi_of x == ohfi)) [
  | inl same ↦ absurd (cc (rw same at e))
  | inr differ ↦ elim (Bool-cases (has_filter ohfi x.filters)) [
    | inl by_filter ↦
        absurd
          (cc ((find_in-none ohfi xs (suc place) (some place) (rw (differ, by_filter) at e)).0))
    | inr not_filter ↦
        let h = find_in-none ohfi xs (suc place) found (rw (differ, not_filter) at e) in
        (h.0, (not_answers differ not_filter, h.1))
  ]
]
  where
    not_answers : (ohfi_of x == ohfi) ≡ false → has_filter ohfi x.filters ≡ false → ¬ Answers ohfi x
    not_answers differ not_filter (inl same) = cc (differ, (==_iff (ohfi_of x) ohfi).1 same)
    not_answers differ not_filter (inr by_filter) = cc

find_ohfi-none :
    (ohfi : ℕ) (lists : List (List CmaObject)) (k : ℕ)
    → find_ohfi ohfi lists k ≡ none
    → All (All (λ x. ¬ Answers ohfi x)) lists
unfolding find_ohfi
find_ohfi-none ohfi [] k e = tt
find_ohfi-none ohfi (xs ∷ lists) k e = elim (Option-cases (find_in ohfi xs 0 none)) [
  | inl missing ↦ (
    (find_in-none ohfi xs 0 none missing).1,
    find_ohfi-none ohfi lists (suc k) (rw (missing, find_ohfi) at e),
  )
  | inr there ↦ absurd (cc (rw (there.1, find_ohfi) at e))
]

-- What a lookup promises: an object that has the id or a filter with it, or that there is none.
abbrev pub IsLookup : Database → ℕ → Option Ref → Type 0
IsLookup db ohfi none = All (All (λ x. ¬ Answers ohfi x)) db.lists
IsLookup db ohfi (some ref) = (x : CmaObject) × (fetch_object db ref ≡ some x) × Answers ohfi x

go-IsLookup :
    (db : Database) (ohfi : ℕ) (o : Option Ref) → ohfi_to_object db ohfi ≡ o → IsLookup db ohfi o
unfolding ohfi_to_object fetch_object
go-IsLookup db ohfi none e = find_ohfi-none ohfi db.lists 0 e
go-IsLookup db ohfi (some ref) e =
    let p = find_ohfi-Answers ohfi db.lists 0 ref e in
    let same : ref.list ≡ p.2 = omega (arith, p.3) in
    (p.0, rw (ap (get_elem? db.lists) same ∙ p.4) p.5, p.6)

-- `ohfiToObject` is right in every database: what it returns is an object with the id, or with a
-- filter that has the id, and when it returns null no object and no filter has the id.
pub ohfi_to_object-IsLookup : (db : Database) (ohfi : ℕ) → IsLookup db ohfi (ohfi_to_object db ohfi)
ohfi_to_object-IsLookup db ohfi = go-IsLookup db ohfi (ohfi_to_object db ohfi) refl
