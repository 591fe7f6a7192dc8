-- ===== src/Cache/Removal/Tests.antt =====
-- Looking up and removing in the cache of src/ptp.c, with a `bsearch` that looks at one element after
-- the other, and with one that halves.
use mathlib.Core.Option.{some-injective}
use vita_mtp.Base.{
  ℕ, zero, suc, ◌+◌, ◌/◌, ◌≡◌, ◌≢◌, ◌⊎◌, inl, inr, refl, none, some, List, [], ◌∷◌, arith, ◌==◌,
  ==_iff, if◌then◌else◌, get_elem?, length, Bool-cases, Option-cases,
}
use mathlib.Core.Option
use mathlib.Core.Path.{subst}
use vita_mtp.Cache.{Object, new_object, rc_ok, rc_general_error}
use vita_mtp.Cache.Reference.{Sorted}
use vita_mtp.Cache.Removal.{
  Bsearch, IsBsearch, cmp_ob, object_find, remove_at, remove_object_from_cache, sign,
}
use vita_mtp.Cache.Removal.Correct.{object_find_lem, remove_object_from_cache_lem, without}

abbrev one_by_one : Bsearch
one_by_one key [] cmp = none
one_by_one key (x ∷ xs) cmp =
    let rest = one_by_one key xs cmp in
    if sign (cmp key x) == 1 then some 0 else Option.map suc rest

one_by_one-found :
    (key : Object) (xs : List Object) (cmp : Object → Object → ℕ) (i : ℕ)
    → one_by_one key xs cmp ≡ some i
    → (x : Object) × (get_elem? xs i ≡ some x) × (sign (cmp key x) ≡ 1)
one_by_one-found key [] cmp i e = absurd (cc e)
one_by_one-found key (x ∷ xs) cmp i e = elim (Bool-cases (sign (cmp key x) == 1)) [
  | inl same ↦ (
    x,
    subst (λ k. get_elem? (x ∷ xs) k ≡ some x) (some-injective _ _ (rw same at e)) refl,
    (==_iff (sign (cmp key x)) 1).0 same,
  )
  | inr differ ↦ elim (Option-cases (one_by_one key xs cmp)) [
    | inl f ↦ absurd (cc (rw (differ, f) at e))
    | inr (j, f) ↦
        let found = one_by_one-found key xs cmp j f in
        (
          found.0,
          subst (λ k. get_elem? (x ∷ xs) k ≡ some found.0)
              (some-injective _ _ (rw (differ, f) at e)) found.1,
          found.2,
        )
  ]
]

-- By the place of an element.
by_place :
    (y x : Object) (xs : List Object) (P : Object → Type 0) (i : ℕ)
    → get_elem? (y ∷ xs) i ≡ some x
    → P y
    → ((i : ℕ) (x : Object) → get_elem? xs i ≡ some x → P x)
    → P x
by_place y x xs P zero at first rest = subst P (some-injective _ _ at) first
by_place y x xs P (suc i) at first rest = rest i x at

one_by_one-missed :
    (key : Object) (xs : List Object) (cmp : Object → Object → ℕ)
    → one_by_one key xs cmp ≡ none
    → (i : ℕ) (x : Object) → get_elem? xs i ≡ some x
    → sign (cmp key x) ≢ 1
one_by_one-missed key [] cmp e i x at = absurd (cc at)
one_by_one-missed key (y ∷ xs) cmp e i x at = elim (Bool-cases (sign (cmp key y) == 1)) [
  | inl same ↦ absurd (cc (rw same at e))
  | inr differ ↦ elim (Option-cases (one_by_one key xs cmp)) [
    | inr (j, f) ↦ absurd (cc (rw (differ, f) at e))
    | inl f ↦
        by_place y x xs (λ z. sign (cmp key z) ≢ 1) i at (ground (arith, differ))
          (one_by_one-missed key xs cmp f)
  ]
]

one_by_one-IsBsearch : IsBsearch one_by_one
one_by_one-IsBsearch = record {
  found = λ key xs cmp i order e. one_by_one-found key xs cmp i e;
  missed = λ key xs cmp order e i x at. one_by_one-missed key xs cmp e i x at;
}

abbrev three : List Object
three = new_object 3 ∷ new_object 5 ∷ new_object 9 ∷ []

object_find_lem_example :
    ((i : ℕ) × (x : Object) × (object_find one_by_one three 5 ≡ (rc_ok, some i))
      × (get_elem? three i ≡ some x)
      × (x.oid ≡ 5))
    ⊎ ((object_find one_by_one three 5 ≡ (rc_general_error, none))
        × ((i : ℕ) (x : Object) → get_elem? three i ≡ some x → x.oid ≢ 5))
object_find_lem_example =
    object_find_lem 5 one_by_one one_by_one-IsBsearch three (ground arith) (ground arith)

remove_object_from_cache_lem_example :
    (remove_object_from_cache one_by_one three 5 ≡ without 5 three)
    × Sorted (remove_object_from_cache one_by_one three 5)
remove_object_from_cache_lem_example =
    remove_object_from_cache_lem 5 one_by_one one_by_one-IsBsearch three (ground arith)
      (ground arith)

test_remove : remove_object_from_cache one_by_one three 5 ≡ new_object 3 ∷ new_object 9 ∷ []
unfolding remove_object_from_cache object_find cmp_ob remove_at
test_remove = refl

-- A search that halves the range from `low` to `high`, as libraries do it.
abbrev halve : ℕ → ℕ → ℕ → Bsearch
halve zero low high key xs cmp = none
halve (suc fuel) low high key xs cmp =
    let mid : ℕ = (low + high) / 2 in
    let above = halve fuel (mid + 1) high key xs cmp in
    let below = halve fuel low mid key xs cmp in
    elim (get_elem? xs mid) [
      | none ↦ none
      | some x ↦
          if sign (cmp key x) == 1 then some mid else if sign (cmp key x) == 2 then above else below
    ]

abbrev halving : Bsearch
halving key xs cmp = halve (length xs) 0 (length xs) key xs cmp

-- Handles that differ by 2^31 or more: the comparison is the other way round, and an object of a
-- sorted cache is not found.
test_wrapped : object_find halving (new_object 1 ∷ new_object 0xF0000000 ∷ []) 1 ≡ (0x2002, none)
unfolding object_find cmp_ob
test_wrapped = refl
