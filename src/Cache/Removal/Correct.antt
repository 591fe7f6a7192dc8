-- ===== src/Cache/Removal/Correct.antt =====
-- `ptp_object_find` and `ptp_remove_object_from_cache` of src/ptp.c on a sorted cache.
use mathlib.Core.Option.{some-injective}
use mathlib.Core.Path.{subst}
use vita_mtp.Base.{
  ℕ, zero, suc, ◌+◌, ◌^◌, ◌<◌, ◌≤◌, ◌≡◌, ◌≢◌, ◌⊎◌, inl, inr, refl, sym, ap, ◌∙◌, Option,
  Option-cases, none, some, List, [], ◌∷◌, All, All-get_elem?, arith, Bool-cases, ◌==◌, ==_false,
  ==_self, if◌then◌else◌, get_elem?,
}
use Prim.{tt}
use vita_mtp.Cache.{Object, new_object, rc_ok, rc_general_error}
use vita_mtp.Cache.Reference.{Sorted, oid-lt_of_Sorted}
use vita_mtp.Cache.Removal.{
  Bsearch, IsBsearch, IsOrdered, cmp_ob, object_find, remove_at, remove_object_from_cache, sign,
}

-- The handles differ from a handle by less than 2^31.
abbrev pub IsNear : ℕ → Object → Type 0
IsNear handle x = (x.oid < handle + 2 ^ 31) × (handle < x.oid + 2 ^ 31)

-- The cache without a handle.
unfoldable pub without : ℕ → List Object → List Object
without handle [] = []
without handle (x ∷ xs) = let rest = without handle xs in if x.oid == handle then rest else x ∷ rest

sign-same :
    (handle : ℕ) (x : Object)
    → IsNear handle x
    → sign (cmp_ob (new_object handle) x) ≡ 1
    → x.oid ≡ handle
unfolding cmp_ob
sign-same handle x near e = ground (arith, e, near.0, near.1)

sign-differ : (handle : ℕ) (x : Object) → sign (cmp_ob (new_object handle) x) ≢ 1 → x.oid ≢ handle
unfolding cmp_ob
sign-differ handle x d e = d (ground (arith, e))

sign-order :
    (handle : ℕ) (x y : Object)
    → IsNear handle x
    → IsNear handle y
    → x.oid < y.oid
    → sign (cmp_ob (new_object handle) y) ≤ sign (cmp_ob (new_object handle) x)
unfolding cmp_ob
sign-order handle x y a b k = ground (arith, a.0, a.1, b.0, b.1, k)

module _ (handle : ℕ) where
  Sorted-IsOrdered :
      (xs : List Object)
      → Sorted xs
      → All (IsNear handle) xs
      → IsOrdered (new_object handle) xs cmp_ob
  Sorted-IsOrdered xs s near i j x y k a b =
      sign-order handle x y (All-get_elem? (IsNear handle) xs i x near a)
        (All-get_elem? (IsNear handle) xs j y near b) (oid-lt_of_Sorted xs i j x y s a b k)

  -- Objects with larger handles are all kept.
  without-larger : (xs : List Object) → All (λ y. handle < y.oid) xs → without handle xs ≡ xs
  unfolding without
  without-larger [] a = refl
  without-larger (x ∷ xs) a =
      rw (==_false x.oid handle (λ e. omega (arith, e, a.0)), without-larger xs a.1) refl

  without-absent :
      (xs : List Object)
      → ((i : ℕ) (x : Object) → get_elem? xs i ≡ some x → x.oid ≢ handle)
      → without handle xs ≡ xs
  unfolding without
  without-absent [] d = refl
  without-absent (x ∷ xs) d =
      rw (==_false x.oid handle (d 0 x refl), without-absent xs (λ i y e. d (suc i) y e)) refl

  -- What is at the place of the handle goes.
  remove_at-without :
      (xs : List Object) (i : ℕ) (x : Object)
      → Sorted xs
      → get_elem? xs i ≡ some x
      → x.oid ≡ handle
      → remove_at i xs ≡ without handle xs
  unfolding remove_at without
  remove_at-without [] i x s e h = absurd (cc e)
  remove_at-without (y ∷ xs) zero x s e h =
      let same : y.oid ≡ handle = ap (λ (w : Object). w.oid) (some-injective _ _ e) ∙ h in
      let larger : All (λ z. handle < z.oid) xs =
        subst (λ k. All (λ (z : Object). k < z.oid) xs) same s.0 in
      rw (same, ==_self handle, without-larger xs larger) refl
  remove_at-without (y ∷ xs) (suc i) x s e h =
      rw
        (
          ==_false y.oid handle (λ d.
              omega (arith, d, h, oid-lt_of_Sorted (y ∷ xs) 0 (suc i) y x s refl e (omega arith))),
          remove_at-without xs i x s.1 e h,
        )
        refl

  without-All :
      (k : ℕ) (xs : List Object)
      → All (λ y. k < y.oid) xs
      → All (λ y. k < y.oid) (without handle xs)
  unfolding without
  without-All k [] a = tt
  without-All k (x ∷ xs) a = elim (Bool-cases (x.oid == handle)) [
    | inl same ↦ rw same (without-All k xs a.1)
    | inr differ ↦ rw differ (a.0, without-All k xs a.1)
  ]

  without-Sorted : (xs : List Object) → Sorted xs → Sorted (without handle xs)
  unfolding without
  without-Sorted [] s = tt
  without-Sorted (x ∷ xs) s = elim (Bool-cases (x.oid == handle)) [
    | inl same ↦ rw same (without-Sorted xs s.1)
    | inr differ ↦ rw differ (without-All x.oid xs s.0, without-Sorted xs s.1)
  ]

  module _ (bsearch : Bsearch) (library : IsBsearch bsearch) (xs : List Object) (sorted : Sorted xs)
      (near : All (IsNear handle) xs) where
    -- On a sorted cache whose handles differ from the one that is looked up by less than 2^31,
    -- `ptp_object_find` returns OK and the place of the object with the handle, or an error when no
    -- object has it.
    pub object_find_lem :
        ((i : ℕ) × (x : Object) × (object_find bsearch xs handle ≡ (rc_ok, some i))
          × (get_elem? xs i ≡ some x)
          × (x.oid ≡ handle))
        ⊎ ((object_find bsearch xs handle ≡ (rc_general_error, none))
            × ((i : ℕ) (x : Object) → get_elem? xs i ≡ some x → x.oid ≢ handle))
    unfolding object_find
    object_find_lem =
        let order = Sorted-IsOrdered xs sorted near in
        elim (Option-cases (bsearch (new_object handle) xs cmp_ob)) [
          | inl e ↦ inr (
            rw (object_find, e) refl,
            λ i x at.
                sign-differ handle x (library.missed (new_object handle) xs cmp_ob order e i x at),
          )
          | inr (i, e) ↦
              let (x, at, same) = library.found (new_object handle) xs cmp_ob i order e in
              inl (
                i,
                x,
                rw (object_find, e) refl,
                at,
                sign-same handle x (All-get_elem? (IsNear handle) xs i x near at) same,
              )
        ]

    -- On a sorted cache whose handles differ from the one to remove by less than 2^31,
    -- `ptp_remove_object_from_cache` leaves the cache without that handle and changes nothing else,
    -- whether the handle was there or not; the cache stays sorted.
    pub remove_object_from_cache_lem :
        (remove_object_from_cache bsearch xs handle ≡ without handle xs)
        × Sorted (remove_object_from_cache bsearch xs handle)
    unfolding remove_object_from_cache
    remove_object_from_cache_lem =
        let after : ℕ × Option ℕ → List Object =
          (λ r. elim r.1 [ none ↦ xs | some i ↦ if r.0 == rc_ok then remove_at i xs else xs ]) in
        let removed : remove_object_from_cache bsearch xs handle ≡ without handle xs =
          elim object_find_lem [
            | inl (i, x, e, at, same) ↦ ap after e ∙ (remove_at-without xs i x sorted at same)
            | inr (e, absent) ↦ ap after e ∙ (sym (without-absent xs absent))
          ] in
        (removed, subst Sorted (sym removed) (without-Sorted xs sorted))
