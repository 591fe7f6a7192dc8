-- ===== src/Cache/Reference.antt =====
-- What finding or inserting an object means for a sorted list, without a search.
use mathlib.Core.Path.{subst}
use mathlib.Core.Option.{some-injective}
use vita_mtp.Base.{
  ℕ, zero, suc, ◌≤◌, ◌<◌, ◌≡◌, refl, some, List, [], ◌∷◌, arith, ltb, ◌==◌, if◌then◌else◌, length,
  get_elem?, All, All-get_elem?, Bool-cases, inl, inr, ltb→lt,
}
use vita_mtp.Cache.{Object, new_object, insert_at}

-- Strictly increasing handles.
abbrev pub Sorted : List Object → Type 0
Sorted [] = Unit {0}
Sorted (x ∷ xs) = All (λ y. x.oid < y.oid) xs × Sorted xs

-- The object is put before the first one with a larger handle, unless its handle is there.
unfoldable pub insert_sorted : ℕ → List Object → List Object
insert_sorted handle [] = new_object handle ∷ []
insert_sorted handle (x ∷ xs) =
    if x.oid == handle
    then x ∷ xs
    else if ltb handle x.oid
    then new_object handle ∷ x ∷ xs
    else x ∷ insert_sorted handle xs

-- In a sorted list a later object has a larger handle.
pub oid-lt_of_Sorted :
    (xs : List Object) (i j : ℕ) (x y : Object)
    → Sorted xs
    → get_elem? xs i ≡ some x
    → get_elem? xs j ≡ some y
    → i < j
    → x.oid < y.oid
oid-lt_of_Sorted [] i j x y s e e' h = cc
oid-lt_of_Sorted (z ∷ xs) i zero x y s e e' h = absurd (omega arith)
oid-lt_of_Sorted (z ∷ xs) zero (suc j) x y s e e' h =
    subst (λ (w : Object). w.oid < y.oid) (some-injective _ _ e)
      (All-get_elem? (λ w. z.oid < w.oid) xs j y s.0 e')
oid-lt_of_Sorted (z ∷ xs) (suc i) (suc j) x y s e e' h =
    oid-lt_of_Sorted xs i j x y s.1 e e' (omega arith)

-- `i` is the place of the handle: smaller handles stand before it, larger ones from it on.
pub record IsSlot (handle : ℕ) (xs : List Object) (i : ℕ) : Type 0 where
  pub in_range : i ≤ length xs
  pub below : (j : ℕ) (x : Object) → j < i → get_elem? xs j ≡ some x → x.oid < handle
  pub above : (j : ℕ) (x : Object) → i ≤ j → get_elem? xs j ≡ some x → handle < x.oid

pub insert_sorted-slot :
    (handle : ℕ) (xs : List Object) (i : ℕ)
    → IsSlot handle xs i
    → insert_sorted handle xs ≡ insert_at xs i (new_object handle)
unfolding insert_sorted insert_at
insert_sorted-slot handle [] zero s = refl
insert_sorted-slot handle [] (suc i) s = absurd (omega (arith, s.in_range))
insert_sorted-slot handle (x ∷ xs) zero s = ground (arith, s.above 0 x (omega arith) refl)
insert_sorted-slot handle (x ∷ xs) (suc i) s = ground (
  arith,
  s.below 0 x (omega arith) refl,
  insert_sorted-slot handle xs i (record {
    in_range = omega (arith, s.in_range);
    below = λ j y h e. s.below (suc j) y (omega arith) e;
    above = λ j y h e. s.above (suc j) y (omega arith) e;
  }),
)

pub insert_sorted-found :
    (handle : ℕ) (xs : List Object) (i : ℕ) (x : Object)
    → Sorted xs
    → get_elem? xs i ≡ some x
    → x.oid ≡ handle
    → insert_sorted handle xs ≡ xs
unfolding insert_sorted
insert_sorted-found handle [] i x s e h = cc
insert_sorted-found handle (y ∷ xs) zero x s e h = ground arith
insert_sorted-found handle (y ∷ xs) (suc i) x s e h = ground (
  arith,
  oid-lt_of_Sorted (y ∷ xs) 0 (suc i) y x s refl e,
  insert_sorted-found handle xs i x s.1 e h,
)

insert_sorted-All :
    (handle k : ℕ) (xs : List Object)
    → All (λ y. k < y.oid) xs
    → k < handle
    → All (λ y. k < y.oid) (insert_sorted handle xs)
unfolding insert_sorted
insert_sorted-All handle k [] a h = (h, tt)
insert_sorted-All handle k (x ∷ xs) a h = elim (Bool-cases (x.oid == handle)) [
  | inl same ↦ rw same a
  | inr differ ↦ elim (Bool-cases (ltb handle x.oid)) [
    | inl before ↦ rw (differ, before) (h, a)
    | inr later ↦ rw (differ, later) (a.0, insert_sorted-All handle k xs a.1 h)
  ]
]

All-lt_trans :
    (a b : ℕ) (xs : List Object) → a < b → All (λ y. b < y.oid) xs → All (λ y. a < y.oid) xs
All-lt_trans a b [] h p = tt
All-lt_trans a b (x ∷ xs) h p = (omega (arith, p.0), All-lt_trans a b xs h p.1)

-- Sortedness is kept.
pub insert_sorted-Sorted :
    (handle : ℕ) (xs : List Object) → Sorted xs → Sorted (insert_sorted handle xs)
unfolding insert_sorted
insert_sorted-Sorted handle [] s = (tt, tt)
insert_sorted-Sorted handle (x ∷ xs) s = elim (Bool-cases (x.oid == handle)) [
  | inl same ↦ rw same s
  | inr differ ↦ elim (Bool-cases (ltb handle x.oid)) [
    | inl before ↦
        let h : handle < x.oid = ltb→lt handle x.oid before in
        rw (differ, before) ((h, All-lt_trans handle x.oid xs h s.0), s)
    | inr later ↦
        rw (differ, later)
          (insert_sorted-All handle x.oid xs s.0 (ground arith), insert_sorted-Sorted handle xs s.1)
  ]
]

pub get_elem?-insert_at :
    (xs : List Object) (i : ℕ) (ob : Object)
    → i ≤ length xs
    → get_elem? (insert_at xs i ob) i ≡ some ob
unfolding insert_at
get_elem?-insert_at xs zero ob h = refl
get_elem?-insert_at [] (suc i) ob h = absurd (omega arith)
get_elem?-insert_at (x ∷ xs) (suc i) ob h = get_elem?-insert_at xs i ob (omega arith)
