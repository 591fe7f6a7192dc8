-- ===== src/Cache/Insert.antt =====
-- `ptp_object_find_or_insert` does what the reference does.
use mathlib.Core.Path.{subst}
use mathlib.Core.Option.{some-injective}
use vita_mtp.Base.{
  ℕ, zero, suc, ◌+◌, ◌-◌, ◌≤◌, ◌<◌, ◌≡◌, ◌≢◌, refl, sym, ap, ◌∙◌, true, false, ◌&&◌, Option, none,
  some, List, [], ◌∷◌, arith, ltb, ◌==◌, length, get_elem?, Bool-cases, inl, inr,
}
use vita_mtp.Cache.{
  Object, new_object, Found, at, between, fault, stuck, Answer, rc_ok, insert_new, insert_between,
  after_search, object_find_or_insert,
}
use vita_mtp.Cache.Reference.{
  Sorted, insert_sorted, oid-lt_of_Sorted, IsSlot, insert_sorted-slot, insert_sorted-found,
  insert_sorted-Sorted, get_elem?-insert_at,
}
use vita_mtp.Cache.Search.{
  get_elem?-lt, trichotomy, Range, Ends, ends_at, ends_between, search-Ends,
}

-- A normal return: the objects are those of the reference, and `*retob` points to the handle's.
pub record Finds (handle : ℕ) (xs : List Object) (a : Answer) : Type 0 where
  pub code : a.code ≡ rc_ok
  pub objects : a.objects ≡ insert_sorted handle xs
  pub index : ℕ
  pub ob : Object
  pub retob : a.retob ≡ some index
  pub there : get_elem? a.objects index ≡ some ob
  pub same : ob.oid ≡ handle

data Outcome (handle : ℕ) (xs : List Object) : Option Answer → Type 0 where
  outcome : (a : Answer) → Finds handle xs a → Outcome handle xs (some a)

get_elem?-ge : (xs : List Object) (i : ℕ) → length xs ≤ i → get_elem? xs i ≡ none
get_elem?-ge [] i h = refl
get_elem?-ge (x ∷ xs) zero h = absurd (omega arith)
get_elem?-ge (x ∷ xs) (suc i) h = get_elem?-ge xs i (omega arith)

get_elem?-some : (xs : List Object) (i : ℕ) (x : Object) → get_elem? xs i ≡ some x → i < length xs
get_elem?-some [] i x e = cc
get_elem?-some (y ∷ xs) zero x e = omega arith
get_elem?-some (y ∷ xs) (suc i) x e = omega (arith, get_elem?-some xs i x e)

empty-Outcome :
    (handle : ℕ) (xs : List Object)
    → length xs ≡ 0
    → Outcome handle xs
        (some (record { code = rc_ok; objects = new_object handle ∷ []; retob = some 0 }))
unfolding insert_sorted
empty-Outcome handle [] z = outcome _ (record {
  code = refl;
  objects = refl;
  index = 0;
  ob = new_object handle;
  retob = refl;
  there = refl;
  same = refl;
})
empty-Outcome handle (y ∷ ys) z = absurd (omega arith)

module _ (handle : ℕ) (xs : List Object) (sorted : Sorted xs) where
  below_of :
      (b : ℕ) (x : Object)
      → get_elem? xs b ≡ some x
      → x.oid < handle
      → (j : ℕ) (y : Object) → j ≤ b
      → get_elem? xs j ≡ some y
      → y.oid < handle
  below_of b x e h j y le e' = elim (trichotomy j b) [
    | inl lt ↦ omega (arith, oid-lt_of_Sorted xs j b y x sorted e' e lt)
    | inr (inl eq) ↦
        subst (λ (w : Object). w.oid < handle)
          (some-injective _ _ (sym e ∙ ap (get_elem? xs) (sym eq) ∙ e')) h
    | inr (inr gt) ↦ absurd (omega arith)
  ]

  above_of :
      (b : ℕ) (x : Object)
      → get_elem? xs b ≡ some x
      → handle < x.oid
      → (j : ℕ) (y : Object) → b ≤ j
      → get_elem? xs j ≡ some y
      → handle < y.oid
  above_of b x e h j y le e' = elim (trichotomy b j) [
    | inl lt ↦ omega (arith, oid-lt_of_Sorted xs b j x y sorted e e' lt)
    | inr (inl eq) ↦
        subst (λ (w : Object). handle < w.oid)
          (some-injective _ _ (sym e ∙ ap (get_elem? xs) eq ∙ e')) h
    | inr (inr gt) ↦ absurd (omega arith)
  ]

  found-Outcome :
      (i : ℕ) (x : Object)
      → get_elem? xs i ≡ some x
      → x.oid ≡ handle
      → Outcome handle xs (some (record { code = rc_ok; objects = xs; retob = some i }))
  found-Outcome i x e same = outcome _ (record {
    code = refl;
    objects = sym (insert_sorted-found handle xs i x sorted e same);
    index = i;
    ob = x;
    retob = refl;
    there = e;
    same = same;
  })

  slot-Outcome :
      (i : ℕ) → IsSlot handle xs i → Outcome handle xs (some (insert_new handle xs true i))
  unfolding insert_new
  slot-Outcome i s = outcome _ (record {
    code = refl;
    objects = sym (insert_sorted-slot handle xs i s);
    index = i;
    ob = new_object handle;
    retob = refl;
    there = get_elem?-insert_at xs i (new_object handle) s.in_range;
    same = refl;
  })

  module _ (begin end : ℕ) (b e : Object) (eb : get_elem? xs begin ≡ some b)
      (ee : get_elem? xs end ≡ some e) (r : Range handle xs begin end)
      (near : end ≤ begin + 1) where
    front-IsSlot : begin ≡ 0 → handle < b.oid → IsSlot handle xs begin
    front-IsSlot z h = record {
      in_range = omega (arith, r.ordered, r.in_range);
      below = λ j x lt e'. absurd (omega arith);
      above = above_of begin b eb h;
    }

    back-IsSlot : suc end ≡ length xs → e.oid < handle → IsSlot handle xs (end + 1)
    back-IsSlot z h = record {
      in_range = omega arith;
      below = λ j x lt e'. below_of end e ee h j x (omega arith) e';
      above = λ j x le e'. absurd (omega (arith, get_elem?-some xs j x e'));
    }

    middle-IsSlot : b.oid < handle → handle < e.oid → IsSlot handle xs (begin + 1)
    middle-IsSlot h h' = record {
      in_range = omega (arith, r.ordered, r.in_range);
      below = λ j x lt e'. below_of begin b eb h j x (omega arith) e';
      above = λ j x le e'. above_of end e ee h' j x (omega arith) e';
    }

    -- A range end that is not at the border of the list is on its side of the handle.
    left_side : b.oid ≢ handle → ¬ ((begin ≡ 0) × (handle < b.oid)) → b.oid < handle
    left_side ne inside = elim r.left [
      | inl z ↦ grind (arith, trichotomy b.oid handle)
      | inr (x, ex, h) ↦ subst (λ (w : Object). w.oid < handle) (some-injective _ _ (sym ex ∙ eb)) h
    ]

    right_side : e.oid ≢ handle → ¬ ((suc end ≡ length xs) × (e.oid < handle)) → handle < e.oid
    right_side ne inside = elim r.right [
      | inl z ↦ grind (arith, trichotomy e.oid handle)
      | inr (x, ex, h) ↦ subst (λ (w : Object). handle < w.oid) (some-injective _ _ (sym ex ∙ ee)) h
    ]

    between-Outcome : Outcome handle xs (insert_between handle xs true begin end)
    unfolding insert_between
    between-Outcome =
        rw (eb, insert_between)
          (rw (ee) (elim (Bool-cases (b.oid == handle)) [
            | inl same ↦ rw same (found-Outcome begin b eb (ground arith))
            | inr b_differs ↦ elim (Bool-cases (e.oid == handle)) [
              | inl same ↦ rw (b_differs, same) (found-Outcome end e ee (ground arith))
              | inr e_differs ↦ elim (Bool-cases ((begin == 0) && ltb handle b.oid)) [
                | inl front ↦
                    rw (b_differs, e_differs, front)
                      (slot-Outcome begin (front-IsSlot (ground arith) (ground arith)))
                | inr not_front ↦ elim (Bool-cases ((end == length xs - 1) && ltb e.oid handle)) [
                  | inl back ↦
                      let last : suc end ≡ length xs = ground (arith, r.in_range) in
                      rw (b_differs, e_differs, not_front, back)
                        (slot-Outcome (end + 1) (back-IsSlot last (ground arith)))
                  | inr not_back ↦
                      rw (b_differs, e_differs, not_front, not_back)
                        (slot-Outcome (begin + 1) (
                          middle-IsSlot (left_side (ground arith) (ground arith))
                            (right_side (ground arith) (ground arith))))
                ]
              ]
            ]
          ]))

  after_search-Outcome :
      (f : Found) → Ends handle xs f → Outcome handle xs (after_search handle xs true f)
  unfolding after_search
  after_search-Outcome (at i) (ends_at _ x e same) = found-Outcome i x e same
  after_search-Outcome (between begin end) (ends_between _ _ r near) =
      let (b, eb) = get_elem?-lt xs begin (omega (arith, r.ordered, r.in_range)) in
      let (e, ee) = get_elem?-lt xs end r.in_range in between-Outcome begin end b e eb ee r near
  after_search-Outcome fault ends = elim ends [ ]
  after_search-Outcome stuck ends = elim ends [ ]

  find_or_insert-Outcome : handle ≢ 0 → Outcome handle xs (object_find_or_insert xs handle true)
  unfolding object_find_or_insert
  find_or_insert-Outcome ne =
      let some_handle : (handle == 0) ≡ false = ground arith in
      rw some_handle (elim (Bool-cases (length xs == 0)) [
        | inl empty ↦ rw empty (empty-Outcome handle xs (ground arith))
        | inr filled ↦ rw filled (
            after_search-Outcome _ (
              search-Ends handle xs (length xs) 0 (length xs - 1) (ground arith)
                (whole (ground arith))))
      ])
    where
      whole : 0 < length xs → Range handle xs 0 (length xs - 1)
      whole pos = record {
        ordered = omega arith;
        in_range = omega arith;
        left = inl refl;
        right = inl (omega arith);
      }

-- On a sorted cache, with memory at hand, a handle that is not 0 is found, or inserted: the
-- search ends and reads in range, the call succeeds, the objects are those of the reference and
-- sorted again, and `*retob` points to the object with the handle.
pub object_find_or_insert_lem :
    (xs : List Object) (handle : ℕ)
    → Sorted xs
    → handle ≢ 0
    → (a : Answer) × (object_find_or_insert xs handle true ≡ some a)
      × Finds handle xs a
      × Sorted a.objects
object_find_or_insert_lem xs handle sorted ne =
    finish (object_find_or_insert xs handle true) refl (find_or_insert-Outcome handle xs sorted ne)
  where
    finish :
        (r : Option Answer)
        → object_find_or_insert xs handle true ≡ r
        → Outcome handle xs r
        → (a : Answer) × (object_find_or_insert xs handle true ≡ some a)
          × Finds handle xs a
          × Sorted a.objects
    finish _ e (outcome a f) = (a, e, f, rw f.objects (insert_sorted-Sorted handle xs sorted))
