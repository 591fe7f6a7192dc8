-- ===== src/Cache/Search.antt =====
-- The binary search of `ptp_object_find_or_insert`.
use vita_mtp.Base.{
  ℕ, zero, suc, ◌+◌, ◌-◌, ◌/◌, ◌≤◌, ◌<◌, ◌≡◌, refl, true, false, some, List, [], ◌∷◌, arith, ltb,
  leb, ◌==◌, if◌then◌else◌, length, get_elem?, Bool-cases, inl, inr, ◌⊎◌, lt→ltb,
}
use vita_mtp.Cache.{Object, Found, at, between, search}

pub get_elem?-lt :
    (xs : List Object) (i : ℕ) → i < length xs → (x : Object) × (get_elem? xs i ≡ some x)
get_elem?-lt [] i h = absurd (omega arith)
get_elem?-lt (x ∷ xs) zero h = (x, refl)
get_elem?-lt (x ∷ xs) (suc i) h = get_elem?-lt xs i (omega arith)

pub trichotomy : (a b : ℕ) → (a < b) ⊎ ((a ≡ b) ⊎ (b < a))
trichotomy a b = grind arith

-- What the loop keeps: `begin` is the first index or stands before the handle's place, and
-- `end` is the last one or stands behind it.
pub record Range (handle : ℕ) (xs : List Object) (begin end : ℕ) : Type 0 where
  pub ordered : begin ≤ end
  pub in_range : end < length xs
  pub left : (begin ≡ 0) ⊎ ((x : Object) × (get_elem? xs begin ≡ some x) × (x.oid < handle))
  pub right :
      (suc end ≡ length xs) ⊎ ((x : Object) × (get_elem? xs end ≡ some x) × (handle < x.oid))

-- The loop ends at an object with the handle, or with a range of at most two objects.
pub data Ends (handle : ℕ) (xs : List Object) : Found → Type 0 where
  ends_at : (i : ℕ) (x : Object) → get_elem? xs i ≡ some x → x.oid ≡ handle → Ends handle xs (at i)
  ends_between :
      (begin end : ℕ)
      → Range handle xs begin end
      → end ≤ begin + 1
      → Ends handle xs (between begin end)

module _ (handle : ℕ) (xs : List Object) where
  -- The rest of a round, at the range that it has narrowed to.
  abbrev narrowed : ℕ → ℕ → ℕ → Found
  narrowed fuel begin end =
      if leb (end - begin) 1 then between begin end else search handle xs fuel begin end

  search-less :
      (fuel begin end : ℕ) (x : Object)
      → get_elem? xs ((end - begin) / 2 + begin) ≡ some x
      → x.oid < handle
      → search handle xs (suc fuel) begin end ≡ narrowed fuel ((end - begin) / 2 + begin) end
  unfolding search
  search-less fuel begin end x e h =
      let differ : (x.oid == handle) ≡ false = ground arith in
      rw (e, search, differ, lt→ltb x.oid handle h) refl

  search-more :
      (fuel begin end : ℕ) (x : Object)
      → get_elem? xs ((end - begin) / 2 + begin) ≡ some x
      → handle < x.oid
      → search handle xs (suc fuel) begin end ≡ narrowed fuel begin ((end - begin) / 2 + begin)
  unfolding search
  search-more fuel begin end x e h =
      let differ : (x.oid == handle) ≡ false = ground arith in
      let not_less : ltb x.oid handle ≡ false = ground arith in
      rw (e, search, differ, not_less) refl

  search-same :
      (fuel begin end : ℕ) (x : Object)
      → get_elem? xs ((end - begin) / 2 + begin) ≡ some x
      → x.oid ≡ handle
      → search handle xs (suc fuel) begin end ≡ at ((end - begin) / 2 + begin)
  unfolding search
  search-same fuel begin end x e h =
      let same : (x.oid == handle) ≡ true = ground arith in rw (e, search, same) refl

  narrowed-Ends :
      (fuel begin end : ℕ)
      → Range handle xs begin end
      → (1 < end - begin → Ends handle xs (search handle xs fuel begin end))
      → Ends handle xs (narrowed fuel begin end)
  narrowed-Ends fuel begin end r later = elim (Bool-cases (leb (end - begin) 1)) [
    | inl near ↦ rw near (ends_between begin end r (ground arith))
    | inr far ↦ rw far (later (ground arith))
  ]

  -- With more rounds than the range is wide the loop ends, and reads in range.
  pub search-Ends :
      (fuel begin end : ℕ)
      → end < begin + fuel
      → Range handle xs begin end
      → Ends handle xs (search handle xs fuel begin end)
  search-Ends zero begin end enough r = absurd (omega (arith, r.ordered))
  search-Ends (suc fuel) begin end enough r =
      round (get_elem?-lt xs ((end - begin) / 2 + begin) (omega (arith, r.ordered, r.in_range)))
        (λ b e h r'. search-Ends fuel b e h r')
    where
      cursor : ℕ
      cursor = (end - begin) / 2 + begin

      round :
          (x : Object) × (get_elem? xs cursor ≡ some x)
          → ((b e : ℕ)
              → e < b + fuel
              → Range handle xs b e
              → Ends handle xs (search handle xs fuel b e))
          → Ends handle xs (search handle xs (suc fuel) begin end)
      round (x, e) later = elim (trichotomy x.oid handle) [
        | inl less ↦
            let r' : Range handle xs cursor end = record {
              ordered = omega (arith, r.ordered);
              in_range = r.in_range;
              left = inr (x, e, less);
              right = r.right;
            } in
            rw (search-less fuel begin end x e less)
              (narrowed-Ends fuel cursor end r' λ far. later cursor end (omega arith) r')
        | inr (inl same) ↦ rw (search-same fuel begin end x e same) (ends_at cursor x e same)
        | inr (inr more) ↦
            let r' : Range handle xs begin cursor = record {
              ordered = omega arith;
              in_range = omega (arith, r.ordered, r.in_range);
              left = r.left;
              right = inr (x, e, more);
            } in
            rw (search-more fuel begin end x e more)
              (narrowed-Ends fuel begin cursor r' λ far. later begin cursor (omega arith) r')
      ]
