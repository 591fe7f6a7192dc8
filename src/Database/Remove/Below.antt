-- ===== src/Database/Remove/Below.antt =====
-- Which objects a removal of src/database.c takes, told without a pass over the list: those from
-- which the chain of parents leads to the object.
use mathlib.Core.Path.{subst}
use vita_mtp.Base.{
  ℕ, ◌≡◌, ◌≢◌, ◌↔◌, ◌⊎◌, refl, sym, ap, ◌∙◌, Bool, true, false, ◌||◌, List, [], ◌∷◌, ◌==◌, ==_iff,
  ==_false, All, All-map, Bool-cases, inl, inr,
}
use vita_mtp.Database.{CmaObject, ohfi_of, parent_of}
use vita_mtp.Database.Remove.Sweep.{sweep, survivors, IsValid, MayFollow}

-- Membership.
abbrev pub Has : CmaObject → List CmaObject → Type 0
Has y [] = ⊥
Has y (x ∷ xs) = (y ≡ x) ⊎ Has y xs

-- The id is `ohfi`, or that of an object of the list whose parent has such an id.
pub data Below (ws : List CmaObject) (ohfi : ℕ) : ℕ → Type 0 where
  itself : Below ws ohfi ohfi
  child : (x : CmaObject) → Has x ws → Below ws ohfi (parent_of x) → Below ws ohfi (ohfi_of x)

pub Has-All :
    (P : CmaObject → Type 0) (xs : List CmaObject) (y : CmaObject) → All P xs → Has y xs → P y
Has-All P [] y a h = absurd h
Has-All P (x ∷ xs) y a (inl e) = subst P (sym e) a.0
Has-All P (x ∷ xs) y a (inr h) = Has-All P xs y a.1 h

unique :
    (xs : List CmaObject) (x y : CmaObject)
    → IsValid xs
    → Has x xs
    → Has y xs
    → ohfi_of x ≡ ohfi_of y
    → x ≡ y
unique [] x y v h h' e = absurd h
unique (z ∷ xs) x y v (inl p) (inl q) e = p ∙ sym q
unique (z ∷ xs) x y v (inl p) (inr h) e =
    absurd ((Has-All (MayFollow z) xs y v.1 h).0 (sym e ∙ ap ohfi_of p))
unique (z ∷ xs) x y v (inr h) (inl q) e =
    absurd ((Has-All (MayFollow z) xs x v.1 h).0 (e ∙ ap ohfi_of q))
unique (z ∷ xs) x y v (inr h) (inr h') e = unique xs x y v.2 h h' e

All-zip :
    (P Q R : CmaObject → Type 0)
    → ((x : CmaObject) → P x → Q x → R x)
    → (xs : List CmaObject) → All P xs
    → All Q xs
    → All R xs
All-zip P Q R f [] a b = tt
All-zip P Q R f (x ∷ xs) a b = (f x a.0 b.0, All-zip P Q R f xs a.1 b.1)

pub ==_not : (a b : ℕ) → (a == b) ≡ false → a ≢ b
==_not a b h e = cc (h, (==_iff a b).1 e)

not_both : (b : Bool) → b ≡ false → b ≡ true → ⊥
not_both b e e' = cc

module _ (ws : List CmaObject) (ohfi : ℕ) where
  pub Below-cases :
      (n : ℕ)
      → Below ws ohfi n
      → (n ≡ ohfi) ⊎ ((x : CmaObject) × Has x ws × (ohfi_of x ≡ n) × Below ws ohfi (parent_of x))
  Below-cases _ itself = inl refl
  Below-cases _ (child x h b) = inr (x, h, refl, b)

  -- An object with another id is below only through its parent.
  Below-parent :
      (x : CmaObject)
      → IsValid ws
      → Has x ws
      → ohfi_of x ≢ ohfi
      → Below ws ohfi (ohfi_of x)
      → Below ws ohfi (parent_of x)
  Below-parent x v h k b = elim (Below-cases (ohfi_of x) b) [
    | inl same ↦ absurd (k same)
    | inr c ↦
        subst (λ (y : CmaObject). Below ws ohfi (parent_of y)) (unique ws c.0 x v c.1 h c.2) c.3
  ]

  -- The objects that are left are those that are not below.
  abbrev pub IsRest : List CmaObject → List CmaObject → Type 0
  IsRest xs left = (y : CmaObject) → Has y left ↔ (Has y xs × (¬ Below ws ohfi (ohfi_of y)))

  IsRest-drop :
      (x : CmaObject) (xs left : List CmaObject)
      → Below ws ohfi (ohfi_of x)
      → IsRest xs left
      → IsRest (x ∷ xs) left
  IsRest-drop x xs left b r y = (λ h. (inr ((r y).0 h).0, ((r y).0 h).1), λ q. back q.0 q.1)
    where
      back : Has y (x ∷ xs) → ¬ Below ws ohfi (ohfi_of y) → Has y left
      back (inl e) k = absurd (k (subst (λ z. Below ws ohfi (ohfi_of z)) (sym e) b))
      back (inr h) k = (r y).1 (h, k)

  IsRest-keep :
      (x : CmaObject) (xs left : List CmaObject)
      → ¬ Below ws ohfi (ohfi_of x)
      → IsRest xs left
      → IsRest (x ∷ xs) (x ∷ left)
  IsRest-keep x xs left n r y = (forth, λ q. back q.0 q.1)
    where
      forth : Has y (x ∷ left) → Has y (x ∷ xs) × (¬ Below ws ohfi (ohfi_of y))
      forth (inl e) = (inl e, λ b. n (subst (λ z. Below ws ohfi (ohfi_of z)) e b))
      forth (inr h) = (inr ((r y).0 h).0, ((r y).0 h).1)

      back : Has y (x ∷ xs) → ¬ Below ws ohfi (ohfi_of y) → Has y (x ∷ left)
      back (inl e) k = inl e
      back (inr h) k = inr ((r y).1 (h, k))

  sweep-IsRest :
      (dead : ℕ → Bool) (xs : List CmaObject)
      → IsValid ws
      → IsValid xs
      → ((y : CmaObject) → Has y xs → Has y ws)
      → ((n : ℕ) → All (λ z. ohfi_of z ≢ n) xs → (dead n ≡ true) ↔ Below ws ohfi n)
      → All (λ z. (dead (ohfi_of z) ≡ false) × (ohfi_of z ≢ ohfi)) xs
      → IsRest xs (sweep dead xs)
  unfolding sweep
  sweep-IsRest dead [] v w sub known fresh = λ y. (λ h. absurd h, λ q. absurd q.0)
  sweep-IsRest dead (x ∷ xs) v w sub known fresh =
      let above =
        known (parent_of x) ((λ e. w.0 (sym e)), All-map _ _ (λ z m e. m.1 (sym e)) xs w.1) in
      elim (Bool-cases (dead (parent_of x))) [
        | inl gone ↦
            let below = child x (sub x (inl refl)) (above.0 gone) in
            rw gone (
              IsRest-drop x xs _ below (
                sweep-IsRest (λ n. (ohfi_of x == n) || dead n) xs v w.2 (λ y h. sub y (inr h))
                  (λ n a. elim (Bool-cases (ohfi_of x == n)) [
                    | inl same ↦ rw same (
                      (λ _. subst (Below ws ohfi) ((==_iff (ohfi_of x) n).0 same) below),
                      (λ _. refl),
                    )
                    | inr other ↦ rw other (known n (==_not _ _ other, a))
                  ])
                  (All-zip _ _ _ (λ z m f. (rw (==_false _ _ (λ e. m.0 (sym e)), f.0) refl, f.1)) xs
                    w.1 fresh.1)))
        | inr stays ↦
            let not_below : ¬ Below ws ohfi (ohfi_of x) = (λ b.
              not_both (dead (parent_of x)) stays
                (above.1 (Below-parent x v (sub x (inl refl)) fresh.0.1 b))) in
            rw stays (
              IsRest-keep x xs _ not_below (
                sweep-IsRest dead xs v w.2 (λ y h. sub y (inr h))
                  (λ n a. elim (Bool-cases (ohfi_of x == n)) [
                    | inl same ↦
                        let p = (==_iff (ohfi_of x) n).0 same in
                        (
                          (λ e.
                              absurd
                                (not_both (dead n) (subst (λ k. dead k ≡ false) p fresh.0.0) e)),
                          (λ b. absurd (not_below (subst (Below ws ohfi) (sym p) b))),
                        )
                    | inr other ↦ known n (==_not _ _ other, a)
                  ])
                  fresh.1))
      ]

  pub survivors-IsRest :
      (xs : List CmaObject) (target : CmaObject)
      → IsValid ws
      → IsValid xs
      → ((y : CmaObject) → Has y xs → Has y ws)
      → Has target xs
      → ohfi_of target ≡ ohfi
      → ((n : ℕ) → All (λ z. ohfi_of z ≢ n) xs → ¬ Below ws ohfi n)
      → IsRest xs (survivors ohfi xs)
  unfolding survivors
  survivors-IsRest [] target v w sub has is known = absurd has
  survivors-IsRest (x ∷ xs) target v w sub has is known = elim (Bool-cases (ohfi_of x == ohfi)) [
    | inl same ↦
        let p = (==_iff (ohfi_of x) ohfi).0 same in
        rw same (
          IsRest-drop x xs _ (subst (Below ws ohfi) (sym p) itself) (
            sweep-IsRest (λ n. ohfi == n) xs v w.2 (λ y h. sub y (inr h))
              (λ n a. elim (Bool-cases (ohfi == n)) [
                | inl hit ↦
                    rw hit
                      ((λ _. subst (Below ws ohfi) ((==_iff ohfi n).0 hit) itself), (λ _. refl))
                | inr other ↦ rw other (
                  (λ e. absurd (cc e)),
                  (λ b. absurd (known n ((λ e. ==_not _ _ other (sym p ∙ e)), a) b)),
                )
              ])
              (All-map _ _
                (λ z m. (==_false _ _ (λ e. m.0 (sym e ∙ sym p)), (λ e. m.0 (e ∙ sym p)))) xs w.1)))
    | inr differ ↦
        let above =
          known (parent_of x) ((λ e. w.0 (sym e)), All-map _ _ (λ z m e. m.1 (sym e)) xs w.1) in
        let not_below : ¬ Below ws ohfi (ohfi_of x) =
          (λ b. above (Below-parent x v (sub x (inl refl)) (==_not _ _ differ) b)) in
        rw differ (
          IsRest-keep x xs _ not_below (
            survivors-IsRest xs target v w.2 (λ y h. sub y (inr h)) (later has differ) is
              (λ n a. elim (Bool-cases (ohfi_of x == n)) [
                | inl same ↦
                    (λ b. not_below (subst (Below ws ohfi) (sym ((==_iff (ohfi_of x) n).0 same)) b))
                | inr other ↦ known n (==_not _ _ other, a)
              ])))
  ]
    where
      later : Has target (x ∷ xs) → (ohfi_of x == ohfi) ≡ false → Has target xs
      later (inl e) d = absurd (==_not _ _ d (sym (ap ohfi_of e) ∙ is))
      later (inr h) d = h
