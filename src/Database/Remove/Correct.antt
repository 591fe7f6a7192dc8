-- ===== src/Database/Remove/Correct.antt =====
-- `removeFromDatabase` of src/database.c on a valid list: what its nested calls leave.
use mathlib.Core.Path.{subst}
use mathlib.Core.Option.{some-injective}
use mathlib.Core.List.{reverse-append, append-nil, append_assoc}
use vita_mtp.Base.{
  ==_false, ℕ, zero, suc, ◌≡◌, ◌≢◌, refl, sym, ap, ◌∙◌, true, false, ◌||◌, Option, none, some, List,
  [], ◌∷◌, ◌++◌, ◌==◌, ◌≤◌, ◌+◌, ◌*◌, length, reverse, All, Bool-cases, inl, inr, arith, ltb,
  lt→ltb, ==_iff, length-append, length-reverse, get_elem?, All-get_elem?,
}
use vita_mtp.Database.{CmaObject, ohfi_of, parent_of}
use vita_mtp.Database.Remove.{
  Removed, done, fault, unset, unlink, finish, mark, resume, walk, remove_from_database,
}
use vita_mtp.Database.Remove.Sweep.{
  sweep, survivors, MayFollow, IsValid, sweep-All, sweep-IsValid, length-sweep, sweep-sweep,
}

reverse-cons :
    (x : CmaObject) (xs ys : List CmaObject) → reverse (x ∷ xs) ++ ys ≡ reverse xs ++ x ∷ ys
reverse-cons x xs ys =
    ap (λ zs. zs ++ ys) (reverse-append (x ∷ []) xs) ∙ append_assoc (reverse xs) (x ∷ []) ys

unlink-append :
    (xs : List CmaObject) (x : CmaObject) (ys : List CmaObject)
    → unlink (length xs) (xs ++ x ∷ ys) ≡ xs ++ ys
unfolding unlink
unlink-append [] x ys = refl
unlink-append (z ∷ xs) x ys = ap (λ zs. z ∷ zs) (unlink-append xs x ys)

-- The object right behind the passed ones is unlinked.
finish-append :
    (prev : CmaObject) (before : List CmaObject) (x : CmaObject) (ys : List CmaObject)
    → finish (some (length (prev ∷ before))) (reverse (prev ∷ before) ++ x ∷ ys)
      ≡ done (reverse (prev ∷ before) ++ ys)
unfolding finish
finish-append prev before x ys =
    let passed = reverse (prev ∷ before) in
    let same : length passed ≡ suc (length before) = length-reverse (prev ∷ before) in
    let inside : ltb (suc (length before)) (length (passed ++ x ∷ ys)) ≡ true =
      lt→ltb _ _ (omega (arith, same, length-append passed (x ∷ ys))) in
    rw inside
      (ap done (ap (λ n. unlink n (passed ++ x ∷ ys)) (sym same) ∙ unlink-append passed x ys))

==_not : (a b : ℕ) → (a == b) ≡ false → a ≢ b
==_not a b h e = cc (h, (==_iff a b).1 e)

-- One round, by what it meets.
walk-start :
    (f ohfi : ℕ) (x : CmaObject) (rest : List CmaObject)
    → parent_of x ≢ ohfi
    → ohfi_of x ≢ ohfi
    → walk (suc f) ohfi [] (x ∷ rest) none ≡ walk f ohfi (x ∷ []) rest none
unfolding walk mark
walk-start f ohfi x rest h k = rw (==_false _ _ h, ==_false _ _ k) refl

module _ (f ohfi : ℕ) (prev : CmaObject) (before : List CmaObject) (x : CmaObject)
    (rest : List CmaObject) (to_free : Option ℕ) where
  walk-other :
      parent_of x ≢ ohfi
      → ohfi_of x ≢ ohfi
      → walk (suc f) ohfi (prev ∷ before) (x ∷ rest) to_free
        ≡ walk f ohfi (x ∷ prev ∷ before) rest to_free
  unfolding walk mark
  walk-other h k = rw (==_false _ _ h, ==_false _ _ k) refl

  walk-target :
      parent_of x ≢ ohfi
      → ohfi_of x ≡ ohfi
      → walk (suc f) ohfi (prev ∷ before) (x ∷ rest) to_free
        ≡ walk f ohfi (x ∷ prev ∷ before) rest (some (length (prev ∷ before)))
  unfolding walk mark
  walk-target h k = rw (==_false _ _ h, (==_iff (ohfi_of x) ohfi).1 k) refl

  walk-child :
      parent_of x ≡ ohfi
      → ohfi_of x ≢ ohfi
      → walk (suc f) ohfi (prev ∷ before) (x ∷ rest) to_free
        ≡ resume
            (λ left. walk f ohfi (prev ∷ before) left to_free)
            (x ∷ rest)
            (walk f (ohfi_of x) [] (prev ∷ x ∷ rest) none)
  unfolding walk mark
  walk-child h k = rw ((==_iff (parent_of x) ohfi).1 h, ==_false _ _ k) refl

module _ (ohfi : ℕ) (x : CmaObject) (rest : List CmaObject) where
  sweep-child :
      parent_of x ≡ ohfi
      → sweep (λ n. ohfi == n) (x ∷ rest) ≡ sweep (λ n. (ohfi_of x == n) || (ohfi == n)) rest
  unfolding sweep
  sweep-child h = rw ((==_iff ohfi (parent_of x)).1 (sym h)) refl

  sweep-other :
      parent_of x ≢ ohfi → sweep (λ n. ohfi == n) (x ∷ rest) ≡ x ∷ sweep (λ n. ohfi == n) rest
  unfolding sweep
  sweep-other h = rw (==_false ohfi (parent_of x) (λ e. h (sym e))) refl

walk-nil :
    (f ohfi : ℕ) (prev : CmaObject) (before : List CmaObject) (to_free : Option ℕ)
    → walk (suc f) ohfi (prev ∷ before) [] to_free
      ≡ finish to_free (reverse (prev ∷ before) ++ sweep (λ n. ohfi == n) [])
unfolding walk sweep
walk-nil f ohfi prev before to_free =
    ap (finish to_free) (sym (append-nil (reverse (prev ∷ before))))

All-fst :
    (x : CmaObject) (ys : List CmaObject)
    → All (MayFollow x) ys
    → All (λ y. ohfi_of y ≢ ohfi_of x) ys
All-fst x [] a = tt
All-fst x (y ∷ ys) a = (a.0.0, All-fst x ys a.1)

resumed :
    (f ohfi : ℕ) (prev : CmaObject) (before : List CmaObject) (x : CmaObject)
    (rest : List CmaObject) (to_free : Option ℕ) {child : Removed} {left : List CmaObject}
    → child ≡ done (prev ∷ left)
    → resume (λ zs. walk f ohfi (prev ∷ before) zs to_free) (x ∷ rest) child
      ≡ walk f ohfi (prev ∷ before) left to_free
unfolding resume
resumed f ohfi prev before x rest to_free e =
    ap (resume (λ zs. walk f ohfi (prev ∷ before) zs to_free) (x ∷ rest)) e

-- From behind the target on, the loop sweeps away what is below it.
walk_lem :
    (fuel ohfi : ℕ) (prev : CmaObject) (before rest : List CmaObject) (to_free : Option ℕ)
    → length rest * 3 + 1 ≤ fuel
    → IsValid (prev ∷ rest)
    → All (λ y. ohfi_of y ≢ ohfi) rest
    → walk fuel ohfi (prev ∷ before) rest to_free
      ≡ finish to_free (reverse (prev ∷ before) ++ sweep (λ n. ohfi == n) rest)
walk_lem zero ohfi prev before rest to_free h v a = absurd (omega arith)
walk_lem (suc f) ohfi prev before [] to_free h v a = walk-nil f ohfi prev before to_free
walk_lem (suc zero) ohfi prev before (x ∷ rest) to_free h v a = absurd (omega arith)
walk_lem (suc (suc zero)) ohfi prev before (x ∷ rest) to_free h v a = absurd (omega arith)
walk_lem (suc (suc (suc f))) ohfi prev before (x ∷ rest) to_free h v a =
    elim (Bool-cases (parent_of x == ohfi)) [
      | inl child ↦
          let c = ohfi_of x in
          let is_child = (==_iff (parent_of x) ohfi).0 child in
          let left = sweep (λ n. c == n) rest in
          let removed : walk (suc (suc f)) c [] (prev ∷ x ∷ rest) none ≡ done (prev ∷ left) =
            walk-start (suc f) c prev (x ∷ rest) v.1.0.1 (λ e. v.1.0.0 (sym e))
            ∙ (walk-target f c prev [] x rest none v.2.0 refl
                ∙ (walk_lem f c x (prev ∷ []) rest (some 1) (omega arith) v.2 (All-fst x rest v.2.1)
                    ∙ finish-append prev [] x left)) in
          walk-child (suc (suc f)) ohfi prev before x rest to_free is_child a.0
          ∙ (resumed (suc (suc f)) ohfi prev before x rest to_free removed
              ∙ (walk_lem (suc (suc f)) ohfi prev before left to_free
                    (omega (arith, length-sweep (λ n. c == n) rest))
                    (v.0, sweep-All (MayFollow prev) _ rest v.1.1, sweep-IsValid _ rest v.2.2)
                    (sweep-All (λ y. ohfi_of y ≢ ohfi) _ rest a.1)
                  ∙ ap (λ zs. finish to_free (reverse (prev ∷ before) ++ zs))
                      (sweep-sweep _ _ rest ∙ sym (sweep-child ohfi x rest is_child))))
      | inr other ↦
          let not_child = ==_not (parent_of x) ohfi other in
          walk-other (suc (suc f)) ohfi prev before x rest to_free not_child a.0
          ∙ (walk_lem (suc (suc f)) ohfi x (prev ∷ before) rest to_free (omega arith) v.2 a.1
              ∙ ap (finish to_free) (
                  reverse-cons x (prev ∷ before) _
                  ∙ ap (λ zs. reverse (prev ∷ before) ++ zs)
                      (sym (sweep-other ohfi x rest not_child))))
    ]

-- Up to the target the loop goes on.
walk_before :
    (fuel : ℕ) (prev : CmaObject) (before rest : List CmaObject) (i : ℕ) (x : CmaObject)
    → length rest * 3 + 1 ≤ fuel
    → IsValid (prev ∷ rest)
    → get_elem? rest i ≡ some x
    → walk fuel (ohfi_of x) (prev ∷ before) rest none
      ≡ done (reverse (prev ∷ before) ++ survivors (ohfi_of x) rest)
unfolding survivors
walk_before zero prev before rest i x h v e = absurd (omega arith)
walk_before (suc f) prev before [] i x h v e = cc
walk_before (suc f) prev before (y ∷ rest) zero x h v e =
    let c = ohfi_of x in
    let same : ohfi_of y ≡ c = ap ohfi_of (some-injective _ _ e) in
    let follow : All (λ z. ohfi_of z ≢ c) rest =
      subst (λ n. All (λ z. ohfi_of z ≢ n) rest) same (All-fst y rest v.2.1) in
    rw ((==_iff (ohfi_of y) c).1 same) (
      walk-target f c prev before y rest none (λ p. v.2.0 (p ∙ sym same)) same
      ∙ (walk_lem f c y (prev ∷ before) rest (some (length (prev ∷ before))) (omega arith) v.2
            follow
          ∙ (ap (finish _) (reverse-cons y (prev ∷ before) _) ∙ finish-append prev before y _)))
walk_before (suc f) prev before (y ∷ rest) (suc i) x h v e =
    let c = ohfi_of x in
    let apart : MayFollow y x = All-get_elem? (MayFollow y) rest i x v.2.1 e in
    let differ : ohfi_of y ≢ c = (λ p. apart.0 (sym p)) in
    rw (==_false (ohfi_of y) c differ) (
      walk-other f c prev before y rest none apart.1 differ
      ∙ (walk_before f y (prev ∷ before) rest i x (omega arith) v.2 e
          ∙ ap done (reverse-cons y (prev ∷ before) _)))

-- In a valid list, for an object behind the first one, `removeFromDatabase` ends, removes that
-- object and everything below it, and keeps the other objects in their order.
pub remove_from_database_lem :
    (start : CmaObject) (rest : List CmaObject) (i : ℕ) (x : CmaObject)
    → IsValid (start ∷ rest)
    → get_elem? rest i ≡ some x
    → remove_from_database (ohfi_of x) (start ∷ rest) ≡ done (start ∷ survivors (ohfi_of x) rest)
unfolding remove_from_database
remove_from_database_lem start rest i x v e =
    let apart : MayFollow start x = All-get_elem? (MayFollow start) rest i x v.1 e in
    walk-start (length (start ∷ rest) * 3) (ohfi_of x) start rest apart.1 (λ p. apart.0 (sym p))
    ∙ walk_before (length (start ∷ rest) * 3) start [] rest i x (omega arith) (v.0, v.1, v.2) e

walk-absent :
    (fuel ohfi : ℕ) (before rest : List CmaObject)
    → length rest + 1 ≤ fuel
    → All (λ y. (ohfi_of y ≢ ohfi) × (parent_of y ≢ ohfi)) rest
    → walk fuel ohfi before rest none ≡ fault unset
unfolding walk mark finish
walk-absent zero ohfi before rest h a = absurd (omega arith)
walk-absent (suc f) ohfi before [] h a = refl
walk-absent (suc f) ohfi [] (x ∷ rest) h a =
    rw (==_false _ _ a.0.0, ==_false _ _ a.0.1) (walk-absent f ohfi (x ∷ []) rest (omega arith) a.1)
walk-absent (suc f) ohfi (prev ∷ before) (x ∷ rest) h a =
    rw (==_false _ _ a.0.0, ==_false _ _ a.0.1)
      (walk-absent f ohfi (x ∷ prev ∷ before) rest (omega arith) a.1)

-- For an id that no object of the list has, and that is no object's parent, `removeFromDatabase` ends
-- by reading `p_toFree`, which nothing has set.
pub remove_from_database-absent :
    (ohfi : ℕ) (start : List CmaObject)
    → All (λ y. (ohfi_of y ≢ ohfi) × (parent_of y ≢ ohfi)) start
    → remove_from_database ohfi start ≡ fault unset
unfolding remove_from_database
remove_from_database-absent ohfi start a = walk-absent _ ohfi [] start (omega arith) a
