-- ===== src/Database/Remove/Whole.antt =====
-- `removeFromDatabase` of src/database.c: which objects it removes, by the chains of parents.
use mathlib.Core.Path.{subst}
use mathlib.Core.Option.{some-injective}
use vita_mtp.Base.{
  ℕ, zero, suc, ◌≡◌, ◌≢◌, refl, sym, some, List, [], ◌∷◌, ==_false, get_elem?, All, All-get_elem?,
  inl, inr,
}
use vita_mtp.Database.{CmaObject, ohfi_of}
use vita_mtp.Database.Remove.{done, remove_from_database}
use vita_mtp.Database.Remove.Sweep.{survivors, IsValid, MayFollow}
use vita_mtp.Database.Remove.Below.{Has, Has-All, Below, Below-cases, IsRest, survivors-IsRest}
use vita_mtp.Database.Remove.Correct.{remove_from_database_lem}

get_elem?-Has : (xs : List CmaObject) (i : ℕ) (x : CmaObject) → get_elem? xs i ≡ some x → Has x xs
get_elem?-Has [] i x e = cc
get_elem?-Has (y ∷ xs) zero x e = inl (sym (some-injective _ _ e))
get_elem?-Has (y ∷ xs) (suc i) x e = inr (get_elem?-Has xs i x e)

-- An id that no object has is not below.
foreign :
    (ws : List CmaObject) (x : CmaObject) (n : ℕ)
    → Has x ws
    → All (λ z. ohfi_of z ≢ n) ws
    → ¬ Below ws (ohfi_of x) n
foreign ws x n h a b = elim (Below-cases ws (ohfi_of x) n b) [
  | inl same ↦ Has-All (λ z. ohfi_of z ≢ n) ws x a h (sym same)
  | inr c ↦ Has-All (λ z. ohfi_of z ≢ n) ws c.0 a c.1 c.2
]

survivors-start :
    (ohfi : ℕ) (start : CmaObject) (rest : List CmaObject)
    → ohfi_of start ≢ ohfi
    → survivors ohfi (start ∷ rest) ≡ start ∷ survivors ohfi rest
unfolding survivors
survivors-start ohfi start rest h = rw (==_false _ _ h) refl

-- In a valid list, `removeFromDatabase` of an object behind the first one ends and leaves just the
-- objects that are not below it: those whose own id, parent's id, parent's parent's and so on are
-- never the id that was removed.
pub remove_from_database-IsRest :
    (start : CmaObject) (rest : List CmaObject) (i : ℕ) (x : CmaObject)
    → IsValid (start ∷ rest)
    → get_elem? rest i ≡ some x
    → (left : List CmaObject) × (remove_from_database (ohfi_of x) (start ∷ rest)
        ≡ done (start ∷ left))
      × IsRest (start ∷ rest) (ohfi_of x) (start ∷ rest) (start ∷ left)
remove_from_database-IsRest start rest i x v e =
    let ws = start ∷ rest in
    let has : Has x ws = inr (get_elem?-Has rest i x e) in
    let apart : MayFollow start x = All-get_elem? (MayFollow start) rest i x v.1 e in
    (
      survivors (ohfi_of x) rest,
      remove_from_database_lem start rest i x v e,
      subst (IsRest ws (ohfi_of x) ws)
          (survivors-start (ohfi_of x) start rest (λ p. apart.0 (sym p)))
          (survivors-IsRest ws (ohfi_of x) ws x v v (λ y h. h) has refl
            (λ n a. foreign ws x n has a)),
    )
