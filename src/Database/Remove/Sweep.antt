-- ===== src/Database/Remove/Sweep.antt =====
-- What is left of a list of objects when an object goes with everything below it, in one pass:
-- a description of `removeFromDatabase` of src/database.c that does not call itself again.
use vita_mtp.Base.{
  ℕ, ◌≡◌, ◌≢◌, refl, ap, ◌∙◌, Bool, true, false, ◌||◌, List, [], ◌∷◌, ◌==◌, ◌≤◌, if◌then◌else◌,
  length, All, Bool-cases, inl, inr, arith,
}
use vita_mtp.Database.{CmaObject, ohfi_of, parent_of}

-- Drops each object with a dead parent, which is dead from there on.
unfoldable pub sweep : (ℕ → Bool) → List CmaObject → List CmaObject
sweep dead [] = []
sweep dead (x ∷ xs) =
    if dead (parent_of x) then sweep (λ n. (ohfi_of x == n) || dead n) xs else x ∷ sweep dead xs

-- The object itself goes too.
unfoldable pub survivors : ℕ → List CmaObject → List CmaObject
survivors ohfi [] = []
survivors ohfi (x ∷ xs) =
    if ohfi_of x == ohfi then sweep (λ n. ohfi == n) xs else x ∷ survivors ohfi xs

-- `y` may stand behind `x`.
abbrev pub MayFollow : CmaObject → CmaObject → Type 0
MayFollow x y = (ohfi_of y ≢ ohfi_of x) × (parent_of x ≢ ohfi_of y)

-- A valid list: no id twice, and parents before their children.
abbrev pub IsValid : List CmaObject → Type 0
IsValid [] = Unit {0}
IsValid (x ∷ xs) = (parent_of x ≢ ohfi_of x) × All (MayFollow x) xs × IsValid xs

pub sweep-All {κ} :
    (P : CmaObject → Type κ) (dead : ℕ → Bool) (xs : List CmaObject)
    → All P xs
    → All P (sweep dead xs)
unfolding sweep
sweep-All P dead [] a = a
sweep-All P dead (x ∷ xs) a = elim (Bool-cases (dead (parent_of x))) [
  | inl gone ↦ rw gone (sweep-All P (λ n. (ohfi_of x == n) || dead n) xs a.1)
  | inr left ↦ rw left (a.0, sweep-All P dead xs a.1)
]

pub sweep-IsValid : (dead : ℕ → Bool) (xs : List CmaObject) → IsValid xs → IsValid (sweep dead xs)
unfolding sweep
sweep-IsValid dead [] v = v
sweep-IsValid dead (x ∷ xs) v = elim (Bool-cases (dead (parent_of x))) [
  | inl gone ↦ rw gone (sweep-IsValid (λ n. (ohfi_of x == n) || dead n) xs v.2)
  | inr left ↦ rw left (v.0, sweep-All (MayFollow x) dead xs v.1, sweep-IsValid dead xs v.2)
]

pub length-sweep : (dead : ℕ → Bool) (xs : List CmaObject) → length (sweep dead xs) ≤ length xs
unfolding sweep
length-sweep dead [] = omega arith
length-sweep dead (x ∷ xs) = elim (Bool-cases (dead (parent_of x))) [
  | inl gone ↦ rw gone (omega (arith, length-sweep (λ n. (ohfi_of x == n) || dead n) xs))
  | inr left ↦ rw left (omega (arith, length-sweep dead xs))
]

or_swap : (a b c : Bool) → (b || (a || c)) ≡ (a || (b || c))
or_swap true true c = refl
or_swap true false c = refl
or_swap false b c = refl

or_assoc : (a b c : Bool) → ((a || b) || c) ≡ (a || (b || c))
or_assoc true b c = refl
or_assoc false b c = refl

-- Two passes are one.
pub sweep-sweep :
    (d e : ℕ → Bool) (xs : List CmaObject) → sweep d (sweep e xs) ≡ sweep (λ n. e n || d n) xs
unfolding sweep
sweep-sweep d e [] = refl
sweep-sweep d e (x ∷ xs) = elim (Bool-cases (e (parent_of x))) [
  | inl gone ↦ rw gone (
      sweep-sweep d (λ n. (ohfi_of x == n) || e n) xs
      ∙ (λ i. sweep (λ n. or_assoc (ohfi_of x == n) (e n) (d n) i) xs))
  | inr left ↦ elim (Bool-cases (d (parent_of x))) [
    | inl gone ↦
        rw (left, gone)
          (sweep-sweep (λ n. (ohfi_of x == n) || d n) e xs
            ∙ (λ i. sweep (λ n. or_swap (ohfi_of x == n) (e n) (d n) i) xs))
    | inr stays ↦ rw (left, stays) (ap (λ ys. x ∷ ys) (sweep-sweep d e xs))
  ]
]
