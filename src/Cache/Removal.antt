-- ===== src/Cache/Removal.antt =====
-- Looking up and removing objects of the cache in src/ptp.c: `ptp_object_find`, over the `bsearch` of
-- the C library, which is a parameter, and `ptp_remove_object_from_cache`.
pub mod Correct
mod Tests
use vita_mtp.Base.{
  ℕ, zero, suc, ◌+◌, ◌-◌, ◌%◌, ◌^◌, ◌<◌, ◌≤◌, ◌≡◌, ◌≢◌, Option, none, some, List, [], ◌∷◌, ltb,
  ◌==◌, if◌then◌else◌, get_elem?,
}
use vita_mtp.Cache.{Object, new_object, rc_ok, rc_general_error}

-- `_cmp_ob`: a difference of unsigned numbers that is taken for an `int`, here by its bit pattern.
unfoldable pub cmp_ob : Object → Object → ℕ
cmp_ob oa ob = (oa.oid + 2 ^ 32 - ob.oid) % 2 ^ 32

-- The sign of an `int`: 0 where it is negative, 1 for 0, and 2 where it is positive.
abbrev pub sign : ℕ → ℕ
sign n = if n == 0 then 1 else if ltb n (2 ^ 31) then 2 else 0

-- `bsearch`, by the key, the array and the comparison: the place that it finds.
abbrev pub Bsearch : Type 0
Bsearch = Object → List Object → (Object → Object → ℕ) → Option ℕ

-- The array is in order for a key: first the elements that it is greater than, then those it equals.
abbrev pub IsOrdered : Object → List Object → (Object → Object → ℕ) → Type 0
IsOrdered key xs cmp =
    (i j : ℕ) (x y : Object)
    → i < j
    → get_elem? xs i ≡ some x
    → get_elem? xs j ≡ some y
    → sign (cmp key y) ≤ sign (cmp key x)

-- What the C library documents: on an array in order, an element that equals the key, if there is
-- one.
pub record IsBsearch (bsearch : Bsearch) : Type 0 where
  pub found :
      (key : Object) (xs : List Object) (cmp : Object → Object → ℕ) (i : ℕ)
      → IsOrdered key xs cmp
      → bsearch key xs cmp ≡ some i
      → (x : Object) × (get_elem? xs i ≡ some x) × (sign (cmp key x) ≡ 1)
  pub missed :
      (key : Object) (xs : List Object) (cmp : Object → Object → ℕ)
      → IsOrdered key xs cmp
      → bsearch key xs cmp ≡ none
      → (i : ℕ) (x : Object) → get_elem? xs i ≡ some x
      → sign (cmp key x) ≢ 1

-- `ptp_object_find`: the code, and the index that `*retob` points to. The comparison reads only the
-- handle of `tmpob`, which is all that is set of it.
unfoldable pub object_find : Bsearch → List Object → ℕ → ℕ × Option ℕ
object_find bsearch objects handle = elim (bsearch (new_object handle) objects cmp_ob) [
  | none ↦ (rc_general_error, none)
  | some i ↦ (rc_ok, some i)
]

-- `memmove` of the objects behind `i`.
unfoldable pub remove_at : ℕ → List Object → List Object
remove_at i [] = []
remove_at zero (x ∷ xs) = xs
remove_at (suc i) (x ∷ xs) = x ∷ remove_at i xs

-- `ptp_remove_object_from_cache`. The `realloc` of less memory is taken to succeed.
unfoldable pub remove_object_from_cache : Bsearch → List Object → ℕ → List Object
unfolding object_find
remove_object_from_cache bsearch objects handle =
    let r = object_find bsearch objects handle in
    elim r.1 [ none ↦ objects | some i ↦ if r.0 == rc_ok then remove_at i objects else objects ]
