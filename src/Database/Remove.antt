-- ===== src/Database/Remove.antt =====
-- `removeFromDatabase` of src/database.c, on the objects from `start` on.
pub mod Sweep
pub mod Whole
pub mod Below
pub mod Correct
use vita_mtp.Base.{
  ℕ, zero, suc, ◌+◌, ◌*◌, Option, none, some, List, [], ◌∷◌, reverse, ◌==◌, ltb, if◌then◌else◌,
  length,
}
use vita_mtp.Database.{CmaObject, ohfi_of, parent_of}

-- What goes wrong with `p_toFree`: it was never set and is read all the same; it points to the
-- parameter `start` itself, so that the list keeps a freed object; or it points to the null at the
-- end of the list, which is then read through. `lost` is a call for a child that leaves nothing.
pub data Fault : Type 0 where
  unset at_start at_null lost : Fault

-- How a call ends. `done`: the objects from `start` on that are left. `invalid`: the return with
-- the message, nothing removed by this call, and the lock still held. `stuck`: the fuel ran out.
pub data Removed : Type 0 where
  done : List CmaObject → Removed
  invalid : List CmaObject → Removed
  fault : Fault → Removed
  stuck : Removed

-- `*p_toFree = prev->next_object` at a position of the list.
unfoldable pub unlink : ℕ → List CmaObject → List CmaObject
unlink i [] = []
unlink zero (x ∷ xs) = xs
unlink (suc i) (x ∷ xs) = x ∷ unlink i xs

unfoldable pub finish : Option ℕ → List CmaObject → Removed
unfolding unlink
finish none xs = fault unset
finish (some zero) xs = fault at_start
finish (some (suc i)) xs =
    if ltb (suc i) (length xs) then done (unlink (suc i) xs) else fault at_null

-- `p_toFree` behind the first test.
unfoldable pub mark : ℕ → List CmaObject → CmaObject → Option ℕ → Option ℕ
mark ohfi before x to_free = if ohfi_of x == ohfi then some (length before) else to_free

-- How the loop goes on with what the call for a child leaves, whose first object is `prev`. A
-- child that could not be removed is met again.
unfoldable pub resume : (List CmaObject → Removed) → List CmaObject → Removed → Removed
resume next rest (done []) = fault lost
resume next rest (done (_ ∷ left)) = next left
resume next rest (invalid _) = next rest
resume next rest (fault why) = fault why
resume next rest stuck = stuck

-- The loop, on fuel. `before` holds the objects that it has passed, the last one first: that is `prev`,
-- to which it backs up after the call for a child.
unfoldable pub walk : ℕ → ℕ → List CmaObject → List CmaObject → Option ℕ → Removed
unfolding finish mark resume
walk zero ohfi before rest to_free = stuck
walk (suc fuel) ohfi before [] to_free = finish to_free (reverse before)
walk (suc fuel) ohfi [] (x ∷ rest) to_free =
    let next = walk fuel ohfi (x ∷ []) rest (mark ohfi [] x to_free) in
    if parent_of x == ohfi then invalid (x ∷ rest) else next
walk (suc fuel) ohfi (prev ∷ before) (x ∷ rest) to_free =
    let to_free' = mark ohfi (prev ∷ before) x to_free in
    let next = walk fuel ohfi (x ∷ prev ∷ before) rest to_free' in
    let child = walk fuel (ohfi_of x) [] (prev ∷ x ∷ rest) none in
    let resumed = resume (λ left. walk fuel ohfi (prev ∷ before) left to_free') (x ∷ rest) child in
    if parent_of x == ohfi then resumed else next

-- Each object takes three rounds at most.
unfoldable pub remove_from_database : ℕ → List CmaObject → Removed
remove_from_database ohfi start = walk (suc (length start * 3)) ohfi [] start none
