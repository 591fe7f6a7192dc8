-- ===== src/Bytes/Layout.antt =====
-- Reads and writes of a buffer that is given as a concatenation.
use mathlib.Core.List.{append-nil}
use vita_mtp.Base.{
  sym, ◌∙◌, ℕ, zero, suc, ◌+◌, ◌≤◌, ◌<◌, ◌≡◌, refl, ap, none, some, List, [], ◌∷◌, ◌++◌, arith,
  length, length-append, drop, drop-append_length, replicate,
}
use vita_mtp.Bytes.{take_bytes, fetch, overlay, store}

pub take_bytes-append : (bs rest : List ℕ) → take_bytes (length bs) (bs ++ rest) ≡ some bs
unfolding take_bytes
take_bytes-append [] rest = refl
take_bytes-append (b ∷ bs) rest = rw (take_bytes-append bs rest)

-- What stands behind `pre` is read at the offset `length pre`.
pub fetch-append :
    (pre bs rest : List ℕ) → fetch (pre ++ (bs ++ rest)) (length pre) (length bs) ≡ some bs
unfolding fetch
fetch-append [] bs rest = take_bytes-append bs rest
fetch-append (x ∷ pre) bs rest = fetch-append pre bs rest

pub fetch_at :
    (pre bs rest : List ℕ) {offset n : ℕ}
    → offset ≡ length pre
    → n ≡ length bs
    → fetch (pre ++ (bs ++ rest)) offset n ≡ some bs
fetch_at pre bs rest e e' = rw (e, e') (fetch-append pre bs rest)

-- The same at the end of the buffer.
pub fetch_whole :
    (pre bs : List ℕ) {offset n : ℕ}
    → offset ≡ length pre
    → n ≡ length bs
    → fetch (pre ++ bs) offset n ≡ some bs
fetch_whole pre bs {offset} {n} e e' =
    ap (λ buf. fetch (pre ++ buf) offset n) (sym (append-nil bs)) ∙ fetch_at pre bs [] e e'

pub fetch-append_right :
    (pre buf : List ℕ) (offset n : ℕ)
    → fetch (pre ++ buf) (length pre + offset) n ≡ fetch buf offset n
unfolding fetch
fetch-append_right [] buf offset n = ap (λ k. fetch buf k n) (omega arith)
fetch-append_right (x ∷ pre) buf offset n =
    rw (suc_add (length pre) offset) (fetch-append_right pre buf offset n)
  where
    suc_add : (a b : ℕ) → suc a + b ≡ suc (a + b)
    suc_add a b = omega arith

pub overlay_lem :
    (buf bs : List ℕ) → length bs ≤ length buf → overlay buf bs ≡ some (bs ++ drop (length bs) buf)
unfolding overlay
overlay_lem buf [] h = refl
overlay_lem [] (b ∷ bs) h = absurd (omega arith)
overlay_lem (x ∷ buf) (b ∷ bs) h = rw (overlay_lem buf bs (omega arith))

-- A write behind `pre` keeps `pre` and what stands behind the bytes written.
pub store-append :
    (pre buf bs : List ℕ)
    → length bs ≤ length buf
    → store (pre ++ buf) (length pre) bs ≡ some (pre ++ (bs ++ drop (length bs) buf))
unfolding store
store-append [] buf bs h = overlay_lem buf bs h
store-append (x ∷ pre) buf bs h = rw (store-append pre buf bs h)

-- A write that does not fit is a fault.
pub overlay_fault : (buf bs : List ℕ) → length buf < length bs → overlay buf bs ≡ none
unfolding overlay
overlay_fault [] [] h = absurd (omega arith)
overlay_fault (x ∷ buf) [] h = absurd (omega arith)
overlay_fault [] (b ∷ bs) h = refl
overlay_fault (x ∷ buf) (b ∷ bs) h = rw (overlay_fault buf bs (omega arith))

pub drop-replicate {ℓ} :
    {A : Type ℓ} (n m : ℕ) (a : A) → drop n (replicate (n + m) a) ≡ replicate m a
drop-replicate zero m a = ap (λ k. replicate k a) (omega arith)
drop-replicate (suc n) m a = rw (suc_add n m) (drop-replicate n m a)
  where
    suc_add : (a b : ℕ) → suc a + b ≡ suc (a + b)
    suc_add a b = omega arith

pub store_at :
    (pre old rest bs : List ℕ) {offset : ℕ}
    → offset ≡ length pre
    → length bs ≡ length old
    → store (pre ++ (old ++ rest)) offset bs ≡ some (pre ++ (bs ++ rest))
store_at pre old rest bs e e' =
    rw
      (
        e,
        store-append pre (old ++ rest) bs (omega (arith, length-append old rest)),
        e',
        drop-append_length old rest,
      )
      refl

-- Any list that is long enough has a front of a given length.
pub split_at {ℓ} :
    {A : Type ℓ} (k : ℕ) (xs : List A)
    → k ≤ length xs
    → (front back : List A) × (xs ≡ front ++ back) × (length front ≡ k)
split_at zero xs h = ([], xs, refl, refl)
split_at (suc k) [] h = absurd (omega arith)
split_at (suc k) (x ∷ xs) h =
    let (front, back, e, e') = split_at k xs (omega arith) in
    (x ∷ front, back, ap (◌∷◌ x) e, ap suc e')
