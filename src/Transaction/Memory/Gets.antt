-- ===== src/Transaction/Memory/Gets.antt =====
-- The data handler over memory of src/ptp.c in a data phase that sends: what is got in pieces is the
-- data in order.
use vita_mtp.Base.{
  ℕ, zero, suc, ◌+◌, ◌-◌, ◌%◌, ◌^◌, ◌≤◌, ◌<◌, ◌≡◌, refl, sym, ap, ◌∙◌, Option, some, ◌>>=◌, List,
  [], ◌∷◌, ◌++◌, ltb, if◌then◌else◌, length, take, ◌⊎◌, length-append, arith, Bool-cases, inl, inr,
  lt→ltb, ltb→lt, ap₂,
}
use mathlib.Core.Path.{subst}
use mathlib.Core.List.{append_assoc, append-nil}
use vita_mtp.Bytes.Layout.{fetch_at, split_at}
use vita_mtp.Transaction.Memory.{MemHandler, bytes_of, memory_getfunc, init_send_memory_handler}

-- The gets of a data phase, with what they copied in a row.
unfoldable pub get_all : MemHandler → List ℕ → Option (MemHandler × List ℕ)
get_all p [] = some (p, [])
get_all p (w ∷ wants) =
    memory_getfunc p w >>= λ r. get_all r.0 wants >>= λ r'. some (r'.0, r.1 ++ r'.1)

abbrev pub sum : List ℕ → ℕ
sum [] = 0
sum (w ∷ wants) = w + sum wants

-- The handler stands behind `pre`.
abbrev pub Stands : List ℕ → List ℕ → MemHandler → Type 0
Stands pre rest p =
    (bytes_of p.block ≡ pre ++ rest) × (p.size ≡ length pre + length rest) × (p.curoff ≡ length pre)

take-append :
    (front back : List ℕ) (n : ℕ) → take (length front + n) (front ++ back) ≡ front ++ take n back
take-append [] back n = ap (λ k. take k back) (omega arith)
take-append (x ∷ front) back n =
    rw (suc_add (length front) n) (ap (λ xs. x ∷ xs) (take-append front back n))
  where
    suc_add : (a b : ℕ) → suc a + b ≡ suc (a + b)
    suc_add a b = omega arith

pub take_more : (xs : List ℕ) (n : ℕ) → length xs ≤ n → take n xs ≡ xs
take_more [] zero h = refl
take_more [] (suc n) h = refl
take_more (x ∷ xs) zero h = absurd (omega arith)
take_more (x ∷ xs) (suc n) h = ap (λ ys. x ∷ ys) (take_more xs n (omega arith))

-- One get copies the front of what is left, as far as it goes.
pub memory_getfunc-Stands :
    (p : MemHandler) (pre front back : List ℕ) (w : ℕ)
    → Stands pre (front ++ back) p
    → length pre + (length front + length back) + w < 2 ^ 64
    → (length front ≡ w) ⊎ ((length front < w) × (back ≡ []))
    → (p' : MemHandler) × (memory_getfunc p w ≡ some (p', front)) × Stands (pre ++ front) back p'
unfolding memory_getfunc
memory_getfunc-Stands p pre front back w h k c =
    let l = length-append front back in
    let behind = length-append pre front in
    let copied : (if ltb p.size ((p.curoff + w) % 2 ^ 64)
          then (p.size + 2 ^ 64 - p.curoff) % 2 ^ 64
          else w)
        ≡ length front =
      elim c [
        | inl all ↦ elim (Bool-cases (ltb p.size ((p.curoff + w) % 2 ^ 64))) [
          | inl past ↦ absurd (omega (arith, ltb→lt _ _ past, h.1, h.2, l))
          | inr fits ↦ rw fits (sym all)
        ]
        | inr short ↦
            rw
              (lt→ltb p.size ((p.curoff + w) % 2 ^ 64)
                (omega (arith, h.1, h.2, l, short.0, ap length short.1)))
              (omega (arith, h.1, h.2, l, ap length short.1))
      ] in
    (
      record { block = p.block; size = p.size; curoff = (p.curoff + length front) % 2 ^ 64 },
      rw (copied, h.0, fetch_at pre front back h.2 refl) refl,
      (
        h.0 ∙ sym (append_assoc pre front back),
        omega (arith, h.1, l, behind),
        omega (arith, h.2, behind),
      ),
    )

≤-cases : (a b : ℕ) → (a ≤ b) ⊎ (b < a)
≤-cases a b = elim (Bool-cases (ltb b a)) [
  | inl more ↦ inr (ltb→lt b a more)
  | inr fits ↦ inl (ground arith)
]

get_all-Stands :
    (p : MemHandler) (pre rest wants : List ℕ)
    → Stands pre rest p
    → length pre + length rest + sum wants < 2 ^ 64
    → (p' : MemHandler) × (get_all p wants ≡ some (p', take (sum wants) rest))
unfolding get_all
get_all-Stands p pre rest [] h k = (p, refl)
get_all-Stands p pre rest (w ∷ wants) h k = elim (≤-cases w (length rest)) [
  | inl fits ↦
      let s = split_at w rest fits in
      let front = s.0 in
      let back = s.1 in
      let l = length-append front back in
      let n : length rest ≡ length (front ++ back) = ap length s.2 in
      let got =
        memory_getfunc-Stands p pre front back w (subst (λ r. Stands pre r p) s.2 h)
          (omega (arith, l, n)) (inl s.3) in
      let more =
        get_all-Stands got.0 (pre ++ front) back wants got.2
          (omega (arith, l, n, s.3, length-append pre front)) in
      (
        more.0,
        rw (got.1, more.1)
            (ap (λ bs. some (more.0, bs))
              (sym (
                ap₂ take (ap (λ m. m + sum wants) (sym s.3)) s.2
                ∙ take-append front back (sum wants)))),
      )
  | inr over ↦
      let got =
        memory_getfunc-Stands p pre rest [] w
          (subst (λ r. Stands pre r p) (sym (append-nil rest)) h) (omega arith)
          (inr (over, refl)) in
      let more =
        get_all-Stands got.0 (pre ++ rest) [] wants got.2 (omega (arith, length-append pre rest)) in
      (
        more.0,
        rw (got.1, more.1)
            (ap (λ bs. some (more.0, bs))
              (ap (λ bs. rest ++ bs) (take_more [] (sum wants) (omega arith))
                ∙ (append-nil rest ∙ sym (take_more rest (w + sum wants) (omega arith))))),
      )
]

pub get_all_lem :
    (bytes wants : List ℕ)
    → length bytes + sum wants < 2 ^ 64
    → (p : MemHandler) × (get_all (init_send_memory_handler (some bytes) (length bytes)) wants
        ≡ some (p, take (sum wants) bytes))
get_all_lem bytes wants k =
    get_all-Stands (init_send_memory_handler (some bytes) (length bytes)) [] bytes wants
      (refl, omega arith, refl) (omega arith)
