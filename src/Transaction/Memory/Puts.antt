-- ===== src/Transaction/Memory/Puts.antt =====
-- The data handler over memory of src/ptp.c in a data phase that receives: what is put in pieces
-- comes out whole.
use mathlib.Core.Option
use vita_mtp.Base.{
  ℕ, ◌+◌, ◌%◌, ◌^◌, ◌<◌, ◌≡◌, refl, sym, ap, ◌∙◌, Option, none, some, ◌>>=◌, List, [], ◌∷◌, ◌++◌,
  ltb, ◌==◌, if◌then◌else◌, length, All, length-append, arith, Bool-cases, inl, inr,
}
use mathlib.Core.List.{append_assoc, append-nil}
use vita_mtp.Bytes.{store}
use vita_mtp.Bytes.Layout.{store_at}
use vita_mtp.Cache.{rc_ok}
use vita_mtp.Transaction.Memory.{
  MemHandler, bytes_of, memory_putfunc, put_at, init_recv_memory_handler, exit_recv_memory_handler,
}

-- The puts of a data phase, until one fails. With each piece stands what `realloc` finds behind
-- the old bytes.
unfoldable pub put_all : MemHandler → List (List ℕ × List ℕ) → Option (MemHandler × ℕ)
put_all p [] = some (p, rc_ok)
put_all p (c ∷ chunks) = memory_putfunc p c.0 (some c.1) >>= λ r.
    let rest = put_all r.0 chunks in if r.1 == rc_ok then rest else some r

-- The pieces in a row.
abbrev pub joined : List (List ℕ × List ℕ) → List ℕ
joined [] = []
joined (c ∷ chunks) = c.0 ++ joined chunks

-- The block holds these bytes, and the offset is at its end.
abbrev pub Holds : List ℕ → MemHandler → Type 0
Holds bs p = (bytes_of p.block ≡ bs) × (p.size ≡ length bs) × (p.curoff ≡ length bs)

length-nil : (bs : List ℕ) → length bs ≡ 0 → bs ≡ []
length-nil [] e = refl
length-nil (b ∷ bs) e = absurd (omega arith)

bytes_of-map :
    (o : Option (List ℕ)) (buf bs : List ℕ)
    → bytes_of o ≡ bs
    → length buf ≡ length bs
    → bytes_of (Option.map (λ _. buf) o) ≡ buf
bytes_of-map none buf bs e k = sym (length-nil buf (k ∙ ap length (sym e)))
bytes_of-map (some _) buf bs e k = refl

-- A write into the room at the end of the block.
put_at-Holds :
    (p : MemHandler) (bs chunk fresh : List ℕ)
    → bytes_of p.block ≡ bs ++ fresh
    → p.size ≡ length bs + length chunk
    → p.curoff ≡ length bs
    → length fresh ≡ length chunk
    → length bs + length chunk < 2 ^ 64
    → (p' : MemHandler) × (put_at p chunk ≡ some (p', rc_ok)) × Holds (bs ++ chunk) p'
unfolding put_at
put_at-Holds p bs chunk fresh b z o e k =
    let written : store (bytes_of p.block) p.curoff chunk ≡ some (bs ++ chunk) =
      rw (b, o, sym (append-nil fresh))
        (store_at bs fresh [] chunk refl (sym e) ∙ ap (λ r. some (bs ++ r)) (append-nil chunk)) in
    (
      record {
        block = Option.map (λ _. bs ++ chunk) p.block;
        size = p.size;
        curoff = (p.curoff + length chunk) % 2 ^ 64;
      },
      rw written refl,
      (
        bytes_of-map p.block (bs ++ chunk) (bs ++ fresh) b
            (omega (arith, length-append bs chunk, length-append bs fresh)),
        omega (arith, length-append bs chunk),
        omega (arith, length-append bs chunk),
      ),
    )

pub memory_putfunc-Holds :
    (p : MemHandler) (bs chunk fresh : List ℕ)
    → Holds bs p
    → length fresh ≡ length chunk
    → length bs + length chunk < 2 ^ 64
    → (p' : MemHandler) × (memory_putfunc p chunk (some fresh) ≡ some (p', rc_ok))
      × Holds (bs ++ chunk) p'
unfolding memory_putfunc
memory_putfunc-Holds p bs chunk fresh h e k =
    elim (Bool-cases (ltb p.size ((p.curoff + length chunk) % 2 ^ 64))) [
      | inl grows ↦
          let q : MemHandler = record {
            block = some (bytes_of p.block ++ fresh);
            size = (p.curoff + length chunk) % 2 ^ 64;
            curoff = p.curoff;
          } in
          let put =
            put_at-Holds q bs chunk fresh (ap (λ r. r ++ fresh) h.0) (omega (arith, h.2)) h.2 e k in
          (put.0, rw grows put.1, put.2)
      | inr fits ↦
          let empty : length chunk ≡ 0 = ground (arith, h.1, h.2) in
          let put =
            put_at-Holds p bs chunk [] (h.0 ∙ sym (append-nil bs)) (omega (arith, h.1)) h.2
              (sym empty) k in
          (put.0, rw fits put.1, put.2)
    ]

put_all-Holds :
    (p : MemHandler) (bs : List ℕ) (chunks : List (List ℕ × List ℕ))
    → Holds bs p
    → All (λ c. length c.1 ≡ length c.0) chunks
    → length bs + length (joined chunks) < 2 ^ 64
    → (p' : MemHandler) × (put_all p chunks ≡ some (p', rc_ok)) × Holds (bs ++ joined chunks) p'
unfolding put_all
put_all-Holds p bs [] h a k = (p, refl, rw (append-nil bs) h)
put_all-Holds p bs (c ∷ chunks) h a k =
    let l = length-append c.0 (joined chunks) in
    let put = memory_putfunc-Holds p bs c.0 c.1 h a.0 (omega (arith, l)) in
    let rest =
      put_all-Holds put.0 (bs ++ c.0) chunks put.2 a.1 (omega (arith, l, length-append bs c.0)) in
    (rest.0, rw put.1 rest.1, rw (append_assoc bs c.0 (joined chunks)) at rest.2)

-- A data phase that receives the data in any pieces, with `realloc` succeeding: the block that the
-- caller is handed is the pieces in a row, with their length.
pub put_all_lem :
    (chunks : List (List ℕ × List ℕ))
    → All (λ c. length c.1 ≡ length c.0) chunks
    → length (joined chunks) < 2 ^ 64
    → (p : MemHandler) × (put_all init_recv_memory_handler chunks ≡ some (p, rc_ok))
      × (bytes_of (exit_recv_memory_handler p).0 ≡ joined chunks)
      × ((exit_recv_memory_handler p).1 ≡ length (joined chunks))
put_all_lem chunks a k =
    let r = put_all-Holds init_recv_memory_handler [] chunks (refl, refl, refl) a (omega arith) in
    (r.0, r.1, r.2.0, r.2.1)
