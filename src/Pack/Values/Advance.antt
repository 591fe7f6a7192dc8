-- ===== src/Pack/Values/Advance.antt =====
-- `ptp_unpack_DPV` of src/ptp-pack.c moves the offset.
use mathlib.Core.Path.{subst}
use mathlib.Core.Option
use mathlib.Core.Option.{some-injective}
use vita_mtp.Base.{
  ℕ, zero, suc, ◌+◌, ◌*◌, ◌%◌, ◌^◌, ◌<◌, ◌≤◌, ◌≡◌, refl, ap, Bool, ◌&&◌, Option, none, some,
  bind-some, List, arith, ltb, inl, inr, Bool-cases, Option-cases,
}
use vita_mtp.Bytes.{ByteOrder, dtoh32a}
use vita_mtp.Pack.Params.{Params}
use vita_mtp.Pack.Strings.{unpack_string}
use vita_mtp.Pack.Values.{
  Width, w8, w16, w32, w64, bytes_in, Kind, number, array, wide, string, unknown, is_short,
  Unpacked, ok, failed, ctval, rarr_loop, loop_result, rarr, unpack_dpv,
}

-- A normal return leaves the offset behind `offset`.
abbrev pub Advances : ℕ → Unpacked → Type 0
Advances offset (ok offset' value) = offset < offset'
Advances offset (failed offset') = Unit {0}

bytes_in-positive : (w : Width) → 0 < bytes_in w
bytes_in-positive w8 = omega arith
bytes_in-positive w16 = omega arith
bytes_in-positive w32 = omega arith
bytes_in-positive w64 = omega arith

rarr_loop-le :
    (o : ByteOrder) (w : Width) (buf : List ℕ) (total left offset : ℕ) (r : ℕ × Option (List ℕ))
    → rarr_loop o w buf total left offset ≡ some r
    → offset ≤ r.0
unfolding rarr_loop
rarr_loop-le o w buf total zero offset r e =
    omega (arith, ap (λ (q : ℕ × Option (List ℕ)). q.0) (some-injective _ _ e))
rarr_loop-le o w buf total (suc left) offset r e =
    let c = bind-some (ctval o w buf offset total) _ r e in
    elim (Option-cases c.0) [
      | inl short ↦
          omega
            (arith, ap (λ (q : ℕ × Option (List ℕ)). q.0) (some-injective _ _ (rw short at c.2)))
      | inr x ↦
          let b =
            bind-some (rarr_loop o w buf total left (offset + bytes_in w)) _ r (rw x.1 at c.2) in
          omega (
            arith,
            rarr_loop-le o w buf total left (offset + bytes_in w) b.0 b.1,
            ap (λ (q : ℕ × Option (List ℕ)). q.0) (some-injective _ _ b.2),
          )
    ]

-- The result of the loop is behind the count.
loop_result-Advances :
    (offset : ℕ) (q : ℕ × Option (List ℕ)) → offset < q.0 → Advances offset (loop_result q)
loop_result-Advances offset (offset', none) h = tt
loop_result-Advances offset (offset', some xs) h = h

map-some {ℓ κ} :
    {A : Type ℓ} {B : Type κ} (f : A → B) (o : Option A) (b : B)
    → Option.map f o ≡ some b
    → (a : A) × (o ≡ some a) × (f a ≡ b)
map-some f none b e = cc
map-some f (some a) b e = (a, refl, some-injective _ _ e)

module _ (p : Params) (malloc_ok : ℕ → Bool) (buf : List ℕ) (offset total : ℕ) where
  rarr-Advances :
      (w : Width) (r : Unpacked)
      → rarr p.byteorder malloc_ok w buf offset total ≡ some r
      → Advances offset r
  unfolding rarr
  rarr-Advances w r e = elim (Bool-cases (is_short offset total 4)) [
    | inl short ↦ subst (Advances offset) (some-injective _ _ (rw short at e)) tt
    | inr there ↦
        let n = bind-some (dtoh32a p.byteorder buf offset) _ r (rw there at e) in
        elim (Bool-cases (ltb n.0 (2 ^ 31) && malloc_ok (16 * n.0))) [
          | inl got ↦
              let q =
                map-some loop_result (rarr_loop p.byteorder w buf total n.0 (offset + 4)) r
                  (rw got at n.2) in
              subst (Advances offset) q.2 (
                loop_result-Advances offset q.0
                  (omega (arith, rarr_loop-le p.byteorder w buf total n.0 (offset + 4) q.0 q.1)))
          | inr refused ↦ subst (Advances offset) (some-injective _ _ (rw refused at n.2)) tt
        ]
  ]

  -- When `ptp_unpack_DPV` returns 1 it has moved the offset forward, whatever the data type and the
  -- data.
  pub unpack_dpv-Advances :
      (kind : Kind) (r : Unpacked)
      → unpack_dpv p malloc_ok buf offset total kind ≡ some r
      → Advances offset r
  unfolding unpack_dpv
  unpack_dpv-Advances (number w) r e =
      let c = bind-some (ctval p.byteorder w buf offset total) _ r e in
      elim (Option-cases c.0) [
        | inl short ↦ subst (Advances offset) (some-injective _ _ (rw short at c.2)) tt
        | inr x ↦
            subst (Advances offset) (some-injective _ _ (rw x.1 at c.2))
              (omega (arith, bytes_in-positive w))
      ]
  unpack_dpv-Advances (array w) r e = rarr-Advances w r e
  unpack_dpv-Advances wide r e = subst (Advances offset) (some-injective _ _ e) (omega arith)
  unpack_dpv-Advances string r e =
      let b = bind-some (unpack_string p buf (offset % 2 ^ 16)) _ r e in
      subst (Advances offset) (some-injective _ _ b.2) (omega arith)
  unpack_dpv-Advances unknown r e = subst (Advances offset) (some-injective _ _ e) tt
