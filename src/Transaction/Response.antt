-- ===== src/Transaction/Response.antt =====
-- The response phase of `ptp_transaction_new` of src/ptp.c: whose response it is, the replies
-- that it skips, and a device that never replies.
use vita_mtp.Base.{
  ℕ, zero, suc, ◌≡◌, ◌≢◌, sym, ap, ◌∙◌, Bool, true, false, not, ◌&&◌, Option, some, ltb, ◌==◌,
  if◌then◌else◌, inl, inr, Bool-cases, arith, ==_iff,
}
use mathlib.Core.Option.{some-injective}
use vita_mtp.Cache.{rc_ok}
use vita_mtp.Transaction.{
  Container, Transport, Session, Result, error_resp_expected, error_badparam, oc_open_session,
  last_id, get_response,
}

-- A result with the code OK has the container of a response to the last request.
abbrev pub IsAnswered : {T H : Type 0} → Session → Result T H → Type 0
IsAnswered s r = r.code ≡ rc_ok → r.container.transaction_id ≡ last_id s

pub ==_not : (a b : ℕ) → (a == b) ≡ false → a ≢ b
==_not a b h e = cc (h, (==_iff a b).1 e)

and_right : (a b : Bool) → (a && b) ≡ true → b ≡ true
and_right true b e = e
and_right false b e = cc

module _ {T H : Type 0} (tr : Transport T H) (s : Session) (cmd : ℕ) where
  -- The branch of a mismatch, by the tries that are left.
  mismatch-IsAnswered :
      (tries : ℕ) (t : T) (ptp : Container) (h : H) (left_over : Option (Result T H))
      (r : Result T H)
      → (not (tries == 0) ≡ true → left_over ≡ some r → IsAnswered s r)
      → (if (cmd == oc_open_session) && not (tries == 0)
          then left_over
          else some (record {
            session = s;
            transport = t;
            container = ptp;
            handler = h;
            code = error_badparam;
          }))
        ≡ some r
      → IsAnswered s r
  mismatch-IsAnswered tries t ptp h left_over r k e =
      elim (Bool-cases ((cmd == oc_open_session) && not (tries == 0))) [
        | inl more ↦ k (and_right _ _ more) (rw more at e)
        | inr enough ↦ λ c. absurd (
            ground
              (arith, ap (λ (w : Result T H). w.code) (some-injective _ _ (rw enough at e)) ∙ c))
      ]

  pub get_response-IsAnswered :
      (fuel tries : ℕ) (t : T) (ptp : Container) (h : H) (r : Result T H)
      → get_response tr fuel (suc tries) s cmd t ptp h ≡ some r
      → IsAnswered s r
  unfolding get_response
  get_response-IsAnswered zero tries t ptp h r e = cc
  get_response-IsAnswered (suc f) tries t ptp h r e =
      let q = tr.getresp t ptp in
      let t' = q.0.0 in
      let ptp' = q.0.1 in
      elim (Bool-cases (q.1 == error_resp_expected)) [
        | inl none_yet ↦ get_response-IsAnswered f tries t' ptp' h r (rw none_yet at e)
        | inr some_reply ↦ elim (Bool-cases (q.1 == rc_ok)) [
          | inr failed ↦ λ c. absurd (
              ==_not _ _ failed (
                ap (λ (w : Result T H). w.code) (some-injective _ _ (rw (some_reply, failed) at e))
                ∙ c))
          | inl ok ↦ elim (Bool-cases (ltb ptp'.transaction_id (last_id s))) [
            | inl old ↦ get_response-IsAnswered f tries t' ptp' h r (rw (some_reply, ok, old) at e)
            | inr not_old ↦ elim (Bool-cases (ptp'.transaction_id == last_id s)) [
              | inl same ↦ λ c.
                  (ap (λ (w : Result T H). w.container.transaction_id)
                      (sym (some-injective _ _ (rw (some_reply, ok, not_old, same) at e)))
                    ∙ (==_iff _ _).0 same)
              | inr differ ↦
                  mismatch-IsAnswered tries t' ptp' h (get_response tr f tries s cmd t' ptp' h) r
                    (elim tries
                      as (λ n.
                        not (n == 0) ≡ true
                        → get_response tr f n s cmd t' ptp' h ≡ some r
                        → IsAnswered s r) [
                          | zero ↦ λ m _. absurd (cc m)
                          | suc n ↦ λ _. get_response-IsAnswered f n t' ptp' h r
                        ])
                    (rw (some_reply, ok, not_old, differ) at e)
            ]
          ]
        ]
      ]
