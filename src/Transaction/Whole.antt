-- ===== src/Transaction/Whole.antt =====
-- `ptp_transaction_new` of src/ptp.c as a whole: the normal course past stale replies, whose
-- answer it gives, and the replies that it waits for.
use mathlib.Core.Option.{some-injective}
use vita_mtp.Base.{
  ℕ, zero, suc, ◌+◌, ◌%◌, ◌^◌, ◌<◌, ◌≡◌, refl, ap, ◌∙◌, none, some, ◌==◌, inl, inr, Bool-cases,
  arith, ==_self, ltb_self, lt→ltb,
}
use vita_mtp.Cache.{rc_ok}
use vita_mtp.Transaction.{
  Container, Transport, Session, Result, error_resp_expected, last_id, with_ids, data_phase,
  get_response, transaction_new,
}
use vita_mtp.Transaction.Response.{get_response-IsAnswered, ==_not}

-- The session behind a request.
abbrev pub next_session : Session → Session
next_session s = record {
  transaction_id = (s.transaction_id + 1) % 2 ^ 32;
  session_id = s.session_id;
}

pub last_id-next_session :
    (s : Session) → s.transaction_id < 2 ^ 32 → last_id (next_session s) ≡ s.transaction_id
last_id-next_session s h = omega arith

module _ {T H : Type 0} (tr : Transport T H) where
  -- The replies from one state of the transport to another are all to be skipped: none there yet,
  -- or one to an older request. The number counts them.
  pub data Stale (s : Session) : ℕ → T → Container → T → Container → Type 0 where
    end : (t : T) (ptp : Container) → Stale s 0 t ptp t ptp
    none_yet :
        (n : ℕ) (t : T) (ptp : Container) (t' : T) (ptp' : Container)
        → (tr.getresp t ptp).1 ≡ error_resp_expected
        → Stale s n (tr.getresp t ptp).0.0 (tr.getresp t ptp).0.1 t' ptp'
        → Stale s (suc n) t ptp t' ptp'
    old :
        (n : ℕ) (t : T) (ptp : Container) (t' : T) (ptp' : Container)
        → (tr.getresp t ptp).1 ≡ rc_ok
        → (tr.getresp t ptp).0.1.transaction_id < last_id s
        → Stale s n (tr.getresp t ptp).0.0 (tr.getresp t ptp).0.1 t' ptp'
        → Stale s (suc n) t ptp t' ptp'

  -- The result that the next reply makes, when it is the response.
  abbrev pub answer : Session → T → Container → H → Result T H
  answer s t ptp h =
      let q = tr.getresp t ptp in
      record { session = s; transport = q.0.0; container = q.0.1; handler = h; code = q.0.1.code }

  get_response-Stale :
      (s : Session) (cmd : ℕ) (h : H) (n tries fuel : ℕ) (t : T) (ptp : Container) (t' : T)
      (ptp' : Container)
      → Stale s n t ptp t' ptp'
      → (tr.getresp t' ptp').1 ≡ rc_ok
      → (tr.getresp t' ptp').0.1.transaction_id ≡ last_id s
      → n < fuel
      → get_response tr fuel (suc tries) s cmd t ptp h ≡ some (answer s t' ptp' h)
  unfolding get_response
  get_response-Stale s cmd h n tries zero t ptp t' ptp' st ok same k = absurd (omega arith)
  get_response-Stale s cmd h n tries (suc f) t ptp t' ptp' (end _ _) ok same k =
      rw (ok, same, ==_self (last_id s), ltb_self (last_id s)) refl
  get_response-Stale s cmd h n tries (suc f) t ptp t' ptp' (none_yet m _ _ _ _ e st) ok same k =
      rw e (get_response-Stale s cmd h m tries f _ _ t' ptp' st ok same (omega arith))
  get_response-Stale s cmd h n tries (suc f) t ptp t' ptp' (old m _ _ _ _ e l st) ok same k =
      rw (e, lt→ltb _ _ l)
        (get_response-Stale s cmd h m tries f _ _ t' ptp' st ok same (omega arith))

  -- Where the request and the data phase succeed and the device gives any number of stale
  -- replies before the response, `ptp_transaction_new` returns the code of that response, with
  -- its container, and fuel above that number is enough.
  pub transaction_new-answer :
      (fuel n : ℕ) (s : Session) (ptp : Container) (flags sendlen : ℕ) (t : T) (h : H)
      (d : (T × H) × ℕ) (t' : T) (ptp' : Container)
      → (tr.sendreq t (with_ids s ptp)).1 ≡ rc_ok
      → data_phase tr
          (next_session s)
          flags
          sendlen
          (tr.sendreq t (with_ids s ptp)).0
          (with_ids s ptp)
          h
        ≡ d
      → d.1 ≡ rc_ok
      → Stale (next_session s) n d.0.0 (with_ids s ptp) t' ptp'
      → (tr.getresp t' ptp').1 ≡ rc_ok
      → (tr.getresp t' ptp').0.1.transaction_id ≡ last_id (next_session s)
      → n < fuel
      → transaction_new tr fuel s ptp flags sendlen t h
        ≡ some (answer (next_session s) t' ptp' d.0.1)
  unfolding transaction_new
  transaction_new-answer fuel n s ptp flags sendlen t h d t' ptp' sent phase received st ok same k =
      rw (sent, phase, received)
        (get_response-Stale (next_session s) ptp.code d.0.1 n 2 fuel d.0.0 (with_ids s ptp) t' ptp'
          st ok same k)

  -- With a transaction id of 32 bits, `ptp_transaction_new` returns OK only with a container whose
  -- transaction id is that of the request.
  pub transaction_new-IsAnswered :
      (fuel : ℕ) (s : Session) (ptp : Container) (flags sendlen : ℕ) (t : T) (h : H)
      (r : Result T H)
      → s.transaction_id < 2 ^ 32
      → transaction_new tr fuel s ptp flags sendlen t h ≡ some r
      → r.code ≡ rc_ok
      → r.container.transaction_id ≡ s.transaction_id
  unfolding transaction_new
  transaction_new-IsAnswered fuel s ptp flags sendlen t h r b e c =
      let q = tr.sendreq t (with_ids s ptp) in
      let d = data_phase tr (next_session s) flags sendlen q.0 (with_ids s ptp) h in
      elim (Bool-cases (q.1 == rc_ok)) [
        | inr failed ↦ absurd (
            ==_not _ _ failed
              (ap (λ (w : Result T H). w.code) (some-injective _ _ (rw failed at e)) ∙ c))
        | inl sent ↦ elim (Bool-cases (d.1 == rc_ok)) [
          | inr broken ↦ absurd (
              ==_not _ _ broken
                (ap (λ (w : Result T H). w.code) (some-injective _ _ (rw (sent, broken) at e)) ∙ c))
          | inl received ↦
              get_response-IsAnswered tr (next_session s) ptp.code fuel 2 d.0.0 (with_ids s ptp)
                d.0.1 r (rw (sent, received) at e) c
              ∙ last_id-next_session s b
        ]
      ]

  get_response-waits :
      (s : Session) (cmd : ℕ) (h : H) (tries : ℕ)
      → ((t : T) (ptp : Container) → (tr.getresp t ptp).1 ≡ error_resp_expected)
      → (fuel : ℕ) (t : T) (ptp : Container) → get_response tr fuel (suc tries) s cmd t ptp h ≡ none
  unfolding get_response
  get_response-waits s cmd h tries silent zero t ptp = refl
  get_response-waits s cmd h tries silent (suc f) t ptp =
      rw (silent t ptp) (get_response-waits s cmd h tries silent f _ _)

  -- Where the request and the data phase, of any kind, succeed, and the device answers to every
  -- question that no response is there yet, `ptp_transaction_new` does not return: no fuel is
  -- enough.
  pub transaction_new-waits :
      (fuel : ℕ) (s : Session) (ptp : Container) (flags sendlen : ℕ) (t : T) (h : H)
      → ((t : T) (ptp : Container) → (tr.getresp t ptp).1 ≡ error_resp_expected)
      → (tr.sendreq t (with_ids s ptp)).1 ≡ rc_ok
      → (data_phase tr
          (next_session s)
          flags
          sendlen
          (tr.sendreq t (with_ids s ptp)).0
          (with_ids s ptp)
          h).1
        ≡ rc_ok
      → transaction_new tr fuel s ptp flags sendlen t h ≡ none
  unfolding transaction_new
  transaction_new-waits fuel s ptp flags sendlen t h silent sent received =
      let d =
        data_phase tr (next_session s) flags sendlen (tr.sendreq t (with_ids s ptp)).0
          (with_ids s ptp) h in
      rw (sent, received) (get_response-waits (next_session s) ptp.code d.0.1 2 silent fuel _ _)
