-- ===== src/Transaction.antt =====
-- PTP transactions of src/ptp.c: a request, a data phase and a response over the functions that
-- the transport gives.
pub mod Memory
pub mod Response
mod Tests
pub mod Whole
use vita_mtp.Base.{
  ℕ, zero, suc, ◌+◌, ◌-◌, ◌%◌, ◌^◌, bit_and, Bool, true, false, not, ◌&&◌, Option, none, some, ltb,
  ◌==◌, if◌then◌else◌,
}
use vita_mtp.Cache.{rc_ok}

-- `PTPContainer`.
pub record Container : Type 0 where
  pub code : ℕ
  pub session_id : ℕ
  pub transaction_id : ℕ
  pub param1 : ℕ
  pub param2 : ℕ
  pub param3 : ℕ
  pub param4 : ℕ
  pub param5 : ℕ
  pub nparam : ℕ

abbrev pub error_resp_expected : ℕ
error_resp_expected = 0x2fd

abbrev pub error_badparam : ℕ
error_badparam = 0x2fc

abbrev pub error_cancel : ℕ
error_cancel = 0x2fb

abbrev pub oc_open_session : ℕ
oc_open_session = 0x1002

-- The functions of `PTPParams` that a transport sets. `T` is the state of the transport, and `H`
-- that of the data handler.
pub record Transport (T H : Type 0) : Type 0 where
  pub sendreq : T → Container → T × ℕ
  pub senddata : T → Container → ℕ → H → (T × H) × ℕ
  pub getdata : T → Container → H → (T × H) × ℕ
  pub getresp : T → Container → (T × Container) × ℕ
  pub cancelreq : T → ℕ → T × ℕ

-- The fields of `PTPParams` that a transaction uses.
pub record Session : Type 0 where
  pub transaction_id : ℕ
  pub session_id : ℕ

-- How a transaction ends: what it leaves, with the returned code.
pub record Result (T H : Type 0) : Type 0 where
  pub session : Session
  pub transport : T
  pub container : Container
  pub handler : H
  pub code : ℕ

-- `params->transaction_id-1`.
abbrev pub last_id : Session → ℕ
last_id s = (s.transaction_id + 0xffffffff) % 2 ^ 32

-- The container with the ids that the request gets.
abbrev pub with_ids : Session → Container → Container
with_ids s ptp = record {
  code = ptp.code;
  session_id = s.session_id;
  transaction_id = s.transaction_id;
  param1 = ptp.param1;
  param2 = ptp.param2;
  param3 = ptp.param3;
  param4 = ptp.param4;
  param5 = ptp.param5;
  nparam = ptp.nparam;
}

module _ {T H : Type 0} (tr : Transport T H) where
  -- `PTP_ERROR_CANCEL` of a data phase, and the request that cancels it.
  unfoldable pub after_data : Session → (T × H) × ℕ → (T × H) × ℕ
  after_data s d =
      let c = tr.cancelreq d.0.0 (last_id s) in
      if d.1 == error_cancel then ((c.0, d.0.1), if c.1 == rc_ok then error_cancel else c.1) else d

  -- The data phase by `flags & PTP_DP_DATA_MASK`.
  unfoldable pub data_phase : Session → ℕ → ℕ → T → Container → H → (T × H) × ℕ
  data_phase s flags sendlen t ptp h =
      if bit_and flags 0xff == 1
      then after_data s (tr.senddata t ptp sendlen h)
      else if bit_and flags 0xff == 2
      then after_data s (tr.getdata t ptp h)
      else if bit_and flags 0xff == 0
      then ((t, h), rc_ok)
      else ((t, h), error_badparam)

  -- The `while (tries--)` loop, on fuel for the responses: `none` is that it ran out.
  unfoldable pub get_response : ℕ → ℕ → Session → ℕ → T → Container → H → Option (Result T H)
  get_response zero tries s cmd t ptp h = none
  get_response (suc fuel) zero s cmd t ptp h =
      some (record { session = s; transport = t; container = ptp; handler = h; code = ptp.code })
  get_response (suc fuel) (suc tries) s cmd t ptp h =
      let r = tr.getresp t ptp in
      let t' = r.0.0 in
      let ptp' = r.0.1 in
      let again = get_response fuel (suc tries) s cmd t' ptp' h in
      let left_over = get_response fuel tries s cmd t' ptp' h in
      let end : ℕ → Option (Result T H) = (λ code.
        some
          (record { session = s; transport = t'; container = ptp'; handler = h; code = code })) in
      if r.1 == error_resp_expected
      then again
      else if not (r.1 == rc_ok)
      then end r.1
      else if ltb ptp'.transaction_id (last_id s)
      then again
      else if not (ptp'.transaction_id == last_id s)
      then (if (cmd == oc_open_session) && not (tries == 0) then left_over else end error_badparam)
      else end ptp'.code

  -- `ptp_transaction_new`. The pointers are taken not to be null.
  unfoldable pub transaction_new : ℕ → Session → Container → ℕ → ℕ → T → H → Option (Result T H)
  transaction_new fuel s ptp flags sendlen t h =
      let s' : Session = record {
        transaction_id = (s.transaction_id + 1) % 2 ^ 32;
        session_id = s.session_id;
      } in
      let ptp' = with_ids s ptp in
      let q = tr.sendreq t ptp' in
      let d = data_phase s' flags sendlen q.0 ptp' h in
      let end : T → H → ℕ → Option (Result T H) = (λ t h code.
        some
          (record { session = s'; transport = t; container = ptp'; handler = h; code = code })) in
      let response = get_response fuel 3 s' ptp.code d.0.0 ptp' d.0.1 in
      if not (q.1 == rc_ok)
      then end q.0 h q.1
      else if not (d.1 == rc_ok)
      then end d.0.0 d.0.1 d.1
      else response
