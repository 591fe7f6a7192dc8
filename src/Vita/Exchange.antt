-- ===== src/Vita/Exchange.antt =====
-- An exchange that succeeds, as the transport shows it: the request and the data phase succeed, and
-- past replies that are to be skipped comes the response. What `ptp_transaction` then returns.
use vita_mtp.Base.{
  ℕ, ◌^◌, ◌<◌, ◌≡◌, ◌≢◌, refl, ap, Option, none, some, List, length, arith, ==_false,
}
use vita_mtp.Cache.{rc_ok}
use vita_mtp.Transaction.{Container, last_id, with_ids, data_phase, transaction_new}
use vita_mtp.Transaction.Memory.{
  MemHandler, init_recv_memory_handler, init_send_memory_handler, transaction,
}
use vita_mtp.Transaction.Memory.Puts.{Holds}
use vita_mtp.Transaction.Whole.{next_session, Stale, transaction_new-answer}
use vita_mtp.Vita.{Device, Link, Outcome, Received, dp_nodata, dp_senddata, dp_getdata, perform}

module _ {T : Type 0} (dev : Device T) (k : Link T) (ptp : Container) where
  -- The container that is sent, and the transport behind it.
  abbrev pub requested : Container
  requested = with_ids k.session ptp

  abbrev pub behind_request : T × ℕ
  behind_request = dev.functions.sendreq k.transport requested

  pub record Exchange (flags sendlen : ℕ) (h : MemHandler) : Type 0 where
    pub phase : (T × MemHandler) × ℕ
    pub skipped : ℕ
    pub before : T
    pub last : Container
    pub sent_ok : behind_request.1 ≡ rc_ok
    pub exchanged :
        data_phase dev.functions (next_session k.session) flags sendlen behind_request.0 requested h
        ≡ phase
    pub phase_ok : phase.1 ≡ rc_ok
    pub stale : Stale dev.functions (next_session k.session) skipped phase.0.0 requested before last
    pub reply_ok : (dev.functions.getresp before last).1 ≡ rc_ok
    pub reply_own :
        (dev.functions.getresp before last).0.1.transaction_id ≡ last_id (next_session k.session)
    pub enough : skipped < dev.fuel

  -- What the operation leaves, with the response.
  abbrev pub reply_of :
      {flags sendlen : ℕ} {h : MemHandler} → Exchange flags sendlen h → (T × Container) × ℕ
  reply_of x = dev.functions.getresp x.before x.last

  abbrev pub left_by :
      {flags sendlen : ℕ} {h : MemHandler}
      → Exchange flags sendlen h
      → Option (List ℕ)
      → ℕ
      → Outcome T Received
  left_by x block len = record {
    link = record { session = next_session k.session; transport = (reply_of x).0.0 };
    code = (reply_of x).0.1.code;
    value = record { container = (reply_of x).0.1; block = block; len = len };
  }

  pub perform-nodata :
      (x : Exchange dp_nodata 0 dev.unset)
      → perform dev ptp dp_nodata 0 none k ≡ some (left_by x none 0)
  unfolding perform transaction
  perform-nodata x =
      rw
        (transaction_new-answer dev.functions dev.fuel x.skipped k.session ptp dp_nodata 0
          k.transport dev.unset x.phase x.before x.last x.sent_ok x.exchanged x.phase_ok x.stale
          x.reply_ok x.reply_own x.enough)
        refl

  pub perform-senddata :
      (block : Option (List ℕ)) (len : ℕ)
      (x : Exchange dp_senddata len (init_send_memory_handler block len))
      → perform dev ptp dp_senddata len block k ≡ some (left_by x block 0)
  unfolding perform transaction
  perform-senddata block len x =
      rw
        (transaction_new-answer dev.functions dev.fuel x.skipped k.session ptp dp_senddata len
          k.transport (init_send_memory_handler block len) x.phase x.before x.last x.sent_ok
          x.exchanged x.phase_ok x.stale x.reply_ok x.reply_own x.enough)
        refl

  -- The data phase leaves the bytes in the handler.
  pub record Delivers (bytes : List ℕ) : Type 0 where
    pub exchange : Exchange dp_getdata 0 init_recv_memory_handler
    pub holds : Holds bytes exchange.phase.0.1
    pub short : length bytes < 2 ^ 32

  pub perform-getdata :
      (bytes : List ℕ) (d : Delivers bytes)
      → perform dev ptp dp_getdata 0 none k
        ≡ some (left_by d.exchange d.exchange.phase.0.1.block (length bytes))
  unfolding perform transaction
  perform-getdata bytes d =
      let x = d.exchange in
      rw
        (transaction_new-answer dev.functions dev.fuel x.skipped k.session ptp dp_getdata 0
          k.transport init_recv_memory_handler x.phase x.before x.last x.sent_ok x.exchanged
          x.phase_ok x.stale x.reply_ok x.reply_own x.enough)
        (ap (λ n. some (left_by x x.phase.0.1.block n)) (omega (arith, d.holds.1, d.short)))

  -- A request that is not even sent.
  abbrev pub left_unsent : Outcome T Received
  left_unsent = record {
    link = record { session = next_session k.session; transport = behind_request.0 };
    code = behind_request.1;
    value = record { container = requested; block = none; len = 0 };
  }

  pub perform-unsent :
      behind_request.1 ≢ rc_ok → perform dev ptp dp_getdata 0 none k ≡ some left_unsent
  unfolding perform transaction transaction_new
  perform-unsent e = rw (==_false behind_request.1 rc_ok e) refl
