-- ===== src/Transaction/Tests.antt =====
-- Transactions over scripted transports, and the theorems about them at these.
use vita_mtp.Base.{ℕ, ◌≡◌, refl, none, some, List, [], ◌∷◌, arith, if◌then◌else◌, ◌==◌}
use vita_mtp.Cache.{rc_ok}
use vita_mtp.Transaction.{
  Container, Transport, Session, error_resp_expected, data_phase, transaction_new, get_response,
  after_data,
}
use vita_mtp.Transaction.Memory.{
  MemHandler, init_recv_memory_handler, bytes_of, exit_recv_memory_handler,
}
use vita_mtp.Transaction.Memory.Puts.{put_all, put_all_lem}
use vita_mtp.Transaction.Whole.{
  end, none_yet, old, transaction_new-answer, transaction_new-IsAnswered, transaction_new-waits,
}

-- A container without parameters.
abbrev plain : ℕ → ℕ → Container
plain code id = record {
  code = code;
  session_id = 1;
  transaction_id = id;
  param1 = 0;
  param2 = 0;
  param3 = 0;
  param4 = 0;
  param5 = 0;
  nparam = 0;
}

abbrev Script : Type 0
Script = List (ℕ × Container)

abbrev next_reply : Script → Container → (Script × Container) × ℕ
next_reply [] ptp = (([], ptp), 0x2ff)
next_reply (r ∷ script) ptp = ((script, r.1), r.0)

-- The replies of the script in order, then errors; the data phases end with a given code.
abbrev scripted : ℕ → Transport Script ℕ
scripted data_code = record {
  sendreq = λ t ptp. (t, rc_ok);
  senddata = λ t ptp sendlen h. ((t, sendlen), data_code);
  getdata = λ t ptp h. ((t, 5), data_code);
  getresp = next_reply;
  cancelreq = λ t id. (t, if id == 7 then rc_ok else 0x2ff);
}

-- A device that never has a response.
abbrev silent : Transport ℕ ℕ
silent = record {
  sendreq = λ t ptp. (t, rc_ok);
  senddata = λ t ptp sendlen h. ((t, h), rc_ok);
  getdata = λ t ptp h. ((t, h), rc_ok);
  getresp = λ t ptp. ((t, ptp), error_resp_expected);
  cancelreq = λ t id. (t, rc_ok);
}

abbrev session : Session
session = record { transaction_id = 7; session_id = 1 }

abbrev replies : Script
replies = (error_resp_expected, plain 0 0) ∷ (rc_ok, plain 0x2001 6) ∷ (rc_ok, plain 0x2001 7) ∷ []

transaction_new-answer_example :
    transaction_new (scripted rc_ok) 3 session (plain 0x1004 0) 2 0 replies 0
    ≡ some (record {
      session = record { transaction_id = 8; session_id = 1 };
      transport = [];
      container = plain 0x2001 7;
      handler = 5;
      code = rc_ok;
    })
unfolding data_phase after_data
transaction_new-answer_example =
    transaction_new-answer (scripted rc_ok) 3 2 session (plain 0x1004 0) 2 0 replies 0
      (((replies), 5), rc_ok) ((rc_ok, plain 0x2001 7) ∷ []) (plain 0x2001 6) refl refl refl
      (none_yet 1 _ _ _ _ refl (old 0 _ _ _ _ refl (omega arith) (end _ _))) refl refl (omega arith)

transaction_new-run :
    transaction_new (scripted rc_ok) 3 session (plain 0x1004 0) 2 0 replies 0
    ≡ some (record {
      session = record { transaction_id = 8; session_id = 1 };
      transport = [];
      container = plain 0x2001 7;
      handler = 5;
      code = rc_ok;
    })
unfolding transaction_new data_phase after_data get_response
transaction_new-run = refl

transaction_new-IsAnswered_example : (plain 0x2001 7).transaction_id ≡ session.transaction_id
transaction_new-IsAnswered_example =
    transaction_new-IsAnswered (scripted rc_ok) 3 session (plain 0x1004 0) 2 0 replies 0
      (record {
        session = record { transaction_id = 8; session_id = 1 };
        transport = [];
        container = plain 0x2001 7;
        handler = 5;
        code = rc_ok;
      })
      (omega arith) transaction_new-run refl

transaction_new-waits_example : transaction_new silent 50 session (plain 0x1002 0) 0 0 0 0 ≡ none
unfolding data_phase
transaction_new-waits_example =
    transaction_new-waits silent 50 session (plain 0x1002 0) 0 0 0 0 (λ t ptp. refl) refl refl

abbrev chunks : List (List ℕ × List ℕ)
chunks = (1 ∷ 2 ∷ [], 0 ∷ 0 ∷ []) ∷ ([], []) ∷ (3 ∷ [], 9 ∷ []) ∷ []

put_all_example :
    (p : MemHandler) × (put_all init_recv_memory_handler chunks ≡ some (p, rc_ok))
    × (bytes_of (exit_recv_memory_handler p).0 ≡ 1 ∷ 2 ∷ 3 ∷ [])
    × ((exit_recv_memory_handler p).1 ≡ 3)
put_all_example = put_all_lem chunks (refl, (refl, (refl, tt))) (omega arith)
