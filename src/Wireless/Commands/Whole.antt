-- ===== src/Wireless/Commands/Whole.antt =====
-- A transaction that gets data, of src/ptp.c over the PTP/IP transport of src/wireless.c, as a whole:
-- what it returns is what the device sent, however the network cuts it.
use vita_mtp.Base.{
  ℕ, ◌+◌, ◌^◌, ◌≤◌, ◌<◌, ◌≡◌, refl, Option, some, List, ◌∷◌, ◌++◌, All, length, length-append,
  arith,
}
use vita_mtp.Bytes.{wire_bytes}
use vita_mtp.Bytes.Arrays.{Is32, host_words, length-host_words}
use vita_mtp.Bytes.Words.{length-wire_bytes}
use vita_mtp.Cache.{rc_ok}
use vita_mtp.Transaction.{Container, Session, with_ids}
use vita_mtp.Transaction.Memory.{MemHandler, init_recv_memory_handler}
use vita_mtp.Transaction.Whole.{next_session}
use vita_mtp.Vita.{Device, Link, Outcome, Received}
use vita_mtp.Vita.Exchange.{Exchange}
use vita_mtp.Wireless.{Sockets, cmd_response}
use vita_mtp.Wireless.Stream.{generic_read}
use vita_mtp.Wireless.Stream.Reads.{IsConnected, generic_read_lem, packet_bytes}
use vita_mtp.Wireless.Commands.{Connection, getdata, getresp, ptpip, sendreq}
use vita_mtp.Wireless.Commands.Packets.{answered, response_of_lem, response_wire}

module _ {S : Type 0} (net : Sockets S) (conn : Connection) (rest : S → List ℕ)
    (ok : IsConnected net conn.cmdfd rest) where
  -- The packet of a response.
  abbrev pub reply_stream : ℕ → ℕ → List ℕ → List ℕ
  reply_stream code id ps =
      packet_bytes conn.byteorder cmd_response (response_wire conn.byteorder code id ps)

  getresp-packet :
      (s s' : S) (resp : Container) (code id : ℕ) (ps : List ℕ)
      → code < 2 ^ 16
      → All Is32 (id ∷ ps)
      → length ps ≤ 5
      → generic_read net conn.cmdfd conn.byteorder s
        ≡ some (
          s',
          some (record {
            length = length (response_wire conn.byteorder code id ps) + 8;
            type = cmd_response;
            payload = response_wire conn.byteorder code id ps;
          }),
        )
      → getresp net conn s resp ≡ some ((s', answered code id ps resp), rc_ok)
  unfolding getresp
  getresp-packet s s' resp code id ps k a n e =
      rw (e, response_of_lem conn.byteorder code id k cmd_response resp ps a n) refl

  pub getresp_lem :
      (s : S) (resp : Container) (code id : ℕ) (ps back : List ℕ)
      → rest s ≡ reply_stream code id ps ++ back
      → code < 2 ^ 16
      → All Is32 (id ∷ ps)
      → length ps ≤ 5
      → (s' : S) × (getresp net conn s resp ≡ some ((s', answered code id ps resp), rc_ok))
        × (rest s' ≡ back)
  getresp_lem s resp code id ps back e k a n =
      let o = conn.byteorder in
      let read =
        generic_read_lem net conn.cmdfd rest ok o s cmd_response (response_wire o code id ps) back e
          (omega arith)
          (omega (
            arith,
            n,
            length-append (wire_bytes o 2 code) (host_words o (id ∷ ps)),
            length-wire_bytes o 2 code,
            length-host_words o (id ∷ ps),
          )) in
      (read.0, getresp-packet s read.0 resp code id ps k a n read.1, read.2)

  -- The steps of a transaction that gets data: the request, the data and the response.
  pub record Steps (k : Session) (ptp : Container) (s s1 s2 s3 : S) (h : MemHandler)
      (answer : Container) : Type 0 where
    pub sent : sendreq net conn s (with_ids k ptp) ≡ some (s1, rc_ok)
    pub got : getdata net conn s1 (with_ids k ptp) init_recv_memory_handler ≡ some ((s2, h), rc_ok)
    pub answered_by : getresp net conn s2 (with_ids k ptp) ≡ some ((s3, answer), rc_ok)
    pub own : answer.transaction_id ≡ k.transaction_id
    pub in_range : k.transaction_id < 2 ^ 32

  module _ (fuel : ℕ) (unset : MemHandler) (k : Session) (ptp : Container) where
    -- The device that runs over the connection, and its link.
    abbrev pub device : Device (Option S)
    device = record {
      functions = ptpip net conn;
      fuel = fuel + 1;
      unset = unset;
      host = conn.byteorder;
    }

    abbrev pub link : S → Link (Option S)
    link s = record { session = k; transport = some s }

    -- What `ptp_transaction` returns behind the steps.
    abbrev pub gotten : S → ℕ → Container → Option (List ℕ) → ℕ → Outcome (Option S) Received
    gotten s code answer block len = record {
      link = record { session = next_session k; transport = some s };
      code = code;
      value = record { container = answer; block = block; len = len };
    }
