-- ===== src/Wireless/Tests.antt =====
-- A pairing and connections on concrete systems, and the theorems about the wireless transport at
-- these.
use mathlib.Core.Option.{some-injective}
use mathlib.Core.Path.{subst}
use Prim.{tt}
use vita_mtp.Base.{
  ◌≢◌, ◌++◌, ◌≤◌, ap, All, arith, ℕ, ◌+◌, ◌≡◌, refl, true, false, none, some, List, [], ◌∷◌, length,
  replicate, pos,
}
use vita_mtp.Bytes.{little, store, htod32a, dtoh32a, fetch, wire_bytes}
use vita_mtp.Pack.Times.{atoi, is_digit, is_space}
use vita_mtp.Wireless.{Sockets}
use vita_mtp.Wireless.Commands.Tests.{slowly}
use vita_mtp.Wireless.Connect.{
  Dialing, command_ack, command_request, connect_both, event_ack, event_request_packet, handshake,
  ptpip_connect, send_command_request, send_event_request,
}
use vita_mtp.Wireless.Connect.Closing.{Counts, opened, ptpip_connect_lem, without_fd}
use vita_mtp.Wireless.Stream.{generic_read, recv_all}
use vita_mtp.Text.{behind}
use vita_mtp.Wireless.Text.{c_string, has_number, scan_connect, scan_method, skip_space, word}
use vita_mtp.Wireless.Pairing.{
  Callbacks, Event, Pairing, accept, accepted, bytes, connected, dispatch, method_of, ok_210,
  received, round, same_text, start, step,
}

-- A user who gives every device the PIN 42 and knows none.
abbrev user : Callbacks
user = record { is_registered = λ id. false; create_register_pin = λ info. (pos 42, pos 0) }

abbrev showpin_text : List ℕ
showpin_text =
    b'S' ∷ b'H' ∷ b'O' ∷ b'W' ∷ b'P' ∷ b'I' ∷ b'N' ∷ 32 ∷ b'*' ∷ 32 ∷ b'H' ∷ b'T' ∷ b'T' ∷ b'P'
    ∷ b'/' ∷ b'1' ∷ b'.' ∷ b'1' ∷ 13 ∷ 10 ∷ b'd' ∷ b'e' ∷ b'v' ∷ b'i' ∷ b'c' ∷ b'e' ∷ b'-' ∷ b'i'
    ∷ b'd' ∷ b':' ∷ b'a' ∷ b'b' ∷ 13 ∷ 10 ∷ 0 ∷ []

abbrev register_text : List ℕ
register_text =
    b'R' ∷ b'E' ∷ b'G' ∷ b'I' ∷ b'S' ∷ b'T' ∷ b'E' ∷ b'R' ∷ 32 ∷ b'*' ∷ 32 ∷ b'H' ∷ b'T' ∷ b'T'
    ∷ b'P' ∷ b'/' ∷ b'1' ∷ b'.' ∷ b'1' ∷ 13 ∷ 10 ∷ b'd' ∷ b'e' ∷ b'v' ∷ b'i' ∷ b'c' ∷ b'e' ∷ b'-'
    ∷ b'i' ∷ b'd' ∷ b':' ∷ b'a' ∷ b'b' ∷ 13 ∷ 10 ∷ b'p' ∷ b'i' ∷ b'n' ∷ b'-' ∷ b'c' ∷ b'o' ∷ b'd'
    ∷ b'e' ∷ b':' ∷ b'0' ∷ b'0' ∷ b'0' ∷ b'0' ∷ b'0' ∷ b'0' ∷ b'4' ∷ b'2' ∷ 13 ∷ 10 ∷ 0 ∷ []

abbrev connect_text : List ℕ
connect_text =
    b'C' ∷ b'O' ∷ b'N' ∷ b'N' ∷ b'E' ∷ b'C' ∷ b'T' ∷ 32 ∷ b'*' ∷ 32 ∷ b'H' ∷ b'T' ∷ b'T' ∷ b'P'
    ∷ b'/' ∷ b'1' ∷ b'.' ∷ b'1' ∷ 13 ∷ 10 ∷ b'd' ∷ b'e' ∷ b'v' ∷ b'i' ∷ b'c' ∷ b'e' ∷ b'-' ∷ b'i'
    ∷ b'd' ∷ b':' ∷ b'c' ∷ b'd' ∷ 13 ∷ 10 ∷ b'd' ∷ b'e' ∷ b'v' ∷ b'i' ∷ b'c' ∷ b'e' ∷ b'-' ∷ b'p'
    ∷ b'o' ∷ b'r' ∷ b't' ∷ b':' ∷ b'9' ∷ 13 ∷ 10 ∷ 0 ∷ []

abbrev begun : Pairing
begun = accepted 5 start

abbrev pinned : Pairing
pinned = record begun { guid = b'a' ∷ b'b' ∷ []; pin = pos 42; read = some 20 }

abbrev registered : Pairing
registered = record pinned { registered = true; read = some 21 }

-- Once one device is registered, another one is let in, which nobody has registered.
other_device_let_in :
    step user (bytes true true connect_text) registered
    ≡ some (
      record registered { guid = b'c' ∷ b'd' ∷ []; data_port = pos 9; read = some 20 },
      ok_210 ∷ [],
    )
unfolding step received round dispatch connected method_of same_text c_string scan_method
    scan_connect skip_space word behind is_space is_digit has_number atoi
other_device_let_in = refl

abbrev history : List Event
history = bytes true true register_text ∷ bytes true true showpin_text ∷ accept 5 ∷ []

-- A system with a list of open sockets, whose connections all give the same bytes.
abbrev System : Type 0
System = List ℕ × List ℕ

abbrev listed : Sockets System
listed = record {
  send = λ s fd bytes. (s, some (length bytes));
  recv = λ s fd n. ((s.0, (slowly s.1).0), (slowly s.1).1);
  has_memory = λ s n. true;
}

-- A number above all that are in use.
abbrev total : List ℕ → ℕ
total [] = 0
total (x ∷ xs) = x + total xs

total_fresh : (xs : List ℕ) (k : ℕ) → total xs ≤ k → All (λ x. x ≢ k + 3) xs
total_fresh [] k h = tt
total_fresh (x ∷ xs) k h = (λ e. omega (arith, e), total_fresh xs k (omega arith))

abbrev dialing : Dialing System
dialing = record {
  socket = λ s. (((total s.0 + 3) ∷ s.0, s.1), some (total s.0 + 3));
  connect = λ s fd port. (s, true);
  close = λ s fd. (without_fd fd s.0, s.1);
  ready = λ s fd. (s, true);
}

abbrev open_in : System → List ℕ
open_in s = s.0

listed-Counts : Counts listed dialing open_in
listed-Counts = record {
  opens = λ s fd e. (
    ap (λ n. n ∷ s.0) (some-injective _ _ e),
    subst (λ n. All (λ x. x ≢ n) s.0) (some-injective _ _ e)
        (total_fresh s.0 (total s.0) (omega arith)),
  );
  fails = λ s e. absurd (cc e);
  closes = λ s fd. refl;
  connects = λ s fd port. refl;
  sends = λ s fd bytes. refl;
  receives = λ s fd n. refl;
}

-- An acknowledgement of the command socket, and a packet of a wrong type on the event socket.
abbrev wrong_packets : List ℕ
wrong_packets = 12 ∷ 0 ∷ 0 ∷ 0 ∷ 2 ∷ 0 ∷ 0 ∷ 0 ∷ 77 ∷ 0 ∷ 0 ∷ 0 ∷ 8 ∷ 0 ∷ 0 ∷ 0 ∷ 5 ∷ 0 ∷ 0 ∷ 0 ∷ []

refused_connection :
    ptpip_connect listed little (λ n. replicate n 7) dialing 9 (5 ∷ [], wrong_packets)
    ≡ some ((5 ∷ [], []), none)
unfolding ptpip_connect connect_both handshake send_command_request send_event_request command_ack
    event_ack command_request event_request_packet without_fd generic_read recv_all store htod32a
    dtoh32a fetch wire_bytes
refused_connection = refl

ptpip_connect_example :
    open_in (5 ∷ [], [])
    ≡ opened listed dialing open_in listed-Counts little (λ n. replicate n 7) none
      ++ open_in (5 ∷ [], wrong_packets)
ptpip_connect_example =
    ptpip_connect_lem listed dialing open_in listed-Counts little (λ n. replicate n 7) 9
      (5 ∷ [], wrong_packets) ((5 ∷ [], []), none) refused_connection

-- Both packets are right.
made_connection :
    ptpip_connect listed little
      (λ n. replicate n 7)
      dialing
      9
      (5 ∷ [], 12 ∷ 0 ∷ 0 ∷ 0 ∷ 2 ∷ 0 ∷ 0 ∷ 0 ∷ 77 ∷ 0 ∷ 0 ∷ 0 ∷ 8 ∷ 0 ∷ 0 ∷ 0 ∷ 4 ∷ 0 ∷ 0 ∷ 0 ∷ [])
    ≡ some ((16 ∷ 8 ∷ 5 ∷ [], []), some (record { cmdfd = 8; evtfd = 16; eventpipeid = 77 }))
unfolding ptpip_connect connect_both handshake send_command_request send_event_request command_ack
    event_ack command_request event_request_packet without_fd generic_read recv_all store htod32a
    dtoh32a fetch wire_bytes
made_connection = refl
