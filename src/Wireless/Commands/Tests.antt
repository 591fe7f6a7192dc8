-- ===== src/Wireless/Commands/Tests.antt =====
-- The transport functions over PTP/IP at concrete networks: one that gives a byte at a time, and one
-- that takes at most 25.
use vita_mtp.Base.{
  true, ◌∙◌, ℕ, zero, suc, ◌<◌, ◌≤◌, ◌⊎◌, inl, inr, ◌≡◌, refl, ap, Option, none, some, List, [],
  ◌∷◌, ◌++◌, All, arith, length, length-replicate, replicate, take,
}
use vita_mtp.Bytes.{little, store, htod32a, fetch, take_bytes, overlay, wire_bytes}
use vita_mtp.Cache.{rc_ok}
use vita_mtp.Transaction.{Container, Session}
use vita_mtp.Transaction.Memory.{
  MemHandler, bytes_of, init_recv_memory_handler, init_send_memory_handler, memory_getfunc,
}
use vita_mtp.Vita.{event_request}
use vita_mtp.Wireless.{Packet, Sockets, data_packet, end_data_packet}
use vita_mtp.Wireless.Stream.{generic_read, send_all}
use vita_mtp.Wireless.Stream.Ends.{generic_read-ends}
use vita_mtp.Wireless.Stream.Reads.{IsConnected}
use vita_mtp.Wireless.Commands.{Connection, getdata, send_packets, senddata}
use vita_mtp.Wireless.Commands.Data.{HasRoom, IsPiece, Piece, phase_stream, together}
use vita_mtp.Wireless.Commands.RoundTrip.{getdata-senddata}
use vita_mtp.Wireless.Commands.Sends.{Accepts, IsCut, senddata_lem}
use vita_mtp.Wireless.Commands.Whole.{reply_stream}

abbrev pub slowly : List ℕ → List ℕ × Option (List ℕ)
slowly [] = ([], some [])
slowly (b ∷ bs) = (bs, some (b ∷ []))

abbrev slow : Sockets (List ℕ)
slow = record {
  send = λ s fd bytes. (s, some (length bytes));
  recv = λ s fd n. slowly s;
  has_memory = λ s n. true;
}

abbrev whole : List ℕ → List ℕ
whole s = s

slow-IsConnected : IsConnected slow 3 whole
slow-IsConnected = record {
  delivers = delivers;
  undisturbed = λ s bytes. refl;
  memory = λ s n. refl;
}
  where
    delivers :
        (s : List ℕ) (n : ℕ)
        → 0 < n
        → 0 < length s
        → (chunk : List ℕ) × ((slowly s).1 ≡ some chunk)
          × (0 < length chunk)
          × (length chunk ≤ n)
          × (s ≡ chunk ++ (slowly s).0)
    delivers [] n k l = absurd (omega arith)
    delivers (b ∷ bs) n k l = (b ∷ [], refl, omega arith, omega arith, refl)

abbrev connection : Connection
connection = record {
  cmdfd = 3;
  byteorder = little;
  malloc = λ n. replicate n 7;
  realloc = λ h n. some (replicate n 7);
  fuel = 5;
}

connection-HasRoom : HasRoom connection
connection-HasRoom h n = (replicate n 7, refl, length-replicate n 7)

abbrev session : Session
session = record { transaction_id = 7; session_id = 1 }

abbrev pieces : List Piece
pieces = (data_packet, 1 ∷ 2 ∷ []) ∷ (end_data_packet, 3 ∷ []) ∷ []

abbrev ptp : Container
ptp = event_request 0x9514 5

abbrev unset : MemHandler
unset = record { block = none; size = 0; curoff = 0 }

-- What the device sends, with a byte of the next packet.
abbrev sent : List ℕ
sent =
    phase_stream little 7 0 pieces
    ++ (reply_stream slow connection whole slow-IsConnected 0x2001 7 (9 ∷ []) ++ (1 ∷ []))

-- The first bytes of a list.
length-take : (k : ℕ) (xs : List ℕ) → length (take k xs) ≤ length xs
length-take zero xs = omega arith
length-take (suc k) [] = omega arith
length-take (suc k) (x ∷ xs) = omega (arith, length-take k xs)

taken_cases : (k : ℕ) (xs : List ℕ) → (k ≤ length (take k xs)) ⊎ (length (take k xs) ≡ length xs)
taken_cases zero xs = inl (omega arith)
taken_cases (suc k) [] = inr refl
taken_cases (suc k) (x ∷ xs) = elim (taken_cases k xs) [
  | inl h ↦ inl (omega (arith, h))
  | inr h ↦ inr (ap suc h)
]

take-length : (k : ℕ) (xs : List ℕ) → take k xs ≡ take (length (take k xs)) xs
take-length zero xs = refl
take-length (suc k) [] = refl
take-length (suc k) (x ∷ xs) = ap (λ ys. x ∷ ys) (take-length k xs)

abbrev narrow : Sockets (List ℕ)
narrow = record {
  send = λ s fd bytes. (s ++ take 25 bytes, some (length (take 25 bytes)));
  recv = λ s fd n. (s, none);
  has_memory = λ s n. true;
}

narrow-Accepts : Accepts narrow 3 whole
narrow-Accepts = record {
  takes = λ s bytes k. (
    length (take 25 bytes),
    refl,
    elim (taken_cases 25 bytes) [ inl h ↦ omega (arith, h) | inr h ↦ omega (arith, h, k) ],
    length-take 25 bytes,
    ap (λ w. s ++ w) (take-length 25 bytes),
  );
  memory = λ s n. refl;
}

narrow_at_once : (s packet : List ℕ) → length packet ≡ 20 → some (length (take 25 packet)) ≡ some 20
narrow_at_once s packet e = ap some (elim (taken_cases 25 packet) [
  | inl h ↦ omega (arith, h, e, length-take 25 packet)
  | inr h ↦ h ∙ e
])

abbrev letter : List ℕ
letter = 1 ∷ 2 ∷ 3 ∷ 4 ∷ []

abbrev letter_handler : MemHandler
letter_handler = init_send_memory_handler (some letter) 4

senddata_lem_example :
    (s' : List ℕ) × (h' : MemHandler) × (pieces : List Piece) × (senddata narrow connection
        (9 ∷ [])
        ptp
        4
        letter_handler
      ≡ some ((s', h'), rc_ok))
    × (s' ≡ (9 ∷ []) ++ phase_stream little ptp.transaction_id 0 pieces)
    × (together pieces ≡ letter)
    × All IsPiece pieces
    × IsCut pieces
senddata_lem_example =
    senddata_lem narrow connection whole narrow-Accepts (9 ∷ []) ptp letter
      (λ n. length-replicate n 7) (omega arith) (omega arith) narrow_at_once

-- What is written for the data.
abbrev letter_stream : List ℕ
letter_stream =
    20 ∷ 0 ∷ 0 ∷ 0 ∷ 9 ∷ 0 ∷ 0 ∷ 0 ∷ 0 ∷ 0 ∷ 0 ∷ 0 ∷ 4 ∷ 0 ∷ 0 ∷ 0 ∷ 0 ∷ 0 ∷ 0 ∷ 0 ∷ 16 ∷ 0 ∷ 0 ∷ 0
    ∷ 12 ∷ 0 ∷ 0 ∷ 0 ∷ 0 ∷ 0 ∷ 0 ∷ 0 ∷ letter

letter_sent :
    senddata narrow connection [] ptp 4 letter_handler
    ≡ some ((letter_stream, record letter_handler { curoff = 4 }), rc_ok)
unfolding senddata send_packets send_all memory_getfunc store htod32a fetch take_bytes overlay
    wire_bytes
letter_sent = refl

getdata-senddata_example :
    (t' : List ℕ) × (h : MemHandler) × (getdata slow connection
        (letter_stream ++ (1 ∷ []))
        ptp
        init_recv_memory_handler
      ≡ some ((t', h), rc_ok))
    × (bytes_of h.block ≡ letter)
    × (t' ≡ 1 ∷ [])
getdata-senddata_example =
    getdata-senddata narrow connection whole narrow-Accepts slow connection whole slow-IsConnected
      [] letter_stream (record letter_handler { curoff = 4 }) (letter_stream ++ (1 ∷ [])) ptp ptp
      letter (1 ∷ []) (λ n. length-replicate n 7) connection-HasRoom refl (omega arith)
      (omega arith) (omega arith) refl letter_sent refl

-- A stream that ends inside of a packet.
generic_read-ends_example :
    (s' : List ℕ) × (packet : Option Packet) × (generic_read slow 3 little
        (20 ∷ 0 ∷ 0 ∷ 0 ∷ 9 ∷ 0 ∷ 0 ∷ 0 ∷ 5 ∷ [])
      ≡ some (s', packet))
generic_read-ends_example =
    generic_read-ends slow 3 little (20 ∷ 0 ∷ 0 ∷ 0 ∷ 9 ∷ 0 ∷ 0 ∷ 0 ∷ 5 ∷ [])
