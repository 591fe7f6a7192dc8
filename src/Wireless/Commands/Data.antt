-- ===== src/Wireless/Commands/Data.antt =====
-- `ptp_ptpip_getdata` of src/wireless.c with the handler over memory: the data of the packets comes
-- out whole, and nothing behind them is read.
use mathlib.Core.List.{append_assoc, append-nil}
use vita_mtp.Base.{
  ℕ, zero, suc, ◌+◌, ◌-◌, ◌%◌, ◌^◌, ◌<◌, ◌≤◌, ◌≡◌, ◌⊎◌, inl, inr, refl, sym, ◌∙◌, true, false, ◌||◌,
  some, List, [], ◌∷◌, ◌++◌, All, ltb, ==_false, ◌==◌, length, length-append, arith,
}
use vita_mtp.Bytes.{ByteOrder, fetch, wire_bytes}
use vita_mtp.Bytes.Layout.{fetch_whole}
use vita_mtp.Bytes.Words.{length-wire_bytes, dtoh32a_at}
use vita_mtp.Cache.{rc_ok}
use vita_mtp.Transaction.{Container}
use vita_mtp.Transaction.Memory.{MemHandler, memory_putfunc, init_recv_memory_handler}
use vita_mtp.Transaction.Memory.Puts.{Holds, memory_putfunc-Holds}
use vita_mtp.Wireless.{Sockets, start_data_packet, data_packet, end_data_packet}
use vita_mtp.Wireless.Stream.{generic_read}
use vita_mtp.Wireless.Stream.Reads.{IsConnected, packet_bytes, generic_read_lem}
use vita_mtp.Wireless.Commands.{Connection, get_packets, getdata}

-- A piece of the data: the type of its packet, and its bytes.
abbrev pub Piece : Type 0
Piece = ℕ × List ℕ

-- A packet has one of the two types of data packets, and some bytes, but not too many.
pub record IsPiece (piece : Piece) : Type 0 where
  pub typed : (piece.0 ≡ data_packet) ⊎ (piece.0 ≡ end_data_packet)
  pub some_bytes : 0 < length piece.1
  pub few_bytes : length piece.1 + 4 < 2 ^ 31

abbrev pub together : List Piece → List ℕ
together [] = []
together (piece ∷ pieces) = piece.1 ++ together pieces

abbrev pub data_stream : ByteOrder → ℕ → List Piece → List ℕ
data_stream o id [] = []
data_stream o id (piece ∷ pieces) =
    packet_bytes o piece.0 (wire_bytes o 4 id ++ piece.1) ++ data_stream o id pieces

-- The packets of a data phase.
abbrev pub phase_stream : ByteOrder → ℕ → ℕ → List Piece → List ℕ
phase_stream o id unknown pieces =
    packet_bytes o start_data_packet
      (wire_bytes o 4 id ++ (wire_bytes o 4 (length (together pieces)) ++ wire_bytes o 4 unknown))
    ++ data_stream o id pieces

-- `realloc` gets the memory, with any contents.
abbrev pub HasRoom : Connection → Type 0
HasRoom conn =
    (h : MemHandler) (n : ℕ)
    → (fresh : List ℕ) × (conn.realloc h n ≡ some fresh) × (length fresh ≡ n)

module _ {S : Type 0} (net : Sockets S) (conn : Connection) where
  -- One round of the loop.
  get_packets-round :
      (fuel left : ℕ) (s s' : S) (h h' : MemHandler) (id : ℕ) (piece : Piece) (fresh : List ℕ)
      → IsPiece piece
      → length piece.1 ≤ left
      → left < 2 ^ 32
      → generic_read net conn.cmdfd conn.byteorder s
        ≡ some (
          s',
          some (record {
            length = length (wire_bytes conn.byteorder 4 id ++ piece.1) + 8;
            type = piece.0;
            payload = wire_bytes conn.byteorder 4 id ++ piece.1;
          }),
        )
      → conn.realloc h (length piece.1) ≡ some fresh
      → memory_putfunc h piece.1 (some fresh) ≡ some (h', rc_ok)
      → get_packets net conn (suc fuel) left s h
        ≡ get_packets net conn fuel (left - length piece.1) s' h'
  unfolding get_packets
  get_packets-round fuel left s s' h h' id piece fresh ok k b read room put =
      let w = wire_bytes conn.byteorder 4 id in
      let n : (length (w ++ piece.1) + 8 + 2 ^ 32 - 12) % 2 ^ 32 ≡ length piece.1 =
        omega
          (arith, ok.few_bytes, length-append w piece.1, length-wire_bytes conn.byteorder 4 id) in
      let body : fetch (w ++ piece.1) 4 (length piece.1) ≡ some piece.1 =
        fetch_whole w piece.1 (sym (length-wire_bytes conn.byteorder 4 id)) refl in
      let typed : (piece.0 == end_data_packet) || (piece.0 == data_packet) ≡ true = elim ok.typed [
        | inl e ↦ rw e refl
        | inr e ↦ rw e refl
      ] in
      let fits : ltb left (length piece.1) ≡ false = ground (arith, k) in
      rw
        (
          ==_false left 0 (λ z. omega (arith, z, k, ok.some_bytes)),
          read,
          typed,
          n,
          fits,
          body,
          room,
          put,
        )
        refl

  get_packets-end :
      (fuel left : ℕ) (s : S) (h : MemHandler)
      → left ≡ 0
      → get_packets net conn (suc fuel) left s h ≡ some ((s, h), rc_ok)
  unfolding get_packets
  get_packets-end fuel left s h e = rw e refl

  module _ (rest : S → List ℕ) (ok : IsConnected net conn.cmdfd rest) (room : HasRoom conn) where
    get_packets_lem :
        (fuel left : ℕ) (s : S) (h : MemHandler) (id : ℕ) (bs : List ℕ) (pieces : List Piece)
        (back : List ℕ)
        → rest s ≡ data_stream conn.byteorder id pieces ++ back
        → All IsPiece pieces
        → Holds bs h
        → left ≡ length (together pieces)
        → left < 2 ^ 32
        → length bs + left < 2 ^ 64
        → length pieces < fuel
        → (s' : S) × (h' : MemHandler) × (get_packets net conn fuel left s h
            ≡ some ((s', h'), rc_ok))
          × Holds (bs ++ together pieces) h'
          × (rest s' ≡ back)
    get_packets_lem zero left s h id bs pieces back e a held l k m f = absurd (omega arith)
    get_packets_lem (suc fuel) left s h id bs [] back e a held l k m f =
        (s, h, get_packets-end fuel left s h l, rw (append-nil bs) held, e)
    get_packets_lem (suc fuel) left s h id bs (piece ∷ pieces) back e a held l k m f =
        let o = conn.byteorder in
        let n = length-append piece.1 (together pieces) in
        let types = a.0.typed in
        let small : piece.0 < 2 ^ 32 = elim types [
          | inl t ↦ omega (arith, t)
          | inr t ↦ omega (arith, t)
        ] in
        let read =
          generic_read_lem net conn.cmdfd rest ok o s piece.0 (wire_bytes o 4 id ++ piece.1)
            (data_stream o id pieces ++ back)
            (e
              ∙ append_assoc (packet_bytes o piece.0 (wire_bytes o 4 id ++ piece.1))
                  (data_stream o id pieces) back)
            small
            (omega (
              arith,
              a.0.few_bytes,
              length-append (wire_bytes o 4 id) piece.1,
              length-wire_bytes o 4 id,
            )) in
        let memory = room h (length piece.1) in
        let put = memory_putfunc-Holds h bs piece.1 memory.0 held memory.2 (omega (arith, l, n)) in
        let more =
          get_packets_lem fuel (left - length piece.1) read.0 put.0 id (bs ++ piece.1) pieces back
            read.2 a.1 put.2 (omega (arith, l, n)) (omega (arith, k))
            (omega (arith, length-append bs piece.1, l, n)) (omega arith) in
        (
          more.0,
          more.1,
          get_packets-round fuel left s read.0 h put.0 id piece memory.0 a.0 (omega (arith, l, n)) k
                read.1 memory.1 put.1
              ∙ more.2,
          rw (append_assoc bs piece.1 (together pieces)) at more.3,
          more.4,
        )

    -- From its first packet.
    getdata-start :
        (s s1 : S) (ptp : Container) (h : MemHandler) (size id total unknown : ℕ)
        → total < 2 ^ 32
        → generic_read net conn.cmdfd conn.byteorder s
          ≡ some (
            s1,
            some (record {
              length = size;
              type = start_data_packet;
              payload =
                  wire_bytes conn.byteorder 4 id
                  ++ (wire_bytes conn.byteorder 4 total ++ wire_bytes conn.byteorder 4 unknown);
            }),
          )
        → getdata net conn s ptp h ≡ get_packets net conn conn.fuel total s1 h
    unfolding getdata
    getdata-start s s1 ptp h size id total unknown k e =
        rw
          (
            e,
            dtoh32a_at conn.byteorder (wire_bytes conn.byteorder 4 id)
                (wire_bytes conn.byteorder 4 unknown) k
                (sym (length-wire_bytes conn.byteorder 4 id)),
          )
          refl

    -- Over a connection to a device that sends a data phase, one packet that gives the length and
    -- packets with data.
    pub getdata_lem :
        (s : S) (ptp : Container) (id unknown : ℕ) (pieces : List Piece) (back : List ℕ)
        → rest s ≡ phase_stream conn.byteorder id unknown pieces ++ back
        → All IsPiece pieces
        → length (together pieces) < 2 ^ 32
        → length pieces < conn.fuel
        → (s' : S) × (h' : MemHandler) × (getdata net conn s ptp init_recv_memory_handler
            ≡ some ((s', h'), rc_ok))
          × Holds (together pieces) h'
          × (rest s' ≡ back)
    getdata_lem s ptp id unknown pieces back e a k f =
        let o = conn.byteorder in
        let total = length (together pieces) in
        let body = wire_bytes o 4 id ++ (wire_bytes o 4 total ++ wire_bytes o 4 unknown) in
        let small : length body < 2 ^ 31 = omega (
          arith,
          length-append (wire_bytes o 4 id) (wire_bytes o 4 total ++ wire_bytes o 4 unknown),
          length-append (wire_bytes o 4 total) (wire_bytes o 4 unknown),
          length-wire_bytes o 4 id,
          length-wire_bytes o 4 total,
          length-wire_bytes o 4 unknown,
        ) in
        let first =
          generic_read_lem net conn.cmdfd rest ok o s start_data_packet body
            (data_stream o id pieces ++ back)
            (e
              ∙ append_assoc (packet_bytes o start_data_packet body) (data_stream o id pieces) back)
            (omega arith) small in
        let more =
          get_packets_lem conn.fuel total first.0 init_recv_memory_handler id [] pieces back first.2
            a (refl, refl, refl) refl k (omega (arith, k)) f in
        (
          more.0,
          more.1,
          getdata-start s first.0 ptp init_recv_memory_handler (length body + 8) id total unknown k
                first.1
              ∙ more.2,
          more.3,
          more.4,
        )
