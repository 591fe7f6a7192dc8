-- ===== src/Wireless/Commands/Sends.antt =====
-- `ptp_ptpip_senddata` of src/wireless.c with the handler over memory: the packets that it writes
-- carry the data.
use mathlib.Core.List.{append_assoc, append-nil}
use mathlib.Core.Path.{subst}
use mathlib.Core.Option.{some-injective}
use vita_mtp.Base.{
  ==_iff, ◌==◌, true, ℕ, zero, suc, ◌+◌, ◌-◌, ◌%◌, ◌^◌, ◌<◌, ◌≤◌, ◌≡◌, inl, inr, refl, sym, ap, ◌∙◌,
  some, List, [], ◌∷◌, ◌++◌, All, ltb, ltb→lt, ==_false, if◌then◌else◌, length, length-append,
  arith, Bool-cases, take, drop, length-drop,
}
use Prim.{tt}
use vita_mtp.Bytes.{ByteOrder, little, big, wire_bytes, htod32a, store}
use vita_mtp.Bytes.Layout.{split_at}
use vita_mtp.Cache.{rc_ok}
use vita_mtp.Transaction.{Container}
use vita_mtp.Transaction.Memory.{MemHandler, init_send_memory_handler, memory_getfunc}
use vita_mtp.Transaction.Memory.Gets.{Stands, memory_getfunc-Stands, take_more}
use vita_mtp.Wireless.{Sockets, start_data_packet, data_packet, end_data_packet}
use vita_mtp.Wireless.Stream.{send_all}
use vita_mtp.Wireless.Stream.Reads.{packet_bytes}
use vita_mtp.Wireless.Commands.{
  Connection, data_bytes, send_packets, senddata, start_bytes, write_blocksize,
}
use vita_mtp.Wireless.Commands.Data.{IsPiece, Piece, data_stream, phase_stream, together}
use vita_mtp.Wireless.Commands.Packets.{head_or, tail_or, taken_apart, taken_apart_lem}

-- What a stream socket promises, where `written` is what was sent up to a state: `send` takes a
-- front of the bytes, which is not empty. There is memory for the packets.
pub record Accepts {S : Type 0} (net : Sockets S) (fd : ℕ) (written : S → List ℕ) : Type 0 where
  pub takes :
      (s : S) (bytes : List ℕ)
      → 0 < length bytes
      → (n : ℕ) × ((net.send s fd bytes).1 ≡ some n)
        × (0 < n)
        × (n ≤ length bytes)
        × (written (net.send s fd bytes).0 ≡ written s ++ take n bytes)
  pub memory : (s : S) (n : ℕ) → net.has_memory s n ≡ true

take-drop : (n : ℕ) (xs : List ℕ) → take n xs ++ drop n xs ≡ xs
take-drop zero xs = refl
take-drop (suc n) [] = refl
take-drop (suc n) (x ∷ xs) = ap (λ ys. x ∷ ys) (take-drop n xs)

data_bytes_lem :
    (o : ByteOrder) (type id : ℕ) (front payload : List ℕ)
    → length front ≡ 12
    → length payload + 12 < 2 ^ 32
    → data_bytes o type id front payload ≡ some (packet_bytes o type (wire_bytes o 4 id ++ payload))
unfolding htod32a store wire_bytes taken_apart head_or tail_or
data_bytes_lem little type id front payload e k =
    let n : (length payload + 12) % 2 ^ 32 ≡ suc (suc (suc (suc (length payload)))) + 8 =
      omega (arith, k) in
    rw (sym (taken_apart_lem 12 front e), n) refl
data_bytes_lem big type id front payload e k =
    let n : (length payload + 12) % 2 ^ 32 ≡ suc (suc (suc (suc (length payload)))) + 8 =
      omega (arith, k) in
    rw (sym (taken_apart_lem 12 front e), n) refl

start_bytes_lem :
    (o : ByteOrder) (id size : ℕ) (buf : List ℕ)
    → length buf ≡ 20
    → size < 2 ^ 32
    → start_bytes o id size buf
      ≡ some (
          packet_bytes o start_data_packet
            (wire_bytes o 4 id ++ (wire_bytes o 4 size ++ wire_bytes o 4 0)))
unfolding htod32a store wire_bytes taken_apart head_or tail_or
start_bytes_lem little id size buf e k =
    let n : size % 2 ^ 32 ≡ size = omega (arith, k) in rw (sym (taken_apart_lem 20 buf e), n) refl
start_bytes_lem big id size buf e k =
    let n : size % 2 ^ 32 ≡ size = omega (arith, k) in rw (sym (taken_apart_lem 20 buf e), n) refl

start_length :
    (o : ByteOrder) (id size : ℕ)
    → length (
        packet_bytes o start_data_packet
          (wire_bytes o 4 id ++ (wire_bytes o 4 size ++ wire_bytes o 4 0)))
      ≡ 20
unfolding wire_bytes
start_length little id size = refl
start_length big id size = refl

-- The pieces that a sender makes: full ones, and a last one that is marked.
pub data IsCut : List Piece → Type 0 where
  cut_none : IsCut []
  cut_end : (bytes : List ℕ) → IsCut ((end_data_packet, bytes) ∷ [])
  cut_more :
      (bytes : List ℕ) (pieces : List Piece)
      → length bytes ≡ write_blocksize
      → 0 < length (together pieces)
      → IsCut pieces
      → IsCut ((data_packet, bytes) ∷ pieces)

module _ {S : Type 0} (net : Sockets S) (conn : Connection) (written : S → List ℕ)
    (ok : Accepts net conn.cmdfd written) where
  send_all-round :
      (fuel : ℕ) (s : S) (b : ℕ) (bs : List ℕ) {n : ℕ}
      → (net.send s conn.cmdfd (b ∷ bs)).1 ≡ some n
      → send_all net conn.cmdfd (suc fuel) s (b ∷ bs)
        ≡ send_all net conn.cmdfd fuel (net.send s conn.cmdfd (b ∷ bs)).0 (drop n (b ∷ bs))
  unfolding send_all
  send_all-round fuel s b bs e = rw (send_all, e) refl

  send_all_lem :
      (fuel : ℕ) (s : S) (bytes : List ℕ)
      → length bytes < fuel
      → (s' : S) × (send_all net conn.cmdfd fuel s bytes ≡ some (s', some 0))
        × (written s' ≡ written s ++ bytes)
  unfolding send_all
  send_all_lem zero s bytes k = absurd (omega arith)
  send_all_lem (suc fuel) s [] k = (s, refl, sym (append-nil (written s)))
  send_all_lem (suc fuel) s (b ∷ bs) k =
      let got = ok.takes s (b ∷ bs) (omega arith) in
      let n = got.0 in
      let s1 = (net.send s conn.cmdfd (b ∷ bs)).0 in
      let more =
        send_all_lem fuel s1 (drop n (b ∷ bs))
          (omega (arith, k, got.2, got.3, length-drop n (b ∷ bs))) in
      (
        more.0,
        send_all-round fuel s b bs got.1 ∙ more.1,
        more.2
            ∙ (ap (λ w. w ++ drop n (b ∷ bs)) got.4
                ∙ (append_assoc (written s) (take n (b ∷ bs)) (drop n (b ∷ bs))
                    ∙ ap (λ w. written s ++ w) (take-drop n (b ∷ bs)))),
      )

  -- How many bytes a packet takes, and its type.
  abbrev block_of : ℕ → ℕ
  block_of left = if ltb write_blocksize left then write_blocksize else left

  abbrev type_of : ℕ → ℕ
  type_of left = if ltb write_blocksize left then data_packet else end_data_packet

  -- One round of the loop for packets.
  send_packets-round :
      (fuel id left : ℕ) (s s' : S) (h h' : MemHandler) (bytes packet : List ℕ)
      → 0 < left
      → memory_getfunc h (block_of left) ≡ some (h', bytes)
      → data_bytes conn.byteorder (type_of left) id (conn.malloc 12) bytes ≡ some packet
      → send_all net conn.cmdfd (length packet + 1) s packet ≡ some (s', some 0)
      → send_packets net conn (suc fuel) id left s h
        ≡ send_packets net conn fuel id (left - block_of left) s' h'
  unfolding send_packets
  send_packets-round fuel id left s s' h h' bytes packet k get made sent =
      rw (==_false left 0 (λ z. omega (arith, z, k)), get, made, sent) refl

  send_packets-end :
      (fuel id left : ℕ) (s : S) (h : MemHandler)
      → left ≡ 0
      → 0 < fuel
      → send_packets net conn fuel id left s h ≡ some ((s, h), rc_ok)
  unfolding send_packets
  send_packets-end zero id left s h e k = absurd (omega arith)
  send_packets-end (suc fuel) id left s h e k = rw e refl

  -- What the loop does, for what is left of the data.
  pub record Sent (fuel id left : ℕ) (s : S) (h : MemHandler) (bytes : List ℕ) : Type 0 where
    pub state : S
    pub handler : MemHandler
    pub pieces : List Piece
    pub ran : send_packets net conn fuel id left s h ≡ some ((state, handler), rc_ok)
    pub wrote : written state ≡ written s ++ data_stream conn.byteorder id pieces
    pub whole : together pieces ≡ bytes
    pub typed : All IsPiece pieces
    pub cut : IsCut pieces

  -- A packet with the front of what is left.
  packet_of-Sent :
      (fuel id left type block : ℕ) (s : S) (h : MemHandler) (pre front back : List ℕ)
      → ((n : ℕ) → length (conn.malloc n) ≡ n)
      → Stands pre (front ++ back) h
      → 0 < left
      → block_of left ≡ block
      → type_of left ≡ type
      → length front ≡ block
      → length front ≤ write_blocksize
      → length pre + (length front + length back) + write_blocksize < 2 ^ 64
      → (s' : S) × (h' : MemHandler) × (send_packets net conn (suc fuel) id left s h
          ≡ send_packets net conn fuel id (left - block) s' h')
        × Stands (pre ++ front) back h'
        × (written s'
            ≡ written s
              ++ packet_bytes conn.byteorder type (wire_bytes conn.byteorder 4 id ++ front))
  packet_of-Sent fuel id left type block s h pre front back m stands k b t f l n =
      let got =
        memory_getfunc-Stands h pre front back (block_of left) stands (omega (arith, b, f, l, n))
          (inl (f ∙ sym b)) in
      let made =
        data_bytes_lem conn.byteorder type id (conn.malloc 12) front (m 12) (omega (arith, l)) in
      let packet = packet_bytes conn.byteorder type (wire_bytes conn.byteorder 4 id ++ front) in
      let sent = send_all_lem (length packet + 1) s packet (omega arith) in
      (
        sent.0,
        got.0,
        send_packets-round fuel id left s sent.0 h got.0 front packet k got.1
              (subst (λ x. data_bytes conn.byteorder x id (conn.malloc 12) front ≡ some packet)
                (sym t) made)
              sent.1
            ∙ ap (λ x. send_packets net conn fuel id (left - x) sent.0 got.0) b,
        got.2,
        sent.2,
      )

  -- From a full packet and the rest.
  Sent-more :
      (fuel id left : ℕ) (s s' : S) (h h' : MemHandler) (front back : List ℕ)
      → send_packets net conn (suc fuel) id left s h
        ≡ send_packets net conn fuel id (left - write_blocksize) s' h'
      → written s'
        ≡ written s
          ++ packet_bytes conn.byteorder data_packet (wire_bytes conn.byteorder 4 id ++ front)
      → length front ≡ write_blocksize
      → 0 < length back
      → Sent fuel id (left - write_blocksize) s' h' back
      → Sent (suc fuel) id left s h (front ++ back)
  Sent-more fuel id left s s' h h' front back e w l k more = record {
    state = more.state;
    handler = more.handler;
    pieces = (data_packet, front) ∷ more.pieces;
    ran = e ∙ more.ran;
    wrote =
        more.wrote
        ∙ (ap (λ x. x ++ data_stream conn.byteorder id more.pieces) w
            ∙ append_assoc (written s)
                (packet_bytes conn.byteorder data_packet (wire_bytes conn.byteorder 4 id ++ front))
                (data_stream conn.byteorder id more.pieces));
    whole = ap (λ x. front ++ x) more.whole;
    typed = (
      record { typed = inl refl; some_bytes = omega (arith, l); few_bytes = omega (arith, l) },
      more.typed,
    );
    cut = cut_more front more.pieces l (omega (arith, k, ap length more.whole)) more.cut;
  }

  -- From the last packet.
  Sent-last :
      (fuel id left : ℕ) (s s' : S) (h h' : MemHandler) (bytes : List ℕ)
      → send_packets net conn (suc fuel) id left s h
        ≡ send_packets net conn fuel id (left - left) s' h'
      → written s'
        ≡ written s
          ++ packet_bytes conn.byteorder end_data_packet (wire_bytes conn.byteorder 4 id ++ bytes)
      → 0 < fuel
      → 0 < length bytes
      → length bytes ≤ write_blocksize
      → Sent (suc fuel) id left s h bytes
  Sent-last fuel id left s s' h h' bytes e w f k l =
      let packet =
        packet_bytes conn.byteorder end_data_packet (wire_bytes conn.byteorder 4 id ++ bytes) in
      record {
        state = s';
        handler = h';
        pieces = (end_data_packet, bytes) ∷ [];
        ran = e ∙ send_packets-end fuel id (left - left) s' h' (omega arith) f;
        wrote = w ∙ ap (λ x. written s ++ x) (sym (append-nil packet));
        whole = append-nil bytes;
        typed = (record { typed = inr refl; some_bytes = k; few_bytes = omega (arith, l) }, tt);
        cut = cut_end bytes;
      }

  send_packets_lem :
      (fuel id left : ℕ) (s : S) (h : MemHandler) (pre bytes : List ℕ)
      → ((n : ℕ) → length (conn.malloc n) ≡ n)
      → Stands pre bytes h
      → left ≡ length bytes
      → length bytes < fuel
      → length pre + length bytes + write_blocksize < 2 ^ 64
      → Sent fuel id left s h bytes
  send_packets_lem zero id left s h pre bytes m stands e f n = absurd (omega arith)
  send_packets_lem (suc fuel) id left s h pre [] m stands e f n = record {
    state = s;
    handler = h;
    pieces = [];
    ran = send_packets-end (suc fuel) id left s h e (omega arith);
    wrote = sym (append-nil (written s));
    whole = refl;
    typed = tt;
    cut = cut_none;
  }
  send_packets_lem (suc fuel) id left s h pre (b ∷ bs) m stands e f n =
      elim (Bool-cases (ltb write_blocksize left)) [
        | inl more ↦
            let big : write_blocksize < left = ltb→lt write_blocksize left more in
            let parts = split_at write_blocksize (b ∷ bs) (omega (arith, big, e)) in
            let front = parts.0 in
            let back = parts.1 in
            let l = ap length parts.2 ∙ length-append front back in
            let got =
              packet_of-Sent fuel id left data_packet write_blocksize s h pre front back m
                (subst (λ x. Stands pre x h) parts.2 stands) (omega (arith, big)) (rw more refl)
                (rw more refl) parts.3 (omega (arith, parts.3)) (omega (arith, l, n)) in
            let rest =
              send_packets_lem fuel id (left - write_blocksize) got.0 got.1 (pre ++ front) back m
                got.3 (omega (arith, e, l, parts.3)) (omega (arith, f, l, parts.3))
                (omega (arith, n, l, length-append pre front)) in
            subst (λ x. Sent (suc fuel) id left s h x) (sym parts.2)
              (Sent-more fuel id left s got.0 h got.1 front back got.2 got.4 parts.3
                (omega (arith, big, e, l, parts.3)) rest)
        | inr fits ↦
            let small : left ≤ write_blocksize = ground (arith, fits) in
            let got =
              packet_of-Sent fuel id left end_data_packet left s h pre (b ∷ bs) [] m
                (subst (λ x. Stands pre x h) (sym (append-nil (b ∷ bs))) stands) (omega (arith, e))
                (rw fits refl) (rw fits refl) (sym e) (omega (arith, e, small))
                (omega (arith, n)) in
            Sent-last fuel id left s got.0 h got.1 (b ∷ bs) got.2 got.4 (omega (arith, f))
              (omega arith) (omega (arith, e, small))
      ]

  -- The packet in front of the data goes out as a whole.
  senddata-start :
      (s : S) (ptp : Container) (size n : ℕ) (h : MemHandler) (packet : List ℕ)
      → start_bytes conn.byteorder ptp.transaction_id size (conn.malloc 20) ≡ some packet
      → (net.send s conn.cmdfd packet).1 ≡ some n
      → n ≡ 20
      → senddata net conn s ptp size h
        ≡ send_packets net conn conn.fuel ptp.transaction_id size (net.send s conn.cmdfd packet).0 h
  unfolding senddata
  senddata-start s ptp size n h packet made sent e =
      rw (made, sent, e, ok.memory (net.send s conn.cmdfd packet).0 (write_blocksize + 12)) refl

  -- Where it returns OK, the packet did.
  senddata-started :
      (s s' : S) (ptp : Container) (size n : ℕ) (h h' : MemHandler) (packet : List ℕ)
      → start_bytes conn.byteorder ptp.transaction_id size (conn.malloc 20) ≡ some packet
      → (net.send s conn.cmdfd packet).1 ≡ some n
      → senddata net conn s ptp size h ≡ some ((s', h'), rc_ok)
      → n ≡ 20
  unfolding senddata
  senddata-started s s' ptp size n h h' packet made sent run = elim (Bool-cases (n == 20)) [
    | inl whole ↦ (==_iff n 20).0 whole
    | inr part ↦ absurd (
        omega (
          arith,
          ap (λ (w : (S × MemHandler) × ℕ). w.1)
              (some-injective _ _ (rw (made, sent, part) at run)),
        ))
  ]

  abbrev start_packet : Container → ℕ → List ℕ
  start_packet ptp size = packet_bytes conn.byteorder start_data_packet (
      wire_bytes conn.byteorder 4 ptp.transaction_id
      ++ (wire_bytes conn.byteorder 4 size ++ wire_bytes conn.byteorder 4 0))

  first_send :
      (s : S) (ptp : Container) (size : ℕ)
      → (n : ℕ) × ((net.send s conn.cmdfd (start_packet ptp size)).1 ≡ some n)
        × (0 < n)
        × (n ≤ length (start_packet ptp size))
        × (written (net.send s conn.cmdfd (start_packet ptp size)).0
            ≡ written s ++ take n (start_packet ptp size))
  first_send s ptp size =
      ok.takes s (start_packet ptp size)
        (omega (arith, start_length conn.byteorder ptp.transaction_id size))

  senddata_whole :
      (s : S) (ptp : Container) (bytes : List ℕ)
      → ((n : ℕ) → length (conn.malloc n) ≡ n)
      → length bytes < 2 ^ 32
      → length bytes < conn.fuel
      → (net.send s conn.cmdfd (start_packet ptp (length bytes))).1 ≡ some 20
      → (s' : S) × (h' : MemHandler) × (pieces : List Piece) × (senddata net conn s ptp
            (length bytes)
            (init_send_memory_handler (some bytes) (length bytes))
          ≡ some ((s', h'), rc_ok))
        × (written s' ≡ written s ++ phase_stream conn.byteorder ptp.transaction_id 0 pieces)
        × (together pieces ≡ bytes)
        × All IsPiece pieces
        × IsCut pieces
  senddata_whole s ptp bytes m k f at_once =
      let o = conn.byteorder in
      let id = ptp.transaction_id in
      let size = length bytes in
      let body = wire_bytes o 4 id ++ (wire_bytes o 4 size ++ wire_bytes o 4 0) in
      let packet = packet_bytes o start_data_packet body in
      let n : length packet ≡ 20 = start_length o id size in
      let first = first_send s ptp size in
      let all : first.0 ≡ 20 = some-injective _ _ (sym first.1 ∙ at_once) in
      let s1 = (net.send s conn.cmdfd packet).0 in
      let out : written s1 ≡ written s ++ packet =
        first.4 ∙ ap (λ x. written s ++ x) (take_more packet first.0 (omega (arith, n, all))) in
      let h = init_send_memory_handler (some bytes) size in
      let rest =
        send_packets_lem conn.fuel id size s1 h [] bytes m (refl, omega arith, refl) refl f
          (omega (arith, k)) in
      (
        rest.state,
        rest.handler,
        rest.pieces,
        senddata-start s ptp size first.0 h packet
              (start_bytes_lem o id size (conn.malloc 20) (m 20) k) first.1 all
            ∙ rest.ran,
        rest.wrote
            ∙ (ap (λ x. x ++ data_stream o id rest.pieces) out
                ∙ (append_assoc (written s) packet (data_stream o id rest.pieces)
                    ∙ ap
                        (λ x.
                          written s
                          ++ (packet_bytes o start_data_packet
                                (wire_bytes o 4 id ++ (wire_bytes o 4 x ++ wire_bytes o 4 0))
                              ++ data_stream o id rest.pieces))
                        (sym (ap length rest.whole)))),
        rest.whole,
        rest.typed,
        rest.cut,
      )

  -- `ptp_ptpip_senddata` of a block that is shorter than 2^32 bytes, over a connection that takes
  -- some bytes at each `send`, the first 20 at once: it returns OK, and what it has written are the
  -- packets of a data phase that holds the bytes of the block in order, cut into packets of
  -- `WRITE_BLOCKSIZE` bytes and a last one, which alone is marked as the end. `malloc` succeeds, and
  -- the fuel exceeds the number of bytes.
  pub senddata_lem :
      (s : S) (ptp : Container) (bytes : List ℕ)
      → ((n : ℕ) → length (conn.malloc n) ≡ n)
      → length bytes < 2 ^ 32
      → length bytes < conn.fuel
      → ((s : S) (packet : List ℕ)
          → length packet ≡ 20
          → (net.send s conn.cmdfd packet).1 ≡ some 20)
      → (s' : S) × (h' : MemHandler) × (pieces : List Piece) × (senddata net conn s ptp
            (length bytes)
            (init_send_memory_handler (some bytes) (length bytes))
          ≡ some ((s', h'), rc_ok))
        × (written s' ≡ written s ++ phase_stream conn.byteorder ptp.transaction_id 0 pieces)
        × (together pieces ≡ bytes)
        × All IsPiece pieces
        × IsCut pieces
  senddata_lem s ptp bytes m k f at_once = senddata_whole s ptp bytes m k f (
      at_once s (start_packet ptp (length bytes))
        (start_length conn.byteorder ptp.transaction_id (length bytes)))

  -- What it has written, when it returns OK.
  pub senddata_written :
      (s s' : S) (h' : MemHandler) (ptp : Container) (bytes : List ℕ)
      → ((n : ℕ) → length (conn.malloc n) ≡ n)
      → length bytes < 2 ^ 32
      → length bytes < conn.fuel
      → senddata net conn s ptp
          (length bytes)
          (init_send_memory_handler (some bytes) (length bytes))
        ≡ some ((s', h'), rc_ok)
      → (pieces : List Piece) × (written s'
          ≡ written s ++ phase_stream conn.byteorder ptp.transaction_id 0 pieces)
        × (together pieces ≡ bytes)
        × All IsPiece pieces
  senddata_written s s' h' ptp bytes m k f run =
      let size = length bytes in
      let first = first_send s ptp size in
      let all : first.0 ≡ 20 =
        senddata-started s s' ptp size first.0 (init_send_memory_handler (some bytes) size) h'
          (start_packet ptp size)
          (start_bytes_lem conn.byteorder ptp.transaction_id size (conn.malloc 20) (m 20) k) first.1
          run in
      let sent = senddata_whole s ptp bytes m k f (first.1 ∙ ap some all) in
      let state : sent.0 ≡ s' = ap (λ w. w.0.0) (some-injective _ _ (sym sent.3 ∙ run)) in
      (sent.2, ap written (sym state) ∙ sent.4, sent.5, sent.6)
