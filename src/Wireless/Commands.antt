-- ===== src/Wireless/Commands.antt =====
-- The transport functions over PTP/IP of src/wireless.c, as the record of functions that
-- transactions run over. The state of that transport is the state of the sockets, or `none` behind
-- a fault or where fuel ran out.
pub mod Data
pub mod Packets
pub mod RoundTrip
pub mod Sends
pub mod Tests
pub mod Whole
use vita_mtp.Base.{
  ℕ, zero, suc, ◌+◌, ◌-◌, ◌*◌, ◌/◌, ◌%◌, ◌^◌, Bool, true, false, not, ◌&&◌, ◌||◌, Option, none,
  some, ◌>>=◌, List, [], ◌∷◌, ◌++◌, ltb, leb, ◌==◌, if◌then◌else◌, length,
}
use vita_mtp.Bytes.{ByteOrder, fetch, dtoh16a, dtoh32a, htod16a, htod32a}
use vita_mtp.Cache.{rc_ok, rc_general_error}
use vita_mtp.Transaction.{Container, Transport}
use vita_mtp.Transaction.Memory.{MemHandler, memory_getfunc, memory_putfunc}
use vita_mtp.Wireless.{
  Sockets, Packet, cmd_request, cmd_response, start_data_packet, data_packet, end_data_packet,
}
use vita_mtp.Wireless.Stream.{generic_read, send_all}

abbrev pub write_blocksize : ℕ
write_blocksize = 32756

-- What does not change for a connection: `params->cmdfd`, the byte order, what `malloc` returns for
-- a request and `realloc` for a handler that is to take so many bytes more, and fuel for the
-- packets of one data phase.
pub record Connection : Type 0 where
  pub cmdfd : ℕ
  pub byteorder : ByteOrder
  pub malloc : ℕ → List ℕ
  pub realloc : MemHandler → ℕ → Option (List ℕ)
  pub fuel : ℕ

-- A case `k` of a `switch` on `n` from 5 downwards, which the cases above fall through to.
abbrev pub in_case : ℕ → ℕ → Bool
in_case k n = leb k n && leb n 5

-- A parameter at an offset, for a case that is reached.
abbrev pub put_if : ByteOrder → Bool → ℕ → ℕ → List ℕ → Option (List ℕ)
put_if o true offset x buf = htod32a o buf offset x
put_if o false offset x buf = some buf

abbrev pub read_if : ByteOrder → Bool → ℕ → ℕ → List ℕ → Option ℕ
read_if o true offset x buf = dtoh32a o buf offset
read_if o false offset x buf = some x

-- The request that `ptp_ptpip_sendreq` makes, by `req->Nparam`.
unfoldable pub request_bytes : ByteOrder → (ℕ → List ℕ) → Container → ℕ → Option (List ℕ)
request_bytes o malloc req nparam = do
  let len : ℕ = (18 + nparam * 4) % 2 ^ 32
  buf ← htod32a o (malloc len) 4 cmd_request
  buf ← htod32a o buf 0 len
  buf ← htod32a o buf 8 1
  buf ← htod16a o buf 12 req.code
  buf ← htod32a o buf 14 req.transaction_id
  buf ← put_if o (in_case 5 nparam) 34 req.param5 buf
  buf ← put_if o (in_case 4 nparam) 30 req.param4 buf
  buf ← put_if o (in_case 3 nparam) 26 req.param3 buf
  buf ← put_if o (in_case 2 nparam) 22 req.param2 buf
  put_if o (in_case 1 nparam) 18 req.param1 buf

-- The container that `ptp_ptpip_getresp` fills from a packet. A packet with a response has 14 bytes
-- and its parameters.
unfoldable pub response_of : ByteOrder → Packet → Container → Option Container
response_of o packet resp = do
  let buf = packet.payload
  code ← dtoh16a o buf 0
  transaction_id ← dtoh32a o buf 2
  let n : ℕ = ((packet.length + 2 ^ 64 - 14) % 2 ^ 64 / 4) % 2 ^ 32
  param5 ← read_if o (in_case 5 n) 22 resp.param5 buf
  param4 ← read_if o (in_case 4 n) 18 resp.param4 buf
  param3 ← read_if o (in_case 3 n) 14 resp.param3 buf
  param2 ← read_if o (in_case 2 n) 10 resp.param2 buf
  param1 ← read_if o (in_case 1 n) 6 resp.param1 buf
  some (record resp {
    code = code;
    transaction_id = transaction_id;
    param1 = param1;
    param2 = param2;
    param3 = param3;
    param4 = param4;
    param5 = param5;
  })

-- The packet in front of the data, and those with data.
abbrev pub start_bytes : ByteOrder → ℕ → ℕ → List ℕ → Option (List ℕ)
start_bytes o id size buf = do
  buf ← htod32a o buf 4 start_data_packet
  buf ← htod32a o buf 0 20
  buf ← htod32a o buf 8 id
  buf ← htod32a o buf 12 (size % 2 ^ 32)
  htod32a o buf 16 0

abbrev pub data_bytes : ByteOrder → ℕ → ℕ → List ℕ → List ℕ → Option (List ℕ)
data_bytes o type id front payload = do
  buf ← htod32a o front 4 type
  buf ← htod32a o buf 0 ((length payload + 12) % 2 ^ 32)
  buf ← htod32a o buf 8 id
  some (buf ++ payload)

module _ {S : Type 0} (net : Sockets S) (conn : Connection) where
  -- `ptp_ptpip_sendreq`, which returns OK whatever `send` does.
  unfoldable pub sendreq : S → Container → Option (S × ℕ)
  unfolding request_bytes
  sendreq s req = request_bytes conn.byteorder conn.malloc req req.nparam >>= λ request.
      some ((net.send s conn.cmdfd request).0, rc_ok)

  -- `ptp_ptpip_getresp`.
  unfoldable pub getresp : S → Container → Option ((S × Container) × ℕ)
  unfolding response_of
  getresp s resp = generic_read net conn.cmdfd conn.byteorder s >>= λ r. elim r.1 [
    | none ↦ some ((r.0, resp), rc_general_error)
    | some packet ↦ response_of conn.byteorder packet resp >>= λ resp. some ((r.0, resp), rc_ok)
  ]

  -- The loop `while (curwrite < size)` of `ptp_ptpip_senddata`, for `left` bytes to go.
  unfoldable pub send_packets : ℕ → ℕ → ℕ → S → MemHandler → Option ((S × MemHandler) × ℕ)
  send_packets zero id left s h = none
  send_packets (suc fuel) id left s h =
      let towrite : ℕ = if ltb write_blocksize left then write_blocksize else left in
      let type : ℕ = if ltb write_blocksize left then data_packet else end_data_packet in
      let packet : Option (MemHandler × List ℕ) = memory_getfunc h towrite >>= λ g.
      data_bytes conn.byteorder type id (conn.malloc 12) g.1 >>= λ bytes. some (g.0, bytes) in
      let written : Option (MemHandler × S × Option ℕ) = packet >>= λ g.
      send_all net conn.cmdfd (length g.1 + 1) s g.1 >>= λ r. some (g.0, r.0, r.1) in
      let more : S → MemHandler → Option ((S × MemHandler) × ℕ) =
        (λ s h. send_packets fuel id (left - towrite) s h) in
      if left == 0
      then some ((s, h), rc_ok)
      else (written >>= λ w. elim w.2 [
        | none ↦ some ((w.1, w.0), rc_general_error)
        | some n ↦ more w.1 w.0
      ])

  -- `ptp_ptpip_senddata`. The local array has 20 bytes, which are all written.
  unfoldable pub senddata : S → Container → ℕ → MemHandler → Option ((S × MemHandler) × ℕ)
  unfolding send_packets
  senddata s ptp size h =
      start_bytes conn.byteorder ptp.transaction_id size (conn.malloc 20) >>= λ request.
      let r = net.send s conn.cmdfd request in
      let rest = send_packets conn.fuel ptp.transaction_id size r.0 h in
      elim r.1 [
        | none ↦ some ((r.0, h), rc_general_error)
        | some n ↦
            let packets =
              if net.has_memory r.0 (write_blocksize + 12)
              then rest
              else some ((r.0, h), rc_general_error) in
            if n == 20 then packets else some ((r.0, h), rc_general_error)
      ]

  -- The loop `while (curread < toread)` of `ptp_ptpip_getdata`, for `left` bytes to go. A handler
  -- that fails is a fault: `written` is then not set.
  unfoldable pub get_packets : ℕ → ℕ → S → MemHandler → Option ((S × MemHandler) × ℕ)
  get_packets zero left s h = none
  get_packets (suc fuel) left s h =
      let more : ℕ → S → MemHandler → Option ((S × MemHandler) × ℕ) =
        (λ left s h. get_packets fuel left s h) in
      let packet = generic_read net conn.cmdfd conn.byteorder s >>= λ r. elim r.1 [
        | none ↦ some ((r.0, h), rc_general_error)
        | some packet ↦
            let datalen : ℕ = (packet.length + 2 ^ 32 - 12) % 2 ^ 32 in
            let put = fetch packet.payload 4 datalen >>= λ bytes.
            memory_putfunc h bytes (conn.realloc h datalen) >>= λ q.
            let next = more (left - datalen) r.0 q.0 in if q.1 == rc_ok then next else none in
            let skipped = more left r.0 h in
            if (packet.type == end_data_packet) || (packet.type == data_packet)
            then (if ltb left datalen then some ((r.0, h), rc_general_error) else put)
            else skipped
      ] in
      if left == 0 then some ((s, h), rc_ok) else packet

  -- `ptp_ptpip_getdata`. The message about a response in place of data, which is logged unless
  -- errors are masked out, reads from the packet.
  unfoldable pub getdata : S → Container → MemHandler → Option ((S × MemHandler) × ℕ)
  unfolding get_packets
  getdata s ptp h = generic_read net conn.cmdfd conn.byteorder s >>= λ r. elim r.1 [
    | none ↦ some ((r.0, h), rc_general_error)
    | some packet ↦
        let refused : Option ((S × MemHandler) × ℕ) = some ((r.0, h), rc_general_error) in
        let logged = dtoh32a conn.byteorder packet.payload 8 >>= λ code. refused in
        let got = dtoh32a conn.byteorder packet.payload 4 >>= λ toread.
        get_packets conn.fuel toread r.0 h in
        if packet.type == cmd_response
        then logged
        else if not (packet.type == start_data_packet)
        then refused
        else got
  ]

  abbrev pub or_lost : {A : Type 0} → A → Option ((S × A) × ℕ) → (Option S × A) × ℕ
  or_lost a none = ((none, a), rc_general_error)
  or_lost a (some r) = ((some r.0.0, r.0.1), r.1)

  abbrev pub or_lost_request : Option (S × ℕ) → Option S × ℕ
  or_lost_request none = (none, rc_general_error)
  or_lost_request (some r) = (some r.0, r.1)

  -- The functions that `VitaMTP_Data_Connect` sets. It sets no function to cancel a request, so a
  -- call of that is a fault.
  abbrev pub ptpip : Transport (Option S) MemHandler
  ptpip = record {
    sendreq = λ t ptp. or_lost_request (t >>= λ s. sendreq s ptp);
    senddata = λ t ptp size h. or_lost h (t >>= λ s. senddata s ptp size h);
    getdata = λ t ptp h. or_lost h (t >>= λ s. getdata s ptp h);
    getresp = λ t ptp. or_lost ptp (t >>= λ s. getresp s ptp);
    cancelreq = λ t id. (none, rc_general_error);
  }
