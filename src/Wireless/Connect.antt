-- ===== src/Wireless/Connect.antt =====
-- Connecting in src/wireless.c: the two sockets of PTP/IP, its four packets at the start, events,
-- and the session.
pub mod Closing
use vita_mtp.Base.{
  ℕ, zero, suc, ◌+◌, ◌-◌, ◌*◌, ◌/◌, ◌%◌, ◌^◌, Bool, not, ◌&&◌, Option, none, some, ◌>>=◌, List, leb,
  ◌==◌, if◌then◌else◌, replicate, true, false,
}
use vita_mtp.Bytes.{ByteOrder, little, store, dtoh16a, dtoh32a, htod32a}
use vita_mtp.Cache.{rc_ok, rc_general_error}
use vita_mtp.Transaction.{Container, Session, Transport, oc_open_session, transaction_new}
use vita_mtp.Transaction.Memory.{MemHandler}
use vita_mtp.Vita.{event_request}
use vita_mtp.Wireless.{
  Sockets, Packet, event, init_command_ack, init_command_request, init_event_ack,
  init_event_request,
}
use vita_mtp.Wireless.Commands.{Connection, ptpip, read_if}
use vita_mtp.Wireless.Stream.{generic_read}

-- The functions of the operating system for sockets themselves: `socket`, `connect` to a port, which
-- may fail, `close`, and `select` with the shortest timeout.
pub record Dialing (S : Type 0) : Type 0 where
  pub socket : S → S × Option ℕ
  pub connect : S → ℕ → ℕ → S × Bool
  pub close : S → ℕ → S
  pub ready : S → ℕ → S × Bool

-- `params->cmdfd`, `params->evtfd` and `params->eventpipeid`.
pub record Pipe : Type 0 where
  pub cmdfd : ℕ
  pub evtfd : ℕ
  pub eventpipeid : ℕ

-- The container of an event: at most three parameters.
abbrev pub in_case_of_3 : ℕ → ℕ → Bool
in_case_of_3 k n = leb k n && leb n 3

unfoldable pub event_of : ByteOrder → Packet → Container → Option Container
event_of o packet event = do
  let buf = packet.payload
  code ← dtoh16a o buf 0
  transaction_id ← dtoh32a o buf 2
  let n : ℕ = ((packet.length + 2 ^ 64 - 14) % 2 ^ 64 / 4) % 2 ^ 32
  param3 ← read_if o (in_case_of_3 3 n) 14 event.param3 buf
  param2 ← read_if o (in_case_of_3 2 n) 10 event.param2 buf
  param1 ← read_if o (in_case_of_3 1 n) 6 event.param1 buf
  some (record event {
    code = code;
    transaction_id = transaction_id;
    param1 = param1;
    param2 = param2;
    param3 = param3;
  })

module _ {S : Type 0} (net : Sockets S) (o : ByteOrder) (malloc : ℕ → List ℕ) where
  -- A packet that is to be sent at once.
  abbrev pub send_whole : ℕ → ℕ → List ℕ → S → S × ℕ
  send_whole fd len packet s =
      let r = net.send s fd packet in
      (
        r.0,
        elim r.1 [
          | none ↦ rc_general_error
          | some n ↦ if n == len then rc_ok else rc_general_error
        ],
      )

  unfoldable pub command_request : Option (List ℕ)
  command_request = do
    buf ← htod32a o (malloc 24) 4 init_command_request
    buf ← htod32a o buf 0 24
    store buf 8 (replicate 16 0)

  unfoldable pub event_request_packet : ℕ → Option (List ℕ)
  event_request_packet id = do
    buf ← htod32a o (malloc 12) 4 init_event_request
    buf ← htod32a o buf 0 12
    htod32a o buf 8 id

  unfoldable pub send_command_request : ℕ → S → Option (S × ℕ)
  unfolding command_request
  send_command_request fd s = command_request >>= λ packet. some (send_whole fd 24 packet s)

  unfoldable pub send_event_request : ℕ → ℕ → S → Option (S × ℕ)
  unfolding event_request_packet
  send_event_request fd id s =
      event_request_packet id >>= λ packet. some (send_whole fd 12 packet s)

  -- An answer of a type, by what is read of it; `none` in the result is an error.
  abbrev pub answer_of : ℕ → (List ℕ → Option ℕ) → S × Option Packet → Option (S × Option ℕ)
  answer_of type read (s, none) = some (s, none)
  answer_of type read (s, some packet) =
      let value = read packet.payload >>= λ x. some (s, some x) in
      if packet.type == type then value else some (s, none)

  -- `ptp_ptpip_init_command_ack` and `ptp_ptpip_init_event_ack`.
  unfoldable pub command_ack : ℕ → S → Option (S × Option ℕ)
  command_ack fd s = generic_read net fd o s >>= answer_of init_command_ack (λ buf. dtoh32a o buf 0)

  unfoldable pub event_ack : ℕ → S → Option (S × Option ℕ)
  event_ack fd s = generic_read net fd o s >>= answer_of init_event_ack (λ buf. some 0)

  -- The four packets: `params->eventpipeid`, or `none` where one of them fails.
  unfoldable pub handshake : ℕ → ℕ → S → Option (S × Option ℕ)
  handshake cmd evt s = send_command_request cmd s >>= λ a.
      let acknowledged = command_ack cmd a.0 >>= λ b. elim b.1 [
        | none ↦ some (b.0, none)
        | some id ↦ send_event_request evt id b.0 >>= λ c.
            let done = event_ack evt c.0 >>= λ d. elim d.1 [
              | none ↦ some (d.0, none)
              | some x ↦ some (d.0, some id)
            ] in
            if c.1 == rc_ok then done else some (c.0, none)
      ] in
      if a.1 == rc_ok then acknowledged else some (a.0, none)

  module _ (dial : Dialing S) where
    -- What each failure behind the second socket does.
    abbrev pub close_both : ℕ → ℕ → S → S
    close_both cmd evt s = dial.close (dial.close s cmd) evt

    abbrev pub or_close : ℕ → ℕ → S × Option ℕ → S × Option Pipe
    or_close cmd evt (s, none) = (close_both cmd evt s, none)
    or_close cmd evt (s, some id) =
        (s, some (record { cmdfd = cmd; evtfd = evt; eventpipeid = id }))

    unfoldable pub connect_both : ℕ → ℕ → ℕ → S → Option (S × Option Pipe)
    unfolding handshake
    connect_both port cmd evt s =
        let a = dial.connect s cmd port in
        let b = dial.connect a.0 evt port in
        let done = handshake cmd evt b.0 >>= λ r. some (or_close cmd evt r) in
        if not a.1
        then some (close_both cmd evt a.0, none)
        else if not b.1
        then some (close_both cmd evt b.0, none)
        else done

    -- `VitaMTP_PTPIP_Connect`; `none` in the result is -1.
    unfoldable pub ptpip_connect : ℕ → S → Option (S × Option Pipe)
    unfolding connect_both
    ptpip_connect port s =
        let c = dial.socket s in
        let e = dial.socket c.0 in
        elim c.1 [
          | none ↦ some (c.0, none)
          | some cmd ↦ elim e.1 [
            | none ↦ some (dial.close e.0 cmd, none)
            | some evt ↦ connect_both port cmd evt e.0
          ]
        ]

    -- `ptp_ptpip_event`: with `fast`, only where the socket is ready. `none` is a fault, or that
    -- the fuel for the packets that it skips ran out.
    unfoldable pub next_event : ℕ → Bool → ℕ → S → Container → Option ((S × Container) × ℕ)
    next_event zero fast fd s container = none
    next_event (suc fuel) fast fd s container =
        let w : S × Bool = if fast then dial.ready s fd else (s, true) in
        let again : S → Option ((S × Container) × ℕ) = (λ s. next_event fuel fast fd s container) in
        let read = generic_read net fd o w.0 >>= λ r. elim r.1 [
          | none ↦ some ((r.0, container), rc_general_error)
          | some packet ↦
              let taken = event_of o packet container >>= λ c. some ((r.0, c), rc_ok) in
              let skipped = again r.0 in if packet.type == event then taken else skipped
        ] in
        if w.1 then read else some ((w.0, container), rc_ok)

    abbrev pub event_check : ℕ → ℕ → S → Container → Option ((S × Container) × ℕ)
    event_check fuel fd s container = next_event fuel true fd s container

    abbrev pub event_wait : ℕ → ℕ → S → Container → Option ((S × Container) × ℕ)
    event_wait fuel fd s container = next_event fuel false fd s container

-- `ptp_opensession`: the session, the state of the transport, and the code.
unfoldable pub open_session :
    {T : Type 0} → Transport T MemHandler → ℕ → MemHandler → ℕ → T → Option (Session × T × ℕ)
open_session tr fuel unset id t =
    transaction_new tr fuel (record { transaction_id = 0; session_id = 0 })
      (event_request oc_open_session id) 0 0 t unset
    >>= λ r.
        some (
          record { transaction_id = r.session.transaction_id; session_id = id },
          r.transport,
          r.code,
        )

-- `VitaMTP_Data_Connect`, behind `malloc` and `iconv_open`: what is open, or `none` for -1. `setup` is
-- what the connection needs beside the socket and the byte order.
unfoldable pub data_connect :
    {S : Type 0}
    → Sockets S
    → Dialing S
    → Connection
    → ℕ
    → MemHandler
    → ℕ
    → S
    → Option (S × Option (Pipe × Session))
unfolding ptpip_connect open_session
data_connect net dial setup fuel unset port s =
    ptpip_connect net little setup.malloc dial port s >>= λ r. elim r.1 [
      | none ↦ some (r.0, none)
      | some pipe ↦
          open_session (ptpip net (record setup { cmdfd = pipe.cmdfd; byteorder = little })) fuel
            unset 1 (some r.0)
          >>= λ q. q.1 >>= λ s. some (s, if q.2 == rc_ok then some (pipe, q.0) else none)
    ]
