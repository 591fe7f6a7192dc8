-- ===== src/Transaction/Memory.antt =====
-- The data handler over memory of src/ptp.c, and `ptp_transaction` with it.
pub mod Gets
pub mod Puts
use mathlib.Core.Option
use vita_mtp.Base.{
  ℕ, ◌+◌, ◌-◌, ◌%◌, ◌^◌, bit_and, Option, none, some, ◌>>=◌, List, [], ◌∷◌, ◌++◌, ltb, ◌==◌,
  if◌then◌else◌, length,
}
use vita_mtp.Bytes.{fetch, store}
use vita_mtp.Cache.{rc_ok, rc_general_error}
use vita_mtp.Transaction.{Container, Transport, Session, Result, transaction_new}

-- `PTPMemHandlerPrivate`; a null pointer is `none`.
pub record MemHandler : Type 0 where
  pub block : Option (List ℕ)
  pub size : ℕ
  pub curoff : ℕ

abbrev pub bytes_of : Option (List ℕ) → List ℕ
bytes_of none = []
bytes_of (some bs) = bs

-- `memory_getfunc`: the bytes that it copies, as many as `*gotlen` says. `none` is a read out of
-- the block. An unsigned long has 64 bits.
unfoldable pub memory_getfunc : MemHandler → ℕ → Option (MemHandler × List ℕ)
memory_getfunc p wantlen =
    let tocopy : ℕ =
      if ltb p.size ((p.curoff + wantlen) % 2 ^ 64)
      then (p.size + 2 ^ 64 - p.curoff) % 2 ^ 64
      else wantlen in
    fetch (bytes_of p.block) p.curoff tocopy >>= λ bytes.
    some (record { block = p.block; size = p.size; curoff = (p.curoff + tocopy) % 2 ^ 64 }, bytes)

-- The `memcpy` of `memory_putfunc`, and what follows it.
unfoldable pub put_at : MemHandler → List ℕ → Option (MemHandler × ℕ)
put_at p bytes = store (bytes_of p.block) p.curoff bytes >>= λ buf. some (
  record {
    block = Option.map (λ _. buf) p.block;
    size = p.size;
    curoff = (p.curoff + length bytes) % 2 ^ 64;
  },
  rc_ok,
)

-- `memory_putfunc` of `sendlen` bytes. `room` is what the block that `realloc` returns holds behind
-- the old bytes, or `none` where it fails. `none` is a write out of the block.
unfoldable pub memory_putfunc : MemHandler → List ℕ → Option (List ℕ) → Option (MemHandler × ℕ)
memory_putfunc p bytes room =
    let new_size : ℕ = (p.curoff + length bytes) % 2 ^ 64 in
    if ltb p.size new_size
    then elim room [
      | none ↦ some (record { block = none; size = p.size; curoff = p.curoff }, rc_general_error)
      | some fresh ↦
          put_at
            (record {
              block = some (bytes_of p.block ++ fresh);
              size = new_size;
              curoff = p.curoff;
            })
            bytes
    ]
    else put_at p bytes

-- `ptp_init_recv_memory_handler` and `ptp_init_send_memory_handler`; `malloc` is taken to succeed,
-- as their callers do.
abbrev pub init_recv_memory_handler : MemHandler
init_recv_memory_handler = record { block = none; size = 0; curoff = 0 }

abbrev pub init_send_memory_handler : Option (List ℕ) → ℕ → MemHandler
init_send_memory_handler bytes len = record { block = bytes; size = len; curoff = 0 }

-- `ptp_exit_recv_memory_handler`: `*data` and `*size`.
abbrev pub exit_recv_memory_handler : MemHandler → Option (List ℕ) × ℕ
exit_recv_memory_handler p = (p.block, p.size)

-- `ptp_transaction`: the result, with `*data` and `*recvlen` after it. `unset` is the handler that
-- is passed on when it was not set up.
unfoldable pub transaction :
    {T : Type 0}
    → Transport T MemHandler
    → ℕ
    → MemHandler
    → Session
    → Container
    → ℕ
    → ℕ
    → Option (List ℕ)
    → ℕ
    → T
    → Option (Result T MemHandler × Option (List ℕ) × ℕ)
transaction tr fuel unset s ptp flags sendlen bytes recvlen t =
    let phase : ℕ = bit_and flags 0xff in
    let handler =
      if phase == 1
      then init_send_memory_handler bytes sendlen
      else if phase == 2
      then init_recv_memory_handler
      else unset in
    transaction_new tr fuel s ptp flags sendlen t handler >>= λ r. some (
      if phase == 2
      then (
        r,
        (exit_recv_memory_handler r.handler).0,
        (exit_recv_memory_handler r.handler).1 % 2 ^ 32,
      )
      else (r, bytes, recvlen))
