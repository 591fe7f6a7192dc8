-- ===== src/Vita.antt =====
-- The operations on the device of src/vitamtp.c, over the transactions and over
-- `VitaMTP_SendData` and `VitaMTP_GetData` of src/device.c.
pub mod Codes
pub mod Requests
pub mod Sends
mod Tests
pub mod Gets
pub mod Exchange
pub mod Objects
use vita_mtp.Base.{ℕ, Option, none, some, ◌>>=◌, List}
use vita_mtp.Bytes.{ByteOrder}
use vita_mtp.Transaction.{Container, Transport, Session}
use vita_mtp.Transaction.Memory.{MemHandler, transaction}

-- What of a device does not change: the functions of its `PTPParams`, the fuel for the replies to
-- one request, the handler that `ptp_transaction` leaves unset where there is no data, and the byte
-- order of the computer.
pub record Device (T : Type 0) : Type 0 where
  pub functions : Transport T MemHandler
  pub fuel : ℕ
  pub unset : MemHandler
  pub host : ByteOrder

-- What changes: the session and the state of the transport.
pub record Link (T : Type 0) : Type 0 where
  pub session : Session
  pub transport : T

-- How an operation ends: what it leaves, the code that it returns, and what it fills in. A
-- missing one is a fault, or replies that the fuel is not enough for.
pub record Outcome (T A : Type 0) : Type 0 where
  pub link : Link T
  pub code : ℕ
  pub value : A

-- What `ptp_transaction` fills in: the container, `*data` and `*recvlen`.
pub record Received : Type 0 where
  pub container : Container
  pub block : Option (List ℕ)
  pub len : ℕ

-- `PTP_CNT_INIT`.
abbrev pub cnt_init : Container
cnt_init = record {
  code = 0;
  session_id = 0;
  transaction_id = 0;
  param1 = 0;
  param2 = 0;
  param3 = 0;
  param4 = 0;
  param5 = 0;
  nparam = 0;
}

abbrev pub dp_nodata : ℕ
dp_nodata = 0

abbrev pub dp_senddata : ℕ
dp_senddata = 1

abbrev pub dp_getdata : ℕ
dp_getdata = 2

-- `ptp_transaction(params, &ptp, flags, sendlen, &data, &len)` on the parameters of a device.
unfoldable pub perform :
    {T : Type 0}
    → Device T
    → Container
    → ℕ
    → ℕ
    → Option (List ℕ)
    → Link T
    → Option (Outcome T Received)
perform dev ptp flags sendlen block k =
    transaction dev.functions dev.fuel dev.unset k.session ptp flags sendlen block 0 k.transport
    >>= λ r. some (record {
      link = record { session = r.0.session; transport = r.0.transport };
      code = r.0.code;
      value = record { container = r.0.container; block = r.1; len = r.2 };
    })

-- The container of a request with the id of an event.
abbrev pub event_request : ℕ → ℕ → Container
event_request code event_id = record cnt_init { code = code; nparam = 1; param1 = event_id }

module _ {T : Type 0} (dev : Device T) (k : Link T) (event_id code : ℕ) where
  -- `VitaMTP_SendData`: a block of memory and how much of it is sent.
  unfoldable pub send_data : Option (List ℕ) → ℕ → Option (Outcome T Received)
  unfolding perform
  send_data block len = perform dev (event_request code event_id) dp_senddata len block k

  -- `VitaMTP_GetData`. The length is set whether the caller wants it or not.
  unfoldable pub get_data : Option (Outcome T Received)
  unfolding perform
  get_data = perform dev (event_request code event_id) dp_getdata 0 none k
