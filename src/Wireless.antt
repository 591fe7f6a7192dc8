-- ===== src/Wireless.antt =====
-- The wireless transport of src/wireless.c: PTP/IP packets over sockets, connecting, and the
-- pairing with a device.
pub mod Stream
pub mod Commands
pub mod Connect
pub mod Pairing
mod Tests
pub mod Text
use vita_mtp.Base.{ℕ, Bool, Option, List}

-- The functions of the operating system that the packets go through, on a state of its. `none` is
-- the result -1; a read at the end of a stream has no bytes. `has_memory` is whether `malloc` of so
-- many bytes succeeds.
pub record Sockets (S : Type 0) : Type 0 where
  pub send : S → ℕ → List ℕ → S × Option ℕ
  pub recv : S → ℕ → ℕ → S × Option (List ℕ)
  pub has_memory : S → ℕ → Bool

-- A packet: the two numbers of `PTPIPHeader`, and what is read behind it.
pub record Packet : Type 0 where
  pub length : ℕ
  pub type : ℕ
  pub payload : List ℕ

abbrev pub cmd_request : ℕ
cmd_request = 6

abbrev pub cmd_response : ℕ
cmd_response = 7

abbrev pub event : ℕ
event = 8

abbrev pub start_data_packet : ℕ
start_data_packet = 9

abbrev pub data_packet : ℕ
data_packet = 10

abbrev pub end_data_packet : ℕ
end_data_packet = 12

abbrev pub init_command_request : ℕ
init_command_request = 1

abbrev pub init_command_ack : ℕ
init_command_ack = 2

abbrev pub init_event_request : ℕ
init_event_request = 3

abbrev pub init_event_ack : ℕ
init_event_ack = 4
