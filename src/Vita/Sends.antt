-- ===== src/Vita/Sends.antt =====
-- The operations of src/vitamtp.c that send a block of data: how the block is put together, and
-- the length that is passed on with it. `malloc` is taken to succeed, as the code does.
pub mod Payloads
use vita_mtp.Base.{
  ℕ, ◌+◌, ◌*◌, ◌%◌, ◌^◌, Option, none, some, ◌>>=◌, List, [], ◌∷◌, ◌++◌, ltb, if◌then◌else◌, length,
}
use vita_mtp.Bytes.{ByteOrder, fetch, wire_bytes}
use vita_mtp.Bytes.Arrays.{host_words}
use vita_mtp.Cache.{rc_general_error}
use vita_mtp.Vita.{Device, Link, Outcome, Received, cnt_init, dp_senddata, perform, send_data}
use vita_mtp.Vita.Codes.{
  oc_send_object_metadata, oc_send_object_thumb, oc_send_initiator_info,
  oc_send_http_object_from_url, oc_send_np_account_info, oc_send_http_object_prop_from_url,
  oc_send_part_of_object, oc_send_storage_size, oc_send_copy_confirmation_info,
  oc_send_pc_capability_info,
}

-- `http_object_prop_t`; a null pointer is an empty block.
pub record HttpObjectProp : Type 0 where
  pub size : ℕ
  pub timestamp_len : ℕ
  pub timestamp : List ℕ

-- `copy_confirmation_info_t`: the count, and what the block holds behind it.
pub record CopyConfirmation : Type 0 where
  pub count : ℕ
  pub ohfi : List ℕ

-- The array of `VitaMTP_SendStorageSize`.
abbrev pub padding : List ℕ
padding = 0 ∷ 0 ∷ 0 ∷ 0 ∷ 0xff ∷ 0xff ∷ 0xff ∷ 0xff ∷ 0xff ∷ []

-- An operation that fails before it sends anything.
abbrev pub refused : {T : Type 0} → Link T → Outcome T (Option Received)
refused k = record { link = k; code = rc_general_error; value = none }

abbrev pub sent : {T : Type 0} → Option (Outcome T Received) → Option (Outcome T (Option Received))
sent none = none
sent (some r) = some (record { link = r.link; code = r.code; value = some r.value })

module _ {T : Type 0} (dev : Device T) (k : Link T) where
  -- A number of `n` bytes in the memory of the computer.
  abbrev pub host_bytes : ℕ → ℕ → List ℕ
  host_bytes n x = wire_bytes dev.host n x

  -- `VitaMTP_SendObjectMetadata`. `xml` is what `VitaMTP_Data_Metadata_To_XML` makes of the
  -- metadata, or `none` where that fails.
  unfoldable pub send_object_metadata : ℕ → Option (List ℕ) → Option (Outcome T (Option Received))
  send_object_metadata event_id none = some (refused k)
  send_object_metadata event_id (some xml) =
      sent (send_data dev k event_id oc_send_object_metadata (some xml) (length xml))

  unfoldable pub send_object_thumb :
      ℕ → Option (List ℕ) → List ℕ → ℕ → Option (Outcome T (Option Received))
  send_object_thumb event_id none thumb thumb_len = some (refused k)
  send_object_thumb event_id (some xml) thumb thumb_len = fetch thumb 0 thumb_len >>= λ image.
      sent (
        send_data dev k event_id oc_send_object_thumb
          (some (xml ++ (host_bytes 8 thumb_len ++ image))) ((length xml + 8 + thumb_len) % 2 ^ 32))

  -- `VitaMTP_SendInitiatorInfo` and `VitaMTP_SendPCCapabilityInfo`, whose requests have no
  -- parameter.
  unfoldable pub send_info : ℕ → Option (List ℕ) → Option (Outcome T (Option Received))
  send_info code none = some (refused k)
  send_info code (some xml) =
      sent (perform dev (record cnt_init { code = code }) dp_senddata (length xml) (some xml) k)

  abbrev pub send_initiator_info : Option (List ℕ) → Option (Outcome T (Option Received))
  send_initiator_info xml = send_info oc_send_initiator_info xml

  abbrev pub send_pc_capability_info : Option (List ℕ) → Option (Outcome T (Option Received))
  send_pc_capability_info xml = send_info oc_send_pc_capability_info xml

  unfoldable pub send_http_object_from_url : ℕ → List ℕ → ℕ → Option (Outcome T Received)
  send_http_object_from_url event_id content len = fetch content 0 len >>= λ copied.
      send_data dev k event_id oc_send_http_object_from_url (some (host_bytes 8 len ++ copied))
        ((len + 8) % 2 ^ 32)

  unfoldable pub send_np_account_info : ℕ → Option (List ℕ) → ℕ → Option (Outcome T Received)
  send_np_account_info event_id block len =
      send_data dev k event_id oc_send_np_account_info block len

  unfoldable pub send_http_object_prop_from_url : ℕ → HttpObjectProp → Option (Outcome T Received)
  send_http_object_prop_from_url event_id prop =
      fetch prop.timestamp 0 prop.timestamp_len >>= λ timestamp.
      send_data dev k event_id oc_send_http_object_prop_from_url
        (some (host_bytes 8 prop.size ++ (host_bytes 1 prop.timestamp_len ++ timestamp)))
        (9 + prop.timestamp_len)

  -- `unsigned long` has 64 bits, and the length goes through an `int`.
  unfoldable pub send_part_of_object : ℕ → List ℕ → ℕ → Option (Outcome T Received)
  send_part_of_object event_id object object_len = fetch object 0 object_len >>= λ copied.
      send_data dev k event_id oc_send_part_of_object (some (host_bytes 8 object_len ++ copied))
        ((object_len + 8) % 2 ^ 32)

  unfoldable pub send_storage_size : ℕ → ℕ → ℕ → Option (Outcome T Received)
  send_storage_size event_id storage_size available_size =
      send_data dev k event_id oc_send_storage_size
        (some (host_bytes 8 storage_size ++ (host_bytes 8 available_size ++ padding))) 25

  -- A size that is negative as an `int` is a `memcpy` out of every block.
  unfoldable pub send_copy_confirmation_info :
      ℕ → CopyConfirmation → ℕ → Option (Outcome T Received)
  unfolding host_words
  send_copy_confirmation_info event_id info size =
      let info_size : ℕ = (info.count * 4 + 4) % 2 ^ 32 in
      let copied = fetch (host_bytes 4 info.count ++ host_words dev.host info.ohfi) 0 info_size in
      (if ltb info_size (2 ^ 31) then copied else none) >>= λ bytes.
      send_data dev k event_id oc_send_copy_confirmation_info (some (host_bytes 8 size ++ bytes))
        (info_size + 8)
