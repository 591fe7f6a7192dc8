-- ===== src/Vita/Gets.antt =====
-- The operations of src/vitamtp.c that get a block of data, and what they read from it. The
-- members of a block are read as the computer holds numbers.
pub mod Correct
pub mod Layout
use vita_mtp.Base.{
  ℕ, ◌+◌, ◌-◌, ◌*◌, ◌%◌, ◌^◌, not, ◌||◌, Option, none, some, ◌>>=◌, List, [], ltb, ◌==◌,
  if◌then◌else◌, drop,
}
use vita_mtp.Bytes.{ByteOrder, fetch, dtoh32a, dtoh64a}
use vita_mtp.Cache.{rc_ok, rc_general_error}
use vita_mtp.Transaction.Memory.{bytes_of}
use vita_mtp.Vita.{Device, Link, Outcome, Received, cnt_init, dp_getdata, perform, get_data}
use vita_mtp.Vita.Codes.{
  oc_get_vita_info, oc_get_browse_info, oc_get_url, oc_get_setting_info, oc_send_object_status,
  oc_send_part_of_object_init, oc_operate_object, oc_get_part_of_object, oc_get_treat_object,
  oc_send_copy_confirmation_info_init, oc_send_object_metadata_items, oc_get_vita_capability_info,
}

pub record BrowseInfo : Type 0 where
  pub ohfi_parent : ℕ
  pub unk1 : ℕ
  pub unk2 : ℕ
  pub num_objects : ℕ
  pub unk4 : ℕ

pub record ObjectStatus : Type 0 where
  pub ohfi_root : ℕ
  pub len : ℕ
  pub title : List ℕ

pub record SendPartInit : Type 0 where
  pub ohfi : ℕ
  pub offset : ℕ
  pub size : ℕ

pub record OperateObject : Type 0 where
  pub cmd : ℕ
  pub ohfi : ℕ
  pub unk1 : ℕ
  pub len : ℕ
  pub title : List ℕ

pub record TreatObject : Type 0 where
  pub ohfi_parent : ℕ
  pub unk0 : ℕ
  pub handle : ℕ

module _ (host : ByteOrder) where
  -- The member `i` of the block as an array of 32-bit numbers.
  abbrev pub word : List ℕ → ℕ → Option ℕ
  word buf i = dtoh32a host buf (4 * i)

  -- `memcpy` into a `browse_info_t`, a `send_part_init_t` and a `treat_object_t`.
  unfoldable pub read_browse_info : List ℕ → Option BrowseInfo
  read_browse_info buf = do
    ohfi_parent ← word buf 0
    unk1 ← word buf 1
    unk2 ← word buf 2
    num_objects ← word buf 3
    unk4 ← word buf 4
    some (record {
      ohfi_parent = ohfi_parent;
      unk1 = unk1;
      unk2 = unk2;
      num_objects = num_objects;
      unk4 = unk4;
    })

  unfoldable pub read_part_init : List ℕ → Option SendPartInit
  read_part_init buf = do
    ohfi ← dtoh32a host buf 0
    offset ← dtoh64a host buf 4
    size ← dtoh64a host buf 12
    some (record { ohfi = ohfi; offset = offset; size = size })

  unfoldable pub read_treat_object : List ℕ → Option TreatObject
  read_treat_object buf = do
    ohfi_parent ← word buf 0
    unk0 ← word buf 1
    handle ← word buf 2
    some (record { ohfi_parent = ohfi_parent; unk0 = unk0; handle = handle })

  -- The body of `VitaMTP_GetUrl`. A length that is negative as an `int` asks for more memory
  -- than there is.
  unfoldable pub read_url : List ℕ → Option (List ℕ)
  read_url buf = word buf 2 >>= λ url_len.
      let url = fetch buf 12 url_len in if ltb url_len (2 ^ 31) then url else none

  unfoldable pub read_object_status : List ℕ → Option ObjectStatus
  read_object_status buf = do
    ohfi_root ← word buf 0
    len ← word buf 1
    title ← fetch buf 8 len
    some (record { ohfi_root = ohfi_root; len = len; title = title })

  unfoldable pub read_operate_object : List ℕ → Option OperateObject
  read_operate_object buf = do
    cmd ← word buf 0
    ohfi ← word buf 1
    unk1 ← word buf 2
    len ← word buf 3
    title ← fetch buf 16 ((len + 1) % 2 ^ 32)
    some (record { cmd = cmd; ohfi = ohfi; unk1 = unk1; len = len; title = title })

  unfoldable pub read_part : List ℕ → Option (SendPartInit × List ℕ)
  unfolding read_part_init
  read_part buf = do init ← read_part_init buf; part ← fetch buf 20 init.size; some (init, part)

-- What an operation makes of the block that it got: with `checked`, only where the transaction
-- returned OK; without, always, and a null pointer is a block without bytes.
unfoldable pub filled :
    {T A : Type 0} → (List ℕ → Option A) → Outcome T Received → Option (Outcome T (Option A))
filled read r = read (bytes_of r.value.block) >>= λ a.
    some (record { link = r.link; code = r.code; value = some a })

abbrev pub unfilled : {T A : Type 0} → Outcome T Received → ℕ → Outcome T (Option A)
unfilled r code = record { link = r.link; code = code; value = none }

unfoldable pub filled_if_ok :
    {T A : Type 0} → (List ℕ → Option A) → Outcome T Received → Option (Outcome T (Option A))
unfolding filled
filled_if_ok read r =
    let f = filled read r in if r.code == rc_ok then f else some (unfilled r r.code)

module _ {T : Type 0} (dev : Device T) (k : Link T) (event_id : ℕ) where
  unfoldable pub get_browse_info : Option (Outcome T (Option BrowseInfo))
  get_browse_info =
      get_data dev k event_id oc_get_browse_info >>= filled (read_browse_info dev.host)

  -- `*len` is 0 where nothing was received.
  unfoldable pub get_url : Option (Outcome T (Option (List ℕ)))
  get_url = get_data dev k event_id oc_get_url >>= λ r.
      let f = filled (read_url dev.host) r in
      if not (r.code == rc_ok) || (r.value.len == 0) then some (unfilled r r.code) else f

  unfoldable pub get_object_status : Option (Outcome T (Option ObjectStatus))
  get_object_status =
      get_data dev k event_id oc_send_object_status >>= filled_if_ok (read_object_status dev.host)

  unfoldable pub send_part_of_object_init : Option (Outcome T (Option SendPartInit))
  send_part_of_object_init =
      get_data dev k event_id oc_send_part_of_object_init >>= filled_if_ok (read_part_init dev.host)

  unfoldable pub operate_object : Option (Outcome T (Option OperateObject))
  operate_object =
      get_data dev k event_id oc_operate_object >>= filled (read_operate_object dev.host)

  unfoldable pub get_part_of_object : Option (Outcome T (Option (SendPartInit × List ℕ)))
  get_part_of_object = get_data dev k event_id oc_get_part_of_object >>= filled (read_part dev.host)

  unfoldable pub get_treat_object : Option (Outcome T (Option TreatObject))
  get_treat_object =
      get_data dev k event_id oc_get_treat_object >>= filled (read_treat_object dev.host)

  unfoldable pub send_copy_confirmation_info_init : Option (Outcome T Received)
  send_copy_confirmation_info_init = get_data dev k event_id oc_send_copy_confirmation_info_init

  unfoldable pub send_object_metadata_items : Option (Outcome T (Option ℕ))
  send_object_metadata_items =
      get_data dev k event_id oc_send_object_metadata_items
      >>= filled_if_ok (λ buf. word dev.host buf 0)

module _ {I : Type 0} (from_xml : List ℕ → ℕ → Option I) where
  -- The end of the operations that get XML behind a header of four bytes. `from_xml` is the
  -- function of src/datautils.c, on the bytes and the length, which is unsigned; `none` is its
  -- failure.
  unfoldable pub parsed : {T : Type 0} → Outcome T Received → Outcome T (Option I)
  parsed r =
      if not (r.code == rc_ok) || (r.value.len == 0)
      then unfilled r r.code
      else elim (from_xml (drop 4 (bytes_of r.value.block)) ((r.value.len + 2 ^ 32 - 4) % 2 ^ 32)) [
        | none ↦ unfilled r rc_general_error
        | some info ↦ record { link = r.link; code = r.code; value = some info }
      ]

  module _ {T : Type 0} (dev : Device T) (k : Link T) where
    unfoldable pub get_setting_info : ℕ → Option (Outcome T (Option I))
    unfolding parsed
    get_setting_info event_id = get_data dev k event_id oc_get_setting_info >>= λ r. some (parsed r)

    -- `VitaMTP_GetVitaInfo` and `VitaMTP_GetVitaCapabilityInfo`.
    unfoldable pub get_info : ℕ → Option (Outcome T (Option I))
    unfolding parsed
    get_info code =
        perform dev (record cnt_init { code = code }) dp_getdata 0 none k >>= λ r. some (parsed r)

    abbrev pub get_vita_info : Option (Outcome T (Option I))
    get_vita_info = get_info oc_get_vita_info

    abbrev pub get_vita_capability_info : Option (Outcome T (Option I))
    get_vita_capability_info = get_info oc_get_vita_capability_info
