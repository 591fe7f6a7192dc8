-- ===== src/Vita/Objects.antt =====
-- Whole objects: the operations of src/ptp.c for them, and over these `VitaMTP_SendObject`,
-- `VitaMTP_GetObject` and `VitaMTP_CheckExistance` of src/vitamtp.c.
pub mod Correct
pub mod Operations
use vita_mtp.Base.{
  ℕ, ◌%◌, ◌^◌, bit_and, Bool, not, Option, none, some, ◌>>=◌, List, ◌==◌, if◌then◌else◌, pos,
  length,
}
use vita_mtp.Bytes.{fetch, store}
use vita_mtp.Cache.{rc_ok}
use vita_mtp.Pack.ObjectInfo.{ObjectInfo}
use vita_mtp.Pack.Params.{Params}
use vita_mtp.Pack.Values.{PropertyValue, num, str}
use vita_mtp.Database.DataType.{folder, file, save_data}
use vita_mtp.Transaction.Memory.{bytes_of}
use vita_mtp.Vita.{Device, Link, Outcome, Received}
use Operations.{
  SentInfo, get_object_prop_value, get_object_handles, ptp_get_object, get_partial_object,
  send_object_info, ptp_send_object,
}

abbrev pub vita_storage_id : ℕ
vita_storage_id = 0x10001

abbrev pub rc_operation_not_supported : ℕ
rc_operation_not_supported = 0x2005

abbrev pub ofc_undefined : ℕ
ofc_undefined = 0x3000

abbrev pub ofc_association : ℕ
ofc_association = 0x3001

abbrev pub ofc_psp_save : ℕ
ofc_psp_save = 0xb00a

abbrev pub at_generic_folder : ℕ
at_generic_folder = 1

abbrev pub opc_object_format : ℕ
opc_object_format = 0xdc02

abbrev pub opc_object_size : ℕ
opc_object_size = 0xdc04

abbrev pub opc_object_file_name : ℕ
opc_object_file_name = 0xdc07

-- The members of `metadata_t` that the operations use. A null pointer is `none`.
pub record ObjectMeta : Type 0 where
  pub handle : ℕ
  pub name : Option (List ℕ)
  pub date_time_created : ℕ
  pub size : ℕ
  pub data_type : ℕ

-- `existance_object_t`.
pub record ExistanceObject : Type 0 where
  pub size : ℕ
  pub name : Option (List ℕ)
  pub data_length : ℕ
  pub bytes : List ℕ

-- What `*p_data` points to.
pub data Content : Type 0 where
  unset : Content
  handles : List ℕ → Content
  contents : Option (List ℕ) → Content

-- The object info of `VitaMTP_SendObject`, cleared but for three fields.
abbrev pub common_info : ℕ → ObjectMeta → ObjectInfo
common_info parent meta = record {
  storage_id = vita_storage_id;
  object_format = 0;
  protection_status = 0;
  object_compressed_size = 0;
  thumb_format = 0;
  thumb_compressed_size = 0;
  thumb_pix_width = 0;
  thumb_pix_height = 0;
  image_pix_width = 0;
  image_pix_height = 0;
  image_bit_depth = 0;
  parent_object = parent;
  association_type = 0;
  association_desc = 0;
  sequence_number = 0;
  filename = meta.name;
  capture_date = pos 0;
  modification_date = pos 0;
}

abbrev pub folder_info : ℕ → ObjectMeta → ObjectInfo
folder_info parent meta = record (common_info parent meta) {
  object_format = ofc_association;
  association_type = at_generic_folder;
}

abbrev pub file_info : ℕ → ObjectMeta → ObjectInfo
file_info parent meta = record (common_info parent meta) {
  object_format = if bit_and meta.data_type save_data == 0 then ofc_undefined else ofc_psp_save;
  object_compressed_size = meta.size % 2 ^ 32;
  capture_date = pos meta.date_time_created;
  modification_date = pos meta.date_time_created;
}

-- The members of the local union `value`, which the unpacking may have left unset.
abbrev pub number_in : Option PropertyValue → Option ℕ
number_in (some (num x)) = some x
number_in _ = none

abbrev pub string_in : Option PropertyValue → Option (Option (List ℕ))
string_in (some (str s)) = some s
string_in _ = none

-- How `VitaMTP_GetObject` ends: the metadata, `*p_data`, and `*p_len` where that is set.
abbrev pub Got : Type 0
Got = ObjectMeta × Content × Option ℕ

abbrev pub got :
    {T : Type 0} → Link T → ℕ → ObjectMeta → Content → Option ℕ → Option (Outcome T Got)
got k code meta content len = some (record { link = k; code = code; value = (meta, content, len) })

module _ {T : Type 0} (dev : Device T) (p : Params) (k : Link T) where
  -- `VitaMTP_SendObject`: how it ends, with `*p_parenthandle` and `*p_handle`.
  unfoldable pub send_object : ℕ → ℕ → ObjectMeta → Option (List ℕ) → Option (Outcome T SentInfo)
  send_object parent handle meta block =
      let described = send_object_info dev p k vita_storage_id parent (file_info parent meta) in
      if not (bit_and meta.data_type folder == 0)
      then send_object_info dev p k vita_storage_id parent (folder_info parent meta)
      else if not (bit_and meta.data_type file == 0)
      then (described >>= λ r.
          let done = ptp_send_object dev r.link block (meta.size % 2 ^ 32) in
          if not (r.code == rc_ok)
          then some r
          else (done >>= λ q. some (record { link = q.link; code = q.code; value = r.value })))
      else some (record {
        link = k;
        code = rc_operation_not_supported;
        value = record { store = vita_storage_id; parent = parent; handle = handle };
      })

module _ {T : Type 0} (dev : Device T) (p : Params) (malloc_ok : ℕ → Bool) where
  -- The folder's and the file's part of `VitaMTP_GetObject`.
  unfoldable pub get_folder : Link T → ℕ → ObjectMeta → Option (Outcome T Got)
  get_folder k handle meta = get_object_handles dev p k vita_storage_id 0 handle >>= λ r.
      let found = r.value >>= λ hs.
      got r.link r.code (record meta { handle = handle }) (handles hs) (some (length hs)) in
      if not (r.code == rc_ok) then got r.link r.code meta unset none else found

  unfoldable pub get_file : Link T → ℕ → ObjectMeta → Option PropertyValue → Option (Outcome T Got)
  get_file k handle meta value =
      get_object_prop_value dev p malloc_ok k handle opc_object_size value 8 >>= λ r.
      let more = number_in r.value >>= λ size. ptp_get_object dev r.link handle >>= λ q.
      got q.link q.code (record meta { handle = handle; size = size }) (contents q.value.block)
        (some (size % 2 ^ 32)) in
      if not (r.code == rc_ok) then got r.link r.code meta unset none else more

  unfoldable pub get_object : Link T → ℕ → ObjectMeta → Option (Outcome T Got)
  unfolding get_folder get_file
  get_object k handle meta =
      get_object_prop_value dev p malloc_ok k handle opc_object_format none 4 >>= λ r.
      let named = number_in r.value >>= λ format.
      let data_type = if format == ofc_association then folder else file in
      let meta' : ObjectMeta = record meta { data_type = data_type } in
      get_object_prop_value dev p malloc_ok r.link handle opc_object_file_name r.value 0xffff
      >>= λ q.
          let more = string_in q.value >>= λ name.
          let meta'' : ObjectMeta = record meta' { name = name } in
          let a_folder = get_folder q.link handle meta'' in
          let a_file = get_file q.link handle meta'' q.value in
          if format == ofc_association then a_folder else a_file in
          if not (q.code == rc_ok) then got q.link q.code meta' unset none else more in
      if not (r.code == rc_ok) then got r.link r.code meta unset none else named

  -- `VitaMTP_CheckExistance`, on the structure as it was before.
  unfoldable pub check_existance : Link T → ℕ → ExistanceObject → Option (Outcome T ExistanceObject)
  check_existance k handle existance =
      get_object_prop_value dev p malloc_ok k handle opc_object_size none 8 >>= λ r.
      let end : Link T → ℕ → ExistanceObject → Option (Outcome T ExistanceObject) =
        (λ k code e. some (record { link = k; code = code; value = e })) in
      let named = number_in r.value >>= λ size.
      let sized : ExistanceObject = record existance { size = size } in
      get_object_prop_value dev p malloc_ok r.link handle opc_object_file_name r.value 0xffff
      >>= λ q.
          let begun = string_in q.value >>= λ name.
          let known : ExistanceObject = record sized { name = name } in
          get_partial_object dev q.link handle 0 0x400 >>= λ s.
          let received : ExistanceObject = record known { data_length = s.value.len } in
          let copied = fetch (bytes_of s.value.block) 0 s.value.len >>= λ part.
          store existance.bytes 0 part >>= λ bytes.
          end s.link s.code (record received { bytes = bytes }) in
          if not (s.code == rc_ok) then end s.link s.code received else copied in
          if not (q.code == rc_ok) then end q.link q.code sized else begun in
      if not (r.code == rc_ok) then end r.link r.code existance else named
