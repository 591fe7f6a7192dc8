-- ===== src/Vita/Objects/Operations.antt =====
-- The operations of src/ptp.c on objects that src/vitamtp.c calls.
use vita_mtp.Base.{ℕ, Bool, ◌&&◌, Option, none, some, ◌>>=◌, List, [], ◌==◌, if◌then◌else◌}
use vita_mtp.Cache.{rc_ok}
use vita_mtp.Pack.ObjectInfo.{ObjectInfo, pack_object_info}
use vita_mtp.Pack.Params.{Params}
use vita_mtp.Pack.Storage.{unpack_oh}
use vita_mtp.Pack.Values.{PropertyValue, Unpacked, ok, failed, kind_of, unpack_dpv}
use vita_mtp.Transaction.Memory.{bytes_of}
use vita_mtp.Vita.{
  Device, Link, Outcome, Received, cnt_init, dp_senddata, dp_getdata, event_request, perform,
}

abbrev pub oc_get_object_handles : ℕ
oc_get_object_handles = 0x1007

abbrev pub oc_get_object : ℕ
oc_get_object = 0x1009

abbrev pub oc_send_object_info : ℕ
oc_send_object_info = 0x100c

abbrev pub oc_send_object : ℕ
oc_send_object = 0x100d

abbrev pub oc_get_partial_object : ℕ
oc_get_partial_object = 0x101b

abbrev pub oc_get_object_prop_value : ℕ
oc_get_object_prop_value = 0x9803

-- What `ptp_sendobjectinfo` sets behind its pointers.
pub record SentInfo : Type 0 where
  pub store : ℕ
  pub parent : ℕ
  pub handle : ℕ

-- What the unpacking makes of the value before it.
abbrev pub value_after : Option PropertyValue → Unpacked → Option PropertyValue
value_after before (ok offset (some v)) = some v
value_after before (ok offset none) = before
value_after before (failed offset) = before

module _ {T : Type 0} (dev : Device T) (p : Params) where
  -- `ptp_mtp_getobjectpropvalue`. `before` is what `*value` holds, or `none` where nothing has
  -- set it.
  unfoldable pub get_object_prop_value :
      (ℕ → Bool)
      → Link T
      → ℕ
      → ℕ
      → Option PropertyValue
      → ℕ
      → Option (Outcome T (Option PropertyValue))
  get_object_prop_value malloc_ok k oid opc before datatype =
      perform dev
        (record cnt_init {
          code = oc_get_object_prop_value;
          nparam = 2;
          param1 = oid;
          param2 = opc;
        })
        dp_getdata 0 none k
      >>= λ r.
          let unpacked =
            unpack_dpv p malloc_ok (bytes_of r.value.block) 0 r.value.len (kind_of datatype)
            >>= λ u. some (record { link = r.link; code = r.code; value = value_after before u }) in
          if r.code == rc_ok
          then unpacked
          else some (record { link = r.link; code = r.code; value = before })

  -- `ptp_getobjecthandles`: the handles, whose number is the length of the list. `none` in place of
  -- them is that nothing was set.
  unfoldable pub get_object_handles : Link T → ℕ → ℕ → ℕ → Option (Outcome T (Option (List ℕ)))
  get_object_handles k storage format association =
      perform dev
        (record cnt_init {
          code = oc_get_object_handles;
          nparam = 3;
          param1 = storage;
          param2 = format;
          param3 = association;
        })
        dp_getdata 0 none k
      >>= λ r.
          let unpacked = unpack_oh p (bytes_of r.value.block) r.value.len >>= λ handles.
          some (record { link = r.link; code = r.code; value = some handles }) in
          if r.code == rc_ok
          then unpacked
          else if (storage == 0xffffffff) && ((format == 0) && (association == 0))
          then some (record { link = r.link; code = rc_ok; value = some [] })
          else some (record { link = r.link; code = r.code; value = none })

  -- `ptp_sendobjectinfo`: the answer's parameters are set behind the pointers whatever the code.
  unfoldable pub send_object_info : Link T → ℕ → ℕ → ObjectInfo → Option (Outcome T SentInfo)
  send_object_info k store parent oi = pack_object_info p oi >>= λ packed.
      perform dev
        (record cnt_init {
          code = oc_send_object_info;
          nparam = 2;
          param1 = store;
          param2 = parent;
        })
        dp_senddata packed.1 (some packed.0) k
      >>= λ r. some (record {
        link = r.link;
        code = r.code;
        value = record {
          store = r.value.container.param1;
          parent = r.value.container.param2;
          handle = r.value.container.param3;
        };
      })

module _ {T : Type 0} (dev : Device T) (k : Link T) where
  -- `ptp_getobject`.
  unfoldable pub ptp_get_object : ℕ → Option (Outcome T Received)
  ptp_get_object handle = perform dev (event_request oc_get_object handle) dp_getdata 0 none k

  -- `ptp_getpartialobject`.
  unfoldable pub get_partial_object : ℕ → ℕ → ℕ → Option (Outcome T Received)
  get_partial_object handle offset maxbytes =
      perform dev
        (record cnt_init {
          code = oc_get_partial_object;
          nparam = 3;
          param1 = handle;
          param2 = offset;
          param3 = maxbytes;
        })
        dp_getdata 0 none k

  -- `ptp_sendobject`.
  unfoldable pub ptp_send_object : Option (List ℕ) → ℕ → Option (Outcome T Received)
  ptp_send_object object size =
      perform dev (record cnt_init { code = oc_send_object }) dp_senddata size object k
