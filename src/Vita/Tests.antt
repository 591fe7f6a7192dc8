-- ===== src/Vita/Tests.antt =====
-- Operations on a device whose answers are given, and the theorems about them at these.
use vita_mtp.Base.{
  ℕ, ◌+◌, ◌<◌, ◌≤◌, ◌≡◌, refl, true, Option, none, some, List, [], ◌∷◌, ◌++◌, arith, length,
  replicate, drop,
}
use Prim.{tt}
use vita_mtp.Bytes.{
  little, wire_bytes, wire_value, le_value, fetch, store, dtoh64a, dtoh16a, dtoh8a, htod8a, htod16a,
  htod32a,
}
use vita_mtp.Bytes.Arrays.{host_words}
use vita_mtp.Cache.{rc_ok}
use vita_mtp.Pack.Params.{Params}
use vita_mtp.Pack.Strings.{
  unpack_string, to_locale, unpack_chars, convert, strdup, pack_string, to_ucs2, fill_ucs2,
  ucs2strlen, host_units, ucs2_array, widen,
}
use vita_mtp.Pack.ObjectInfo.{pack_object_info, pack_fields}
use vita_mtp.Pack.Values.{num, str, unpack_dpv, ctval, read_num, kind_of}
use vita_mtp.Transaction.{
  Container, Transport, data_phase, after_data, with_ids, transaction_new, get_response,
}
use vita_mtp.Transaction.Memory.{
  MemHandler, memory_getfunc, memory_putfunc, put_at, bytes_of, init_send_memory_handler,
  init_recv_memory_handler, transaction,
}
use vita_mtp.Transaction.Whole.{end, next_session}
use vita_mtp.Vita.{Device, Link, Outcome, cnt_init, event_request, perform}
use vita_mtp.Vita.Codes.{
  oc_get_part_of_object, oc_get_url, oc_operate_object, oc_send_copy_confirmation_info,
  oc_send_part_of_object, oc_send_object_status, oc_send_part_of_object_init,
  oc_send_object_metadata_items,
}
use vita_mtp.Vita.Exchange.{Delivers, Exchange}
use vita_mtp.Vita.Gets.{
  OperateObject, SendPartInit, get_browse_info, get_object_status, get_part_of_object,
  get_treat_object, get_url, operate_object, send_object_metadata_items, send_part_of_object_init,
}
use vita_mtp.Vita.Gets.Correct.{
  filled_by, unsent, get_part_of_object_lem, gets_unsent, operate_object_lem,
}
use vita_mtp.Vita.Gets.Layout.{part_init_bytes, operate_object_bytes}
use vita_mtp.Vita.Objects.{ExistanceObject, ObjectMeta, send_object, check_existance}
use vita_mtp.Vita.Objects.Correct.{
  IsChecked, IsSent, checked, check_existance_lem, send_object-IsSent,
}
use vita_mtp.Vita.Objects.Operations.{
  SentInfo, get_object_prop_value, get_partial_object, ptp_send_object, send_object_info,
}
use vita_mtp.Vita.Sends.{send_part_of_object, send_copy_confirmation_info}
use vita_mtp.Vita.Sends.Payloads.{
  Sends, Takes, confirmation_bytes, send_copy_confirmation_info_lem, send_part_of_object_lem,
  sized_bytes,
}

-- The handler behind a write or a read that succeeds.
abbrev after_put : MemHandler → Option (MemHandler × ℕ) → MemHandler
after_put h none = h
after_put h (some r) = r.0

abbrev after_get : MemHandler → Option (MemHandler × List ℕ) → MemHandler
after_get h none = h
after_get h (some r) = r.0

-- A device that has these bytes and this code for every request, and takes any data.
abbrev answering : List ℕ → ℕ → Transport ℕ MemHandler
answering bytes code = record {
  sendreq = λ t ptp. (t + 1, rc_ok);
  senddata = λ t ptp len h. ((t, after_get h (memory_getfunc h len)), rc_ok);
  getdata = λ t ptp h.
      ((t, after_put h (memory_putfunc h bytes (some (replicate (length bytes) 0)))), rc_ok);
  getresp = λ t ptp. ((t, record ptp { code = code }), rc_ok);
  cancelreq = λ t id. (t, rc_ok);
}

-- A device that is gone.
abbrev gone : Transport ℕ MemHandler
gone = record {
  sendreq = λ t ptp. (t, 0x2ff);
  senddata = λ t ptp len h. ((t, h), 0x2ff);
  getdata = λ t ptp h. ((t, h), 0x2ff);
  getresp = λ t ptp. ((t, ptp), 0x2ff);
  cancelreq = λ t id. (t, 0x2ff);
}

abbrev unset : MemHandler
unset = record { block = none; size = 0; curoff = 0 }

abbrev device : Transport ℕ MemHandler → Device ℕ
device tr = record { functions = tr; fuel = 2; unset = unset; host = little }

abbrev link : Link ℕ
link = record { session = record { transaction_id = 7; session_id = 1 }; transport = 0 }

abbrev part_init : SendPartInit
part_init = record { ohfi = 300; offset = 16; size = 3 }

abbrev part_device : Device ℕ
part_device = device (answering (part_init_bytes little part_init (1 ∷ 2 ∷ 3 ∷ [])) rc_ok)

-- The exchange of any request with such a device.
abbrev exchanged :
    (bytes : List ℕ) (ptp : Container) (flags sendlen : ℕ) (h : MemHandler)
    → (data_phase
        (answering bytes rc_ok)
        (next_session link.session)
        flags
        sendlen
        1
        (with_ids link.session ptp)
        h).1
      ≡ rc_ok
    → (data_phase
        (answering bytes rc_ok)
        (next_session link.session)
        flags
        sendlen
        1
        (with_ids link.session ptp)
        h).0.0
      ≡ 1
    → Exchange (device (answering bytes rc_ok)) link ptp flags sendlen h
exchanged bytes ptp flags sendlen h ok same = record {
  phase =
      data_phase (answering bytes rc_ok) (next_session link.session) flags sendlen 1
        (with_ids link.session ptp) h;
  skipped = 0;
  before =
      (data_phase (answering bytes rc_ok) (next_session link.session) flags sendlen 1
        (with_ids link.session ptp) h).0.0;
  last = with_ids link.session ptp;
  sent_ok = refl;
  exchanged = refl;
  phase_ok = ok;
  stale = end _ _;
  reply_ok = refl;
  reply_own = refl;
  enough = omega arith;
}

abbrev part_delivered :
    Delivers part_device link
      (event_request oc_get_part_of_object 5)
      (part_init_bytes little part_init (1 ∷ 2 ∷ 3 ∷ []))
unfolding data_phase after_data memory_putfunc put_at store wire_bytes
part_delivered = record {
  exchange =
      exchanged (part_init_bytes little part_init (1 ∷ 2 ∷ 3 ∷ []))
        (event_request oc_get_part_of_object 5) 2 0 init_recv_memory_handler refl refl;
  holds = (refl, refl, refl);
  short = omega arith;
}

get_part_of_object_example :
    get_part_of_object part_device link 5
    ≡ some (filled_by part_device link 5 part_delivered (part_init, 1 ∷ 2 ∷ 3 ∷ []))
get_part_of_object_example =
    get_part_of_object_lem part_device link 5 part_init (1 ∷ 2 ∷ 3 ∷ []) part_delivered
      (omega arith) (omega arith) (omega arith) refl

abbrev operation : OperateObject
operation = record { cmd = 2; ohfi = 300; unk1 = 0; len = 2; title = 65 ∷ 66 ∷ 0 ∷ [] }

abbrev operation_device : Device ℕ
operation_device = device (answering (operate_object_bytes little operation) rc_ok)

abbrev operation_delivered :
    Delivers operation_device link
      (event_request oc_operate_object 5)
      (operate_object_bytes little operation)
unfolding data_phase after_data memory_putfunc put_at store wire_bytes host_words
operation_delivered = record {
  exchange =
      exchanged (operate_object_bytes little operation) (event_request oc_operate_object 5) 2 0
        init_recv_memory_handler refl refl;
  holds = (refl, refl, refl);
  short = omega arith;
}

operate_object_example :
    operate_object operation_device link 5
    ≡ some (filled_by operation_device link 5 operation_delivered operation)
operate_object_example =
    operate_object_lem operation_device link 5 operation operation_delivered
      (omega arith, (omega arith, (omega arith, (omega arith, tt)))) refl (omega arith)

gets_unsent_example :
    let dev = device gone in
    (get_url dev link 5 ≡ some (unsent dev link 5 oc_get_url))
    × (get_object_status dev link 5 ≡ some (unsent dev link 5 oc_send_object_status))
    × (send_part_of_object_init dev link 5 ≡ some (unsent dev link 5 oc_send_part_of_object_init))
    × (send_object_metadata_items dev link 5
        ≡ some (unsent dev link 5 oc_send_object_metadata_items))
    × (get_browse_info dev link 5 ≡ none)
    × (operate_object dev link 5 ≡ none)
    × (get_part_of_object dev link 5 ≡ none)
    × (get_treat_object dev link 5 ≡ none)
gets_unsent_example = gets_unsent (device gone) link 5 (λ code e. absurd (omega (arith, e)))

abbrev three : List ℕ
three = 7 ∷ 8 ∷ 9 ∷ []

abbrev taking : Device ℕ
taking = device (answering [] rc_ok)

abbrev part_taken :
    Takes taking link (event_request oc_send_part_of_object 5) (sized_bytes little three)
unfolding data_phase after_data
part_taken =
    let bytes = sized_bytes little three in
    exchanged [] (event_request oc_send_part_of_object 5) 1 (length bytes)
      (init_send_memory_handler (some bytes) (length bytes)) refl refl

send_part_of_object_example :
    Sends taking link part_taken (send_part_of_object taking link 5 (three ++ []) 3)
    × (dtoh64a little (sized_bytes little three) 0 ≡ some 3)
    × (fetch (sized_bytes little three) 8 3 ≡ some three)
send_part_of_object_example =
    send_part_of_object_lem taking link 5 three [] (omega arith) part_taken

abbrev copy_taken :
    Takes taking link
      (event_request oc_send_copy_confirmation_info 5)
      (confirmation_bytes taking link three 1000)
unfolding data_phase after_data
copy_taken =
    let bytes = confirmation_bytes taking link three 1000 in
    exchanged [] (event_request oc_send_copy_confirmation_info 5) 1 (length bytes)
      (init_send_memory_handler (some bytes) (length bytes)) refl refl

send_copy_confirmation_info_example :
    Sends taking link copy_taken
      (send_copy_confirmation_info taking link 5 (record { count = 3; ohfi = three }) 1000)
send_copy_confirmation_info_example =
    send_copy_confirmation_info_lem taking link 5 three 1000 copy_taken (omega arith)

abbrev plain : Params
plain = record {
  byteorder = little;
  host = little;
  cd_locale_to_ucs2 = none;
  cd_ucs2_to_locale = none;
}

-- The data of `check` are a string, a number and a part of an object at once.
abbrev same_bytes : List ℕ
same_bytes = 2 ∷ 65 ∷ 0 ∷ 0 ∷ 0 ∷ 1 ∷ 0 ∷ 0 ∷ []

abbrev checking : Device ℕ
checking = device (answering same_bytes rc_ok)

abbrev link_at : ℕ → Link ℕ
link_at n = record { session = record { transaction_id = 7 + n; session_id = 1 }; transport = n }

abbrev checked_object : IsChecked checking plain (λ n. true) link 9
unfolding get_object_prop_value get_partial_object perform transaction transaction_new data_phase
    after_data get_response memory_putfunc put_at store unpack_dpv ctval read_num dtoh64a fetch
    le_value wire_value kind_of unpack_string to_locale unpack_chars convert strdup dtoh8a dtoh16a
checked_object = record {
  sized = record { link = link_at 1; code = rc_ok; value = some (num 1099511644418) };
  named = record { link = link_at 2; code = rc_ok; value = some (str (some (65 ∷ []))) };
  part = record {
    link = link_at 3;
    code = rc_ok;
    value = record {
      container = record cnt_init {
        code = rc_ok;
        session_id = 1;
        transaction_id = 9;
        param1 = 9;
        param3 = 0x400;
        nparam = 3;
      };
      block = some same_bytes;
      len = 8;
    };
  };
  size = 1099511644418;
  name = some (65 ∷ []);
  sized_by = refl;
  sized_ok = refl;
  size_read = refl;
  named_by = refl;
  named_ok = refl;
  name_read = refl;
  part_by = refl;
  part_ok = refl;
  part_len = refl;
}

abbrev room : ExistanceObject
room = record { size = 0; name = none; data_length = 0; bytes = replicate 1024 0 }

check_existance_example :
    let c = checked_object in
    (c.part.value.len ≤ 1024
      → check_existance checking plain (λ n. true) link 9 room
        ≡ some (record {
          link = c.part.link;
          code = rc_ok;
          value =
              checked checking plain
                (λ n. true)
                link
                c
                (bytes_of c.part.value.block ++ drop c.part.value.len (replicate 1024 0));
        }))
    × (1024 < c.part.value.len → check_existance checking plain (λ n. true) link 9 room ≡ none)
check_existance_example = check_existance_lem checking plain (λ n. true) link 9 room checked_object

abbrev saved : ObjectMeta
saved = record {
  handle = 0;
  name = some (65 ∷ []);
  date_time_created = 100;
  size = 3;
  data_type = 18;
}

abbrev sent_object : Outcome ℕ SentInfo
sent_object = record {
  link = link_at 2;
  code = rc_ok;
  value = record { store = 0x10001; parent = 4; handle = 0 };
}

saved_sent : send_object taking plain link 4 0 saved (some three) ≡ some sent_object
unfolding send_object send_object_info ptp_send_object perform transaction transaction_new
    data_phase after_data get_response memory_getfunc pack_object_info pack_fields pack_string
    htod16a htod32a store wire_bytes to_ucs2 fill_ucs2 ucs2strlen host_units ucs2_array widen fetch
    htod8a
saved_sent = refl

send_object_example : IsSent taking plain link 4 saved (some three) sent_object
send_object_example =
    send_object-IsSent taking plain link 4 0 saved (some three) sent_object saved_sent refl
