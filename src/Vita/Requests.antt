-- ===== src/Vita/Requests.antt =====
-- The operations of src/vitamtp.c that send a request without data.
use vita_mtp.Base.{ℕ, Option, none}
use vita_mtp.Cache.{rc_ok}
use vita_mtp.Transaction.{Container}
use vita_mtp.Vita.{Device, Link, Outcome, Received, cnt_init, dp_nodata, perform}
use vita_mtp.Vita.Codes.{
  oc_send_num_of_object, oc_report_result, oc_send_host_status, oc_keep_alive,
}

-- The containers that the operations make.
abbrev pub num_of_object_request : ℕ → ℕ → Container
num_of_object_request event_id num = record cnt_init {
  code = oc_send_num_of_object;
  nparam = 2;
  param1 = event_id;
  param2 = num;
}

abbrev pub report_request : ℕ → ℕ → Container
report_request event_id result = record cnt_init {
  code = oc_report_result;
  nparam = 2;
  param1 = event_id;
  param2 = result;
}

abbrev pub report_with_param_request : ℕ → ℕ → ℕ → Container
report_with_param_request event_id result param = record cnt_init {
  code = oc_report_result;
  nparam = 3;
  param1 = event_id;
  param2 = result;
  param3 = param;
}

abbrev pub host_status_request : ℕ → Container
host_status_request status = record cnt_init {
  code = oc_send_host_status;
  nparam = 1;
  param1 = status;
}

abbrev pub keep_alive_request : ℕ → Container
keep_alive_request event_id = record cnt_init {
  code = oc_keep_alive;
  nparam = 1;
  param1 = event_id;
}

module _ {T : Type 0} (dev : Device T) (k : Link T) where
  -- `ptp_transaction(params, &ptp, PTP_DP_NODATA, 0, NULL, 0)`.
  abbrev pub no_data : Container → Option (Outcome T Received)
  no_data ptp = perform dev ptp dp_nodata 0 none k

  unfoldable pub send_num_of_object : ℕ → ℕ → Option (Outcome T Received)
  send_num_of_object event_id num = no_data (num_of_object_request event_id num)

  unfoldable pub report_result : ℕ → ℕ → Option (Outcome T Received)
  report_result event_id result = no_data (report_request event_id result)

  unfoldable pub report_result_with_param : ℕ → ℕ → ℕ → Option (Outcome T Received)
  report_result_with_param event_id result param =
      no_data (report_with_param_request event_id result param)

  unfoldable pub send_host_status : ℕ → Option (Outcome T Received)
  send_host_status status = no_data (host_status_request status)

  unfoldable pub keep_alive : ℕ → Option (Outcome T Received)
  keep_alive event_id = no_data (keep_alive_request event_id)

-- `VitaMTP_CancelTask`, which is not implemented.
abbrev pub cancel_task : ℕ → ℕ
cancel_task cancel_event_id = rc_ok
