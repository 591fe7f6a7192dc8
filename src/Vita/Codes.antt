-- ===== src/Vita/Codes.antt =====
-- The operation codes of src/vitamtp.h (`PTP_OC_VITA_*`).
use vita_mtp.Base.{ℕ}

abbrev pub oc_get_vita_info : ℕ
oc_get_vita_info = 0x9511

abbrev pub oc_send_num_of_object : ℕ
oc_send_num_of_object = 0x9513

abbrev pub oc_get_browse_info : ℕ
oc_get_browse_info = 0x9514

abbrev pub oc_send_object_metadata : ℕ
oc_send_object_metadata = 0x9515

abbrev pub oc_send_object_thumb : ℕ
oc_send_object_thumb = 0x9516

abbrev pub oc_report_result : ℕ
oc_report_result = 0x9518

abbrev pub oc_send_initiator_info : ℕ
oc_send_initiator_info = 0x951c

abbrev pub oc_get_url : ℕ
oc_get_url = 0x951f

abbrev pub oc_send_http_object_from_url : ℕ
oc_send_http_object_from_url = 0x9520

abbrev pub oc_send_np_account_info : ℕ
oc_send_np_account_info = 0x9523

abbrev pub oc_get_setting_info : ℕ
oc_get_setting_info = 0x9524

abbrev pub oc_send_object_status : ℕ
oc_send_object_status = 0x9528

abbrev pub oc_send_http_object_prop_from_url : ℕ
oc_send_http_object_prop_from_url = 0x9529

abbrev pub oc_send_host_status : ℕ
oc_send_host_status = 0x952a

abbrev pub oc_send_part_of_object_init : ℕ
oc_send_part_of_object_init = 0x952b

abbrev pub oc_send_part_of_object : ℕ
oc_send_part_of_object = 0x952c

abbrev pub oc_operate_object : ℕ
oc_operate_object = 0x952e

abbrev pub oc_get_part_of_object : ℕ
oc_get_part_of_object = 0x952f

abbrev pub oc_send_storage_size : ℕ
oc_send_storage_size = 0x9533

abbrev pub oc_get_treat_object : ℕ
oc_get_treat_object = 0x9534

abbrev pub oc_send_copy_confirmation_info : ℕ
oc_send_copy_confirmation_info = 0x9535

abbrev pub oc_send_object_metadata_items : ℕ
oc_send_object_metadata_items = 0x9536

abbrev pub oc_send_copy_confirmation_info_init : ℕ
oc_send_copy_confirmation_info_init = 0x9537

abbrev pub oc_keep_alive : ℕ
oc_keep_alive = 0x9538

abbrev pub oc_get_vita_capability_info : ℕ
oc_get_vita_capability_info = 0x953b

abbrev pub oc_send_pc_capability_info : ℕ
oc_send_pc_capability_info = 0x953c
