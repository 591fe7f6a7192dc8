-- ===== src/Pack/DeviceInfo.antt =====
-- Device info of src/ptp-pack.c: `ptp_unpack_DI`.
use vita_mtp.Base.{
  ℕ, ◌+◌, ◌*◌, ◌%◌, ◌^◌, Option, none, some, ◌>>=◌, List, ltb, if◌then◌else◌, length,
}
use vita_mtp.Bytes.{dtoh16a, dtoh32a}
use vita_mtp.Pack.Params.{Params}
use vita_mtp.Pack.Strings.{unpack_string}
use vita_mtp.Pack.Arrays.{unpack_u16_array}

-- `PTPDeviceInfo`; each array stands with its length.
pub record DeviceInfo : Type 0 where
  pub standard_version : ℕ
  pub vendor_extension_id : ℕ
  pub vendor_extension_version : ℕ
  pub vendor_extension_desc : Option (List ℕ)
  pub functional_mode : ℕ
  pub operations_supported : List ℕ
  pub events_supported : List ℕ
  pub device_properties_supported : List ℕ
  pub capture_formats : List ℕ
  pub image_formats : List ℕ
  pub manufacturer : Option (List ℕ)
  pub model : Option (List ℕ)
  pub device_version : Option (List ℕ)
  pub serial_number : Option (List ℕ)

-- A string at `PTP_di_OperationsSupported+totallen`, an offset of 16 bits, with `totallen` behind
-- it.
unfoldable pub next_string : Params → List ℕ → ℕ → Option (Option (List ℕ) × ℕ)
next_string p buf totallen = do
  (string, len) ← unpack_string p buf ((10 + totallen) % 2 ^ 16)
  some (string, totallen + len * 2 + 1)

-- An array there.
unfoldable pub next_array : Params → List ℕ → ℕ → Option (List ℕ × ℕ)
next_array p buf totallen = do
  xs ← unpack_u16_array p.byteorder buf ((10 + totallen) % 2 ^ 16)
  some (xs, totallen + length xs * 2 + 4)

-- The fields in the order of the dataset.
unfoldable pub unpack_fields : Params → List ℕ → Option DeviceInfo
unpack_fields p buf = do
  let o = p.byteorder
  standard_version ← dtoh16a o buf 0
  vendor_extension_id ← dtoh32a o buf 2
  vendor_extension_version ← dtoh16a o buf 6
  (vendor_extension_desc, len) ← unpack_string p buf 8
  functional_mode ← dtoh16a o buf (8 + (len * 2 + 1))
  (operations_supported, totallen) ← next_array p buf (len * 2 + 1)
  (events_supported, totallen) ← next_array p buf totallen
  (device_properties_supported, totallen) ← next_array p buf totallen
  (capture_formats, totallen) ← next_array p buf totallen
  (image_formats, totallen) ← next_array p buf totallen
  (manufacturer, totallen) ← next_string p buf totallen
  (model, totallen) ← next_string p buf totallen
  (device_version, totallen) ← next_string p buf totallen
  (serial_number, _) ← next_string p buf totallen
  some (record {
    standard_version = standard_version;
    vendor_extension_id = vendor_extension_id;
    vendor_extension_version = vendor_extension_version;
    vendor_extension_desc = vendor_extension_desc;
    functional_mode = functional_mode;
    operations_supported = operations_supported;
    events_supported = events_supported;
    device_properties_supported = device_properties_supported;
    capture_formats = capture_formats;
    image_formats = image_formats;
    manufacturer = manufacturer;
    model = model;
    device_version = device_version;
    serial_number = serial_number;
  })

-- `ptp_unpack_DI`, with `di` before the call. A fault is `none`.
unfoldable pub unpack_di : Params → Option (List ℕ) → DeviceInfo → ℕ → Option DeviceInfo
unpack_di p none di datalen = some di
unpack_di p (some buf) di datalen =
    let fields = unpack_fields p buf in if ltb datalen 12 then some di else fields
