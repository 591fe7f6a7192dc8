-- ===== src/Pack/Descriptions/Tests.antt =====
-- Descriptions of properties at concrete datasets.
use vita_mtp.Base.{◌≡◌, refl, true, none, some, [], ◌∷◌, ◌++◌, arith}
use vita_mtp.Bytes.{little, wire_bytes, dtoh8a, dtoh16a, dtoh32a}
use vita_mtp.Pack.Arrays.RoundTrip.{elements}
use vita_mtp.Pack.Params.{Params}
use vita_mtp.Pack.Values.{num, w16, number, kind_of, ctval, read_num, unpack_dpv}
use vita_mtp.Pack.Descriptions.{enumeration, range, value_at, form_at, unpack_dpd}
use vita_mtp.Pack.Descriptions.Enumeration.{form_at-enumeration, values_of}

abbrev plain : Params
plain = record {
  byteorder = little;
  host = little;
  cd_locale_to_ucs2 = none;
  cd_ucs2_to_locale = none;
}

-- The count of a device that writes 1 in the wrong byte order.
form_at-enumeration_example :
    form_at plain
      (λ n. true)
      ((9 ∷ []) ++ (wire_bytes plain.byteorder 2 256 ++ elements plain.byteorder 2 (513 ∷ [])))
      5
      (number w16)
      2
      1
    ≡ some (some (enumeration (values_of (513 ∷ []))))
form_at-enumeration_example =
    form_at-enumeration plain (λ n. true) (9 ∷ []) [] 513 256 1 5 w16 (λ n. refl) (omega arith, tt)
      (omega arith) (omega arith) refl refl

-- A range of bytes.
unpack_dpd_run :
    unpack_dpd plain (λ n. true) (1 ∷ 0x50 ∷ 2 ∷ 0 ∷ 1 ∷ 50 ∷ 60 ∷ 1 ∷ 0 ∷ 100 ∷ 5 ∷ []) 11
    ≡ some (
        some (record {
          device_property_code = 0x5001;
          data_type = 2;
          get_set = 1;
          factory_default_value = some (num 50);
          current_value = some (num 60);
          form_flag = 1;
          form = range (some (num 0)) (some (num 100)) (some (num 5));
        }))
unfolding unpack_dpd value_at form_at unpack_dpv kind_of ctval read_num dtoh8a dtoh16a dtoh32a
unpack_dpd_run = refl
