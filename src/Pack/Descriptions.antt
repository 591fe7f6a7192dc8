-- ===== src/Pack/Descriptions.antt =====
-- The descriptions of properties of src/ptp-pack.c: `ptp_unpack_DPD` and `ptp_unpack_OPD`.
pub mod Enumeration
mod Tests
use mathlib.Core.Option
use vita_mtp.Base.{
  ℕ, zero, suc, ◌+◌, ◌*◌, Bool, ◌&&◌, Option, none, some, ◌>>=◌, List, [], ◌∷◌, ◌==◌, if◌then◌else◌,
}
use vita_mtp.Bytes.{dtoh8a, dtoh16a, dtoh32a}
use vita_mtp.Pack.Params.{Params}
use vita_mtp.Pack.Values.{PropertyValue, Kind, kind_of, Unpacked, ok, failed, unpack_dpv}

-- The union `FORM`. A value of 128 bits, which is skipped, is left as it was cleared: `none`.
pub data Form : Type 0 where
  no_form : Form
  range : (minimum maximum step : Option PropertyValue) → Form
  enumeration : List (Option PropertyValue) → Form

-- `PTPDevicePropDesc`.
pub record DevicePropDesc : Type 0 where
  pub device_property_code : ℕ
  pub data_type : ℕ
  pub get_set : ℕ
  pub factory_default_value : Option PropertyValue
  pub current_value : Option PropertyValue
  pub form_flag : ℕ
  pub form : Form

-- `PTPObjectPropDesc`.
pub record ObjectPropDesc : Type 0 where
  pub object_property_code : ℕ
  pub data_type : ℕ
  pub get_set : ℕ
  pub factory_default_value : Option PropertyValue
  pub group_code : ℕ
  pub form_flag : ℕ
  pub form : Form

module _ (p : Params) (malloc_ok : ℕ → Bool) (buf : List ℕ) (total : ℕ) (kind : Kind) where
  -- A value with the offset behind it: `some none` is `goto outofmemory`.
  unfoldable pub value_at : ℕ → Option (Option (Option PropertyValue × ℕ))
  value_at offset = unpack_dpv p malloc_ok buf offset total kind >>= λ r. elim r [
    | ok offset' value ↦ some (some (value, offset'))
    | failed _ ↦ some none
  ]

  -- The loop over the enumeration with `left` values to go, which ends at the first one that
  -- fails; the first of all must not.
  unfoldable pub values_at : ℕ → ℕ → Option (List (Option PropertyValue))
  values_at zero offset = some []
  values_at (suc left) offset = value_at offset >>= λ r. elim r [
    | none ↦ some []
    | some v ↦ values_at left v.1 >>= λ rest. some (v.0 ∷ rest)
  ]

  abbrev pub enumerated : ℕ → List (Option PropertyValue) → Option Form
  enumerated zero values = some (enumeration values)
  enumerated (suc n) [] = none
  enumerated (suc n) (v ∷ values) = some (enumeration (v ∷ values))

  -- The `switch` on the form flag: `some none` is `goto outofmemory`. A value takes 16 bytes.
  unfoldable pub form_at : ℕ → ℕ → Option (Option Form)
  form_at flag offset =
      let ranged = value_at offset >>= λ r. elim r [
        | none ↦ some none
        | some minimum ↦ value_at minimum.1 >>= λ r. elim r [
          | none ↦ some none
          | some maximum ↦ value_at maximum.1 >>= λ r. elim r [
            | none ↦ some none
            | some step ↦ some (some (range minimum.0 maximum.0 step.0))
          ]
        ]
      ] in
      let listed = dtoh16a p.byteorder buf offset >>= λ n.
      let values = values_at n (offset + 2) in
      if malloc_ok (n * 16) then Option.map (enumerated n) values else some none in
      if flag == 1 then ranged else if flag == 2 then listed else some (some no_form)

-- `ptp_unpack_DPD`: `some none` is the return with 0, everything freed.
unfoldable pub unpack_dpd : Params → (ℕ → Bool) → List ℕ → ℕ → Option (Option DevicePropDesc)
unpack_dpd p malloc_ok buf dpdlen =
    let o = p.byteorder in
    dtoh16a o buf 0 >>= λ device_property_code. dtoh16a o buf 2 >>= λ data_type.
    dtoh8a buf 4 >>= λ get_set.
    let kind = kind_of data_type in
    let desc : Option PropertyValue → Option PropertyValue → ℕ → Form → DevicePropDesc =
      (λ factory current flag form. record {
        device_property_code = device_property_code;
        data_type = data_type;
        get_set = get_set;
        factory_default_value = factory;
        current_value = current;
        form_flag = flag;
        form = form;
      }) in
    value_at p malloc_ok buf dpdlen kind 5 >>= λ r. elim r [
      | none ↦ some none
      | some factory ↦
          let rest = value_at p malloc_ok buf dpdlen kind factory.1 >>= λ r. elim r [
            | none ↦ some none
            | some current ↦
                let formed = dtoh8a buf current.1 >>= λ flag.
                form_at p malloc_ok buf dpdlen kind flag (current.1 + 1) >>= λ form.
                some (Option.map (desc factory.0 current.0 flag) form) in
                if current.1 == 5 then some (some (desc factory.0 current.0 0 no_form)) else formed
          ] in
          if (data_type == 0xffff) && (factory.1 == dpdlen)
          then some (some (desc factory.0 none 0 no_form))
          else rest
    ]

-- `ptp_unpack_OPD`.
unfoldable pub unpack_opd : Params → (ℕ → Bool) → List ℕ → ℕ → Option (Option ObjectPropDesc)
unpack_opd p malloc_ok buf opdlen =
    let o = p.byteorder in
    dtoh16a o buf 0 >>= λ object_property_code. dtoh16a o buf 2 >>= λ data_type.
    dtoh8a buf 4 >>= λ get_set.
    let kind = kind_of data_type in
    value_at p malloc_ok buf opdlen kind 5 >>= λ r. elim r [
      | none ↦ some none
      | some factory ↦ dtoh32a o buf factory.1 >>= λ group_code.
          dtoh8a buf (factory.1 + 4) >>= λ flag.
          form_at p malloc_ok buf opdlen kind flag (factory.1 + 5) >>= λ form. some (
            Option.map
              (λ form. record {
                object_property_code = object_property_code;
                data_type = data_type;
                get_set = get_set;
                factory_default_value = factory.0;
                group_code = group_code;
                form_flag = flag;
                form = form;
              })
              form)
    ]
