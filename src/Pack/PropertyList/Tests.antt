-- ===== src/Pack/PropertyList/Tests.antt =====
-- A property list that is packed and read back.
use vita_mtp.Base.{
  ℕ, ◌≡◌, refl, true, none, some, List, [], ◌∷◌, reverse, map, arith, length, length-replicate,
  replicate,
}
use vita_mtp.Bytes.{little, wire_bytes, le_bytes}
use vita_mtp.Pack.Params.{Params}
use vita_mtp.Pack.Values.{MtpProperty, num, arr, kind_of}
use vita_mtp.Pack.PropertyList.{pack_opl, unpack_opl}
use vita_mtp.Pack.PropertyList.Wire.{entry_of}
use vita_mtp.Pack.PropertyList.RoundTrip.{unpack_opl-pack_opl}

abbrev plain : Params
plain = record {
  byteorder = little;
  host = little;
  cd_locale_to_ucs2 = none;
  cd_ucs2_to_locale = none;
}

abbrev props : List MtpProperty
props =
    record { property = 0xdc04; datatype = 8; object_handle = 9; propval = num 0x100000001 }
    ∷ record { property = 0xdc91; datatype = 0x4002; object_handle = 2; propval = arr (1 ∷ 2 ∷ []) }
    ∷ []

unpack_opl-pack_opl_example :
    (bytes : List ℕ) × (pack_opl plain (λ n. replicate n 7) [] props ≡ some (bytes, length bytes))
    × (unpack_opl plain (λ n. true) (λ n. true) reverse bytes (length bytes)
        ≡ some (reverse (map entry_of props)))
unfolding kind_of wire_bytes le_bytes
unpack_opl-pack_opl_example =
    unpack_opl-pack_opl plain (λ n. replicate n 7) [] (λ n. true) (λ n. true) reverse props
      (λ n. length-replicate n 7) (λ n. refl) (λ n. refl) refl (omega arith) (omega arith)
      (omega arith)
