-- ===== src/Pack/Strings/Tests.antt =====
-- The theorems on strings at concrete strings and converters.
use vita_mtp.Base.{
  ℕ, ◌≡◌, refl, Option, none, some, List, [], ◌∷◌, ◌++◌, arith, length, replicate, ◌>>=◌,
}
use vita_mtp.Bytes.{ByteOrder, little, htod8a, htod16a, fetch, dtoh8a, dtoh16a}
use vita_mtp.Pack.Params.{Params}
use vita_mtp.Pack.Strings.{
  pack_string, unpack_string, get_packed_stringcopy, convert, host_units, to_ucs2, fill_ucs2,
  ucs2_array, ucs2strlen, to_locale, unpack_chars, strdup,
}
use vita_mtp.Pack.Strings.RoundTrip.{IsCarried, converted, unpack_string-pack_string}

-- A build without iconv, on a host of the given byte order.
abbrev plain : ByteOrder → Params
plain h = record {
  byteorder = little;
  host = h;
  cd_locale_to_ucs2 = none;
  cd_ucs2_to_locale = none;
}

-- Converters between Latin-1 and little-endian UCS-2, as far as the room goes.
widen_latin1 : List ℕ → ℕ → Option (List ℕ)
widen_latin1 [] room = some []
widen_latin1 (c ∷ s) room = do units ← widen_latin1 s room; some (c ∷ 0 ∷ units)

narrow_latin1 : List ℕ → ℕ → Option (List ℕ)
narrow_latin1 (c ∷ _ ∷ units) room = do s ← narrow_latin1 units room; some (c ∷ s)
narrow_latin1 _ room = some []

abbrev latin1 : Params
latin1 = record {
  byteorder = little;
  host = little;
  cd_locale_to_ucs2 = some widen_latin1;
  cd_ucs2_to_locale = some narrow_latin1;
}

abbrev vita : List ℕ
vita = b'V' ∷ b'i' ∷ b't' ∷ b'a' ∷ []

abbrev cafe : List ℕ
cafe = b'c' ∷ 0xe9 ∷ []

abbrev long_name : List ℕ
long_name = replicate 255 b'a'

plain-vita :
    (new : List ℕ) × (length new ≡ 11)
    × (pack_string (plain little) vita (9 ∷ (replicate 11 0 ++ (8 ∷ []))) 1
        ≡ some (9 ∷ (new ++ (8 ∷ [])), 5))
    × (unpack_string (plain little) (9 ∷ (new ++ (8 ∷ []))) 1 ≡ some (some vita, 5))
unfolding host_units
plain-vita =
    unpack_string-pack_string (plain little) vita (b'V' ∷ 0 ∷ b'i' ∷ 0 ∷ b't' ∷ 0 ∷ b'a' ∷ 0 ∷ [])
      (9 ∷ []) (replicate 11 0) (8 ∷ []) 4 (IsCarried.plain refl refl refl (omega arith) refl refl)
      (omega arith) refl

unpack_string-pack_string_example :
    (new : List ℕ) × (length new ≡ 7)
    × (pack_string latin1 cafe (9 ∷ (replicate 7 0 ++ (8 ∷ []))) 1
        ≡ some (9 ∷ (new ++ (8 ∷ [])), 3))
    × (unpack_string latin1 (9 ∷ (new ++ (8 ∷ []))) 1 ≡ some (some cafe, 3))
unfolding widen_latin1 narrow_latin1 convert
unpack_string-pack_string_example =
    unpack_string-pack_string latin1 cafe (b'c' ∷ 0 ∷ 0xe9 ∷ 0 ∷ []) (9 ∷ []) (replicate 7 0)
      (8 ∷ []) 2 (converted refl refl (refl, (refl, tt)) (omega arith)) (omega arith) refl

test_pack :
    get_packed_stringcopy (plain little) (replicate 513 7) (some (65 ∷ 66 ∷ []))
    ≡ some (3 ∷ 65 ∷ 0 ∷ 66 ∷ 0 ∷ 0 ∷ 0 ∷ [])
unfolding get_packed_stringcopy pack_string to_ucs2 fill_ucs2 ucs2_array host_units ucs2strlen
    htod8a htod16a fetch
test_pack = refl

test_unpack :
    unpack_string (plain little) (9 ∷ 3 ∷ 65 ∷ 0 ∷ 66 ∷ 1 ∷ 0 ∷ 0 ∷ []) 1
    ≡ some (some (65 ∷ 63 ∷ []), 3)
unfolding unpack_string to_locale convert unpack_chars strdup dtoh8a dtoh16a
test_unpack = refl
