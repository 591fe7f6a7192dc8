-- ===== src/Pack/Values/Tests.antt =====
-- Values of properties, and the theorem about them at an array.
use vita_mtp.Base.{
  ℕ, ◌+◌, ◌≤◌, ◌≡◌, refl, true, none, some, List, [], ◌∷◌, ◌++◌, arith, length, length-replicate,
  replicate,
}
use vita_mtp.Bytes.{little, big, dtoh8a, dtoh16a}
use vita_mtp.Pack.Params.{Params}
use vita_mtp.Pack.Values.{
  PropertyValue, num, arr, w8, w16, number, array, kind_of, ok, unpack_dpv, pack_dpv, ctval,
  read_num,
}
use vita_mtp.Pack.Values.Advance.{Advances, unpack_dpv-Advances}
use vita_mtp.Pack.Values.RoundTrip.{unpack_dpv-pack_dpv}

abbrev plain : Params
plain = record {
  byteorder = big;
  host = little;
  cd_locale_to_ucs2 = none;
  cd_ucs2_to_locale = none;
}

abbrev three : PropertyValue
three = arr (1 ∷ 0x203 ∷ 9 ∷ [])

unpack_dpv-pack_dpv_example :
    (bytes : List ℕ) × (pack_dpv plain (λ n. replicate n 7) [] three (array w16)
      ≡ some (some bytes, length bytes))
    × ((pre rest : List ℕ) (total : ℕ)
        → length pre + length bytes ≤ total
        → unpack_dpv plain (λ n. true) (pre ++ (bytes ++ rest)) (length pre) total (array w16)
          ≡ some (ok (length pre + length bytes) (some three)))
unpack_dpv-pack_dpv_example =
    unpack_dpv-pack_dpv plain (λ n. replicate n 7) [] (λ n. true) (array w16) three
      (λ n. length-replicate n 7) (λ n. refl) (omega arith)

kind_of_auint16 : kind_of 0x4004 ≡ array w16
unfolding kind_of
kind_of_auint16 = refl

-- Behind the end of the dataset nothing is refused: the number there is read.
unpack_behind :
    unpack_dpv plain (λ n. true) (1 ∷ 2 ∷ 3 ∷ []) 2 1 (number w8) ≡ some (ok 3 (some (num 3)))
unfolding unpack_dpv ctval read_num dtoh8a
unpack_behind = refl

unpack_word :
    unpack_dpv plain (λ n. true) (0 ∷ 1 ∷ 2 ∷ []) 1 3 (number w16) ≡ some (ok 3 (some (num 258)))
unfolding unpack_dpv ctval read_num dtoh16a
unpack_word = refl

unpack_dpv-Advances_example : Advances 1 (ok 3 (some (num 258)))
unpack_dpv-Advances_example =
    unpack_dpv-Advances plain (λ n. true) (0 ∷ 1 ∷ 2 ∷ []) 1 3 (number w16) (ok 3 (some (num 258)))
      unpack_word
