-- ===== src/Pack/Strings/RoundTrip.antt =====
-- `ptp_unpack_string` on what `ptp_pack_string` wrote, with converters and without.
use vita_mtp.Base.{
  ℕ, ◌+◌, ◌*◌, ◌≤◌, ◌<◌, ◌≡◌, refl, ap, ◌∙◌, none, some, List, [], ◌∷◌, ◌++◌, arith, length,
  length-append, All, All-append,
}
use vita_mtp.Pack.Params.{Params}
use vita_mtp.Pack.Strings.{convert, host_units, to_ucs2, pack_string, unpack_string}
use vita_mtp.Pack.Strings.Layout.{IsUnits, wire_string, length-units, pack_string-layout}
use vita_mtp.Pack.Strings.Units.{
  IsAsciiString, length-host_units, host_units-IsUnits, map-shown_same,
}
use vita_mtp.Pack.Strings.Wire.{
  unpack_string-wire, to_ucs2-ascii, to_ucs2-converter, to_locale-chars, to_locale-converter,
  All-pos, All-lt,
}

-- A string of `n` units `u` that both directions carry: without converters, a string of 7-bit
-- characters on a host of the device's byte order; with converters, one that they agree on.
pub data IsCarried (p : Params) (s : List ℕ) (n : ℕ) (u : List ℕ) : Type 0 where
  plain :
      p.cd_locale_to_ucs2 ≡ none
      → p.cd_ucs2_to_locale ≡ none
      → p.host ≡ p.byteorder
      → IsAsciiString s
      → n ≡ length s
      → u ≡ host_units p.host s
      → IsCarried p s n u
  converted :
      convert p.cd_locale_to_ucs2 s 510 ≡ some u
      → convert p.cd_ucs2_to_locale (u ++ (0 ∷ 0 ∷ [])) 765 ≡ some (s ++ (0 ∷ []))
      → IsUnits n u
      → All (λ c. 0 < c) s
      → IsCarried p s n u

module _ (p : Params) (s : List ℕ) (n : ℕ) (u : List ℕ) (short : n ≤ 254) where
  pub IsUnits-of_carried : IsCarried p s n u → IsUnits n u
  IsUnits-of_carried (plain no_out no_in same ascii e e') =
      rw (e, e') (host_units-IsUnits p.host s ascii)
  IsUnits-of_carried (converted out back units no_nul) = units

  pub length_of_carried : IsCarried p s n u → length u ≡ n * 2
  length_of_carried c = length-units n u (IsUnits-of_carried c)

  to_ucs2-carried : IsCarried p s n u → (more : List ℕ) × (to_ucs2 p s ≡ some (u ++ (0 ∷ 0 ∷ more)))
  to_ucs2-carried (plain no_out no_in same ascii e e') =
      rw e' (to_ucs2-ascii p s no_out (omega arith))
  to_ucs2-carried (converted out back units no_nul) =
      to_ucs2-converter p s u out (omega (arith, length-units n u units))

  -- Packed, such a string takes just its room.
  pub pack_string-carried :
      (pre old rest : List ℕ) (offset : ℕ)
      → IsCarried p s n u
      → length old ≡ n * 2 + 3
      → offset ≡ length pre
      → pack_string p s (pre ++ (old ++ rest)) offset
        ≡ some (pre ++ (wire_string n u ++ rest), n + 1)
  pack_string-carried pre old rest offset c room at =
      let (more, converts) = to_ucs2-carried c in
      pack_string-layout p s n u more converts (IsUnits-of_carried c) short pre old rest offset room
        at

  pub unpack_string-carried :
      (pre rest : List ℕ) (offset : ℕ)
      → IsCarried p s n u
      → offset ≡ length pre
      → unpack_string p (pre ++ (wire_string n u ++ rest)) offset ≡ some (some s, n + 1)
  unpack_string-carried pre rest offset (plain no_out no_in same ascii e e') at =
      rw (e, e', at)
        (unpack_string-wire p pre (host_units p.host s) rest (length s) (length pre)
          (length-host_units p.host s) refl s (omega arith) (All-pos s ascii)
          (to_locale-chars p p.host s pre rest no_in
            ∙ rw same (
                ap some (
                  map-shown_same p.byteorder (s ++ (0 ∷ []))
                    (All-append (λ c. c < 128) s (0 ∷ []) (All-lt s ascii) (omega arith, tt))))))
  unpack_string-carried pre rest offset (converted out back units no_nul) at =
      let two : length u ≡ n * 2 = length-units n u units in
      unpack_string-wire p pre u rest n offset two at s short no_nul
        (to_locale-converter p pre u rest n offset two at (s ++ (0 ∷ [])) back)

-- A string of at most 254 units that is packed into room for it is unpacked again, if it is one
-- that is carried: without converters a string of 7-bit characters on a host of the device's
-- byte order, with converters one that they agree on. Just that room is written, and both
-- calls report the count of units with the terminator.
pub unpack_string-pack_string :
    (p : Params) (s u pre old rest : List ℕ) (n : ℕ)
    → IsCarried p s n u
    → n ≤ 254
    → length old ≡ n * 2 + 3
    → (new : List ℕ) × (length new ≡ length old)
      × (pack_string p s (pre ++ (old ++ rest)) (length pre) ≡ some (pre ++ (new ++ rest), n + 1))
      × (unpack_string p (pre ++ (new ++ rest)) (length pre) ≡ some (some s, n + 1))
unpack_string-pack_string p s u pre old rest n c short room = (
  wire_string n u,
  omega (arith, length-append u (0 ∷ 0 ∷ []), length_of_carried p s n u short c),
  pack_string-carried p s n u short pre old rest (length pre) c room refl,
  unpack_string-carried p s n u short pre rest (length pre) c refl,
)
