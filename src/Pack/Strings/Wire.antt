-- ===== src/Pack/Strings/Wire.antt =====
-- `ptp_unpack_string` on a string on the wire, and the array of units that `ptp_pack_string` makes.
use mathlib.Core.List.{append_assoc}
use vita_mtp.Base.{
  ℕ, ◌+◌, ◌*◌, ◌≤◌, ◌<◌, ◌≡◌, refl, ap, ◌∙◌, false, Option, none, some, List, [], ◌∷◌, ◌++◌, arith,
  length, length-append, All, map, ◌==◌, ltb,
}
use vita_mtp.Bytes.{ByteOrder, little, big, fetch, dtoh8a}
use vita_mtp.Bytes.Layout.{fetch_at}
use vita_mtp.Pack.Params.{Params, Converter}
use vita_mtp.Pack.Strings.{
  convert, to_locale, unpack_string, ucs2_array, host_units, fill_ucs2, to_ucs2,
}
use vita_mtp.Pack.Strings.Layout.{wire_string}
use vita_mtp.Pack.Strings.Units.{
  IsAsciiString, length-host_units, host_units-append, strdup-append, ucs2_array-ends, shown,
  unpack_chars-shown,
}

-- The bytes that `iconv` is given are the units with their terminator.
pub fetch-wire_string :
    (pre u rest : List ℕ) (n offset : ℕ)
    → length u ≡ n * 2
    → offset ≡ length pre
    → fetch (pre ++ (wire_string n u ++ rest)) (offset + 1) ((n + 1) * 2) ≡ some (u ++ (0 ∷ 0 ∷ []))
fetch-wire_string pre u rest n offset e e' =
    rw (← append_assoc pre ((n + 1) ∷ []) ((u ++ (0 ∷ 0 ∷ [])) ++ rest)) (
      fetch_at (pre ++ ((n + 1) ∷ [])) (u ++ (0 ∷ 0 ∷ [])) rest
        (omega (arith, length-append pre ((n + 1) ∷ [])))
        (omega (arith, length-append u (0 ∷ 0 ∷ []))))

module _ (p : Params) (pre u rest : List ℕ) (n offset : ℕ) (two : length u ≡ n * 2)
    (at : offset ≡ length pre) where
  abbrev pub wire : List ℕ
  wire = pre ++ (wire_string n u ++ rest)

  pub to_locale-converter :
      (out : List ℕ)
      → convert p.cd_ucs2_to_locale (u ++ (0 ∷ 0 ∷ [])) 765 ≡ some out
      → to_locale p wire offset (n + 1) ≡ some out
  unfolding to_locale
  to_locale-converter out e = rw (fetch-wire_string pre u rest n offset two at, e)

  pub unpack_string-wire :
      (s : List ℕ)
      → n ≤ 254
      → All (λ c. 0 < c) s
      → to_locale p wire offset (n + 1) ≡ some (s ++ (0 ∷ []))
      → unpack_string p wire offset ≡ some (some s, n + 1)
  unfolding unpack_string
  unpack_string-wire s short a e =
      let some_length : ((n + 1) == 0) ≡ false = ground arith in
      let count : dtoh8a wire offset ≡ some (n + 1) =
        unfold dtoh8a in
        rw (fetch_at pre ((n + 1) ∷ []) ((u ++ (0 ∷ 0 ∷ [])) ++ rest) at refl)
          (ap some (omega arith)) in
      rw (count, some_length, e, strdup-append s [] a)

-- Without a converter out of the locale.
pub to_ucs2-ascii :
    (p : Params) (s : List ℕ)
    → p.cd_locale_to_ucs2 ≡ none
    → length s ≤ 255
    → (more : List ℕ) × (to_ucs2 p s ≡ some (host_units p.host s ++ (0 ∷ 0 ∷ more)))
unfolding to_ucs2 fill_ucs2
to_ucs2-ascii p s e short =
    let (more, ends) =
      ucs2_array-ends (host_units p.host s) (omega (arith, length-host_units p.host s)) in
    let fits : ltb 255 (length s) ≡ false = ground arith in (more, rw (e, fits, ends) refl)

pub fill_ucs2-converter :
    (h : ByteOrder) (cd : Option Converter) (s u : List ℕ)
    → convert cd s 510 ≡ some u
    → fill_ucs2 h cd s ≡ some (ucs2_array u)
unfolding fill_ucs2 convert
fill_ucs2-converter h none s u e = cc
fill_ucs2-converter h (some cd) s u e = rw e

pub to_ucs2-converter :
    (p : Params) (s u : List ℕ)
    → convert p.cd_locale_to_ucs2 s 510 ≡ some u
    → length u ≤ 510
    → (more : List ℕ) × (to_ucs2 p s ≡ some (u ++ (0 ∷ 0 ∷ more)))
unfolding to_ucs2
to_ucs2-converter p s u e fits =
    let (more, ends) = ucs2_array-ends u fits in
    (more, fill_ucs2-converter p.host p.cd_locale_to_ucs2 s u e ∙ ap some ends)

pub host_units-terminated :
    (h : ByteOrder) (s : List ℕ) → host_units h (s ++ (0 ∷ [])) ≡ host_units h s ++ (0 ∷ 0 ∷ [])
unfolding host_units
host_units-terminated little s = host_units-append little s (0 ∷ [])
host_units-terminated big s = host_units-append big s (0 ∷ [])

-- Without a converter into the locale.
pub to_locale-chars :
    (p : Params) (h : ByteOrder) (s pre rest : List ℕ)
    → p.cd_ucs2_to_locale ≡ none
    → to_locale p
        (pre ++ (wire_string (length s) (host_units h s) ++ rest))
        (length pre)
        (length s + 1)
      ≡ some (map (shown p.byteorder h) (s ++ (0 ∷ [])))
unfolding to_locale convert
to_locale-chars p h s pre rest e =
    let cnt : List ℕ = (length s + 1) ∷ [] in
    let base =
      unpack_chars-shown p.byteorder h (pre ++ cnt) (s ++ (0 ∷ [])) rest (length pre) 0
        (omega (arith, length-append pre cnt)) in
    let chars =
      rw
        (
          host_units-terminated h s,
          length-append s (0 ∷ []),
          append_assoc pre cnt ((host_units h s ++ (0 ∷ 0 ∷ [])) ++ rest),
        )
        at base in
    rw
      (
        fetch-wire_string pre (host_units h s) rest (length s) (length pre) (length-host_units h s)
            refl,
        e,
      )
      chars

pub All-pos : (s : List ℕ) → IsAsciiString s → All (λ c. 0 < c) s
All-pos [] a = tt
All-pos (c ∷ s) a = (a.0.0, All-pos s a.1)

pub All-lt : (s : List ℕ) → IsAsciiString s → All (λ c. c < 128) s
All-lt [] a = tt
All-lt (c ∷ s) a = (a.0.1, All-lt s a.1)
