-- ===== src/Pack/Strings/Edges.antt =====
-- Strings that do not fit: `ptp_pack_string` and `ptp_get_packed_stringcopy` at their limits.
use vita_mtp.Base.{All, ℕ, ◌<◌, ◌≡◌, none, some, List, [], length}
use vita_mtp.Pack.Params.{Converter, Params}
use vita_mtp.Pack.Strings.{host_units, convert}
use vita_mtp.Pack.Strings.Layout.{IsUnits}

-- A character of a C string: a byte that is not NUL.
abbrev pub IsChar : ℕ → Type 0
IsChar c = (0 < c) × (c < 256)

-- The units of a string: what a converter makes of it, nothing where that fails, and without a
-- converter one unit for each character.
pub data IsEncoded (p : Params) (s : List ℕ) (n : ℕ) (u : List ℕ) : Type 0 where
  converted_out : convert p.cd_locale_to_ucs2 s 510 ≡ some u → IsUnits n u → IsEncoded p s n u
  refused :
      (cd : Converter)
      → p.cd_locale_to_ucs2 ≡ some cd
      → cd s 510 ≡ none
      → n ≡ 0
      → u ≡ []
      → IsEncoded p s n u
  widened :
      p.cd_locale_to_ucs2 ≡ none
      → All IsChar s
      → n ≡ length s
      → u ≡ host_units p.host s
      → IsEncoded p s n u
