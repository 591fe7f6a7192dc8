-- ===== src/Pack/Params.antt =====
-- The fields of `PTPParams` (src/ptp.h) that the packing functions read, and `iconv`.
use vita_mtp.Base.{ℕ, Option, List}
use vita_mtp.Bytes.{ByteOrder}

-- An open `iconv_t` with the room that the output buffer has: the bytes written, or `none` for
-- the result (size_t) -1. `iconv` is the C library's.
abbrev pub Converter : Type 0
Converter = List ℕ → ℕ → Option (List ℕ)

-- `none` for the descriptor (iconv_t) -1, or for a build without iconv. `host` is the byte order
-- of the machine that runs the library, which C does not hold in a variable.
pub record Params : Type 0 where
  pub byteorder : ByteOrder
  pub host : ByteOrder
  pub cd_locale_to_ucs2 : Option Converter
  pub cd_ucs2_to_locale : Option Converter
