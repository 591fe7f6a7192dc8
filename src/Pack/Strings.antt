-- ===== src/Pack/Strings.antt =====
-- src/ptp-pack.c, lines 98 to 248: strings on the wire, a count byte and 16-bit units. A C string
-- is the list of its bytes without the final NUL; a fault is `none`.
pub mod Edges
pub mod Layout
pub mod RoundTrip
mod Tests
pub mod Units
pub mod Wire
use vita_mtp.Base.{
  ℕ, zero, suc, ◌+◌, ◌-◌, ◌*◌, ◌%◌, ◌≡◌, refl, Bool, ◌&&◌, Option, none, some, List, [], ◌∷◌, ◌++◌,
  ◌>>=◌, ltb, ◌==◌, if◌then◌else◌, length, replicate,
}
use mathlib.Core.Option
use vita_mtp.Bytes.{
  ByteOrder, little, big, fetch, store, wire_bytes, dtoh8a, dtoh16a, htod8a, htod16a,
}
use vita_mtp.Pack.Params.{Params, Converter}

abbrev pub max_str_len : ℕ
max_str_len = 255

-- What `strdup` copies of an array of characters: all before the first NUL.
unfoldable pub strdup : List ℕ → List ℕ
strdup [] = []
strdup (c ∷ cs) = if c == 0 then [] else c ∷ strdup cs

-- The loop of `ptp_unpack_string` that does it the hard way, with `left` rounds to go.
unfoldable pub unpack_chars : ByteOrder → List ℕ → ℕ → ℕ → ℕ → Option (List ℕ)
unpack_chars o buf offset zero i = some []
unpack_chars o buf offset (suc left) i = do
  u ← dtoh16a o buf (offset + 1 + 2 * i)
  cs ← unpack_chars o buf offset left (i + 1)
  some ((if ltb 127 u then b'?' else u) ∷ cs)

-- What `iconv` leaves in the buffer, if there is a converter and it does not fail.
unfoldable pub convert : Option Converter → List ℕ → ℕ → Option (List ℕ)
convert none input room = none
convert (some cd) input room = cd input room

-- The converted string, or what the loop makes of it.
abbrev pub or_hard_way : Option (List ℕ) → Option (List ℕ) → Option (List ℕ)
or_hard_way none chars = chars
or_hard_way (some out) chars = some out

-- The conversion of `length` units at `offset + 1`; `iconv` may fill `loclstr` but for one byte.
unfoldable pub to_locale : Params → List ℕ → ℕ → ℕ → Option (List ℕ)
to_locale p buf offset length = do
  string ← fetch buf (offset + 1) (length * 2)
  or_hard_way (convert p.cd_ucs2_to_locale string (max_str_len * 3))
      (unpack_chars p.byteorder buf offset length 0)

-- The string, if there is one, and what is stored in `*len`.
unfoldable pub unpack_string : Params → List ℕ → ℕ → Option (Option (List ℕ) × ℕ)
unpack_string p buf offset = do
  length ← dtoh8a buf offset
  if length == 0
      then some (none, length)
      else do loclstr ← to_locale p buf offset length; some (some (strdup loclstr), length)

-- `ucs2str[i] = string[i]`: a `char` is signed, and is widened to 16 bits.
unfoldable pub widen : ℕ → ℕ
widen c = if ltb c 128 then c else c + 0xff00

-- The 512 bytes of `ucs2str`, cleared and then filled from the front.
abbrev pub ucs2_size : ℕ
ucs2_size = (max_str_len + 1) * 2

unfoldable pub ucs2_array : List ℕ → List ℕ
ucs2_array front = front ++ replicate (ucs2_size - length front) 0

-- The loop that widens the string, with the host's byte order for each unit.
unfoldable pub host_units : ByteOrder → List ℕ → List ℕ
unfolding widen wire_bytes
host_units host [] = []
host_units host (c ∷ string) = wire_bytes host 2 (widen c) ++ host_units host string

-- A failed conversion leaves an empty string. Without a converter, a string that leaves no room
-- for the terminator is written past the end of the array.
unfoldable pub fill_ucs2 : ByteOrder → Option Converter → List ℕ → Option (List ℕ)
fill_ucs2 host (some cd) string = some (ucs2_array (Option.get_or (cd string (max_str_len * 2)) []))
fill_ucs2 host none string =
    if ltb max_str_len (length string) then none else some (ucs2_array (host_units host string))

unfoldable pub to_ucs2 : Params → List ℕ → Option (List ℕ)
to_ucs2 p string = fill_ucs2 p.host p.cd_locale_to_ucs2 string

-- A run over the array without a terminating unit reads past its end.
unfoldable pub ucs2strlen : List ℕ → Option ℕ
ucs2strlen [] = none
ucs2strlen (a ∷ []) = none
ucs2strlen (a ∷ b ∷ units) =
    if (a == 0) && (b == 0) then some 0 else Option.map (λ n. n + 1) (ucs2strlen units)

-- The buffer `data` after the call and `*len`.
unfoldable pub pack_string : Params → List ℕ → List ℕ → ℕ → Option (List ℕ × ℕ)
pack_string p string buf offset = do
  ucs2str ← to_ucs2 p string
  packedlen ← ucs2strlen ucs2str
  if ltb (max_str_len - 1) packedlen then some (buf, 0) else do
    buf ← htod8a buf offset (packedlen + 1)
    units ← fetch ucs2str 0 (packedlen * 2)
    buf ← store buf (offset + 1) units
    buf ← htod16a p.byteorder buf (offset + packedlen * 2 + 1) 0
    some (buf, (packedlen % 256 + 1) % 256)

-- `packed` is the local array of `PTP_MAXSTRLEN*2+3` bytes as it stands when the call begins. A
-- null string is packed as an empty one.
unfoldable pub get_packed_stringcopy : Params → List ℕ → Option (List ℕ) → Option (List ℕ)
get_packed_stringcopy p packed string = do
  (packed, len) ← pack_string p (Option.get_or string []) packed 0
  fetch packed 0 (len * 2 + 1)
