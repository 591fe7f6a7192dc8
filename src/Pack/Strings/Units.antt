-- ===== src/Pack/Strings/Units.antt =====
-- The units that `ptp_pack_string` makes of characters without a converter, and what the loop of
-- `ptp_unpack_string` makes of units.
use mathlib.Core.List.{append_assoc}
use vita_mtp.Base.{
  ℕ, suc, ◌+◌, ◌-◌, ◌*◌, ◌≤◌, ◌<◌, ◌≡◌, refl, sym, ap, false, some, List, [], ◌∷◌, ◌++◌, arith,
  length, length-append, replicate, All, map, ◌==◌, ltb, if◌then◌else◌,
}
use vita_mtp.Bytes.{ByteOrder, little, big, wire_bytes, dtoh16a, wire_value}
use vita_mtp.Bytes.Layout.{fetch_at}
use vita_mtp.Bytes.Words.{length-wire_bytes}
use vita_mtp.Pack.Strings.{strdup, unpack_chars, widen, ucs2_array, host_units}
use vita_mtp.Pack.Strings.Layout.{IsUnits}

abbrev pub IsAscii : ℕ → Type 0
IsAscii c = (0 < c) × (c < 128)

-- A C string of 7-bit characters: none is NUL.
abbrev pub IsAsciiString : List ℕ → Type 0
IsAsciiString = All IsAscii

pub length-host_units : (h : ByteOrder) (s : List ℕ) → length (host_units h s) ≡ length s * 2
unfolding host_units
length-host_units h [] = refl
length-host_units h (c ∷ s) = omega (
  arith,
  length-append (wire_bytes h 2 (widen c)) (host_units h s),
  length-wire_bytes h 2 (widen c),
  length-host_units h s,
)

pub host_units-IsUnits :
    (h : ByteOrder) (s : List ℕ) → IsAsciiString s → IsUnits (length s) (host_units h s)
unfolding host_units
host_units-IsUnits h [] a = tt
host_units-IsUnits little (c ∷ s) a = (ground arith, host_units-IsUnits little s a.1)
host_units-IsUnits big (c ∷ s) a = (ground arith, host_units-IsUnits big s a.1)

pub host_units-append :
    (h : ByteOrder) (s t : List ℕ) → host_units h (s ++ t) ≡ host_units h s ++ host_units h t
unfolding host_units
host_units-append h [] t = refl
host_units-append h (c ∷ s) t = rw (host_units-append h s t, append_assoc)

pub strdup-append : (s rest : List ℕ) → All (λ c. 0 < c) s → strdup (s ++ (0 ∷ rest)) ≡ s
unfolding strdup
strdup-append [] rest a = refl
strdup-append (c ∷ s) rest a =
    let ne : (c == 0) ≡ false = ground arith in rw (ne, strdup-append s rest a.1)

-- The array has room for a terminator behind 255 units.
pub ucs2_array-ends :
    (u : List ℕ) → length u ≤ 510 → (more : List ℕ) × (ucs2_array u ≡ u ++ (0 ∷ 0 ∷ more))
unfolding ucs2_array
ucs2_array-ends u h =
    let room : 512 - length u ≡ suc (suc (510 - length u)) = omega arith in
    (replicate (510 - length u) 0, ap (λ k. u ++ replicate k 0) room)

-- What the loop makes of a character that the host stored, read in the device's byte order.
unfoldable pub shown : ByteOrder → ByteOrder → ℕ → ℕ
unfolding wire_value wire_bytes widen
shown o h c = let u = wire_value o (wire_bytes h 2 (widen c)) in if ltb 127 u then b'?' else u

pub unpack_chars-shown :
    (o h : ByteOrder) (pre cs rest : List ℕ) (offset i : ℕ)
    → offset + 1 + 2 * i ≡ length pre
    → unpack_chars o (pre ++ (host_units h cs ++ rest)) offset (length cs) i
      ≡ some (map (shown o h) cs)
unfolding unpack_chars host_units
unpack_chars-shown o h pre [] rest offset i e = refl
unpack_chars-shown o h pre (c ∷ cs) rest offset i e =
    let u : List ℕ = wire_bytes h 2 (widen c) in
    let two : 2 ≡ length u = sym (length-wire_bytes h 2 (widen c)) in
    let later : unpack_chars o (pre ++ ((u ++ host_units h cs) ++ rest)) offset (length cs) (i + 1)
        ≡ some (map (shown o h) cs) =
      rw (append_assoc u (host_units h cs) rest, ← append_assoc pre u (host_units h cs ++ rest))
        (unpack_chars-shown o h (pre ++ u) cs rest offset (i + 1)
          (omega (arith, length-append pre u))) in
    let first : dtoh16a o (pre ++ ((u ++ host_units h cs) ++ rest)) (offset + 1 + 2 * i)
        ≡ some (wire_value o u) =
      rw (append_assoc u (host_units h cs) rest)
        (unfold dtoh16a in rw (fetch_at pre u (host_units h cs ++ rest) e two) refl) in
    rw (first, later) (unfold shown in refl)

pub shown-same : (o : ByteOrder) (c : ℕ) → c < 128 → shown o o c ≡ c
unfolding shown
shown-same little c h = ground arith
shown-same big c h = ground arith

pub map-shown_same : (o : ByteOrder) (cs : List ℕ) → All (λ c. c < 128) cs → map (shown o o) cs ≡ cs
map-shown_same o [] a = refl
map-shown_same o (c ∷ cs) a = rw (shown-same o c a.0, map-shown_same o cs a.1)
