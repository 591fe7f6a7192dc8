-- ===== src/Pack/Times.antt =====
-- `ptp_unpack_PTPTIME` of src/ptp-pack.c, lines 518 to 561: YYYYMMDDThhmmss as a time.
use vita_mtp.Base.{
  ℕ, ◌+◌, ◌-◌, ◌*◌, ◌≡◌, refl, Bool, ◌&&◌, ◌||◌, Option, none, some, List, [], ◌∷◌, ltb, leb, ◌==◌,
  if◌then◌else◌, length, take, drop, ℤ, pos, negsuc, negate, minus_ℕ,
}

-- The fields of `struct tm` that are set; `tm_isdst` is -1 and the others are 0.
pub record Tm : Type 0 where
  pub year : ℤ
  pub mon : ℤ
  pub mday : ℤ
  pub hour : ℤ
  pub min : ℤ
  pub sec : ℤ

unfoldable pub is_space : ℕ → Bool
is_space c = (leb 9 c && leb c 13) || (c == 32)

unfoldable pub is_digit : ℕ → Bool
is_digit c = leb b'0' c && leb c b'9'

digits_from : ℕ → List ℕ → ℕ
unfolding is_digit
digits_from acc [] = acc
digits_from acc (c ∷ cs) =
    let rest = digits_from (acc * 10 + (c - b'0')) cs in if is_digit c then rest else acc

signed_number : List ℕ → ℤ
unfolding digits_from
signed_number [] = pos 0
signed_number (c ∷ cs) =
    if c == b'-'
    then negate (pos (digits_from 0 cs))
    else if c == b'+'
    then pos (digits_from 0 cs)
    else pos (digits_from 0 (c ∷ cs))

-- The C library's `atoi`: blanks, a sign, digits.
unfoldable pub atoi : List ℕ → ℤ
unfolding is_space signed_number
atoi [] = pos 0
atoi (c ∷ cs) = let rest = atoi cs in if is_space c then rest else signed_number (c ∷ cs)

-- `strncpy (tmp, ptpdate + from, count)` with its NUL.
abbrev part : List ℕ → ℕ → ℕ → List ℕ
part date from count = take count (drop from date)

-- `mktime` depends on the time zone of the process.
unfoldable pub unpack_time : (Tm → ℤ) → Option (List ℕ) → ℤ
unpack_time mktime none = pos 0
unpack_time mktime (some date) =
    if leb 40 (length date) || ltb (length date) 15
    then pos 0
    else mktime (record {
      year = minus_ℕ (atoi (part date 0 4)) 1900;
      mon = minus_ℕ (atoi (part date 4 2)) 1;
      mday = atoi (part date 6 2);
      hour = atoi (part date 9 2);
      min = atoi (part date 11 2);
      sec = atoi (part date 13 2);
    })

test_atoi : atoi (32 ∷ b'-' ∷ b'1' ∷ b'2' ∷ b'x' ∷ []) ≡ negsuc 11
unfolding atoi
test_atoi = refl
