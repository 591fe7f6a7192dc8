-- ===== src/Wireless/Text.antt =====
-- The text of the requests in src/wireless.c, by the functions of the C library that it uses:
-- `sscanf` with its formats, `strtok` and `strncmp`.
use mathlib.Core.Option
use vita_mtp.Base.{
  ℕ, zero, suc, ◌-◌, ◌||◌, ◌&&◌, Bool, false, Option, none, some, ◌>>=◌, List, [], ◌∷◌, ◌==◌,
  if◌then◌else◌, length, ℤ,
}
use vita_mtp.Text.{behind}
use vita_mtp.Pack.Times.{atoi, is_digit, is_space}

-- The string at the start of a block; without a NUL it is read behind the block.
unfoldable pub c_string : List ℕ → Option (List ℕ)
c_string [] = none
c_string (c ∷ cs) =
    let rest = c_string cs in if c == 0 then some [] else Option.map (λ s. c ∷ s) rest

-- White space of a format, and `%32s` or `%20s`: the word, and what follows.
unfoldable pub skip_space : List ℕ → List ℕ
unfolding is_space
skip_space [] = []
skip_space (c ∷ cs) = let rest = skip_space cs in if is_space c then rest else c ∷ cs

unfoldable pub word : ℕ → List ℕ → List ℕ × List ℕ
unfolding is_space
word zero s = ([], s)
word (suc n) [] = ([], [])
word (suc n) (c ∷ cs) =
    let rest = word n cs in if is_space c then ([], c ∷ cs) else (c ∷ rest.0, rest.1)

-- `strtok` with "\r\n" until it ends: the pieces between the delimiters, `piece` being begun.
unfoldable pub tokens : List ℕ → List ℕ → List (List ℕ)
tokens [] [] = []
tokens (p ∷ piece) [] = (p ∷ piece) ∷ []
tokens piece (c ∷ cs) =
    let end = tokens [] cs in
    let more = tokens (append_char piece c) cs in
    if (c == 13) || (c == 10) then closed piece end else more
  where
    append_char : List ℕ → ℕ → List ℕ
    append_char [] c = c ∷ []
    append_char (p ∷ ps) c = p ∷ append_char ps c

    closed : List ℕ → List (List ℕ) → List (List ℕ)
    closed [] ts = ts
    closed (p ∷ ps) ts = (p ∷ ps) ∷ ts

abbrev pub http : List ℕ
http = b'H' ∷ b'T' ∷ b'T' ∷ b'P' ∷ b'/' ∷ b'1' ∷ b'.' ∷ b'1' ∷ []

-- `sscanf(data, "%20s * HTTP/1.1\r\n%n", method, &read)`: `none` where it reads no method; else the
-- method, and `read` where it comes to that.
unfoldable pub scan_method : List ℕ → Option (List ℕ × Option ℕ)
unfolding behind skip_space word
scan_method text =
    let w = word 20 (skip_space text) in
    let end = behind (b'*' ∷ []) (skip_space w.1) >>= λ s.
    behind http (skip_space s) >>= λ s. some (length text - length (skip_space s)) in
    elim w.0 [ [] ↦ none | c ∷ cs ↦ some (c ∷ cs, end) ]

abbrev pub device_id_text : List ℕ
device_id_text = b'd' ∷ b'e' ∷ b'v' ∷ b'i' ∷ b'c' ∷ b'e' ∷ b'-' ∷ b'i' ∷ b'd' ∷ b':' ∷ []

abbrev pub device_port_text : List ℕ
device_port_text =
    b'd' ∷ b'e' ∷ b'v' ∷ b'i' ∷ b'c' ∷ b'e' ∷ b'-' ∷ b'p' ∷ b'o' ∷ b'r' ∷ b't' ∷ b':' ∷ []

-- `%d`: blanks, a sign, and one digit at least.
unfoldable pub has_number : List ℕ → Bool
unfolding skip_space is_digit
has_number s = elim (skip_space s) [
  | [] ↦ false
  | c ∷ cs ↦ is_digit c || (((c == b'-') || (c == b'+')) && starts cs)
]
  where
    starts : List ℕ → Bool
    starts [] = false
    starts (c ∷ cs) = is_digit c

-- `sscanf(data+read, "device-id:%32s\r\ndevice-port:%d\r\n", ...)`: what it sets.
unfoldable pub scan_connect : List ℕ → Option (List ℕ) × Option ℤ
unfolding behind skip_space word has_number atoi
scan_connect text = elim (behind device_id_text text) [
  | none ↦ (none, none)
  | some s ↦
      let w = word 32 (skip_space s) in
      let port = behind device_port_text (skip_space w.1) >>= λ s.
      if has_number s then some (atoi s) else none in
      elim w.0 [ [] ↦ (none, none) | c ∷ cs ↦ (some (c ∷ cs), port) ]
]

-- What `VitaMTP_Parse_Device_Headers` sets of `wireless_vita_info_t`, `*p_host` and `*p_pin`;
-- `none` is a pointer that is not set.
pub record Headers : Type 0 where
  pub host : Option (List ℕ)
  pub deviceid : Option (List ℕ)
  pub type : Option (List ℕ)
  pub mac_addr : Option (List ℕ)
  pub name : Option (List ℕ)
  pub pin : Option (List ℕ)

abbrev pub no_headers : Headers
no_headers = record {
  host = none;
  deviceid = none;
  type = none;
  mac_addr = none;
  name = none;
  pin = none;
}

abbrev pub host_id_text : List ℕ
host_id_text = b'h' ∷ b'o' ∷ b's' ∷ b't' ∷ b'-' ∷ b'i' ∷ b'd' ∷ b':' ∷ []

abbrev pub device_type_text : List ℕ
device_type_text =
    b'd' ∷ b'e' ∷ b'v' ∷ b'i' ∷ b'c' ∷ b'e' ∷ b'-' ∷ b't' ∷ b'y' ∷ b'p' ∷ b'e' ∷ b':' ∷ []

abbrev pub mac_address_text : List ℕ
mac_address_text =
    b'd' ∷ b'e' ∷ b'v' ∷ b'i' ∷ b'c' ∷ b'e' ∷ b'-' ∷ b'm' ∷ b'a' ∷ b'c' ∷ b'-' ∷ b'a' ∷ b'd' ∷ b'd'
    ∷ b'r' ∷ b'e' ∷ b's' ∷ b's' ∷ b':' ∷ []

abbrev pub device_name_text : List ℕ
device_name_text =
    b'd' ∷ b'e' ∷ b'v' ∷ b'i' ∷ b'c' ∷ b'e' ∷ b'-' ∷ b'n' ∷ b'a' ∷ b'm' ∷ b'e' ∷ b':' ∷ []

abbrev pub pin_code_text : List ℕ
pin_code_text = b'p' ∷ b'i' ∷ b'n' ∷ b'-' ∷ b'c' ∷ b'o' ∷ b'd' ∷ b'e' ∷ b':' ∷ []

-- A line of the headers, in the order of the tests.
unfoldable pub set_header : Headers → List ℕ → Headers
unfolding behind
set_header h line = elim (behind host_id_text line) [
  | some s ↦ record h { host = some s }
  | none ↦ elim (behind device_id_text line) [
    | some s ↦ record h { deviceid = some s }
    | none ↦ elim (behind device_type_text line) [
      | some s ↦ record h { type = some s }
      | none ↦ elim (behind mac_address_text line) [
        | some s ↦ record h { mac_addr = some s }
        | none ↦ elim (behind device_name_text line) [
          | some s ↦ record h { name = some s }
          | none ↦ elim (behind pin_code_text line) [
            | some s ↦ record h { pin = some s }
            | none ↦ h
          ]
        ]
      ]
    ]
  ]
]

unfoldable pub set_headers : Headers → List (List ℕ) → Headers
unfolding set_header
set_headers h [] = h
set_headers h (line ∷ lines) = set_headers (set_header h line) lines

unfoldable pub parse_headers : List ℕ → Headers
unfolding tokens set_headers
parse_headers text = set_headers no_headers (tokens [] text)
