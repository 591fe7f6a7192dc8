-- ===== src/Wireless/Pairing.antt =====
-- `VitaMTP_Get_Wireless_Device` of src/wireless.c: the pairing with a device, as a machine whose
-- steps are what happens on its sockets.
pub mod Reach
use vita_mtp.Base.{
  ℕ, zero, suc, ◌-◌, ◌||◌, ◌&&◌, not, Bool, true, false, Option, none, some, ◌>>=◌, List, [], ◌∷◌,
  ◌++◌, ltb, leb, ◌==◌, if◌then◌else◌, length, take, drop, ℤ, pos, negsuc, ◌≡◌, ◌<◌,
}
use vita_mtp.Pack.Times.{atoi}
use vita_mtp.Wireless.Text.{Headers, c_string, scan_method, scan_connect, parse_headers}

-- Where the loops stand: at `select`, with a client, or behind the outer loop.
pub data Phase : Type 0 where
  waiting serving ended : Phase

-- The locals and the fields of the device. `guid` is the string in its array, `read` is what `%n`
-- set last, and `addr` is `none` while it is cleared.
pub record Pairing : Type 0 where
  pub phase : Phase
  pub client : ℕ
  pub guid : List ℕ
  pub data_port : ℤ
  pub registered : Bool
  pub addr : Option ℕ
  pub pin : ℤ
  pub read : Option ℕ
  pub listen : Bool

-- The answers, by the texts that the source sends.
pub data Answer : Type 0 where
  ok_200 : Answer  -- HTTP/1.1 200 OK
  ok_210 : Answer  -- HTTP/1.1 210 OK
  ng_605 : Answer  -- HTTP/1.1 605 NG
  ng_610 : Answer  -- HTTP/1.1 610 NG
  cancelled : ℤ → Answer  -- REGISTERCANCEL * HTTP/1.1, with the error code

-- The caller's functions: whether a device is registered, and the PIN for a device, with the error
-- code where it is negative.
pub record Callbacks : Type 0 where
  pub is_registered : List ℕ → Bool
  pub create_register_pin : Headers → ℤ × ℤ

abbrev pub is_negative : ℤ → Bool
is_negative (pos n) = false
is_negative (negsuc n) = true

abbrev pub same_number : ℤ → ℤ → Bool
same_number (pos a) (pos b) = a == b
same_number (negsuc a) (negsuc b) = a == b
same_number _ _ = false

-- `strcmp` with 0.
unfoldable pub same_text : List ℕ → List ℕ → Bool
same_text [] [] = true
same_text (a ∷ xs) (b ∷ ys) = let rest = same_text xs ys in if a == b then rest else false
same_text _ _ = false

abbrev pub start : Pairing
start = record {
  phase = waiting;
  client = 0;
  guid = [];
  data_port = pos 0;
  registered = false;
  addr = none;
  pin = negsuc 0;
  read = none;
  listen = true;
}

-- The methods.
pub data Method : Type 0 where
  connect showpin register standby other : Method

unfoldable pub method_of : List ℕ → Method
unfolding same_text
method_of w =
    if same_text w (b'C' ∷ b'O' ∷ b'N' ∷ b'N' ∷ b'E' ∷ b'C' ∷ b'T' ∷ [])
    then connect
    else if same_text w (b'S' ∷ b'H' ∷ b'O' ∷ b'W' ∷ b'P' ∷ b'I' ∷ b'N' ∷ [])
    then showpin
    else if same_text w (b'R' ∷ b'E' ∷ b'G' ∷ b'I' ∷ b'S' ∷ b'T' ∷ b'E' ∷ b'R' ∷ [])
    then register
    else if same_text w (b'S' ∷ b'T' ∷ b'A' ∷ b'N' ∷ b'D' ∷ b'B' ∷ b'Y' ∷ [])
    then standby
    else other

-- `listen = 0` and the `break` out of the loop for the client.
abbrev pub stop : Pairing → Pairing
stop s = record s { listen = false; phase = ended }

-- The write at the end of a round; `ok` is whether it succeeds.
abbrev pub reply : Bool → Pairing → Answer → Pairing × List Answer
reply ok s a = (if ok then s else stop s, a ∷ [])

module _ (cb : Callbacks) where
  -- The bodies of the branches, on the text behind the first line. `none` is a fault: a pointer
  -- that is not set.
  unfoldable pub connected : Bool → Pairing → Option (List ℕ) × Option ℤ → Pairing × List Answer
  connected ok s (none, p) = (stop s, [])
  connected ok s (some guid, none) = (stop (record s { guid = guid }), [])
  connected ok s (some guid, some port) =
      reply ok (record s { guid = guid; data_port = port })
        (if s.registered || cb.is_registered guid then ok_210 else ng_605)

  abbrev pub on_connect : Bool → Pairing → List ℕ → Pairing × List Answer
  on_connect ok s text = connected ok s (scan_connect text)

  -- The first write answers the request, the second is at the end of the round.
  unfoldable pub on_showpin : Bool → Bool → Pairing → List ℕ → Option (Pairing × List Answer)
  on_showpin first ok s text =
      let info = parse_headers text in
      info.deviceid >>= λ deviceid.
      let t : Pairing = record s { guid = take 32 deviceid } in
      let made = cb.create_register_pin info in
      let u : Pairing = record t { pin = made.0 } in
      if not first
      then some (stop t, ok_200 ∷ [])
      else if is_negative made.0
      then some ((reply ok u (cancelled made.1)).0, ok_200 ∷ cancelled made.1 ∷ [])
      else some (u, ok_200 ∷ [])

  unfoldable pub on_register : Bool → Pairing → List ℕ → Option (Pairing × List Answer)
  on_register ok s text =
      let info = parse_headers text in
      info.deviceid >>= λ deviceid.
      let tried = info.pin >>= λ pin_try.
      if not (same_number s.pin (atoi pin_try))
      then some (reply ok s ng_610)
      else some (reply ok (record s { registered = true }) ok_200) in
      if not (same_text s.guid deviceid)
      then some (reply ok s ng_610)
      else if is_negative s.pin
      then some (reply ok s ng_610)
      else tried

  -- What follows the first line: `data+read`. `none` is a read behind the text, or an offset that
  -- nothing has set.
  abbrev pub at_read : Option ℕ → List ℕ → Option (List ℕ)
  at_read none text = none
  at_read (some n) text = if leb n (length text) then some (drop n text) else none

  -- What a method does, on the text.
  unfoldable pub dispatch : Bool → Bool → Pairing → List ℕ → Method → Option (Pairing × List Answer)
  unfolding on_showpin on_register
  dispatch first ok s text connect = at_read s.read text >>= λ rest. some (on_connect ok s rest)
  dispatch first ok s text showpin = at_read s.read text >>= λ rest. on_showpin first ok s rest
  dispatch first ok s text register = at_read s.read text >>= λ rest. on_register ok s rest
  dispatch first ok s text standby = some (record s { listen = false; addr = some s.client }, [])
  dispatch first ok s text other = some (s, [])

  abbrev pub read_after : Option ℕ → Option ℕ → Option ℕ
  read_after before none = before
  read_after before (some n) = some n

  -- A round, by what `sscanf` makes of the text. A method of 20 characters is a fault: its NUL is
  -- written behind the array.
  unfoldable pub round :
      Bool → Bool → Pairing → List ℕ → Option (List ℕ × Option ℕ) → Option (Pairing × List Answer)
  unfolding dispatch
  round first ok s text none = some (stop s, [])
  round first ok s text (some (w, end)) =
      let done = dispatch first ok (record s { read = read_after s.read end }) text (method_of w) in
      if ltb (length w) 20 then done else none

  -- A round with some bytes; without a NUL, the text is read behind them.
  unfoldable pub received : Bool → Bool → Pairing → List ℕ → Option (Pairing × List Answer)
  unfolding round
  received first ok s block = c_string block >>= λ text. round first ok s text (scan_method text)

-- The end of a client's connection: the pairing begun is forgotten.
abbrev pub closed : Pairing → Pairing
closed s = record s { pin = negsuc 0; phase = if s.listen then waiting else ended }

abbrev pub accepted : ℕ → Pairing → Pairing
accepted client s = record s { client = client; phase = serving }

-- What happens on the sockets: a client is accepted, or `select` or `accept` fails or times out;
-- then a read that fails, one at the end of the connection, and one with bytes, with what becomes of
-- the two writes.
pub data Event : Type 0 where
  accept : ℕ → Event
  give_up read_failed hung_up : Event
  bytes : Bool → Bool → List ℕ → Event

-- The step of an event, where the loops wait for it.
unfoldable pub step : Callbacks → Event → Pairing → Option (Pairing × List Answer)
step cb (accept client) s = some (accepted client s, [])
step cb give_up s = some (record s { phase = ended }, [])
step cb read_failed s = some (stop s, [])
step cb hung_up s = some (closed s, [])
step cb (bytes first ok block) s = received cb first ok s block

abbrev pub awaits : Event → Phase
awaits (accept client) = waiting
awaits give_up = waiting
awaits read_failed = serving
awaits hung_up = serving
awaits (bytes first ok block) = serving
