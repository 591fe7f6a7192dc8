-- ===== src/Wireless/Pairing/Reach.antt =====
-- The states that the pairing of src/wireless.c reaches: what a registered device has shown.
use vita_mtp.Base.{ℕ, ◌≡◌, Bool, true, false, Option, some, List, [], ◌∷◌, drop, ℤ}
use vita_mtp.Pack.Times.{atoi}
use vita_mtp.Wireless.Text.{c_string, parse_headers, scan_method}
use vita_mtp.Wireless.Pairing.{
  Answer, Callbacks, Event, Method, Pairing, awaits, bytes, is_negative, method_of, register,
  same_number, showpin, start, step,
}

module _ (cb : Callbacks) where
  -- The states, by the events that led there, the last one first.
  pub data Reach : Pairing → List Event → Type 0 where
    begin : Reach start []
    next :
        {s t : Pairing} {es : List Event} {out : List Answer} (e : Event)
        → Reach s es
        → awaits e ≡ s.phase
        → step cb e s ≡ some (t, out)
        → Reach t (e ∷ es)

  -- The method of a request, by its first word.
  abbrev pub Asks : List ℕ → Method → Type 0
  Asks text m =
      (w : List ℕ) × (end : Option ℕ) × (scan_method text ≡ some (w, end)) × (method_of w ≡ m)

  -- How a round may change the PIN and the registration.
  pub data Change (p : ℤ) (r : Bool) (p' : ℤ) (r' : Bool) (text : List ℕ) : Type 0 where
    neither : p' ≡ p → r' ≡ r → Change p r p' r' text
    made :
        (n : ℕ)
        → Asks text showpin
        → r' ≡ r
        → p' ≡ (cb.create_register_pin (parse_headers (drop n text))).0
        → Change p r p' r' text
    matched :
        (n : ℕ) (pin_try : List ℕ)
        → Asks text register
        → p' ≡ p
        → is_negative p ≡ false
        → (parse_headers (drop n text)).pin ≡ some pin_try
        → same_number p (atoi pin_try) ≡ true
        → Change p r p' r' text

  abbrev Effect : Pairing → Pairing → List ℕ → Type 0
  Effect s t text = Change s.pin s.registered t.pin t.registered text

  -- The PIN that the caller's function made for the headers of a SHOWPIN request.
  pub data IsMade (p : ℤ) : List Event → Type 0 where
    made_now :
        {es : List Event} (first ok : Bool) (block text : List ℕ) (n : ℕ)
        → c_string block ≡ some text
        → Asks text showpin
        → p ≡ (cb.create_register_pin (parse_headers (drop n text))).0
        → IsMade p (bytes first ok block ∷ es)
    made_before : {es : List Event} (e : Event) → IsMade p es → IsMade p (e ∷ es)

  -- A REGISTER request with headers that have a PIN that was made before, and is not negative.
  pub data IsShown : List Event → Type 0 where
    shown_now :
        {es : List Event} (first ok : Bool) (block text : List ℕ) (n : ℕ) (p : ℤ) (pin_try : List ℕ)
        → IsMade p es
        → is_negative p ≡ false
        → c_string block ≡ some text
        → Asks text register
        → (parse_headers (drop n text)).pin ≡ some pin_try
        → same_number p (atoi pin_try) ≡ true
        → IsShown (bytes first ok block ∷ es)
    shown_before : {es : List Event} (e : Event) → IsShown es → IsShown (e ∷ es)

  -- What is known of a state: its PIN was made, and a registered device has shown one.
  abbrev Knows : ℤ → Bool → List Event → Type 0
  Knows p r es = (is_negative p ≡ false → IsMade p es) × (r ≡ true → IsShown es)

  abbrev Known : Pairing × List Answer → List Event → Type 0
  Known r es = Knows r.0.pin r.0.registered es
