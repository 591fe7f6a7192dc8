-- ===== src/Wireless/Connect/Closing.antt =====
-- `VitaMTP_PTPIP_Connect` of src/wireless.c closes what it opened when it fails.
use vita_mtp.Base.{
  sym, ap, All, ◌≢◌, ==_false, ==_self, ℕ, zero, suc, ◌+◌, ◌-◌, ◌^◌, ◌%◌, ◌≡◌, refl, ◌∙◌, Bool,
  true, false, not, Option, Option-cases, none, some, ◌>>=◌, bind-some, List, [], ◌∷◌, ◌++◌, length,
  ltb, ◌==◌, if◌then◌else◌, inl, inr,
}
use mathlib.Core.Option.{some-injective}
use mathlib.Core.Path.{subst}
use vita_mtp.Bytes.{ByteOrder, dtoh32a}
use vita_mtp.Cache.{rc_ok}
use vita_mtp.Wireless.{Packet, Sockets, init_command_ack, init_event_ack}
use vita_mtp.Wireless.Stream.{generic_read, recv_all}
use vita_mtp.Wireless.Connect.{
  Dialing, Pipe, answer_of, close_both, command_ack, connect_both, event_ack, handshake, or_close,
  ptpip_connect, send_command_request, send_event_request, send_whole, command_request,
  event_request_packet,
}

-- A list without a number.
unfoldable pub without_fd : ℕ → List ℕ → List ℕ
without_fd fd [] = []
without_fd fd (x ∷ xs) = let rest = without_fd fd xs in if x == fd then rest else x ∷ rest

-- The sockets that a process has open, the last one first, as the operating system keeps them: a
-- socket that is opened gets a number that is not in use, and `close` closes the one of its number.
pub record Counts {S : Type 0} (net : Sockets S) (dial : Dialing S) (open_in : S → List ℕ)
    : Type 0 where
  pub opens :
      (s : S) (fd : ℕ)
      → (dial.socket s).1 ≡ some fd
      → (open_in (dial.socket s).0 ≡ fd ∷ open_in s) × All (λ x. x ≢ fd) (open_in s)
  pub fails : (s : S) → (dial.socket s).1 ≡ none → open_in (dial.socket s).0 ≡ open_in s
  pub closes : (s : S) (fd : ℕ) → open_in (dial.close s fd) ≡ without_fd fd (open_in s)
  pub connects : (s : S) (fd port : ℕ) → open_in (dial.connect s fd port).0 ≡ open_in s
  pub sends : (s : S) (fd : ℕ) (bytes : List ℕ) → open_in (net.send s fd bytes).0 ≡ open_in s
  pub receives : (s : S) (fd n : ℕ) → open_in (net.recv s fd n).0 ≡ open_in s

without_fd_fresh : (fd : ℕ) (xs : List ℕ) → All (λ x. x ≢ fd) xs → without_fd fd xs ≡ xs
unfolding without_fd
without_fd_fresh fd [] a = refl
without_fd_fresh fd (x ∷ xs) a = rw (==_false x fd a.0, without_fd_fresh fd xs a.1) refl

without_fd_head : (fd : ℕ) (xs : List ℕ) → All (λ x. x ≢ fd) xs → without_fd fd (fd ∷ xs) ≡ xs
unfolding without_fd
without_fd_head fd xs a = rw (==_self fd) (without_fd_fresh fd xs a)

without_fd_second :
    (evt cmd : ℕ) (xs : List ℕ)
    → All (λ x. x ≢ evt) (cmd ∷ xs)
    → All (λ x. x ≢ cmd) xs
    → without_fd cmd (evt ∷ cmd ∷ xs) ≡ evt ∷ xs
unfolding without_fd
without_fd_second evt cmd xs a b =
    rw (==_false evt cmd (λ e. a.0 (sym e)), ==_self cmd, without_fd_fresh cmd xs b) refl

module _ {S : Type 0} (net : Sockets S) (dial : Dialing S) (open_in : S → List ℕ)
    (count : Counts net dial open_in) where
  -- An operation that, when it ends, has left the open sockets as they were.
  abbrev Keeps : {A : Type 0} → S → Option (S × A) → Type 0
  Keeps {A} s o = (r : S × A) → o ≡ some r → open_in r.0 ≡ open_in s

  Keeps-some : {A : Type 0} (s t : S) (a : A) → open_in t ≡ open_in s → Keeps s (some (t, a))
  Keeps-some {A} s t a k r e =
      subst (λ (w : S × A). open_in w.0 ≡ open_in s) (some-injective _ _ e) k

  Keeps-bind :
      {A B : Type 0} (s : S) (o : Option (S × A)) (f : S × A → Option (S × B))
      → Keeps s o
      → ((r : S × A) → Keeps r.0 (f r))
      → Keeps s (o >>= f)
  Keeps-bind s o f k l r e = let (q, a, b) = bind-some o f r e in l q r b ∙ k q a

  Keeps-if :
      {A : Type 0} (s : S) (b : Bool) (x y : Option (S × A))
      → Keeps s x
      → Keeps s y
      → Keeps s (if b then x else y)
  Keeps-if s true x y k l = k
  Keeps-if s false x y k l = l

  Keeps-none : {A : Type 0} (s : S) → Keeps {A = A} s none
  Keeps-none s r e = absurd (cc e)

  Keeps-option :
      {A B : Type 0} (s : S) (o : Option B) (x : Option (S × A)) (f : B → Option (S × A))
      → Keeps s x
      → ((b : B) → Keeps s (f b))
      → Keeps s (elim o [ none ↦ x | some b ↦ f b ])
  Keeps-option s none x f k l = k
  Keeps-option s (some b) x f k l = l b

  Keeps-list :
      {A B : Type 0} (s : S) (bs : List B) (x : Option (S × A)) (f : B → List B → Option (S × A))
      → Keeps s x
      → ((b : B) (bs : List B) → Keeps s (f b bs))
      → Keeps s (elim bs [ [] ↦ x | b ∷ bs ↦ f b bs ])
  Keeps-list s [] x f k l = k
  Keeps-list s (b ∷ bs) x f k l = l b bs

  Keeps-from :
      {A : Type 0} (s t : S) (o : Option (S × A)) → open_in t ≡ open_in s → Keeps t o → Keeps s o
  Keeps-from s t o k l r e = l r e ∙ k

  Keeps-read :
      {A B : Type 0} (s : S) (o : Option B) (f : B → Option (S × A))
      → ((b : B) → Keeps s (f b))
      → Keeps s (o >>= f)
  Keeps-read s none f l = Keeps-none s
  Keeps-read s (some b) f l = l b

  recv_all-Keeps :
      (fd fuel : ℕ) (s : S) (have : List ℕ) (left : ℕ) → Keeps s (recv_all net fd fuel s have left)
  unfolding recv_all
  recv_all-Keeps fd zero s have left = Keeps-none s
  recv_all-Keeps fd (suc fuel) s have left =
      let t = (net.recv s fd left).0 in
      let k = count.receives s fd left in
      Keeps-if s (left == 0) _ _ (Keeps-some s s _ refl) (
        Keeps-option s (net.recv s fd left).1 _ _ (Keeps-some s t _ k) (λ chunk.
          Keeps-list s chunk _ _ (Keeps-some s t _ k) (λ b bs.
            Keeps-from s t _ k
              (recv_all-Keeps fd fuel t (have ++ b ∷ bs) (left - length (b ∷ bs))))))

  generic_read-Keeps : (fd : ℕ) (o : ByteOrder) (s : S) → Keeps s (generic_read net fd o s)
  unfolding generic_read
  generic_read-Keeps fd o s = Keeps-bind s _ _ (recv_all-Keeps fd 9 s [] 8) (λ r.
      Keeps-option r.0 r.1 _ _ (Keeps-some r.0 r.0 none refl) (λ hdr.
        Keeps-read r.0 (dtoh32a o hdr 0) _ (λ size.
          let len : ℕ = (size + 2 ^ 32 - 8) % 2 ^ 32 in
          Keeps-read r.0 (dtoh32a o hdr 4) _ (λ type.
            Keeps-if r.0 (ltb len (2 ^ 31)) _ _
              (Keeps-if r.0 (net.has_memory r.0 len) _ _
                (Keeps-bind r.0 _ _ (recv_all-Keeps fd (len + 1) r.0 [] len) (λ q.
                  Keeps-option q.0 q.1 _ _ (Keeps-some q.0 q.0 none refl) (λ payload.
                    Keeps-some q.0 q.0
                      (some (record { length = size; type = type; payload = payload })) refl)))
                (Keeps-some r.0 r.0 none refl))
              (Keeps-some r.0 r.0 none refl)))))

  answer_of-Keeps :
      (o : ByteOrder) (malloc : ℕ → List ℕ) (type : ℕ) (read : List ℕ → Option ℕ)
      (r : S × Option Packet)
      → Keeps r.0 (answer_of net o malloc type read r)
  answer_of-Keeps o malloc type read (s, none) = Keeps-some s s _ refl
  answer_of-Keeps o malloc type read (s, some packet) =
      Keeps-if s (packet.type == type) _ _
        (Keeps-read s (read packet.payload) _ (λ x. Keeps-some s s _ refl)) (Keeps-some s s _ refl)

  module _ (o : ByteOrder) (malloc : ℕ → List ℕ) where
    sent-Keeps :
        (packet : Option (List ℕ)) (fd len : ℕ) (s : S)
        → Keeps s (packet >>= λ bytes. some (send_whole net o malloc fd len bytes s))
    sent-Keeps packet fd len s = Keeps-read s packet _ (λ bytes.
        Keeps-some s _ (send_whole net o malloc fd len bytes s).1 (count.sends s fd bytes))

    send_command_request-Keeps : (fd : ℕ) (s : S) → Keeps s (send_command_request net o malloc fd s)
    unfolding send_command_request
    send_command_request-Keeps fd s = sent-Keeps (command_request net o malloc) fd 24 s

    send_event_request-Keeps :
        (fd id : ℕ) (s : S) → Keeps s (send_event_request net o malloc fd id s)
    unfolding send_event_request
    send_event_request-Keeps fd id s = sent-Keeps (event_request_packet net o malloc id) fd 12 s

    command_ack-Keeps : (fd : ℕ) (s : S) → Keeps s (command_ack net o malloc fd s)
    unfolding command_ack
    command_ack-Keeps fd s =
        Keeps-bind s _ _ (generic_read-Keeps fd o s)
          (answer_of-Keeps o malloc init_command_ack (λ buf. dtoh32a o buf 0))

    event_ack-Keeps : (fd : ℕ) (s : S) → Keeps s (event_ack net o malloc fd s)
    unfolding event_ack
    event_ack-Keeps fd s =
        Keeps-bind s _ _ (generic_read-Keeps fd o s)
          (answer_of-Keeps o malloc init_event_ack (λ buf. some 0))

    handshake-Keeps : (cmd evt : ℕ) (s : S) → Keeps s (handshake net o malloc cmd evt s)
    unfolding handshake
    handshake-Keeps cmd evt s = Keeps-bind s _ _ (send_command_request-Keeps cmd s) (λ a.
        Keeps-if a.0 (a.1 == rc_ok) _ _
          (Keeps-bind a.0 _ _ (command_ack-Keeps cmd a.0) (λ b.
            Keeps-option b.0 b.1 _ _ (Keeps-some b.0 b.0 none refl) (λ id.
              Keeps-bind b.0 _ _ (send_event_request-Keeps evt id b.0) (λ c.
                Keeps-if c.0 (c.1 == rc_ok) _ _
                  (Keeps-bind c.0 _ _ (event_ack-Keeps evt c.0) (λ d.
                    Keeps-option d.0 d.1 _ _ (Keeps-some d.0 d.0 none refl)
                      (λ x. Keeps-some d.0 d.0 (some id) refl)))
                  (Keeps-some c.0 c.0 none refl)))))
          (Keeps-some a.0 a.0 none refl))

    -- The sockets that a connection has opened, when it was made.
    abbrev pub opened : Option Pipe → List ℕ
    opened none = []
    opened (some pipe) = pipe.evtfd ∷ pipe.cmdfd ∷ []

    -- An operation that, when it ends, has just these open beside others.
    abbrev Balances : List ℕ → Option (S × Option Pipe) → Type 0
    Balances others x = (r : S × Option Pipe) → x ≡ some r → open_in r.0 ≡ opened r.1 ++ others

    Balances-some :
        (others : List ℕ) (s : S) (p : Option Pipe)
        → open_in s ≡ opened p ++ others
        → Balances others (some (s, p))
    Balances-some others s p k r e =
        subst (λ (w : S × Option Pipe). open_in w.0 ≡ opened w.1 ++ others) (some-injective _ _ e) k

    Balances-if :
        (others : List ℕ) (b : Bool) (x y : Option (S × Option Pipe))
        → Balances others x
        → Balances others y
        → Balances others (if b then x else y)
    Balances-if others true x y k l = k
    Balances-if others false x y k l = l

    -- Two sockets that were opened one after the other.
    record BothOpen (cmd evt : ℕ) (others : List ℕ) : Type 0 where
      first : All (λ x. x ≢ cmd) others
      second : All (λ x. x ≢ evt) (cmd ∷ others)

    module _ (cmd evt : ℕ) (others : List ℕ) (both : BothOpen cmd evt others) where
      close_both-Balances :
          (s : S)
          → open_in s ≡ evt ∷ cmd ∷ others
          → Balances others (some (close_both net o malloc dial cmd evt s, none))
      close_both-Balances s e = Balances-some others _ none (
          count.closes (dial.close s cmd) evt
          ∙ (ap (without_fd evt) (
                count.closes s cmd
                ∙ (ap (without_fd cmd) e ∙ without_fd_second evt cmd others both.second both.first))
              ∙ without_fd_head evt others both.second.1))

      or_close-Balances :
          (w : S × Option ℕ)
          → open_in w.0 ≡ evt ∷ cmd ∷ others
          → Balances others (some (or_close net o malloc dial cmd evt w))
      or_close-Balances (s, none) e = close_both-Balances s e
      or_close-Balances (s, some id) e =
          Balances-some others s (some (record { cmdfd = cmd; evtfd = evt; eventpipeid = id })) e

      connect_both-Balances :
          (port : ℕ) (s : S)
          → open_in s ≡ evt ∷ cmd ∷ others
          → Balances others (connect_both net o malloc dial port cmd evt s)
      unfolding connect_both
      connect_both-Balances port s e =
          let a = dial.connect s cmd port in
          let b = dial.connect a.0 evt port in
          let after_a : open_in a.0 ≡ evt ∷ cmd ∷ others = count.connects s cmd port ∙ e in
          let after_b : open_in b.0 ≡ evt ∷ cmd ∷ others = count.connects a.0 evt port ∙ after_a in
          Balances-if others (not a.1) _ _ (close_both-Balances a.0 after_a) (
            Balances-if others (not b.1) _ _ (close_both-Balances b.0 after_b) (λ r q.
              let (w, h, g) = bind-some (handshake net o malloc cmd evt b.0) _ r q in
              or_close-Balances w (handshake-Keeps cmd evt b.0 w h ∙ after_b) r g))

    -- When `VitaMTP_PTPIP_Connect` returns, the open sockets are those that were open before and, if it
    -- connected, the two of the connection: a failure, at whichever step, closes just what was
    -- opened.
    pub ptpip_connect_lem :
        (port : ℕ) (s : S) (r : S × Option Pipe)
        → ptpip_connect net o malloc dial port s ≡ some r
        → open_in r.0 ≡ opened r.1 ++ open_in s
    unfolding ptpip_connect
    ptpip_connect_lem port s r e =
        let c = dial.socket s in
        let t = dial.socket c.0 in
        elim (Option-cases c.1) [
          | inl none_left ↦
              Balances-some (open_in s) c.0 none (count.fails s none_left) r
                (rw (ptpip_connect, none_left) at e)
          | inr cmd ↦
              let one = count.opens s cmd.0 cmd.1 in
              elim (Option-cases t.1) [
                | inl none_left ↦
                    Balances-some (open_in s) (dial.close t.0 cmd.0) none
                      (count.closes t.0 cmd.0
                        ∙ (ap (without_fd cmd.0) (count.fails c.0 none_left ∙ one.0)
                            ∙ without_fd_head cmd.0 (open_in s) one.1))
                      r (rw (ptpip_connect, cmd.1, none_left) at e)
                | inr evt ↦
                    let two = count.opens c.0 evt.0 evt.1 in
                    connect_both-Balances cmd.0 evt.0 (open_in s)
                      (record {
                        first = one.1;
                        second = subst (λ xs. All (λ x. x ≢ evt.0) xs) one.0 two.1;
                      })
                      port t.0 (two.0 ∙ ap (λ xs. evt.0 ∷ xs) one.0) r
                      (rw (ptpip_connect, cmd.1, evt.1) at e)
              ]
        ]
