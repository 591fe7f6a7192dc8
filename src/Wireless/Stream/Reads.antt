-- ===== src/Wireless/Stream/Reads.antt =====
-- Reading a packet of src/wireless.c from a connection: however the bytes arrive, the packet is
-- read whole, and no byte behind it.
use mathlib.Core.List.{append_assoc, append-nil}
use vita_mtp.Base.{
  true, ℕ, zero, suc, ◌+◌, ◌-◌, ◌%◌, ◌^◌, ◌≤◌, ◌<◌, ◌≡◌, refl, sym, ap, ◌∙◌, some, List, [], ◌∷◌,
  ◌++◌, length, length-append, arith, lt→ltb, ==_false,
}
use vita_mtp.Bytes.{ByteOrder, wire_bytes, dtoh32a}
use vita_mtp.Bytes.Words.{length-wire_bytes, dtoh32a_at}
use vita_mtp.Wireless.{Sockets}
use vita_mtp.Wireless.Stream.{recv_all, generic_read}

-- What a stream socket promises, where `rest` is what the peer sends from a state on: `recv`
-- gives a front of it, not empty while there is one and not longer than asked for, and `send` leaves
-- it as it is. There is memory for every packet.
pub record IsConnected {S : Type 0} (net : Sockets S) (fd : ℕ) (rest : S → List ℕ) : Type 0 where
  pub delivers :
      (s : S) (n : ℕ)
      → 0 < n
      → 0 < length (rest s)
      → (chunk : List ℕ) × ((net.recv s fd n).1 ≡ some chunk)
        × (0 < length chunk)
        × (length chunk ≤ n)
        × (rest s ≡ chunk ++ rest (net.recv s fd n).0)
  pub memory : (s : S) (n : ℕ) → net.has_memory s n ≡ true
  pub undisturbed : (s : S) (bytes : List ℕ) → rest (net.send s fd bytes).0 ≡ rest s

-- The bytes of a packet.
abbrev pub packet_bytes : ByteOrder → ℕ → List ℕ → List ℕ
packet_bytes o type payload =
    wire_bytes o 4 (length payload + 8) ++ (wire_bytes o 4 type ++ payload)

-- A chunk that is no longer than the front is a front of that.
cut_front :
    (xs ys chunk more : List ℕ)
    → chunk ++ more ≡ xs ++ ys
    → length chunk ≤ length xs
    → (after : List ℕ) × (xs ≡ chunk ++ after) × (more ≡ after ++ ys)
cut_front xs ys [] more e k = (xs, refl, e)
cut_front [] ys (c ∷ cs) more e k = absurd (omega arith)
cut_front (x ∷ xs) ys (c ∷ cs) more e k =
    let r = cut_front xs ys cs more (cc) (omega arith) in (r.0, cc (e, r.1), r.2)

joined :
    (have chunk after : List ℕ) {front : List ℕ}
    → front ≡ chunk ++ after
    → (have ++ chunk) ++ after ≡ have ++ front
joined have chunk after e = append_assoc have chunk after ∙ ap (λ xs. have ++ xs) (sym e)

module _ {S : Type 0} (net : Sockets S) (fd : ℕ) (rest : S → List ℕ)
    (ok : IsConnected net fd rest) where
  -- One round of the loop.
  recv_all-round :
      (fuel : ℕ) (s : S) (have chunk : List ℕ) (left : ℕ)
      → 0 < left
      → (net.recv s fd left).1 ≡ some chunk
      → 0 < length chunk
      → recv_all net fd (suc fuel) s have left
        ≡ recv_all net fd fuel (net.recv s fd left).0 (have ++ chunk) (left - length chunk)
  unfolding recv_all
  recv_all-round fuel s have [] left k e n = absurd (omega arith)
  recv_all-round fuel s have (b ∷ bs) left k e n =
      rw (==_false left 0 (λ z. omega (arith, z)), e) refl

  -- What a loop reads.
  abbrev Reads : ℕ → S → List ℕ → ℕ → List ℕ → List ℕ → Type 0
  Reads fuel s have left bytes back =
      (s' : S) × (recv_all net fd fuel s have left ≡ some (s', some bytes)) × (rest s' ≡ back)

  recv_all-chunk :
      (fuel : ℕ) (s : S) (have chunk after front back : List ℕ) (left : ℕ)
      → 0 < left
      → (net.recv s fd left).1 ≡ some chunk
      → 0 < length chunk
      → front ≡ chunk ++ after
      → Reads fuel
          (net.recv s fd left).0
          (have ++ chunk)
          (left - length chunk)
          ((have ++ chunk) ++ after)
          back
      → Reads (suc fuel) s have left (have ++ front) back
  recv_all-chunk fuel s have chunk after front back left k e n split more = (
    more.0,
    recv_all-round fuel s have chunk left k e n
        ∙ (more.1 ∙ ap (λ xs. some (more.0, some xs)) (joined have chunk after split)),
    more.2,
  )

  recv_all_lem :
      (fuel : ℕ) (s : S) (have front back : List ℕ) (left : ℕ)
      → rest s ≡ front ++ back
      → left ≡ length front
      → length front < fuel
      → Reads fuel s have left (have ++ front) back
  unfolding recv_all
  recv_all_lem zero s have front back left e l k = absurd (omega arith)
  recv_all_lem (suc fuel) s have [] back left e l k = (s, rw (l, append-nil have) refl, e)
  recv_all_lem (suc fuel) s have (b ∷ bs) back left e l k =
      let got = ok.delivers s left (omega (arith, l)) (omega (arith, ap length e)) in
      let cut =
        cut_front (b ∷ bs) back got.0 (rest (net.recv s fd left).0) (sym got.4 ∙ e)
          (omega (arith, l, got.3)) in
      let size = ap length cut.1 ∙ length-append got.0 cut.0 in
      recv_all-chunk fuel s have got.0 cut.0 (b ∷ bs) back left (omega (arith, l)) got.1 got.2 cut.1
        (recv_all_lem fuel (net.recv s fd left).0 (have ++ got.0) cut.0 back (left - length got.0)
          cut.2 (omega (arith, l, size)) (omega (arith, size, got.2)))

  -- From its two loops and the header between them.
  generic_read-loops :
      (o : ByteOrder) (s s1 s2 : S) (hdr payload : List ℕ) (size type len : ℕ)
      → recv_all net fd 9 s [] 8 ≡ some (s1, some hdr)
      → dtoh32a o hdr 0 ≡ some size
      → dtoh32a o hdr 4 ≡ some type
      → (size + 2 ^ 32 - 8) % 2 ^ 32 ≡ len
      → len < 2 ^ 31
      → recv_all net fd (len + 1) s1 [] len ≡ some (s2, some payload)
      → generic_read net fd o s
        ≡ some (s2, some (record { length = size; type = type; payload = payload }))
  unfolding generic_read
  generic_read-loops o s s1 s2 hdr payload size type len head a b l k body =
      rw (head, a, b, l, lt→ltb len (2 ^ 31) k, ok.memory s1 len, body) refl

  pub generic_read_lem :
      (o : ByteOrder) (s : S) (type : ℕ) (payload back : List ℕ)
      → rest s ≡ packet_bytes o type payload ++ back
      → type < 2 ^ 32
      → length payload < 2 ^ 31
      → (s' : S) × (generic_read net fd o s
          ≡ some
              (s', some (record { length = length payload + 8; type = type; payload = payload })))
        × (rest s' ≡ back)
  generic_read_lem o s type payload back e k l =
      let w = wire_bytes o 4 (length payload + 8) in
      let v = wire_bytes o 4 type in
      let n : 8 ≡ length (w ++ v) = omega (
        arith,
        length-append w v,
        length-wire_bytes o 4 (length payload + 8),
        length-wire_bytes o 4 type,
      ) in
      let split : rest s ≡ (w ++ v) ++ (payload ++ back) =
        e
        ∙ (append_assoc w (v ++ payload) back
            ∙ (ap (λ bs. w ++ bs) (append_assoc v payload back)
                ∙ sym (append_assoc w v (payload ++ back)))) in
      let len : (length payload + 8 + 2 ^ 32 - 8) % 2 ^ 32 ≡ length payload = omega (arith, l) in
      let type_read : dtoh32a o (w ++ v) 4 ≡ some type =
        ap (λ bs. dtoh32a o (w ++ bs) 4) (sym (append-nil v))
        ∙ dtoh32a_at o w [] k (sym (length-wire_bytes o 4 (length payload + 8))) in
      let first : Reads 9 s [] 8 (w ++ v) (payload ++ back) =
        recv_all_lem 9 s [] (w ++ v) (payload ++ back) 8 split n (omega (arith, n)) in
      let second : Reads (length payload + 1) first.0 [] (length payload) payload back =
        recv_all_lem (length payload + 1) first.0 [] payload back (length payload) first.2 refl
          (omega arith) in
      (
        second.0,
        generic_read-loops o s first.0 second.0 (w ++ v) payload (length payload + 8) type
            (length payload) first.1
            (dtoh32a_at o [] v {x = length payload + 8} (omega (arith, l)) refl) type_read len l
            second.1,
        second.2,
      )
