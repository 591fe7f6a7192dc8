-- ===== src/Wireless/Stream/Ends.antt =====
-- Reading a packet of src/wireless.c ends, whatever the socket does.
use mathlib.Core.Option
use mathlib.Core.Option.{some-injective}
use vita_mtp.Base.{
  ℕ, zero, suc, ◌+◌, ◌-◌, ◌%◌, ◌^◌, ◌≤◌, ◌<◌, ◌≡◌, inl, inr, refl, sym, ap, ◌∙◌, Bool-cases, Option,
  Option-cases, none, some, List, [], ◌∷◌, ◌++◌, ltb, ◌==◌, false, length, length-append, arith,
}
use vita_mtp.Bytes.{ByteOrder, dtoh32a, fetch, wire_value}
use vita_mtp.Bytes.Layout.{fetch_at, split_at}
use vita_mtp.Wireless.{Sockets, Packet}
use vita_mtp.Wireless.Stream.{recv_all, generic_read}

-- A word is read inside of a buffer.
dtoh32a-inside :
    (o : ByteOrder) (buf : List ℕ) (offset : ℕ)
    → offset + 4 ≤ length buf
    → (x : ℕ) × (dtoh32a o buf offset ≡ some x)
unfolding dtoh32a
dtoh32a-inside o buf offset k =
    let (pre, behind, e, n) = split_at offset buf (omega arith) in
    let (word, rest, f, m) =
      split_at 4 behind (omega (arith, k, n, ap length e, length-append pre behind)) in
    (
      wire_value o word,
      ap (Option.map (wire_value o)) (
          ap (λ b. fetch b offset 4) (e ∙ ap (λ b. pre ++ b) f)
          ∙ fetch_at pre word rest (sym n) (sym m)),
    )

module _ {S : Type 0} (net : Sockets S) (fd : ℕ) where
  -- A loop has ended, with all the bytes if it has any.
  record Ended (need : ℕ) (o : Option (S × Option (List ℕ))) : Type 0 where
    state : S
    got : Option (List ℕ)
    ends : o ≡ some (state, got)
    enough : (bytes : List ℕ) → got ≡ some bytes → need ≤ length bytes

  -- By what `recv` gives.
  recv_all-chunk-Ended :
      (fuel : ℕ) (s : S) (have : List ℕ) (left : ℕ) (r : Option (List ℕ))
      → left < suc fuel
      → ((s1 : S) (have1 : List ℕ) (left1 : ℕ)
          → left1 < fuel
          → Ended (length have1 + left1) (recv_all net fd fuel s1 have1 left1))
      → (left == 0) ≡ false
      → (net.recv s fd left).1 ≡ r
      → Ended (length have + left) (recv_all net fd (suc fuel) s have left)
  unfolding recv_all
  recv_all-chunk-Ended fuel s have left none k next z e = record {
    state = (net.recv s fd left).0;
    got = none;
    ends = rw (z, e) refl;
    enough = λ bytes h. absurd (cc h);
  }
  recv_all-chunk-Ended fuel s have left (some []) k next z e = record {
    state = (net.recv s fd left).0;
    got = none;
    ends = rw (z, e) refl;
    enough = λ bytes h. absurd (cc h);
  }
  recv_all-chunk-Ended fuel s have left (some (b ∷ bs)) k next z e =
      let chunk : List ℕ = b ∷ bs in
      let more = next (net.recv s fd left).0 (have ++ chunk) (left - length chunk) (ground arith) in
      record {
        state = more.state;
        got = more.got;
        ends = rw (z, e) more.ends;
        enough = λ bytes h. omega (arith, more.enough bytes h, length-append have chunk);
      }

  recv_all-Ended :
      (fuel : ℕ) (s : S) (have : List ℕ) (left : ℕ)
      → left < fuel
      → Ended (length have + left) (recv_all net fd fuel s have left)
  unfolding recv_all
  recv_all-Ended zero s have left k = absurd (omega arith)
  recv_all-Ended (suc fuel) s have left k = elim (Bool-cases (left == 0)) [
    | inl z ↦ record {
      state = s;
      got = some have;
      ends = rw z refl;
      enough = λ bytes h. ground (arith, z, ap length (some-injective _ _ h));
    }
    | inr more ↦
        recv_all-chunk-Ended fuel s have left (net.recv s fd left).1 k (recv_all-Ended fuel) more
          refl
  ]

  -- `ptp_ptpip_generic_read` returns, from every state and whatever `recv` gives and whether
  -- or not there is memory: with a packet or with an error. The fuel that it takes is enough, and no read of the header is outside of it.
  pub generic_read-ends :
      (o : ByteOrder) (s : S)
      → (s' : S) × (packet : Option Packet) × (generic_read net fd o s ≡ some (s', packet))
  unfolding generic_read
  generic_read-ends o s =
      let first = recv_all-Ended 9 s [] 8 (omega arith) in
      elim (Option-cases first.got) [
        | inl failed ↦ (first.state, none, rw (first.ends, failed) refl)
        | inr read ↦
            let hdr = read.0 in
            let size = dtoh32a-inside o hdr 0 (omega (arith, first.enough hdr read.1)) in
            let type = dtoh32a-inside o hdr 4 (omega (arith, first.enough hdr read.1)) in
            let len : ℕ = (size.0 + 2 ^ 32 - 8) % 2 ^ 32 in
            let body = recv_all-Ended (len + 1) first.state [] len (omega arith) in
            elim (Bool-cases (ltb len (2 ^ 31))) [
              | inr long ↦ (first.state, none, rw (first.ends, read.1, size.1, type.1, long) refl)
              | inl short ↦ elim (Bool-cases (net.has_memory first.state len)) [
                | inr none_left ↦ (
                  first.state,
                  none,
                  rw (first.ends, read.1, size.1, type.1, short, none_left) refl,
                )
                | inl room ↦ elim (Option-cases body.got) [
                  | inl failed ↦ (
                    body.state,
                    none,
                    rw (first.ends, read.1, size.1, type.1, short, room, body.ends, failed) refl,
                  )
                  | inr payload ↦ (
                    body.state,
                    some (record { length = size.0; type = type.0; payload = payload.0 }),
                    rw (first.ends, read.1, size.1, type.1, short, room, body.ends, payload.1) refl,
                  )
                ]
              ]
            ]
      ]
