-- ===== src/Wireless/Stream.antt =====
-- Reading and writing packets in src/wireless.c: `ptp_ptpip_generic_read`, and the loops around
-- `recv` and `send`.
pub mod Ends
pub mod Reads
use vita_mtp.Base.{
  ℕ, zero, suc, ◌+◌, ◌-◌, ◌%◌, ◌^◌, Option, none, some, ◌>>=◌, List, [], ◌∷◌, ◌++◌, ltb, ◌==◌,
  if◌then◌else◌, length, drop,
}
use vita_mtp.Bytes.{ByteOrder, dtoh32a}
use vita_mtp.Wireless.{Sockets, Packet}

module _ {S : Type 0} (net : Sockets S) (fd : ℕ) where
  -- A loop `while (curread < len)`, with `left` bytes to go behind those that it has. A result
  -- without bytes is that `recv` failed or that the stream ended, which both loops of the source
  -- end with the same error; `none` is that the fuel ran out.
  unfoldable pub recv_all : ℕ → S → List ℕ → ℕ → Option (S × Option (List ℕ))
  recv_all zero s have left = none
  recv_all (suc fuel) s have left =
      let r = net.recv s fd left in
      let more : List ℕ → Option (S × Option (List ℕ)) =
        (λ chunk. recv_all fuel r.0 (have ++ chunk) (left - length chunk)) in
      if left == 0 then some (s, some have) else elim r.1 [
        | none ↦ some (r.0, none)
        | some [] ↦ some (r.0, none)
        | some (b ∷ bs) ↦ more (b ∷ bs)
      ]

  -- `ptp_ptpip_generic_read`: the packet, or `none` for `PTP_RC_GeneralError`. A length
  -- that is negative as an `int` is refused.
  unfoldable pub generic_read : ByteOrder → S → Option (S × Option Packet)
  unfolding recv_all
  generic_read o s = recv_all 9 s [] 8 >>= λ r. elim r.1 [
    | none ↦ some (r.0, none)
    | some hdr ↦ dtoh32a o hdr 0 >>= λ size. dtoh32a o hdr 4 >>= λ type.
        let len : ℕ = (size + 2 ^ 32 - 8) % 2 ^ 32 in
        let body = recv_all (len + 1) r.0 [] len in
        let got = body >>= λ q. elim q.1 [
          | none ↦ some (q.0, none)
          | some payload ↦
              some (q.0, some (record { length = size; type = type; payload = payload }))
        ] in
        let read = if net.has_memory r.0 len then got else some (r.0, none) in
        if ltb len (2 ^ 31) then read else some (r.0, none)
  ]

  -- The loop `while (written < towrite2)`. `none` in the result is that `send` failed.
  unfoldable pub send_all : ℕ → S → List ℕ → Option (S × Option ℕ)
  send_all zero s bytes = none
  send_all (suc fuel) s [] = some (s, some 0)
  send_all (suc fuel) s (b ∷ bs) =
      let r = net.send s fd (b ∷ bs) in
      let more : ℕ → Option (S × Option ℕ) = (λ n. send_all fuel r.0 (drop n (b ∷ bs))) in
      elim r.1 [ none ↦ some (r.0, none) | some n ↦ more n ]
