-- ===== src/Wireless/Commands/RoundTrip.antt =====
-- `ptp_ptpip_senddata` and `ptp_ptpip_getdata` of src/wireless.c at the two ends of a connection.
use vita_mtp.Base.{
  ℕ, ◌^◌, ◌<◌, ◌≤◌, ◌≡◌, sym, ap, ◌∙◌, some, List, [], ◌∷◌, ◌++◌, All, length, length-append, arith,
}
use vita_mtp.Cache.{rc_ok}
use vita_mtp.Transaction.{Container}
use vita_mtp.Transaction.Memory.{
  MemHandler, bytes_of, init_recv_memory_handler, init_send_memory_handler,
}
use vita_mtp.Wireless.{Sockets}
use vita_mtp.Wireless.Stream.Reads.{IsConnected}
use vita_mtp.Wireless.Commands.{Connection, getdata, senddata}
use vita_mtp.Wireless.Commands.Data.{HasRoom, IsPiece, Piece, getdata_lem, phase_stream, together}
use vita_mtp.Wireless.Commands.Sends.{Accepts, senddata_written}

-- No packet is empty, so there are no more of them than bytes.
length-together :
    (pieces : List Piece) → All IsPiece pieces → length pieces ≤ length (together pieces)
length-together [] a = omega arith
length-together (piece ∷ pieces) a =
    omega
      (arith, length-append piece.1 (together pieces), a.0.some_bytes, length-together pieces a.1)

module _ {S T : Type 0} (net : Sockets S) (conn : Connection) (written : S → List ℕ)
    (sender : Accepts net conn.cmdfd written) (peer : Sockets T) (there : Connection)
    (rest : T → List ℕ) (receiver : IsConnected peer there.cmdfd rest) where
  -- Whenever `ptp_ptpip_senddata` returns OK, `ptp_ptpip_getdata` at the other end of the connection
  -- reads what it has written: it gets the bytes of the block that was sent, and leaves what follows
  -- them. Each `send` and each `recv` may take any number of bytes but none. The block is shorter
  -- than 2^32 bytes, both ends use the same byte order and get the memory that they ask for, nothing
  -- was written before, and the fuel of both exceeds the number of bytes.
  pub getdata-senddata :
      (s s' : S) (h' : MemHandler) (t : T) (ptp ptp' : Container) (bytes back : List ℕ)
      → ((n : ℕ) → length (conn.malloc n) ≡ n)
      → HasRoom there
      → there.byteorder ≡ conn.byteorder
      → length bytes < 2 ^ 32
      → length bytes < conn.fuel
      → length bytes < there.fuel
      → written s ≡ []
      → senddata net conn s ptp
          (length bytes)
          (init_send_memory_handler (some bytes) (length bytes))
        ≡ some ((s', h'), rc_ok)
      → rest t ≡ written s' ++ back
      → (t' : T) × (h : MemHandler) × (getdata peer there t ptp' init_recv_memory_handler
          ≡ some ((t', h), rc_ok))
        × (bytes_of h.block ≡ bytes)
        × (rest t' ≡ back)
  getdata-senddata s s' h' t ptp ptp' bytes back m room same k f g none_before run arrives =
      let sent = senddata_written net conn written sender s s' h' ptp bytes m k f run in
      let pieces = sent.0 in
      let id = ptp.transaction_id in
      let stream : rest t ≡ phase_stream there.byteorder id 0 pieces ++ back =
        arrives
        ∙ ap (λ w. w ++ back)
            (sent.1
              ∙ (ap (λ w. w ++ phase_stream conn.byteorder id 0 pieces) none_before
                  ∙ ap (λ o. phase_stream o id 0 pieces) (sym same))) in
      let size = ap length sent.2 in
      let got =
        getdata_lem peer there rest receiver room t ptp' id 0 pieces back stream sent.3
          (omega (arith, size, k)) (omega (arith, size, g, length-together pieces sent.3)) in
      (got.0, got.1, got.2, got.3.0 ∙ sent.2, got.4)
