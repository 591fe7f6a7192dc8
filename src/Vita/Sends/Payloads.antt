-- ===== src/Vita/Sends/Payloads.antt =====
-- The blocks that the operations of src/vitamtp.c send: that they are sent whole, and what the
-- device reads from them.
use vita_mtp.Base.{
  ℕ, ◌+◌, ◌*◌, ◌%◌, ◌^◌, ◌<◌, ◌≡◌, refl, sym, ap, ◌∙◌, some, List, [], ◌∷◌, ◌++◌, length,
  length-append, take, arith, Option, lt→ltb,
}
use vita_mtp.Bytes.{ByteOrder, fetch, wire_bytes, dtoh64a}
use vita_mtp.Bytes.Layout.{fetch_at, fetch_whole}
use vita_mtp.Bytes.Words.{length-wire_bytes, dtoh64a_at}
use vita_mtp.Transaction.{Container}
use vita_mtp.Transaction.Memory.{MemHandler, init_send_memory_handler}
use vita_mtp.Transaction.Memory.Gets.{get_all, get_all_lem, sum, take_more}
use vita_mtp.Vita.{Device, Link, Outcome, Received, event_request, send_data, dp_senddata}
use vita_mtp.Vita.Codes.{oc_send_part_of_object, oc_send_copy_confirmation_info}
use vita_mtp.Vita.Exchange.{Exchange, left_by, perform-senddata}
use vita_mtp.Bytes.Arrays.{host_words, length-host_words}
use vita_mtp.Vita.Sends.{send_part_of_object, send_copy_confirmation_info}

-- A block with its length in front.
abbrev pub sized_bytes : ByteOrder → List ℕ → List ℕ
sized_bytes o content = wire_bytes o 8 (length content) ++ content

-- A transport that gets the block in any pieces gets all of it, and nothing behind it.
abbrev pub IsWhole : List ℕ → Type 0
IsWhole bytes =
    (wants : List ℕ)
    → sum wants ≡ length bytes
    → (p : MemHandler) × (get_all (init_send_memory_handler (some bytes) (length bytes)) wants
        ≡ some (p, bytes))

whole_lem : (bytes : List ℕ) → length bytes + length bytes < 2 ^ 64 → IsWhole bytes
whole_lem bytes k wants e =
    let got = get_all_lem bytes wants (omega (arith, e)) in
    (
      got.0,
      got.1
          ∙ ap (λ bs. some (got.0, bs))
              (ap (λ n. take n bytes) e ∙ take_more bytes (length bytes) (omega arith)),
    )

fetch_front :
    (bytes rest : List ℕ) {n : ℕ} → n ≡ length bytes → fetch (bytes ++ rest) 0 n ≡ some bytes
fetch_front bytes rest e = fetch_at [] bytes rest refl e

module _ {T : Type 0} (dev : Device T) (k : Link T) where
  -- The exchange of an operation that sends a block.
  abbrev pub Takes : Container → List ℕ → Type 0
  Takes ptp bytes =
      Exchange dev k ptp dp_senddata (length bytes)
        (init_send_memory_handler (some bytes) (length bytes))

  abbrev pub Sends :
      {ptp : Container} {bytes : List ℕ} → Takes ptp bytes → Option (Outcome T Received) → Type 0
  Sends {bytes = bytes} x o = (o ≡ some (left_by dev k _ x (some bytes) 0)) × IsWhole bytes

  send_data-whole :
      (event_id code len : ℕ) (bytes : List ℕ) (x : Takes (event_request code event_id) bytes)
      → len ≡ length bytes
      → length bytes < 2 ^ 32
      → Sends x (send_data dev k event_id code (some bytes) len)
  unfolding send_data
  send_data-whole event_id code len bytes x e short = (
    rw (e, perform-senddata dev k (event_request code event_id) (some bytes) (length bytes) x) refl,
    whole_lem bytes (omega arith),
  )

  module _ (event_id : ℕ) (content rest : List ℕ) (short : length content + 8 < 2 ^ 32) where
    length-sized_bytes : length (sized_bytes dev.host content) ≡ length content + 8
    length-sized_bytes = omega (
      arith,
      length-append (wire_bytes dev.host 8 (length content)) content,
      length-wire_bytes dev.host 8 (length content),
    )

    -- What the device reads from the block.
    sized_reads :
        (dtoh64a dev.host (sized_bytes dev.host content) 0 ≡ some (length content))
        × (fetch (sized_bytes dev.host content) 8 (length content) ≡ some content)
    sized_reads = (
      dtoh64a_at dev.host [] content (omega arith) refl,
      fetch_whole (wire_bytes dev.host 8 (length content)) content
          (sym (length-wire_bytes dev.host 8 (length content))) refl,
    )

    -- For a part with a length of less than 2 ^ 32 - 8, over an exchange that takes the block,
    -- `VitaMTP_SendPartOfObject` returns the code of the response; the block is sent whole in
    -- whatever pieces the transport gets it; and a device with the byte order of the computer
    -- reads the length and the part from it.
    pub send_part_of_object_lem :
        (x : Takes (event_request oc_send_part_of_object event_id) (sized_bytes dev.host content))
        → Sends x (send_part_of_object dev k event_id (content ++ rest) (length content))
          × (dtoh64a dev.host (sized_bytes dev.host content) 0 ≡ some (length content))
          × (fetch (sized_bytes dev.host content) 8 (length content) ≡ some content)
    unfolding send_part_of_object
    send_part_of_object_lem x = (
      rw (fetch_front content rest refl) (
          send_data-whole event_id oc_send_part_of_object ((length content + 8) % 2 ^ 32)
            (sized_bytes dev.host content) x (omega (arith, length-sized_bytes))
            (omega (arith, length-sized_bytes))),
      sized_reads.0,
      sized_reads.1,
    )

  -- The block of a copy confirmation: the size in front of what the device sent before.
  abbrev pub confirmation_bytes : List ℕ → ℕ → List ℕ
  confirmation_bytes ohfi size =
      wire_bytes dev.host 8 size ++ host_words dev.host (length ohfi ∷ ohfi)

  -- Where count and list agree and take less than 2 ^ 31 bytes, over an exchange that takes the
  -- block, `VitaMTP_SendCopyConfirmationInfo` returns the code of the response, and the block of
  -- the size, the count and the list is sent whole in whatever pieces the transport gets it.
  pub send_copy_confirmation_info_lem :
      (event_id : ℕ) (ohfi : List ℕ) (size : ℕ)
      (x : Takes
        (event_request oc_send_copy_confirmation_info event_id)
        (confirmation_bytes ohfi size))
      → 4 * length ohfi + 4 < 2 ^ 31
      → Sends x (
          send_copy_confirmation_info dev k event_id
            (record { count = length ohfi; ohfi = ohfi })
            size)
  unfolding send_copy_confirmation_info host_words
  send_copy_confirmation_info_lem event_id ohfi size x short =
      let words = host_words dev.host (length ohfi ∷ ohfi) in
      let info_size : ℕ = (length ohfi * 4 + 4) % 2 ^ 32 in
      let size_ok : info_size ≡ length words =
        omega (arith, length-host_words dev.host (length ohfi ∷ ohfi)) in
      let whole : info_size + 8 ≡ length (wire_bytes dev.host 8 size ++ words) = omega (
        arith,
        size_ok,
        length-append (wire_bytes dev.host 8 size) words,
        length-wire_bytes dev.host 8 size,
      ) in
      rw
        (lt→ltb info_size (2 ^ 31) (omega arith), fetch_whole [] words {n = info_size} refl size_ok)
        (send_data-whole event_id oc_send_copy_confirmation_info (info_size + 8)
          (wire_bytes dev.host 8 size ++ words) x whole (omega (arith, whole)))
