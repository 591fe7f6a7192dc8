-- ===== src/Vita/Gets/Correct.antt =====
-- The operations of src/vitamtp.c that get data, over exchanges that succeed and requests that fail.
use vita_mtp.Base.{
  ℕ, ◌+◌, ◌^◌, ◌<◌, ◌≡◌, ◌≢◌, refl, Option, none, some, List, [], ◌∷◌, length, length-append, All,
  arith, ==_false, Bool-cases, inl, inr, ◌==◌, if◌then◌else◌,
}
use vita_mtp.Bytes.{fetch, dtoh32a}
use vita_mtp.Cache.{rc_ok}
use vita_mtp.Vita.{Device, Link, Outcome, event_request, get_data}
use vita_mtp.Vita.Codes.{
  oc_get_browse_info, oc_get_url, oc_send_object_status, oc_send_object_metadata_items,
  oc_send_part_of_object_init, oc_operate_object, oc_get_part_of_object, oc_get_treat_object,
}
use vita_mtp.Bytes.Arrays.{host_words, Is32, length-host_words}
use vita_mtp.Vita.Exchange.{
  Delivers, behind_request, left_by, left_unsent, reply_of, perform-getdata, perform-unsent,
}
use vita_mtp.Vita.Gets.{
  SendPartInit, OperateObject, filled, filled_if_ok, get_browse_info, get_url, get_object_status,
  send_part_of_object_init, operate_object, get_part_of_object, get_treat_object,
  send_object_metadata_items, read_part, read_part_init, read_browse_info, read_treat_object,
  read_operate_object, unfilled,
}
use vita_mtp.Vita.Gets.Layout.{
  operate_object_bytes, part_init_bytes, read_operate_object_lem, read_part_lem, url_bytes,
  read_url_lem,
}

module _ {T : Type 0} (dev : Device T) (k : Link T) (event_id : ℕ) where
  -- What is left behind the exchange, with the structure filled.
  abbrev pub filled_by :
      {A : Type 0} {ptp : _} {bytes : List ℕ} → Delivers dev k ptp bytes → A → Outcome T (Option A)
  filled_by d a = record {
    link = (left_by dev k _ d.exchange none 0).link;
    code = (left_by dev k _ d.exchange none 0).code;
    value = some a;
  }

  -- Where the device delivers the three numbers of a part, in range and with the part's true size,
  -- and the bytes of the part behind them, `VitaMTP_GetPartOfObject` fills in these numbers and
  -- these bytes, and returns the code of the response.
  pub get_part_of_object_lem :
      (i : SendPartInit) (part : List ℕ)
      (d : Delivers dev k
        (event_request oc_get_part_of_object event_id)
        (part_init_bytes dev.host i part))
      → i.ohfi < 2 ^ 32
      → i.offset < 2 ^ 64
      → i.size < 2 ^ 64
      → length part ≡ i.size
      → get_part_of_object dev k event_id ≡ some (filled_by d (i, part))
  unfolding get_part_of_object get_data filled
  get_part_of_object_lem i part d a b c e =
      rw (perform-getdata dev k _ _ d, d.holds.0, read_part_lem dev.host i a b c part e) refl

  -- Where the device delivers four numbers below 2 ^ 32 and a title with its terminator, which the
  -- fourth number does not count, `VitaMTP_OperateObject` fills in all five, and returns the code
  -- of the response.
  pub operate_object_lem :
      (s : OperateObject)
      (d : Delivers dev k
        (event_request oc_operate_object event_id)
        (operate_object_bytes dev.host s))
      → All Is32 (s.cmd ∷ s.ohfi ∷ s.unk1 ∷ s.len ∷ [])
      → length s.title ≡ s.len + 1
      → s.len + 1 < 2 ^ 32
      → operate_object dev k event_id ≡ some (filled_by d s)
  unfolding operate_object get_data filled
  operate_object_lem s d a e short =
      rw (perform-getdata dev k _ _ d, d.holds.0, read_operate_object_lem dev.host s a e short) refl

  pub get_url_lem :
      (a b : ℕ) (url : List ℕ)
      (d : Delivers dev k (event_request oc_get_url event_id) (url_bytes dev.host a b url))
      → Is32 a
      → Is32 b
      → length url < 2 ^ 31
      → (get_url dev k event_id
          ≡ some (
              if (reply_of dev k _ d.exchange).0.1.code == rc_ok
              then filled_by d url
              else unfilled
                  (left_by dev k _ d.exchange none 0)
                  (reply_of dev k _ d.exchange).0.1.code))
  unfolding get_url get_data filled
  get_url_lem a b url d a32 b32 short =
      elim (Bool-cases ((reply_of dev k _ d.exchange).0.1.code == rc_ok)) [
        | inl ok ↦
            rw
              (
                perform-getdata dev k _ _ d,
                ok,
                ==_false (length (url_bytes dev.host a b url)) 0 (λ z. omega (
                  arith,
                  z,
                  length-append (host_words dev.host (a ∷ b ∷ length url ∷ [])) url,
                  length-host_words dev.host (a ∷ b ∷ length url ∷ []),
                )),
                d.holds.0,
                read_url_lem dev.host a b url a32 b32 short,
              )
              refl
        | inr failed ↦ rw (perform-getdata dev k _ _ d, failed) refl
      ]

  -- A failure of the request: the code is that of the request.
  abbrev pub unsent : {A : Type 0} → ℕ → Outcome T (Option A)
  unsent code =
      unfilled (left_unsent dev k (event_request code event_id))
        (behind_request dev k (event_request code event_id)).1

  -- Where the transport cannot send the request of any operation, `VitaMTP_GetUrl`,
  -- `VitaMTP_SendObjectStatus`, `VitaMTP_SendPartOfObjectInit` and
  -- `VitaMTP_SendObjectMetadataItems` return the code of that and fill in nothing, and
  -- `VitaMTP_GetBrowseInfo`, `VitaMTP_OperateObject`, `VitaMTP_GetPartOfObject` and
  -- `VitaMTP_GetTreatObject` read through a null pointer.
  pub gets_unsent :
      ((code : ℕ) → (behind_request dev k (event_request code event_id)).1 ≢ rc_ok)
      → (get_url dev k event_id ≡ some (unsent oc_get_url))
        × (get_object_status dev k event_id ≡ some (unsent oc_send_object_status))
        × (send_part_of_object_init dev k event_id ≡ some (unsent oc_send_part_of_object_init))
        × (send_object_metadata_items dev k event_id ≡ some (unsent oc_send_object_metadata_items))
        × (get_browse_info dev k event_id ≡ none)
        × (operate_object dev k event_id ≡ none)
        × (get_part_of_object dev k event_id ≡ none)
        × (get_treat_object dev k event_id ≡ none)
  unfolding get_url get_object_status send_part_of_object_init send_object_metadata_items
      get_browse_info operate_object get_part_of_object get_treat_object get_data filled
      filled_if_ok read_browse_info read_operate_object read_part read_part_init read_treat_object
      dtoh32a fetch
  gets_unsent e = (
    rw
        (
          perform-unsent dev k (event_request oc_get_url event_id) (e oc_get_url),
          ==_false (behind_request dev k (event_request oc_get_url event_id)).1 rc_ok
              (e oc_get_url),
        )
        refl,
    rw
        (
          perform-unsent dev k (event_request oc_send_object_status event_id)
              (e oc_send_object_status),
          ==_false (behind_request dev k (event_request oc_send_object_status event_id)).1 rc_ok
              (e oc_send_object_status),
        )
        refl,
    rw
        (
          perform-unsent dev k (event_request oc_send_part_of_object_init event_id)
              (e oc_send_part_of_object_init),
          ==_false (behind_request dev k (event_request oc_send_part_of_object_init event_id)).1
              rc_ok (e oc_send_part_of_object_init),
        )
        refl,
    rw
        (
          perform-unsent dev k (event_request oc_send_object_metadata_items event_id)
              (e oc_send_object_metadata_items),
          ==_false (behind_request dev k (event_request oc_send_object_metadata_items event_id)).1
              rc_ok (e oc_send_object_metadata_items),
        )
        refl,
    rw (perform-unsent dev k (event_request oc_get_browse_info event_id) (e oc_get_browse_info))
        refl,
    rw (perform-unsent dev k (event_request oc_operate_object event_id) (e oc_operate_object)) refl,
    rw
        (perform-unsent dev k (event_request oc_get_part_of_object event_id)
          (e oc_get_part_of_object))
        refl,
    rw (perform-unsent dev k (event_request oc_get_treat_object event_id) (e oc_get_treat_object))
        refl,
  )
