-- ===== src/Pack/ObjectInfo/RoundTrip.antt =====
-- `ptp_unpack_OI` on the bytes that `ptp_pack_OI` reports.
use mathlib.Core.List.{append_assoc}
use vita_mtp.Base.{
  ℕ, zero, suc, ◌+◌, ◌-◌, ◌*◌, ◌≤◌, ◌≡◌, refl, sym, ap, ◌∙◌, none, some, List, [], ◌∷◌, ◌++◌, arith,
  replicate, length, length-append, length-replicate, ℤ, pos,
}
use vita_mtp.Bytes.{ByteOrder, little, big, fetch, wire_bytes, dtoh8a}
use vita_mtp.Bytes.Layout.{fetch_at}
use vita_mtp.Pack.Params.{Params}
use vita_mtp.Pack.Strings.{pack_string, unpack_string}
use vita_mtp.Pack.Strings.Layout.{wire_string}
use vita_mtp.Pack.Strings.RoundTrip.{
  IsCarried, length_of_carried, pack_string-carried, unpack_string-carried,
}
use vita_mtp.Pack.Times.{Tm, unpack_time}
use vita_mtp.Pack.ObjectInfo.{ObjectInfo, pack_object_info, unpack_object_info}
use vita_mtp.Pack.ObjectInfo.Layout.{header, pack_fields-header, IsInRange, header_reads}

length-header : (o : ByteOrder) (oi : ObjectInfo) → length (header o oi) ≡ 52
unfolding wire_bytes
length-header little oi = refl
length-header big oi = refl

-- A count byte of 0 stands for no string.
unpack_string-null :
    (p : Params) (pre rest : List ℕ) (offset : ℕ)
    → offset ≡ length pre
    → unpack_string p (pre ++ (0 ∷ rest)) offset ≡ some (none, 0)
unfolding unpack_string dtoh8a
unpack_string-null p pre rest offset e = rw (fetch_at pre (0 ∷ []) rest e refl) refl

-- What is sent of the block, and what is left of it.
abbrev sent : Params → ObjectInfo → ℕ → List ℕ → List ℕ
sent p oi n u = header p.byteorder oi ++ (wire_string n u ++ (0 ∷ 0 ∷ 0 ∷ []))

length-sent :
    (p : Params) (oi : ObjectInfo) (n : ℕ) (u : List ℕ)
    → length u ≡ n * 2
    → length (sent p oi n u) ≡ 53 + (n + 1) * 2 + 3
length-sent p oi n u two = omega (
  arith,
  length-append (header p.byteorder oi) (wire_string n u ++ (0 ∷ 0 ∷ 0 ∷ [])),
  length-header p.byteorder oi,
  length-append (wire_string n u) (0 ∷ 0 ∷ 0 ∷ []),
  length-append u (0 ∷ 0 ∷ []),
  two,
)

zeros : ℕ → List ℕ
zeros n = replicate n 0

zeros-add : (n m : ℕ) → zeros (n + m) ≡ zeros n ++ zeros m
unfolding zeros
zeros-add zero m = ap zeros (omega arith)
zeros-add (suc n) m = ap zeros (suc_add n m) ∙ ap (◌∷◌ 0) (zeros-add n m)
  where
    suc_add : (a b : ℕ) → suc a + b ≡ suc (a + b)
    suc_add a b = omega arith

module _ (p : Params) (oi : ObjectInfo) (s u : List ℕ) (n : ℕ) (named : oi.filename ≡ some s)
    (c : IsCarried p s n u) (short : n ≤ 254) where
  -- The block behind what is sent stays cleared.
  pack_object_info-sent :
      pack_object_info p oi ≡ some (sent p oi n u ++ zeros (510 - n * 2), 53 + (n + 1) * 2 + 3)
  unfolding pack_object_info zeros
  pack_object_info-sent =
      let split_room : 516 ≡ n * 2 + 3 + (3 + (510 - n * 2)) = omega arith in
      let room : zeros 516 ≡ zeros (n * 2 + 3) ++ (0 ∷ 0 ∷ 0 ∷ zeros (510 - n * 2)) =
        ap zeros split_room
        ∙ zeros-add (n * 2 + 3) (3 + (510 - n * 2))
        ∙ ap (◌++◌ (zeros (n * 2 + 3))) (zeros-add 3 (510 - n * 2)) in
      let packed =
        pack_string-carried p s n u short (header p.byteorder oi) (zeros (n * 2 + 3))
          (0 ∷ 0 ∷ 0 ∷ zeros (510 - n * 2)) 52 c (length-replicate (n * 2 + 3) 0)
          (sym (length-header p.byteorder oi)) in
      rw
        (
          pack_fields-header p.byteorder oi,
          named,
          ap (λ b. pack_string p s (header p.byteorder oi ++ b) 52) room ∙ packed,
        )
        (simp append_assoc)

  unpack_object_info-sent :
      (mktime : Tm → ℤ)
      → IsInRange oi
      → unpack_object_info p mktime (sent p oi n u)
        ≡ some (record oi { capture_date = pos 0; modification_date = pos 0 })
  unfolding unpack_object_info unpack_time
  unpack_object_info-sent mktime ok =
      let o : ByteOrder = p.byteorder in
      let front : List ℕ = header o oi ++ wire_string n u in
      let reads = header_reads oi (wire_string n u ++ (0 ∷ 0 ∷ 0 ∷ [])) ok o in
      let before : length front ≡ 53 + (n + 1) * 2 = omega (
        arith,
        length-append (header o oi) (wire_string n u),
        length-header o oi,
        length-append u (0 ∷ 0 ∷ []),
        length_of_carried p s n u short c,
      ) in
      let split_date : sent p oi n u ≡ (front ++ (0 ∷ [])) ++ (0 ∷ 0 ∷ []) = simp append_assoc in
      let name =
        unpack_string-carried p s n u short (header o oi) (0 ∷ 0 ∷ 0 ∷ []) 52 c
          (sym (length-header o oi)) in
      let capture : unpack_string p (sent p oi n u) (52 + (n + 1) * 2 + 1) ≡ some (none, 0) =
        rw (← append_assoc (header o oi) (wire_string n u) (0 ∷ 0 ∷ 0 ∷ [])) (
          unpack_string-null p front (0 ∷ 0 ∷ []) (52 + (n + 1) * 2 + 1) (omega (arith, before))) in
      let modified : unpack_string p (sent p oi n u) (52 + (n + 1) * 2 + 0 * 2 + 2)
          ≡ some (none, 0) =
        rw (split_date) (
          unpack_string-null p (front ++ (0 ∷ [])) (0 ∷ []) (52 + (n + 1) * 2 + 0 * 2 + 2)
            (omega (arith, before, length-append front (0 ∷ [])))) in
      rw
        (
          reads.0, reads.1, reads.2, reads.3, reads.4, reads.5, reads.6, reads.7, reads.8, reads.9,
          reads.10, reads.11, reads.12, reads.13, reads.14, name, capture, modified,
        )
        (ap
          (λ f. some (record oi { filename = f; capture_date = pos 0; modification_date = pos 0 }))
          (sym named))

-- Of the block that an object info is packed into, the bytes that the length reports are unpacked
-- to the same object info, but for its dates, which are not sent and come back as 0. The
-- numbers must fit their fields, and the file name must be carried and of at most 254 units.
pub unpack_object_info-pack_object_info :
    (p : Params) (oi : ObjectInfo) (mktime : Tm → ℤ) (s u : List ℕ) (n : ℕ)
    → oi.filename ≡ some s
    → IsCarried p s n u
    → n ≤ 254
    → IsInRange oi
    → (buf wire : List ℕ) × (len : ℕ) × (pack_object_info p oi ≡ some (buf, len))
      × (fetch buf 0 len ≡ some wire)
      × (unpack_object_info p mktime wire
          ≡ some (record oi { capture_date = pos 0; modification_date = pos 0 }))
unpack_object_info-pack_object_info p oi mktime s u n named c short ok = (
  sent p oi n u ++ zeros (510 - n * 2),
  sent p oi n u,
  53 + (n + 1) * 2 + 3,
  pack_object_info-sent p oi s u n named c short,
  fetch_at [] (sent p oi n u) (zeros (510 - n * 2)) refl
      (sym (length-sent p oi n u (length_of_carried p s n u short c))),
  unpack_object_info-sent p oi s u n named c short mktime ok,
)
