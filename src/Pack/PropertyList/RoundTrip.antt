-- ===== src/Pack/PropertyList/RoundTrip.antt =====
-- Lists of object properties: what `ptp_pack_OPL` packs `ptp_unpack_OPL` reads back.
use mathlib.Core.List.{append-nil}
use vita_mtp.Base.{
  ℕ, zero, suc, ◌+◌, ◌-◌, ◌%◌, ◌^◌, ◌<◌, ◌≤◌, ◌≡◌, refl, sym, ap, Bool, true, some, List, [], ◌∷◌,
  ◌++◌, map, arith, ◌==◌, ==_iff, Bool-cases, inl, inr, length, length-append, All, take,
}
use vita_mtp.Bytes.{dtoh32a, htod32a, wire_bytes}
use vita_mtp.Bytes.Words.{dtoh32a_at, length-wire_bytes}
use vita_mtp.Pack.Params.{Params}
use vita_mtp.Pack.Values.{MtpProperty}
use vita_mtp.Pack.PropertyList.Wire.{
  IsPackable, entry_of, item_of, wire_items, length-wire_items, pack_each-items, store_front,
  write_items-wire, unpack_entries-wire,
}
use vita_mtp.Pack.PropertyList.{items_size, pack_opl, Entry, unpack_opl}

module _ (p : Params) where
  length-map-item_of : (ms : List MtpProperty) → length (map (item_of p) ms) ≡ length ms
  length-map-item_of [] = refl
  length-map-item_of (m ∷ ms) = ap suc (length-map-item_of ms)

  take_few : (ms : List MtpProperty) (n : ℕ) → length ms ≤ n → take n ms ≡ ms
  take_few [] zero h = refl
  take_few [] (suc n) h = refl
  take_few (m ∷ ms) zero h = absurd (omega arith)
  take_few (m ∷ ms) (suc n) h = ap (λ xs. m ∷ xs) (take_few ms n (omega arith))

  -- The bytes of a packed list.
  wire_list : List MtpProperty → List ℕ
  wire_list ms = wire_bytes p.byteorder 4 (length ms) ++ wire_items p (map (item_of p) ms)

  pack_opl-wire :
      (malloc : ℕ → List ℕ) (packed : List ℕ) (ms : List MtpProperty)
      → ((n : ℕ) → length (malloc n) ≡ n)
      → All IsPackable ms
      → length ms ≤ 127
      → length (wire_list ms) < 2 ^ 32
      → pack_opl p malloc packed ms ≡ some (wire_list ms, length (wire_list ms))
  unfolding pack_opl htod32a wire_list
  pack_opl-wire malloc packed ms sized a few short =
      let items = map (item_of p) ms in
      let c : List ℕ = wire_bytes p.byteorder 4 (length ms) in
      let lc = length-wire_bytes p.byteorder 4 (length ms) in
      let total : (4 + items_size items) % 2 ^ 32 ≡ length (c ++ wire_items p items) =
        omega (arith, short, length-append c (wire_items p items), length-wire_items p items, lc) in
      let n : ℕ = length (c ++ wire_items p items) in
      let size : n ≡ 4 + items_size items =
        omega (arith, length-append c (wire_items p items), length-wire_items p items, lc) in
      let (room, counted, left) =
        store_front p [] (malloc n) [] c 0 refl (omega (arith, sized n, lc)) in
      let filled =
        write_items-wire p items c room [] 4 (sym lc) (omega (arith, sized n, size, lc)) in
      rw
        (
          take_few ms 127 few,
          pack_each-items p malloc packed ms sized a,
          total,
          length-map-item_of ms,
          sym (append-nil (malloc n)),
          counted,
          filled,
          append-nil (wire_items p items),
        )
        refl

  -- A list of at most 127 properties whose fields fit their widths, each a number or an array of
  -- numbers, with a size that fits in 32 bits, is packed by `ptp_pack_OPL` in a block of its size,
  -- whatever `malloc` returned held. From that block `ptp_unpack_OPL` reads every property back,
  -- given that `malloc` gets memory, and returns them as `qsort` leaves them, which leaves an empty
  -- array as it is.
  pub unpack_opl-pack_opl :
      (malloc : ℕ → List ℕ) (packed : List ℕ) (malloc_ok array_ok : ℕ → Bool)
      (sort : List Entry → List Entry) (ms : List MtpProperty)
      → ((n : ℕ) → length (malloc n) ≡ n)
      → ((n : ℕ) → malloc_ok n ≡ true)
      → ((n : ℕ) → array_ok n ≡ true)
      → sort [] ≡ []
      → All IsPackable ms
      → length ms ≤ 127
      → items_size (map (item_of p) ms) < 2 ^ 32 - 4
      → (bytes : List ℕ) × (pack_opl p malloc packed ms ≡ some (bytes, length bytes))
        × (unpack_opl p malloc_ok array_ok sort bytes (length bytes)
            ≡ some (sort (map entry_of ms)))
  unfolding unpack_opl wire_list
  unpack_opl-pack_opl malloc packed malloc_ok array_ok sort ms sized got array_got nothing a few
        short =
      let items = map (item_of p) ms in
      let c : List ℕ = wire_bytes p.byteorder 4 (length ms) in
      let lc = length-wire_bytes p.byteorder 4 (length ms) in
      let size : length (c ++ wire_items p items) ≡ 4 + items_size items =
        omega (arith, length-append c (wire_items p items), length-wire_items p items, lc) in
      let count : dtoh32a p.byteorder (c ++ wire_items p items) 0 ≡ some (length ms) =
        dtoh32a_at p.byteorder [] (wire_items p items) (omega arith) refl in
      let entries =
        unpack_entries-wire p malloc_ok c ms 4
          ((length (c ++ wire_items p items) + 2 ^ 32 - 4) % 2 ^ 32) got a (sym lc)
          (omega (arith, size)) (omega arith) in
      (
        wire_list ms,
        pack_opl-wire malloc packed ms sized a few (omega (arith, size)),
        rw (count, entries, array_got (length ms))
            (elim (Bool-cases (length ms == 0)) [
              | inl none_at_all ↦ rw none_at_all (ap some (sym (nil_case ms none_at_all)))
              | inr more ↦ rw more refl
            ]),
      )
    where
      nil_case : (ms : List MtpProperty) → (length ms == 0) ≡ true → sort (map entry_of ms) ≡ []
      nil_case [] e = nothing
      nil_case (m ∷ ms) e = absurd (omega (arith, (==_iff (length (m ∷ ms)) 0).0 e))
