-- ===== src/Pack/PropertyList/Wire.antt =====
-- Lists of object properties on the wire: what the loops of `ptp_pack_OPL` write, and what the
-- loop of `ptp_unpack_OPL` reads there.
use mathlib.Core.List.{append_assoc}
use vita_mtp.Base.{
  ℕ, ◌+◌, ◌-◌, ◌%◌, ◌^◌, ◌<◌, ◌≤◌, ◌≡◌, refl, sym, ap, ◌∙◌, Bool, true, some, List, [], ◌∷◌, ◌++◌,
  map, arith, ==_false, length, length-append, All, drop, drop-append_length,
}
use vita_mtp.Bytes.{dtoh16a, dtoh32a, htod16a, htod32a, store, wire_bytes}
use vita_mtp.Bytes.Layout.{store_at, split_at}
use vita_mtp.Bytes.Words.{dtoh16a_at, dtoh32a_at, length-wire_bytes}
use vita_mtp.Pack.Params.{Params}
use vita_mtp.Pack.Values.{MtpProperty, kind_of}
use vita_mtp.Pack.Values.RoundTrip.{wire_value_of, IsTyped, pack_dpv-wire, unpack_dpv-wire}
use vita_mtp.Pack.PropertyList.{pack_each, items_size, write_items, Entry, unpack_entries}

-- A property whose fields have their widths, with a value of its data type.
abbrev pub IsPackable : MtpProperty → Type 0
IsPackable m =
    (m.object_handle < 2 ^ 32)
    × (m.property < 2 ^ 16)
    × (m.datatype < 2 ^ 16)
    × IsTyped (kind_of m.datatype) m.propval

-- The entry that a property becomes.
abbrev pub entry_of : MtpProperty → Entry
entry_of m = record {
  property = m.property;
  datatype = m.datatype;
  object_handle = m.object_handle;
  propval = some m.propval;
}

module _ (p : Params) where
  abbrev pub value_bytes : MtpProperty → List ℕ
  value_bytes m = wire_value_of p.byteorder (kind_of m.datatype) m.propval

  abbrev pub item_of : MtpProperty → MtpProperty × List ℕ
  item_of m = (m, value_bytes m)

  -- The properties on the wire.
  abbrev pub wire_items : List (MtpProperty × List ℕ) → List ℕ
  wire_items [] = []
  wire_items (item ∷ items) =
      wire_bytes p.byteorder 4 item.0.object_handle
      ++ (wire_bytes p.byteorder 2 item.0.property
          ++ (wire_bytes p.byteorder 2 item.0.datatype ++ (item.1 ++ wire_items items)))

  pub length-wire_items :
      (items : List (MtpProperty × List ℕ)) → length (wire_items items) ≡ items_size items
  length-wire_items [] = refl
  length-wire_items (item ∷ items) =
      let o = p.byteorder in
      let a : List ℕ = wire_bytes o 4 item.0.object_handle in
      let b : List ℕ = wire_bytes o 2 item.0.property in
      let c : List ℕ = wire_bytes o 2 item.0.datatype in
      let r : List ℕ = wire_items items in
      omega (
        arith,
        length-append a (b ++ (c ++ (item.1 ++ r))),
        length-append b (c ++ (item.1 ++ r)),
        length-append c (item.1 ++ r),
        length-append item.1 r,
        length-wire_bytes o 4 item.0.object_handle,
        length-wire_bytes o 2 item.0.property,
        length-wire_bytes o 2 item.0.datatype,
        length-wire_items items,
      )

  pub pack_each-items :
      (malloc : ℕ → List ℕ) (packed : List ℕ) (ms : List MtpProperty)
      → ((n : ℕ) → length (malloc n) ≡ n)
      → All IsPackable ms
      → pack_each p malloc packed ms ≡ some (map item_of ms)
  unfolding pack_each
  pack_each-items malloc packed [] sized a = refl
  pack_each-items malloc packed (m ∷ ms) sized a =
      rw
        (
          pack_dpv-wire p malloc packed (kind_of m.datatype) m.propval sized a.0.3,
          pack_each-items malloc packed ms sized a.1,
        )
        refl

  -- A write at the front of the room leaves the room behind it.
  pub store_front :
      (pre old rest bs : List ℕ) (offset : ℕ)
      → offset ≡ length pre
      → length bs ≤ length old
      → (back : List ℕ) × (store (pre ++ (old ++ rest)) offset bs
          ≡ some ((pre ++ bs) ++ (back ++ rest)))
        × (length old ≡ length bs + length back)
  store_front pre old rest bs offset e l =
      let (front, back, split, n) = split_at (length bs) old l in
      (
        back,
        rw (split, append_assoc front back rest)
            (store_at pre front (back ++ rest) bs e (sym n)
              ∙ ap some (sym (append_assoc pre bs (back ++ rest)))),
        omega (arith, ap length split, length-append front back),
      )

  -- The loop overwrites just the room of the properties.
  pub write_items-wire :
      (items : List (MtpProperty × List ℕ)) (pre old rest : List ℕ) (bufp : ℕ)
      → bufp ≡ length pre
      → length old ≡ items_size items
      → write_items p.byteorder items bufp (pre ++ (old ++ rest))
        ≡ some (pre ++ (wire_items items ++ rest))
  unfolding write_items htod32a htod16a
  write_items-wire [] pre [] rest bufp e h = refl
  write_items-wire [] pre (x ∷ old) rest bufp e h = absurd (omega arith)
  write_items-wire (item ∷ items) pre old rest bufp e h =
      let o = p.byteorder in
      let a : List ℕ = wire_bytes o 4 item.0.object_handle in
      let b : List ℕ = wire_bytes o 2 item.0.property in
      let c : List ℕ = wire_bytes o 2 item.0.datatype in
      let la = length-wire_bytes o 4 item.0.object_handle in
      let lb = length-wire_bytes o 2 item.0.property in
      let lc = length-wire_bytes o 2 item.0.datatype in
      let p1 = length-append pre a in
      let p2 = length-append (pre ++ a) b in
      let p3 = length-append ((pre ++ a) ++ b) c in
      let p4 = length-append (((pre ++ a) ++ b) ++ c) item.1 in
      let (old1, one, n1) = store_front pre old rest a bufp e (omega (arith, la)) in
      let (old2, two, n2) =
        store_front (pre ++ a) old1 rest b (bufp + 4) (omega (arith, p1, la))
          (omega (arith, la, lb)) in
      let (old3, three, n3) =
        store_front ((pre ++ a) ++ b) old2 rest c (bufp + 6) (omega (arith, p1, p2, la, lb))
          (omega (arith, la, lb, lc)) in
      let (old4, four, n4) =
        store_front (((pre ++ a) ++ b) ++ c) old3 rest item.1 (bufp + 8)
          (omega (arith, p1, p2, p3, la, lb, lc)) (omega (arith, la, lb, lc)) in
      let later =
        write_items-wire items ((((pre ++ a) ++ b) ++ c) ++ item.1) old4 rest
          (bufp + 8 + length item.1) (omega (arith, p1, p2, p3, p4, la, lb, lc))
          (omega (arith, la, lb, lc)) in
      rw (one, two, three, four) (later ∙ ap some (simp append_assoc))

  pub unpack_entries-wire :
      (malloc_ok : ℕ → Bool) (pre : List ℕ) (ms : List MtpProperty) (pos len : ℕ)
      → ((n : ℕ) → malloc_ok n ≡ true)
      → All IsPackable ms
      → pos ≡ length pre
      → len ≡ items_size (map item_of ms)
      → len < 2 ^ 32
      → unpack_entries p malloc_ok (pre ++ wire_items (map item_of ms)) (length ms) pos len
        ≡ some (map entry_of ms)
  unfolding unpack_entries
  unpack_entries-wire malloc_ok pre [] pos len got a e l k = refl
  unpack_entries-wire malloc_ok pre (m ∷ ms) pos len got a e l k =
      let o = p.byteorder in
      let x : List ℕ = wire_bytes o 4 m.object_handle in
      let y : List ℕ = wire_bytes o 2 m.property in
      let z : List ℕ = wire_bytes o 2 m.datatype in
      let v : List ℕ = wire_value_of o (kind_of m.datatype) m.propval in
      let r : List ℕ = wire_items (map item_of ms) in
      let front : List ℕ = ((pre ++ x) ++ y) ++ z in
      let buf : List ℕ = pre ++ (x ++ (y ++ (z ++ (v ++ r)))) in
      let lx = length-wire_bytes o 4 m.object_handle in
      let ly = length-wire_bytes o 2 m.property in
      let lz = length-wire_bytes o 2 m.datatype in
      let p1 = length-append pre x in
      let p2 = length-append (pre ++ x) y in
      let p3 = length-append ((pre ++ x) ++ y) z in
      let p4 = length-append front v in
      let lv : length v ≤ len - 8 = omega arith in
      let one : dtoh32a o buf pos ≡ some m.object_handle =
        dtoh32a_at o pre (y ++ (z ++ (v ++ r))) a.0.0 e in
      let two : dtoh16a o buf (pos + 4) ≡ some m.property =
        rw (← append_assoc pre x (y ++ (z ++ (v ++ r))))
          (dtoh16a_at o (pre ++ x) (z ++ (v ++ r)) a.0.1 (omega (arith, p1, lx))) in
      let three : dtoh16a o buf (pos + 6) ≡ some m.datatype =
        rw
          (← append_assoc pre x (y ++ (z ++ (v ++ r))), ← append_assoc (pre ++ x) y (z ++ (v ++ r)))
          (dtoh16a_at o ((pre ++ x) ++ y) (v ++ r) a.0.2 (omega (arith, p1, p2, lx, ly))) in
      let whole : buf ≡ front ++ (v ++ r) = simp append_assoc in
      let behind : drop (pos + 8) buf ≡ v ++ r =
        ap (λ n. drop n buf) (omega (arith, p1, p2, p3, lx, ly, lz))
        ∙ (ap (drop (length front)) whole ∙ drop-append_length front (v ++ r)) in
      let value =
        unpack_dpv-wire p malloc_ok [] r (kind_of m.datatype) m.propval 0
          ((len + 2 ^ 32 - 8) % 2 ^ 32) got a.0.3 refl (omega arith) in
      let later : unpack_entries p malloc_ok buf (length ms) (pos + 8 + (0 + length v))
            ((len + 2 ^ 32 - 8 + (2 ^ 32 - (0 + length v) % 2 ^ 32)) % 2 ^ 32)
          ≡ some (map entry_of ms) =
        rw (whole, ← append_assoc front v r)
          (unpack_entries-wire malloc_ok (front ++ v) ms _ _ got a.1
            (omega (arith, p1, p2, p3, p4, lx, ly, lz)) (omega arith) (omega arith)) in
      rw (==_false len 0 (omega arith), one, two, three, behind, value, later) refl
