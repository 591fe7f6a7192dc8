-- ===== src/Vita/Gets/Layout.antt =====
-- The blocks that the device sends, as their members in a row: what src/vitamtp.c reads from them
-- is what they were made of.
use mathlib.Core.List.{append_assoc, append-nil}
use vita_mtp.Base.{
  ℕ, ◌+◌, ◌*◌, ◌%◌, ◌^◌, ◌<◌, ◌≡◌, refl, sym, ap, ◌∙◌, some, List, [], ◌∷◌, ◌++◌, length,
  length-append, All, arith, lt→ltb,
}
use vita_mtp.Bytes.{ByteOrder, fetch, wire_bytes, dtoh64a}
use vita_mtp.Bytes.Layout.{fetch_at, fetch_whole}
use vita_mtp.Bytes.Words.{length-wire_bytes, dtoh32a_at, dtoh64a_at}
use vita_mtp.Bytes.Arrays.{Is32, host_words, host_words_at, length-host_words}
use vita_mtp.Vita.Gets.{
  BrowseInfo, ObjectStatus, SendPartInit, OperateObject, TreatObject, read_browse_info,
  read_part_init, read_treat_object, read_url, read_object_status, read_operate_object, read_part,
}

module _ (o : ByteOrder) where
  -- What stands behind the members.
  behind_words :
      (xs bytes : List ℕ) {offset n : ℕ}
      → offset ≡ 4 * length xs
      → n ≡ length bytes
      → fetch (host_words o xs ++ bytes) offset n ≡ some bytes
  behind_words xs bytes e e' =
      fetch_whole (host_words o xs) bytes (e ∙ sym (length-host_words o xs)) e'

  -- The blocks.
  abbrev pub browse_info_bytes : BrowseInfo → List ℕ
  browse_info_bytes b = host_words o (b.ohfi_parent ∷ b.unk1 ∷ b.unk2 ∷ b.num_objects ∷ b.unk4 ∷ [])

  abbrev pub treat_object_bytes : TreatObject → List ℕ
  treat_object_bytes t = host_words o (t.ohfi_parent ∷ t.unk0 ∷ t.handle ∷ [])

  -- Two numbers of no known meaning stand in front of the length.
  abbrev pub url_bytes : ℕ → ℕ → List ℕ → List ℕ
  url_bytes a b url = host_words o (a ∷ b ∷ length url ∷ []) ++ url

  abbrev pub object_status_bytes : ObjectStatus → List ℕ
  object_status_bytes s = host_words o (s.ohfi_root ∷ s.len ∷ []) ++ s.title

  abbrev pub operate_object_bytes : OperateObject → List ℕ
  operate_object_bytes s = host_words o (s.cmd ∷ s.ohfi ∷ s.unk1 ∷ s.len ∷ []) ++ s.title

  abbrev pub part_init_bytes : SendPartInit → List ℕ → List ℕ
  part_init_bytes i rest =
      wire_bytes o 4 i.ohfi ++ (wire_bytes o 8 i.offset ++ (wire_bytes o 8 i.size ++ rest))

  pub read_browse_info_lem :
      (b : BrowseInfo) (rest : List ℕ)
      → All Is32 (b.ohfi_parent ∷ b.unk1 ∷ b.unk2 ∷ b.num_objects ∷ b.unk4 ∷ [])
      → read_browse_info o (browse_info_bytes b ++ rest) ≡ some b
  unfolding read_browse_info
  read_browse_info_lem b rest a =
      let ws = b.ohfi_parent ∷ b.unk1 ∷ b.unk2 ∷ b.num_objects ∷ b.unk4 ∷ [] in
      rw
        (
          host_words_at o ws rest 0 a refl,
          host_words_at o ws rest 1 a refl,
          host_words_at o ws rest 2 a refl,
          host_words_at o ws rest 3 a refl,
          host_words_at o ws rest 4 a refl,
        )
        refl

  pub read_treat_object_lem :
      (t : TreatObject) (rest : List ℕ)
      → All Is32 (t.ohfi_parent ∷ t.unk0 ∷ t.handle ∷ [])
      → read_treat_object o (treat_object_bytes t ++ rest) ≡ some t
  unfolding read_treat_object
  read_treat_object_lem t rest a =
      let ws = t.ohfi_parent ∷ t.unk0 ∷ t.handle ∷ [] in
      rw
        (
          host_words_at o ws rest 0 a refl,
          host_words_at o ws rest 1 a refl,
          host_words_at o ws rest 2 a refl,
        )
        refl

  pub read_url_lem :
      (a b : ℕ) (url : List ℕ)
      → Is32 a
      → Is32 b
      → length url < 2 ^ 31
      → read_url o (url_bytes a b url) ≡ some url
  unfolding read_url
  read_url_lem a b url a32 b32 short =
      let ws = a ∷ b ∷ length url ∷ [] in
      rw
        (
          host_words_at o ws url 2 (a32, (b32, (omega arith, tt))) refl,
          lt→ltb (length url) (2 ^ 31) short,
        )
        (behind_words ws url refl refl)

  pub read_object_status_lem :
      (s : ObjectStatus)
      → All Is32 (s.ohfi_root ∷ s.len ∷ [])
      → length s.title ≡ s.len
      → read_object_status o (object_status_bytes s) ≡ some s
  unfolding read_object_status
  read_object_status_lem s a e =
      let ws = s.ohfi_root ∷ s.len ∷ [] in
      rw
        (
          host_words_at o ws s.title 0 a refl,
          host_words_at o ws s.title 1 a refl,
          behind_words ws s.title refl (sym e),
        )
        refl

  -- The length of the title does not count its terminator.
  pub read_operate_object_lem :
      (s : OperateObject)
      → All Is32 (s.cmd ∷ s.ohfi ∷ s.unk1 ∷ s.len ∷ [])
      → length s.title ≡ s.len + 1
      → s.len + 1 < 2 ^ 32
      → read_operate_object o (operate_object_bytes s) ≡ some s
  unfolding read_operate_object
  read_operate_object_lem s a e short =
      let ws = s.cmd ∷ s.ohfi ∷ s.unk1 ∷ s.len ∷ [] in
      rw
        (
          host_words_at o ws s.title 0 a refl,
          host_words_at o ws s.title 1 a refl,
          host_words_at o ws s.title 2 a refl,
          host_words_at o ws s.title 3 a refl,
          behind_words ws s.title {offset = 16} {n = (s.len + 1) % 2 ^ 32} refl (omega (arith, e)),
        )
        refl

  module _ (i : SendPartInit) (a : i.ohfi < 2 ^ 32) (b : i.offset < 2 ^ 64)
      (c : i.size < 2 ^ 64) where
    pub read_part_init_lem : (rest : List ℕ) → read_part_init o (part_init_bytes i rest) ≡ some i
    unfolding read_part_init
    read_part_init_lem rest =
        let w = wire_bytes o 4 i.ohfi in
        let v = wire_bytes o 8 i.offset in
        let u = wire_bytes o 8 i.size ++ rest in
        let third : dtoh64a o (w ++ (v ++ u)) 12 ≡ some i.size =
          ap (λ buf. dtoh64a o buf 12) (sym (append_assoc w v u))
          ∙ dtoh64a_at o (w ++ v) rest c (
              omega (
                arith,
                length-append w v,
                length-wire_bytes o 4 i.ohfi,
                length-wire_bytes o 8 i.offset,
              )) in
        rw
          (
            dtoh32a_at o [] (v ++ u) a refl,
            dtoh64a_at o w u b (sym (length-wire_bytes o 4 i.ohfi)),
            third,
          )
          refl

    pub read_part_lem :
        (part : List ℕ)
        → length part ≡ i.size
        → read_part o (part_init_bytes i part) ≡ some (i, part)
    unfolding read_part
    read_part_lem part e =
        let w = wire_bytes o 4 i.ohfi in
        let v = wire_bytes o 8 i.offset in
        let u = wire_bytes o 8 i.size in
        let behind : fetch (w ++ (v ++ (u ++ part))) 20 i.size ≡ some part =
          ap (λ buf. fetch buf 20 i.size)
            (ap (λ bs. w ++ (v ++ (u ++ bs))) (sym (append-nil part))
              ∙ (ap (λ bs. w ++ bs) (sym (append_assoc v u (part ++ [])))
                  ∙ sym (append_assoc w (v ++ u) (part ++ []))))
          ∙ fetch_at (w ++ (v ++ u)) part []
              (omega (
                arith,
                length-append w (v ++ u),
                length-append v u,
                length-wire_bytes o 4 i.ohfi,
                length-wire_bytes o 8 i.offset,
                length-wire_bytes o 8 i.size,
              ))
              (sym e) in
        rw (read_part_init_lem part, behind) refl
