-- ===== src/Vita/Objects/Correct.antt =====
-- `VitaMTP_SendObject` and `VitaMTP_CheckExistance` of src/vitamtp.c over the operations they call.
use mathlib.Core.Option.{some-injective}
use vita_mtp.Base.{
  ℕ, ◌%◌, ◌^◌, ◌≤◌, ◌<◌, ◌≡◌, ◌≢◌, ◌⊎◌, inl, inr, refl, sym, ap, ◌∙◌, Bool, not, bit_and, Option,
  none, some, ◌>>=◌, bind-some, List, [], ◌++◌, ◌==◌, if◌then◌else◌, length, drop, arith,
  Bool-cases, ==_iff,
}
use vita_mtp.Bytes.{fetch, store}
use vita_mtp.Bytes.Layout.{fetch_whole, store-append, overlay_fault}
use vita_mtp.Cache.{rc_ok}
use vita_mtp.Database.DataType.{folder, file}
use vita_mtp.Pack.Params.{Params}
use vita_mtp.Pack.Values.{PropertyValue, num, str}
use vita_mtp.Transaction.Memory.{bytes_of}
use vita_mtp.Transaction.Response.{==_not}
use vita_mtp.Vita.{Device, Link, Outcome, Received}
use vita_mtp.Vita.Objects.{
  ExistanceObject, ObjectMeta, vita_storage_id, opc_object_size, opc_object_file_name, folder_info,
  file_info, send_object, check_existance,
}
use vita_mtp.Vita.Objects.Operations.{
  SentInfo, get_object_prop_value, get_partial_object, send_object_info, ptp_send_object,
}

store_fault : (buf bs : List ℕ) → length buf < length bs → store buf 0 bs ≡ none
unfolding store
store_fault buf bs h = overlay_fault buf bs h

module _ {T : Type 0} (dev : Device T) (p : Params) (k : Link T) where
  -- What an object that was sent with the code OK went through.
  abbrev pub IsSent : ℕ → ObjectMeta → Option (List ℕ) → Outcome T SentInfo → Type 0
  IsSent parent meta block r =
      ((bit_and meta.data_type folder ≢ 0)
        × (send_object_info dev p k vita_storage_id parent (folder_info parent meta) ≡ some r))
      ⊎ ((bit_and meta.data_type folder ≡ 0)
          × (bit_and meta.data_type file ≢ 0)
          × (q : Outcome T SentInfo) × (s : Outcome T Received) × (send_object_info dev p k
                vita_storage_id parent (file_info parent meta)
              ≡ some q)
          × (q.code ≡ rc_ok)
          × (ptp_send_object dev q.link block (meta.size % 2 ^ 32) ≡ some s)
          × (s.code ≡ rc_ok)
          × (r.link ≡ s.link)
          × (r.value ≡ q.value))

  -- The second half of sending a file.
  file_sent :
      (parent : ℕ) (meta : ObjectMeta) (block : Option (List ℕ)) (q r : Outcome T SentInfo)
      → (if not (q.code == rc_ok)
          then some q
          else (ptp_send_object dev q.link block (meta.size % 2 ^ 32) >>= λ s.
              some (record { link = s.link; code = s.code; value = q.value })))
        ≡ some r
      → r.code ≡ rc_ok
      → (s : Outcome T Received) × (q.code ≡ rc_ok)
        × (ptp_send_object dev q.link block (meta.size % 2 ^ 32) ≡ some s)
        × (s.code ≡ rc_ok)
        × (r.link ≡ s.link)
        × (r.value ≡ q.value)
  file_sent parent meta block q r e ok = elim (Bool-cases (q.code == rc_ok)) [
    | inr failed ↦ absurd (
        ==_not _ _ failed
          (ap (λ (w : Outcome T SentInfo). w.code) (some-injective _ _ (rw failed at e)) ∙ ok))
    | inl described ↦
        let t =
          bind-some (ptp_send_object dev q.link block (meta.size % 2 ^ 32))
            (λ s. some (record { link = s.link; code = s.code; value = q.value })) r
            (rw described at e) in
        let same = some-injective _ _ t.2 in
        (
          t.0,
          (==_iff _ _).0 described,
          t.1,
          ap (λ (w : Outcome T SentInfo). w.code) same ∙ ok,
          sym (ap (λ (w : Outcome T SentInfo). w.link) same),
          sym (ap (λ (w : Outcome T SentInfo). w.value) same),
        )
  ]

  -- When `VitaMTP_SendObject` returns OK, the object is a folder or a file by its data type; the
  -- device answered its object info with OK; and for a file the device then answered the contents
  -- with OK too, on what the first operation left.
  pub send_object-IsSent :
      (parent handle : ℕ) (meta : ObjectMeta) (block : Option (List ℕ)) (r : Outcome T SentInfo)
      → send_object dev p k parent handle meta block ≡ some r
      → r.code ≡ rc_ok
      → IsSent parent meta block r
  unfolding send_object
  send_object-IsSent parent handle meta block r e ok =
      elim (Bool-cases (bit_and meta.data_type folder == 0)) [
        | inr is_folder ↦ inl (==_not _ _ is_folder, rw is_folder at e)
        | inl no_folder ↦ elim (Bool-cases (bit_and meta.data_type file == 0)) [
          | inl no_file ↦ absurd (
              ground (
                arith,
                ap (λ (w : Outcome T SentInfo). w.code)
                      (some-injective _ _ (rw (no_folder, no_file) at e))
                    ∙ ok,
              ))
          | inr is_file ↦
              let t =
                bind-some (send_object_info dev p k vita_storage_id parent (file_info parent meta))
                  _ r (rw (no_folder, is_file) at e) in
              let f = file_sent parent meta block t.0 r t.2 ok in
              inr (
                (==_iff _ _).0 no_folder,
                ==_not _ _ is_file,
                t.0,
                f.0,
                t.1,
                f.1,
                f.2,
                f.3,
                f.4,
                f.5,
              )
        ]
      ]

module _ {T : Type 0} (dev : Device T) (p : Params) (malloc_ok : ℕ → Bool) (k : Link T) where
  -- The three operations of a check of an object, all with the code OK.
  pub record IsChecked (handle : ℕ) : Type 0 where
    pub sized : Outcome T (Option PropertyValue)
    pub named : Outcome T (Option PropertyValue)
    pub part : Outcome T Received
    pub size : ℕ
    pub name : Option (List ℕ)
    pub sized_by :
        get_object_prop_value dev p malloc_ok k handle opc_object_size none 8 ≡ some sized
    pub sized_ok : sized.code ≡ rc_ok
    pub size_read : sized.value ≡ some (num size)
    pub named_by :
        get_object_prop_value dev p malloc_ok sized.link handle opc_object_file_name
          (some (num size))
          0xffff
        ≡ some named
    pub named_ok : named.code ≡ rc_ok
    pub name_read : named.value ≡ some (str name)
    pub part_by : get_partial_object dev named.link handle 0 0x400 ≡ some part
    pub part_ok : part.code ≡ rc_ok
    pub part_len : part.value.len ≡ length (bytes_of part.value.block)

  -- The structure that a check fills.
  abbrev pub checked : {handle : ℕ} → IsChecked handle → List ℕ → ExistanceObject
  checked c bytes = record {
    size = c.size;
    name = c.name;
    data_length = c.part.value.len;
    bytes = bytes;
  }

  -- Where all three operations of `VitaMTP_CheckExistance` return OK, with the size, the name and
  -- a part of the object: if the part fits the array of the structure, the check returns OK with
  -- the size, the name, the part's length and the part at the start of the array; if it does not,
  -- the check writes behind the array.
  pub check_existance_lem :
      (handle : ℕ) (existance : ExistanceObject) (c : IsChecked handle)
      → (c.part.value.len ≤ length existance.bytes
          → check_existance dev p malloc_ok k handle existance
            ≡ some (record {
              link = c.part.link;
              code = rc_ok;
              value =
                  checked c (bytes_of c.part.value.block ++ drop c.part.value.len existance.bytes);
            }))
        × (length existance.bytes < c.part.value.len
            → check_existance dev p malloc_ok k handle existance ≡ none)
  unfolding check_existance
  check_existance_lem handle existance c =
      let block = bytes_of c.part.value.block in
      let read : fetch block 0 c.part.value.len ≡ some block =
        fetch_whole [] block refl c.part_len in
      (
        λ fits.
            rw
              (
                c.sized_by,
                c.sized_ok,
                c.size_read,
                c.named_by,
                c.named_ok,
                c.name_read,
                c.part_by,
                c.part_ok,
                read,
                store-append [] existance.bytes block (omega (arith, c.part_len)),
                c.part_len,
              )
              refl,
        λ over.
            rw
              (
                c.sized_by,
                c.sized_ok,
                c.size_read,
                c.named_by,
                c.named_ok,
                c.name_read,
                c.part_by,
                c.part_ok,
                read,
                store_fault existance.bytes block (omega (arith, c.part_len)),
              )
              refl,
      )
