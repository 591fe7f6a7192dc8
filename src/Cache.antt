-- ===== src/Cache.antt =====
-- The object cache of src/ptp.c, lines 5146 to 5329: `params->objects`, kept sorted by `oid`.
pub mod Insert
pub mod Reference
pub mod Removal
pub mod Search
mod Tests
use vita_mtp.Base.{
  ℕ, zero, suc, ◌+◌, ◌-◌, ◌/◌, Bool, ◌&&◌, Option, none, some, List, [], ◌∷◌, ltb, leb, ◌==◌,
  if◌then◌else◌, length, get_elem?, pos,
}
use vita_mtp.Pack.ObjectInfo.{ObjectInfo}
use vita_mtp.Pack.Values.{MtpProperty}

-- `PTPObject` (src/ptp.h); `mtpprops` has `nrofmtpprops` elements.
pub record Object : Type 0 where
  pub oid : ℕ
  pub flags : ℕ
  pub oi : ObjectInfo
  pub canon_flags : ℕ
  pub mtpprops : List MtpProperty

-- A cleared object with its handle.
abbrev pub new_object : ℕ → Object
new_object handle = record {
  oid = handle;
  flags = 0;
  oi = record {
    storage_id = 0;
    object_format = 0;
    protection_status = 0;
    object_compressed_size = 0;
    thumb_format = 0;
    thumb_compressed_size = 0;
    thumb_pix_width = 0;
    thumb_pix_height = 0;
    image_pix_width = 0;
    image_pix_height = 0;
    image_bit_depth = 0;
    parent_object = 0;
    association_type = 0;
    association_desc = 0;
    sequence_number = 0;
    filename = none;
    capture_date = pos 0;
    modification_date = pos 0;
  };
  canon_flags = 0;
  mtpprops = [];
}

abbrev pub rc_ok : ℕ
rc_ok = 0x2001

abbrev pub rc_general_error : ℕ
rc_general_error = 0x2002

-- How the `while (1)` loop ends: at the object itself, or with the last `begin` and `end`. `fault`
-- is a read out of range, and `stuck` that the fuel ran out.
pub data Found : Type 0 where
  at : ℕ → Found
  between : ℕ → ℕ → Found
  fault stuck : Found

unfoldable pub search : ℕ → List Object → ℕ → ℕ → ℕ → Found
search handle objects zero begin end = stuck
search handle objects (suc fuel) begin end =
    let cursor : ℕ = (end - begin) / 2 + begin in
    elim (get_elem? objects cursor) [
      | none ↦ fault
      | some ob ↦
          let begin' : ℕ = if ltb ob.oid handle then cursor else begin in
          let end' : ℕ = if ltb ob.oid handle then end else cursor in
          let rest = search handle objects fuel begin' end' in
          if ob.oid == handle
          then at cursor
          else if leb (end' - begin') 1
          then between begin' end'
          else rest
    ]

-- `memmove` of the objects from `i` on, and the new object in the gap.
unfoldable pub insert_at : List Object → ℕ → Object → List Object
insert_at objects zero ob = ob ∷ objects
insert_at [] (suc i) ob = ob ∷ []
insert_at (x ∷ objects) (suc i) ob = x ∷ insert_at objects i ob

-- What the function returns, the objects after it, and the index that `*retob` points to.
pub record Answer : Type 0 where
  pub code : ℕ
  pub objects : List Object
  pub retob : Option ℕ

unfoldable pub insert_new : ℕ → List Object → Bool → ℕ → Answer
insert_new handle objects realloc_ok insertat =
    if realloc_ok
    then record {
      code = rc_ok;
      objects = insert_at objects insertat (new_object handle);
      retob = some insertat;
    }
    else record { code = rc_general_error; objects = objects; retob = none }

-- The part behind the loop. The reads at `begin` and `end` are in range where those are.
unfoldable pub insert_between : ℕ → List Object → Bool → ℕ → ℕ → Option Answer
insert_between handle objects realloc_ok begin end = elim (get_elem? objects begin) [
  | none ↦ none
  | some b ↦ elim (get_elem? objects end) [
    | none ↦ none
    | some e ↦
        if b.oid == handle
        then some (record { code = rc_ok; objects = objects; retob = some begin })
        else if e.oid == handle
        then some (record { code = rc_ok; objects = objects; retob = some end })
        else if (begin == 0) && ltb handle b.oid
        then some (insert_new handle objects realloc_ok begin)
        else if (end == length objects - 1) && ltb e.oid handle
        then some (insert_new handle objects realloc_ok (end + 1))
        else some (insert_new handle objects realloc_ok (begin + 1))
  ]
]

unfoldable pub after_search : ℕ → List Object → Bool → Found → Option Answer
after_search handle objects realloc_ok (at cursor) =
    some (record { code = rc_ok; objects = objects; retob = some cursor })
after_search handle objects realloc_ok (between begin end) =
    insert_between handle objects realloc_ok begin end
after_search handle objects realloc_ok fault = none
after_search handle objects realloc_ok stuck = none

-- `none` is a read out of range or a loop that does not end. `realloc_ok` is whether `realloc`
-- gets memory; `calloc` is taken to get it, as the source does.
unfoldable pub object_find_or_insert : List Object → ℕ → Bool → Option Answer
object_find_or_insert objects handle realloc_ok =
    if handle == 0
    then some (record { code = rc_general_error; objects = objects; retob = none })
    else if length objects == 0
    then some (record { code = rc_ok; objects = new_object handle ∷ []; retob = some 0 })
    else after_search handle objects realloc_ok
        (search handle objects (length objects) 0 (length objects - 1))
