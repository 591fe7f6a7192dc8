-- ===== src/Cache/Tests.antt =====
-- The cache at concrete objects.
use vita_mtp.Base.{◌≡◌, refl, true, some, List, [], ◌∷◌, arith}
use vita_mtp.Cache.{
  Object, Answer, new_object, object_find_or_insert, search, after_search, insert_between,
  insert_new, insert_at,
}
use vita_mtp.Cache.Reference.{Sorted}
use vita_mtp.Cache.Insert.{Finds, object_find_or_insert_lem}

abbrev four : List Object
four = new_object 3 ∷ new_object 5 ∷ new_object 9 ∷ new_object 12 ∷ []

test_insert :
    object_find_or_insert four 7 true
    ≡ some (record {
      code = 0x2001;
      objects = new_object 3 ∷ new_object 5 ∷ new_object 7 ∷ new_object 9 ∷ new_object 12 ∷ [];
      retob = some 2;
    })
unfolding object_find_or_insert search after_search insert_between insert_new insert_at
test_insert = refl

object_find_or_insert_example :
    (a : Answer) × (object_find_or_insert four 7 true ≡ some a) × Finds 7 four a × Sorted a.objects
object_find_or_insert_example = object_find_or_insert_lem four 7 (omega arith) (ground arith)
