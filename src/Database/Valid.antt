-- ===== src/Database/Valid.antt =====
-- Valid databases, and what `addToDatabase` of src/database.c does to one.
use mathlib.Core.Path.{subst}
use mathlib.Core.Option.{some-injective}
use vita_mtp.Base.{
  ◌>>=◌, ==_false, ℕ, zero, suc, ◌+◌, ◌<◌, ◌≡◌, ◌≢◌, refl, sym, ap, ap₂, ◌∙◌, false, Option, none,
  some, List, [], ◌∷◌, ◌++◌, ◌==◌, length, get_elem?, All, All-append, All-map, All-get_elem?, inl,
  inr, Bool-cases, arith, ==_self, bind-some,
}
use vita_mtp.Database.{Metadata, CmaObject, Database, ohfi_of, parent_of}
use vita_mtp.Database.Entries.{new_entry}
use vita_mtp.Database.Operations.{
  Ref, fetch_object, append_to, add_to_database, has_filter, find_in, find_ohfi, ohfi_to_object,
}
use vita_mtp.Database.Remove.Sweep.{IsValid, MayFollow}

-- All ids of the object are given out already.
abbrev pub IsBounded : ℕ → CmaObject → Type 0
IsBounded count x =
    (ohfi_of x < count) × (parent_of x < count) × All (λ (f : Metadata). f.ohfi < count) x.filters

abbrev pub IsWellFormed : Database → Type 0
IsWellFormed db = All (λ xs. IsValid xs × All (IsBounded db.ohfi_count) xs) db.lists

IsBounded-suc : (count : ℕ) (x : CmaObject) → IsBounded count x → IsBounded (count + 1) x
IsBounded-suc count x b =
    (omega (arith, b.0), omega (arith, b.1), All-map _ _ (λ f h. omega arith) x.filters b.2)

IsValid-append :
    (xs : List CmaObject) (x : CmaObject)
    → IsValid xs
    → All (λ y. MayFollow y x) xs
    → parent_of x ≢ ohfi_of x
    → IsValid (xs ++ x ∷ [])
IsValid-append [] x v a h = (h, tt, tt)
IsValid-append (y ∷ xs) x v a h =
    (v.0, All-append (MayFollow y) xs (x ∷ []) v.1 (a.0, tt), IsValid-append xs x v.2 a.1 h)

has_filter-fresh :
    (count : ℕ) (fs : List Metadata)
    → All (λ (f : Metadata). f.ohfi < count) fs
    → has_filter count fs ≡ false
unfolding has_filter
has_filter-fresh count [] a = refl
has_filter-fresh count (f ∷ fs) a =
    rw (==_false f.ohfi count (omega (arith, a.0))) (has_filter-fresh count fs a.1)

find_in-fresh :
    (count : ℕ) (xs : List CmaObject) (place : ℕ)
    → All (IsBounded count) xs
    → find_in count xs place none ≡ none
unfolding find_in
find_in-fresh count [] place a = refl
find_in-fresh count (x ∷ xs) place a =
    rw (==_false (ohfi_of x) count (omega (arith, a.0.0)), has_filter-fresh count x.filters a.0.2)
      (find_in-fresh count xs (suc place) a.1)

find_in-new :
    (count : ℕ) (xs : List CmaObject) (x : CmaObject) (place : ℕ)
    → All (IsBounded count) xs
    → ohfi_of x ≡ count
    → find_in count (xs ++ x ∷ []) place none ≡ some (place + length xs)
unfolding find_in
find_in-new count [] x place a h = rw (h, ==_self count) (ap some (omega arith))
find_in-new count (y ∷ xs) x place a h =
    rw (==_false (ohfi_of y) count (omega (arith, a.0.0)), has_filter-fresh count y.filters a.0.2)
      (find_in-new count xs x (suc place) a.1 h ∙ ap some (omega arith))

find_in-other :
    (ohfi : ℕ) (xs : List CmaObject) (x : CmaObject) (place : ℕ) (found : Option ℕ)
    → ohfi_of x ≢ ohfi
    → x.filters ≡ []
    → find_in ohfi (xs ++ x ∷ []) place found ≡ find_in ohfi xs place found
unfolding find_in has_filter
find_in-other ohfi [] x place found h k = rw (==_false (ohfi_of x) ohfi h, k) refl
find_in-other ohfi (y ∷ xs) x place found h k = elim (Bool-cases (ohfi_of y == ohfi)) [
  | inl same ↦ rw same refl
  | inr differ ↦ rw differ (find_in-other ohfi xs x (suc place) _ h k)
]

module _ (count : ℕ) where
  find_ohfi-new :
      (lists : List (List CmaObject)) (i k : ℕ) (xs : List CmaObject) (x : CmaObject)
      → All (λ ys. IsValid ys × All (IsBounded count) ys) lists
      → get_elem? lists i ≡ some xs
      → ohfi_of x ≡ count
      → find_ohfi count (append_to i x lists) k ≡ some (record { list = k + i; place = length xs })
  unfolding find_ohfi append_to
  find_ohfi-new [] i k xs x a e h = cc
  find_ohfi-new (ys ∷ lists) zero k xs x a e h =
      rw (append_to, find_ohfi, find_in-new count ys x 0 a.0.1 h)
        (ap₂ (λ n m. some (record { list = n; place = m })) (omega arith)
          (omega (arith, ap length (some-injective _ _ e))))
  find_ohfi-new (ys ∷ lists) (suc i) k xs x a e h =
      rw (append_to, find_ohfi, find_in-fresh count ys 0 a.0.1)
        (find_ohfi-new lists i (suc k) xs x a.1 e h
          ∙ ap (λ n. some (record { list = n; place = length xs })) (omega arith))

find_ohfi-other :
    (ohfi : ℕ) (lists : List (List CmaObject)) (i k : ℕ) (x : CmaObject)
    → ohfi_of x ≢ ohfi
    → x.filters ≡ []
    → find_ohfi ohfi (append_to i x lists) k ≡ find_ohfi ohfi lists k
unfolding find_ohfi append_to
find_ohfi-other ohfi [] i k x h e = refl
find_ohfi-other ohfi (xs ∷ lists) zero k x h e =
    rw (append_to, find_ohfi, find_in-other ohfi xs x 0 none h e) refl
find_ohfi-other ohfi (xs ∷ lists) (suc i) k x h e =
    ap
      (λ rest. elim (find_in ohfi xs 0 none) [
        | none ↦ rest
        | some place ↦ some (record { list = k; place = place })
      ])
      (find_ohfi-other ohfi lists i (suc k) x h e)

get_elem?-append_to :
    (lists : List (List CmaObject)) (i : ℕ) (xs : List CmaObject) (x : CmaObject)
    → get_elem? lists i ≡ some xs
    → get_elem? (append_to i x lists) i ≡ some (xs ++ x ∷ [])
unfolding append_to
get_elem?-append_to [] i xs x e = cc
get_elem?-append_to (ys ∷ lists) zero xs x e = ap (λ zs. some (zs ++ x ∷ [])) (some-injective _ _ e)
get_elem?-append_to (ys ∷ lists) (suc i) xs x e = get_elem?-append_to lists i xs x e

get_elem?-end :
    (xs : List CmaObject) (x : CmaObject) → get_elem? (xs ++ x ∷ []) (length xs) ≡ some x
get_elem?-end [] x = refl
get_elem?-end (y ∷ xs) x = get_elem?-end xs x

append_to-All :
    (P : List CmaObject → Type 0) (lists : List (List CmaObject)) (i : ℕ) (xs : List CmaObject)
    (x : CmaObject)
    → All P lists
    → get_elem? lists i ≡ some xs
    → P (xs ++ x ∷ [])
    → All P (append_to i x lists)
unfolding append_to
append_to-All P [] i xs x a e p = tt
append_to-All P (ys ∷ lists) zero xs x a e p =
    (subst (λ zs. P (zs ++ x ∷ [])) (sym (some-injective _ _ e)) p, a.1)
append_to-All P (ys ∷ lists) (suc i) xs x a e p = (a.0, append_to-All P lists i xs x a.1 e p)

pub fetch_object-cases :
    (db : Database) (ref : Ref) (x : CmaObject)
    → fetch_object db ref ≡ some x
    → (xs : List CmaObject) × (get_elem? db.lists ref.list ≡ some xs)
      × (get_elem? xs ref.place ≡ some x)
unfolding fetch_object
fetch_object-cases db ref x e = bind-some (get_elem? db.lists ref.list) _ x e

get_elem?-but_end :
    (xs : List CmaObject) (x : CmaObject) (p : ℕ)
    → p ≢ length xs
    → get_elem? (xs ++ x ∷ []) p ≡ get_elem? xs p
get_elem?-but_end [] x zero h = absurd (h refl)
get_elem?-but_end [] x (suc p) h = refl
get_elem?-but_end (y ∷ xs) x zero h = refl
get_elem?-but_end (y ∷ xs) x (suc p) h = get_elem?-but_end xs x p (λ e. h (ap suc e))

-- Every other place of the lists holds what it held.
append_to_kept :
    (lists : List (List CmaObject)) (i : ℕ) (xs : List CmaObject) (x : CmaObject) (k p : ℕ)
    → get_elem? lists i ≡ some xs
    → (k ≡ i → p ≢ length xs)
    → (get_elem? (append_to i x lists) k >>= λ ys. get_elem? ys p)
      ≡ (get_elem? lists k >>= λ ys. get_elem? ys p)
unfolding append_to
append_to_kept [] i xs x k p e h = cc
append_to_kept (ys ∷ lists) zero xs x zero p e h =
    get_elem?-but_end ys x p (λ q. h refl (q ∙ ap length (some-injective _ _ e)))
append_to_kept (ys ∷ lists) zero xs x (suc k) p e h = refl
append_to_kept (ys ∷ lists) (suc i) xs x zero p e h = refl
append_to_kept (ys ∷ lists) (suc i) xs x (suc k) p e h =
    append_to_kept lists i xs x k p e (λ q. h (ap suc q))

-- What `addToDatabase` leaves: the new object is found under its id, which is new, and stands
-- behind the last one of the list of `root`; every other id is found where it was, and every other
-- place holds the object that it held, or none.
pub record Added (db : Database) (root_ref : Ref) (entry : CmaObject) (db' : Database)
    : Type 0 where
  pub well_formed : IsWellFormed db'
  pub new_ref : Ref
  pub list_before : List CmaObject
  pub same_list : new_ref.list ≡ root_ref.list
  pub list_there : get_elem? db.lists root_ref.list ≡ some list_before
  pub at_end : new_ref.place ≡ length list_before
  pub found : ohfi_to_object db' db.ohfi_count ≡ some new_ref
  pub object : fetch_object db' new_ref ≡ some entry
  pub others : (ohfi : ℕ) → ohfi ≢ db.ohfi_count → ohfi_to_object db' ohfi ≡ ohfi_to_object db ohfi
  pub kept :
      (ref : Ref)
      → (ref.list ≡ new_ref.list → ref.place ≢ new_ref.place)
      → fetch_object db' ref ≡ fetch_object db ref
  pub count : db'.ohfi_count ≡ db.ohfi_count + 1

new_entry-IsValid :
    (count : ℕ) (xs : List CmaObject) (place : ℕ) (root : CmaObject) (name : List ℕ) (size type : ℕ)
    → IsValid xs × All (IsBounded count) xs
    → get_elem? xs place ≡ some root
    → IsValid (xs ++ new_entry root count name size type ∷ [])
      × All (IsBounded (count + 1)) (xs ++ new_entry root count name size type ∷ [])
new_entry-IsValid count xs place root name size type v e =
    let below = (All-get_elem? (IsBounded count) xs place root v.1 e).0 in
    let entry = new_entry root count name size type in
    (
      IsValid-append xs entry v.0
          (All-map (IsBounded count) (λ y. MayFollow y entry)
            (λ y b. (omega (arith, b.0), omega (arith, b.1))) xs v.1)
          (omega (arith, below)),
      All-append (IsBounded (count + 1)) xs (entry ∷ [])
          (All-map _ _ (λ y b. IsBounded-suc count y b) xs v.1)
          ((omega arith, omega (arith, below), tt), tt),
    )

-- In a well-formed database, `addToDatabase` of any object `root` of it succeeds and leaves what
-- `Added` says: a well-formed database again, in which the new object, behind the last one of the
-- list of `root`, is what its id is found under, every other id is found where it was, and every
-- other place of the lists is as it was.
pub add_to_database_lem :
    (db : Database) (root_ref : Ref) (root : CmaObject) (name : List ℕ) (size type : ℕ)
    → IsWellFormed db
    → fetch_object db root_ref ≡ some root
    → (db' : Database) × (add_to_database db root_ref name size type ≡ some db')
      × Added db root_ref (new_entry root db.ohfi_count name size type) db'
unfolding add_to_database ohfi_to_object fetch_object
add_to_database_lem db root_ref root name size type v e =
    let count = db.ohfi_count in
    let entry = new_entry root count name size type in
    let there = fetch_object-cases db root_ref root e in
    let xs = there.0 in
    let grown =
      new_entry-IsValid count xs root_ref.place root name size type
        (All-get_elem? _ db.lists root_ref.list xs v there.1) there.2 in
    (
      record { lists = append_to root_ref.list entry db.lists; ohfi_count = count + 1 },
      rw e refl,
      record {
        well_formed =
            append_to-All _ db.lists root_ref.list xs entry
              (All-map _ _ (λ ys w. (w.0, All-map _ _ (λ y b. IsBounded-suc count y b) ys w.1))
                db.lists v)
              there.1 grown;
        new_ref = record { list = root_ref.list; place = length xs };
        list_before = xs;
        same_list = refl;
        list_there = there.1;
        at_end = refl;
        found =
            find_ohfi-new count db.lists root_ref.list 0 xs entry v there.1 refl
            ∙ ap (λ n. some (record { list = n; place = length xs })) (omega arith);
        object =
            rw (get_elem?-append_to db.lists root_ref.list xs entry there.1)
              (get_elem?-end xs entry);
        others =
            λ ohfi h. find_ohfi-other ohfi db.lists root_ref.list 0 entry (λ p. h (sym p)) refl;
        kept = λ ref h. append_to_kept db.lists root_ref.list xs entry ref.list ref.place there.1 h;
        count = refl;
      },
    )
