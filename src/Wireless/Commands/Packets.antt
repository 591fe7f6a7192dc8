-- ===== src/Wireless/Commands/Packets.antt =====
-- The packets of a request and of a response in src/wireless.c.
use mathlib.Core.List.{append-nil}
use vita_mtp.Base.{
  ℕ, zero, suc, ◌+◌, ◌-◌, ◌*◌, ◌/◌, ◌%◌, ◌^◌, ◌≤◌, ◌<◌, ◌≡◌, refl, sym, ap, ◌∙◌, Option, none, some,
  List, [], ◌∷◌, ◌++◌, All, get_elem?, length, length-append, arith, take,
}
use vita_mtp.Bytes.{ByteOrder, little, big, wire_bytes, dtoh16a, dtoh32a, htod16a, htod32a, store}
use vita_mtp.Bytes.Arrays.{Is32, dtoh32a-append, host_words, host_words_at, length-host_words}
use vita_mtp.Bytes.Words.{length-wire_bytes, dtoh16a_at}
use vita_mtp.Transaction.{Container}
use vita_mtp.Wireless.Commands.{request_bytes, response_of}

-- A list of a given length, taken apart.
unfoldable pub head_or : List ℕ → ℕ
head_or [] = 0
head_or (x ∷ xs) = x

unfoldable pub tail_or : List ℕ → List ℕ
tail_or [] = []
tail_or (x ∷ xs) = xs

unfoldable pub taken_apart : ℕ → List ℕ → List ℕ
unfolding head_or tail_or
taken_apart zero xs = []
taken_apart (suc n) xs = head_or xs ∷ taken_apart n (tail_or xs)

pub taken_apart_lem : (n : ℕ) (xs : List ℕ) → length xs ≡ n → taken_apart n xs ≡ xs
unfolding taken_apart head_or tail_or
taken_apart_lem zero [] e = refl
taken_apart_lem zero (x ∷ xs) e = absurd (omega (arith, e))
taken_apart_lem (suc n) [] e = absurd (omega (arith, e))
taken_apart_lem (suc n) (x ∷ xs) e = ap (λ ys. x ∷ ys) (taken_apart_lem n xs (omega (arith, e)))

-- The parameters of a container.
abbrev pub params_of : Container → List ℕ
params_of c = c.param1 ∷ c.param2 ∷ c.param3 ∷ c.param4 ∷ c.param5 ∷ []

-- A request on the wire, with its first parameters.
abbrev pub request_wire : ByteOrder → Container → ℕ → List ℕ
request_wire o req n =
    wire_bytes o 4 (18 + n * 4)
    ++ (wire_bytes o 4 6
        ++ (wire_bytes o 4 1
            ++ (wire_bytes o 2 req.code
                ++ (wire_bytes o 4 req.transaction_id ++ host_words o (take n (params_of req))))))

module _ (malloc : ℕ → List ℕ) (room : (n : ℕ) → length (malloc n) ≡ n) (req : Container) where
  malloc_apart : (n : ℕ) → malloc n ≡ taken_apart n (malloc n)
  malloc_apart n = sym (taken_apart_lem n (malloc n) (room n))

  pub request_bytes_lem :
      (o : ByteOrder) (n : ℕ) → n ≤ 5 → request_bytes o malloc req n ≡ some (request_wire o req n)
  unfolding request_bytes htod32a htod16a store wire_bytes host_words taken_apart head_or tail_or
  request_bytes_lem little zero k = rw (malloc_apart 18) refl
  request_bytes_lem little (suc zero) k = rw (malloc_apart 22) refl
  request_bytes_lem little (suc (suc zero)) k = rw (malloc_apart 26) refl
  request_bytes_lem little (suc (suc (suc zero))) k = rw (malloc_apart 30) refl
  request_bytes_lem little (suc (suc (suc (suc zero)))) k = rw (malloc_apart 34) refl
  request_bytes_lem little (suc (suc (suc (suc (suc zero))))) k = rw (malloc_apart 38) refl
  request_bytes_lem little (suc (suc (suc (suc (suc (suc n)))))) k = absurd (omega arith)
  request_bytes_lem big zero k = rw (malloc_apart 18) refl
  request_bytes_lem big (suc zero) k = rw (malloc_apart 22) refl
  request_bytes_lem big (suc (suc zero)) k = rw (malloc_apart 26) refl
  request_bytes_lem big (suc (suc (suc zero))) k = rw (malloc_apart 30) refl
  request_bytes_lem big (suc (suc (suc (suc zero)))) k = rw (malloc_apart 34) refl
  request_bytes_lem big (suc (suc (suc (suc (suc zero))))) k = rw (malloc_apart 38) refl
  request_bytes_lem big (suc (suc (suc (suc (suc (suc n)))))) k = absurd (omega arith)

-- The payload of a response on the wire.
abbrev pub response_wire : ByteOrder → ℕ → ℕ → List ℕ → List ℕ
response_wire o code id ps = wire_bytes o 2 code ++ host_words o (id ∷ ps)

abbrev or_else : Option ℕ → ℕ → ℕ
or_else none x = x
or_else (some y) x = y

-- The container that a response fills: what it has no parameters for stays.
abbrev pub answered : ℕ → ℕ → List ℕ → Container → Container
answered code id ps resp = record resp {
  code = code;
  transaction_id = id;
  param1 = or_else (get_elem? ps 0) resp.param1;
  param2 = or_else (get_elem? ps 1) resp.param2;
  param3 = or_else (get_elem? ps 2) resp.param3;
  param4 = or_else (get_elem? ps 3) resp.param4;
  param5 = or_else (get_elem? ps 4) resp.param5;
}

module _ (o : ByteOrder) (code id : ℕ) (k : code < 2 ^ 16) where
  -- The word `i` behind the code.
  word_read :
      (ps : List ℕ) (i : ℕ) {at x : ℕ}
      → All Is32 (id ∷ ps)
      → at ≡ 2 + 4 * i
      → get_elem? (id ∷ ps) i ≡ some x
      → dtoh32a o (response_wire o code id ps) at ≡ some x
  word_read ps i {at} a e g =
      dtoh32a-append o (wire_bytes o 2 code) (host_words o (id ∷ ps)) (4 * i)
        (omega (arith, e, length-wire_bytes o 2 code))
      ∙ (ap (λ b. dtoh32a o b (4 * i)) (sym (append-nil (host_words o (id ∷ ps))))
          ∙ host_words_at o (id ∷ ps) [] i a g)

  code_read : (ps : List ℕ) → dtoh16a o (response_wire o code id ps) 0 ≡ some code
  code_read ps = dtoh16a_at o [] (host_words o (id ∷ ps)) k refl

  count_read :
      (ps : List ℕ)
      → length ps ≤ 5
      → ((length (response_wire o code id ps) + 8 + 2 ^ 64 - 14) % 2 ^ 64 / 4) % 2 ^ 32 ≡ length ps
  count_read ps n = omega (
    arith,
    n,
    length-append (wire_bytes o 2 code) (host_words o (id ∷ ps)),
    length-wire_bytes o 2 code,
    length-host_words o (id ∷ ps),
  )

  pub response_of_lem :
      (type : ℕ) (resp : Container) (ps : List ℕ)
      → All Is32 (id ∷ ps)
      → length ps ≤ 5
      → response_of o
          (record {
            length = length (response_wire o code id ps) + 8;
            type = type;
            payload = response_wire o code id ps;
          })
          resp
        ≡ some (answered code id ps resp)
  unfolding response_of
  response_of_lem type resp ([]) a n =
      let ps : List ℕ = [] in
      rw (code_read ps, word_read ps 0 {at = 2} a refl refl, count_read ps n) refl
  response_of_lem type resp (p ∷ []) a n =
      let ps : List ℕ = p ∷ [] in
      rw
        (
          code_read ps,
          word_read ps 0 {at = 2} a refl refl,
          count_read ps n,
          word_read ps 1 {at = 6} a refl refl,
        )
        refl
  response_of_lem type resp (p ∷ q ∷ []) a n =
      let ps : List ℕ = p ∷ q ∷ [] in
      rw
        (
          code_read ps,
          word_read ps 0 {at = 2} a refl refl,
          count_read ps n,
          word_read ps 1 {at = 6} a refl refl,
          word_read ps 2 {at = 10} a refl refl,
        )
        refl
  response_of_lem type resp (p ∷ q ∷ r ∷ []) a n =
      let ps : List ℕ = p ∷ q ∷ r ∷ [] in
      rw
        (
          code_read ps,
          word_read ps 0 {at = 2} a refl refl,
          count_read ps n,
          word_read ps 1 {at = 6} a refl refl,
          word_read ps 2 {at = 10} a refl refl,
          word_read ps 3 {at = 14} a refl refl,
        )
        refl
  response_of_lem type resp (p ∷ q ∷ r ∷ t ∷ []) a n =
      let ps : List ℕ = p ∷ q ∷ r ∷ t ∷ [] in
      rw
        (
          code_read ps,
          word_read ps 0 {at = 2} a refl refl,
          count_read ps n,
          word_read ps 1 {at = 6} a refl refl,
          word_read ps 2 {at = 10} a refl refl,
          word_read ps 3 {at = 14} a refl refl,
          word_read ps 4 {at = 18} a refl refl,
        )
        refl
  response_of_lem type resp (p ∷ q ∷ r ∷ t ∷ u ∷ []) a n =
      let ps : List ℕ = p ∷ q ∷ r ∷ t ∷ u ∷ [] in
      rw
        (
          code_read ps,
          word_read ps 0 {at = 2} a refl refl,
          count_read ps n,
          word_read ps 1 {at = 6} a refl refl,
          word_read ps 2 {at = 10} a refl refl,
          word_read ps 3 {at = 14} a refl refl,
          word_read ps 4 {at = 18} a refl refl,
          word_read ps 5 {at = 22} a refl refl,
        )
        refl
  response_of_lem type resp (p ∷ q ∷ r ∷ t ∷ u ∷ v ∷ ps) a n = absurd (omega arith)
