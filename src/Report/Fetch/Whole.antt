-- ===== src/Report/Fetch/Whole.antt =====
-- A read ends, and over a table that answers by offset and limit it gives the first rows.
use mac_service_now_cmdb.Base.{
  ℕ, zero, suc, ◌+◌, ◌-◌, ◌≤◌, ◌<◌, min, String, ◌≡◌, ◌≢◌, refl, sym, ap, ap₂, ◌∙◌, Bool, true,
  false, Option, none, some, List, [], ◌∷◌, ◌++◌, map, take, drop, length, length-append,
  length-drop, length-map, ltb, leb, if-elim, arith,
}
use mathlib.Core.List.{map-append}
use mac_service_now_cmdb.Text.{truthy}
use mac_service_now_cmdb.Dict.{Dict, lookup}
use mac_service_now_cmdb.Json.Value.{Value, arr, obj, of_dict, of_list, to_list, to_dict-of_dict}
use mac_service_now_cmdb.Errors.{Result, ok, err, ◌>>=◌}
use mac_service_now_cmdb.Http.Response.{Response, is_success}
use mac_service_now_cmdb.Client.{Send, result_of, request_json, request_json_body}
use mac_service_now_cmdb.Report.Fetch.{
  Row, page_size, row_of, rows_of, page_request, listed, fetch_page, go_on, fetch_from, fetch,
}

module _ {A : Type 0} where
  length-take : (n : ℕ) (xs : List A) → length (take n xs) ≡ min n (length xs)
  length-take zero xs = omega arith
  length-take (suc n) [] = omega arith
  length-take (suc n) (x ∷ xs) = omega (arith, length-take n xs)

  take-nil : (n : ℕ) → ◌≡◌ {A = List A} (take n []) []
  take-nil zero = refl
  take-nil (suc n) = refl

  take-add : (m n : ℕ) (xs : List A) → take m xs ++ take n (drop m xs) ≡ take (m + n) xs
  take-add zero n xs = ap (λ k. take k xs) (omega arith)
  take-add (suc m) n [] = take-nil n ∙ sym (take-nil (suc m + n))
  take-add (suc m) n (x ∷ xs) =
      ap (λ l. x ∷ l) (take-add m n xs)
      ∙ (let e : suc (m + n) ≡ suc m + n = omega arith in ap (λ k. take k (x ∷ xs)) e)

  take-all : (n : ℕ) (xs : List A) → length xs ≤ n → take n xs ≡ xs
  take-all zero [] h = refl
  take-all (suc n) [] h = refl
  take-all zero (x ∷ xs) h = absurd (omega arith)
  take-all (suc n) (x ∷ xs) h = ap (λ l. x ∷ l) (take-all n xs (omega arith))

module _ (table : String) (fields : List String) (send : Send) (query : String) (max_rows : ℕ) where
  abbrev loop : ℕ → List Row → Option (Result (List Row × Bool))
  loop rounds rows = fetch_from table fields rounds send query max_rows rows

  go_on-total :
      (size : ℕ) (rows : List Row) (r : Result (List Row))
      (next : List Row → Option (Result (List Row × Bool)))
      → ((page : List Row) → size ≤ length page → next (rows ++ page) ≢ none)
      → go_on table fields size rows r next ≢ none
  unfolding go_on
  go_on-total size rows (err e) next h = λ n. cc
  go_on-total size rows (ok page) next h =
      if-elim (λ o. o ≢ none) (ltb (length page) size) _ (next (rows ++ page)) (λ y n. cc)
        (λ n. h page (ground (arith, n)))

  fetch_from-total :
      (rounds : ℕ) (rows : List Row) → max_rows ≤ rounds + length rows → loop rounds rows ≢ none
  unfolding fetch_from
  fetch_from-total zero rows h =
      if-elim (λ o. o ≢ none) (ltb (length rows) max_rows) none (some (ok (rows, true)))
        (λ y. absurd (ground (arith, y, h))) (λ n e. cc)
  fetch_from-total (suc rounds) rows h =
      let size = min page_size (max_rows - length rows) in
      if-elim (λ o. o ≢ none) (ltb (length rows) max_rows) _ (some (ok (rows, true)))
        (λ y.
          go_on-total size rows (fetch_page table fields send query size (length rows))
            (loop rounds)
            (λ page b.
              fetch_from-total rounds (rows ++ page)
                (ground (arith, y, h, b, length-append rows page))))
        (λ n e. cc)

  -- Whatever the service answers, the read ends within the rounds that it is given.
  pub fetch-total : fetch table fields send query max_rows ≢ none
  unfolding fetch
  fetch-total = fetch_from-total max_rows [] (omega arith)

abbrev pub dictionaries : List (Dict Value) → List Value
dictionaries ds = map (λ d. obj (of_dict d)) ds

to_list-of_list : (vs : List Value) → to_list (of_list vs) ≡ vs
to_list-of_list [] = refl
to_list-of_list (v ∷ vs) = ap (λ l. v ∷ l) (to_list-of_list vs)

-- The response that holds the records
pub record Holds (r : Response) (records : List (Dict Value)) : Type 0 where
  pub success : is_success r ≡ true
  pub has_content : truthy r.content ≡ true
  pub body : r.body ≡ some (obj (of_dict (("result", arr (of_list (dictionaries records))) ∷ [])))

-- The service answers a request for a page by the records of the table from the offset on, as many as
-- the limit says or as there are.
abbrev pub HoldsTable : String → List String → Send → String → List (Dict Value) → Type 0
HoldsTable table fields send query all =
    (size offset : ℕ)
    → (r : Response) × (send (page_request table fields query size offset) ≡ ok r)
      × Holds r (take size (drop offset all))

module _ (table : String) (fields : List String) where
  rows_of-dictionaries :
      (ds : List (Dict Value))
      → rows_of table fields (dictionaries ds) ≡ ok (map (row_of table fields) ds)
  unfolding rows_of
  rows_of-dictionaries [] = refl
  rows_of-dictionaries (d ∷ ds) = rw (rows_of-dictionaries ds, to_dict-of_dict d) refl

  body-Holds :
      (context : String) (r : Response) (ds : List (Dict Value))
      → Holds r ds
      → (request_json_body context r >>= result_of >>= listed table fields >>= rows_of table fields)
        ≡ ok (map (row_of table fields) ds)
  unfolding request_json_body listed lookup
  body-Holds context r ds h =
      rw (h.success, h.has_content, h.body, to_list-of_list (dictionaries ds))
        (rows_of-dictionaries ds)

  fetch_page-Holds :
      (send : Send) (query : String) (all : List (Dict Value))
      → HoldsTable table fields send query all
      → (size offset : ℕ)
      → fetch_page table fields send query size offset
        ≡ ok (map (row_of table fields) (take size (drop offset all)))
  unfolding fetch_page request_json
  fetch_page-Holds send query all h size offset =
      rw (h size offset).1
        (body-Holds _ (h size offset).0 (take size (drop offset all)) (h size offset).2)

  module _ (send : Send) (query : String) (max_rows : ℕ) (all : List (Dict Value))
      (h : HoldsTable table fields send query all) where
    abbrev first : ℕ → List Row
    first n = map (row_of table fields) (take n all)

    abbrev result : Option (Result (List Row × Bool))
    result = some (ok (first max_rows, leb max_rows (length all)))

    length-first : (n : ℕ) → n ≤ length all → length (first n) ≡ n
    length-first n b =
        omega (arith, length-map (take n all) (row_of table fields), length-take n all)

    page_after :
        (k size : ℕ)
        → first k ++ map (row_of table fields) (take size (drop k all)) ≡ first (k + size)
    page_after k size =
        sym (map-append (row_of table fields) (take k all) (take size (drop k all)))
        ∙ ap (map (row_of table fields)) (take-add k size all)

    length-page :
        (k size : ℕ)
        → length (map (row_of table fields) (take size (drop k all))) ≡ min size (length all - k)
    length-page k size = omega (
      arith,
      length-map (take size (drop k all)) (row_of table fields),
      length-take size (drop k all),
      length-drop k all,
    )

    stops :
        (k : ℕ)
        → k ≤ length all
        → k ≤ max_rows
        → ltb k max_rows ≡ false
        → ◌≡◌ {A = Option (Result (List Row × Bool))} (some (ok (first k, true))) result
    stops k a b n =
        let e : k ≡ max_rows = ground (arith, b, n) in
        ap some
          (ap ok (ap₂ (λ (l : List Row) (t : Bool). (l, t)) (ap first e) (ground (arith, a, b, n))))

    ends :
        (k size : ℕ)
        → length all - k < size
        → size ≤ max_rows - k
        → k < max_rows
        → ◌≡◌ {A = Option (Result (List Row × Bool))} (some (ok (first (k + size), false))) result
    ends k size a b c = ap some (
        ap ok (
          ap₂ (λ (l : List Row) (t : Bool). (l, t))
            (ap (map (row_of table fields))
              (take-all (k + size) all (omega arith) ∙ sym (take-all max_rows all (omega arith))))
            (ground (arith, a, b, c))))

    step :
        (k size : ℕ) (next : List Row → Option (Result (List Row × Bool)))
        → (size ≤ length all - k → next (first (k + size)) ≡ result)
        → size ≤ max_rows - k
        → k < max_rows
        → go_on table fields size (first k) (fetch_page table fields send query size k) next
          ≡ result
    unfolding go_on
    step k size next more b c =
        rw (fetch_page-Holds send query all h size k, page_after k size, length-page k size)
          (if-elim (λ o. o ≡ result) (ltb (min size (length all - k)) size) _
            (next (first (k + size))) (λ y. ends k size (ground (arith, y)) b c)
            (λ n. more (ground (arith, n))))

    fetch_from-first :
        (rounds k : ℕ)
        → k ≤ length all
        → k ≤ max_rows
        → max_rows ≤ rounds + k
        → fetch_from table fields rounds send query max_rows (first k) ≡ result
    unfolding fetch_from
    fetch_from-first zero k a b c = rw (length-first k a) (
        if-elim (λ o. o ≡ result) (ltb k max_rows) none _ (λ y. absurd (ground (arith, y, b, c)))
          (λ n. stops k a b n))
    fetch_from-first (suc rounds) k a b c = rw (length-first k a) (
        if-elim (λ o. o ≡ result) (ltb k max_rows) _ (some (ok (first k, true)))
          (λ y.
            step k (min page_size (max_rows - k))
              (fetch_from table fields rounds send query max_rows)
              (λ n.
                fetch_from-first rounds (k + min page_size (max_rows - k)) (ground (arith, y, a, n))
                  (ground (arith, y, b)) (ground (arith, y, c)))
              (ground (arith, y, b)) (ground (arith, y, b)))
          (λ n. stops k a b n))

    -- Over a table that the service serves by offset and limit, the rows are the first records, up to
    -- the maximum, and the read says that it is cut off just when there are as many as the maximum.
    pub fetch-first : fetch table fields send query max_rows ≡ result
    unfolding fetch
    fetch-first = fetch_from-first max_rows 0 (omega arith) (omega arith) (omega arith)
