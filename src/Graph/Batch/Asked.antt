-- ===== src/Graph/Batch/Asked.antt =====
-- What a batched read returns belongs to what was asked, and how often it waits.
use mac_service_now_cmdb.Base.{
  ℕ, zero, suc, ◌+◌, ◌≤◌, String, ◌≡◌, refl, sym, Bool, true, Option, none, some, List, [], ◌∷◌,
  ◌++◌, length, ltb, leb, eqb, ◌&&◌, ◌||◌, All, All-append, arith, if-elim, ◌==◌, eq_refl,
}
use mathlib.Core.Path.{subst}
use mathlib.Core.List.{flatten}
use mac_service_now_cmdb.Dict.{Dict, insert, keys, mem}
use mac_service_now_cmdb.Json.Value.{ℤ, pos, negsuc, Value, get, iterate}
use mac_service_now_cmdb.Errors.{retryable, Result, ok, err}
use mac_service_now_cmdb.Http.Response.{Response, is_success}
use mac_service_now_cmdb.Client.{Send, entries_of, or_empty}
use mac_service_now_cmdb.Query.{chunked}
use mac_service_now_cmdb.Query.Chunks.{flatten-chunked}
use mac_service_now_cmdb.Errors.Gives.{Gives, Gives-any, Gives-bind, Gives-map}
use mac_service_now_cmdb.Graph.Batch.{
  batch_limit, Bodies, Round, nth, at, int_at, settle_part, settle_found, read_part, read_parts,
  read_body, numbered, batch_request, read_answer, read_chunk, read_chunks, go_on, rounds_from,
  get_pending, batch_get,
}

-- All keys are of this kind.
abbrev KeysAre : (String → Type 0) → Bodies → Type 0
KeysAre P = All (λ e. P e.0)

abbrev RoundIs : (String → Type 0) → Round → Type 0
RoundIs P r = KeysAre P r.resolved × All P r.throttled

module _ (P : String → Type 0) where
  KeysAre-insert :
      (k : String) (v : Dict Value) (d : Bodies) → P k → KeysAre P d → KeysAre P (insert k v d)
  unfolding insert
  KeysAre-insert k v [] p h = (p, tt)
  KeysAre-insert k v ((j, w) ∷ d) p h =
      if-elim (KeysAre P) (j == k) ((j, v) ∷ d) ((j, w) ∷ insert k v d) (λ y. h)
        (λ n. (h.0, KeysAre-insert k v d p h.1))

  abbrev IsSome : Option String → Type 0
  IsSome none = Unit
  IsSome (some k) = P k

  nth-IsSome : (ks : List String) (n : ℕ) → All P ks → IsSome (nth ks n)
  nth-IsSome [] n h = tt
  nth-IsSome (k ∷ ks) zero h = h.0
  nth-IsSome (k ∷ ks) (suc n) h = nth-IsSome ks n h.1

  at-IsSome : (ks : List String) (i : ℤ) → All P ks → IsSome (at ks i)
  at-IsSome ks (pos n) h = nth-IsSome ks n h
  at-IsSome ks (negsuc n) h = tt

  settle_part-RoundIs :
      (k : String) (s : ℤ) (body : Dict Value) (r : Round)
      → P k
      → RoundIs P r
      → RoundIs P (settle_part k s body r)
  unfolding settle_part
  settle_part-RoundIs k (negsuc s) body r p h = h
  settle_part-RoundIs k (pos s) body r p h =
      if-elim (RoundIs P) (leb 200 s && ltb s 300) _ _
        (λ y. (KeysAre-insert k body r.resolved p h.0, h.1))
        (λ n.
          if-elim (RoundIs P) (eqb s 429 || eqb s 503 || eqb s 504) _ r
            (λ y. (h.0, All-append P r.throttled (k ∷ []) h.1 (p, tt))) (λ n'. h))

  settle_found-RoundIs :
      (o : Option String) (d : Dict Value) (r : Round)
      → IsSome o
      → RoundIs P r
      → Gives (RoundIs P) (settle_found o d r)
  unfolding settle_found
  settle_found-RoundIs none d r p h = h
  settle_found-RoundIs (some k) d r p h =
      Gives-bind (λ s. Unit {0}) (RoundIs P) (int_at "status" (pos 0) d) _
        (Gives-any (int_at "status" (pos 0) d))
        (λ s u.
          Gives-bind (λ b. Unit {0}) (RoundIs P) (or_empty (get "body" d)) _
            (Gives-any (or_empty (get "body" d))) (λ b u'. settle_part-RoundIs k s b r p h))

  module _ (chunk : List String) (asked : All P chunk) where
    read_part-RoundIs :
        (sub : Value) (r : Round) → RoundIs P r → Gives (RoundIs P) (read_part chunk sub r)
    unfolding read_part
    read_part-RoundIs sub r h =
        Gives-bind (λ d. Unit {0}) (RoundIs P) (entries_of sub) _ (Gives-any (entries_of sub))
          (λ d u.
            Gives-bind (λ i. Unit {0}) (RoundIs P) (int_at "id" (negsuc 0) d) _
              (Gives-any (int_at "id" (negsuc 0) d))
              (λ i u'. settle_found-RoundIs (at chunk i) d r (at-IsSome chunk i asked) h))

    read_parts-RoundIs :
        (subs : List Value) (r : Round) → RoundIs P r → Gives (RoundIs P) (read_parts chunk subs r)
    unfolding read_parts
    read_parts-RoundIs [] r h = h
    read_parts-RoundIs (sub ∷ subs) r h =
        Gives-bind (RoundIs P) (RoundIs P) (read_part chunk sub r) _ (read_part-RoundIs sub r h)
          (λ r' h'. read_parts-RoundIs subs r' h')

  read_body-RoundIs :
      (chunk : List String) (body : Option Value) (r : Round)
      → All P chunk
      → RoundIs P r
      → Gives (RoundIs P) (read_body chunk body r)
  unfolding read_body
  read_body-RoundIs chunk none r c h = tt
  read_body-RoundIs chunk (some payload) r c h =
      Gives-bind (λ d. Unit {0}) (RoundIs P) (entries_of payload) _ (Gives-any (entries_of payload))
        (λ d u. read_parts-RoundIs chunk c (iterate (get "responses" d)) r h)

  All-split : (xs ys : List String) → All P (xs ++ ys) → All P xs × All P ys
  All-split [] ys h = (tt, h)
  All-split (x ∷ xs) ys h = let s = All-split xs ys h.1 in ((h.0, s.0), s.1)

  All-flatten : (cs : List (List String)) → All P (flatten cs) → All (All P) cs
  unfolding flatten
  All-flatten [] h = tt
  All-flatten (c ∷ cs) h = let s = All-split c (flatten cs) h in (s.0, All-flatten cs s.1)

  module _ (what batch_url : String) (required : Bool) (urls : Dict String) (send : Send) where
    read_answer-RoundIs :
        (chunk : List String) (a : Result Response) (r : Round)
        → All P chunk
        → RoundIs P r
        → Gives (RoundIs P) (read_answer what batch_url required urls send chunk a r)
    unfolding read_answer
    read_answer-RoundIs chunk (err (retryable m s t)) r c h =
        if-elim (Gives (RoundIs P)) required _ (ok r) (λ y. tt) (λ n. h)
    read_answer-RoundIs chunk (err e) r c h = tt
    read_answer-RoundIs chunk (ok response) r c h =
        if-elim (Gives (RoundIs P)) (is_success response) _ _
          (λ y. read_body-RoundIs chunk response.body r c h)
          (λ n. if-elim (Gives (RoundIs P)) required _ (ok r) (λ y. tt) (λ n'. h))

    read_chunk-RoundIs :
        (chunk : List String) (r : Round)
        → All P chunk
        → RoundIs P r
        → Gives (RoundIs P) (read_chunk what batch_url required urls send chunk r)
    unfolding read_chunk
    read_chunk-RoundIs chunk r c h =
        Gives-bind (λ n. Unit {0}) (RoundIs P) (numbered 0 urls chunk) _
          (Gives-any (numbered 0 urls chunk))
          (λ n u.
            read_answer-RoundIs chunk (send (batch_request what batch_url required urls send n)) r c
              h)

    read_chunks-RoundIs :
        (cs : List (List String)) (r : Round)
        → All (All P) cs
        → RoundIs P r
        → Gives (RoundIs P) (read_chunks what batch_url required urls send cs r)
    unfolding read_chunks
    read_chunks-RoundIs [] r c h = h
    read_chunks-RoundIs (chunk ∷ cs) r c h =
        Gives-bind (RoundIs P) (RoundIs P) (read_chunk what batch_url required urls send chunk r) _
          (read_chunk-RoundIs chunk r c.0 h) (λ r' h'. read_chunks-RoundIs cs r' c.1 h')

    module _ (max_retries : ℕ) where
      -- From an attempt on: the keys, and the waits that are left.
      abbrev Reads : ℕ → Bodies × List ℕ → Type 0
      Reads attempt o =
          KeysAre P o.0 × ((length o.1 + attempt ≤ max_retries + 1) × All (λ w. w ≤ 60) o.1)

      module _ (attempt : ℕ) (b : attempt ≤ max_retries + 1)
          (again : List String → Bodies → Result (Bodies × List ℕ))
          (h : attempt + 1 ≤ max_retries + 1
            → (ks : List String) (d : Bodies) → All P ks
            → KeysAre P d
            → Gives (Reads (attempt + 1)) (again ks d)) where
        go_on-Reads :
            (ks : List String) (d : Bodies)
            → All P ks
            → KeysAre P d
            → Gives
                (Reads attempt)
                (go_on what batch_url required urls send max_retries attempt again ks d)
        unfolding go_on
        go_on-Reads [] d ka kd = (kd, (omega arith, tt))
        go_on-Reads (k ∷ ks) d ka kd =
            if-elim (Gives (Reads attempt)) (ltb max_retries attempt) (ok (d, [])) _
              (λ y. (kd, (omega arith, tt)))
              (λ n.
                Gives-bind (Reads (attempt + 1)) (Reads attempt) (again (k ∷ ks) d) _
                  (h (ground arith) (k ∷ ks) d ka kd)
                  (λ o r. (r.0, (omega (arith, r.1.0), (omega arith, r.1.1)))))

      rounds_from-Reads :
          (rounds attempt : ℕ) (pending : List String) (d : Bodies)
          → attempt ≤ max_retries + 1
          → All P pending
          → KeysAre P d
          → Gives
              (Reads attempt)
              (rounds_from what batch_url required urls send max_retries rounds attempt pending d)
      unfolding rounds_from
      rounds_from-Reads zero attempt pending d b p k = (k, (omega arith, tt))
      rounds_from-Reads (suc rounds) attempt pending d b p k =
          let start : Round = record { resolved = d; throttled = [] } in
          let chunks = chunked pending batch_limit in
          let whole = flatten-chunked pending batch_limit (omega arith) in
          Gives-bind (RoundIs P) (Reads attempt)
            (read_chunks what batch_url required urls send chunks start) _
            (read_chunks-RoundIs chunks start (All-flatten chunks (subst (All P) (sym whole) p))
              (k, tt))
            (λ r h.
              go_on-Reads attempt b
                (rounds_from what batch_url required urls send max_retries rounds (attempt + 1))
                (λ b' ks e pk ke. rounds_from-Reads rounds (attempt + 1) ks e b' pk ke) r.throttled
                r.resolved h.1 h.0)

      get_pending-Reads :
          (ks : List String)
          → All P ks
          → Gives (Reads 1) (get_pending what batch_url required urls send max_retries ks)
      unfolding get_pending
      get_pending-Reads [] h = (tt, (omega arith, tt))
      get_pending-Reads (k ∷ ks) h =
          rounds_from-Reads (max_retries + 1) 1 (k ∷ ks) [] (omega arith) h tt

mem-All :
    (ks js : List String)
    → ((k : String) → mem k ks ≡ true → mem k js ≡ true)
    → All (λ k. mem k js ≡ true) ks
unfolding mem
mem-All [] js h = tt
mem-All (k ∷ ks) js h = (
  h k (rw (eq_refl k) refl),
  mem-All ks js
      (λ i e. h i (if-elim (λ b. b ≡ true) (k == i) true (mem i ks) (λ y. refl) (λ n. e))),
)

-- The bodies are of keys that were asked, and the waits are few and short.
abbrev pub IsAsked : Dict String → ℕ → Bodies × List ℕ → Type 0
IsAsked urls max_retries o =
    All (λ e. mem e.0 (keys urls) ≡ true) o.0 × (length o.1 ≤ max_retries) × All (λ w. w ≤ 60) o.1

-- Whatever Graph answers, a batched read that returns gives bodies only for what was asked, and it
-- has waited at most `max_retries` times, never longer than a minute.
pub batch_get-IsAsked :
    (what batch_url : String) (required : Bool) (urls : Dict String) (send : Send) (max_retries : ℕ)
    → Gives (IsAsked urls max_retries) (batch_get what batch_url required urls send max_retries)
unfolding batch_get
batch_get-IsAsked what batch_url required urls send max_retries =
    let P : String → Type 0 = λ k. mem k (keys urls) ≡ true in
    Gives-map (Reads P what batch_url required urls send max_retries 1) (IsAsked urls max_retries)
      (get_pending what batch_url required urls send max_retries (keys urls))
      (λ o r. (r.0, omega (arith, r.1.0), r.1.1))
      (get_pending-Reads P what batch_url required urls send max_retries (keys urls)
        (mem-All (keys urls) (keys urls) (λ k e. e)))
