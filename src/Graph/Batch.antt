-- ===== src/Graph/Batch.antt =====
-- `_batch_get`: many reads in requests of at most 20. Parts that are throttled are asked again.
pub mod Asked
use Prim.Native.String
use mac_service_now_cmdb.Base.{
  ℕ, zero, suc, ◌+◌, ◌^◌, String, Bool, true, false, Option, none, some, List, [], ◌∷◌, ◌++◌, ◌&&◌,
  ◌||◌, not, leb, ltb, eqb, min, if◌then◌else◌,
}
use mac_service_now_cmdb.Text.{join}
use mac_service_now_cmdb.Dict.{Dict, lookup, insert, keys}
use mac_service_now_cmdb.Json.Value.{
  ℤ, pos, negsuc, Value, null, int, str, arr, obj, of_dict, of_list, get, iterate,
}
use mac_service_now_cmdb.Json.Number.{int_of}
use mac_service_now_cmdb.Json.Show.{show_nat}
use mac_service_now_cmdb.Errors.{
  Error, retryable, graph, value_error, other, Result, ok, err, ◌>>=◌,
}
use mac_service_now_cmdb.Http.Response.{Response, is_success, describe_error}
use mac_service_now_cmdb.Client.{Request, Send, entries_of, or_empty}
use mac_service_now_cmdb.Query.{chunked}

-- `GRAPH_BATCH_LIMIT`
abbrev pub batch_limit : ℕ
batch_limit = 20

abbrev pub Bodies : Type 0
Bodies = Dict (Dict Value)

-- What is resolved so far, and what was throttled in this round.
pub record Round : Type 0 where
  pub resolved : Bodies
  pub throttled : List String

-- `chunk[index]`, if the index is inside.
abbrev pub nth : List String → ℕ → Option String
nth [] n = none
nth (k ∷ ks) zero = some k
nth (k ∷ ks) (suc n) = nth ks n

abbrev pub at : List String → ℤ → Option String
at chunk (pos n) = nth chunk n
at chunk (negsuc n) = none

-- `int(d.get(key, default))`
abbrev int_at : String → ℤ → Dict Value → Result ℤ
int_at key default d = elim (lookup key d) [
  | none ↦ ok default
  | some v ↦ elim (int_of v) [ none ↦ err (value_error key) | some n ↦ ok n ]
]

-- One part of the answer, by its status.
unfoldable pub settle_part : String → ℤ → Dict Value → Round → Round
settle_part key (negsuc n) body r = r
settle_part key (pos s) body r =
    if leb 200 s && ltb s 300
    then record r { resolved = insert key body r.resolved }
    else if eqb s 429 || eqb s 503 || eqb s 504
    then record r { throttled = r.throttled ++ key ∷ [] }
    else r

settle_found : Option String → Dict Value → Round → Result Round
unfolding settle_part
settle_found none d r = ok r
settle_found (some key) d r = int_at "status" (pos 0) d >>= λ status.
    or_empty (get "body" d) >>= λ body. ok (settle_part key status body r)

unfoldable pub read_part : List String → Value → Round → Result Round
unfolding settle_found
read_part chunk sub r =
    entries_of sub >>= λ d. int_at "id" (negsuc 0) d >>= λ index. settle_found (at chunk index) d r

unfoldable pub read_parts : List String → List Value → Round → Result Round
unfolding read_part
read_parts chunk [] r = ok r
read_parts chunk (sub ∷ subs) r = read_part chunk sub r >>= λ r'. read_parts chunk subs r'

numbered : ℕ → Dict String → List String → Result (List Value)
numbered i urls [] = ok []
numbered i urls (key ∷ chunk) = elim (lookup key urls) [
  | none ↦ err (other "KeyError")
  | some url ↦ numbered (i + 1) urls chunk >>= λ rest. ok (
      obj (of_dict (("id", str (show_nat i)) ∷ ("method", str "GET") ∷ ("url", str url) ∷ []))
      ∷ rest)
]

-- The parts of a response that reports success.
unfoldable pub read_body : List String → Option Value → Round → Result Round
unfolding read_parts
read_body chunk none r = err (value_error "the response is not JSON")
read_body chunk (some payload) r =
    entries_of payload >>= λ d. read_parts chunk (iterate (get "responses" d)) r

module _ (what batch_url : String) (required : Bool) (urls : Dict String) (send : Send) where
  abbrev batch_request : List Value → Request
  batch_request requests = record {
    method = "POST";
    path = batch_url;
    params = [];
    json_body = obj (of_dict (("requests", arr (of_list requests)) ∷ []));
  }

  -- Only `RetryableHTTPError` is handled, and only where the read is not required.
  unfoldable pub read_answer : List String → Result Response → Round → Result Round
  unfolding read_body is_success describe_error
  read_answer chunk (err (retryable m status after)) r =
      if required then err (retryable m status after) else ok r
  read_answer chunk (err e) r = err e
  read_answer chunk (ok response) r =
      if is_success response
      then read_body chunk response.body r
      else if required
      then err (graph (join "" (what ∷ " $batch failed: " ∷ describe_error response ∷ [])))
      else ok r

  unfoldable pub read_chunk : List String → Round → Result Round
  unfolding read_answer numbered
  read_chunk chunk r =
      numbered 0 urls chunk >>= λ requests. read_answer chunk (send (batch_request requests)) r

  unfoldable pub read_chunks : List (List String) → Round → Result Round
  unfolding read_chunk
  read_chunks [] r = ok r
  read_chunks (chunk ∷ chunks) r = read_chunk chunk r >>= λ r'. read_chunks chunks r'

  module _ (max_retries : ℕ) where
    -- What follows a round, by what it left throttled: it is the last one, or another one after a wait.
    unfoldable pub go_on :
        ℕ
        → (List String → Bodies → Result (Bodies × List ℕ))
        → List String
        → Bodies
        → Result (Bodies × List ℕ)
    go_on attempt again [] resolved = ok (resolved, [])
    go_on attempt again (k ∷ ks) resolved =
        if ltb max_retries attempt
        then ok (resolved, [])
        else (again (k ∷ ks) resolved >>= λ o. ok (o.0, min (2 ^ attempt) 60 ∷ o.1))

    -- The rounds left of `range(1, max_retries + 2)` and the attempt; the bodies and the waits.
    unfoldable pub rounds_from : ℕ → ℕ → List String → Bodies → Result (Bodies × List ℕ)
    unfolding go_on read_chunks
    rounds_from zero attempt pending resolved = ok (resolved, [])
    rounds_from (suc rounds) attempt pending resolved =
        read_chunks (chunked pending batch_limit) (record { resolved = resolved; throttled = [] })
        >>= λ r. go_on attempt (rounds_from rounds (attempt + 1)) r.throttled r.resolved

    -- `if not pending: return resolved`
    get_pending : List String → Result (Bodies × List ℕ)
    unfolding rounds_from
    get_pending [] = ok ([], [])
    get_pending (k ∷ ks) = rounds_from (max_retries + 1) 1 (k ∷ ks) []

    -- `_batch_get`
    unfoldable pub batch_get : Result (Bodies × List ℕ)
    unfolding get_pending
    batch_get = get_pending (keys urls)
