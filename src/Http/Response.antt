-- ===== src/Http/Response.antt =====
-- http.py: a response as the code reads it, and its log-safe description.
use Prim.Native.String
use mac_service_now_cmdb.Base.{
  ℕ, zero, suc, String, Bool, true, false, Option, none, some, List, [], ◌∷◌, leb, ltb, ◌&&◌,
  if◌then◌else◌, ◌≡◌, refl,
}
use mac_service_now_cmdb.Text.{is_space, join, len, truthy}
use mac_service_now_cmdb.Json.Value.{Value, ℤ}
use mac_service_now_cmdb.Json.Show.{show_nat}

-- The `Retry-After` header as `float` or `parsedate_to_datetime` reads it.
pub data RetryAfter : Type 0 where
  absent malformed : RetryAfter
  seconds : ℤ → RetryAfter
  date : ℕ → RetryAfter

-- `body` is what `response.json()` gives, `none` if it raises `ValueError`. `request` is the method
-- and the path of the request, if the response has one.
pub record Response : Type 0 where
  pub status : ℕ
  pub reason : String
  pub content : String
  pub body : Option Value
  pub request : Option (String × String)
  pub is_logged_in : Option String
  pub retry_after : RetryAfter
  pub rate_limit_reset : Option ℤ

-- `response.is_success`
unfoldable pub is_success : Response → Bool
is_success r = leb 200 r.status && ltb r.status 300

-- `text.split()`: the parts between runs of spaces
words_from : String → String → List String
words_from word String.[] = if truthy word then word ∷ [] else []
words_from word (String.◌∷◌ c s) = elim (is_space c) [
  | true ↦ if truthy word then word ∷ words_from "" s else words_from "" s
  | false ↦ words_from (String.◌++◌ word (String.◌∷◌ c "")) s
]

unfoldable pub words : String → List String
unfolding words_from
words s = words_from "" s

-- `text[:n]`
abbrev pub prefix : ℕ → String → String
prefix zero s = ""
prefix (suc n) String.[] = ""
prefix (suc n) (String.◌∷◌ c s) = String.◌∷◌ c (prefix n s)

-- `_snippet`, of a body that can be read
unfoldable pub snippet : ℕ → Response → String
unfolding words join
snippet limit r =
    let text = join " " (words r.content) in
    String.◌++◌ (prefix limit text) (if ltb limit (len text) then "..." else "")

-- `_request_label`
unfoldable pub request_label : Response → String
request_label r = elim r.request [
  | none ↦ ""
  | some (method, path) ↦ String.◌++◌ method (String.◌++◌ " " (String.◌++◌ path " -> "))
]

abbrev logged_in_note : Option String → String
logged_in_note none = ""
logged_in_note (some v) =
    if truthy v then String.◌++◌ " [X-Is-Logged-In: " (String.◌++◌ v "]") else ""

unfoldable pub describe_error : Response → String
unfolding snippet request_label show_nat
describe_error r = join "" (
    request_label r
    ∷ "HTTP "
    ∷ show_nat r.status
    ∷ " "
    ∷ r.reason
    ∷ logged_in_note r.is_logged_in
    ∷ ": "
    ∷ snippet 400 r
    ∷ [])

abbrev forbidden : Response
forbidden = record {
  status = 403;
  reason = "Forbidden";
  content = "User  Not\nAuthorized";
  body = none;
  request = some ("POST", "/api/now/identifyreconcile");
  is_logged_in = some "true";
  retry_after = absent;
  rate_limit_reset = none;
}

describe_error_test :
    describe_error forbidden
    ≡ "POST /api/now/identifyreconcile -> HTTP 403 Forbidden [X-Is-Logged-In: true]: User Not Authorized"
unfolding describe_error
describe_error_test = refl
