-- ===== src/Auth.antt =====
-- servicenow/auth.py: `ServiceNowAuth`, its token and when it is fetched again. Times are in
-- microseconds. How Python's `float` reads the lifetime is a parameter; the answer of a token request
-- is part of the call that makes it, so a call that makes none does not look at it.
pub mod Fresh
use Prim.Native.String
use mac_service_now_cmdb.Base.{
  ℕ, ◌+◌, ◌-◌, ◌<◌, max, String, Bool, true, false, Option, none, some, List, [], ◌∷◌, ◌==◌, ◌||◌,
  ◌&&◌, not, ltb, eqb, if◌then◌else◌,
}
use mac_service_now_cmdb.Text.{truthy, join}
use mac_service_now_cmdb.Dict.{Dict}
use mac_service_now_cmdb.Json.Value.{
  ℤ, pos, negsuc, Value, int, obj, of_dict, get, is_true, or_else,
}
use mac_service_now_cmdb.Json.Show.{show, show_nat, repr, repr_value}
use mac_service_now_cmdb.Errors.{Error, auth, Result, ok, err, ◌>>=◌, text_of}
use mac_service_now_cmdb.Http.Response.{Response, is_success, words, prefix}
use mac_service_now_cmdb.Client.{entries_of}

pub record Settings : Type 0 where
  pub auth_mode : String
  pub client_id : Option String
  pub client_secret : Option String
  pub username : Option String
  pub password : Option String

-- `self.cfg.x or ""`
abbrev pub or_blank : Option String → String
or_blank none = ""
or_blank (some s) = s

-- `uses_bearer_token`
unfoldable pub uses_bearer_token : Settings → Bool
uses_bearer_token cfg =
    cfg.auth_mode == "oauth_client_credentials" || cfg.auth_mode == "oauth_password"

-- `basic_auth`
unfoldable pub basic_auth : Settings → Option (String × String)
basic_auth cfg =
    if not (cfg.auth_mode == "basic")
    then none
    else some (or_blank cfg.username, or_blank cfg.password)

-- The form of a token request
unfoldable pub token_form : Settings → Dict String
token_form cfg =
    ("client_id", or_blank cfg.client_id)
    ∷ ("client_secret", or_blank cfg.client_secret)
    ∷ (if cfg.auth_mode == "oauth_client_credentials"
        then ("grant_type", "client_credentials") ∷ []
        else ("grant_type", "password")
          ∷ ("username", or_blank cfg.username)
          ∷ ("password", or_blank cfg.password)
          ∷ [])

-- `_describe_token_failure`
unfoldable pub describe_token_failure : Response → String → String
unfolding words show_nat
describe_token_failure r mode = join "" (
    "ServiceNow token request returned HTTP "
    ∷ show_nat r.status
    ∷ ": "
    ∷ prefix 300 (join " " (words r.content))
    ∷ "."
    ∷ (if mode == "oauth_client_credentials" && (eqb r.status 400 || eqb r.status 401)
        then " Check that the system property 'glide.oauth.inbound.client.credential.grant_type.enabled' is true and that the Application Registry entry has an OAuth Application User set."
        else "")
    ∷ [])

-- `EXPIRY_SKEW_SECONDS`
abbrev pub expiry_skew : ℕ
expiry_skew = 60000000

abbrev pub least_life : ℕ
least_life = 30000000

-- `max(expires_in - EXPIRY_SKEW_SECONDS, 30.0)`
unfoldable pub kept_for : ℤ → ℕ
kept_for (pos n) = max (n - expiry_skew) least_life
kept_for (negsuc n) = least_life

pub record TokenCache : Type 0 where
  pub current : Option String
  pub expires_at : ℕ

-- One call of `token`: the clock at its start, the clock behind a token request, and the answer that
-- such a request gets.
pub record Call : Type 0 where
  pub now : ℕ
  pub fetched_at : ℕ
  pub answer : Result Response

pub record Grant : Type 0 where
  pub access_token : String
  pub life : ℤ

module _ (cfg : Settings) (float_of : Value → Result ℤ) where
  -- The token of an accepted response, and its lifetime
  unfoldable pub read_grant : Option Value → Result Grant
  unfolding repr_value show
  read_grant none = err (auth "ServiceNow token endpoint returned a non-JSON body")
  read_grant (some payload) = entries_of payload >>= λ d.
      if not (is_true (get "access_token" d))
      then err (
          auth (
            String.◌++◌ "ServiceNow token response contained no access_token: "
              (repr_value payload)))
      else (float_of (or_else (get "expires_in" d) (int (pos 1800)))
          >>= (λ life. ok (record { access_token = show (get "access_token" d); life = life })))

  -- `_fetch_token`, of whose request every error is one of `httpx`
  unfoldable pub fetch_token : Result Response → Result Grant
  unfolding read_grant is_success describe_token_failure
  fetch_token (err e) = err (auth (String.◌++◌ "ServiceNow token request failed: " (text_of e)))
  fetch_token (ok r) =
      if not (is_success r)
      then err (auth (describe_token_failure r cfg.auth_mode))
      else read_grant r.body

  -- A grant replaces the token; an error leaves it.
  unfoldable pub refreshed : ℕ → TokenCache → Result Grant → Result String × TokenCache
  unfolding kept_for
  refreshed at cache (err e) = (err e, cache)
  refreshed at cache (ok g) = (
    ok g.access_token,
    record { current = some g.access_token; expires_at = at + kept_for g.life },
  )

  cached_or_new : Option String → Call → TokenCache → Result String × TokenCache
  unfolding refreshed fetch_token
  cached_or_new none c cache = refreshed c.fetched_at cache (fetch_token c.answer)
  cached_or_new (some t) c cache =
      if truthy t && ltb c.now cache.expires_at
      then (ok t, cache)
      else refreshed c.fetched_at cache (fetch_token c.answer)

  -- `token`
  unfoldable pub token : Call → TokenCache → Result String × TokenCache
  unfolding cached_or_new uses_bearer_token repr
  token c cache =
      if not (uses_bearer_token cfg)
      then (
        err (
            auth
              (join "" ("auth mode " ∷ repr cfg.auth_mode ∷ " does not use bearer tokens" ∷ []))),
        cache,
      )
      else cached_or_new cache.current c cache

abbrev pub new_cache : TokenCache
new_cache = record { current = none; expires_at = 0 }
