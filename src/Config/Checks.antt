-- ===== src/Config/Checks.antt =====
-- The checks of `_build_config` on the connection to ServiceNow, and the address that it writes to.
use Prim.Native.String
use Prim.Native.Char.{code}
use mac_service_now_cmdb.Base.{
  String, Bool, true, false, Option, none, some, List, [], ◌∷◌, ◌++◌, map, keep, not, ◌==◌, ◌&&◌,
  ◌||◌, eqb, is_some, if◌then◌else◌,
}
use mac_service_now_cmdb.Text.{strip, rstrip, join, has_char, after_prefix}
use mac_service_now_cmdb.Dict.{Dict, mem}
use mac_service_now_cmdb.Json.Value.{str, arr, of_list}
use mac_service_now_cmdb.Json.Show.{repr_value}
use mac_service_now_cmdb.Config.Env.{given}
use mac_service_now_cmdb.Config.Graph.{expect, options}

-- `VALID_USER_MATCH_KEYS`
abbrev pub user_match_keys : List String
user_match_keys = "employee_number" ∷ "email" ∷ "user_name" ∷ "entra_id" ∷ []

unfoldable pub with_scheme : String → String
with_scheme value =
    if is_some (after_prefix "http://" value) || is_some (after_prefix "https://" value)
    then value
    else if has_char 46 value
    then String.◌++◌ "https://" value
    else String.◌++◌ "https://" (String.◌++◌ value ".service-now.com")

-- `_normalize_instance_url`
unfoldable pub normalize_instance_url : String → String
unfolding strip rstrip with_scheme
normalize_instance_url raw = with_scheme (rstrip (λ c. eqb (code c) 47) (strip raw))

unfoldable pub url_of : Option String → String
unfolding normalize_instance_url
url_of none = ""
url_of (some instance_name) = normalize_instance_url instance_name

abbrev pub missing_names : List (String × Option String) → List String
missing_names [] = []
missing_names ((name, o) ∷ rest) = if given o then missing_names rest else name ∷ missing_names rest

-- One problem for all that is missing
abbrev pub password_problem : List String → List String
password_problem [] = []
password_problem (name ∷ names) =
    String.◌++◌ "SNOW_AUTH_MODE=oauth_password requires " (join ", " (name ∷ names)) ∷ []

unfoldable pub snow_credential_problems :
    String → Option String → Option String → Option String → Option String → List String
unfolding expect
snow_credential_problems mode client secret username password =
    if mode == "oauth_client_credentials"
    then expect (given client)
        "SNOW_CLIENT_ID is required for SNOW_AUTH_MODE=oauth_client_credentials"
      ++ expect (given secret)
          "SNOW_CLIENT_SECRET is required for SNOW_AUTH_MODE=oauth_client_credentials"
    else if mode == "oauth_password"
    then password_problem (
        missing_names (
          ("SNOW_CLIENT_ID", client)
          ∷ ("SNOW_CLIENT_SECRET", secret)
          ∷ ("SNOW_USERNAME", username)
          ∷ ("SNOW_PASSWORD", password)
          ∷ []))
    else if mode == "basic"
    then expect (given username && given password)
        "SNOW_AUTH_MODE=basic requires SNOW_USERNAME and SNOW_PASSWORD"
    else []

-- The keys that are none
unfoldable pub unknown_keys : List String → List String
unknown_keys order = keep (λ k. not (mem k user_match_keys)) order

unfoldable pub unknown_problem : List String → List String
unknown_problem [] = []
unknown_problem (k ∷ ks) =
    join "" (
      "SNOW_USER_MATCH_ORDER contains unknown keys "
      ∷ repr_value (arr (of_list (map str (k ∷ ks))))
      ∷ "; valid keys are "
      ∷ options user_match_keys
      ∷ [])
    ∷ []

unfoldable pub match_problems : List String → Option String → List String
unfolding unknown_problem expect
match_problems order field =
    unknown_problem (unknown_keys order)
    ++ expect (not (mem "entra_id" order) || given field)
        "SNOW_USER_MATCH_ORDER includes 'entra_id' but SNOW_USER_ENTRA_ID_FIELD is not set"

-- The problems of the checks, in their order
unfoldable pub together : List (List String) → List String
together [] = []
together (ps ∷ rest) = ps ++ together rest

abbrev pub is_nonempty : Dict String → Bool
is_nonempty [] = false
is_nonempty (e ∷ d) = true
