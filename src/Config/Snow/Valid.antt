-- ===== src/Config/Snow/Valid.antt =====
-- What holds of the connection to ServiceNow when there is no problem with it.
use mathlib.Core.Path.{subst}
use Prim.Native.String
use Prim.Native.Char.{code}
use text.Mathlib.TextLemmas.{nil-append, cons-append}
use mac_service_now_cmdb.Base.{
  ℕ, String, ◌≡◌, refl, Bool, true, false, Option, none, some, List, [], ◌∷◌, nil_of_append, not,
  All, keep, arith, Bool-cases, inl, inr, ◌&&◌, ◌||◌, is_some, if-elim, eqb,
}
use mac_service_now_cmdb.Text.{after_prefix, strip, rstrip, has_char}
use mac_service_now_cmdb.Dict.{Dict, mem}
use mac_service_now_cmdb.Config.Env.{Env, Parsed, Places, given}
use mac_service_now_cmdb.Config.Floats.{Float}
use mac_service_now_cmdb.Config.Env.Bounds.{Within}
use mac_service_now_cmdb.Config.Floats.Ranges.{InRange}
use mac_service_now_cmdb.Config.Snow.Limits.{InSnowLimits, HasFraction}
use mac_service_now_cmdb.Config.Graph.{seconds}
use mac_service_now_cmdb.Config.Graph.Valid.{expect-holds, one_of-holds}
use mac_service_now_cmdb.Config.Snow.{
  ServiceNowConfig, SnowLimits, SnowChoices, snow_auth_modes, write_modes, source_recencies,
  snow_checks, snow_problems, snow_config,
}
use mac_service_now_cmdb.Config.Checks.{
  user_match_keys, missing_names, password_problem, snow_credential_problems, unknown_keys,
  unknown_problem, match_problems, is_nonempty, together, normalize_instance_url, with_scheme,
  url_of,
}

pub record HasSnowCredentials (mode : String) (client secret username password : Bool)
    : Type 0 where
  pub for_client : mode ≡ "oauth_client_credentials" → (client ≡ true) × (secret ≡ true)
  pub for_password :
      mode ≡ "oauth_password"
      → (client ≡ true) × (secret ≡ true) × (username ≡ true) × (password ≡ true)
  pub for_basic : mode ≡ "basic" → (username ≡ true) × (password ≡ true)

-- The address names its scheme.
abbrev pub IsAbsolute : String → Type 0
IsAbsolute url =
    (is_some (after_prefix "http://" url) || is_some (after_prefix "https://" url)) ≡ true

pub record IsSnowValid (cfg : ServiceNowConfig) : Type 0 where
  pub address : IsAbsolute cfg.base_url
  pub mode : mem cfg.auth_mode snow_auth_modes ≡ true
  pub credentials :
      HasSnowCredentials cfg.auth_mode
        (given cfg.client_id)
        (given cfg.client_secret)
        (given cfg.username)
        (given cfg.password)
  pub write_mode : mem cfg.write_mode write_modes ≡ true
  pub recency : mem cfg.source_recency source_recencies ≡ true
  pub keys : All (λ k. mem k user_match_keys ≡ true) cfg.user_match_order
  pub entra_id : mem "entra_id" cfg.user_match_order ≡ true → given cfg.user_entra_id_field ≡ true
  pub class_given : (is_nonempty cfg.class_map || given cfg.default_class) ≡ true
  pub batch_size : Within 1 (some 1000) cfg.batch_size
  pub concurrency : Within 1 (some 32) cfg.concurrency
  pub abort_after_errors : Within 0 (some 10000) cfg.abort_after_errors
  pub retries : Within 0 (some 10) cfg.max_retries
  pub timeout : InRange (seconds 1) none cfg.request_timeout
  pub fraction : InRange (seconds 0) (some (seconds 1)) cfg.retire_max_fraction

both : (a b : Bool) → (a && b) ≡ true → (a ≡ true) × (b ≡ true)
both true b h = (refl, h)
both false b h = absurd (let e = h in cc)

missing_names-given :
    (l : List (String × Option String)) → missing_names l ≡ [] → All (λ p. given p.1 ≡ true) l
missing_names-given [] h = tt
missing_names-given ((name, o) ∷ rest) h = elim (Bool-cases (given o)) [
  | inl t ↦ (t, missing_names-given rest (rw t at h))
  | inr f ↦ absurd (let e = rw f at h in cc)
]

password_problem-none : (names : List String) → password_problem names ≡ [] → names ≡ []
password_problem-none [] h = refl
password_problem-none (n ∷ ns) h = absurd (let e = h in cc)

module _ (client secret username password : Option String) where
  abbrev None : String → Type 0
  None mode = snow_credential_problems mode client secret username password ≡ []

  at_client : None "oauth_client_credentials" → (given client ≡ true) × (given secret ≡ true)
  unfolding snow_credential_problems
  at_client h =
      let (a, b) = nil_of_append _ _ h in
      (expect-holds (given client) _ a, expect-holds (given secret) _ b)

  at_password :
      None "oauth_password"
      → (given client ≡ true)
        × (given secret ≡ true)
        × (given username ≡ true)
        × (given password ≡ true)
  unfolding snow_credential_problems
  at_password h =
      let known =
        missing_names-given
          (("SNOW_CLIENT_ID", client)
            ∷ ("SNOW_CLIENT_SECRET", secret)
            ∷ ("SNOW_USERNAME", username)
            ∷ ("SNOW_PASSWORD", password)
            ∷ [])
          (password_problem-none _ h) in
      (known.0, known.1.0, known.1.1.0, known.1.1.1.0)

  at_basic : None "basic" → (given username ≡ true) × (given password ≡ true)
  unfolding snow_credential_problems
  at_basic h = both (given username) (given password) (expect-holds _ _ h)

  snow_credential_problems-HasSnowCredentials :
      (mode : String)
      → None mode
      → HasSnowCredentials mode (given client) (given secret) (given username) (given password)
  snow_credential_problems-HasSnowCredentials mode h = record {
    for_client = λ m. at_client (subst None m h);
    for_password = λ m. at_password (subst None m h);
    for_basic = λ m. at_basic (subst None m h);
  }

keep-none :
    (p : String → Bool) (xs : List String)
    → keep (λ k. not (p k)) xs ≡ []
    → All (λ k. p k ≡ true) xs
keep-none p [] h = tt
keep-none p (x ∷ xs) h = elim (Bool-cases (p x)) [
  | inl t ↦ (t, keep-none p xs (rw (t, keep) at h))
  | inr f ↦ absurd (let e = rw (f, keep) at h in cc)
]

unknown_problem-none : (ks : List String) → unknown_problem ks ≡ [] → ks ≡ []
unfolding unknown_problem
unknown_problem-none [] h = refl
unknown_problem-none (k ∷ ks) h = absurd (let e = h in cc)

together-none : (ls : List (List String)) → together ls ≡ [] → All (λ l. l ≡ []) ls
unfolding together
together-none [] h = tt
together-none (l ∷ ls) h = let (a, b) = nil_of_append l (together ls) h in (a, together-none ls b)

or_true : (a : Bool) → (a || true) ≡ true
or_true true = refl
or_true false = refl

pub implied : (a b : Bool) → (not a || b) ≡ true → a ≡ true → b ≡ true
implied true b h _ = h
implied false b h k = absurd (let e = k in cc)

match_problems-none :
    (order : List String) (field : Option String)
    → match_problems order field ≡ []
    → All (λ k. mem k user_match_keys ≡ true) order
      × (mem "entra_id" order ≡ true → given field ≡ true)
unfolding match_problems unknown_keys
match_problems-none order field h =
    let (a, b) = nil_of_append _ _ h in
    (
      keep-none (λ k. mem k user_match_keys) order (unknown_problem-none _ a),
      implied (mem "entra_id" order) (given field) (expect-holds _ _ b),
    )

eqb_refl : (n : ℕ) → eqb n n ≡ true
eqb_refl n = ground arith

after_prefix-append : (p s : String) → after_prefix p (String.◌++◌ p s) ≡ some s
after_prefix-append String.[] s = rw nil-append refl
after_prefix-append (String.◌∷◌ c p) s =
    rw (cons-append, eqb_refl (code c)) (after_prefix-append p s)

https-IsAbsolute : (s : String) → IsAbsolute (String.◌++◌ "https://" s)
https-IsAbsolute s =
    rw (after_prefix-append "https://" s)
      (or_true (is_some (after_prefix "http://" (String.◌++◌ "https://" s))))

with_scheme-IsAbsolute : (value : String) → IsAbsolute (with_scheme value)
unfolding with_scheme
with_scheme-IsAbsolute value =
    if-elim IsAbsolute
      (is_some (after_prefix "http://" value) || is_some (after_prefix "https://" value)) value _
      (λ h. h)
      (λ _.
        if-elim IsAbsolute (has_char 46 value) (String.◌++◌ "https://" value)
          (String.◌++◌ "https://" (String.◌++◌ value ".service-now.com"))
          (λ _. https-IsAbsolute value)
          (λ _. https-IsAbsolute (String.◌++◌ value ".service-now.com")))

url_of-IsAbsolute : (o : Option String) → given o ≡ true → IsAbsolute (url_of o)
unfolding url_of normalize_instance_url
url_of-IsAbsolute none h = absurd (let e = h in cc)
url_of-IsAbsolute (some s) h = with_scheme-IsAbsolute (rstrip (λ c. eqb (code c) 47) (strip s))

module _ (parse_float : String → Option Float) (parse_json : String → Parsed) (places : Places)
    (e : Env) where
  pub snow_problems-IsSnowValid :
      (class_map : Dict String) (enhanced : Bool) (limits : SnowLimits) (choices : SnowChoices)
      → InSnowLimits limits
      → HasFraction choices
      → snow_problems parse_float parse_json places e class_map ≡ []
      → IsSnowValid (snow_config parse_float parse_json places e class_map enhanced limits choices)
  unfolding snow_problems snow_checks snow_config
  snow_problems-IsSnowValid class_map enhanced limits choices l f h =
      let (address, known) =
        together-none (snow_checks parse_float parse_json places e class_map) h in
      let (mode, (credentials, (writes, (recency, (matches, (class_known, _)))))) = known in
      let (batch_size, concurrency, abort, retries, timeout) = l in
      record {
        address = url_of-IsAbsolute _ (expect-holds _ _ address);
        mode = one_of-holds _ _ _ mode;
        credentials = snow_credential_problems-HasSnowCredentials _ _ _ _ _ credentials;
        write_mode = one_of-holds _ _ _ writes;
        recency = one_of-holds _ _ _ recency;
        keys = (match_problems-none _ _ matches).0;
        entra_id = (match_problems-none _ _ matches).1;
        class_given = expect-holds _ _ class_known;
        batch_size = batch_size;
        concurrency = concurrency;
        abort_after_errors = abort;
        retries = retries;
        timeout = timeout;
        fraction = f;
      }
