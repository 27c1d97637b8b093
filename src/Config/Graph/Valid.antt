-- ===== src/Config/Graph/Valid.antt =====
-- What holds of the connection to Microsoft Graph when there is no problem with it.
use mathlib.Core.Path.{subst}
use mac_service_now_cmdb.Base.{
  Bool-cases, inl, inr, String, ◌≡◌, refl, Bool, true, false, Option, none, some, List, [],
  nil_of_append, arith,
}
use mac_service_now_cmdb.Text.{truthy}
use mac_service_now_cmdb.Dict.{mem}
use mac_service_now_cmdb.Config.Env.{Env, Places, given, or_blank}
use mac_service_now_cmdb.Config.Floats.{Float, below}
use mac_service_now_cmdb.Config.Env.Bounds.{
  Reads, Reads-bind, Any, Within, env_int-Within, env_bool-Any,
}
use mac_service_now_cmdb.Config.Floats.Ranges.{InRange, env_float-InRange}
use mac_service_now_cmdb.Config.Graph.{
  GraphConfig, GraphLimits, graph_auth_modes, ownerships, seconds, expect, one_of,
  credential_problems, graph_limits, graph_problems, graph_config, graph_mode, ownership_of, access,
  tenant, client, secret,
}

-- An authentication mode has the credentials that it uses.
pub record HasCredentials (mode : String) (access : Bool) (tenant : Bool) (client : Bool)
    (secret : Bool) : Type 0 where
  pub for_token : mode ≡ "access_token" → access ≡ true
  pub for_secret : mode ≡ "client_secret" → (tenant ≡ true) × (client ≡ true) × (secret ≡ true)
  pub for_workload : mode ≡ "workload_identity" → tenant ≡ true
  pub for_federated : mode ≡ "federated_managed_identity" → (tenant ≡ true) × (client ≡ true)

pub record IsGraphValid (cfg : GraphConfig) : Type 0 where
  pub mode : mem cfg.auth_mode graph_auth_modes ≡ true
  pub credentials :
      HasCredentials cfg.auth_mode
        (given cfg.access_token)
        (truthy cfg.tenant_id)
        (given cfg.client_id)
        (given cfg.client_secret)
  pub ownership : mem cfg.ownership ownerships ≡ true
  pub page_size : Within 1 (some 1000) cfg.page_size
  pub retries : Within 0 (some 10) cfg.max_retries
  pub timeout : InRange (seconds 1) none cfg.request_timeout

pub expect-holds : (b : Bool) (problem : String) → expect b problem ≡ [] → b ≡ true
unfolding expect
expect-holds true problem h = refl
expect-holds false problem h = cc

pub one_of-holds :
    (name : String) (values : List String) (value : String)
    → one_of name values value ≡ []
    → mem value values ≡ true
unfolding one_of
one_of-holds name values value h = expect-holds (mem value values) _ h

given-or_blank : (o : Option String) → truthy (or_blank o) ≡ given o
given-or_blank none = refl
given-or_blank (some s) = refl

module _ (access tenant client secret : Option String) where
  abbrev None : String → Type 0
  None mode = credential_problems mode access tenant client secret ≡ []

  at_token : None "access_token" → given access ≡ true
  unfolding credential_problems
  at_token h = expect-holds (given access) _ h

  at_secret :
      None "client_secret" → (given tenant ≡ true) × (given client ≡ true) × (given secret ≡ true)
  unfolding credential_problems
  at_secret h =
      let (h', c) = nil_of_append _ _ h in
      let (a, b) = nil_of_append _ _ h' in
      (
        expect-holds (given tenant) _ a,
        expect-holds (given client) _ b,
        expect-holds (given secret) _ c,
      )

  at_workload : None "workload_identity" → given tenant ≡ true
  unfolding credential_problems
  at_workload h = elim (Bool-cases (given tenant)) [
    | inl t ↦ t
    | inr f ↦ absurd (let e = rw f at h in cc)
  ]

  at_federated : None "federated_managed_identity" → (given tenant ≡ true) × (given client ≡ true)
  unfolding credential_problems
  at_federated h =
      let (a, b) = nil_of_append _ _ h in
      (expect-holds (given tenant) _ a, expect-holds (given client) _ b)

  credential_problems-HasCredentials :
      (mode : String)
      → None mode
      → HasCredentials mode (given access) (given tenant) (given client) (given secret)
  credential_problems-HasCredentials mode h = record {
    for_token = λ m. at_token (subst None m h);
    for_secret = λ m. at_secret (subst None m h);
    for_workload = λ m. at_workload (subst None m h);
    for_federated = λ m. at_federated (subst None m h);
  }

abbrev pub InLimits : GraphLimits → Type 0
InLimits limits =
    Within 1 (some 1000) limits.page_size
    × Within 0 (some 10) limits.max_retries
    × InRange (seconds 1) none limits.request_timeout

module _ (parse_float : String → Option Float) (places : Places) (e : Env) where
  pub graph_limits-InLimits : Reads InLimits (graph_limits parse_float places e)
  unfolding graph_limits below
  graph_limits-InLimits =
      Reads-bind (Within 1 (some 1000)) InLimits _ _
        (env_int-Within "GRAPH_PAGE_SIZE" 1 e 200 (some 1000) (omega arith, omega arith))
        (λ page_size p.
          Reads-bind Any InLimits _ _ (env_bool-Any e "INTUNE_SERVER_SIDE_FILTER" true) (λ filter _.
            Reads-bind Any InLimits _ _ (env_bool-Any e "GRAPH_ENRICH_USERS" true) (λ enrich _.
              Reads-bind (InRange (seconds 1) none) InLimits _ _
                (env_float-InRange parse_float "GRAPH_TIMEOUT_SECONDS" (seconds 1) none e
                  (seconds 60) (refl, refl))
                (λ timeout t.
                  Reads-bind (Within 0 (some 10)) InLimits _ _
                    (env_int-Within "GRAPH_MAX_RETRIES" 0 e 5 (some 10) (omega arith, omega arith))
                    (λ retries r. (p, r, t))))))

  pub graph_problems-IsGraphValid :
      (limits : GraphLimits)
      → InLimits limits
      → graph_problems parse_float places e ≡ []
      → IsGraphValid (graph_config parse_float places e limits)
  unfolding graph_problems graph_config
  graph_problems-IsGraphValid limits (p, r, t) h =
      let (h', c) = nil_of_append _ _ h in
      let (a, b) = nil_of_append _ _ h' in
      record {
        mode = one_of-holds "GRAPH_AUTH_MODE" graph_auth_modes (graph_mode parse_float places e) a;
        credentials = rw (given-or_blank (tenant parse_float places e)) (
            credential_problems-HasCredentials (access parse_float places e)
              (tenant parse_float places e) (client parse_float places e)
              (secret parse_float places e) (graph_mode parse_float places e) b);
        ownership =
            one_of-holds "INTUNE_OWNERSHIP" ownerships (ownership_of parse_float places e) c;
        page_size = p;
        retries = r;
        timeout = t;
      }
