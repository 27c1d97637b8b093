-- ===== src/Config/Graph.antt =====
-- The first part of `_build_config`: the connection to Microsoft Graph.
pub mod Valid
use Prim.Native.String
use mac_service_now_cmdb.Base.{
  ℕ, zero, String, Bool, true, false, Option, none, some, List, [], ◌∷◌, ◌++◌, map, not, ◌==◌, ◌&&◌,
  eqb, if◌then◌else◌,
}
use mac_service_now_cmdb.Text.{lower, rstrip, join}
use mac_service_now_cmdb.Text.Order.{sorted}
use Prim.Native.Char.{code}
use mac_service_now_cmdb.Dict.{mem}
use mac_service_now_cmdb.Json.Value.{pos, str, arr, of_list}
use mac_service_now_cmdb.Json.Show.{repr, repr_value}
use mac_service_now_cmdb.Errors.{Result, ok, ◌>>=◌}
use mac_service_now_cmdb.Config.Env.{
  Env, env, env_text, first_given, given, or_blank, env_bool, env_int, env_csv, Places,
  resolve_secret,
}
use mac_service_now_cmdb.Config.Floats.{Float, finite, env_float}

-- `VALID_GRAPH_AUTH_MODES`
abbrev pub graph_auth_modes : List String
graph_auth_modes =
    "access_token" ∷ "client_secret" ∷ "managed_identity" ∷ "federated_managed_identity"
    ∷ "workload_identity" ∷ "default" ∷ []

-- `VALID_OWNERSHIP`
abbrev pub ownerships : List String
ownerships = "company" ∷ "personal" ∷ "any" ∷ []

-- `DEFAULT_USER_SELECT_FIELDS`
abbrev pub default_user_select_fields : List String
default_user_select_fields =
    "id" ∷ "userPrincipalName" ∷ "mail" ∷ "displayName" ∷ "employeeId" ∷ "department"
    ∷ "companyName" ∷ "officeLocation" ∷ "city" ∷ "country" ∷ "accountEnabled" ∷ []

pub record GraphConfig : Type 0 where
  pub tenant_id : String
  pub client_id : Option String
  pub client_secret : Option String
  pub auth_mode : String
  pub base_url : String
  pub scope : String
  pub page_size : ℕ
  pub ownership : String
  pub server_side_filter : Bool
  pub enrich_users : Bool
  pub user_select_fields : List String
  pub request_timeout : Float
  pub max_retries : ℕ
  pub assertion_identity_client_id : Option String
  pub access_token : Option String
  pub mac_ram_attribute : Option String
  pub mac_cpu_attribute : Option String

-- A problem, unless the test holds
unfoldable pub expect : Bool → String → List String
expect true problem = []
expect false problem = problem ∷ []

-- `f"{sorted(values)}"`
abbrev pub options : List String → String
options values = repr_value (arr (of_list (map str (sorted values))))

unfoldable pub one_of : String → List String → String → List String
unfolding expect
one_of name values value =
    expect (mem value values)
      (join "" (name ∷ " must be one of " ∷ options values ∷ " (got " ∷ repr value ∷ ")" ∷ []))

abbrev required : String → String → List String → String
required name mode more = join "" (name ∷ " is required when GRAPH_AUTH_MODE=" ∷ mode ∷ more)

-- What an authentication mode wants of the credentials
unfoldable pub credential_problems :
    String → Option String → Option String → Option String → Option String → List String
unfolding expect
credential_problems mode access tenant client secret =
    if mode == "access_token"
    then expect (given access)
        "GRAPH_ACCESS_TOKEN is required when GRAPH_AUTH_MODE=access_token (or GRAPH_ACCESS_TOKEN_FILE). Get one with: az account get-access-token --resource https://graph.microsoft.com --query accessToken -o tsv"
    else if mode == "client_secret"
    then expect (given tenant) (required "GRAPH_TENANT_ID" mode [])
      ++ expect (given client) (required "GRAPH_CLIENT_ID" mode [])
      ++ expect (given secret) (required "GRAPH_CLIENT_SECRET" mode [])
    else if mode == "workload_identity" && not (given tenant)
    then required "GRAPH_TENANT_ID" mode [] ∷ []
    else if mode == "federated_managed_identity"
    then expect (given tenant) (
        required "GRAPH_TENANT_ID" mode
          (" and must be the tenant the app registration is consented into" ∷ []))
      ++ expect (given client) (
          required "GRAPH_CLIENT_ID" mode (
            " and must be the multi-tenant app registration's client ID, not the managed identity's"
            ∷ []))
    else []

-- The values whose readers may raise, in their order
pub record GraphLimits : Type 0 where
  pub page_size : ℕ
  pub server_side_filter : Bool
  pub enrich_users : Bool
  pub request_timeout : Float
  pub max_retries : ℕ

abbrev pub seconds : ℕ → Float
seconds n = finite (pos n) 0

module _ (parse_float : String → Option Float) (places : Places) (e : Env) where
  unfoldable pub graph_limits : Result GraphLimits
  unfolding env_int env_bool env_float
  graph_limits = env_int e "GRAPH_PAGE_SIZE" 200 1 (some 1000) >>= λ page_size.
      env_bool e "INTUNE_SERVER_SIDE_FILTER" true >>= λ filter.
      env_bool e "GRAPH_ENRICH_USERS" true >>= λ enrich.
      env_float parse_float e "GRAPH_TIMEOUT_SECONDS" (seconds 60) (seconds 1) none >>= λ timeout.
      env_int e "GRAPH_MAX_RETRIES" 5 0 (some 10) >>= λ retries. ok (record {
        page_size = page_size;
        server_side_filter = filter;
        enrich_users = enrich;
        request_timeout = timeout;
        max_retries = retries;
      })

  abbrev pub graph_mode : String
  graph_mode = lower (env_text e "GRAPH_AUTH_MODE" "client_secret")

  abbrev pub tenant : Option String
  tenant = first_given (env e "GRAPH_TENANT_ID" none) (env e "AZURE_TENANT_ID" none)

  abbrev pub client : Option String
  client = first_given (env e "GRAPH_CLIENT_ID" none) (env e "AZURE_CLIENT_ID" none)

  abbrev pub secret : Option String
  secret =
      first_given (resolve_secret places e "GRAPH_CLIENT_SECRET")
        (resolve_secret places e "AZURE_CLIENT_SECRET")

  abbrev pub access : Option String
  access = resolve_secret places e "GRAPH_ACCESS_TOKEN"

  abbrev pub ownership_of : String
  ownership_of = lower (env_text e "INTUNE_OWNERSHIP" "company")

  unfoldable pub graph_problems : List String
  unfolding one_of credential_problems
  graph_problems =
      one_of "GRAPH_AUTH_MODE" graph_auth_modes graph_mode
      ++ credential_problems graph_mode access tenant client secret
      ++ one_of "INTUNE_OWNERSHIP" ownerships ownership_of

  unfoldable pub graph_config : GraphLimits → GraphConfig
  unfolding env resolve_secret
  graph_config limits = record {
    tenant_id = or_blank tenant;
    client_id = client;
    client_secret = secret;
    auth_mode = graph_mode;
    base_url =
        rstrip (λ c. eqb (code c) 47)
          (env_text e "GRAPH_BASE_URL" "https://graph.microsoft.com/v1.0");
    scope = env_text e "GRAPH_SCOPE" "https://graph.microsoft.com/.default";
    page_size = limits.page_size;
    ownership = ownership_of;
    server_side_filter = limits.server_side_filter;
    enrich_users = limits.enrich_users;
    user_select_fields = env_csv e "GRAPH_USER_SELECT_FIELDS" default_user_select_fields;
    request_timeout = limits.request_timeout;
    max_retries = limits.max_retries;
    assertion_identity_client_id = env e "GRAPH_ASSERTION_IDENTITY_CLIENT_ID" none;
    access_token = access;
    mac_ram_attribute = env e "INTUNE_MAC_RAM_ATTRIBUTE" none;
    mac_cpu_attribute = env e "INTUNE_MAC_CPU_ATTRIBUTE" none;
  }
