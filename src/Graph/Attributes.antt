-- ===== src/Graph/Attributes.antt =====
-- `get_custom_attribute_values`: what a script printed on each Mac.
pub mod Unique
use Prim.Native.String
use mac_service_now_cmdb.Base.{
  ℕ, String, Bool, true, false, Option, none, some, List, [], ◌∷◌, ◌||◌, not, ◌==◌, ◌&&◌, length,
  if◌then◌else◌,
}
use mac_service_now_cmdb.Text.{truthy, lower, strip, join}
use mac_service_now_cmdb.Dict.{Dict, lookup, insert}
use mac_service_now_cmdb.Json.Value.{Value, str, get, get_or_empty, is_true}
use mac_service_now_cmdb.Json.Show.{show, show_nat, repr}
use mac_service_now_cmdb.Errors.{Error, Result, ok, err, ◌>>=◌, graph, graph_bad_request, other}
use mac_service_now_cmdb.Client.{Send, entries_of, or_empty}
use mac_service_now_cmdb.Graph.Pages.{iter_pages}

abbrev pub Script : Type 0
Script = Dict Value

abbrev pub named : String → String → Script → Bool
named wanted key script = lower (strip (show (get_or_empty key script))) == wanted

-- The id, the name or the display name is the wanted one.
abbrev pub is_wanted : String → Script → Bool
is_wanted wanted script =
    named wanted "id" script
    || named wanted "customAttributeName" script
    || named wanted "displayName" script

unfoldable pub matches_of : String → List Value → Result (List Script)
unfolding show
matches_of wanted [] = ok []
matches_of wanted (v ∷ vs) = entries_of v >>= λ script. matches_of wanted vs >>= λ scripts.
    ok (if is_wanted wanted script then script ∷ scripts else scripts)

-- Exactly one script may match.
unfoldable pub only : String → List Script → Result Script
only attribute [] = err (graph (String.◌++◌ "no macOS custom attribute named " (repr attribute)))
only attribute (s ∷ []) = ok s
only attribute (s ∷ t ∷ rest) = err (
    graph (
      join "" (
        show_nat (length (s ∷ t ∷ rest))
        ∷ " macOS custom attributes match "
        ∷ repr attribute
        ∷ "; use its id"
        ∷ [])))

abbrev pub output_of : Script → String
output_of state = strip (show (get_or_empty "resultMessage" state))

abbrev pub succeeded : Script → Bool
succeeded state = lower (show (get_or_empty "runState" state)) == "success"

abbrev pub keep_output : Value → String → Dict String → Dict String
keep_output id output values =
    if is_true id && truthy output then insert (show id) output values else values

-- One run state; a run that failed counts for nothing.
unfoldable pub read_state : Value → Dict String → Result (Dict String)
read_state v values = entries_of v >>= λ state.
    if not (succeeded state)
    then ok values
    else (or_empty (get "managedDevice" state)
        >>= (λ device. ok (keep_output (get "id" device) (output_of state) values)))

unfoldable pub read_states : List Value → Dict String → Result (Dict String)
unfolding read_state
read_states [] values = ok values
read_states (v ∷ vs) values = read_state v values >>= λ values'. read_states vs values'

-- `script['id']`
unfoldable pub id_of : Script → Result String
id_of script = elim (lookup "id" script) [ none ↦ err (other "KeyError") | some v ↦ ok (show v) ]

-- A chain over results that are missing when there are more pages than are followed.
infixl 5 ◌>=>◌
abbrev pub ◌>=>◌ : {A B : Type 0} → Option (Result A) → (A → Option (Result B)) → Option (Result B)
none >=> f = none
some (err e) >=> f = some (err e)
some (ok a) >=> f = f a

-- Only a 400 is answered by the plain query.
unfoldable pub unless_bad_request :
    Option (Result (List Value)) → Option (Result (List Value)) → Option (Result (List Value))
unless_bad_request (some (err (graph_bad_request m))) again = again
unless_bad_request r again = r

module _ (pages : ℕ) (send : Send) (beta_base : String) where
  abbrev scripts_url : String
  scripts_url = String.◌++◌ beta_base "/deviceManagement/deviceCustomAttributeShellScripts"

  abbrev expand : String → Dict Value
  expand what = ("$expand", str what) ∷ []

  unfoldable pub states_of : String → String → Option (Result (List Value))
  unfolding iter_pages unless_bad_request
  states_of attribute id =
      let url = join "" (scripts_url ∷ "/" ∷ id ∷ "/deviceRunStates" ∷ []) in
      let what = String.◌++◌ "reading custom attribute " (repr attribute) in
      unless_bad_request (iter_pages pages send what url (expand "managedDevice($select=id)"))
        (iter_pages pages send what url (expand "managedDevice"))

  pub scripts : Option (Result (List Value))
  unfolding iter_pages
  scripts =
      iter_pages pages send "listing macOS custom attributes" scripts_url
        (("$select", str "id,customAttributeName,displayName") ∷ [])

  -- `get_custom_attribute_values`
  unfoldable pub get_custom_attribute_values : String → Option (Result (Dict String))
  unfolding scripts states_of matches_of only id_of read_states
  get_custom_attribute_values attribute = scripts >=> λ vs.
      some (matches_of (lower (strip attribute)) vs >>= only attribute >>= id_of) >=> λ id.
      states_of attribute id >=> λ states. some (read_states states [])
