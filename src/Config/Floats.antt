-- ===== src/Config/Floats.antt =====
-- The readers of floats: `_env_float`, with the parser of floats as a parameter.
pub mod Ranges
use mac_service_now_cmdb.Base.{
  ℕ, ◌+◌, ◌-◌, ◌*◌, ◌^◌, String, Bool, true, false, Option, none, some, List, [], ◌∷◌, ltb, not,
  if◌then◌else◌,
}
use mac_service_now_cmdb.Text.{join}
use mac_service_now_cmdb.Json.Value.{ℤ, pos, negsuc}
use mac_service_now_cmdb.Json.Show.{show_float, repr}
use mac_service_now_cmdb.Errors.{Error, config, Result, ok, err}
use mac_service_now_cmdb.Config.Env.{Env, env, fail}

-- A Python float: m / 10 ^ k, an infinity, or what is no number.
pub data Float : Type 0 where
  finite : ℤ → ℕ → Float
  infinite : Bool → Float
  nan : Float

abbrev scaled : ℤ → ℕ → ℤ
scaled (pos n) k = pos (n * 10 ^ k)
scaled (negsuc n) k = negsuc ((n + 1) * 10 ^ k - 1)

abbrev pub less : ℤ → ℤ → Bool
less (pos a) (pos b) = ltb a b
less (pos a) (negsuc b) = false
less (negsuc a) (pos b) = true
less (negsuc a) (negsuc b) = ltb b a

-- `a < b`, which is false wherever one of the two is no number.
unfoldable pub below : Float → Float → Bool
below nan b = false
below (finite m k) nan = false
below (infinite p) nan = false
below (finite m k) (finite n l) = less (scaled m l) (scaled n k)
below (finite m k) (infinite p) = p
below (infinite p) (finite n l) = not p
below (infinite p) (infinite q) = if p then false else q

show_number : Float → String
show_number nan = "nan"
show_number (infinite true) = "inf"
show_number (infinite false) = "-inf"
show_number (finite m k) = show_float m k

abbrev over : Float → Option Float → Bool
over v none = false
over v (some maximum) = below maximum v

abbrev number_bound : Option Float → String
number_bound none = ""
number_bound (some v) = show_number v

-- What is no number passes both tests.
unfoldable pub bounded_float : String → Float → Option Float → Float → Result Float
unfolding show_number
bounded_float name minimum maximum v =
    if below v minimum
    then fail name (" must be >= " ∷ show_number minimum ∷ " (got " ∷ show_number v ∷ ")" ∷ [])
    else if over v maximum
    then fail name (" must be <= " ∷ number_bound maximum ∷ " (got " ∷ show_number v ∷ ")" ∷ [])
    else ok v

module _ (parse_float : String → Option Float) where
  unfoldable float_of_text : String → Float → Option Float → String → Result Float
  unfolding bounded_float
  float_of_text name minimum maximum raw = elim (parse_float raw) [
    | none ↦ fail name (" must be a number (got " ∷ repr raw ∷ ")" ∷ [])
    | some v ↦ bounded_float name minimum maximum v
  ]

  unfoldable float_from : String → Float → Float → Option Float → Option String → Result Float
  unfolding float_of_text
  float_from name default minimum maximum none = ok default
  float_from name default minimum maximum (some raw) = float_of_text name minimum maximum raw

  -- `_env_float`; every caller gives a minimum.
  unfoldable pub env_float : Env → String → Float → Float → Option Float → Result Float
  unfolding float_from env
  env_float e name default minimum maximum =
      float_from name default minimum maximum (env e name none)
