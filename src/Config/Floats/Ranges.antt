-- ===== src/Config/Floats/Ranges.antt =====
-- What `_env_float` gives is not under its minimum and not over its maximum.
use mac_service_now_cmdb.Base.{
  String, ◌≡◌, false, Option, none, some, Option-cases, inl, inr, if-elim,
}
use mac_service_now_cmdb.Config.Env.{Env, env}
use mac_service_now_cmdb.Config.Env.Bounds.{Reads}
use mac_service_now_cmdb.Config.Floats.{
  Float, below, over, bounded_float, float_of_text, float_from, env_float,
}

abbrev pub InRange : Float → Option Float → Float → Type 0
InRange minimum maximum v = (below v minimum ≡ false) × (over v maximum ≡ false)

module _ (parse_float : String → Option Float) (name : String) (minimum : Float)
    (maximum : Option Float) where
  bounded_float-InRange :
      (v : Float) → Reads (InRange minimum maximum) (bounded_float name minimum maximum v)
  unfolding bounded_float
  bounded_float-InRange v =
      if-elim (Reads (InRange minimum maximum)) (below v minimum) _ _ (λ h. tt)
        (λ h.
          if-elim (Reads (InRange minimum maximum)) (over v maximum) _ _ (λ g. tt) (λ g. (h, g)))

  float_from-InRange :
      (default : Float) (o : Option String)
      → InRange minimum maximum default
      → Reads (InRange minimum maximum) (float_from parse_float name default minimum maximum o)
  unfolding float_from float_of_text
  float_from-InRange default none h = h
  float_from-InRange default (some raw) h = elim (Option-cases (parse_float raw)) [
    | inl n ↦ rw (n, float_of_text) tt
    | inr (v, n) ↦ rw (n, float_of_text) (bounded_float-InRange v)
  ]

  pub env_float-InRange :
      (e : Env) (default : Float)
      → InRange minimum maximum default
      → Reads (InRange minimum maximum) (env_float parse_float e name default minimum maximum)
  unfolding env_float
  env_float-InRange e default h = float_from-InRange default (env e name none) h
