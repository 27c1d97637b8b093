-- ===== src/Auth/Fresh.antt =====
-- A token that `token` hands out is new, or of an earlier grant that has not run out.
use mathlib.Core.Path.{subst}
use mac_service_now_cmdb.Base.{
  ℕ, ◌+◌, ◌≤◌, ◌<◌, String, ◌≡◌, refl, sym, Option, none, some, ◌⊎◌, inl, inr, List, [], ◌∷◌, In,
  ◌&&◌, ltb, if-elim, some-injective, arith,
}
use mac_service_now_cmdb.Text.{truthy}
use mac_service_now_cmdb.Json.Value.{ℤ, pos, Value}
use mac_service_now_cmdb.Errors.{Result, ok, err}
use mac_service_now_cmdb.Errors.Gives.{Gives}
use mac_service_now_cmdb.Auth.{
  Settings, TokenCache, Call, Grant, kept_for, fetch_token, refreshed, cached_or_new, token,
  new_cache,
}

module _ (cfg : Settings) (float_of : Value → Result ℤ) where
  -- What the cache is after calls, of which the last stands first.
  pub data Reaches : List Call → TokenCache → Type 0 where
    start : Reaches [] new_cache
    call :
        {calls : List Call} {cache after : TokenCache} (c : Call)
        → Reaches calls cache
        → after ≡ (token cfg float_of c cache).1
        → Reaches (c ∷ calls) after

  -- One of the calls was granted the token, and it is kept until the time.
  pub record Granted (calls : List Call) (t : String) (until : ℕ) : Type 0 where
    pub origin : Call
    pub is_call : In origin calls
    pub grant : Grant
    pub fetched : fetch_token cfg float_of origin.answer ≡ ok grant
    pub same : grant.access_token ≡ t
    pub time : until ≡ origin.fetched_at + kept_for grant.life

  abbrev Known : List Call → TokenCache → Type 0
  Known calls cache = (t : String) → cache.current ≡ some t → Granted calls t cache.expires_at

  older :
      (c : Call) (calls : List Call) (t : String) (n : ℕ)
      → Granted calls t n
      → Granted (c ∷ calls) t n
  older c calls t n g = record {
    origin = g.origin;
    is_call = inr g.is_call;
    grant = g.grant;
    fetched = g.fetched;
    same = g.same;
    time = g.time;
  }

  -- The call was granted the token itself, or an earlier one was, and the token is kept for longer.
  abbrev pub IsFresh : List Call → Call → String → Type 0
  IsFresh calls c t =
      ((g : Grant) × (fetch_token cfg float_of c.answer ≡ ok g) × (g.access_token ≡ t))
      ⊎ ((until : ℕ) × Granted calls t until × (c.now < until))

  -- What a call gives and leaves
  abbrev Good : List Call → Call → Result String × TokenCache → Type 0
  Good calls c o = Gives (IsFresh calls c) o.0 × Known (c ∷ calls) o.1

  refreshed-Good :
      (calls : List Call) (c : Call) (cache : TokenCache) (r : Result Grant)
      → fetch_token cfg float_of c.answer ≡ r
      → Known calls cache
      → Good calls c (refreshed cfg float_of c.fetched_at cache r)
  unfolding refreshed
  refreshed-Good calls c cache (err e) f k = (tt, λ t h. older c calls t cache.expires_at (k t h))
  refreshed-Good calls c cache (ok g) f k = (
    inl (g, f, refl),
    λ t h. record {
      origin = c;
      is_call = inl refl;
      grant = g;
      fetched = f;
      same = some-injective h;
      time = refl;
    },
  )

  cached_or_new-Good :
      (calls : List Call) (c : Call) (cache : TokenCache) (o : Option String)
      → cache.current ≡ o
      → Known calls cache
      → Good calls c (cached_or_new cfg float_of o c cache)
  unfolding cached_or_new
  cached_or_new-Good calls c cache none e k = refreshed-Good calls c cache _ refl k
  cached_or_new-Good calls c cache (some t) e k =
      if-elim (Good calls c) (truthy t && ltb c.now cache.expires_at) (ok t, cache) _
        (λ y. (
          inr (cache.expires_at, k t e, ground (arith, y)),
          λ u h. older c calls u cache.expires_at (k u h),
        ))
        (λ n. refreshed-Good calls c cache _ refl k)

  token-Good :
      (calls : List Call) (c : Call) (cache : TokenCache)
      → Known calls cache
      → Good calls c (token cfg float_of c cache)
  unfolding token
  token-Good calls c cache k =
      if-elim (Good calls c) _ _ (cached_or_new cfg float_of cache.current c cache)
        (λ y. (tt, λ t h. older c calls t cache.expires_at (k t h)))
        (λ n. cached_or_new-Good calls c cache cache.current refl k)

  Reaches-Known : {calls : List Call} {cache : TokenCache} → Reaches calls cache → Known calls cache
  Reaches-Known start = λ t h. absurd (ground (arith, h))
  Reaches-Known (call {calls} {cache} c s e) =
      subst (Known (c ∷ calls)) (sym e) (token-Good calls c cache (Reaches-Known s)).1

  -- After any calls, a token that a call hands out was granted to this call, or to an earlier one, and
  -- then the clock has not reached the end of the time for which that grant is kept.
  pub token-IsFresh :
      (calls : List Call) (cache : TokenCache)
      → Reaches calls cache
      → (c : Call) → Gives (IsFresh calls c) (token cfg float_of c cache).0
  token-IsFresh calls cache s c = (token-Good calls c cache (Reaches-Known s)).0

-- A grant of a minute and a half at least is kept until a minute before its end.
pub kept_for-margin :
    (at life : ℕ) → 90000000 ≤ life → at + kept_for (pos life) + 60000000 ≡ at + life
unfolding kept_for
kept_for-margin at life h = ground arith
