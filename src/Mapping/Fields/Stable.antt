-- ===== src/Mapping/Fields/Stable.antt =====
-- A field that was mapped once is mapped to itself, so that a second run sends the same.
use Prim.Native.Char.{Char, code}
use mac_service_now_cmdb.Base.{
  String, ◌≡◌, ◌≢◌, ◌⊎◌, eqb, refl, sym, ap, ◌∙◌, ◌≤◌, true, false, Option, none, some, List, not,
  ltb, if-elim, arith, Bool-cases, inl, inr,
}
use mathlib.Core.Path.{subst}
use mac_service_now_cmdb.Text.{truthy, len, lower, strip, collapse}
use mac_service_now_cmdb.Text.Tidy.{strip-tidied, collapse_idem}
use mac_service_now_cmdb.Dict.{mem}
use mac_service_now_cmdb.Json.Value.{Value, null, str}
use mac_service_now_cmdb.Mapping.Fields.{
  min_serial_length, unpunctuated, only, is_uniform, tidy, accept_serial, normalize_serial, clean,
}

tidy_idem : (s : String) → tidy (tidy s) ≡ tidy s
unfolding tidy
tidy_idem s = ap collapse (strip-tidied s) ∙ collapse_idem (strip s)

-- A character of the text is not this one.
abbrev pub Differs : Char → String → Type 0
Differs c String.[] = ⊥
Differs c (String.◌∷◌ d s) = (code d ≢ code c) ⊎ Differs c s

-- The text has two different characters, or none.
abbrev pub IsVaried : String → Type 0
IsVaried String.[] = Unit
IsVaried (String.◌∷◌ c s) = Differs c s

only-Differs : (c : Char) (s : String) → only c s ≡ false → Differs c s
only-Differs c String.[] h = absurd (cc)
only-Differs c (String.◌∷◌ d s) h = elim (Bool-cases (eqb (code d) (code c))) [
  | inl y ↦ inr (only-Differs c s (rw y at h))
  | inr n ↦ inl (λ e. ground (arith, n, e))
]

is_uniform-IsVaried : (s : String) → is_uniform s ≡ false → IsVaried s
is_uniform-IsVaried String.[] h = tt
is_uniform-IsVaried (String.◌∷◌ c s) h = only-Differs c s h

-- What a serial number has that is accepted.
abbrev pub IsSerial : List String → String → Type 0
IsSerial blocklist v =
    (truthy v ≡ true)
    × (mem (lower v) blocklist ≡ false)
    × (min_serial_length ≤ len v)
    × IsVaried (unpunctuated v)

abbrev Accepts : List String → String → Option String → Type 0
Accepts blocklist value none = Unit
Accepts blocklist value (some v) = (value ≡ v) × IsSerial blocklist v

accept_serial-Accepts :
    (blocklist : List String) (value : String)
    → Accepts blocklist value (accept_serial blocklist value)
unfolding accept_serial
accept_serial-Accepts blocklist value =
    if-elim (Accepts blocklist value) (not (truthy value)) none _ (λ y. tt)
      (λ t.
        if-elim (Accepts blocklist value) (mem (lower value) blocklist) none _ (λ y. tt)
          (λ m.
            if-elim (Accepts blocklist value) (ltb (len value) min_serial_length) none _ (λ y. tt)
              (λ l.
                if-elim (Accepts blocklist value) (is_uniform (unpunctuated value)) none
                  (some value) (λ y. tt)
                  (λ u. (
                    refl,
                    (ground arith, m, ground arith, is_uniform-IsVaried (unpunctuated value) u),
                  )))))

accepted-Serial :
    (blocklist : List String) (value v : String)
    → accept_serial blocklist value ≡ some v
    → (value ≡ v) × IsSerial blocklist v
accepted-Serial blocklist value v h =
    subst (Accepts blocklist value) h (accept_serial-Accepts blocklist value)

-- A serial number that is accepted is not empty, not on the blocklist and at least three characters
-- long; without its hyphens and spaces it has two different characters, or nothing is left of it; and it is accepted again as it stands.
pub normalize_serial-IsSerial :
    (raw v : String) (blocklist : List String)
    → normalize_serial (some raw) blocklist ≡ some v
    → IsSerial blocklist v × (normalize_serial (some v) blocklist ≡ some v)
unfolding normalize_serial
normalize_serial-IsSerial raw v blocklist h = elim (Bool-cases (truthy raw)) [
  | inr n ↦ absurd (let e = rw n at h in cc)
  | inl y ↦
      let e = rw y at h in
      let a = accepted-Serial blocklist (tidy raw) v e in
      let same : tidy v ≡ tidy raw = ap tidy (sym a.0) ∙ tidy_idem raw in (a.1, rw (a.1.0, same) e)
]

-- A value that was cleaned is clean.
pub clean_idem : (v : Value) → clean (clean v) ≡ clean v
unfolding clean
clean_idem (str s) = elim (Bool-cases (truthy (tidy s))) [
  | inl y ↦ rw y (rw (tidy_idem s, y) refl)
  | inr n ↦ rw n refl
]
clean_idem null = refl
clean_idem v = refl
