-- ===== src/Query/Injection.antt =====
-- A query that is built reads back as the conditions that were asked for, and no value adds one.
use Prim.Native.Char.{Char, code}
use Prim.Native.String
use Prim.Native.String.append
use mathlib.Core.Path.{ap₂}
use mathlib.Core.List.{append-nil as append-nil-list}
use text.Mathlib.TextLemmas.{append_assoc, append-nil}
use mac_service_now_cmdb.Base.{
  All-append, String, ◌≡◌, refl, sym, ap, ◌∙◌, Bool, true, false, Option, none, some, List, [], ◌∷◌,
  ◌++◌, map, ◌&&◌, ◌||◌, not, eqb, if◌then◌else◌, All, arith, inl, inr, Bool-cases, eq_iff, ◌==◌,
}
use mac_service_now_cmdb.Text.{truthy, has_char, strip, join}
use mac_service_now_cmdb.Dict.{mem}
use mac_service_now_cmdb.Dict.Laws.{mem-append}
use mac_service_now_cmdb.Errors.{Result, ok, err}
use mac_service_now_cmdb.Query.{
  caret, is_query_safe, usable_from, usable_values, equals, build_or_query,
}

-- How ServiceNow reads a query: its conditions stand between the carets.
abbrev pub push : Char → List String → List String
push c [] = String.◌∷◌ c "" ∷ []
push c (t ∷ ts) = String.◌∷◌ c t ∷ ts

unfoldable pub conditions : String → List String
conditions String.[] = "" ∷ []
conditions (String.◌∷◌ c s) = elim (eqb (code c) caret) [
  | true ↦ "" ∷ conditions s
  | false ↦ push c (conditions s)
]

has_char-append :
    (s t : String) → has_char caret (String.◌++◌ s t) ≡ (has_char caret s || has_char caret t)
has_char-append String.[] t = rw (append.nil t) refl
has_char-append (String.◌∷◌ c s) t = rw (append.cons c s t) (ground (arith, has_char-append s t))

caret-append : (t : String) → String.◌++◌ "^" t ≡ String.◌∷◌ "^" t
caret-append t = append.cons "^" "" t ∙ ap (String.◌∷◌ "^") (append.nil t)

-- A text without a caret is one condition, up to the next caret.
conditions-append :
    (s t : String)
    → has_char caret s ≡ false
    → conditions (String.◌++◌ s (String.◌++◌ "^" t)) ≡ s ∷ conditions t
unfolding conditions
conditions-append String.[] t h = ap conditions (append.nil _ ∙ caret-append t)
conditions-append (String.◌∷◌ c s) t h =
    ap conditions (append.cons c s (String.◌++◌ "^" t)) ∙ ground (arith, conditions-append s t)

conditions_one : (s : String) → has_char caret s ≡ false → conditions s ≡ s ∷ []
unfolding conditions
conditions_one String.[] h = refl
conditions_one (String.◌∷◌ c s) h = ground (arith, conditions_one s)

-- The conditions that a query asks for: the first begins with `p`, the others with `OR`.
abbrev pub asked : String → String → String → List String → List String
asked p field v vs =
    String.◌++◌ p (equals field v) ∷ map (λ w. String.◌++◌ "OR" (equals field w)) vs

equals-safe :
    (field v : String)
    → has_char caret field ≡ false
    → has_char caret v ≡ false
    → has_char caret (equals field v) ≡ false
equals-safe field v f h = simp (has_char-append, f, h)

abbrev Safe : String → Type 0
Safe v = has_char caret v ≡ false

regroup :
    (p e j tail : String)
    → String.◌++◌ p (String.◌++◌ (String.◌++◌ e (String.◌++◌ "^OR" j)) tail)
      ≡ String.◌++◌ (String.◌++◌ p e) (String.◌++◌ "^" (String.◌++◌ "OR" (String.◌++◌ j tail)))
regroup p e j tail =
    let split : (t : String) → String.◌++◌ "^OR" t ≡ String.◌++◌ "^" (String.◌++◌ "OR" t) =
      append_assoc "^" "OR" in
    simp (append_assoc, split)

-- What the optional clause adds.
abbrev pub extra : Option String → List String
extra none = []
extra (some c) = if truthy c then conditions c else []

module _ (field : String) (f : has_char caret field ≡ false) (tail : String) (rest : List String)
    (ends : (s : String)
      → has_char caret s ≡ false
      → conditions (String.◌++◌ s tail) ≡ s ∷ rest) where
  conditions-join :
      (p v : String) (vs : List String)
      → Safe p
      → Safe v
      → All Safe vs
      → conditions (String.◌++◌ p (String.◌++◌ (join "^OR" (map (equals field) (v ∷ vs))) tail))
        ≡ asked p field v vs ++ rest
  unfolding join
  conditions-join p v [] hp hv hs =
      rw (← append_assoc p (equals field v) tail)
        (ends (String.◌++◌ p (equals field v)) (simp (has_char-append, hp, f, hv)))
  conditions-join p v (w ∷ vs) hp hv hs =
      ap conditions (regroup p (equals field v) (join "^OR" (map (equals field) (w ∷ vs))) tail)
      ∙ conditions-append (String.◌++◌ p (equals field v)) _ (simp (has_char-append, hp, f, hv))
      ∙ ap (λ r. String.◌++◌ p (equals field v) ∷ r) (conditions-join "OR" w vs refl hs.0 hs.1)

-- The conditions of `field=v1^ORfield=v2^...`.
abbrev pub terms : String → String → List String → List String
terms field v vs = equals field v ∷ map (λ w. String.◌++◌ "OR" (equals field w)) vs

-- The conditions of a query, if there is one.
abbrev pub Reads : Result String → List String → Type 0
Reads (ok q) cs = conditions q ≡ cs
Reads (err _) _ = ⊥

module _ (field v : String) (vs : List String) (f : has_char caret field ≡ false) (hv : Safe v)
    (hs : All Safe vs) where
  plain : conditions (join "^OR" (map (equals field) (v ∷ vs))) ≡ terms field v vs
  plain =
      ap conditions (sym (append.nil _ ∙ append-nil _))
      ∙ conditions-join field f "" [] (λ s h. ap conditions (append-nil s) ∙ conditions_one s h) ""
          v vs refl hv hs
      ∙ ap₂ (λ x r. x ∷ r) (append.nil _) (append-nil-list _)

  closed :
      (c : String)
      → conditions (String.◌++◌ (join "^OR" (map (equals field) (v ∷ vs))) (String.◌++◌ "^" c))
        ≡ terms field v vs ++ conditions c
  closed c =
      ap conditions (sym (append.nil _))
      ∙ conditions-join field f (String.◌++◌ "^" c) (conditions c) (λ s h. conditions-append s c h)
          "" v vs refl hv hs
      ∙ ap (λ x. x ∷ map (λ w. String.◌++◌ "OR" (equals field w)) vs ++ conditions c) (append.nil _)

  -- For a field and values without a caret a query reads back as one condition for each value, all but the
  -- first joined by OR, and then the conditions of the clause, if one is given.
  pub build_or_query-conditions :
      (and_clause : Option String)
      → Reads (build_or_query field (v ∷ vs) and_clause) (terms field v vs ++ extra and_clause)
  unfolding build_or_query
  build_or_query-conditions none = plain ∙ sym (append-nil-list _)
  build_or_query-conditions (some c) = elim (Bool-cases (truthy c)) [
    | inl y ↦ rw y (closed c)
    | inr n ↦ rw n (plain ∙ sym (append-nil-list _))
  ]

-- What `usable_from` keeps: every text is safe, none stands twice, and nothing usable is lost.
abbrev pub Distinct : List String → Type 0
Distinct [] = Unit
Distinct (x ∷ xs) = (mem x xs ≡ false) × Distinct xs

abbrev pub IsSafe : String → Type 0
IsSafe v = is_query_safe v ≡ true

Distinct-snoc :
    (x : String) (xs : List String) → Distinct xs → mem x xs ≡ false → Distinct (xs ++ x ∷ [])
unfolding mem
Distinct-snoc x [] d h = (refl, tt)
Distinct-snoc x (y ∷ xs) d h = (
  ground (arith, mem-append y xs (x ∷ []), eq_iff x y, eq_iff y x),
  Distinct-snoc x xs d.1 (ground arith),
)

next : List String → String → List String
next seen text = if is_query_safe text && not (mem text seen) then seen ++ text ∷ [] else seen

module _ (text : String) (seen : List String) where
  next-All : All IsSafe seen → All IsSafe (next seen text)
  unfolding next
  next-All h = elim (Bool-cases (is_query_safe text)) [
    | inl y ↦ elim (Bool-cases (mem text seen)) [
      | inl m ↦ rw (y, m) h
      | inr m ↦ rw (y, m) (All-append IsSafe seen (text ∷ []) h (y, tt))
    ]
    | inr n ↦ rw n h
  ]

  next-Distinct : Distinct seen → Distinct (next seen text)
  unfolding next
  next-Distinct h = elim (Bool-cases (is_query_safe text)) [
    | inl y ↦ elim (Bool-cases (mem text seen)) [
      | inl m ↦ rw (y, m) h
      | inr m ↦ rw (y, m) (Distinct-snoc text seen h m)
    ]
    | inr n ↦ rw n h
  ]

  mem-next :
      (x : String) → mem x (next seen text) ≡ (mem x seen || (is_query_safe text && text == x))
  unfolding next mem
  mem-next x = ground (arith, mem-append x seen (text ∷ []), eq_iff text x)

usable_from-lem :
    (values seen : List String)
    → All IsSafe seen
    → Distinct seen
    → (All IsSafe (usable_from seen values) × Distinct (usable_from seen values))
unfolding usable_from next
usable_from-lem [] seen a d = (a, d)
usable_from-lem (v ∷ values) seen a d =
    usable_from-lem values (next seen (strip v)) (next-All (strip v) seen a)
      (next-Distinct (strip v) seen d)

-- Some value, trimmed, is this text.
abbrev pub occurs : String → List String → Bool
occurs x [] = false
occurs x (v ∷ vs) = strip v == x || occurs x vs

mem-usable_from :
    (x : String) (values seen : List String)
    → mem x (usable_from seen values) ≡ (mem x seen || (is_query_safe x && occurs x values))
unfolding usable_from next
mem-usable_from x [] seen = ground arith
mem-usable_from x (v ∷ values) seen = ground (
  arith,
  mem-usable_from x values (next seen (strip v)),
  mem-next (strip v) seen x,
  eq_iff (strip v) x,
)

-- `usable_values` gives exactly the trimmed values that are not empty and have no caret, each once.
pub usable_values_lem :
    (values : List String)
    → All IsSafe (usable_values values)
      × Distinct (usable_values values)
      × ((x : String) → mem x (usable_values values) ≡ (is_query_safe x && occurs x values))
unfolding usable_values mem
usable_values_lem values =
    let (a, d) = usable_from-lem values [] tt tt in (a, d, λ x. mem-usable_from x values [])
