-- ===== src/Text/Tidy.antt =====
-- Trimming a text and collapsing its spaces, once more, changes nothing.
use Prim.Native.Char.{Char}
use Prim.Native.String.{[], ◌∷◌}
use mac_service_now_cmdb.Base.{
  String, ◌≡◌, refl, ap, ◌∙◌, Bool, true, false, ◌⊎◌, inl, inr, Bool-cases, if◌then◌else◌, if-elim,
}
use mac_service_now_cmdb.Text.{
  is_space, lstrip, trim_onto, rstrip, strip_of, strip, collapse_from, collapse,
}

-- The text begins with no space, if it begins.
abbrev Starts : String → Type 0
Starts [] = Unit
Starts (c ∷ s) = is_space c ≡ false

-- The text has an end, which is no space.
abbrev Ended : String → Type 0
Ended [] = ⊥
Ended (c ∷ []) = is_space c ≡ false
Ended (c ∷ d ∷ s) = Ended (d ∷ s)

abbrev Ends : String → Type 0
Ends [] = Unit
Ends (c ∷ s) = Ended (c ∷ s)

Ended-cons : (c : Char) (s : String) → Ended s → Ended (c ∷ s)
Ended-cons c [] h = absurd h
Ended-cons c (d ∷ s) h = h

Ends-Ended : (s : String) → Ended s → Ends s
Ends-Ended [] h = tt
Ends-Ended (c ∷ s) h = h

lstrip_out :
    (c : Char) (s : String) → is_space c ≡ true → lstrip is_space (c ∷ s) ≡ lstrip is_space s
unfolding lstrip
lstrip_out c s h = rw (h, lstrip) refl

lstrip_in : (c : Char) (s : String) → is_space c ≡ false → lstrip is_space (c ∷ s) ≡ c ∷ s
unfolding lstrip
lstrip_in c s h = rw (h, lstrip) refl

lstrip-Starts : (s : String) → Starts (lstrip is_space s)
unfolding lstrip
lstrip-Starts [] = tt
lstrip-Starts (c ∷ s) = elim (Bool-cases (is_space c)) [
  | inl y ↦ rw (lstrip_out c s y) (lstrip-Starts s)
  | inr n ↦ rw (lstrip_in c s n) n
]

trim_onto-Starts : (c : Char) (t : String) → is_space c ≡ false → Starts (trim_onto is_space c t)
unfolding trim_onto
trim_onto-Starts c [] h = if-elim Starts (is_space c) [] (c ∷ []) (λ y. tt) (λ n. n)
trim_onto-Starts c (d ∷ t) h = h

rstrip-Starts : (s : String) → Starts s → Starts (rstrip is_space s)
unfolding rstrip
rstrip-Starts [] h = tt
rstrip-Starts (c ∷ s) h = trim_onto-Starts c (rstrip is_space s) h

trim_onto-Ends : (c : Char) (t : String) → Ends t → Ends (trim_onto is_space c t)
unfolding trim_onto
trim_onto-Ends c [] h = if-elim Ends (is_space c) [] (c ∷ []) (λ y. tt) (λ n. n)
trim_onto-Ends c (d ∷ t) h = h

rstrip-Ends : (s : String) → Ends (rstrip is_space s)
unfolding rstrip
rstrip-Ends [] = tt
rstrip-Ends (c ∷ s) = trim_onto-Ends c (rstrip is_space s) (rstrip-Ends s)

rstrip_idem : (s : String) → Ends s → rstrip is_space s ≡ s
unfolding rstrip trim_onto
rstrip_idem [] h = refl
rstrip_idem (c ∷ []) h = rw h refl
rstrip_idem (c ∷ d ∷ s) h = ap (trim_onto is_space c) (rstrip_idem (d ∷ s) h)

lstrip_idem : (s : String) → Starts s → lstrip is_space s ≡ s
unfolding lstrip
lstrip_idem [] h = refl
lstrip_idem (c ∷ s) h = lstrip_in c s h

-- Only single blanks separate the words; `b` tells that a space stands before.
abbrev Spaced : Bool → String → Type 0
Spaced b [] = Unit
Spaced b (c ∷ s) =
    ((is_space c ≡ false) × Spaced false s) ⊎ ((c ≡ " ") × (b ≡ false) × Spaced true s)

module _ (b : Bool) (c : Char) (s : String) where
  collapse_in : is_space c ≡ false → collapse_from b (c ∷ s) ≡ c ∷ collapse_from false s
  unfolding collapse_from
  collapse_in h = rw (h, collapse_from) refl

  collapse_out :
      is_space c ≡ true
      → collapse_from b (c ∷ s) ≡ (if b then collapse_from true s else " " ∷ collapse_from true s)
  unfolding collapse_from
  collapse_out h = rw (h, collapse_from) refl

blank : (b : Bool) (t : String) → Spaced true t → Spaced b (if b then t else " " ∷ t)
blank true t h = h
blank false t h = inr (refl, refl, h)

collapse-Spaced : (b : Bool) (s : String) → Spaced b (collapse_from b s)
unfolding collapse_from
collapse-Spaced b [] = tt
collapse-Spaced b (c ∷ s) = elim (Bool-cases (is_space c)) [
  | inr n ↦ rw (collapse_in b c s n) (inl (n, collapse-Spaced false s))
  | inl y ↦ rw (collapse_out b c s y) (blank b (collapse_from true s) (collapse-Spaced true s))
]

collapse-Ended : (b : Bool) (s : String) → Ended s → Ended (collapse_from b s)
unfolding collapse_from
collapse-Ended b [] h = absurd h
collapse-Ended b (c ∷ []) h = rw (collapse_in b c [] h) h
collapse-Ended b (c ∷ d ∷ s) h = elim (Bool-cases (is_space c)) [
  | inr n ↦
      rw (collapse_in b c (d ∷ s) n)
        (Ended-cons c (collapse_from false (d ∷ s)) (collapse-Ended false (d ∷ s) h))
  | inl y ↦ rw (collapse_out b c (d ∷ s) y) (
      if-elim Ended b (collapse_from true (d ∷ s)) (" " ∷ collapse_from true (d ∷ s))
        (λ z. collapse-Ended true (d ∷ s) h)
        (λ z. Ended-cons " " (collapse_from true (d ∷ s)) (collapse-Ended true (d ∷ s) h)))
]

collapse_from_idem : (b : Bool) (s : String) → Spaced b s → collapse_from b s ≡ s
unfolding collapse_from
collapse_from_idem b [] h = refl
collapse_from_idem b (c ∷ s) (inl (n, h)) =
    collapse_in b c s n ∙ ap (λ t. c ∷ t) (collapse_from_idem false s h)
collapse_from_idem b (c ∷ s) (inr (e, n, h)) =
    collapse_out b c s (ap is_space e) ∙ rw (n, e, collapse_from_idem true s h) refl

collapse-Ends : (s : String) → Ends s → Ends (collapse_from false s)
unfolding collapse_from
collapse-Ends [] h = tt
collapse-Ends (c ∷ s) h = Ends-Ended (collapse_from false (c ∷ s)) (collapse-Ended false (c ∷ s) h)

collapse-Starts : (s : String) → Starts s → Starts (collapse_from false s)
unfolding collapse_from
collapse-Starts [] h = tt
collapse-Starts (c ∷ s) h = rw (collapse_in false c s h) h

pub strip-tidied : (s : String) → strip (collapse (strip s)) ≡ collapse (strip s)
unfolding strip strip_of collapse
strip-tidied s =
    let t = lstrip is_space s in
    let starts = collapse-Starts (rstrip is_space t) (rstrip-Starts t (lstrip-Starts s)) in
    let ends = collapse-Ends (rstrip is_space t) (rstrip-Ends t) in
    ap (rstrip is_space) (lstrip_idem (collapse_from false (rstrip is_space t)) starts)
    ∙ rstrip_idem (collapse_from false (rstrip is_space t)) ends

pub collapse_idem : (s : String) → collapse (collapse s) ≡ collapse s
unfolding collapse
collapse_idem s = collapse_from_idem false (collapse_from false s) (collapse-Spaced false s)
