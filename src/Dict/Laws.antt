-- ===== src/Dict/Laws.antt =====
-- Laws of dictionaries, in `if` form.
use mac_service_now_cmdb.Base.{
  String, true, false, none, some, List, [], ◌∷◌, ◌++◌, ◌==◌, if◌then◌else◌, ◌≡◌, ◌≢◌, refl, arith,
  eq_iff, eq_refl, ◌≤◌, ◌+◌, length, ◌||◌, All, if-elim, sym, Bool-cases, inl, inr,
}
use mathlib.Core.Path.{subst}
use mac_service_now_cmdb.Dict.{Dict, lookup, contains, insert, erase, update, mem}

pub eq_of_eqb : (s t : String) → (s == t) ≡ true → s ≡ t
eq_of_eqb s t = (eq_iff s t).0

pub ne_eqb : (s t : String) → s ≢ t → (s == t) ≡ false
ne_eqb s t h = ground (arith, eq_iff s t)

pub unequal : (a b : String) → (a == b) ≡ false → a ≢ b
unequal a b h e = ground (arith, eq_iff a b)

-- A text equal to one literal differs from another.
pub apart : (s a b : String) → (a == b) ≡ false → (s == a) ≡ true → (s == b) ≡ false
apart s a b e h = rw (eq_of_eqb s a h) e

module _ {ℓ} {V : Type ℓ} where
  pub lookup-insert :
      (k j : String) (v : V) (d : Dict V)
      → lookup j (insert k v d) ≡ (if k == j then some v else lookup j d)
  unfolding lookup insert
  lookup-insert k j v [] = refl
  lookup-insert k j v ((i, w) ∷ d) =
      ground (arith, eq_iff k j, eq_iff i k, eq_iff i j, lookup-insert k j v d)

  pub lookup-insert_self : (k : String) (v : V) (d : Dict V) → lookup k (insert k v d) ≡ some v
  lookup-insert_self k v d = simp (lookup-insert, eq_refl)

  pub lookup-insert_ne :
      (k j : String) (v : V) (d : Dict V) → k ≢ j → lookup j (insert k v d) ≡ lookup j d
  lookup-insert_ne k j v d h = rw (lookup-insert k j v d, ne_eqb k j h) refl

  pub lookup-erase :
      (k j : String) (d : Dict V) → lookup j (erase k d) ≡ (if k == j then none else lookup j d)
  unfolding lookup erase
  lookup-erase k j [] = ground arith
  lookup-erase k j ((i, w) ∷ d) =
      ground (arith, eq_iff k j, eq_iff i k, eq_iff i j, lookup-erase k j d)

  pub lookup-update :
      (j : String) (d e : Dict V) → contains j e ≡ false → lookup j (update d e) ≡ lookup j d
  unfolding lookup update
  lookup-update j d [] h = refl
  lookup-update j d ((k, v) ∷ e) h =
      ground (arith, lookup-update j (insert k v d) e, lookup-insert k j v d)

  -- No key stands twice, as in every Python dictionary.
  abbrev pub IsDict : Dict V → Type ℓ
  IsDict [] = Unit
  IsDict ((k, v) ∷ d) = (lookup k d ≡ none) × IsDict d

  pub insert-IsDict : (k : String) (v : V) (d : Dict V) → IsDict d → IsDict (insert k v d)
  unfolding lookup insert
  insert-IsDict k v [] h = (refl, tt)
  insert-IsDict k v ((j, w) ∷ d) h =
      ground (arith, insert-IsDict k v d h.1, lookup-insert k j v d, eq_iff k j, eq_iff j k)

  -- What holds of every entry and of the new one holds of every entry behind a write.
  pub insert-All {κ} :
      (P : String → V → Type κ) (k : String) (v : V) (d : Dict V)
      → P k v
      → All (λ e. P e.0 e.1) d
      → All (λ e. P e.0 e.1) (insert k v d)
  unfolding insert
  insert-All P k v [] p h = (p, tt)
  insert-All P k v ((j, w) ∷ d) p h =
      if-elim (All (λ e. P e.0 e.1)) (j == k) ((j, v) ∷ d) ((j, w) ∷ insert k v d)
        (λ y. (subst (λ i. P i v) (sym (eq_of_eqb j k y)) p, h.1))
        (λ n. (h.0, insert-All P k v d p h.1))

  pub lookup-All {κ} :
      (P : String → V → Type κ) (k : String) (v : V) (d : Dict V)
      → All (λ e. P e.0 e.1) d
      → lookup k d ≡ some v
      → P k v
  unfolding lookup
  lookup-All P k v [] h e = cc
  lookup-All P k v ((j, w) ∷ d) h e = elim (Bool-cases (j == k)) [
    | inl y ↦ subst (λ i. P i v) (eq_of_eqb j k y) (subst (P j) (ground (arith, e, y)) h.0)
    | inr n ↦ lookup-All P k v d h.1 (ground (arith, e, n))
  ]

  pub erase-IsDict : (k : String) (d : Dict V) → IsDict d → IsDict (erase k d)
  unfolding lookup erase
  erase-IsDict k [] h = tt
  erase-IsDict k ((j, w) ∷ d) h =
      ground (arith, erase-IsDict k d h.1, lookup-erase k j d, eq_iff k j, eq_iff j k)

  pub length-insert : (k : String) (v : V) (d : Dict V) → length (insert k v d) ≤ length d + 1
  unfolding insert
  length-insert k v [] = omega arith
  length-insert k v ((j, w) ∷ d) = ground (arith, length-insert k v d)

pub mem-append : (x : String) (xs ys : List String) → mem x (xs ++ ys) ≡ (mem x xs || mem x ys)
unfolding mem
mem-append x [] ys = refl
mem-append x (y ∷ xs) ys = ground (arith, mem-append x xs ys)
