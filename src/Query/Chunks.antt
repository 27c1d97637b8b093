-- ===== src/Query/Chunks.antt =====
-- The chunks of a list are the list again, none is empty, and none is larger than the size.
use mac_service_now_cmdb.Base.{
  ℕ, zero, suc, ◌≤◌, ◌<◌, ◌≡◌, refl, ap, ◌∙◌, List, [], ◌∷◌, ◌++◌, length, take, drop,
  take-append-drop, length-take-le, length-drop, All, arith,
}
use mathlib.Core.List.{flatten}
use mac_service_now_cmdb.Query.{chunked_from, chunked}

module _ {ℓ} {A : Type ℓ} where
  flatten-chunked_from :
      (rounds size : ℕ) (items : List A)
      → 0 < size
      → length items ≤ rounds
      → flatten (chunked_from rounds size items) ≡ items
  unfolding chunked_from flatten
  flatten-chunked_from zero size [] p h = refl
  flatten-chunked_from zero size (x ∷ items) p h = absurd (omega arith)
  flatten-chunked_from (suc rounds) size [] p h = refl
  flatten-chunked_from (suc rounds) size (x ∷ items) p h =
      ap (λ r. take size (x ∷ items) ++ r)
        (flatten-chunked_from rounds size (drop size (x ∷ items)) p
          (omega (arith, length-drop size (x ∷ items))))
      ∙ take-append-drop size (x ∷ items)

  -- With a size that is not 0, the chunks in order are the items.
  pub flatten-chunked :
      (items : List A) (size : ℕ) → 0 < size → flatten (chunked items size) ≡ items
  unfolding chunked
  flatten-chunked items size p = flatten-chunked_from (length items) size items p (omega arith)

  abbrev pub Fits : ℕ → List A → Type 0
  Fits size c = (0 < length c) × (length c ≤ size)

  take-Fits : (size : ℕ) (x : A) (items : List A) → 0 < size → Fits size (take size (x ∷ items))
  take-Fits zero x items p = absurd (omega arith)
  take-Fits (suc n) x items p = (omega arith, length-take-le (suc n) (x ∷ items))

  chunked_from-Fits :
      (rounds size : ℕ) (items : List A)
      → 0 < size
      → All (Fits size) (chunked_from rounds size items)
  unfolding chunked_from
  chunked_from-Fits zero size items p = tt
  chunked_from-Fits (suc rounds) size [] p = tt
  chunked_from-Fits (suc rounds) size (x ∷ items) p =
      (take-Fits size x items p, chunked_from-Fits rounds size (drop size (x ∷ items)) p)

  -- With a size that is not 0, every chunk holds at least one item and at most `size`.
  pub chunked-Fits : (items : List A) (size : ℕ) → 0 < size → All (Fits size) (chunked items size)
  unfolding chunked
  chunked-Fits items size p = chunked_from-Fits (length items) size items p
