-- ===== src/Errors/Gives.antt =====
-- What holds of a result, if there is one, and how it goes through a bind.
use mathlib.Core.Path.{subst}
use mac_service_now_cmdb.Base.{◌≡◌, refl}
use mac_service_now_cmdb.Errors.{Result, ok, err, ◌>>=◌}

-- What holds of the result, if there is one.
abbrev pub Gives {ℓ κ} : {A : Type ℓ} → (A → Type κ) → Result A → Type κ
Gives P (ok a) = P a
Gives P (err _) = Unit

pub Gives-bind :
    {A B : Type 0} (P : A → Type 0) (Q : B → Type 0) (r : Result A) (f : A → Result B)
    → Gives P r
    → ((a : A) → P a → Gives Q (f a))
    → Gives Q (r >>= f)
Gives-bind P Q (ok a) f h g = g a h
Gives-bind P Q (err e) f h g = tt

pub Gives-map :
    {A : Type 0} (P Q : A → Type 0) (r : Result A) → ((a : A) → P a → Q a) → Gives P r → Gives Q r
Gives-map P Q (ok a) f h = f a h
Gives-map P Q (err e) f h = tt

pub Gives-any : {A : Type 0} (r : Result A) → Gives (λ a. Unit {0}) r
Gives-any (ok a) = tt
Gives-any (err e) = tt

pub Gives-self {ℓ} : {A : Type ℓ} (r : Result A) → Gives (λ a. r ≡ ok a) r
Gives-self (ok a) = refl
Gives-self (err e) = tt

pub Gives-both :
    {A : Type 0} (P Q : A → Type 0) (r : Result A)
    → Gives P r
    → Gives Q r
    → Gives (λ a. P a × Q a) r
Gives-both P Q (ok a) p q = (p, q)
Gives-both P Q (err e) p q = tt

pub returned {ℓ κ} :
    {A : Type ℓ} (P : A → Type κ) (r : Result A) (a : A) → Gives P r → r ≡ ok a → P a
returned P r a g h = subst (Gives P) h g
