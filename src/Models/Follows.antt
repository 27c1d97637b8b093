-- ===== src/Models/Follows.antt =====
-- What the stages of a run that write no device do to the report: they may warn and degrade it, and
-- they keep its outcomes.
use mac_service_now_cmdb.Base.{String, ◌≡◌, ◌≢◌, refl, ◌∙◌, List, [], ◌∷◌, ◌++◌}
use mac_service_now_cmdb.Models.{RunReport, warn, degrade}
use mac_service_now_cmdb.Models.Accounts.{IsAccounted}

pub record Follows (r r' : RunReport) : Type 0 where
  pub outcomes : r'.outcomes ≡ r.outcomes
  pub accounted : IsAccounted r → IsAccounted r'
  pub degraded : r.degraded ≢ [] → r'.degraded ≢ []

pub Follows-refl : (r : RunReport) → Follows r r
Follows-refl r = record { outcomes = refl; accounted = λ a. a; degraded = λ d. d }

pub Follows-trans : (r s t : RunReport) → Follows r s → Follows s t → Follows r t
Follows-trans r s t h k = record {
  outcomes = k.outcomes ∙ h.outcomes;
  accounted = λ a. k.accounted (h.accounted a);
  degraded = λ d. k.degraded (h.degraded d);
}

kept_accounts :
    (r r' : RunReport)
    → r'.outcomes ≡ r.outcomes
    → r'.inserted ≡ r.inserted
    → r'.updated ≡ r.updated
    → r'.unchanged ≡ r.unchanged
    → r'.errors ≡ r.errors
    → r'.error_samples ≡ r.error_samples
    → IsAccounted r
    → IsAccounted r'
kept_accounts r r' o i u n e s a = record {
  inserted = rw (i, o) a.inserted;
  updated = rw (u, o) a.updated;
  unchanged = rw (n, o) a.unchanged;
  errors = rw (e, o) a.errors;
  samples = rw s a.samples;
}

-- A report that differs in no counter of the outcomes.
pub same-Follows :
    (r r' : RunReport)
    → r'.outcomes ≡ r.outcomes
    → r'.inserted ≡ r.inserted
    → r'.updated ≡ r.updated
    → r'.unchanged ≡ r.unchanged
    → r'.errors ≡ r.errors
    → r'.error_samples ≡ r.error_samples
    → (r.degraded ≢ [] → r'.degraded ≢ [])
    → Follows r r'
same-Follows r r' o i u n e s d = record {
  outcomes = o;
  accounted = kept_accounts r r' o i u n e s;
  degraded = d;
}

pub warn-Follows : (m : String) (r : RunReport) → Follows r (warn m r)
warn-Follows m r = same-Follows r (warn m r) refl refl refl refl refl refl (λ d. d)

pub append-ne-nil : (xs : List String) (x : String) → xs ++ x ∷ [] ≢ []
append-ne-nil [] x e = cc
append-ne-nil (y ∷ xs) x e = cc

pub degraded-degrade : (m : String) (r : RunReport) → (degrade m r).degraded ≢ []
unfolding degrade
degraded-degrade m r = append-ne-nil r.degraded m

pub degrade-Follows : (m : String) (r : RunReport) → Follows r (degrade m r)
unfolding degrade
degrade-Follows m r =
    same-Follows r (degrade m r) refl refl refl refl refl refl (λ d. append-ne-nil r.degraded m)
