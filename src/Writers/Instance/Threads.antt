-- ===== src/Writers/Instance/Threads.antt =====
-- The guard of `_write_one` and `_record` under every interleaving of the pool's threads. A thread
-- reads `aborted` without the lock, posts, and records its result under the lock. A response that cannot
-- be read raises in the thread, which records nothing; the other threads go on.
use mathlib.Core.Path.{subst}
use mac_service_now_cmdb.Base.{ℕ, ◌+◌, ◌-◌, ◌≤◌, ◌<◌, ◌≡◌, ◌≢◌, sym, none, arith}
use mac_service_now_cmdb.Writers.Types.{WriteResult}
use mac_service_now_cmdb.Writers.Instance.{Guard, fresh, tally, record_result}

-- The pool: the guard, how many requests are under way, how many were ever sent, and how many ended
-- without a result because their response could not be read.
pub record Pool : Type 0 where
  pub guard : Guard
  pub in_flight : ℕ
  pub sent : ℕ
  pub crashed : ℕ

abbrev pub idle : Pool
idle = record { guard = fresh; in_flight = 0; sent = 0; crashed = 0 }

module _ (workers threshold : ℕ) where
  -- A thread begins a request while the guard is open and a worker is free; a request that is under
  -- way ends with any result, or raises and is not recorded; a device is passed over once the guard has tripped.
  pub data Step (p q : Pool) : Type 0 where
    send :
        p.guard.aborted ≡ none
        → p.in_flight < workers
        → q ≡ record p { in_flight = p.in_flight + 1; sent = p.sent + 1 }
        → Step p q
    finish :
        (r : WriteResult)
        → 0 < p.in_flight
        → q ≡ record p { guard = record_result threshold r p.guard; in_flight = p.in_flight - 1 }
        → Step p q
    crash :
        0 < p.in_flight
        → q ≡ record p { in_flight = p.in_flight - 1; crashed = p.crashed + 1 }
        → Step p q
    pass : p.guard.aborted ≢ none → q ≡ p → Step p q

  pub data Reach (p : Pool) : Pool → Type 0 where
    here : Reach p p
    next : {q t : Pool} → Reach p q → Step q t → Reach p t

  -- Every request that was sent is under way, counted, or has crashed; an open guard that has seen no success has
  -- seen fewer failures than the threshold.
  pub record IsGuarded (p : Pool) : Type 0 where
    pub counted : p.sent ≡ p.in_flight + p.guard.failures + p.guard.successes + p.crashed
    pub within : p.in_flight ≤ workers
    pub below : p.guard.aborted ≡ none → p.guard.successes ≡ 0 → p.guard.failures < threshold
    pub bounded : p.guard.successes ≡ 0 → p.sent + 1 ≤ threshold + workers + p.crashed

  record_result-tally :
      (r : WriteResult) (g : Guard)
      → ((record_result threshold r g).failures ≡ (tally r g).failures)
        × ((record_result threshold r g).successes ≡ (tally r g).successes)
  unfolding record_result
  record_result-tally r g = ground arith

  record_result-below :
      0 < threshold
      → (r : WriteResult) (g : Guard) → (record_result threshold r g).aborted ≡ none
      → (record_result threshold r g).successes ≡ 0
      → (record_result threshold r g).failures < threshold
  unfolding record_result
  record_result-below pos r g = ground arith

  tally_sum :
      (r : WriteResult) (g : Guard)
      → (tally r g).failures + (tally r g).successes ≡ g.failures + g.successes + 1
  unfolding tally
  tally_sum r g = ground arith

  tally-successes : (r : WriteResult) (g : Guard) → g.successes ≤ (tally r g).successes
  unfolding tally
  tally-successes r g = ground arith

  stays_open :
      (r : WriteResult) (g : Guard)
      → g.aborted ≡ none
      → 0 < g.successes
      → ((record_result threshold r g).aborted ≡ none)
        × (0 < (record_result threshold r g).successes)
  unfolding record_result
  stays_open r g a s = ground arith

  open_step :
      (p q : Pool)
      → (p.guard.aborted ≡ none) × (0 < p.guard.successes)
      → Step p q
      → (q.guard.aborted ≡ none) × (0 < q.guard.successes)
  open_step p q h (send closed free e) = rw e h
  open_step p q h (finish r busy e) = rw e (stays_open r p.guard h.0 h.1)
  open_step p q h (crash busy e) = rw e h
  open_step p q h (pass tripped e) = rw e h

  module _ (pos : 0 < threshold) where
    send-IsGuarded :
        (p : Pool)
        → IsGuarded p
        → p.guard.aborted ≡ none
        → p.in_flight < workers
        → IsGuarded (record p { in_flight = p.in_flight + 1; sent = p.sent + 1 })
    send-IsGuarded p v closed free = record {
      counted = omega (arith, v.counted);
      within = omega arith;
      below = v.below;
      bounded = λ z. omega (arith, v.below closed z, v.counted);
    }

    finish-IsGuarded :
        (p : Pool) (r : WriteResult)
        → IsGuarded p
        → 0 < p.in_flight
        → IsGuarded
            (record p { guard = record_result threshold r p.guard; in_flight = p.in_flight - 1 })
    finish-IsGuarded p r v busy = record {
      counted = omega (
        arith,
        v.counted,
        (record_result-tally r p.guard).0,
        (record_result-tally r p.guard).1,
        tally_sum r p.guard,
      );
      within = omega (arith, v.within);
      below = record_result-below pos r p.guard;
      bounded = λ z.
          v.bounded (omega (arith, (record_result-tally r p.guard).1, tally-successes r p.guard));
    }

    crash-IsGuarded :
        (p : Pool)
        → IsGuarded p
        → 0 < p.in_flight
        → IsGuarded (record p { in_flight = p.in_flight - 1; crashed = p.crashed + 1 })
    crash-IsGuarded p v busy = record {
      counted = omega (arith, v.counted);
      within = omega (arith, v.within);
      below = v.below;
      bounded = λ z. omega (arith, v.bounded z);
    }

    Step-IsGuarded : (p q : Pool) → IsGuarded p → Step p q → IsGuarded q
    Step-IsGuarded p q v (send closed free e) =
        subst IsGuarded (sym e) (send-IsGuarded p v closed free)
    Step-IsGuarded p q v (finish r busy e) = subst IsGuarded (sym e) (finish-IsGuarded p r v busy)
    Step-IsGuarded p q v (crash busy e) = subst IsGuarded (sym e) (crash-IsGuarded p v busy)
    Step-IsGuarded p q v (pass tripped e) = subst IsGuarded (sym e) v

    Reach-IsGuarded : (p q : Pool) → IsGuarded p → Reach p q → IsGuarded q
    Reach-IsGuarded p q v here = v
    Reach-IsGuarded p q v (next {q = m} r s) = Step-IsGuarded m q (Reach-IsGuarded p m v r) s

    idle-IsGuarded : IsGuarded idle
    idle-IsGuarded = record {
      counted = omega arith;
      within = omega arith;
      below = λ a s. pos;
      bounded = λ s. omega arith;
    }

    -- With a threshold that is not 0 and while nothing has succeeded, no interleaving of the threads
    -- sends more requests than the threshold and the workers, less one, and as many more as ended
    -- without a result because their response could not be read.
    pub sent-le :
        (p : Pool)
        → Reach idle p
        → p.guard.successes ≡ 0
        → p.sent + 1 ≤ threshold + workers + p.crashed
    sent-le p r z = (Reach-IsGuarded idle p idle-IsGuarded r).bounded z

  -- Once a success is counted while the guard is open, no interleaving trips it.
  open_after_success :
      (p q : Pool)
      → p.guard.aborted ≡ none
      → 0 < p.guard.successes
      → Reach p q
      → (q.guard.aborted ≡ none) × (0 < q.guard.successes)
  open_after_success p q a s here = (a, s)
  open_after_success p q a s (next {q = m} r st) = open_step m q (open_after_success p m a s r) st
