-- ===== src/Health/Score.antt =====
-- health_score.go: the range of a score, how failures add up, and what a verdict does to the pool.
use jg_smm.Prelude.{
  [], ◌∷◌, ◌+◌, Bool, leb, inl, inr, Bool-cases, ℕ, zero, suc, ◌-◌, ◌*◌, ◌≤◌, ◌≡◌, ◌↔◌, ◌≢◌, ap,
  ◌∙◌, true, List, arith, count, count-le-length,
}
use jg_smm.Prelude.Int.{ℤ, pos, ◌≤ℤ◌, ltb_ℤ}
use jg_smm.Domain.Status.{
  AttemptStatus, success, failed, ErrorClass, auth, rate_limit, banned, no_class,
}
use jg_smm.Health.{
  HealthScorePolicy, default_policy, apply_verdict, is_failure, is_terminal, should_quarantine,
  RestartFlapPolicy, count_recent, is_flapping,
}

-- Whatever the score was, a verdict of any status and class leaves it between 0 and the ceiling.
pub apply_verdict_bounds :
    (p : HealthScorePolicy) (score : ℤ) (status : AttemptStatus) (class : ErrorClass)
    → pos 0 ≤ℤ p.score_max
    → (pos 0 ≤ℤ apply_verdict p score status class)
      × (apply_verdict p score status class ≤ℤ p.score_max)
unfolding apply_verdict
apply_verdict_bounds p score status class h = ground arith

-- One failed or retried verdict that says BANNED takes any score down to 0, kills the account
-- outright and takes it out of the pool, provided that the score was at
-- most the ceiling and the ceiling is not negative.
pub banned_is_final :
    (p : HealthScorePolicy) (score : ℤ) (status : AttemptStatus)
    → pos 0 ≤ℤ p.score_max
    → score ≤ℤ p.score_max
    → is_failure status ≡ true
    → (apply_verdict p score status banned ≡ pos 0)
      × (is_terminal p status banned ≡ true)
      × (should_quarantine p (apply_verdict p score status banned) status banned ≡ true)
unfolding apply_verdict is_terminal should_quarantine
banned_is_final p score status z h f = ground arith

-- Only a failed or retried verdict of class BANNED kills an account outright.
pub is_terminal_iff :
    (p : HealthScorePolicy) (status : AttemptStatus) (class : ErrorClass)
    → (is_terminal p status class ≡ true) ↔ ((class ≡ banned) × (is_failure status ≡ true))
unfolding is_terminal
is_terminal_iff p status class = ground arith

-- The score after `k` failures in a row of one class.
pub after_failures : ErrorClass → ℕ → ℤ → ℤ
after_failures class zero score = score
after_failures class (suc k) score =
    after_failures class k (apply_verdict default_policy score failed class)

abbrev pub cost : ErrorClass → ℕ
cost banned = 100
cost auth = 20
cost rate_limit = 5
cost _ = 10

one_failure :
    (class : ErrorClass) (n : ℕ)
    → n ≤ 100
    → apply_verdict default_policy (pos n) failed class ≡ pos (n - cost class)
unfolding apply_verdict
one_failure class n h = ground arith

-- From a score of at most 100, failures of one class cost the same each time: 100 for BANNED, 20
-- for AUTH, 5 for RATE_LIMIT and 10 for every other class, down to 0.
pub after_failures_lem :
    (class : ErrorClass) (k n : ℕ)
    → n ≤ 100
    → after_failures class k (pos n) ≡ pos (n - k * cost class)
unfolding after_failures
after_failures_lem class zero n h = ground arith
after_failures_lem class (suc k) n h =
    rw (one_failure class n h)
      (after_failures_lem class k (n - cost class) (omega arith) ∙ ap pos (omega arith))

-- A failure and a success after it leave a score of 10 or more below where it was, unless the
-- failure was a RATE_LIMIT, which the success makes good.
pub recovery_is_slower :
    (class : ErrorClass) (n : ℕ)
    → n ≤ 100
    → 10 ≤ n
    → class ≢ rate_limit
    → ltb_ℤ
        (apply_verdict default_policy
          (apply_verdict default_policy (pos n) failed class)
          success
          no_class)
        (pos n)
      ≡ true
unfolding apply_verdict
recovery_is_slower class n h l c = ground arith

-- A restart is recent if it is not over a window before now.
abbrev pub within_window : ℕ → ℕ → ℕ → Bool
within_window window now t = leb (now - t) window

count_recent_lem :
    (window now seen : ℕ) (ts : List ℕ)
    → count_recent window now seen ts ≡ seen + count (within_window window now) ts
unfolding count_recent
count_recent_lem window now seen [] = omega arith
count_recent_lem window now seen (t ∷ ts) = elim (Bool-cases (leb now (t + window))) [
  | inl e ↦ rw e (ground (arith, e, count_recent_lem window now (suc seen) ts))
  | inr e ↦ rw e (ground (arith, e, count_recent_lem window now seen ts))
]

-- The loop over the restart times decides whether at least `max_restarts` of them are at most a
-- window before now, those after now included; the early return on a short history never changes
-- the answer, and a policy of no restarts or fewer never reports flapping.
pub is_flapping_iff :
    (p : RestartFlapPolicy) (restarts : List ℕ) (now : ℕ)
    → (is_flapping p restarts now ≡ true) ↔ (
        (pos 1 ≤ℤ p.max_restarts)
        × (p.max_restarts ≤ℤ pos (count (within_window p.window now) restarts)))
unfolding is_flapping
is_flapping_iff p restarts now =
    let loop : count_recent p.window now 0 restarts ≡ count (within_window p.window now) restarts =
      (let c = count_recent_lem p.window now 0 restarts in omega (arith, c)) in
    rw loop (ground (arith, count-le-length (within_window p.window now) restarts))
