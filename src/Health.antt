-- ===== src/Health.antt =====
-- apps/api/internal/service/health_score.go: the health score policy and the restart flap policy.
-- Scores and policy numbers are Go ints, so they are integers here; none comes near 2^63.
pub mod Score
use jg_smm.Prelude.{
  ℕ, zero, suc, ◌+◌, Bool, true, false, ◌&&◌, ◌||◌, List, ltb, leb, if◌then◌else◌, length, [], ◌∷◌,
}
use jg_smm.Prelude.Int.{ℤ, pos, negsuc, ◌+ℤ◌, ◌-ℤ◌, ltb_ℤ}
use jg_smm.Domain.Status.{
  AttemptStatus, success, failed, retry, cancelled, ErrorClass, transient, auth, rate_limit, banned,
  unknown, no_class,
}

pub record HealthScorePolicy : Type 0 where
  pub quarantine_threshold : ℤ
  pub score_max : ℤ
  pub fail_penalty : ℤ
  pub recover_bonus : ℤ

abbrev pub default_policy : HealthScorePolicy
default_policy = record {
  quarantine_threshold = pos 30;
  score_max = pos 100;
  fail_penalty = pos 10;
  recover_bonus = pos 5;
}

pub penalty : HealthScorePolicy → ErrorClass → ℤ
penalty p banned = p.score_max
penalty p auth = pos 20
penalty p rate_limit = pos 5
penalty p _ = p.fail_penalty

pub clamp_score : ℤ → HealthScorePolicy → ℤ
clamp_score score p =
    if ltb_ℤ score (pos 0) then pos 0 else if ltb_ℤ p.score_max score then p.score_max else score

unfoldable pub apply_verdict : HealthScorePolicy → ℤ → AttemptStatus → ErrorClass → ℤ
unfolding penalty clamp_score ◌+ℤ◌ ◌-ℤ◌
apply_verdict p score success class = clamp_score (score +ℤ p.recover_bonus) p
apply_verdict p score cancelled class = clamp_score (score +ℤ p.recover_bonus) p
apply_verdict p score failed class = clamp_score (score -ℤ penalty p class) p
apply_verdict p score retry class = clamp_score (score -ℤ penalty p class) p
apply_verdict p score _ class = clamp_score score p

abbrev pub is_failure : AttemptStatus → Bool
is_failure failed = true
is_failure retry = true
is_failure _ = false

abbrev pub is_banned : ErrorClass → Bool
is_banned banned = true
is_banned _ = false

-- `IsTerminal`: the verdict kills the account outright.
unfoldable pub is_terminal : HealthScorePolicy → AttemptStatus → ErrorClass → Bool
is_terminal p status class = is_banned class && is_failure status

unfoldable pub should_quarantine : HealthScorePolicy → ℤ → AttemptStatus → ErrorClass → Bool
should_quarantine p score status class =
    if is_banned class && is_failure status then true else ltb_ℤ score p.quarantine_threshold

pub record RestartFlapPolicy : Type 0 where
  pub max_restarts : ℤ
  pub window : ℕ

-- `cutoff = now - window`, and `!t.Before(cutoff)` is `now ≤ t + window`, written so that the
-- natural numbers do not cut the difference off.
abbrev pub in_window : ℕ → ℕ → ℕ → Bool
in_window window now t = leb now (t + window)

-- The loop over the restart times, with the number that it has counted so far.
unfoldable pub count_recent : ℕ → ℕ → ℕ → List ℕ → ℕ
count_recent window now seen [] = seen
count_recent window now seen (t ∷ ts) =
    count_recent window now (if in_window window now t then suc seen else seen) ts

unfoldable pub is_flapping : RestartFlapPolicy → List ℕ → ℕ → Bool
unfolding count_recent
is_flapping p restarts now =
    if ltb_ℤ p.max_restarts (pos 1) || ltb_ℤ (pos (length restarts)) p.max_restarts
    then false
    else if ltb_ℤ (pos (count_recent p.window now 0 restarts)) p.max_restarts
    then false
    else true
