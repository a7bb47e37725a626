-- ===== src/Examples/Scores.antt =====
-- The score and the error class on sample verdicts.
use jg_smm.Prelude.{ℕ, ◌≡◌, refl, ◌↔◌, ◌≢◌, true, arith, List, [], ◌∷◌, count}
use jg_smm.Prelude.Int.{pos, ◌≤ℤ◌}
use jg_smm.Prelude.Text.{codes, to_lower, contains, has_prefix}
use jg_smm.Domain.Status.{failed, auth, banned, rate_limit}
use jg_smm.Domain.Classify.{classify_action_error, contains_any}
use jg_smm.Health.{default_policy, is_failure, is_terminal, RestartFlapPolicy, is_flapping}
use jg_smm.Health.Score.{within_window, is_terminal_iff, is_flapping_iff}

is_terminal_iff_example :
    (is_terminal default_policy failed auth ≡ true) ↔ ((auth ≡ banned) × (is_failure failed ≡ true))
is_terminal_iff_example = is_terminal_iff default_policy failed auth

auth_is_no_rate_limit : auth ≢ rate_limit
auth_is_no_rate_limit e = ground (arith, e)

abbrev three_in_ten : RestartFlapPolicy
three_in_ten = record { max_restarts = pos 3; window = 10 }

abbrev restarts : List ℕ
restarts = 91 ∷ 95 ∷ 99 ∷ 12 ∷ []

is_flapping_iff_example :
    (is_flapping three_in_ten restarts 100 ≡ true)
    ↔ ((pos 1 ≤ℤ pos 3) × (pos 3 ≤ℤ pos (count (within_window 10 100) restarts)))
is_flapping_iff_example = is_flapping_iff three_in_ten restarts 100

says_banned : classify_action_error (codes "BANNED") ≡ banned
unfolding classify_action_error contains_any contains has_prefix to_lower
says_banned = refl
