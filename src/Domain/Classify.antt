-- ===== src/Domain/Classify.antt =====
-- apps/api/internal/domain/classify.go: the error class of a failure, from the worker's free text.
-- `strings.ToLower` is modelled on ASCII letters, which are all that the needles hold.
use jg_smm.Prelude.{ℕ, ◌≡◌, String, Bool, true, false, List, [], ◌∷◌, ◌++◌, arith, if◌then◌else◌}
use jg_smm.Prelude.Text.{
  codes, contains, to_lower, to_lower-to_lower, to_lower-append, contains-part,
}
use jg_smm.Domain.Status.{ErrorClass, transient, auth, rate_limit, banned, unknown}

abbrev contains_needle : List ℕ → List ℕ → Bool
contains_needle s [] = false
contains_needle s (c ∷ n) = contains (c ∷ n) s

-- An empty needle never matches.
unfoldable pub contains_any : List ℕ → List String → Bool
contains_any s [] = false
contains_any s (n ∷ ns) = elim (contains_needle s (codes n)) [
  | true ↦ true
  | false ↦ contains_any s ns
]

abbrev banned_needles : List String
banned_needles =
    "banned" ∷ "suspended" ∷ "permanently disabled" ∷ "account disabled" ∷ "locked for violating"
    ∷ "violated our terms" ∷ "action blocked" ∷ "your account has been" ∷ []

abbrev auth_needles : List String
auth_needles =
    "login required" ∷ "session expired" ∷ "please log in" ∷ "not logged in" ∷ "checkpoint"
    ∷ "two-factor" ∷ "2fa" ∷ "verify it's you" ∷ "security code" ∷ "incorrect password"
    ∷ "password is incorrect" ∷ "invalid credentials" ∷ "authenticate" ∷ []

abbrev rate_limit_needles : List String
rate_limit_needles =
    "rate limit" ∷ "too many requests" ∷ "429" ∷ "try again later" ∷ "slow down" ∷ "spam"
    ∷ "few minutes" ∷ "temporarily blocked" ∷ []

abbrev transient_needles : List String
transient_needles =
    "timeout" ∷ "timed out" ∷ "deadline" ∷ "connection" ∷ "network" ∷ "navigation" ∷ "selector"
    ∷ "element not found" ∷ "detached" ∷ []

unfoldable pub classify_action_error : List ℕ → ErrorClass
classify_action_error msg =
    let m = to_lower msg in
    if contains_any m banned_needles
    then banned
    else if contains_any m auth_needles
    then auth
    else if contains_any m rate_limit_needles
    then rate_limit
    else if contains_any m transient_needles
    then transient
    else unknown

-- The class does not depend on the case of the letters.
pub classify-to_lower :
    (msg : List ℕ) → classify_action_error (to_lower msg) ≡ classify_action_error msg
unfolding classify_action_error
classify-to_lower msg = rw to_lower-to_lower

contains_needle-part :
    (before s after n : List ℕ)
    → contains_needle s n ≡ true
    → contains_needle (before ++ (s ++ after)) n ≡ true
contains_needle-part before s after [] h = h
contains_needle-part before s after (c ∷ n) h = contains-part (c ∷ n) before s after h

contains_any-part :
    (before s after : List ℕ) (needles : List String)
    → contains_any s needles ≡ true
    → contains_any (before ++ (s ++ after)) needles ≡ true
unfolding contains_any
contains_any-part before s after [] h = h
contains_any-part before s after (n ∷ needles) h =
    ground (
      arith,
      contains_needle-part before s after (codes n),
      contains_any-part before s after needles,
    )

classify_banned :
    (msg : List ℕ)
    → classify_action_error msg ≡ banned
    → contains_any (to_lower msg) banned_needles ≡ true
unfolding classify_action_error
classify_banned msg h = ground arith

-- A message that says that the account is banned says so whatever stands before and after it: no
-- text around it, such as "login required", turns the class into one that an operator or a retry
-- would treat as recoverable.
pub banned-part :
    (before msg after : List ℕ)
    → classify_action_error msg ≡ banned
    → classify_action_error (before ++ (msg ++ after)) ≡ banned
unfolding classify_action_error
banned-part before msg after h = ground (
  arith,
  to_lower-append before (msg ++ after),
  to_lower-append msg after,
  classify_banned msg h,
  contains_any-part (to_lower before) (to_lower msg) (to_lower after) banned_needles,
)
