-- ===== src/Alerts.antt =====
-- apps/api/internal/service/alert_engine.go: which alerts a pass of the rules fires. What the stores
-- answer to the queries of a pass is given, and so are the tests on ratios, which are floats. Counts
-- are natural numbers, a message's text is left out, and the timer loop as well.
pub mod Rules
use jg_smm.Prelude.{
  ℕ, ◌+◌, ◌-◌, ◌*◌, ◌/◌, ◌==◌, ◌||◌, Bool, true, false, if◌then◌else◌, List, [], ◌∷◌, ◌++◌, Option,
  none, some, length,
}
use jg_smm.Store.{Result, ok, err}

pub data AlertKind : Type 0 where
  views_drop mention_spike : AlertKind

-- `at` is 0 until the pass stamps it.
pub record Alert : Type 0 where
  pub kind : AlertKind
  pub critical : Bool
  pub subject : ℕ
  pub at : ℕ

pub record MetricSnapshot : Type 0 where
  pub post_id : ℕ
  pub views : ℕ

pub record AnalyticsSnapshot : Type 0 where
  pub mentions : Option ℕ

pub record OfficialAccount : Type 0 where
  pub id : ℕ
  pub is_archived : Bool

-- The answers of the stores during a pass.
pub record Answers : Type 0 where
  pub latest : Result (List MetricSnapshot)
  pub metrics : ℕ → ℕ → ℕ → Result (List MetricSnapshot)
  pub accounts : Result (List OfficialAccount)
  pub analytics : ℕ → ℕ → ℕ → Result (List AnalyticsSnapshot)

-- The tests on the ratio of two numbers, and the days of the baseline.
pub record AlertTests : Type 0 where
  pub drops : ℕ → ℕ → Bool
  pub drops_far : ℕ → ℕ → Bool
  pub spikes : ℕ → ℕ → Bool
  pub spikes_far : ℕ → ℕ → Bool
  pub baseline_days : ℕ

abbrev pub day : ℕ
day = 86_400_000_000_000

-- The last sample of a series in the order of time.
unfoldable pub latest_value : List MetricSnapshot → ℕ
latest_value [] = 0
latest_value (s ∷ []) = s.views
latest_value (s ∷ t ∷ rest) = latest_value (t ∷ rest)

abbrev pub mentions_or_none : Option ℕ → ℕ
mentions_or_none none = 0
mentions_or_none (some n) = n

unfoldable pub sum_mentions : List AnalyticsSnapshot → ℕ
sum_mentions [] = 0
sum_mentions (s ∷ rest) = mentions_or_none s.mentions + sum_mentions rest

abbrev pub either_zero : ℕ → ℕ → Bool
either_zero a b = a == 0 || b == 0

abbrev pub drop_alert : AlertTests → ℕ → ℕ → ℕ → List Alert
drop_alert tests post cur prev =
    if either_zero prev cur
    then []
    else if tests.drops cur prev
    then record { kind = views_drop; critical = tests.drops_far cur prev; subject = post; at = 0 }
      ∷ []
    else []

-- A window that cannot be read or is empty is passed over.
unfoldable pub drop_of :
    AlertTests → ℕ → Result (List MetricSnapshot) → Result (List MetricSnapshot) → List Alert
unfolding latest_value
drop_of tests post (ok (c ∷ cs)) (ok (p ∷ ps)) =
    drop_alert tests post (latest_value (c ∷ cs)) (latest_value (p ∷ ps))
drop_of tests post _ _ = []

unfoldable pub drops_each : AlertTests → Answers → ℕ → List MetricSnapshot → List Alert
unfolding drop_of
drops_each tests answers now [] = []
drops_each tests answers now (s ∷ rest) =
    drop_of tests s.post_id (answers.metrics s.post_id (now - day) now)
      (answers.metrics s.post_id (now - 2 * day) (now - day))
    ++ drops_each tests answers now rest

abbrev pub spike_alert : AlertTests → ℕ → ℕ → ℕ → List Alert
spike_alert tests account recent average =
    if either_zero average recent
    then []
    else if tests.spikes recent average
    then record {
      kind = mention_spike;
      critical = tests.spikes_far recent average;
      subject = account;
      at = 0;
    }
      ∷ []
    else []

-- The average is over the samples of the baseline.
unfoldable pub spike_of :
    AlertTests → ℕ → Result (List AnalyticsSnapshot) → Result (List AnalyticsSnapshot) → List Alert
unfolding sum_mentions
spike_of tests account (ok (r ∷ rs)) (ok (b ∷ bs)) =
    spike_alert tests account (sum_mentions (r ∷ rs)) (sum_mentions (b ∷ bs) / length (b ∷ bs))
spike_of tests account _ _ = []

unfoldable pub spike_if : AlertTests → Answers → ℕ → OfficialAccount → Bool → List Alert
unfolding spike_of
spike_if tests answers now a true = []
spike_if tests answers now a false =
    spike_of tests a.id (answers.analytics a.id (now - day) now)
      (answers.analytics a.id (now - tests.baseline_days * day) (now - day))

unfoldable pub spikes_each : AlertTests → Answers → ℕ → List OfficialAccount → List Alert
unfolding spike_if
spikes_each tests answers now [] = []
spikes_each tests answers now (a ∷ rest) =
    spike_if tests answers now a a.is_archived ++ spikes_each tests answers now rest

unfoldable pub check_views_drop :
    AlertTests → Answers → ℕ → Result (List MetricSnapshot) → Result (List Alert)
unfolding drops_each
check_views_drop tests answers now (err e) = err e
check_views_drop tests answers now (ok latest) = ok (drops_each tests answers now latest)

unfoldable pub check_mention_spike :
    AlertTests → Answers → ℕ → Result (List OfficialAccount) → Result (List Alert)
unfolding spikes_each
check_mention_spike tests answers now (err e) = err e
check_mention_spike tests answers now (ok accounts) = ok (spikes_each tests answers now accounts)

-- The error of a rule is logged, and the rule fires nothing.
abbrev pub fired : Result (List Alert) → List Alert
fired (ok alerts) = alerts
fired (err e) = []

unfoldable pub stamp : ℕ → List Alert → List Alert
stamp now [] = []
stamp now (a ∷ rest) = record a { at = now } ∷ stamp now rest

-- `Evaluate`.
unfoldable pub evaluate : AlertTests → Answers → ℕ → List Alert
unfolding check_views_drop check_mention_spike stamp
evaluate tests answers now = stamp now (
    fired (check_views_drop tests answers now answers.latest)
    ++ fired (check_mention_spike tests answers now answers.accounts))
