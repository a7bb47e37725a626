-- ===== src/Alerts/Rules.antt =====
-- alert_engine.go: what stands behind an alert.
use jg_smm.Prelude.{
  ℕ, ◌≡◌, refl, Bool, true, false, List, [], ◌∷◌, ◌++◌, ◌/◌, ◌-◌, ◌*◌, length, All, inl, inr,
  Bool-cases,
}
use jg_smm.Store.{Result, ok, err}
use jg_smm.Alerts.{
  Alert, views_drop, mention_spike, MetricSnapshot, AnalyticsSnapshot, OfficialAccount, Answers,
  AlertTests, drop_alert, drop_of, drops_each, spike_alert, spike_of, spike_if, spikes_each,
  check_views_drop, check_mention_spike, fired, stamp, evaluate, either_zero, latest_value,
  sum_mentions, day,
}

-- An alert compares two numbers that are not 0 and passes the test of its kind on them; its severity is
-- the one of that pair, and its time the one of the pass.
pub data Backed (tests : AlertTests) (now : ℕ) (a : Alert) : Type 0 where
  fell :
      (cur prev : ℕ)
      → a.kind ≡ views_drop
      → either_zero prev cur ≡ false
      → tests.drops cur prev ≡ true
      → a.critical ≡ tests.drops_far cur prev
      → a.at ≡ now
      → Backed tests now a
  rose :
      (recent average : ℕ)
      → a.kind ≡ mention_spike
      → either_zero average recent ≡ false
      → tests.spikes recent average ≡ true
      → a.critical ≡ tests.spikes_far recent average
      → a.at ≡ now
      → Backed tests now a

module _ (tests : AlertTests) (now : ℕ) where
  -- The alerts are backed once they are stamped.
  abbrev AllBacked : List Alert → Type 0
  AllBacked alerts = All (λ a. Backed tests now (record a { at = now })) alerts

  All-append : (xs ys : List Alert) → AllBacked xs → AllBacked ys → AllBacked (xs ++ ys)
  All-append [] ys h k = k
  All-append (x ∷ xs) ys (q, h) k = (q, All-append xs ys h k)

  drop_alert-Backed : (post cur prev : ℕ) → AllBacked (drop_alert tests post cur prev)
  drop_alert-Backed post cur prev = elim (Bool-cases (either_zero prev cur)) [
    | inl e ↦ rw e tt
    | inr e ↦ rw e (elim (Bool-cases (tests.drops cur prev)) [
      | inr d ↦ rw d tt
      | inl d ↦ rw d (fell cur prev refl e d refl refl, tt)
    ])
  ]

  spike_alert-Backed :
      (account recent average : ℕ) → AllBacked (spike_alert tests account recent average)
  spike_alert-Backed account recent average = elim (Bool-cases (either_zero average recent)) [
    | inl e ↦ rw e tt
    | inr e ↦ rw e (elim (Bool-cases (tests.spikes recent average)) [
      | inr d ↦ rw d tt
      | inl d ↦ rw d (rose recent average refl e d refl refl, tt)
    ])
  ]

  drop_of-Backed :
      (post : ℕ) (cur prev : Result (List MetricSnapshot)) → AllBacked (drop_of tests post cur prev)
  unfolding drop_of
  drop_of-Backed post (ok (c ∷ cs)) (ok (p ∷ ps)) =
      drop_alert-Backed post (latest_value (c ∷ cs)) (latest_value (p ∷ ps))
  drop_of-Backed post (ok (c ∷ cs)) (ok []) = tt
  drop_of-Backed post (ok (c ∷ cs)) (err e) = tt
  drop_of-Backed post (ok []) prev = tt
  drop_of-Backed post (err e) prev = tt

  spike_of-Backed :
      (account : ℕ) (recent base : Result (List AnalyticsSnapshot))
      → AllBacked (spike_of tests account recent base)
  unfolding spike_of
  spike_of-Backed account (ok (c ∷ cs)) (ok (p ∷ ps)) =
      spike_alert-Backed account (sum_mentions (c ∷ cs)) (sum_mentions (p ∷ ps) / length (p ∷ ps))
  spike_of-Backed account (ok (c ∷ cs)) (ok []) = tt
  spike_of-Backed account (ok (c ∷ cs)) (err e) = tt
  spike_of-Backed account (ok []) base = tt
  spike_of-Backed account (err e) base = tt

  drops_each-Backed :
      (answers : Answers) (latest : List MetricSnapshot)
      → AllBacked (drops_each tests answers now latest)
  unfolding drops_each
  drops_each-Backed answers [] = tt
  drops_each-Backed answers (s ∷ rest) =
      All-append _ _
        (drop_of-Backed s.post_id (answers.metrics s.post_id (now - day) now)
          (answers.metrics s.post_id (now - 2 * day) (now - day)))
        (drops_each-Backed answers rest)

  spike_if-Backed :
      (answers : Answers) (a : OfficialAccount) (archived : Bool)
      → AllBacked (spike_if tests answers now a archived)
  unfolding spike_if
  spike_if-Backed answers a true = tt
  spike_if-Backed answers a false =
      spike_of-Backed a.id (answers.analytics a.id (now - day) now)
        (answers.analytics a.id (now - tests.baseline_days * day) (now - day))

  spikes_each-Backed :
      (answers : Answers) (accounts : List OfficialAccount)
      → AllBacked (spikes_each tests answers now accounts)
  unfolding spikes_each
  spikes_each-Backed answers [] = tt
  spikes_each-Backed answers (a ∷ rest) =
      All-append _ _ (spike_if-Backed answers a a.is_archived) (spikes_each-Backed answers rest)

  check_views_drop-Backed :
      (answers : Answers) (r : Result (List MetricSnapshot))
      → AllBacked (fired (check_views_drop tests answers now r))
  unfolding check_views_drop
  check_views_drop-Backed answers (ok latest) = drops_each-Backed answers latest
  check_views_drop-Backed answers (err e) = tt

  check_mention_spike-Backed :
      (answers : Answers) (r : Result (List OfficialAccount))
      → AllBacked (fired (check_mention_spike tests answers now r))
  unfolding check_mention_spike
  check_mention_spike-Backed answers (ok accounts) = spikes_each-Backed answers accounts
  check_mention_spike-Backed answers (err e) = tt

  stamp-Backed :
      (alerts : List Alert) → AllBacked alerts → All (Backed tests now) (stamp now alerts)
  unfolding stamp
  stamp-Backed [] h = tt
  stamp-Backed (a ∷ rest) (q, h) = (q, stamp-Backed rest h)

-- Whatever the stores answer, every alert of a pass compares two numbers neither of which is 0, on which
-- the test of its kind holds, has the severity of that comparison, and bears the time of the pass.
pub evaluate-Backed :
    (tests : AlertTests) (answers : Answers) (now : ℕ)
    → All (Backed tests now) (evaluate tests answers now)
unfolding evaluate
evaluate-Backed tests answers now = stamp-Backed tests now _ (
    All-append tests now _ _ (check_views_drop-Backed tests now answers answers.latest)
      (check_mention_spike-Backed tests now answers answers.accounts))
