-- ===== src/Callback/Score.antt =====
-- health_score_wire.go, `applyHealth`: what a verdict does to the account that ran the job.
use jg_smm.Prelude.{
  ◌≤◌, ◌+◌, ◌-◌, ap, ◌∙◌, leb, if◌then◌else◌, ℕ, ◌<◌, ◌≡◌, refl, ◌≢◌, true, false, [], ◌∷◌, ◌++◌,
  some, arith,
}
use jg_smm.Prelude.Int.{pos, ◌≤ℤ◌}
use jg_smm.Domain.Status.{
  AccountStatus, dead, quarantined, AttemptStatus, success, failed, retry, cancelled, ErrorClass,
  banned,
}
use jg_smm.Domain.Entities.{Account, is_packable}
use jg_smm.Health.{default_policy, apply_verdict, should_quarantine, is_terminal}
use jg_smm.Health.Score.{apply_verdict_bounds, cost}
use jg_smm.Store.{Db, ok, publish, account_updated}
use jg_smm.Store.Accounts.{out_of_range, write_account}
use jg_smm.Store.Accounts.Laws.{
  account_of, IsPlaced, get_by_id_ok, update_ok, find-write_self, find-write_ne,
}
use jg_smm.Callback.{judged, scored, pool_status, score_account}

score_in_range :
    (status : AttemptStatus) (class : ErrorClass) (a : Account)
    → out_of_range (judged status class a).health_score ≡ false
score_in_range status class a =
    ground (arith, apply_verdict_bounds default_policy a.health_score status class)

score_account_run :
    (status : AttemptStatus) (class : ErrorClass) (a : Account) (db : Db)
    → db.faults ≡ []
    → account_of a.id db ≡ some a
    → IsPlaced a db
    → score_account status class a.id db ≡ (
      ok tt,
      record db {
        accounts = write_account (judged status class a) db.accounts;
        frames = db.frames ++ (account_updated a.id ∷ []);
      },
    )
unfolding score_account publish
score_account_run status class a db q h v = rw (get_by_id_ok a.id a db q h) (
    rw
      (update_ok (judged status class a) a db q h (score_in_range status class a) v.own_slot
        v.on_worker)
      refl)

-- What a verdict costs a score, or restores.
abbrev pub expected_score : AttemptStatus → ErrorClass → ℕ → ℕ
expected_score success class n = if leb (n + 5) 100 then n + 5 else 100
expected_score cancelled class n = if leb (n + 5) 100 then n + 5 else 100
expected_score failed class n = n - cost class
expected_score retry class n = n - cost class
expected_score _ class n = n

abbrev pub IsFailure : AttemptStatus → Type 0
IsFailure failed = Unit
IsFailure retry = Unit
IsFailure _ = ⊥

-- The status of an account after a verdict, given the score that it is left with.
pub record Moved (status : AttemptStatus) (class : ErrorClass) (before after : AccountStatus)
    (n : ℕ) : Type 0 where
  pub killed : IsFailure status → class ≡ banned → after ≡ dead
  pub parked : ((IsFailure status × (class ≡ banned)) → ⊥) → n < 30 → after ≡ quarantined
  pub kept : ((IsFailure status × (class ≡ banned)) → ⊥) → 30 ≤ n → after ≡ before

score_lem :
    (status : AttemptStatus) (class : ErrorClass) (n : ℕ)
    → n ≤ 100
    → apply_verdict default_policy (pos n) status class ≡ pos (expected_score status class n)
unfolding apply_verdict
score_lem status class n h = ground arith

moved_lem :
    (status : AttemptStatus) (class : ErrorClass) (a : Account) (n : ℕ)
    → a.health_score ≡ pos n
    → Moved status class a.status (pool_status status class a) n
unfolding is_terminal should_quarantine
moved_lem status class a n h = record {
  killed = λ f b. ground (arith, f, b);
  parked = λ f l. ground (arith, f, l, h);
  kept = λ f l. ground (arith, f, l, h);
}

-- When no store call fails, a verdict on an account that the schema accepts, with a score of `n` from
-- 0 to 100, writes its row: SUCCESS and CANCELLED restore 5 points up to 100, a failure costs 100 for
-- BANNED, 20 for AUTH, 5 for RATE_LIMIT and 10 for every other class, down to 0; a BANNED failure makes
-- it DEAD, any other verdict that leaves it below 30 makes it QUARANTINED, and above that it keeps its
-- status, as the row keeps everything else. No other account changes, the dashboards are told of the
-- account, and nothing else changes.
pub score_account_lem :
    (status : AttemptStatus) (class : ErrorClass) (a : Account) (n : ℕ) (db : Db)
    → db.faults ≡ []
    → account_of a.id db ≡ some a
    → IsPlaced a db
    → a.health_score ≡ pos n
    → n ≤ 100
    → let after = (score_account status class a.id db).1 in
      ((moved : AccountStatus) × (account_of a.id after
          ≡ some (record a { health_score = pos (expected_score status class n); status = moved }))
        × Moved status class a.status moved (expected_score status class n))
      × ((k : ℕ) → a.id ≢ k → account_of k after ≡ account_of k db)
      × (after ≡ record db {
        accounts = after.accounts;
        frames = db.frames ++ (account_updated a.id ∷ []);
      })
score_account_lem status class a n db q h v s l =
    let score : (judged status class a).health_score ≡ pos (expected_score status class n) =
      ap (λ x. apply_verdict default_policy x status class) s ∙ score_lem status class n l in
    rw (score_account_run status class a db q h v) (
      (
        pool_status status class (scored status class a),
        find-write_self (judged status class a) a db.accounts h
            ∙ ap
                (λ x. some (record a {
                  health_score = x;
                  status = pool_status status class (scored status class a);
                }))
                score,
        moved_lem status class (scored status class a) (expected_score status class n) score,
      ),
      λ k d. find-write_ne (judged status class a) k db.accounts d,
      refl,
    )

-- After any verdict an account that can still be packed into a container has a score of at least 30,
-- the threshold, and did not just fail with BANNED.
pub judged-is_packable :
    (status : AttemptStatus) (class : ErrorClass) (a : Account)
    → is_packable (judged status class a) ≡ true
    → (pos 30 ≤ℤ (judged status class a).health_score)
      × (is_terminal default_policy status class ≡ false)
unfolding should_quarantine
judged-is_packable status class a = ground arith

-- A DEAD account does not stay dead: with a score below 25, where a ban leaves it at 0, any later
-- verdict but a BANNED failure moves it to QUARANTINED, from which an operator can resume it.
pub dead_account_revives :
    (status : AttemptStatus) (class : ErrorClass) (a : Account) (n : ℕ)
    → a.status ≡ dead
    → a.health_score ≡ pos n
    → n < 25
    → is_terminal default_policy status class ≡ false
    → (judged status class a).status ≡ quarantined
unfolding should_quarantine is_terminal apply_verdict
dead_account_revives status class a n d s h t = ground arith
