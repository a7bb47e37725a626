-- ===== src/Accounts/Lifecycle/Machine.antt =====
-- account.go: the statuses of an account under the operator's commands, against a machine that knows
-- statuses only.
use jg_smm.Prelude.{ℕ, ◌≡◌, refl, ◌∙◌, ap, Bool, ◌==◌, List, [], ◌∷◌, Option, ◌&&◌}
use jg_smm.Domain.Status.{AccountStatus}
use jg_smm.Store.{Db, M, is_ok}
use jg_smm.Store.Accounts.{get_by_id}
use jg_smm.Accounts.{AccountSummary}
use jg_smm.Accounts.Lifecycle.{pause_found, pause, resume_as, resume}
use jg_smm.Accounts.Lifecycle.Effects.{
  paused_from, resumed_from, status_of, moved_if, Moves, pause_found-Moves, resume_as-Moves,
  get_by_id-found, found-Moves,
}

pub data Command : Type 0 where
  pause_it resume_it : ℕ → Command

abbrev pub target : Command → ℕ
target (pause_it i) = i
target (resume_it i) = i

-- What each command is for: an account is paused unless it is archived, and a paused or quarantined
-- one is active again.
abbrev pub next : Command → AccountStatus → AccountStatus
next (pause_it i) s = paused_from s
next (resume_it i) s = resumed_from s

abbrev pub perform : Bool → Command → M AccountSummary
perform wired (pause_it i) = pause wired i
perform wired (resume_it i) = resume i

perform-Moves :
    (wired : Bool) (c : Command) (db : Db)
    → Moves (target c) (next c) db.accounts (perform wired c db)
unfolding pause resume
perform-Moves wired (pause_it i) db =
    let (w, h) = get_by_id-found i db in
    found-Moves i paused_from db.accounts (pause_found wired i) (get_by_id i db) w h
      (pause_found-Moves wired i)
perform-Moves wired (resume_it i) db =
    let (w, h) = get_by_id-found i db in
    found-Moves i resumed_from db.accounts (λ a. resume_as a.status a) (get_by_id i db) w h
      (λ a db'. resume_as-Moves i a.status a db' refl)

-- Commands in turn, each with whether it was answered without an error.
pub perform_all : Bool → List Command → Db → List (Command × Bool) × Db
perform_all wired [] db = ([], db)
perform_all wired (c ∷ cs) db =
    let (answers, after) = perform_all wired cs (perform wired c db).1 in
    ((c, is_ok (perform wired c db).0) ∷ answers, after)

-- The machine that knows statuses only: it takes the commands that were answered without an error.
abbrev pub run_machine : ℕ → List (Command × Bool) → Option AccountStatus → Option AccountStatus
run_machine i [] s = s
run_machine i ((c, done) ∷ rest) s =
    run_machine i rest (moved_if (done && (target c == i)) (next c) s)

-- After any commands to pause or resume accounts, with any failures of the statements in between, the
-- status of every account is the one that the machine of statuses reaches by those commands on it
-- that were answered without an error; and no account appears or goes.
pub perform_all-machine :
    (wired : Bool) (cs : List Command) (i : ℕ) (db : Db)
    → status_of i (perform_all wired cs db).1
      ≡ run_machine i (perform_all wired cs db).0 (status_of i db)
unfolding perform_all
perform_all-machine wired [] i db = refl
perform_all-machine wired (c ∷ cs) i db =
    perform_all-machine wired cs i (perform wired c db).1
    ∙ ap (run_machine i (perform_all wired cs (perform wired c db).1).0)
        (perform-Moves wired c db i)
