-- ===== src/Accounts/Lifecycle/Effects.antt =====
-- account.go: what pausing and resuming do to the status of each account.
use jg_smm.Prelude.{
  ℕ, ◌≡◌, refl, ◌∙◌, sym, ap, inl, inr, ◌⊎◌, Bool, true, false, ◌==◌, if◌then◌else◌, List, [], ◌∷◌,
  Option, none, some, arith, find, find-pass, Bool-cases, ==_iff, ◌&&◌,
}
use jg_smm.Prelude.Table.{update_where}
use jg_smm.Domain.Status.{AccountStatus, archived}
use jg_smm.Domain.Entities.{Account}
use jg_smm.Store.{Db, M, Result, ok, err, bind_result, publish, is_ok}
use jg_smm.Store.Accounts.{has_id, get_by_id, update, write_account, unassign, unassigned}
use jg_smm.Store.Accounts.Laws.{find-write_self, find-write_ne}
use jg_smm.Packer.{release, release_from}
use jg_smm.Packer.Reap.{unassign_lem}
use jg_smm.Accounts.{AccountSummary, to_account_view}
use jg_smm.Accounts.Lifecycle.{
  is_archived, show_account, release_quietly, pause_found, score_max, resume_as,
}

-- What a pause and a resumption do to a status.
abbrev pub paused_from : AccountStatus → AccountStatus
paused_from archived = archived
paused_from _ = AccountStatus.paused

abbrev pub resumed_from : AccountStatus → AccountStatus
resumed_from AccountStatus.paused = AccountStatus.active
resumed_from AccountStatus.quarantined = AccountStatus.active
resumed_from s = s

abbrev pub status_in : Option Account → Option AccountStatus
status_in none = none
status_in (some a) = some a.status

-- The status of an account, if its row is there.
abbrev pub status_of : ℕ → Db → Option AccountStatus
status_of i db = status_in (find (has_id i) db.accounts)

abbrev pub moved_if :
    Bool → (AccountStatus → AccountStatus) → Option AccountStatus → Option AccountStatus
moved_if true f none = none
moved_if true f (some s) = some (f s)
moved_if false f o = o

-- A call moves the status of one account if it answers without an error, and no other.
abbrev pub Moves :
    {A : Type 0} → ℕ → (AccountStatus → AccountStatus) → List Account → Result A × Db → Type 0
Moves i f before x =
    (j : ℕ)
    → status_of j x.1 ≡ moved_if (is_ok x.0 && (i == j)) f (status_in (find (has_id j) before))

write_account-status :
    (b a : Account) (j : ℕ) (accounts : List Account)
    → find (has_id b.id) accounts ≡ some a
    → status_in (find (has_id j) (write_account b accounts))
      ≡ (if b.id == j then some b.status else status_in (find (has_id j) accounts))
write_account-status b a j accounts h = elim (Bool-cases (b.id == j)) [
  | inl e ↦
      let same : b.id ≡ j = (==_iff b.id j).0 e in
      rw (e, ← same) (ap status_in (find-write_self b a accounts h))
  | inr e ↦ rw e (ap status_in (find-write_ne b j accounts (ground (arith, e))))
]

unassigned-status :
    (i j : ℕ) (accounts : List Account)
    → status_in (find (has_id j) (update_where (has_id i) unassigned accounts))
      ≡ status_in (find (has_id j) accounts)
unfolding update_where
unassigned-status i j [] = refl
unassigned-status i j (a ∷ rest) = ground (arith, unassigned-status i j rest)

unassign-accounts :
    (i : ℕ) (db : Db)
    → ((unassign i db).1.accounts ≡ db.accounts)
      ⊎ ((unassign i db).1.accounts ≡ update_where (has_id i) unassigned db.accounts)
unfolding unassign
unassign-accounts i db = ground arith

release_from-accounts :
    (x : Result Account × Db)
    → ((a : Account) → x.0 ≡ ok a → a.worker_id ≡ none)
    → (bind_result x (λ a. release_from a.worker_id)).1.accounts ≡ x.1.accounts
unfolding release_from
release_from-accounts (err e, db) h = refl
release_from-accounts (ok a, db) h = rw (h a refl, release_from) refl

release-status : (i j : ℕ) (db : Db) → status_of j (release i db).1 ≡ status_of j db
unfolding release
release-status i j db =
    let same = release_from-accounts (unassign i db) (unassign_lem i db).1 in
    elim (unassign-accounts i db) [
      | inl e ↦ ap (λ rows. status_in (find (has_id j) rows)) (same ∙ e)
      | inr e ↦
          ap (λ rows. status_in (find (has_id j) rows)) (same ∙ e)
          ∙ unassigned-status i j db.accounts
    ]

release_quietly_lem :
    (wired : Bool) (i j : ℕ) (a : Account) (db : Db)
    → (is_ok (release_quietly wired i a db).0 ≡ true)
      × (status_of j (release_quietly wired i a db).1 ≡ status_of j db)
unfolding release_quietly show_account publish
release_quietly_lem false i j a db = (refl, refl)
release_quietly_lem true i j a db = (refl, release-status i j db)

-- Either nothing is written and the answer is an error, or the row is written.
update-accounts :
    (b : Account) (db : Db)
    → ((is_ok (update b db).0 ≡ false) × ((update b db).1.accounts ≡ db.accounts))
      ⊎ ((is_ok (update b db).0 ≡ true) × ((update b db).1.accounts ≡ write_account b db.accounts))
unfolding update
update-accounts b db = ground arith

written-moved :
    (i j : ℕ) (f : AccountStatus → AccountStatus) (b a : Account) (before : List Account)
    (done : Bool)
    → b.id ≡ i
    → f a.status ≡ b.status
    → find (has_id i) before ≡ some a
    → done ≡ true
    → (if b.id == j then some b.status else status_in (find (has_id j) before))
      ≡ moved_if (done && (i == j)) f (status_in (find (has_id j) before))
written-moved i j f b a before done same g h k = elim (Bool-cases (i == j)) [
  | inl e ↦ let here : i ≡ j = (==_iff i j).0 e in rw (same, k, e, ← here, h) (ap some (sym g))
  | inr e ↦ rw (same, k, e) refl
]

-- What is left of a call after the row was written, or was not.
wrote-Moves :
    (i : ℕ) (f : AccountStatus → AccountStatus) (b a : Account) (before : List Account)
    (rest : M AccountSummary) (x : Result Account × Db)
    → b.id ≡ i
    → f a.status ≡ b.status
    → find (has_id i) before ≡ some a
    → ((db : Db) → is_ok (rest db).0 ≡ true)
    → ((j : ℕ) (db : Db) → status_of j (rest db).1 ≡ status_of j db)
    → ((is_ok x.0 ≡ false) × (x.1.accounts ≡ before))
      ⊎ ((is_ok x.0 ≡ true) × (x.1.accounts ≡ write_account b before))
    → Moves i f before (bind_result x (λ r. rest))
wrote-Moves i f b a before rest (err e, db) same g h k s (inl (q, w)) j =
    ap (λ rows. status_in (find (has_id j) rows)) w
wrote-Moves i f b a before rest (err e, db) same g h k s (inr (q, w)) j = ground (arith, q)
wrote-Moves i f b a before rest (ok r, db) same g h k s (inl (q, w)) j = ground (arith, q)
wrote-Moves i f b a before rest (ok r, db) same g h k s (inr (q, w)) j =
    s j db
    ∙ ap (λ rows. status_in (find (has_id j) rows)) w
    ∙ write_account-status b a j before (rw same h)
    ∙ written-moved i j f b a before _ same g h (k db)

unmoved-Moves :
    (i : ℕ) (f : AccountStatus → AccountStatus) (a : Account) (db : Db) (v : AccountSummary)
    → f a.status ≡ a.status
    → find (has_id i) db.accounts ≡ some a
    → Moves i f db.accounts (ok v, db)
unmoved-Moves i f a db v g h j = elim (Bool-cases (i == j)) [
  | inl e ↦ let here : i ≡ j = (==_iff i j).0 e in rw (e, ← here, h) (ap some (sym g))
  | inr e ↦ rw e refl
]

pub pause_found-Moves :
    (wired : Bool) (i : ℕ) (a : Account) (db : Db)
    → a.id ≡ i
    → find (has_id i) db.accounts ≡ some a
    → Moves i paused_from db.accounts (pause_found wired i a db)
unfolding pause_found
pause_found-Moves wired i a db same h = by_status a.status refl
  where
    write :
        paused_from a.status ≡ AccountStatus.paused
        → is_archived a.status ≡ false
        → Moves i paused_from db.accounts (pause_found wired i a db)
    write g q =
        let b = record a { status = AccountStatus.paused } in
        rw q (
          wrote-Moves i paused_from b a db.accounts (release_quietly wired i b) (update b db) same g
            h (λ db'. (release_quietly_lem wired i 0 b db').0)
            (λ j db'. (release_quietly_lem wired i j b db').1) (update-accounts b db))

    by_status :
        (s : AccountStatus)
        → a.status ≡ s
        → Moves i paused_from db.accounts (pause_found wired i a db)
    by_status archived e = rw e (unmoved-Moves i paused_from a db (to_account_view a) (rw e refl) h)
    by_status AccountStatus.pending e = write (rw e refl) (rw e refl)
    by_status AccountStatus.active e = write (rw e refl) (rw e refl)
    by_status AccountStatus.paused e = write (rw e refl) (rw e refl)
    by_status AccountStatus.quarantined e = write (rw e refl) (rw e refl)
    by_status AccountStatus.dead e = write (rw e refl) (rw e refl)

pub resume_as-Moves :
    (i : ℕ) (s : AccountStatus) (a : Account) (db : Db)
    → a.status ≡ s
    → a.id ≡ i
    → find (has_id i) db.accounts ≡ some a
    → Moves i resumed_from db.accounts (resume_as s a db)
unfolding resume_as show_account publish
resume_as-Moves i AccountStatus.paused a db e same h =
    let b = record a { status = AccountStatus.active } in
    wrote-Moves i resumed_from b a db.accounts (show_account b) (update b db) same (rw e refl) h
      (λ db'. refl) (λ j db'. refl) (update-accounts b db)
resume_as-Moves i AccountStatus.quarantined a db e same h =
    let b = record a { status = AccountStatus.active; health_score = score_max } in
    wrote-Moves i resumed_from b a db.accounts (show_account b) (update b db) same (rw e refl) h
      (λ db'. refl) (λ j db'. refl) (update-accounts b db)
resume_as-Moves i archived a db e same h =
    unmoved-Moves i resumed_from a db (to_account_view a) (rw e refl) h
resume_as-Moves i AccountStatus.pending a db e same h =
    unmoved-Moves i resumed_from a db (to_account_view a) (rw e refl) h
resume_as-Moves i AccountStatus.active a db e same h =
    unmoved-Moves i resumed_from a db (to_account_view a) (rw e refl) h
resume_as-Moves i AccountStatus.dead a db e same h =
    unmoved-Moves i resumed_from a db (to_account_view a) (rw e refl) h

get_by_id-row :
    (i : ℕ) (db : Db)
    → ((get_by_id i db).1.accounts ≡ db.accounts)
      × ((a : Account) → (get_by_id i db).0 ≡ ok a → find (has_id i) db.accounts ≡ some a)
unfolding get_by_id
get_by_id-row i db = ground arith

-- What a lookup of the account answers.
pub get_by_id-found :
    (i : ℕ) (db : Db)
    → ((get_by_id i db).1.accounts ≡ db.accounts)
      × ((a : Account)
          → (get_by_id i db).0 ≡ ok a
          → (a.id ≡ i) × (find (has_id i) db.accounts ≡ some a))
get_by_id-found i db =
    let (w, h) = get_by_id-row i db in
    (
      w,
      λ a e.
          let found = h a e in
          ((==_iff a.id i).0 (find-pass (has_id i) db.accounts a found), found),
    )

pub found-Moves :
    (i : ℕ) (f : AccountStatus → AccountStatus) (before : List Account)
    (rest : Account → M AccountSummary) (x : Result Account × Db)
    → x.1.accounts ≡ before
    → ((a : Account) → x.0 ≡ ok a → (a.id ≡ i) × (find (has_id i) before ≡ some a))
    → ((a : Account) (db : Db)
        → a.id ≡ i
        → find (has_id i) db.accounts ≡ some a
        → Moves i f db.accounts (rest a db))
    → Moves i f before (bind_result x rest)
found-Moves i f before rest (err e, db) w h k j = ap (λ rows. status_in (find (has_id j) rows)) w
found-Moves i f before rest (ok a, db) w h k j =
    let (same, found) = h a refl in
    k a db same (ap (find (has_id i)) w ∙ found) j
    ∙ ap (λ rows. moved_if (is_ok (rest a db).0 && (i == j)) f (status_in (find (has_id j) rows))) w
