-- ===== src/Queueing/Batches.antt =====
-- action.go: which jobs are there after `Enqueue`, in how many statements it may stop.
use jg_smm.Prelude.{
  not, find, ◌==◌, ℕ, ◌≡◌, refl, ◌∙◌, sym, ap, Bool, true, false, List, [], ◌∷◌, ◌++◌, Option, none,
  some, length, arith, inl, inr, ◌⊎◌, if◌then◌else◌, String, Bool-cases,
}
use jg_smm.Domain.Status.{is_action, JobStatus}
use jg_smm.Domain.Entities.{Account, ActionJob, Target, is_packable}
use jg_smm.Store.{Db, M, Err, Result, ok, err, driver, validation, bind_result, is_ok}
use jg_smm.Store.Accounts.{get_by_id, has_id}
use jg_smm.Store.Queued.{refers, numbered, create_action_job, put_text, create_batch, upsert_target}
use jg_smm.Store.Posts.Effects.{query_rule}
use jg_smm.Queueing.{
  ActionItem, Url, Tools, Planned, planned, safe_target_url, checked_text, new_target, plan_for,
  plan_item, plan_each, keep_text, create_one, create_each, keep_batch, create_planned, is_bad_size,
  enqueue_sized, enqueue,
}

-- A PENDING job of an item: its type and its account, due at once, and not tried yet.
pub record JobOf (item : ActionItem) (now : ℕ) (j : ActionJob) : Type 0 where
  pub known : is_action item.type ≡ true
  pub same_type : j.type ≡ item.type
  pub same_account : j.account_id ≡ item.account_id
  pub is_waiting : j.status ≡ JobStatus.pending
  pub due_now : j.scheduled_at ≡ now
  pub untried : j.attempts ≡ 0
  pub unstarted : j.started_at ≡ none

-- The part of a call before the first job is created: the jobs and the time are as they were.
abbrev Before : List ActionJob → ℕ → Db → Type 0
Before jobs now db = (db.jobs ≡ jobs) × (db.now ≡ now)

-- A property of a chain of steps, each of which keeps a property of the state.
bind_rule :
    {A B : Type 0} (Q : Db → Type 0) (P : Result B × Db → Type 0) (f : A → M B) (x : Result A × Db)
    → Q x.1
    → ((e : Err) (db : Db) → Q db → P (err e, db))
    → ((a : A) → x.0 ≡ ok a → Q x.1 → P (f a x.1))
    → P (bind_result x f)
bind_rule Q P f (ok a, db) q stop step = step a refl q
bind_rule Q P f (err e, db) q stop step = stop e db q

upsert_target-Before :
    (new_id : Db → ℕ) (new : Target) (jobs : List ActionJob) (now : ℕ) (db : Db)
    → Before jobs now db
    → Before jobs now (upsert_target new_id new db).1
unfolding upsert_target
upsert_target-Before new_id new jobs now db b = ground (arith, b)

get_by_id-Before :
    (i : ℕ) (jobs : List ActionJob) (now : ℕ) (db : Db)
    → Before jobs now db
    → Before jobs now (get_by_id i db).1
unfolding get_by_id
get_by_id-Before i jobs now db b = ground (arith, b)

find-has_id : (i : ℕ) (a : Account) (as' : List Account) → find (has_id i) as' ≡ some a → a.id ≡ i
find-has_id i a [] h = ground (arith, h)
find-has_id i a (b ∷ as') h = elim (Bool-cases (b.id == i)) [
  | inl e ↦ ground (arith, e, h)
  | inr e ↦ find-has_id i a as' (ground (arith, e, h))
]

get_by_id-id : (i : ℕ) (a : Account) (db : Db) → (get_by_id i db).0 ≡ ok a → a.id ≡ i
unfolding get_by_id
get_by_id-id i a db = ground (arith, find-has_id i a db.accounts)

module _ (tools : Tools) (jobs : List ActionJob) (now : ℕ) where
  -- A planned item: the jobs are as they were, and the plan is a job of the item.
  record PlansOne (item : ActionItem) (x : Result Planned × Db) : Type 0 where
    pub before : Before jobs now x.1
    pub is_job : (p : Planned) → x.0 ≡ ok p → JobOf item now p.0

  refused-PlansOne :
      (item : ActionItem) (e : Err) (db : Db) → Before jobs now db → PlansOne item (err e, db)
  refused-PlansOne item e db b = record { before = b; is_job = λ p q. absurd_ok e p q }
    where
      absurd_ok : (e : Err) (p : Planned) → err e ≡ ok p → JobOf item now p.0
      absurd_ok e p q = ground (arith, q)

  plan_for-PlansOne :
      (item : ActionItem) (u : Url) (text : Option String) (acc : Account) (db : Db)
      → is_action item.type ≡ true
      → acc.id ≡ item.account_id
      → Before jobs now db
      → PlansOne item (plan_for tools item u text acc db)
  unfolding plan_for
  plan_for-PlansOne item u text acc db k i b = elim (Bool-cases (is_packable acc)) [
    | inr e ↦ rw e (refused-PlansOne item validation db b)
    | inl e ↦ rw e (
        bind_rule (Before jobs now) (PlansOne item) _
          (upsert_target tools.new_target_id (new_target tools acc u) db)
          (upsert_target-Before tools.new_target_id (new_target tools acc u) jobs now db b)
          (refused-PlansOne item)
          (λ t q c. record {
            before = c;
            is_job = λ p r.
                planned_job t p (upsert_target tools.new_target_id (new_target tools acc u) db).1 r
                  c;
          }))
  ]
    where
      planned_job :
          (t : Target) (p : Planned) (db' : Db)
          → ok (planned tools item acc db'.now t, text) ≡ ok p
          → Before jobs now db'
          → JobOf item now p.0
      planned_job t p db' r c =
          let same : p ≡ (planned tools item acc db'.now t, text) = ground (arith, r) in
          rw same (record {
            known = k;
            same_type = refl;
            same_account = i;
            is_waiting = refl;
            due_now = c.1;
            untried = refl;
            unstarted = refl;
          })

  known_type : (b : Bool) (u : Unit {0}) → (if b then ok tt else err validation) ≡ ok u → b ≡ true
  known_type b u h = ground (arith, h)

  plan_item-PlansOne :
      (item : ActionItem) (db : Db) → Before jobs now db → PlansOne item (plan_item tools item db)
  unfolding plan_item
  plan_item-PlansOne item db b =
      bind_rule (Before jobs now) (PlansOne item) _
        (if is_action item.type then ok tt else err validation, db) b (refused-PlansOne item)
        (λ known k b0.
          bind_rule (Before jobs now) (PlansOne item) _ (safe_target_url tools item.target_url, db)
            b0 (refused-PlansOne item)
            (λ u q1 b1.
              bind_rule (Before jobs now) (PlansOne item) _
                (checked_text tools item.type (tools.trim item.text), db) b1 (refused-PlansOne item)
                (λ text q2 b2.
                  bind_rule (Before jobs now) (PlansOne item) _ (get_by_id item.account_id db)
                    (get_by_id-Before item.account_id jobs now db b2) (refused-PlansOne item)
                    (λ acc q3 b3.
                      plan_for-PlansOne item u text acc (get_by_id item.account_id db).1
                        (known_type (is_action item.type) known k)
                        (get_by_id-id item.account_id acc db q3) b3))))

  abbrev PlannedFor : List ActionItem → List Planned → Type 0
  PlannedFor [] [] = Unit
  PlannedFor [] (p ∷ ps) = ⊥
  PlannedFor (i ∷ is) [] = ⊥
  PlannedFor (i ∷ is) (p ∷ ps) = JobOf i now p.0 × PlannedFor is ps

  -- The planning creates no job, and plans one for each item.
  record Plans (items : List ActionItem) (x : Result (List Planned) × Db) : Type 0 where
    pub before : Before jobs now x.1
    pub one_each : (ps : List Planned) → x.0 ≡ ok ps → PlannedFor items ps

  refused-Plans :
      (items : List ActionItem) (e : Err) (db : Db) → Before jobs now db → Plans items (err e, db)
  refused-Plans items e db b = record { before = b; one_each = λ ps q. absurd_ok e ps q }
    where
      absurd_ok : (e : Err) (ps : List Planned) → err e ≡ ok ps → PlannedFor items ps
      absurd_ok e ps q = cc

  plan_each-Plans :
      (items : List ActionItem) (db : Db)
      → Before jobs now db
      → Plans items (plan_each tools items db)
  unfolding plan_each
  plan_each-Plans [] db b = record { before = b; one_each = λ ps e. none_planned ps e }
    where
      none_planned : (ps : List Planned) → ok [] ≡ ok ps → PlannedFor [] ps
      none_planned [] e = tt
      none_planned (p ∷ ps) e = ground (arith, e)
  plan_each-Plans (item ∷ rest) db b =
      let first = plan_item-PlansOne item db b in
      bind_rule (Before jobs now) (Plans (item ∷ rest)) _ (plan_item tools item db) first.before
        (refused-Plans (item ∷ rest))
        (λ p q b1.
          planned_more p (first.is_job p q) (plan_each tools rest (plan_item tools item db).1)
            (plan_each-Plans rest (plan_item tools item db).1 b1))
    where
      planned_more :
          (p : Planned)
          → JobOf item now p.0
          → (x : Result (List Planned) × Db) → Plans rest x
          → Plans (item ∷ rest) (bind_result x (λ ps db. (ok (p ∷ ps), db)))
      planned_more p k (ok ps, db) h = record {
        before = h.before;
        one_each =
            λ qs e. let same : qs ≡ p ∷ ps = ground (arith, e) in rw same (k, h.one_each ps refl);
      }
      planned_more p k (err e, db) h = refused-Plans (item ∷ rest) e db h.before

module _ (tools : Tools) where
  keep_text-jobs :
      (text : Option String) (j : ActionJob) (db : Db) → (keep_text tools text j db).jobs ≡ db.jobs
  unfolding keep_text put_text
  keep_text-jobs none j db = refl
  keep_text-jobs (some text) j db = ground arith

  keep_batch-jobs :
      (keeps : Bool) (js : List ActionJob) (db : Db) → (keep_batch tools keeps js db).jobs ≡ db.jobs
  unfolding keep_batch create_batch
  keep_batch-jobs false js db = refl
  keep_batch-jobs true [] db = refl
  keep_batch-jobs true (j ∷ js) db = ground arith

-- The jobs are those of the first items, in their order.
abbrev pub JobsOf : ℕ → List ActionItem → List ActionJob → Type 0
JobsOf now items [] = Unit
JobsOf now [] (j ∷ js) = ⊥
JobsOf now (i ∷ items) (j ∷ js) = JobOf i now j × JobsOf now items js

-- The jobs that a call has put at the end of the table: one for each of the first items, and without
-- an error one for each item, which are the answer.
pub record Queued (now : ℕ) (items : List ActionItem) (before : List ActionJob)
    (x : Result (List ActionJob) × Db) : Type 0 where
  pub made : List ActionJob
  pub at_end : x.1.jobs ≡ before ++ made
  pub in_order : JobsOf now items made
  pub answered : (js : List ActionJob) → x.0 ≡ ok js → (js ≡ made) × (length made ≡ length items)

append_none : (xs : List ActionJob) → xs ++ [] ≡ xs
append_none [] = refl
append_none (x ∷ xs) = ap (◌∷◌ x) (append_none xs)

append_one :
    (xs : List ActionJob) (j : ActionJob) (ys : List ActionJob)
    → (xs ++ (j ∷ [])) ++ ys ≡ xs ++ (j ∷ ys)
append_one [] j ys = refl
append_one (x ∷ xs) j ys = ap (◌∷◌ x) (append_one xs j ys)

stopped-Queued :
    (now : ℕ) (items : List ActionItem) (before : List ActionJob) (e : Err) (db : Db)
    → db.jobs ≡ before
    → Queued now items before (err e, db)
stopped-Queued now items before e db w = record {
  made = [];
  at_end = w ∙ sym (append_none before);
  in_order = tt;
  answered = λ js q. ground (arith, q);
}

created-jobs :
    (new_id : Db → ℕ) (j : ActionJob) (db : Db)
    → ((is_ok (create_action_job new_id j db).0 ≡ false)
        × ((create_action_job new_id j db).1.jobs ≡ db.jobs))
      ⊎ ((k : ActionJob) × ((i t : ℕ) × (k ≡ numbered i t j))
          × ((create_action_job new_id j db).0 ≡ ok k)
          × ((create_action_job new_id j db).1.jobs ≡ db.jobs ++ (k ∷ [])))
unfolding create_action_job
created-jobs new_id j db =
    query_rule
      (λ (x : Result ActionJob × Db).
        ((is_ok x.0 ≡ false) × (x.1.jobs ≡ db.jobs))
        ⊎ ((k : ActionJob) × ((i t : ℕ) × (k ≡ numbered i t j))
            × (x.0 ≡ ok k)
            × (x.1.jobs ≡ db.jobs ++ (k ∷ []))))
      (λ db. if not (refers j db) then (err driver, db) else (
        ok (numbered (new_id db) db.now j),
        record db { jobs = db.jobs ++ (numbered (new_id db) db.now j ∷ []) },
      ))
      db (λ faults. inl (refl, refl))
      (λ faults.
        inserted (record db { faults = faults }) (not (refers j (record db { faults = faults })))
          refl)
  where
    inserted :
        (db' : Db) (c : Bool)
        → db'.jobs ≡ db.jobs
        → let x : Result ActionJob × Db = if c then (err driver, db') else (
          ok (numbered (new_id db') db'.now j),
          record db' { jobs = db'.jobs ++ (numbered (new_id db') db'.now j ∷ []) },
        ) in
          ((is_ok x.0 ≡ false) × (x.1.jobs ≡ db.jobs))
          ⊎ ((k : ActionJob) × ((i t : ℕ) × (k ≡ numbered i t j))
              × (x.0 ≡ ok k)
              × (x.1.jobs ≡ db.jobs ++ (k ∷ [])))
    inserted db' true e = inl (refl, e)
    inserted db' false e = inr (
      numbered (new_id db') db'.now j,
      (new_id db', db'.now, refl),
      refl,
      ap (λ r. r ++ (numbered (new_id db') db'.now j ∷ [])) e,
    )

module _ (tools : Tools) (now : ℕ) where
  -- After a job, what the rest has put is put after it.
  more-Queued :
      (item : ActionItem) (items : List ActionItem) (before : List ActionJob) (j : ActionJob)
      (x : Result (List ActionJob) × Db)
      → JobOf item now j
      → Queued now items (before ++ (j ∷ [])) x
      → Queued now (item ∷ items) before (bind_result x (λ js db. (ok (j ∷ js), db)))
  more-Queued item items before j (ok js, db) o h = record {
    made = j ∷ h.made;
    at_end = h.at_end ∙ append_one before j h.made;
    in_order = (o, h.in_order);
    answered =
        λ ks q. let (same, l) = h.answered js refl in (ground (arith, q, same), ground (arith, l));
  }
  more-Queued item items before j (err e, db) o h = record {
    made = j ∷ h.made;
    at_end = h.at_end ∙ append_one before j h.made;
    in_order = (o, h.in_order);
    answered = λ ks q. ground (arith, q);
  }

  numbered-JobOf :
      (item : ActionItem) (p k : ActionJob)
      → JobOf item now p
      → (i t : ℕ) × (k ≡ numbered i t p)
      → JobOf item now k
  numbered-JobOf item p k o (i, t, e) = rw e (record {
    known = o.known;
    same_type = o.same_type;
    same_account = o.same_account;
    is_waiting = o.is_waiting;
    due_now = o.due_now;
    untried = refl;
    unstarted = refl;
  })

  after_one-Queued :
      (item : ActionItem) (items : List ActionItem) (before : List ActionJob) (p : ActionJob)
      (text : Option String) (rest : M (List ActionJob)) (x : Result ActionJob × Db)
      → JobOf item now p
      → ((is_ok x.0 ≡ false) × (x.1.jobs ≡ before))
        ⊎ ((k : ActionJob) × ((i t : ℕ) × (k ≡ numbered i t p))
            × (x.0 ≡ ok k)
            × (x.1.jobs ≡ before ++ (k ∷ [])))
      → ((k : ActionJob) (db : Db)
          → db.jobs ≡ before ++ (k ∷ [])
          → Queued now items (before ++ (k ∷ [])) (rest db))
      → Queued now (item ∷ items) before (
          bind_result
            (bind_result x (λ j db. (ok j, keep_text tools text j db)))
            (λ j db. bind_result (rest db) (λ js db. (ok (j ∷ js), db))))
  after_one-Queued item items before p text rest (err e, db) o (inl (q, w)) k =
      stopped-Queued now (item ∷ items) before e db w
  after_one-Queued item items before p text rest (err e, db) o (inr (j, n, q, w)) k =
      stopped-Queued now (item ∷ items) before e db (ground (arith, q))
  after_one-Queued item items before p text rest (ok j, db) o (inl (q, w)) k =
      more-Queued item items before j (rest (keep_text tools text j db)) (ground (arith, q))
        (k j (keep_text tools text j db) (ground (arith, q)))
  after_one-Queued item items before p text rest (ok j, db) o (inr (i, n, q, w)) k =
      let same : j ≡ i = ground (arith, q) in
      more-Queued item items before j (rest (keep_text tools text j db))
        (rw same (numbered-JobOf item p i o n))
        (k j (keep_text tools text j db)
          (keep_text-jobs tools text j db ∙ (w ∙ ap (λ r. before ++ (r ∷ [])) (sym same))))

  create_each-Queued :
      (items : List ActionItem) (ps : List Planned) (before : List ActionJob) (db : Db)
      → PlannedFor tools before now items ps
      → db.jobs ≡ before
      → Queued now items before (create_each tools ps db)
  unfolding create_each create_one
  create_each-Queued [] [] before db f w = record {
    made = [];
    at_end = w ∙ sym (append_none before);
    in_order = tt;
    answered = λ js q. (ground (arith, q), refl);
  }
  create_each-Queued [] (p ∷ ps) before db f w = elim f [ ]
  create_each-Queued (i ∷ items) [] before db f w = elim f [ ]
  create_each-Queued (i ∷ items) (p ∷ ps) before db (o, f) w =
      after_one-Queued i items before p.0 p.1 (create_each tools ps)
        (create_action_job tools.new_job_id p.0 db) o
        (rw (← w) (created-jobs tools.new_job_id p.0 db))
        (λ k db' q.
          create_each-Queued items ps (before ++ (k ∷ [])) db'
            (moved (before ++ (k ∷ [])) items ps f) q)
    where
      moved :
          (before' : List ActionJob) (items : List ActionItem) (ps : List Planned)
          → PlannedFor tools before now items ps
          → PlannedFor tools before' now items ps
      moved b [] [] f = tt
      moved b [] (p ∷ ps) f = f
      moved b (i ∷ items) [] f = f
      moved b (i ∷ items) (p ∷ ps) (o, f) = (o, moved b items ps f)

  kept-Queued :
      (items : List ActionItem) (before : List ActionJob) (x : Result (List ActionJob) × Db)
      → Queued now items before x
      → Queued now items before
          (bind_result x (λ js db. (ok js, keep_batch tools tools.keeps_batches js db)))
  kept-Queued items before (err e, db) h = h
  kept-Queued items before (ok js, db) h = record {
    made = h.made;
    at_end = keep_batch-jobs tools tools.keeps_batches js db ∙ h.at_end;
    in_order = h.in_order;
    answered = λ ks q. h.answered ks q;
  }

  planned-Queued :
      (items : List ActionItem) (before : List ActionJob) (x : Result (List Planned) × Db)
      → Plans tools before now items x
      → Queued now items before (bind_result x (create_planned tools))
  unfolding create_planned
  planned-Queued items before (err e, db) h = stopped-Queued now items before e db h.before.0
  planned-Queued items before (ok ps, db) h =
      kept-Queued items before (create_each tools ps db)
        (create_each-Queued items ps before db (h.one_each ps refl) h.before.0)

sized-Queued :
    (tools : Tools) (bad : Bool) (items : List ActionItem) (db : Db)
    → Queued db.now items db.jobs (enqueue_sized tools bad items db)
unfolding enqueue_sized
sized-Queued tools true items db = stopped-Queued db.now items db.jobs validation db refl
sized-Queued tools false items db =
    planned-Queued tools db.now items db.jobs (plan_each tools items db)
      (plan_each-Plans tools db.jobs db.now items db (refl, refl))

-- Whatever fails, `Enqueue` only puts new jobs at the end of the table: one for each of the first items
-- in their order, with the type and the account of its item, PENDING, due now and not tried yet; when it
-- answers without an error it has put one for each item, and these are its answer. (With an error,
-- some may have been put.)
pub enqueue-Queued :
    (tools : Tools) (items : List ActionItem) (db : Db)
    → Queued db.now items db.jobs (enqueue tools items db)
unfolding enqueue
enqueue-Queued tools items db = sized-Queued tools (is_bad_size tools (length items)) items db
