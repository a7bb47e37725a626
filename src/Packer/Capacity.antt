-- ===== src/Packer/Capacity.antt =====
-- packer.go: how many accounts a container holds after the steps of the packer.
use jg_smm.Prelude.{
  ℕ, ◌+◌, ◌≤◌, ◌<◌, ◌≡◌, refl, ◌∙◌, ◌≢◌, ◌⊎◌, inl, inr, true, ◌==◌, List, [], ◌∷◌, Option, some,
  arith, count, Bool-cases, Option-cases,
}
use jg_smm.Prelude.Table.{update_where}
use jg_smm.Domain.Status.{Platform}
use jg_smm.Domain.Entities.{Account, Worker, is_packable}
use jg_smm.Store.{Db, Err, Result, ok, err, M, bind_result}
use jg_smm.Store.Accounts.{
  has_id, is_on, assigned, assign, list_by_worker, count_by_worker, get_by_id,
}
use jg_smm.Packer.{Config, Ports, assign_to, if_placeable, has_free_slot, room_counted, room_listed}

-- No container holds more than `n` accounts.
abbrev pub Within : ℕ → List Account → Type 0
Within n accounts = (w : ℕ) → count (is_on w) accounts ≤ n

-- No id is used by two rows: the primary key.
abbrev pub UniqueIds : List Account → Type 0
UniqueIds accounts = (i : ℕ) → count (has_id i) accounts ≤ 1

count-assigned :
    (i w v now : ℕ) (xs : List Account)
    → count (is_on v) (update_where (has_id i) (assigned w now) xs)
      ≤ count (is_on v) xs + count (has_id i) xs
unfolding update_where
count-assigned i w v now [] = omega arith
count-assigned i w v now (x ∷ xs) = ground (arith, count-assigned i w v now xs)

count-assigned_other :
    (i w v now : ℕ) (xs : List Account)
    → w ≢ v
    → count (is_on v) (update_where (has_id i) (assigned w now) xs) ≤ count (is_on v) xs
unfolding update_where
count-assigned_other i w v now [] h = omega arith
count-assigned_other i w v now (x ∷ xs) h = ground (arith, count-assigned_other i w v now xs h)

assigned-Within :
    (n i w now : ℕ) (xs : List Account)
    → Within n xs
    → UniqueIds xs
    → count (is_on w) xs < n
    → Within n (update_where (has_id i) (assigned w now) xs)
assigned-Within n i w now xs h u c v = elim (Bool-cases (w == v)) [
  | inl e ↦
      let same : w ≡ v = ground (arith, e) in
      rw (← same) (omega (arith, count-assigned i w w now xs, u i, c))
  | inr e ↦ ground (arith, e, h v, count-assigned_other i w v now xs)
]

-- An assignment writes the row of the account, or nothing.
assign-accounts :
    (i w : ℕ) (db : Db)
    → ((assign i w db).1.accounts ≡ db.accounts)
      ⊎ (((e : Err) → (assign i w db).0 ≢ err e)
          × ((assign i w db).1.accounts ≡ update_where (has_id i) (assigned w db.now) db.accounts))
unfolding assign
assign-accounts i w db = ground arith

-- An assignment fails and leaves the accounts alone, or stays under the cap.
abbrev pub Assigned : ℕ → List Account → Result Account × Db → Type 0
Assigned n before x = (x.1.accounts ≡ before) ⊎ (((e : Err) → x.0 ≢ err e) × Within n x.1.accounts)

pub assign-Assigned :
    (n i w : ℕ) (before : List Account) (db : Db)
    → db.accounts ≡ before
    → Within n before
    → UniqueIds before
    → count (is_on w) before < n
    → Assigned n before (assign i w db)
assign-Assigned n i w before db e h u c = elim (assign-accounts i w db) [
  | inl q ↦ inl (q ∙ e)
  | inr (k, q) ↦ inr (k, rw (q, e) (assigned-Within n i w db.now before h u c))
]

-- The check writes nothing, and a container that passes it has room under the cap.
pub has_free_slot-room :
    (cfg : Config) (w : Worker) (p : Platform) (db : Db)
    → ((has_free_slot cfg w p db).1.accounts ≡ db.accounts)
      × ((has_free_slot cfg w p db).0 ≡ true
          → count (is_on w.id) db.accounts < cfg.max_per_container)
unfolding has_free_slot room_counted room_listed count_by_worker list_by_worker
has_free_slot-room cfg w p db = ground arith

module _ (n : ℕ) (before : List Account) where
  -- The loop over the candidates leaves the accounts alone, or has placed one under the cap.
  pub data Walked (x : Result (Option (Account × Worker)) × Db) : Type 0 where
    untouched : x.1.accounts ≡ before → Walked x
    placed : (y : Account × Worker) → x.0 ≡ ok (some y) → Within n x.1.accounts → Walked x

  -- So does a call of the packer.
  pub data Tried (x : Result (Account × Worker) × Db) : Type 0 where
    unchanged : x.1.accounts ≡ before → Tried x
    packed : (y : Account × Worker) → x.0 ≡ ok y → Within n x.1.accounts → Tried x

-- The database never answers with an id that an account names, as the foreign key makes sure.
abbrev pub IsFresh : (Db → ℕ) → Type 0
IsFresh new_id = (db : Db) → count (is_on (new_id db)) db.accounts ≡ 0

module _ (n : ℕ) (before : List Account) where
  pub placeable-Tried :
      (a : Account) (run : M (Account × Worker)) (db : Db)
      → db.accounts ≡ before
      → Tried n before (run db)
      → Tried n before (if_placeable a run db)
  unfolding if_placeable
  placeable-Tried a run db e t = elim (Bool-cases (is_packable a)) [
    | inr q ↦ rw (q, if_placeable) (unchanged e)
    | inl q ↦
        rw (q, if_placeable)
          (elim (Option-cases a.worker_id) [ inr (w, o) ↦ rw o (unchanged e) | inl o ↦ rw o t ])
  ]

module _ (ports : Ports) (cfg : Config) (before : List Account)
    (h : Within cfg.max_per_container before) (u : UniqueIds before) where
  Assigned-Tried :
      (w : Worker) (x : Result Account × Db)
      → Assigned cfg.max_per_container before x
      → Tried cfg.max_per_container before (bind_result x (λ b db. (ok (b, w), db)))
  Assigned-Tried w (ok b, db') (inl e) = unchanged e
  Assigned-Tried w (ok b, db') (inr (k, e)) = packed (b, w) refl e
  Assigned-Tried w (err q, db') (inl e) = unchanged e
  Assigned-Tried w (err q, db') (inr (k, e)) = ground (arith, k q)

  -- Assigning to a container that has room for one more.
  pub chosen-Tried :
      (a : Account) (x : Result Worker × Db)
      → x.1.accounts ≡ before
      → ((w : Worker) → x.0 ≡ ok w → count (is_on w.id) before < cfg.max_per_container)
      → Tried cfg.max_per_container before (bind_result x (assign_to ports a))
  unfolding assign_to
  chosen-Tried a (err q, db) e c = unchanged e
  chosen-Tried a (ok w, db) e c =
      Assigned-Tried w (assign a.id w.id db)
        (assign-Assigned cfg.max_per_container a.id w.id before db e h u (c w refl))

pub get_by_id-accounts : (i : ℕ) (db : Db) → (get_by_id i db).1.accounts ≡ db.accounts
unfolding get_by_id
get_by_id-accounts i db = ground arith

-- What a call of the packer may do to the accounts: an error leaves them as they were, and no
-- container is over the cap.
pub record Packed (n : ℕ) (before : List Account) (x : Result (Account × Worker) × Db)
    : Type 0 where
  pub within_cap : Within n x.1.accounts
  pub error_keeps : (e : Err) → x.0 ≡ err e → x.1.accounts ≡ before

pub Tried-Packed :
    (n : ℕ) (before : List Account) (x : Result (Account × Worker) × Db)
    → Within n before
    → Tried n before x
    → Packed n before x
Tried-Packed n before x h (unchanged e) = record { within_cap = rw e h; error_keeps = λ q r. e }
Tried-Packed n before x h (packed y e c) = record {
  within_cap = c;
  error_keeps = λ q r. ground (arith, e, r);
}
