-- ===== src/Login/Rotation.antt =====
-- auth.go, `Refresh`: what becomes of a refresh token that was presented.
use jg_smm.Prelude.{
  ℕ, ◌≡◌, refl, ◌≢◌, Bool, true, false, String, List, [], ◌∷◌, ◌++◌, none, arith, any, find,
}
use jg_smm.Prelude.Table.{update_where}
use jg_smm.Domain.Entities.{User, AuthSession}
use jg_smm.Store.{Db, M, Result, ok, err, is_ok, bind_result}
use jg_smm.Store.Users.{
  is_live_hash, is_active, new_session, revoked, get_active, revoke, create_session, rotated,
}
use jg_smm.Login.Tokens.{
  Ports, Session, stored_session, after_generate, after_issue, start_session, refresh,
}

-- No session that is not revoked has the hash.
abbrev pub IsSpent : ℕ → List AuthSession → Type 0
IsSpent h sessions = any (is_live_hash h) sessions ≡ false

revoked-IsSpent :
    (h now : ℕ) (ss : List AuthSession) → IsSpent h (update_where (is_live_hash h) (revoked now) ss)
unfolding update_where
revoked-IsSpent h now [] = refl
revoked-IsSpent h now (s ∷ ss) = ground (arith, revoked-IsSpent h now ss)

append-IsSpent :
    (h : ℕ) (ss : List AuthSession) (s : AuthSession)
    → IsSpent h ss
    → s.token_hash ≢ h
    → IsSpent h (ss ++ (s ∷ []))
append-IsSpent h [] s p n = ground (arith, n)
append-IsSpent h (t ∷ ss) s p n = ground (arith, append-IsSpent h ss s, p, n)

spent-inactive :
    (h now : ℕ) (ss : List AuthSession) → IsSpent h ss → find (is_active h now) ss ≡ none
spent-inactive h now [] p = refl
spent-inactive h now (s ∷ ss) p = ground (arith, spent-inactive h now ss, p)

get_active-spent : (h : ℕ) (db : Db) → IsSpent h db.sessions → is_ok (get_active h db).0 ≡ false
unfolding get_active
get_active-spent h db p = ground (arith, spent-inactive h db.now db.sessions p)

revoke-IsSpent :
    (h : ℕ) (db : Db)
    → is_ok (revoke h rotated db).0 ≡ true
    → IsSpent h (revoke h rotated db).1.sessions
unfolding revoke
revoke-IsSpent h db o = ground (arith, o, revoked-IsSpent h db.now db.sessions)

create_session-IsSpent :
    (new_id : Db → ℕ) (user h g expires : ℕ) (db : Db)
    → IsSpent h db.sessions
    → g ≢ h
    → IsSpent h (create_session new_id user g expires db).1.sessions
unfolding create_session
create_session-IsSpent new_id user h g expires db p n = created db.faults refl
  where
    created :
        (faults : List Bool)
        → db.faults ≡ faults
        → IsSpent h (create_session new_id user g expires db).1.sessions
    created [] q =
        ground
          (arith, append-IsSpent h db.sessions (new_session (new_id db) user g expires) p n, q, p)
    created (true ∷ rest) q = ground (arith, q, p)
    created (false ∷ rest) q = ground (
      arith,
      append-IsSpent h db.sessions
          (new_session (new_id (record db { faults = rest })) user g expires) p n,
      q,
      p,
    )

bind-IsSpent :
    {A : Type 0} (h : ℕ) (x : Result A × Db) (y : A → Session)
    → IsSpent h x.1.sessions
    → IsSpent h (bind_result x (λ a db. (ok (y a), db))).1.sessions
bind-IsSpent h (ok a, db) y p = p
bind-IsSpent h (err e, db) y p = p

module _ (ports : Ports) (token : String)
    (other : (db : Db) (t : String)
      → ports.generate db ≡ ok t
      → ports.hash t ≢ ports.hash token) where
  generated-IsSpent :
      (u : User) (access : String) (db : Db) (g : Result String)
      → ports.generate db ≡ g
      → IsSpent (ports.hash token) db.sessions
      → IsSpent (ports.hash token) (after_generate ports u access g db).1.sessions
  unfolding stored_session
  generated-IsSpent u access db (err e) q p = p
  generated-IsSpent u access db (ok t) q p = bind-IsSpent (ports.hash token) _ _ (
      create_session-IsSpent ports.new_id u.id (ports.hash token) (ports.hash t) _ db p
        (other db t q))

  issued-IsSpent :
      (u : User) (db : Db) (g : Result String)
      → IsSpent (ports.hash token) db.sessions
      → IsSpent (ports.hash token) (after_issue ports u g db).1.sessions
  issued-IsSpent u db (err e) p = p
  issued-IsSpent u db (ok access) p = generated-IsSpent u access db (ports.generate db) refl p

  revoked_then-IsSpent :
      (u : User) (x : Result (Unit {0}) × Db)
      → (is_ok x.0 ≡ true → IsSpent (ports.hash token) x.1.sessions)
      → is_ok (bind_result x (λ v. start_session ports u)).0 ≡ true
      → IsSpent (ports.hash token) (bind_result x (λ v. start_session ports u)).1.sessions
  unfolding start_session
  revoked_then-IsSpent u (ok v, db) p o = issued-IsSpent u db _ (p refl)
  revoked_then-IsSpent u (err e, db) p o = ground (arith, o)

  found-IsSpent :
      (x : Result (AuthSession × User) × Db)
      → is_ok
          (bind_result x (λ f db.
            bind_result (revoke (ports.hash token) rotated db) (λ v. start_session ports f.1))).0
        ≡ true
      → IsSpent
          (ports.hash token)
          (bind_result x (λ f db.
            bind_result
              (revoke (ports.hash token) rotated db)
              (λ v. start_session ports f.1))).1.sessions
  found-IsSpent (err e, db) o = ground (arith, o)
  found-IsSpent (ok f, db) o =
      revoked_then-IsSpent f.1 (revoke (ports.hash token) rotated db)
        (revoke-IsSpent (ports.hash token) db) o

  refused :
      (x : Result (AuthSession × User) × Db)
      → is_ok x.0 ≡ false
      → is_ok
          (bind_result x (λ f db.
            bind_result (revoke (ports.hash token) rotated db) (λ v. start_session ports f.1))).0
        ≡ false
  refused (ok f, db) o = ground (arith, o)
  refused (err e, db) o = refl

  -- If no token that the generator gives has the hash of this one, then after a `Refresh` that
  -- succeeded no live session has its hash, and a second `Refresh` with it is answered by an error.
  pub refresh_lem :
      (db : Db)
      → is_ok (refresh ports token db).0 ≡ true
      → IsSpent (ports.hash token) (refresh ports token db).1.sessions
        × (is_ok (refresh ports token (refresh ports token db).1).0 ≡ false)
  unfolding refresh
  refresh_lem db o =
      let spent = found-IsSpent (get_active (ports.hash token) db) o in
      (spent, refused _ (get_active-spent (ports.hash token) _ spent))

get_active-sessions : (h : ℕ) (db : Db) → (get_active h db).1.sessions ≡ db.sessions
unfolding get_active
get_active-sessions h db = ground arith

not_found-sessions :
    (before : List AuthSession) (x : Result (AuthSession × User) × Db)
    (f : AuthSession × User → M Session)
    → x.1.sessions ≡ before
    → is_ok x.0 ≡ false
    → (bind_result x f).1.sessions ≡ before
not_found-sessions before (ok a, db) f e o = ground (arith, o)
not_found-sessions before (err q, db) f e o = e

-- A `Refresh` with a token that was used before changes no session: the other sessions of its user
-- stay live.
pub refresh_spent_lem :
    (ports : Ports) (token : String) (db : Db)
    → IsSpent (ports.hash token) db.sessions
    → (refresh ports token db).1.sessions ≡ db.sessions
unfolding refresh
refresh_spent_lem ports token db p =
    not_found-sessions db.sessions (get_active (ports.hash token) db) _
      (get_active-sessions (ports.hash token) db) (get_active-spent (ports.hash token) db p)
