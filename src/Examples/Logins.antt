-- ===== src/Examples/Logins.antt =====
-- A refresh of a sample session.
use jg_smm.Prelude.{ℕ, ◌≡◌, refl, ap, ◌≢◌, String, [], ◌∷◌, true, false, arith, length}
use jg_smm.Prelude.Text.{codes}
use jg_smm.Prelude.Table.{update_where}
use jg_smm.Store.{Db, Result, ok, err, is_ok}
use jg_smm.Store.Users.{new_session, get_active, revoke, create_session}
use jg_smm.Login.Tokens.{Ports, refresh, start_session, stored_session}
use jg_smm.Login.Rotation.{IsSpent, refresh_lem}
use jg_smm.Examples.{sample_db}

-- The hash of a token is its length, and every new token has three letters.
abbrev sample_ports : Ports
sample_ports = record {
  issue = λ i r db. ok "access";
  generate = λ db. ok "new";
  hash = λ s. length (codes s);
  verify_password = λ s u. true;
  new_id = λ db. length db.sessions;
}

abbrev session_db : Db
session_db = record sample_db { sessions = new_session 0 1 4 5_000 ∷ [] }

abbrev token_size : Result String → ℕ
token_size (ok s) = length (codes s)
token_size (err e) = 0

new_is_other :
    (db : Db) (t : String)
    → sample_ports.generate db ≡ ok t
    → sample_ports.hash t ≢ sample_ports.hash "used"
new_is_other db t e = let size : 3 ≡ length (codes t) = ap token_size e in omega (arith, size)

first_refresh : is_ok (refresh sample_ports "used" session_db).0 ≡ true
unfolding refresh get_active revoke start_session stored_session create_session update_where
first_refresh = refl

refresh_lem_example :
    IsSpent 4 (refresh sample_ports "used" session_db).1.sessions
    × (is_ok (refresh sample_ports "used" (refresh sample_ports "used" session_db).1).0 ≡ false)
refresh_lem_example = refresh_lem sample_ports "used" new_is_other session_db first_refresh
