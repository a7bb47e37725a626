-- ===== src/Novnc.antt =====
-- apps/api/internal/service/novnc_allocator.go: the host ports of the containers' live views. The
-- formatting of a URL and the reading of a number (Sprintf and Sscanf of the fmt package) are
-- parameters. A negative port does not pass the tests of the code and is not represented.
pub mod Range
use jg_smm.Prelude.{
  ℕ, zero, suc, ◌-◌, String, Bool, true, false, ◌||◌, ◌==◌, ltb, if◌then◌else◌, List, [], ◌∷◌,
  Option, none, some, any,
}
use jg_smm.Prelude.Text.{codes}
use jg_smm.Domain.Entities.{Worker}
use jg_smm.Store.{Db, M, Result, ok, err, conflict, validation, pure, ◌>>=◌}
use jg_smm.Store.Workers.{list, everyone}

pub record NovncAllocator : Type 0 where
  pub host : String
  pub port_min : ℕ
  pub port_max : ℕ

-- The text behind the last ":", if there is one.
unfoldable pub after_last_colon : List ℕ → Option (List ℕ)
after_last_colon [] = none
after_last_colon (c ∷ s) = elim (after_last_colon s) [
  | some t ↦ some t
  | none ↦ if c == 58 then some s else none
]

abbrev pub is_port : ℕ → ℕ → Bool
is_port p q = q == p

-- The scan of the ports from `p` on, of which there are `n`.
unfoldable pub first_free : List ℕ → ℕ → ℕ → Option ℕ
first_free taken p zero = none
first_free taken p (suc n) = elim (any (is_port p) taken) [
  | false ↦ some p
  | true ↦ first_free taken (suc p) n
]

abbrev pub or_conflict : Option ℕ → Result ℕ
or_conflict none = err conflict
or_conflict (some p) = ok p

unfoldable pub pick : NovncAllocator → List ℕ → Option ℕ → Result ℕ
unfolding first_free
pick a taken (some p) =
    if ltb p a.port_min || ltb a.port_max p
    then err validation
    else if any (is_port p) taken
    then err conflict
    else ok p
pick a taken none = or_conflict (first_free taken a.port_min (suc a.port_max - a.port_min))

module _ (scan : List ℕ → Option ℕ) (format : String → ℕ → String) where
  abbrev pub number_or_zero : Option (List ℕ) → ℕ
  number_or_zero none = 0
  number_or_zero (some s) = elim (scan s) [ none ↦ 0 | some p ↦ p ]

  unfoldable pub novnc_port_of : Option String → ℕ
  unfolding after_last_colon
  novnc_port_of none = 0
  novnc_port_of (some url) = number_or_zero (after_last_colon (codes url))

  unfoldable pub ports_of : List Worker → List ℕ
  unfolding novnc_port_of
  ports_of [] = []
  ports_of (w ∷ ws) =
      let rest : List ℕ = ports_of ws in
      let p : ℕ = novnc_port_of w.novnc_service in if ltb 0 p then p ∷ rest else rest

  unfoldable pub used_ports : M (List ℕ)
  unfolding ports_of
  used_ports = list everyone 500 >>= λ workers. pure (ports_of workers)

  unfoldable pub picked : NovncAllocator → Result ℕ → M (Option String)
  picked a (ok p) db = (ok (some (format a.host p)), db)
  picked a (err e) db = (err e, db)

  unfoldable pub allocate : NovncAllocator → Option ℕ → M (Option String)
  unfolding pick picked used_ports
  allocate a requested =
      if ltb 0 a.port_max
      then used_ports >>= (λ taken. picked a (pick a taken requested))
      else pure none
