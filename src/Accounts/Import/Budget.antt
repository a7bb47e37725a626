-- ===== src/Accounts/Import/Budget.antt =====
-- account.go, `importLimiter`: how many imports of one caller are let through.
use jg_smm.Prelude.{
  ℕ, suc, ◌-◌, ◌≤◌, ◌<◌, ◌≡◌, refl, ap, sym, ltb→lt, if◌then◌else◌, leb, ltb, Bool, true, false,
  List, [], ◌∷◌, ◌++◌, keep, count, length, All, arith, count-le-length, ==_refl,
}
use jg_smm.Login.Window.{InWindow, count-keep_recent, count-append}
use jg_smm.Accounts.Import.{
  ImportLimiter, is_in_window, allow_import, budgeted, with_imports, import_rate_limit,
}

-- How many of the calls at these times, in turn, are let through.
pub imports_granted : ℕ → List ℕ → ImportLimiter → ℕ
imports_granted caller [] l = 0
imports_granted caller (now ∷ times) l =
    let (pass, l') = allow_import caller now l in
    let rest : ℕ = imports_granted caller times l' in if pass then suc rest else rest

with_imports_lem :
    (caller : ℕ) (hits : List ℕ) (l : ImportLimiter) → with_imports caller hits l caller ≡ hits
with_imports_lem caller hits l = rw (==_refl caller) refl

module _ (caller start now : ℕ) (l : ImportLimiter) (w : InWindow start now) where
  -- What is left of the budget after a call.
  budgeted_lem :
      (rest : ℕ) (pass : Bool)
      → pass ≡ ltb (length (keep (is_in_window now) (l caller))) import_rate_limit
      → rest
        ≤ 10
          - count
              (leb start)
              ((budgeted caller now (keep (is_in_window now) (l caller)) l pass).1 caller)
      → (if (budgeted caller now (keep (is_in_window now) (l caller)) l pass).0
          then suc rest
          else rest)
        ≤ 10 - count (leb start) (l caller)
  budgeted_lem rest true p r =
      let kept = keep (is_in_window now) (l caller) in
      let n = count-le-length (leb start) kept in
      let c = count-keep_recent start now (l caller) w.1 in
      let a = count-append start now kept w.0 in
      let h = ap (count (leb start)) (with_imports_lem caller (kept ++ (now ∷ [])) l) in
      let short : length kept < 10 = ltb→lt _ _ (sym p) in omega (arith, n, c, a, short, r, h)
  budgeted_lem rest false p r =
      let kept = keep (is_in_window now) (l caller) in
      let c = count-keep_recent start now (l caller) w.1 in
      let h = ap (count (leb start)) (with_imports_lem caller kept l) in omega (arith, c, r, h)

imports_left :
    (caller start : ℕ) (times : List ℕ) (l : ImportLimiter)
    → All (InWindow start) times
    → imports_granted caller times l ≤ 10 - count (leb start) (l caller)
unfolding imports_granted allow_import
imports_left caller start [] l a = omega arith
imports_left caller start (now ∷ times) l (w, a) =
    budgeted_lem caller start now l w _ _ refl
      (imports_left caller start times (allow_import caller now l).1 a)

-- Of any imports of one caller, in any order and number and from any state of the limiter, at most
-- ten within one window of a minute are let through.
pub imports_granted_lem :
    (caller start : ℕ) (times : List ℕ) (l : ImportLimiter)
    → All (InWindow start) times
    → imports_granted caller times l ≤ 10
imports_granted_lem caller start times l a = omega (arith, imports_left caller start times l a)
