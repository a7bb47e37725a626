-- ===== src/Login/Window.antt =====
-- auth.go, `loginLimiter.allow`: how many attempts of one address are let through.
use jg_smm.Prelude.{
  ℕ, zero, suc, ◌+◌, ◌-◌, ◌≤◌, ◌<◌, ◌≡◌, refl, ap, ◌∙◌, if◌then◌else◌, leb, Bool, true, false, List,
  [], ◌∷◌, ◌++◌, keep, count, All, arith, count-le-length, ==_refl,
}
use jg_smm.Login.{login_window, is_recent, Limiter, allow}

-- How many of the attempts at these times, in turn, are let through.
pub granted : ℕ → List ℕ → Limiter → ℕ
granted ip [] l = 0
granted ip (now ∷ times) l =
    let (pass, l') = allow now ip l in
    let rest : ℕ = granted ip times l' in if pass then suc rest else rest

abbrev pub InWindow : ℕ → ℕ → Type 0
InWindow start t = (start ≤ t) × (t < start + login_window)

-- The hits since `start` are all kept.
pub count-keep_recent :
    (start now : ℕ) (hits : List ℕ)
    → now < start + login_window
    → count (leb start) (keep (is_recent now) hits) ≡ count (leb start) hits
count-keep_recent start now [] h = refl
count-keep_recent start now (t ∷ hits) h = ground (arith, count-keep_recent start now hits)

pub count-append :
    (start now : ℕ) (hits : List ℕ)
    → start ≤ now
    → count (leb start) (hits ++ (now ∷ [])) ≡ suc (count (leb start) hits)
count-append start now [] h = ground arith
count-append start now (t ∷ hits) h = ground (arith, count-append start now hits)

granted-step :
    (ip start now : ℕ) (times : List ℕ) (l : Limiter) (pass : Bool) (rest : ℕ)
    → InWindow start now
    → pass ≡ (allow now (suc ip) l).0
    → rest ≤ 10 - suc (count (leb start) (l (suc ip)))
    → (if pass then suc rest else rest) ≤ 10 - count (leb start) (l (suc ip))
unfolding allow
granted-step ip start now times l true rest w p r =
    let n = count-le-length (leb start) (keep (is_recent now) (l (suc ip))) in
    let c = count-keep_recent start now (l (suc ip)) w.1 in ground (arith, n, c, p, r)
granted-step ip start now times l false rest w p r = omega (arith, r)

hits-count :
    (ip start now : ℕ) (l : Limiter)
    → InWindow start now
    → count (leb start) ((allow now (suc ip) l).1 (suc ip)) ≡ suc (count (leb start) (l (suc ip)))
unfolding allow
hits-count ip start now l w = rw (==_refl (suc ip)) (
    count-append start now (keep (is_recent now) (l (suc ip))) w.0
    ∙ ap suc (count-keep_recent start now (l (suc ip)) w.1))

granted-left :
    (ip start : ℕ) (times : List ℕ) (l : Limiter)
    → All (InWindow start) times
    → granted (suc ip) times l ≤ 10 - count (leb start) (l (suc ip))
unfolding granted
granted-left ip start [] l a = omega arith
granted-left ip start (now ∷ times) l (w, a) =
    let r = granted-left ip start times (allow now (suc ip) l).1 a in
    let c = hits-count ip start now l w in
    granted-step ip start now times l (allow now (suc ip) l).0 _ w refl (omega (arith, r, c))

-- Of any attempts of one address, in any order and number and from any state of the limiter, at most
-- ten within one window of a minute are let through.
pub granted_lem :
    (ip start : ℕ) (times : List ℕ) (l : Limiter)
    → 1 ≤ ip
    → All (InWindow start) times
    → granted ip times l ≤ 10
granted_lem zero start times l h a = ground (arith, h)
granted_lem (suc ip) start times l h a = omega (arith, granted-left ip start times l a)
