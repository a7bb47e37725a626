-- ===== src/Login.antt =====
-- apps/api/internal/service/auth.go, `loginLimiter`: how many logins an address may try. The map is a
-- function from addresses to the times of their attempts; the address 0 stands for the empty text.
-- One process holds the limiter, and its lock makes each call one step.
pub mod Window
pub mod Tokens
pub mod Rotation
use jg_smm.Prelude.{
  ℕ, zero, suc, ◌+◌, ◌==◌, ltb, Bool, true, false, if◌then◌else◌, List, [], ◌∷◌, ◌++◌, keep, length,
}

abbrev pub login_window : ℕ
login_window = 60_000_000_000

abbrev pub login_max_per_ip : ℕ
login_max_per_ip = 10

-- `t.After(now.Add(-loginWindow))`, written so that the natural numbers do not cut the difference off.
abbrev pub is_recent : ℕ → ℕ → Bool
is_recent now t = ltb now (t + login_window)

abbrev pub Limiter : Type 0
Limiter = ℕ → List ℕ

abbrev pub with_hits : ℕ → List ℕ → Limiter → Limiter
with_hits ip hits l j = if j == ip then hits else l j

-- `allow`: the attempt is recorded whichever the answer is.
unfoldable pub allow : ℕ → ℕ → Limiter → Bool × Limiter
allow now zero l = (true, l)
allow now (suc ip) l =
    let kept = keep (is_recent now) (l (suc ip)) in
    (ltb (length kept) login_max_per_ip, with_hits (suc ip) (kept ++ (now ∷ [])) l)
