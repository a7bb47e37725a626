-- ===== src/Novnc/Range.antt =====
-- novnc_allocator.go, `pick`: which port is handed out.
use jg_smm.Prelude.{
  ℕ, zero, suc, ◌+◌, ◌-◌, ◌≤◌, ◌<◌, ◌≡◌, refl, Bool, true, false, ltb, ◌==◌, ◌⊎◌, List, Option,
  none, some, arith, any, Bool-cases, inl, inr,
}
use jg_smm.Store.{ok, err, conflict, validation}
use jg_smm.Novnc.{NovncAllocator, is_port, first_free, pick}

abbrev pub is_taken : ℕ → List ℕ → Bool
is_taken p taken = any (is_port p) taken

first_free-some :
    (taken : List ℕ) (p n q : ℕ)
    → first_free taken p n ≡ some q
    → (p ≤ q)
      × (q < p + n)
      × (is_taken q taken ≡ false)
      × ((r : ℕ) → p ≤ r → r < q → is_taken r taken ≡ true)
unfolding first_free
first_free-some taken p zero q = ground arith
first_free-some taken p (suc n) q = elim (Bool-cases (any (is_port p) taken)) [
  | inr e ↦ rw (e, first_free) (λ h. ground (arith, e))
  | inl e ↦
      rw (e, first_free)
        (λ h.
          let (low, high, free, before) = first_free-some taken (suc p) n q h in
          (
            omega (arith, low),
            omega (arith, high),
            free,
            λ r l u. elim (Bool-cases (r == p)) [
              | inl same ↦ ground (arith, e, same)
              | inr other ↦ before r (ground (arith, other)) u
            ],
          ))
]

first_free-none :
    (taken : List ℕ) (p n : ℕ)
    → first_free taken p n ≡ none
    → (r : ℕ) → p ≤ r
    → r < p + n
    → is_taken r taken ≡ true
unfolding first_free
first_free-none taken p zero = λ h r l u. ground (arith, l, u)
first_free-none taken p (suc n) = elim (Bool-cases (any (is_port p) taken)) [
  | inr e ↦ rw (e, first_free) (λ h. ground (arith, e))
  | inl e ↦
      rw (e, first_free)
        (λ h r l u. elim (Bool-cases (r == p)) [
          | inl same ↦ ground (arith, e, same)
          | inr other ↦
              first_free-none taken (suc p) n h r (ground (arith, other)) (omega (arith, u))
        ])
]

-- What a caller may rely on of a port that `pick` hands out, and of its refusal.
pub data Picked (a : NovncAllocator) (taken : List ℕ) (requested : Option ℕ) : Type 0 where
  given :
      (p : ℕ)
      → pick a taken requested ≡ ok p
      → a.port_min ≤ p
      → p ≤ a.port_max
      → is_taken p taken ≡ false
      → ((r : ℕ) → requested ≡ some r → r ≡ p)
      → ((r : ℕ) → requested ≡ none → a.port_min ≤ r → r < p → is_taken r taken ≡ true)
      → Picked a taken requested
  exhausted :
      pick a taken requested ≡ err conflict
      → requested ≡ none
      → ((r : ℕ) → a.port_min ≤ r → r ≤ a.port_max → is_taken r taken ≡ true)
      → Picked a taken requested
  refused_taken :
      (p : ℕ)
      → pick a taken requested ≡ err conflict
      → requested ≡ some p
      → is_taken p taken ≡ true
      → Picked a taken requested
  refused_range :
      (p : ℕ)
      → pick a taken requested ≡ err validation
      → requested ≡ some p
      → (p < a.port_min) ⊎ (a.port_max < p)
      → Picked a taken requested

pick_none :
    (a : NovncAllocator) (taken : List ℕ) (o : Option ℕ)
    → first_free taken a.port_min (suc a.port_max - a.port_min) ≡ o
    → Picked a taken none
unfolding pick
pick_none a taken none e =
    exhausted (rw e refl) refl
      (λ r l u. first_free-none taken a.port_min _ e r l (omega (arith, l, u)))
pick_none a taken (some p) e =
    let (low, high, free, before) = first_free-some taken a.port_min _ p e in
    given p (rw e refl) low (omega (arith, low, high)) free (λ r h. ground (arith, h))
      (λ r h l u. before r l u)

pick_some : (a : NovncAllocator) (taken : List ℕ) (p : ℕ) → Picked a taken (some p)
unfolding pick
pick_some a taken p = elim (Bool-cases (ltb p a.port_min)) [
  | inl e ↦ refused_range p (rw e refl) refl (inl (ground (arith, e)))
  | inr e ↦ elim (Bool-cases (ltb a.port_max p)) [
    | inl f ↦ refused_range p (rw (e, f) refl) refl (inr (ground (arith, f)))
    | inr f ↦ elim (Bool-cases (any (is_port p) taken)) [
      | inl g ↦ refused_taken p (rw (e, f, g) refl) refl g
      | inr g ↦
          given p (rw (e, f, g) refl) (ground (arith, e)) (ground (arith, f)) g
            (λ r h. ground (arith, h)) (λ r h. ground (arith, h))
    ]
  ]
]

-- A port that `pick` hands out is in the range and not taken; it is the requested one if one is
-- requested, and otherwise the lowest such port; it reports a conflict without a request only when every port of the range is taken, and
-- refuses a request only for being taken or out of the range.
pub pick_lem :
    (a : NovncAllocator) (taken : List ℕ) (requested : Option ℕ) → Picked a taken requested
pick_lem a taken none = pick_none a taken _ refl
pick_lem a taken (some p) = pick_some a taken p
