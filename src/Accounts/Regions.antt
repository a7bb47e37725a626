-- ===== src/Accounts/Regions.antt =====
-- account.go, `AccountsByRegion`: the accounts grouped by the place of their worker. A place is a text
-- as its code points, and a group holds the accounts themselves in place of their views. `trim` is
-- TrimSpace of the strings package, and the groups are sorted by insertion, which sorts as
-- `sort.Slice` does since their names differ.
use jg_smm.Prelude.{
  ℕ, ◌+◌, ◌≡◌, refl, ltb, ◌==◌, Bool, true, false, if◌then◌else◌, List, [], ◌∷◌, ◌++◌, Option, none,
  some, String, count, All, find, arith, inl, inr, Bool-cases, ==_refl,
}
use jg_smm.Prelude.Text.{codes}
use jg_smm.Domain.Entities.{Account, Worker}
use jg_smm.Store.{M, ◌>>=◌, pure}
use jg_smm.Store.Accounts.{has_worker_id}
use jg_smm.Store.Accounts.Creation.{every_account}
use jg_smm.Store.Accounts.Creation
use jg_smm.Store.Workers.{same_text, everyone}
use jg_smm.Store.Workers

abbrev pub unassigned_region : List ℕ
unassigned_region = codes "unassigned"

-- `r < s` on texts.
pub less_text : List ℕ → List ℕ → Bool
less_text s [] = false
less_text [] (d ∷ t) = true
less_text (c ∷ s) (d ∷ t) =
    let rest = less_text s t in if ltb c d then true else if c == d then rest else false

abbrev pub or_region : List ℕ → List ℕ → List ℕ
or_region region [] = region
or_region region (c ∷ s) = c ∷ s

pub record RegionGroup : Type 0 where
  pub region : List ℕ
  pub accounts : List Account

-- A group is put into the map of the groups.
unfoldable pub add_to : List ℕ → Account → List RegionGroup → List RegionGroup
add_to r a [] = record { region = r; accounts = a ∷ [] } ∷ []
add_to r a (g ∷ gs) =
    let rest = add_to r a gs in
    if same_text g.region r then record g { accounts = g.accounts ++ (a ∷ []) } ∷ gs else g ∷ rest

-- The order of the groups: the accounts without a place come last.
abbrev pub comes_before : List ℕ → List ℕ → Bool
comes_before r s =
    if same_text r unassigned_region
    then false
    else if same_text s unassigned_region
    then true
    else less_text r s

unfoldable pub insert_group : RegionGroup → List RegionGroup → List RegionGroup
insert_group g [] = g ∷ []
insert_group g (h ∷ hs) =
    let rest = insert_group g hs in
    if comes_before g.region h.region then g ∷ (h ∷ hs) else h ∷ rest

unfoldable pub sort_groups : List RegionGroup → List RegionGroup
unfolding insert_group
sort_groups [] = []
sort_groups (g ∷ gs) = insert_group g (sort_groups gs)

module _ (trim : String → List ℕ) where
  abbrev pub place_of : Worker → List ℕ
  place_of w = elim w.location [
    | none ↦ trim w.region
    | some l ↦ or_region (trim w.region) (trim l)
  ]

  abbrev pub place_or : Option Worker → List ℕ
  place_or none = unassigned_region
  place_or (some w) = or_region unassigned_region (place_of w)

  -- The place of an account, among the workers that were listed.
  unfoldable pub region_of : List Worker → Account → List ℕ
  region_of workers a = elim a.worker_id [
    | none ↦ unassigned_region
    | some w ↦ place_or (find (has_worker_id w) workers)
  ]

  unfoldable pub group_each : List Worker → List Account → List RegionGroup → List RegionGroup
  unfolding add_to region_of
  group_each workers [] groups = groups
  group_each workers (a ∷ rest) groups =
      group_each workers rest (add_to (region_of workers a) a groups)

  unfoldable pub by_region : List Worker → List Account → List RegionGroup
  unfolding group_each sort_groups
  by_region workers accounts = sort_groups (group_each workers accounts [])

  unfoldable pub accounts_by_region : M (List RegionGroup)
  unfolding by_region
  accounts_by_region = Creation.list every_account 200 >>= λ accounts.
      Workers.list everyone 500 >>= λ workers. pure (by_region workers accounts)

-- How many accounts of all groups pass a test.
abbrev pub count_grouped : (Account → Bool) → List RegionGroup → ℕ
count_grouped p [] = 0
count_grouped p (g ∷ gs) = count p g.accounts + count_grouped p gs

count-append_one :
    (p : Account → Bool) (xs : List Account) (a : Account)
    → count p (xs ++ (a ∷ [])) ≡ count p xs + count p (a ∷ [])
count-append_one p [] a = omega arith
count-append_one p (x ∷ xs) a = ground (arith, count-append_one p xs a)

count-add_to :
    (p : Account → Bool) (r : List ℕ) (a : Account) (gs : List RegionGroup)
    → count_grouped p (add_to r a gs) ≡ count_grouped p gs + count p (a ∷ [])
unfolding add_to
count-add_to p r a [] = omega arith
count-add_to p r a (g ∷ gs) = elim (Bool-cases (same_text g.region r)) [
  | inl e ↦ rw e (omega (arith, count-append_one p g.accounts a))
  | inr e ↦ rw e (omega (arith, count-add_to p r a gs))
]

count-insert_group :
    (p : Account → Bool) (g : RegionGroup) (gs : List RegionGroup)
    → count_grouped p (insert_group g gs) ≡ count p g.accounts + count_grouped p gs
unfolding insert_group
count-insert_group p g [] = refl
count-insert_group p g (h ∷ hs) = elim (Bool-cases (comes_before g.region h.region)) [
  | inl e ↦ rw e refl
  | inr e ↦ rw e (omega (arith, count-insert_group p g hs))
]

count-sort_groups :
    (p : Account → Bool) (gs : List RegionGroup)
    → count_grouped p (sort_groups gs) ≡ count_grouped p gs
unfolding sort_groups
count-sort_groups p [] = refl
count-sort_groups p (g ∷ gs) =
    omega (arith, count-insert_group p g (sort_groups gs), count-sort_groups p gs)

-- A group's accounts all belong to its place.
abbrev pub IsFor : (Account → List ℕ) → RegionGroup → Type 0
IsFor region g = All (λ a. same_text (region a) g.region ≡ true) g.accounts

same_text_refl : (s : List ℕ) → same_text s s ≡ true
same_text_refl [] = refl
same_text_refl (c ∷ s) = rw (==_refl c, same_text) (same_text_refl s)

same_text_sym : (s t : List ℕ) → same_text s t ≡ true → same_text t s ≡ true
same_text_sym [] [] h = refl
same_text_sym [] (d ∷ t) h = h
same_text_sym (c ∷ s) [] h = h
same_text_sym (c ∷ s) (d ∷ t) h = ground (arith, h, same_text_sym s t)

module _ (region : Account → List ℕ) where
  All-append_one :
      (g : List ℕ) (xs : List Account) (a : Account)
      → All (λ b. same_text (region b) g ≡ true) xs
      → same_text (region a) g ≡ true
      → All (λ b. same_text (region b) g ≡ true) (xs ++ (a ∷ []))
  All-append_one g [] a h k = (k, tt)
  All-append_one g (x ∷ xs) a (q, h) k = (q, All-append_one g xs a h k)

  add_to-IsFor :
      (a : Account) (gs : List RegionGroup)
      → All (IsFor region) gs
      → All (IsFor region) (add_to (region a) a gs)
  unfolding add_to
  add_to-IsFor a [] h = ((same_text_refl (region a), tt), tt)
  add_to-IsFor a (g ∷ gs) (q, h) = elim (Bool-cases (same_text g.region (region a))) [
    | inl e ↦ rw e (All-append_one g.region g.accounts a q (same_text_sym g.region (region a) e), h)
    | inr e ↦ rw e (q, add_to-IsFor a gs h)
  ]

  insert_group-IsFor :
      (g : RegionGroup) (gs : List RegionGroup)
      → IsFor region g
      → All (IsFor region) gs
      → All (IsFor region) (insert_group g gs)
  unfolding insert_group
  insert_group-IsFor g [] q h = (q, tt)
  insert_group-IsFor g (k ∷ ks) q (r, h) = elim (Bool-cases (comes_before g.region k.region)) [
    | inl e ↦ rw e (q, (r, h))
    | inr e ↦ rw e (r, insert_group-IsFor g ks q h)
  ]

  sort_groups-IsFor :
      (gs : List RegionGroup) → All (IsFor region) gs → All (IsFor region) (sort_groups gs)
  unfolding sort_groups
  sort_groups-IsFor [] h = tt
  sort_groups-IsFor (g ∷ gs) (q, h) =
      insert_group-IsFor g (sort_groups gs) q (sort_groups-IsFor gs h)

module _ (trim : String → List ℕ) (workers : List Worker) where
  group_each-count :
      (p : Account → Bool) (accounts : List Account) (gs : List RegionGroup)
      → count_grouped p (group_each trim workers accounts gs)
        ≡ count p accounts + count_grouped p gs
  unfolding group_each
  group_each-count p [] gs = omega arith
  group_each-count p (a ∷ rest) gs =
      let r = region_of trim workers a in
      let k = group_each-count p rest (add_to r a gs) in
      let c = count-add_to p r a gs in ground (arith, k, c)

  group_each-IsFor :
      (accounts : List Account) (gs : List RegionGroup)
      → All (IsFor (region_of trim workers)) gs
      → All (IsFor (region_of trim workers)) (group_each trim workers accounts gs)
  unfolding group_each
  group_each-IsFor [] gs h = h
  group_each-IsFor (a ∷ rest) gs h =
      group_each-IsFor rest (add_to (region_of trim workers a) a gs)
        (add_to-IsFor (region_of trim workers) a gs h)

-- The groups of a listing hold its accounts and no others, each as often as it is listed: any test is
-- passed by as many accounts of the groups as of the listing. Every account stands in the group that
-- is named by the place of its worker.
pub by_region_lem :
    (trim : String → List ℕ) (workers : List Worker) (accounts : List Account)
    → ((p : Account → Bool) → count_grouped p (by_region trim workers accounts) ≡ count p accounts)
      × All (IsFor (region_of trim workers)) (by_region trim workers accounts)
unfolding by_region
by_region_lem trim workers accounts = (
  λ p. omega (
    arith,
    count-sort_groups p (group_each trim workers accounts []),
    group_each-count trim workers p accounts [],
  ),
  sort_groups-IsFor (region_of trim workers) (group_each trim workers accounts [])
      (group_each-IsFor trim workers accounts [] tt),
)
