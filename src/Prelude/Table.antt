-- ===== src/Prelude/Table.antt =====
-- A table as the list of its rows: the rows that a test picks are rewritten or removed.
use jg_smm.Prelude.{
  ◌≡◌, refl, Bool, true, false, List, [], ◌∷◌, none, some, arith, find, any, count, length, suc, ap,
}

module _ {ℓ} {A : Type ℓ} where
  abbrev pub apply_if : (A → Bool) → (A → A) → A → A
  apply_if p f x = elim (p x) [ true ↦ f x | false ↦ x ]

  unfoldable pub update_where : (A → Bool) → (A → A) → List A → List A
  update_where p f [] = []
  update_where p f (x ∷ xs) = apply_if p f x ∷ update_where p f xs

  -- What a lookup sees after an update that keeps the test: the rewritten row.
  pub find-update_where :
      (p : A → Bool) (f : A → A) (xs : List A)
      → ((x : A) → p x ≡ true → p (f x) ≡ true)
      → find p (update_where p f xs) ≡ elim (find p xs) [ none ↦ none | some x ↦ some (f x) ]
  unfolding update_where
  find-update_where p f [] h = refl
  find-update_where p f (x ∷ xs) h = ground (arith, h x, find-update_where p f xs h)

  -- A row that the test does not pick is found as before.
  pub find-update_other :
      (p q : A → Bool) (f : A → A) (xs : List A)
      → ((x : A) → p x ≡ true → (q x ≡ false))
      → ((x : A) → p x ≡ true → (q (f x) ≡ false))
      → find q (update_where p f xs) ≡ find q xs
  unfolding update_where
  find-update_other p q f [] h k = refl
  find-update_other p q f (x ∷ xs) h k = ground (arith, h x, k x, find-update_other p q f xs h k)

  -- A count is kept by an update that keeps its test.
  pub count-update_where :
      (q p : A → Bool) (f : A → A) (xs : List A)
      → ((x : A) → q (f x) ≡ q x)
      → count q (update_where p f xs) ≡ count q xs
  unfolding update_where
  count-update_where q p f [] h = refl
  count-update_where q p f (x ∷ xs) h = ground (arith, h x, count-update_where q p f xs h)

  pub any-update_where :
      (q p : A → Bool) (f : A → A) (xs : List A)
      → ((x : A) → q (f x) ≡ q x)
      → any q (update_where p f xs) ≡ any q xs
  unfolding update_where
  any-update_where q p f [] h = refl
  any-update_where q p f (x ∷ xs) h = ground (arith, h x, any-update_where q p f xs h)

  pub length-update_where :
      (p : A → Bool) (f : A → A) (xs : List A) → length (update_where p f xs) ≡ length xs
  unfolding update_where
  length-update_where p f [] = refl
  length-update_where p f (x ∷ xs) = ap suc (length-update_where p f xs)
