-- ===== src/Store/Texts.antt =====
-- Texts compared by their code points, as the columns of the store compare them.
use jg_smm.Prelude.{ℕ, ◌≡◌, refl, true, List, [], ◌∷◌, arith}
use jg_smm.Store.Workers.{same_text}

pub same_text-≡ : (s t : List ℕ) → same_text s t ≡ true → s ≡ t
same_text-≡ [] [] h = refl
same_text-≡ [] (c ∷ t) h = ground (arith, h)
same_text-≡ (c ∷ s) [] h = ground (arith, h)
same_text-≡ (c ∷ s) (d ∷ t) h = ground (arith, h, same_text-≡ s t)

pub same_text_refl : (s : List ℕ) → same_text s s ≡ true
same_text_refl [] = refl
same_text_refl (c ∷ s) = ground (arith, same_text_refl s)
