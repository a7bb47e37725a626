-- ===== src/Templates.antt =====
-- apps/api/internal/service/template.go: the choice of a comment for a target. The pool of the unused
-- templates and the number drawn below a bound are given, as are the functions of Go's library that
-- the screening uses.
pub mod Choice
use jg_smm.Prelude.{
  ℕ, ◌+◌, ◌-◌, ltb, Bool, true, false, if◌then◌else◌, List, [], ◌∷◌, Option, none, some,
}
use jg_smm.Store.{Db, M, Err, Result, ok, err, template_pool_empty, banned_pattern, validation}
use jg_smm.Domain.Template.{CommentTemplate, compile_banned, render, rendered, match_banned}

pub record PickOutcome : Type 0 where
  pub template_id : ℕ
  pub rendered_text : List ℕ

abbrev pub total_weight : List CommentTemplate → ℕ
total_weight [] = 0
total_weight (t ∷ ts) = t.weight + total_weight ts

-- The walk over the pool with the first candidate and those after it: `draw - weight < 0` is
-- `draw < weight`, and the last candidate stands where the weights run out.
unfoldable pub walk : ℕ → CommentTemplate → List CommentTemplate → CommentTemplate
walk draw t [] = t
walk draw t (u ∷ rest) =
    let later = walk (draw - t.weight) u rest in if ltb draw t.weight then t else later

-- `rng.Intn(total)`, as the draw for the total.
unfoldable pub weighted_pick : (ℕ → ℕ) → CommentTemplate → List CommentTemplate → CommentTemplate
unfolding walk
weighted_pick intn t rest = walk (intn (total_weight (t ∷ rest))) t rest

module _ (trim : List ℕ → List ℕ) (compile : List ℕ → Option (List ℕ → Bool)) where
  abbrev pub outcome_of : CommentTemplate → List ℕ → PickOutcome
  outcome_of t text = record { template_id = t.id; rendered_text = text }

  abbrev pub unless_hit : CommentTemplate → List ℕ → Option (List ℕ) → Result PickOutcome
  unless_hit t text none = ok (outcome_of t text)
  unless_hit t text (some pattern) = err banned_pattern

  -- Patterns that do not compile screen nothing.
  unfoldable pub screened :
      CommentTemplate → List ℕ → Result (List (List ℕ × (List ℕ → Bool))) → Result PickOutcome
  screened t text (err e) = ok (outcome_of t text)
  screened t text (ok patterns) = unless_hit t text (match_banned text patterns)

  unfoldable pub pick_rendered : CommentTemplate → List ℕ → Bool → Result PickOutcome
  unfolding screened
  pick_rendered t text false = err validation
  pick_rendered t text true = screened t text (compile_banned trim compile t.banned_words)

  unfoldable pub pick_text : (List ℕ → Option (List ℕ)) → CommentTemplate → Result PickOutcome
  unfolding pick_rendered
  pick_text values t = pick_rendered t (render values t) (rendered (render values t))

  unfoldable pub pick_from :
      (ℕ → ℕ) → (List ℕ → Option (List ℕ)) → Result (List CommentTemplate) → Result PickOutcome
  unfolding weighted_pick pick_text
  pick_from intn values (err e) = err e
  pick_from intn values (ok []) = err template_pool_empty
  pick_from intn values (ok (t ∷ rest)) = pick_text values (weighted_pick intn t rest)
