-- ===== src/Templates/Choice.antt =====
-- template.go, `Pick` and `weightedPick`: which template is chosen, and what is let through.
use jg_smm.Prelude.{
  ℕ, ◌+◌, ◌-◌, ◌≤◌, ◌<◌, ◌≡◌, refl, ap, Bool, true, false, ltb, List, [], ◌∷◌, ◌++◌, Option, none,
  some, arith, inl, inr, ◌⊎◌, Bool-cases, ltb→lt,
}
use jg_smm.Store.{Err, Result, ok, err}
use jg_smm.Domain.Template.{CommentTemplate, compile_banned, render, rendered, match_banned}
use jg_smm.Templates.{
  PickOutcome, total_weight, walk, weighted_pick, unless_hit, screened, pick_rendered, pick_text,
  pick_from, outcome_of,
}

-- The template stands in the pool at the slice of the weights in which the draw lies.
pub record Lands (draw : ℕ) (pool : List CommentTemplate) (t : CommentTemplate) : Type 0 where
  pub before : List CommentTemplate
  pub after : List CommentTemplate
  pub split : pool ≡ before ++ (t ∷ after)
  pub above : total_weight before ≤ draw
  pub below : draw < total_weight before + t.weight

walk-Lands :
    (draw : ℕ) (t : CommentTemplate) (rest : List CommentTemplate)
    → draw < total_weight (t ∷ rest)
    → Lands draw (t ∷ rest) (walk draw t rest)
unfolding walk
walk-Lands draw t [] h = record {
  before = [];
  after = [];
  split = refl;
  above = omega arith;
  below = omega (arith, h);
}
walk-Lands draw t (u ∷ rest) h = elim (Bool-cases (ltb draw t.weight)) [
  | inl e ↦ rw e (record {
    before = [];
    after = u ∷ rest;
    split = refl;
    above = omega arith;
    below = omega (arith, ltb→lt draw t.weight e);
  })
  | inr e ↦
      let past : t.weight ≤ draw = ground (arith, e) in
      let l = walk-Lands (draw - t.weight) u rest (omega (arith, h, past)) in
      let a = l.above in
      let b = l.below in
      rw e (record {
        before = t ∷ l.before;
        after = l.after;
        split = ap (◌∷◌ t) l.split;
        above = omega (arith, a, past);
        below = omega (arith, b, past);
      })
]

-- Whatever is drawn below the total of the weights, the template that is chosen is the one of the pool
-- in whose slice of the weights the draw lies; so each is chosen for as many draws as it weighs.
pub weighted_pick-Lands :
    (intn : ℕ → ℕ) (t : CommentTemplate) (rest : List CommentTemplate)
    → intn (total_weight (t ∷ rest)) < total_weight (t ∷ rest)
    → Lands (intn (total_weight (t ∷ rest))) (t ∷ rest) (weighted_pick intn t rest)
unfolding weighted_pick
weighted_pick-Lands intn t rest h = walk-Lands (intn (total_weight (t ∷ rest))) t rest h

module _ (trim : List ℕ → List ℕ) (compile : List ℕ → Option (List ℕ → Bool)) where
  -- The text has no brace left and no pattern of the template matches it; or the patterns of the
  -- template do not compile.
  pub record Shipped (values : List ℕ → Option (List ℕ)) (t : CommentTemplate) (o : PickOutcome)
      : Type 0 where
    pub same_id : o.template_id ≡ t.id
    pub same_text : o.rendered_text ≡ render values t
    pub whole : rendered o.rendered_text ≡ true
    pub clean :
        ((e : Err) × (compile_banned trim compile t.banned_words ≡ err e))
        ⊎ ((patterns : List (List ℕ × (List ℕ → Bool))) × (compile_banned trim compile
                t.banned_words
              ≡ ok patterns)
            × (match_banned o.rendered_text patterns ≡ none))

  unless_hit-Shipped :
      (values : List ℕ → Option (List ℕ)) (t : CommentTemplate) (o : PickOutcome)
      (patterns : List (List ℕ × (List ℕ → Bool))) (hit : Option (List ℕ))
      → compile_banned trim compile t.banned_words ≡ ok patterns
      → rendered (render values t) ≡ true
      → match_banned (render values t) patterns ≡ hit
      → unless_hit trim compile t (render values t) hit ≡ ok o
      → Shipped values t o
  unless_hit-Shipped values t o patterns (some pattern) c r q h = ground (arith, h)
  unless_hit-Shipped values t o patterns none c r q h =
      let same : o ≡ outcome_of trim compile t (render values t) = ground (arith, h) in
      rw same (record { same_id = refl; same_text = refl; whole = r; clean = inr (patterns, c, q) })

  screened-Shipped :
      (values : List ℕ → Option (List ℕ)) (t : CommentTemplate) (o : PickOutcome)
      (banned : Result (List (List ℕ × (List ℕ → Bool))))
      → compile_banned trim compile t.banned_words ≡ banned
      → rendered (render values t) ≡ true
      → screened trim compile t (render values t) banned ≡ ok o
      → Shipped values t o
  unfolding screened
  screened-Shipped values t o (err e) c r h =
      let same : o ≡ outcome_of trim compile t (render values t) = ground (arith, h) in
      rw same (record { same_id = refl; same_text = refl; whole = r; clean = inl (e, c) })
  screened-Shipped values t o (ok patterns) c r h =
      unless_hit-Shipped values t o patterns (match_banned (render values t) patterns) c r refl h

  pick_rendered-Shipped :
      (values : List ℕ → Option (List ℕ)) (t : CommentTemplate) (o : PickOutcome) (whole : Bool)
      → rendered (render values t) ≡ whole
      → pick_rendered trim compile t (render values t) whole ≡ ok o
      → Shipped values t o
  unfolding pick_rendered
  pick_rendered-Shipped values t o false r h = ground (arith, h)
  pick_rendered-Shipped values t o true r h = screened-Shipped values t o _ refl r h

-- A comment that `Pick` lets through comes from a template of the pool, is that template rendered, and
-- has no brace left; and no denylist pattern of the template matches it, unless the patterns of the
-- template do not compile.
pub pick_from-Shipped :
    (trim : List ℕ → List ℕ) (compile : List ℕ → Option (List ℕ → Bool)) (intn : ℕ → ℕ)
    (values : List ℕ → Option (List ℕ)) (t : CommentTemplate) (rest : List CommentTemplate)
    (o : PickOutcome)
    → pick_from trim compile intn values (ok (t ∷ rest)) ≡ ok o
    → Shipped trim compile values (weighted_pick intn t rest) o
unfolding pick_from pick_text
pick_from-Shipped trim compile intn values t rest o h =
    pick_rendered-Shipped trim compile values (weighted_pick intn t rest) o _ refl h
