-- ===== src/Generating/Candidates.antt =====
-- comment_generate.go, `Generate`: what holds of the comments.
use jg_smm.Prelude.{
  ℕ, zero, suc, ◌≤◌, ◌<◌, ◌≡◌, refl, ◌∙◌, ap, ltb, ◌==◌, Bool, true, false, List, [], ◌∷◌, ◌++◌,
  Option, none, some, length, any, take, All, arith, inl, inr, Bool-cases, length-append,
}
use jg_smm.Store.{Result, ok, err}
use jg_smm.Store.Workers.{same_text}
use jg_smm.Domain.Template.{match_banned}
use jg_smm.Queueing.{max_comment_text_len}
use jg_smm.Generating.{
  Pattern, Request, is_valid_mode, clamp_count, Kept, cut, is_hit, passes, keep_line, gather,
  answer_of, gathered, generate_if, generate,
}

length-take : (n : ℕ) (xs : List ℕ) → length (take n xs) ≤ n
length-take zero xs = omega arith
length-take (suc n) [] = omega arith
length-take (suc n) (x ∷ xs) = omega (arith, length-take n xs)

cut-length : (line : List ℕ) → length (cut line) ≤ 2_200
cut-length line = elim (Bool-cases (ltb max_comment_text_len (length line))) [
  | inl e ↦ rw e (length-take 2_200 line)
  | inr e ↦ rw e (ground (arith, e))
]

module _ (clean : List ℕ → List ℕ) (to_lower : List ℕ → List ℕ) (banned : List Pattern) where
  -- A comment is no longer than the cap, and no pattern of the denylist matches it.
  pub record Fit (c : List ℕ) : Type 0 where
    pub short : length c ≤ 2_200
    pub unmatched : match_banned c banned ≡ none

  -- A comment's lower-case form is none of those before it.
  abbrev pub Distinct : List (List ℕ) → Type 0
  Distinct [] = Unit
  Distinct (s ∷ rest) = (any (same_text s) rest ≡ false) × Distinct rest

  -- The lower-case forms of the comments, the last one first.
  abbrev pub lowered : List (List ℕ) → List (List ℕ) → List (List ℕ)
  lowered [] after = after
  lowered (c ∷ cs) after = lowered cs (to_lower c ∷ after)

  lowered-append :
      (cs : List (List ℕ)) (c : List ℕ) (after : List (List ℕ))
      → lowered (cs ++ (c ∷ [])) after ≡ to_lower c ∷ lowered cs after
  lowered-append [] c after = refl
  lowered-append (d ∷ cs) c after = lowered-append cs c (to_lower d ∷ after)

  -- What the loop keeps: at most `n` comments, each fit, whose lower-case forms differ.
  pub record Sound (n : ℕ) (k : Kept) : Type 0 where
    pub at_most : length k.candidates ≤ n
    pub fit : All Fit k.candidates
    pub distinct : Distinct k.seen
    pub all_seen : lowered k.candidates [] ≡ k.seen

  passes_lem :
      (line : List ℕ) (k : Kept)
      → passes clean to_lower banned line k ≡ true
      → (is_hit (match_banned (cut line) banned) ≡ false)
        × (any (same_text (to_lower (cut line))) k.seen ≡ false)
  unfolding passes
  passes_lem line k h = ground (arith, h)

  unmatched_lem : (o : Option (List ℕ)) → is_hit o ≡ false → o ≡ none
  unmatched_lem none h = refl
  unmatched_lem (some p) h = ground (arith, h)

  All-append_one : (cs : List (List ℕ)) (c : List ℕ) → All Fit cs → Fit c → All Fit (cs ++ (c ∷ []))
  All-append_one [] c h f = (f, tt)
  All-append_one (d ∷ cs) c (g, h) f = (g, All-append_one cs c h f)

  keep_line-Sound :
      (n : ℕ) (line : List ℕ) (k : Kept)
      → Sound n k
      → length k.candidates < n
      → passes clean to_lower banned line k ≡ true
      → Sound n (keep_line clean to_lower banned line k)
  keep_line-Sound n line k s l h =
      let (unhit, new) = passes_lem line k h in
      record {
        at_most = let a = length-append k.candidates (cut line ∷ []) in omega (arith, a, l);
        fit = All-append_one k.candidates (cut line) s.fit (record {
          short = cut-length line;
          unmatched = unmatched_lem (match_banned (cut line) banned) unhit;
        });
        distinct = (new, s.distinct);
        all_seen =
            lowered-append k.candidates (cut line) [] ∙ ap (◌∷◌ (to_lower (cut line))) s.all_seen;
      }

  -- The loop goes on only while there are fewer than `n`.
  gather-Sound :
      (n : ℕ) (lines : List (List ℕ)) (k : Kept)
      → Sound n k
      → length k.candidates < n
      → Sound n (gather clean to_lower banned n lines k)
  unfolding gather
  gather-Sound n [] k s l = s
  gather-Sound n (raw ∷ rest) k s l =
      elim (Bool-cases (passes clean to_lower banned (clean raw) k)) [
        | inr e ↦ rw e (gather-Sound n rest k s l)
        | inl e ↦
            let next = keep_line clean to_lower banned (clean raw) k in
            let sound = keep_line-Sound n (clean raw) k s l e in
            elim (Bool-cases (length next.candidates == n)) [
              | inl q ↦ rw (e, q) sound
              | inr q ↦
                  let a = length-append k.candidates (cut (clean raw) ∷ []) in
                  rw (e, q) (gather-Sound n rest next sound (ground (arith, q, a, l)))
            ]
      ]

  -- The answer is what the loop kept, unless that is nothing.
  pub record Comments (n : ℕ) (cs : List (List ℕ)) : Type 0 where
    pub at_least_one : 1 ≤ length cs
    pub no_more : length cs ≤ n
    pub all_fit : All Fit cs
    pub all_distinct : Distinct (lowered cs [])

  answer_of-Comments :
      (n : ℕ) (k : Kept) (kept cs : List (List ℕ))
      → Sound n k
      → k.candidates ≡ kept
      → answer_of clean to_lower banned kept ≡ ok cs
      → Comments n cs
  answer_of-Comments n k [] cs s e h = ground (arith, h)
  answer_of-Comments n k (d ∷ ds) cs s e h =
      let same : k.candidates ≡ cs = e ∙ ground (arith, h) in
      rw (← same) (record {
        at_least_one = rw e (omega arith);
        no_more = s.at_most;
        all_fit = s.fit;
        all_distinct = rw s.all_seen s.distinct;
      })

  gathered-Comments :
      (n : ℕ) (answer : Result (List (List ℕ))) (cs : List (List ℕ))
      → 1 ≤ n
      → gathered clean to_lower banned n answer ≡ ok cs
      → Comments n cs
  unfolding gathered
  gathered-Comments n (err e) cs p h = ground (arith, h)
  gathered-Comments n (ok lines) cs p h =
      let start : Kept = record { candidates = []; seen = [] } in
      answer_of-Comments n (gather clean to_lower banned n lines start) _ cs
        (gather-Sound n lines start
          (record { at_most = omega arith; fit = tt; distinct = tt; all_seen = refl })
          (omega (arith, p)))
        refl h

  generate_if-Comments :
      (available valid : Bool) (complete : ℕ → Result (List (List ℕ))) (n : ℕ) (cs : List (List ℕ))
      → 1 ≤ n
      → generate_if clean to_lower banned available valid complete n ≡ ok cs
      → Comments n cs
  unfolding generate_if
  generate_if-Comments false valid complete n cs p h = ground (arith, h)
  generate_if-Comments true false complete n cs p h = ground (arith, h)
  generate_if-Comments true true complete n cs p h = gathered-Comments n (complete n) cs p h

clamp_count_lem : (n : ℕ) → (1 ≤ clamp_count n) × (clamp_count n ≤ 5)
clamp_count_lem n = ground arith

-- Whatever the model answers, a request that is answered without an error gives at least one comment and
-- at most the number that was asked for, brought between 1 and 5; none is longer than 2,200, none is
-- matched by a pattern of the denylist, and no two have the same lower-case form.
pub generate-Comments :
    (clean to_lower : List ℕ → List ℕ) (banned : List Pattern) (available : Bool)
    (complete : ℕ → Result (List (List ℕ))) (r : Request) (cs : List (List ℕ))
    → generate clean to_lower banned available complete r ≡ ok cs
    → Comments clean to_lower banned (clamp_count r.count) cs × (clamp_count r.count ≤ 5)
unfolding generate
generate-Comments clean to_lower banned available complete r cs h =
    let (low, high) = clamp_count_lem r.count in
    (
      generate_if-Comments clean to_lower banned available (is_valid_mode r.mode) complete
          (clamp_count r.count) cs low h,
      high,
    )
