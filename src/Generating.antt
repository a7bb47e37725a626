-- ===== src/Generating.antt =====
-- apps/api/internal/service/comment_generate.go: which lines of a language model's answer become
-- comments. The model, the prompt that it is given, and the functions of Go's strings and regexp
-- packages (TrimSpace followed by Trim, ToLower) are parameters; a text is a list of code points, which
-- are bytes where it is ASCII.
pub mod Candidates
use jg_smm.Prelude.{
  ℕ, suc, ltb, leb, ◌==◌, ◌||◌, Bool, true, false, if◌then◌else◌, List, [], ◌∷◌, ◌++◌, Option, none,
  some, length, any, take,
}
use jg_smm.Store.{Result, ok, err, Err, validation, unavailable}
use jg_smm.Store.Workers.{same_text}
use jg_smm.Domain.Template.{compile_banned, match_banned}
use jg_smm.Queueing.{max_comment_text_len}

abbrev pub Pattern : Type 0
Pattern = List ℕ × (List ℕ → Bool)

-- The denylist of `NewCommentGenerator`: none of it where a pattern does not compile.
unfoldable pub banned_of : Result (List Pattern) → List Pattern
banned_of (ok patterns) = patterns
banned_of (err e) = []

-- The mode of a request; a text that is neither is `other`.
pub data CommentMode : Type 0 where
  support counter other : CommentMode

abbrev pub is_valid_mode : CommentMode → Bool
is_valid_mode CommentMode.other = false
is_valid_mode _ = true

pub record Request : Type 0 where
  pub mode : CommentMode
  pub count : ℕ

-- The number of variants, between 1 and 5.
abbrev pub clamp_count : ℕ → ℕ
clamp_count n = if ltb n 1 then 1 else if ltb 5 n then 5 else n

-- What the loop has kept: the comments, and their lower-case forms.
pub record Kept : Type 0 where
  pub candidates : List (List ℕ)
  pub seen : List (List ℕ)

abbrev pub cut : List ℕ → List ℕ
cut line = if ltb max_comment_text_len (length line) then take max_comment_text_len line else line

abbrev pub is_hit : Option (List ℕ) → Bool
is_hit none = false
is_hit (some pattern) = true

module _ (clean : List ℕ → List ℕ) (to_lower : List ℕ → List ℕ) (banned : List Pattern) where
  -- A line is kept where it is long enough, passes the denylist and is new.
  unfoldable pub passes : List ℕ → Kept → Bool
  unfolding match_banned
  passes line k =
      if ltb (length line) 2
      then false
      else if is_hit (match_banned (cut line) banned)
      then false
      else if any (same_text (to_lower (cut line))) k.seen
      then false
      else true

  abbrev pub keep_line : List ℕ → Kept → Kept
  keep_line line k = record {
    candidates = k.candidates ++ (cut line ∷ []);
    seen = to_lower (cut line) ∷ k.seen;
  }

  -- The loop over the lines stops when there are enough.
  unfoldable pub gather : ℕ → List (List ℕ) → Kept → Kept
  unfolding passes
  gather n [] k = k
  gather n (raw ∷ rest) k =
      let more = gather n rest (keep_line (clean raw) k) in
      let skipped = gather n rest k in
      if passes (clean raw) k
      then if length (keep_line (clean raw) k).candidates == n
        then keep_line (clean raw) k
        else more
      else skipped

  abbrev pub answer_of : List (List ℕ) → Result (List (List ℕ))
  answer_of [] = err validation
  answer_of (c ∷ cs) = ok (c ∷ cs)

  unfoldable pub gathered : ℕ → Result (List (List ℕ)) → Result (List (List ℕ))
  unfolding gather
  gathered n (err e) = err e
  gathered n (ok lines) =
      answer_of (gather n lines (record { candidates = []; seen = [] })).candidates

  unfoldable pub generate_if :
      Bool → Bool → (ℕ → Result (List (List ℕ))) → ℕ → Result (List (List ℕ))
  unfolding gathered
  generate_if false valid complete n = err unavailable
  generate_if true false complete n = err validation
  generate_if true true complete n = gathered n (complete n)

  -- `Generate`, with the lines that the model answers to a request for a number of variants.
  unfoldable pub generate : Bool → (ℕ → Result (List (List ℕ))) → Request → Result (List (List ℕ))
  unfolding generate_if
  generate available complete r =
      generate_if available (is_valid_mode r.mode) complete (clamp_count r.count)
