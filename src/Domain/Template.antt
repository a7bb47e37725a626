-- ===== src/Domain/Template.antt =====
-- apps/api/internal/domain/template.go. Texts are lists of code points, the values of the variables
-- are a function, and `trim` (TrimSpace) and `compile` (regexp.Compile after "(?i)", then
-- MatchString) are functions of Go's library.
use jg_smm.Prelude.{
  ℕ, zero, suc, ◌-◌, ◌==◌, ◌&&◌, ◌||◌, not, Bool, true, false, if◌then◌else◌, List, [], ◌∷◌, ◌++◌,
  Option, none, some, any, length,
}
use jg_smm.Prelude.Text.{has_prefix}
use jg_smm.Domain.Status.{Platform}
use jg_smm.Store.{Err, Result, ok, err, validation}
use jg_smm.Store.Workers.{same_text}

pub record CommentTemplate : Type 0 where
  pub id : ℕ
  pub platform : Platform
  pub text : List ℕ
  pub vars : List (List ℕ)
  pub weight : ℕ
  pub banned_words : List (List ℕ)
  pub is_active : Bool

-- `strings.Split(text, "{")`: the part before the first brace, and the parts after each.
abbrev pub split_brace : List ℕ → List ℕ × List (List ℕ)
split_brace [] = ([], [])
split_brace (c ∷ s) =
    let (first, rest) = split_brace s in if c == b'{' then ([], first ∷ rest) else (c ∷ first, rest)

-- The name before the closing brace, if there is one.
abbrev pub name_before : List ℕ → Option (List ℕ)
name_before [] = none
name_before (c ∷ s) =
    let rest = name_before s in
    if c == b'}' then some [] else elim rest [ none ↦ none | some name ↦ some (c ∷ name) ]

abbrev pub names_in : List (List ℕ) → List (List ℕ)
names_in [] = []
names_in (w ∷ words) =
    let rest = names_in words in
    elim (name_before w) [ none ↦ rest | some [] ↦ rest | some (c ∷ s) ↦ (c ∷ s) ∷ rest ]

-- The names that the text uses, in order.
unfoldable pub used_names : List ℕ → List (List ℕ)
used_names text = let (first, rest) = split_brace text in names_in (first ∷ rest)

abbrev pub is_member : List (List ℕ) → List ℕ → Bool
is_member names name = any (same_text name) names

abbrev pub all_members : List (List ℕ) → List (List ℕ) → Bool
all_members names [] = true
all_members names (n ∷ ns) = if is_member names n then all_members names ns else false

abbrev pub is_blank : List ℕ → Bool
is_blank [] = true
is_blank (c ∷ s) = false

module _ (trim : List ℕ → List ℕ) (compile : List ℕ → Option (List ℕ → Bool)) where
  abbrev pub keep_pattern :
      List ℕ
      → Option (List ℕ → Bool)
      → Result (List (List ℕ × (List ℕ → Bool)))
      → Result (List (List ℕ × (List ℕ → Bool)))
  keep_pattern raw none rest = err validation
  keep_pattern raw (some re) (ok patterns) = ok ((raw, re) ∷ patterns)
  keep_pattern raw (some re) (err e) = err e

  -- `CompileBanned`: each pattern with its source; blank ones are passed over.
  unfoldable pub compile_banned : List (List ℕ) → Result (List (List ℕ × (List ℕ → Bool)))
  compile_banned [] = ok []
  compile_banned (raw ∷ rest) =
      let others = compile_banned rest in
      if is_blank (trim raw) then others else keep_pattern raw (compile raw) others

  abbrev pub checked_names : CommentTemplate → Result (List (List ℕ × (List ℕ → Bool))) → Option Err
  checked_names t (err e) = some e
  checked_names t (ok patterns) =
      if all_members t.vars (used_names t.text) && all_members (used_names t.text) t.vars
      then none
      else some validation

  -- `Validate`: the error, if there is one.
  unfoldable pub validate_template : CommentTemplate → Option Err
  unfolding used_names compile_banned
  validate_template t =
      if is_blank (trim t.text)
      then some validation
      else if t.weight == 0
      then some validation
      else checked_names t (compile_banned t.banned_words)

-- `strings.ReplaceAll(text, old, new)` for an `old` that is not empty; the number counts the code
-- points of a found `old` that are still to be passed over.
unfoldable pub replace_from : List ℕ → List ℕ → ℕ → List ℕ → List ℕ
replace_from old new n [] = []
replace_from old new (suc n) (c ∷ s) = replace_from old new n s
replace_from old new zero (c ∷ s) =
    let skipped = replace_from old new (length old - 1) s in
    let kept = replace_from old new zero s in
    if has_prefix old (c ∷ s) then new ++ skipped else c ∷ kept

abbrev pub placeholder : List ℕ → List ℕ
placeholder name = b'{' ∷ (name ++ (b'}' ∷ []))

abbrev pub substitute : List ℕ → Option (List ℕ) → List ℕ → List ℕ
substitute name none text = text
substitute name (some []) text = text
substitute name (some (c ∷ s)) text = replace_from (placeholder name) (c ∷ s) 0 text

abbrev pub render_each : (List ℕ → Option (List ℕ)) → List (List ℕ) → List ℕ → List ℕ
render_each values [] text = text
render_each values (name ∷ rest) text = render_each values rest (substitute name (values name) text)

-- `Render`.
unfoldable pub render : (List ℕ → Option (List ℕ)) → CommentTemplate → List ℕ
unfolding replace_from
render values t = render_each values t.vars t.text

abbrev pub is_brace : ℕ → Bool
is_brace c = (c == b'{') || (c == b'}')

-- `Rendered`.
unfoldable pub rendered : List ℕ → Bool
rendered text = not (any is_brace text)

-- `MatchBanned`: the source of the first pattern that matches.
unfoldable pub match_banned : List ℕ → List (List ℕ × (List ℕ → Bool)) → Option (List ℕ)
match_banned text [] = none
match_banned text ((raw, re) ∷ rest) =
    let later = match_banned text rest in if re text then some raw else later
