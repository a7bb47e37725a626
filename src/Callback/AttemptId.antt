-- ===== src/Callback/AttemptId.antt =====
-- apps/api/internal/service/job.go, `parseAttemptID`: the key "<jobId>:<attempt>" of a callback.
-- `strconv.Atoi` takes an optional sign and decimal digits and refuses what passes 2^63 - 1; a
-- negative number is refused by the code itself.
use jg_smm.Prelude.{
  ℕ, ◌+◌, ◌-◌, ◌*◌, ◌^◌, Bool, ◌&&◌, ◌||◌, ◌==◌, leb, ltb, if◌then◌else◌, List, [], ◌∷◌, Option,
  none, some,
}

-- `strings.SplitN(id, ":", 2)`: the parts before and after the first colon, if there is one.
unfoldable pub split_colon : List ℕ → Option (List ℕ × List ℕ)
split_colon [] = none
split_colon (c ∷ s) =
    let rest = split_colon s in
    if c == b':'
    then some ([], s)
    else elim rest [ none ↦ none | some (before, after) ↦ some (c ∷ before, after) ]

abbrev pub is_digit : ℕ → Bool
is_digit c = leb b'0' c && leb c b'9'

unfoldable pub decimal : ℕ → List ℕ → Option ℕ
decimal acc [] = some acc
decimal acc (c ∷ s) =
    let rest = decimal (acc * 10 + (c - b'0')) s in if is_digit c then rest else none

abbrev pub max_int : ℕ
max_int = 2 ^ 63 - 1

unfoldable pub digits_only : List ℕ → Option ℕ
unfolding decimal
digits_only [] = none
digits_only (c ∷ s) = decimal 0 (c ∷ s)

-- The sign that Atoi accepts; a minus makes the number at most 0.
unfoldable pub positive_digits : List ℕ → Option ℕ
unfolding digits_only
positive_digits [] = none
positive_digits (c ∷ s) =
    if c == b'-' then none else if c == b'+' then digits_only s else digits_only (c ∷ s)

abbrev pub in_range : Option ℕ → Option ℕ
in_range none = none
in_range (some n) = if n == 0 || ltb max_int n then none else some n

-- Atoi followed by the test `n <= 0`.
unfoldable pub positive_int : List ℕ → Option ℕ
unfolding positive_digits
positive_int s = in_range (positive_digits s)

abbrev with_number : List ℕ → Option ℕ → Option (List ℕ × ℕ)
with_number job none = none
with_number job (some n) = some (job, n)

abbrev parse_parts : Option (List ℕ × List ℕ) → Option (List ℕ × ℕ)
parse_parts none = none
parse_parts (some ([], after)) = none
parse_parts (some (c ∷ before, after)) = with_number (c ∷ before) (positive_int after)

unfoldable pub parse_attempt_id : List ℕ → Option (List ℕ × ℕ)
unfolding split_colon positive_int
parse_attempt_id id = parse_parts (split_colon id)
