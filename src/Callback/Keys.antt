-- ===== src/Callback/Keys.antt =====
-- job.go: the key that a worker sends with a callback, and what the code reads from it.
use jg_smm.Prelude.{ℕ, ◌+◌, ◌*◌, ◌≤◌, ◌≡◌, ◌≢◌, refl, List, [], ◌∷◌, ◌++◌, some, All, arith}
use jg_smm.Callback.AttemptId.{
  split_colon, decimal, digits_only, positive_digits, positive_int, in_range, max_int,
  parse_attempt_id,
}

-- The value of decimal digits, most significant first, after a number.
abbrev pub value : ℕ → List ℕ → ℕ
value acc [] = acc
value acc (d ∷ ds) = value (acc * 10 + d) ds

abbrev pub IsDigit : ℕ → Type 0
IsDigit d = d ≤ 9

-- The text of decimal digits.
abbrev pub digit_codes : List ℕ → List ℕ
digit_codes [] = []
digit_codes (d ∷ ds) = (b'0' + d) ∷ digit_codes ds

abbrev pub IsPlain : ℕ → Type 0
IsPlain c = c ≢ b':'

split_colon-join :
    (job after : List ℕ) → All IsPlain job → split_colon (job ++ (b':' ∷ after)) ≡ some (job, after)
unfolding split_colon
split_colon-join [] after h = refl
split_colon-join (c ∷ job) after (h, k) = ground (arith, h, split_colon-join job after k)

decimal-digit_codes :
    (acc : ℕ) (ds : List ℕ) → All IsDigit ds → decimal acc (digit_codes ds) ≡ some (value acc ds)
unfolding decimal
decimal-digit_codes acc [] h = refl
decimal-digit_codes acc (d ∷ ds) (h, k) = ground (arith, h, decimal-digit_codes (acc * 10 + d) ds k)

positive_digits-digit_codes :
    (d : ℕ) (ds : List ℕ)
    → All IsDigit (d ∷ ds)
    → positive_digits (digit_codes (d ∷ ds)) ≡ some (value 0 (d ∷ ds))
unfolding positive_digits digits_only
positive_digits-digit_codes d ds h = ground (arith, decimal-digit_codes 0 (d ∷ ds) h)

in_range_lem : (n : ℕ) → 1 ≤ n → n ≤ max_int → in_range (some n) ≡ some n
in_range_lem n low high = ground (arith, low, high)

positive_int-digit_codes :
    (d : ℕ) (ds : List ℕ)
    → All IsDigit (d ∷ ds)
    → 1 ≤ value 0 (d ∷ ds)
    → value 0 (d ∷ ds) ≤ max_int
    → positive_int (digit_codes (d ∷ ds)) ≡ some (value 0 (d ∷ ds))
unfolding positive_int
positive_int-digit_codes d ds h low high =
    rw (positive_digits-digit_codes d ds h) (in_range_lem _ low high)

-- A key that joins a job's text, which is not empty and has no colon, by a colon to decimal digits is
-- read as that text and the number of the digits, if the number is at least 1 and fits 63 bits.
pub parse_attempt_id-join :
    (c : ℕ) (job : List ℕ) (d : ℕ) (ds : List ℕ)
    → All IsPlain (c ∷ job)
    → All IsDigit (d ∷ ds)
    → 1 ≤ value 0 (d ∷ ds)
    → value 0 (d ∷ ds) ≤ max_int
    → parse_attempt_id ((c ∷ job) ++ (b':' ∷ digit_codes (d ∷ ds)))
      ≡ some (c ∷ job, value 0 (d ∷ ds))
unfolding parse_attempt_id
parse_attempt_id-join c job d ds p h low high =
    rw (split_colon-join (c ∷ job) (digit_codes (d ∷ ds)) p)
      (rw (positive_int-digit_codes d ds h low high) refl)
