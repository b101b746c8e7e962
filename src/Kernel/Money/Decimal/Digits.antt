-- ===== src/Kernel/Money/Decimal/Digits.antt =====
-- The parts of JavaScript that src/shared/kernel/money.ts uses: `BigInt` of a string of decimal
-- digits, `toString` of a `bigint` that is not negative.
use distributed_wagering_pro.Prelude.{
  Text, Bool, ◌&&◌, [], ◌∷◌, ◌++◌, leb, ltb, if◌then◌else◌, ℕ, zero, suc, ◌+◌, ◌-◌, ◌*◌, ◌/◌, ◌%◌,
}
use distributed_wagering_pro.Kernel.Errors.{Result, ok, err, javascript_error}

abbrev pub is_digit : ℕ → Bool
is_digit c = leb b'0' c && leb c b'9'

-- The code unit of a digit.
abbrev pub digit_char : ℕ → ℕ
digit_char d = b'0' + d

-- `BigInt` of a run of decimal digits, read from the left; any other unit is a `SyntaxError`. (The
-- signs, spaces and prefixes that `BigInt` also reads do not pass the tests that guard its call.)
unfoldable pub big_int_from : ℕ → Text → Result ℕ
big_int_from n [] = ok n
big_int_from n (c ∷ cs) =
    let rest = big_int_from (n * 10 + (c - b'0')) cs in
    if is_digit c then rest else err javascript_error

unfoldable pub big_int : Text → Result ℕ
unfolding big_int_from
big_int = big_int_from 0

-- The decimal digits of a number, the last one split off in each round. `n + 1` rounds are enough.
unfoldable pub digits_of : ℕ → ℕ → Text
digits_of zero n = []
digits_of (suc fuel) n =
    let front = digits_of fuel (n / 10) in
    if ltb n 10 then digit_char n ∷ [] else front ++ digit_char (n % 10) ∷ []

unfoldable pub number_to_string : ℕ → Text
unfolding digits_of
number_to_string n = digits_of (suc n) n
