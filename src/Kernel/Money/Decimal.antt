-- ===== src/Kernel/Money/Decimal.antt =====
-- src/shared/kernel/money.ts: the decimal strings that amounts are read from and printed to.
pub mod Digits
pub mod DigitLaws
pub mod RoundTrip
pub mod Canonical
unfoldable pub use Digits.{is_digit, digit_char, big_int, digits_of, number_to_string}
use distributed_wagering_pro.Prelude.{
  Text, codes, ℤ, pos, neg_part, pos_part, ltb_ℤ, Bool, true, false, ◌&&◌, List, [], ◌∷◌, ◌++◌, leb,
  ◌==◌, if◌then◌else◌, ℕ, zero, suc, ◌+◌, ◌*◌, ◌/◌, ◌%◌, length, ltb,
}
use distributed_wagering_pro.Kernel.Errors.{Result, ok, err, javascript_error, ◌>>=◌}

-- `\.\d{2}$`
unfoldable pub fraction : Text → Bool
fraction (p ∷ a ∷ b ∷ []) = p == b'.' && (is_digit a && is_digit b)
fraction _ = false

-- `\d*\.\d{2}$`; the point is no digit, so the run of digits cannot end sooner or later.
unfoldable pub digits_then_fraction : Text → Bool
unfolding fraction
digits_then_fraction [] = false
digits_then_fraction (c ∷ cs) = if is_digit c then digits_then_fraction cs else fraction (c ∷ cs)

-- VALID_AMOUNT, `^(0|[1-9]\d*)\.\d{2}$`
unfoldable pub valid_amount : Text → Bool
unfolding fraction digits_then_fraction
valid_amount [] = false
valid_amount (c ∷ cs) =
    if c == b'0' then fraction cs else (leb b'1' c && leb c b'9') && digits_then_fraction cs

-- NEGATIVE_AMOUNT, `^-(0|[1-9]\d*)\.\d{2}$`
unfoldable pub negative_amount : Text → Bool
unfolding valid_amount
negative_amount [] = false
negative_amount (c ∷ cs) = c == b'-' && valid_amount cs

-- `split(".")`: the pieces between the points.
glue : ℕ → List Text → List Text
glue c [] = (c ∷ []) ∷ []
glue c (p ∷ ps) = (c ∷ p) ∷ ps

unfoldable pub split_point : Text → List Text
unfolding glue
split_point [] = [] ∷ []
split_point (c ∷ cs) = let rest = split_point cs in if c == b'.' then [] ∷ rest else glue c rest

-- `BigInt(integerPart) * 100n + BigInt(fractionalPart)`
pieces_to_minor_units : List Text → Result ℕ
pieces_to_minor_units (i ∷ f ∷ _) =
    big_int i >>= λ whole. big_int f >>= λ cents. ok (whole * 100 + cents)
pieces_to_minor_units _ = err javascript_error

unfoldable pub decimal_string_to_minor_units : Text → Result ℕ
unfolding pieces_to_minor_units split_point big_int
decimal_string_to_minor_units amount = pieces_to_minor_units (split_point amount)

-- `padStart(2, "0")`
pad_start_two : Text → Text
pad_start_two [] = b'0' ∷ b'0' ∷ []
pad_start_two (c ∷ []) = b'0' ∷ c ∷ []
pad_start_two cs = cs

-- `${integerPart}.${fractionalPart}` for an amount of `n` cents.
unfoldable pub unsigned_decimal : ℕ → Text
unfolding pad_start_two number_to_string
unsigned_decimal n = number_to_string (n / 100) ++ b'.' ∷ pad_start_two (number_to_string (n % 100))

unfoldable pub minor_units_to_decimal_string : ℤ → Text
unfolding unsigned_decimal
minor_units_to_decimal_string m =
    if ltb_ℤ m (pos 0) then b'-' ∷ unsigned_decimal (neg_part m) else unsigned_decimal (pos_part m)
