-- ===== src/Kernel/Money.antt =====
-- src/shared/kernel/money.ts: money as a `bigint` of cents.
pub mod Decimal
pub mod RoundTrip
pub mod Laws
unfoldable pub use Decimal.{
  unsigned_decimal, valid_amount, negative_amount, decimal_string_to_minor_units,
  minor_units_to_decimal_string,
}
use distributed_wagering_pro.Prelude.{
  Text, codes, ℤ, pos, ◌+ℤ◌, ◌-ℤ◌, ltb_ℤ, eqb_ℤ, Bool, true, false, ◌&&◌, List, [], ◌∷◌, ◌++◌, leb,
  not, text_eq, if◌then◌else◌, ℕ,
}
use distributed_wagering_pro.Kernel.Errors.{
  Result, ok, throw, ensure, ◌>>=◌, ◌>>◌, invalid_money_amount, negative_money_amount,
  invalid_currency, currency_mismatch,
}

-- `MoneyProps`
pub record MoneyProps : Type 0 where
  pub amount : Text
  pub currency : Text

pub record Money : Type 0 where
  pub minor_units : ℤ
  pub currency : Text

abbrev is_upper : ℕ → Bool
is_upper c = leb b'A' c && leb c b'Z'

-- VALID_CURRENCY, `^[A-Z]{3}$`
unfoldable pub valid_currency : Text → Bool
valid_currency (a ∷ b ∷ c ∷ []) = is_upper a && (is_upper b && is_upper c)
valid_currency _ = false

unfoldable pub assert_valid_currency : Text → Result (Unit {0})
unfolding valid_currency
assert_valid_currency currency = ensure (valid_currency currency) (invalid_currency currency)

unfoldable pub from : MoneyProps → Result Money
unfolding negative_amount valid_amount assert_valid_currency decimal_string_to_minor_units
from props = do
  ensure (not (negative_amount props.amount)) (negative_money_amount props.amount)
  ensure (valid_amount props.amount) (invalid_money_amount props.amount)
  assert_valid_currency props.currency
  minor_units ← decimal_string_to_minor_units props.amount
  ok (record { minor_units = pos minor_units; currency = props.currency })

-- `Money.zero`
unfoldable pub zero_in : Text → Result Money
unfolding assert_valid_currency
zero_in currency = do
  assert_valid_currency currency
  ok (record { minor_units = pos 0; currency = currency })

unfoldable pub from_minor_units : ℤ → Text → Result Money
unfolding assert_valid_currency
from_minor_units minor_units currency = do
  assert_valid_currency currency
  ok (record { minor_units = minor_units; currency = currency })

unfoldable pub to_minor_units : Money → ℤ
to_minor_units m = m.minor_units

unfoldable pub assert_same_currency : Money → Money → Result (Unit {0})
assert_same_currency m other =
    ensure (text_eq m.currency other.currency) (currency_mismatch m.currency other.currency)

unfoldable pub add : Money → Money → Result Money
unfolding assert_same_currency
add m other = do
  assert_same_currency m other
  ok (record m { minor_units = m.minor_units +ℤ other.minor_units })

unfoldable pub subtract : Money → Money → Result Money
unfolding assert_same_currency
subtract m other = do
  assert_same_currency m other
  ok (record m { minor_units = m.minor_units -ℤ other.minor_units })

unfoldable pub negate : Money → Money
negate m = record m { minor_units = pos 0 -ℤ m.minor_units }

unfoldable pub is_zero : Money → Bool
is_zero m = eqb_ℤ m.minor_units (pos 0)

unfoldable pub is_positive : Money → Bool
is_positive m = ltb_ℤ (pos 0) m.minor_units

unfoldable pub is_negative : Money → Bool
is_negative m = ltb_ℤ m.minor_units (pos 0)

unfoldable pub is_less_than : Money → Money → Result Bool
unfolding assert_same_currency
is_less_than m other = do assert_same_currency m other; ok (ltb_ℤ m.minor_units other.minor_units)

unfoldable pub equals : Money → Money → Bool
equals m other = text_eq m.currency other.currency && eqb_ℤ m.minor_units other.minor_units

unfoldable pub to_json : Money → MoneyProps
unfolding minor_units_to_decimal_string
to_json m = record { amount = minor_units_to_decimal_string m.minor_units; currency = m.currency }

unfoldable pub to_string : Money → Text
unfolding minor_units_to_decimal_string
to_string m = minor_units_to_decimal_string m.minor_units ++ b' ' ∷ m.currency
