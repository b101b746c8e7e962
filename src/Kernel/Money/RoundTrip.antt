-- ===== src/Kernel/Money/RoundTrip.antt =====
-- src/shared/kernel/money.ts: `toJSON` and `from`.
use distributed_wagering_pro.Kernel.Money.{Money, from, to_json, valid_currency}
use distributed_wagering_pro.Kernel.Money.Decimal.{valid_amount, negative_amount, unsigned_decimal}
use distributed_wagering_pro.Prelude.{
  pos, ◌≤ℤ◌, Text, ◌≡◌, true, false, ◌∷◌, pos_part, arith, [], refl,
}
use distributed_wagering_pro.Kernel.Errors.{ok}
use distributed_wagering_pro.Kernel.Money.Decimal.RoundTrip.{valid_amount-print, read-print}

-- An accepted amount is no negative one.
negative_amount-valid : (s : Text) → valid_amount s ≡ true → negative_amount s ≡ false
unfolding valid_amount negative_amount
negative_amount-valid [] h = refl
negative_amount-valid (c ∷ s) h = ground arith

-- An amount of zero or more in a well-formed currency is read back from what it is printed as.
pub from-to_json :
    (m : Money)
    → pos 0 ≤ℤ m.minor_units
    → valid_currency m.currency ≡ true
    → from (to_json m) ≡ ok m
unfolding from to_json
from-to_json m h k =
    let n = pos_part m.minor_units in
    let e : pos n ≡ m.minor_units = ground arith in
    let v = valid_amount-print n in
    ground (arith, v, negative_amount-valid (unsigned_decimal n) v, read-print n, e)
