-- ===== src/Kernel/Money/Decimal/Canonical.antt =====
-- src/shared/kernel/money.ts: the strings that the amount's pattern accepts.
use distributed_wagering_pro.Kernel.Money.Decimal.DigitLaws.{
  AreDigits, number_to_string-digit, number_to_string-read,
}
use distributed_wagering_pro.Prelude.{
  Text, ℕ, ◌≡◌, true, ◌++◌, ◌∷◌, [], arith, Bool-cases, inl, ap, ◌-◌, ◌*◌, inr, ◌+◌, refl, ◌<◌,
  subst, ◌≤◌, ◌==◌, ◌/◌, ◌∙◌, ◌%◌,
}
use distributed_wagering_pro.Kernel.Money.Decimal.{
  fraction, digits_then_fraction, decimal_string_to_minor_units, unsigned_decimal, valid_amount,
}
use distributed_wagering_pro.Kernel.Money.Decimal.Digits.{
  is_digit, big_int, number_to_string, digit_char,
}
use distributed_wagering_pro.Kernel.Errors.{ok}
use distributed_wagering_pro.Kernel.Money.Decimal.RoundTrip.{
  two_digits, decimal_lem, two_digits-read, unsigned_decimal_lem,
}

-- A point and two digits.
record IsFraction (s : Text) : Type 0 where
  tens : ℕ
  units : ℕ
  tens_digit : is_digit tens ≡ true
  units_digit : is_digit units ≡ true
  shape : s ≡ b'.' ∷ tens ∷ units ∷ []

fraction-IsFraction : (s : Text) → fraction s ≡ true → IsFraction s
unfolding fraction
fraction-IsFraction [] h = absurd (cc)
fraction-IsFraction (p ∷ []) h = absurd (cc)
fraction-IsFraction (p ∷ a ∷ []) h = absurd (cc)
fraction-IsFraction (p ∷ a ∷ b ∷ []) h = record {
  tens = a;
  units = b;
  tens_digit = ground arith;
  units_digit = ground arith;
  shape = ground arith;
}
fraction-IsFraction (p ∷ a ∷ b ∷ c ∷ s) h = absurd (cc)

-- Digits, and a fraction behind them.
record IsDecimal (s : Text) : Type 0 where
  whole : Text
  rest : Text
  digits : AreDigits whole
  ending : IsFraction rest
  shape : s ≡ whole ++ rest

digits_then_fraction-IsDecimal : (s : Text) → digits_then_fraction s ≡ true → IsDecimal s
unfolding digits_then_fraction
digits_then_fraction-IsDecimal [] h = absurd (cc)
digits_then_fraction-IsDecimal (c ∷ s) h = elim (Bool-cases (is_digit c)) [
  | inl d ↦
      let k = digits_then_fraction-IsDecimal s (rw d at h) in
      record {
        whole = c ∷ k.whole;
        rest = k.rest;
        digits = (d, k.digits);
        ending = k.ending;
        shape = ap (λ t. c ∷ t) k.shape;
      }
  | inr n ↦ record {
    whole = [];
    rest = c ∷ s;
    digits = tt;
    ending = fraction-IsFraction (c ∷ s) (rw n at h);
    shape = refl;
  }
]

-- A whole part that is printed as it was read, and a fraction, are printed as they were read.
canonical_parts :
    (q : ℕ) (whole rest : Text)
    → AreDigits whole
    → big_int whole ≡ ok q
    → number_to_string q ≡ whole
    → IsFraction rest
    → (n : ℕ) × (decimal_string_to_minor_units (whole ++ rest) ≡ ok n)
      × (unsigned_decimal n ≡ whole ++ rest)
canonical_parts q whole rest d r p f =
    let t : ℕ = f.tens - b'0' in
    let u : ℕ = f.units - b'0' in
    let m : ℕ = t * 10 + u in
    let lt : t < 10 = ground (arith, f.tens_digit) in
    let lu : u < 10 = ground (arith, f.units_digit) in
    let cents : two_digits m ≡ f.tens ∷ f.units ∷ [] =
      ground (arith, f.tens_digit, f.units_digit) in
    let two : AreDigits (f.tens ∷ f.units ∷ []) = (f.tens_digit, (f.units_digit, tt)) in
    let value : big_int (f.tens ∷ f.units ∷ []) ≡ ok m =
      subst (λ cs. big_int cs ≡ ok m) cents (two_digits-read m (omega arith)) in
    let high : (q * 100 + m) / 100 ≡ q = omega arith in
    let low : (q * 100 + m) % 100 ≡ m = omega arith in
    (
      q * 100 + m,
      rw f.shape (decimal_lem whole (f.tens ∷ f.units ∷ []) d two r value),
      unsigned_decimal_lem (q * 100 + m) ∙ rw (high, low, p, cents, f.shape),
    )

read_whole :
    (c : ℕ) (ds : Text)
    → b'1' ≤ c
    → c ≤ b'9'
    → AreDigits ds
    → (q : ℕ) × (big_int (c ∷ ds) ≡ ok q) × (number_to_string q ≡ c ∷ ds)
unfolding big_int
read_whole c ds l h d =
    let (q, e, p) = number_to_string-read (c - b'0') ds (omega arith) d in
    let first : digit_char (c - b'0') ≡ c = omega arith in
    let start : 0 * 10 + (c - b'0') ≡ c - b'0' = omega arith in
    let k : is_digit c ≡ true = ground arith in
    (q, rw (k, start) e, p ∙ rw (number_to_string-digit (c - b'0') (omega arith), first))

-- Every string that the amount's pattern accepts is read as a number of minor units, and that
-- number is printed as the string.
pub print-read :
    (s : Text)
    → valid_amount s ≡ true
    → (n : ℕ) × (decimal_string_to_minor_units s ≡ ok n) × (unsigned_decimal n ≡ s)
unfolding valid_amount
print-read [] h = absurd (cc)
print-read (c ∷ s) h = elim (Bool-cases (c == b'0')) [
  | inl z ↦
      let f = fraction-IsFraction s (rw z at h) in
      let e : c ≡ b'0' = ground arith in
      rw e (
        canonical_parts 0 (b'0' ∷ []) s (refl, tt) (unfold big_int in refl)
          (number_to_string-digit 0 (omega arith)) f)
  | inr nz ↦
      let range : (b'1' ≤ c) × (c ≤ b'9') × (digits_then_fraction s ≡ true) = ground arith in
      let k = digits_then_fraction-IsDecimal s range.2 in
      let (q, e, p) = read_whole c k.whole range.0 range.1 k.digits in
      let d : is_digit c ≡ true = ground arith in
      rw k.shape (canonical_parts q (c ∷ k.whole) k.rest (d, k.digits) e p k.ending)
]
