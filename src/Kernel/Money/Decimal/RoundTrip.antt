-- ===== src/Kernel/Money/Decimal/RoundTrip.antt =====
-- src/shared/kernel/money.ts: reading what was printed as an amount.
use distributed_wagering_pro.Kernel.Money.Decimal.DigitLaws.{
  AreDigits, number_to_string-AreDigits, number_to_string-digit, number_to_string-snoc,
  big_int-number_to_string,
}
use distributed_wagering_pro.Kernel.Money.Decimal.{
  split_point, decimal_string_to_minor_units, glue, pieces_to_minor_units, pad_start_two, suc,
  unsigned_decimal, digits_then_fraction, valid_amount,
}
use distributed_wagering_pro.Prelude.{
  Text, ◌≡◌, ◌++◌, ℕ, ◌∷◌, [], arith, ◌*◌, ◌+◌, refl, List, ◌<◌, ◌/◌, ◌≤◌, ◌%◌, true, ap, ◌∙◌,
  subst,
}
use distributed_wagering_pro.Kernel.Money.Decimal.Digits.{
  big_int, number_to_string, digit_char, digits_of,
}
use distributed_wagering_pro.Kernel.Errors.{ok}
use Prim.Native.Nat.{zero}

glue-cons : (c : ℕ) (p : Text) (ps : List Text) → glue c (p ∷ ps) ≡ (c ∷ p) ∷ ps
unfolding glue
glue-cons c p ps = refl

split_point-digits : (s : Text) → AreDigits s → split_point s ≡ s ∷ []
unfolding split_point
split_point-digits [] h = refl
split_point-digits (c ∷ s) h = ground (arith, split_point-digits s h.1, glue-cons c s [])

split_point-decimal :
    (s t : Text) → AreDigits s → AreDigits t → split_point (s ++ b'.' ∷ t) ≡ s ∷ t ∷ []
unfolding split_point
split_point-decimal [] t h k = rw (split_point-digits t k)
split_point-decimal (c ∷ s) t h k =
    ground (arith, split_point-decimal s t h.1 k, glue-cons c s (t ∷ []))

-- What a decimal string with digits on both sides is read as.
pub decimal_lem :
    (s t : Text) {m n : ℕ}
    → AreDigits s
    → AreDigits t
    → big_int s ≡ ok m
    → big_int t ≡ ok n
    → decimal_string_to_minor_units (s ++ b'.' ∷ t) ≡ ok (m * 100 + n)
unfolding decimal_string_to_minor_units
decimal_lem s t h k p q = rw (split_point-decimal s t h k, pieces_to_minor_units, p, q)

-- A number below 100 is padded to its two digits.
pad_two :
    (a b : ℕ)
    → a < 10
    → b < 10
    → pad_start_two (number_to_string (a * 10 + b)) ≡ digit_char a ∷ digit_char b ∷ []
unfolding pad_start_two
pad_two zero b h k = let e : 0 * 10 + b ≡ b = omega arith in rw (e, number_to_string-digit b k)
pad_two (suc a) b h k =
    rw (number_to_string-snoc (suc a) b (omega arith) k, number_to_string-digit (suc a) h)

abbrev pub two_digits : ℕ → Text
two_digits n = digit_char (n / 10) ∷ digit_char (n % 10) ∷ []

pub unsigned_decimal_lem :
    (n : ℕ) → unsigned_decimal n ≡ number_to_string (n / 100) ++ b'.' ∷ two_digits (n % 100)
unfolding unsigned_decimal
unsigned_decimal_lem n =
    let e : n % 100 / 10 * 10 + n % 100 % 10 ≡ n % 100 = omega arith in
    let p = pad_two (n % 100 / 10) (n % 100 % 10) (omega arith) (omega arith) in
    ap (λ cents. number_to_string (n / 100) ++ b'.' ∷ cents)
      (subst (λ c. pad_start_two (number_to_string c) ≡ two_digits (n % 100)) e p)

two_digits-AreDigits : (n : ℕ) → n < 100 → AreDigits (two_digits n)
two_digits-AreDigits n h = ground arith

pub two_digits-read : (n : ℕ) → n < 100 → big_int (two_digits n) ≡ ok n
unfolding big_int
two_digits-read n h = ground arith

-- A printed amount is read back.
pub read-print : (n : ℕ) → decimal_string_to_minor_units (unsigned_decimal n) ≡ ok n
read-print n =
    let e : n / 100 * 100 + n % 100 ≡ n = omega arith in
    rw (unsigned_decimal_lem n) (
      decimal_lem (number_to_string (n / 100)) (two_digits (n % 100))
        (number_to_string-AreDigits (n / 100)) (two_digits-AreDigits (n % 100) (omega arith))
        (big_int-number_to_string (n / 100)) (two_digits-read (n % 100) (omega arith))
      ∙ ap ok e)

digits_then_fraction-append :
    (s t : Text) → AreDigits s → digits_then_fraction (s ++ t) ≡ digits_then_fraction t
unfolding digits_then_fraction
digits_then_fraction-append [] t h = refl
digits_then_fraction-append (c ∷ s) t h = rw h.0 (digits_then_fraction-append s t h.1)

-- A number above zero begins with a digit above zero.
abbrev Leads : Text → Type 0
Leads [] = ⊥
Leads (c ∷ s) = (b'1' ≤ c) × (c ≤ b'9')

Leads-append : (s t : Text) → Leads s → Leads (s ++ t)
Leads-append [] t h = absurd h
Leads-append (c ∷ s) t h = h

digits_of-Leads : (f n : ℕ) → n < f → 0 < n → Leads (digits_of f n)
unfolding digits_of
digits_of-Leads zero n h k = elim h [ ]
digits_of-Leads (suc f) n h k = ground (
  arith,
  digits_of-Leads f (n / 10),
  Leads-append (digits_of f (n / 10)) (digit_char (n % 10) ∷ []),
)

valid_amount-Leads :
    (s t : Text) → Leads s → AreDigits s → valid_amount (s ++ t) ≡ digits_then_fraction t
unfolding valid_amount
valid_amount-Leads [] t h k = absurd h
valid_amount-Leads (c ∷ s) t h k = ground (arith, digits_then_fraction-append s t k.1)

fraction-two_digits : (n : ℕ) → n < 100 → digits_then_fraction (b'.' ∷ two_digits n) ≡ true
unfolding digits_then_fraction
fraction-two_digits n h = ground arith

valid_amount-parts :
    (q n : ℕ) → n < 100 → valid_amount (number_to_string q ++ b'.' ∷ two_digits n) ≡ true
valid_amount-parts zero n h =
    rw (number_to_string-digit 0 (omega arith)) (unfold valid_amount in ground arith)
valid_amount-parts (suc q) n h =
    valid_amount-Leads (number_to_string (suc q)) (b'.' ∷ two_digits n)
      (unfold number_to_string in digits_of-Leads (suc (suc q)) (suc q) (omega arith) (omega arith))
      (number_to_string-AreDigits (suc q))
    ∙ fraction-two_digits n h

pub valid_amount-print : (n : ℕ) → valid_amount (unsigned_decimal n) ≡ true
valid_amount-print n =
    rw (unsigned_decimal_lem n) (valid_amount-parts (n / 100) (n % 100) (omega arith))
