-- ===== src/Kernel/Money/Decimal/DigitLaws.antt =====
-- Reading back the digits of a number, and printing a number that was read.
use distributed_wagering_pro.Prelude.{
  Text, ℕ, All, ◌++◌, ◌<◌, ◌≤◌, ◌≡◌, ◌∷◌, arith, ◌/◌, ◌*◌, true, [], ◌%◌, ◌+◌, ◌-◌, sym, refl,
  append-nil, ◌∙◌, append_assoc, suc,
}
use distributed_wagering_pro.Kernel.Money.Decimal.Digits.{
  digits_of, number_to_string, big_int_from, big_int, is_digit, digit_char,
}
use distributed_wagering_pro.Kernel.Errors.{◌>>=◌, ok}
use Prim.Native.Nat.{zero, suc}

-- Every unit is a decimal digit.
abbrev pub AreDigits : Text → Type 0
AreDigits = All (λ c. is_digit c ≡ true)

pub AreDigits-append : (s t : Text) → AreDigits s → AreDigits t → AreDigits (s ++ t)
AreDigits-append [] t h k = k
AreDigits-append (c ∷ s) t h k = (h.0, AreDigits-append s t h.1 k)

digits_of-fuel : (f g n : ℕ) → n < f → n < g → digits_of f n ≡ digits_of g n
unfolding digits_of
digits_of-fuel zero g n h k = elim h [ ]
digits_of-fuel (suc f) zero n h k = elim k [ ]
digits_of-fuel (suc f) (suc g) n h k = ground (arith, digits_of-fuel f g (n / 10))

pub number_to_string-digit : (n : ℕ) → n < 10 → number_to_string n ≡ digit_char n ∷ []
unfolding number_to_string
number_to_string-digit n h = ground arith

number_to_string-step :
    (n : ℕ) → 10 ≤ n → number_to_string n ≡ number_to_string (n / 10) ++ digit_char (n % 10) ∷ []
unfolding number_to_string
number_to_string-step n h = ground (arith, digits_of-fuel n (suc (n / 10)) (n / 10))

pub number_to_string-snoc :
    (n d : ℕ)
    → 0 < n
    → d < 10
    → number_to_string (n * 10 + d) ≡ number_to_string n ++ digit_char d ∷ []
number_to_string-snoc n d h k =
    let q : (n * 10 + d) / 10 ≡ n = omega arith in
    let r : (n * 10 + d) % 10 ≡ d = omega arith in
    rw (number_to_string-step (n * 10 + d) (omega arith), q, r)

digits_of-AreDigits : (f n : ℕ) → AreDigits (digits_of f n)
unfolding digits_of
digits_of-AreDigits zero n = tt
digits_of-AreDigits (suc f) n = ground (
  arith,
  digits_of-AreDigits f (n / 10),
  AreDigits-append (digits_of f (n / 10)) (digit_char (n % 10) ∷ []),
)

pub number_to_string-AreDigits : (n : ℕ) → AreDigits (number_to_string n)
unfolding number_to_string
number_to_string-AreDigits n = digits_of-AreDigits (suc n) n

pub big_int_from-append :
    (n : ℕ) (s t : Text) → big_int_from n (s ++ t) ≡ (big_int_from n s >>= λ m. big_int_from m t)
unfolding big_int_from
big_int_from-append n [] t = refl
big_int_from-append n (c ∷ s) t = ground (arith, big_int_from-append (n * 10 + (c - b'0')) s t)

digits_of-read : (f n : ℕ) → n < f → big_int_from 0 (digits_of f n) ≡ ok n
unfolding digits_of big_int_from
digits_of-read zero n h = elim h [ ]
digits_of-read (suc f) n h = ground (
  arith,
  digits_of-read f (n / 10),
  big_int_from-append 0 (digits_of f (n / 10)) (digit_char (n % 10) ∷ []),
)

pub big_int-number_to_string : (n : ℕ) → big_int (number_to_string n) ≡ ok n
unfolding big_int number_to_string
big_int-number_to_string n = digits_of-read (suc n) n (omega arith)

-- Digits that are read on after a number above zero are printed behind it.
pub number_to_string-read :
    (n : ℕ) (s : Text)
    → 0 < n
    → AreDigits s
    → (q : ℕ) × (big_int_from n s ≡ ok q) × (number_to_string q ≡ number_to_string n ++ s)
unfolding big_int_from
number_to_string-read n [] h k = (n, refl, sym (append-nil (number_to_string n)))
number_to_string-read n (c ∷ s) h k =
    let (q, e, p) = number_to_string-read (n * 10 + (c - b'0')) s (omega arith) k.1 in
    let d : c - b'0' < 10 = ground arith in
    let c' : digit_char (c - b'0') ≡ c = ground arith in
    (
      q,
      rw k.0 e,
      p
          ∙ rw (number_to_string-snoc n (c - b'0') h d, c')
              (append_assoc (number_to_string n) (c ∷ []) s),
    )
