-- ===== src/Wagering/Parse/Throws.antt =====
-- src/wagering/application/parse-wager-transaction-message.ts: what it throws.
use distributed_wagering_pro.Kernel.Money
use distributed_wagering_pro.Prelude.{[], ◌∷◌, Bool-cases, ◌≡◌, inl, subst, not, inr}
use distributed_wagering_pro.Wagering.Json.{Json, text, boolean, number, array, object, null}
use distributed_wagering_pro.Kernel.Errors.{
  Error, Result, DomainError, domain, ok, ensure, invalid_money_amount, err, negative_money_amount,
  invalid_message, invalid_currency,
}
use distributed_wagering_pro.Prelude.{
  Bool, Option, Text, some, if◌then◌else◌, find?, codes, none, text_eq, true, false,
}
use distributed_wagering_pro.Wagering.Parse.{
  require_string, require_object, require_kind, optional_string, read_fields, or_malformed,
  property, is_object, valid_kinds, read_command, read_parsed, parse_wager_transaction_message,
}
use distributed_wagering_pro.Kernel.Money.{MoneyProps, valid_currency}
use distributed_wagering_pro.Kernel.Errors.{◌>>=◌, ◌>>◌}
use distributed_wagering_pro.Wagering.Transaction.{Kind, kind_text}
use distributed_wagering_pro.Kernel.Money.Decimal.{valid_amount, negative_amount}
use distributed_wagering_pro.Persistence.World.{Platform}
use distributed_wagering_pro.Kernel.Money.Decimal.Canonical.{print-read}

-- `InvalidWagerTransactionMessageError`, or an error of `Money.from`.
abbrev pub IsMessageError : Error → Type 0
IsMessageError invalid_message = Unit
IsMessageError (domain (invalid_money_amount _)) = Unit
IsMessageError (domain (negative_money_amount _)) = Unit
IsMessageError (domain (invalid_currency _)) = Unit
IsMessageError _ = ⊥

-- What is thrown, if anything is, is such an error.
abbrev ThrowsMessageError : {A : Type 0} → Result A → Type 0
ThrowsMessageError (ok _) = Unit
ThrowsMessageError (err e) = IsMessageError e

ensure-Throws :
    {A : Type 0} (b : Bool) (e : DomainError) (rest : Result A)
    → IsMessageError (domain e)
    → ThrowsMessageError rest
    → ThrowsMessageError (ensure b e >> rest)
ensure-Throws true e rest h k = k
ensure-Throws false e rest h k = h

bind-Throws :
    {A B : Type 0} (r : Result A) (f : A → Result B)
    → ThrowsMessageError r
    → ((a : A) → ThrowsMessageError (f a))
    → ThrowsMessageError (r >>= f)
bind-Throws (ok a) f h k = k a
bind-Throws (err e) f h k = h

require_string-Throws : (v : Option Json) → ThrowsMessageError (require_string v)
unfolding require_string
require_string-Throws none = tt
require_string-Throws (some j) = elim j as (λ j. ThrowsMessageError (require_string (some j))) [
  | text s ↦ elim s as (λ s. ThrowsMessageError (require_string (some (text s)))) [
    | [] ↦ tt
    | c ∷ cs ↦ tt
  ]
  | null ↦ tt
  | boolean _ ↦ tt
  | number _ ↦ tt
  | array _ ↦ tt
  | object _ ↦ tt
]

string-Throws :
    {A : Type 0} (v : Option Json) (f : Text → Result A)
    → ((s : Text) → ThrowsMessageError (f s))
    → ThrowsMessageError (require_string v >>= f)
string-Throws v f k = bind-Throws (require_string v) f (require_string-Throws v) k

require_object-Throws : (v : Option Json) → ThrowsMessageError (require_object v)
unfolding require_object
require_object-Throws none = tt
require_object-Throws (some j) = by_test (is_object j)
  where
    by_test : (b : Bool) → ThrowsMessageError (if b then ok j else err invalid_message)
    by_test true = tt
    by_test false = tt

require_kind-Throws : (s : Text) → ThrowsMessageError (require_kind s)
unfolding require_kind
require_kind-Throws s = by_found (find? (λ k. text_eq (kind_text k) s) valid_kinds)
  where
    by_found : (k : Option Kind) → ThrowsMessageError (or_malformed k)
    by_found none = tt
    by_found (some k) = tt

optional_string-Throws : (v : Option Json) → ThrowsMessageError (optional_string v)
unfolding optional_string
optional_string-Throws none = tt
optional_string-Throws (some j) =
    bind-Throws (require_string (some j)) (λ s. ok (some s)) (require_string-Throws (some j))
      (λ _. tt)

from-Throws : (props : MoneyProps) → ThrowsMessageError (Money.from props)
unfolding Money.from Money.assert_valid_currency
from-Throws props = elim (Bool-cases (valid_amount props.amount)) [
  | inl v ↦
      let (n, read, _) = print-read props.amount v in
      rw (v, read)
        (ensure-Throws (not (negative_amount props.amount)) _ _ tt
          (ensure-Throws (valid_currency props.currency) _ _ tt tt))
  | inr v ↦ rw v (ensure-Throws (not (negative_amount props.amount)) _ _ tt tt)
]

read_fields-Throws :
    (raw : Json) (kind : Kind) (money_raw : Json) (reference : Option Text)
    → ThrowsMessageError (read_fields raw kind money_raw reference)
unfolding read_fields
read_fields-Throws raw kind money_raw reference =
    string-Throws (property (codes "providerId") raw) _ λ _.
      string-Throws (property (codes "externalTransactionId") raw) _ λ _.
        string-Throws (property (codes "idempotencyKey") raw) _ λ _.
          string-Throws (property (codes "playerId") raw) _ λ _.
            string-Throws (property (codes "walletId") raw) _ λ _.
              string-Throws (property (codes "roundId") raw) _ λ _.
                string-Throws (property (codes "gameId") raw) _ λ _.
                  string-Throws (property (codes "amount") money_raw) _ λ amount.
                    string-Throws (property (codes "currency") money_raw) _ λ currency.
                      bind-Throws (Money.from (record { amount = amount; currency = currency })) _
                        (from-Throws (record { amount = amount; currency = currency })) λ _. tt

read_command-Throws : (parsed : Json) → ThrowsMessageError (read_command parsed)
unfolding read_command
read_command-Throws parsed =
    bind-Throws (require_object (some parsed)) _ (require_object-Throws (some parsed)) λ raw.
      string-Throws (property (codes "kind") raw) _ λ kind_name.
        bind-Throws (require_kind kind_name) _ (require_kind-Throws kind_name) λ kind.
          bind-Throws (require_object (property (codes "money") raw)) _
            (require_object-Throws (property (codes "money") raw))
            λ money_raw.
              let reference = property (codes "referenceExternalTransactionId") raw in
              bind-Throws (optional_string reference) _ (optional_string-Throws reference)
                λ r. read_fields-Throws raw kind money_raw r

read_parsed-Throws : (parsed : Option Json) → ThrowsMessageError (read_parsed parsed)
unfolding read_parsed
read_parsed-Throws none = tt
read_parsed-Throws (some parsed) = read_command-Throws parsed

-- Whatever the body of a message is, parsing it throws nothing but the error of a malformed
-- message or one of the three errors of an amount and its currency.
pub parse-IsMessageError :
    (P : Platform) (body : Text) {e : Error}
    → parse_wager_transaction_message P body ≡ err e
    → IsMessageError e
unfolding parse_wager_transaction_message
parse-IsMessageError P body h = subst ThrowsMessageError h (read_parsed-Throws (P.json_parse body))
