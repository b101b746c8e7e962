-- ===== src/Wagering/Parse/Amounts.antt =====
-- src/wagering/application/parse-wager-transaction-message.ts: the amounts of parsed commands.
use distributed_wagering_pro.Kernel.Money
use distributed_wagering_pro.Wagering.Parse.{
  require_string, require_object, require_kind, optional_string, property, read_fields,
  read_command, read_parsed, parse_wager_transaction_message,
}
use distributed_wagering_pro.Kernel.Errors.{Result, ok, ◌>>=◌, err}
use distributed_wagering_pro.Kernel.Money.{MoneyProps, Money}
use distributed_wagering_pro.Wagering.Json.{Json}
use distributed_wagering_pro.Prelude.{
  Option, some, Text, ◌≡◌, codes, none, pos, ◌≤ℤ◌, arith, subst, refl,
}
use distributed_wagering_pro.Persistence.World.{Platform}
use distributed_wagering_pro.Wagering.Submit.{Command}
use distributed_wagering_pro.Wagering.Transaction.{Kind}

-- A command that is returned has an amount of zero or more.
abbrev pub NonNegative : Result Command → Type 0
NonNegative (ok cmd) = pos 0 ≤ℤ cmd.money.minor_units
NonNegative (err e) = Unit

bind-NonNegative :
    {A : Type 0} (m : Result A) (f : A → Result Command)
    → ((a : A) → m ≡ ok a → NonNegative (f a))
    → NonNegative (m >>= f)
bind-NonNegative (ok a) f k = k a refl
bind-NonNegative (err e) f k = tt

pub from-nonneg :
    (props : MoneyProps) {m : Money} → Money.from props ≡ ok m → pos 0 ≤ℤ m.minor_units
unfolding Money.from
from-nonneg props h = ground arith

read_fields-NonNegative :
    (raw : Json) (kind : Kind) (money_raw : Json) (reference : Option Text)
    → NonNegative (read_fields raw kind money_raw reference)
unfolding read_fields
read_fields-NonNegative raw kind money_raw reference =
    let text = λ (name : Text) (f : Text → Result Command) (k : (s : Text) → NonNegative (f s)).
      bind-NonNegative (require_string (property name raw)) f (λ s _. k s) in
    text (codes "providerId") _ λ _. text (codes "externalTransactionId") _ λ _.
      text (codes "idempotencyKey") _ λ _. text (codes "playerId") _ λ _.
        text (codes "walletId") _ λ _. text (codes "roundId") _ λ _. text (codes "gameId") _ λ _.
          bind-NonNegative (require_string (property (codes "amount") money_raw)) _ λ amount _.
            bind-NonNegative (require_string (property (codes "currency") money_raw)) _
              λ currency _.
                bind-NonNegative (Money.from (record { amount = amount; currency = currency })) _
                  λ money made. from-nonneg (record { amount = amount; currency = currency }) made

read_command-NonNegative : (parsed : Json) → NonNegative (read_command parsed)
unfolding read_command
read_command-NonNegative parsed = bind-NonNegative (require_object (some parsed)) _ λ raw _.
    bind-NonNegative (require_string (property (codes "kind") raw)) _ λ kind_name _.
      bind-NonNegative (require_kind kind_name) _ λ kind _.
        bind-NonNegative (require_object (property (codes "money") raw)) _ λ money_raw _.
          bind-NonNegative (optional_string (property (codes "referenceExternalTransactionId") raw))
            _ λ reference _. read_fields-NonNegative raw kind money_raw reference

read_parsed-NonNegative : (parsed : Option Json) → NonNegative (read_parsed parsed)
unfolding read_parsed
read_parsed-NonNegative none = tt
read_parsed-NonNegative (some parsed) = read_command-NonNegative parsed

pub parse-NonNegative :
    (P : Platform) (body : Text) {cmd : Command}
    → parse_wager_transaction_message P body ≡ ok cmd
    → pos 0 ≤ℤ cmd.money.minor_units
unfolding parse_wager_transaction_message
parse-NonNegative P body h = subst NonNegative h (read_parsed-NonNegative (P.json_parse body))
