-- ===== src/Wagering/Parse/Laws.antt =====
-- src/wagering/application/parse-wager-transaction-message.ts: a message that carries a command.
use distributed_wagering_pro.Kernel.Money.{to_json, MoneyProps, valid_currency, from, Money}
use distributed_wagering_pro.Wagering.Json.{Json, null, boolean, text, number, array, object}
use distributed_wagering_pro.Prelude.{
  Option, Text, codes, is_empty, pos, some, ◌≡◌, ◌≤ℤ◌, none, false, true, arith, refl, ◌∷◌, [],
  text_eq, ap, ◌∙◌,
}
use distributed_wagering_pro.Wagering.Submit.{Command}
use distributed_wagering_pro.Wagering.Parse.{
  require_string, require_kind, optional_string, property, read_fields,
  parse_wager_transaction_message, read_command, require_object, is_object, read_parsed,
}
use distributed_wagering_pro.Wagering.Transaction.{
  kind_text, Kind, opening, bet, win, loss, refund, rollback,
}
use distributed_wagering_pro.Kernel.Errors.{ok}
use distributed_wagering_pro.Kernel.Money.RoundTrip.{from-to_json}
use distributed_wagering_pro.Kernel.Money.Decimal.{valid_amount}
use distributed_wagering_pro.Persistence.World.{Platform}

abbrev pub optional_text : Option Text → Option Json
optional_text none = none
optional_text (some s) = some (text s)

-- The object carries the fields of the command, in any order and among others; a command with no
-- reference has no such property.
pub record Carries (raw : Json) (cmd : Command) : Type 0 where
  pub provider_id : property (codes "providerId") raw ≡ some (text cmd.provider_id)
  pub external_transaction_id :
      property (codes "externalTransactionId") raw ≡ some (text cmd.external_transaction_id)
  pub idempotency_key : property (codes "idempotencyKey") raw ≡ some (text cmd.idempotency_key)
  pub player_id : property (codes "playerId") raw ≡ some (text cmd.player_id)
  pub wallet_id : property (codes "walletId") raw ≡ some (text cmd.wallet_id)
  pub round_id : property (codes "roundId") raw ≡ some (text cmd.round_id)
  pub game_id : property (codes "gameId") raw ≡ some (text cmd.game_id)
  pub kind : property (codes "kind") raw ≡ some (text (kind_text cmd.kind))
  pub money_raw : Json
  pub money : property (codes "money") raw ≡ some money_raw
  pub amount : property (codes "amount") money_raw ≡ some (text (to_json cmd.money).amount)
  pub currency : property (codes "currency") money_raw ≡ some (text (to_json cmd.money).currency)
  pub reference :
      property (codes "referenceExternalTransactionId") raw
      ≡ optional_text cmd.reference_external_transaction_id

abbrev pub NonEmpty : Text → Type 0
NonEmpty s = is_empty s ≡ false

abbrev pub ReferenceNonEmpty : Option Text → Type 0
ReferenceNonEmpty none = Unit
ReferenceNonEmpty (some s) = NonEmpty s

-- A command that a message can carry.
pub record IsSendable (cmd : Command) : Type 0 where
  pub provider_id : NonEmpty cmd.provider_id
  pub external_transaction_id : NonEmpty cmd.external_transaction_id
  pub idempotency_key : NonEmpty cmd.idempotency_key
  pub player_id : NonEmpty cmd.player_id
  pub wallet_id : NonEmpty cmd.wallet_id
  pub round_id : NonEmpty cmd.round_id
  pub game_id : NonEmpty cmd.game_id
  pub reference : ReferenceNonEmpty cmd.reference_external_transaction_id
  pub amount : pos 0 ≤ℤ cmd.money.minor_units
  pub currency : valid_currency cmd.money.currency ≡ true
  pub correlation_id : cmd.correlation_id ≡ none
  pub causation_id : cmd.causation_id ≡ none

require_string-text : (s : Text) → NonEmpty s → require_string (some (text s)) ≡ ok s
unfolding require_string
require_string-text [] h = absurd (ground arith)
require_string-text (c ∷ cs) h = refl

require_kind-text : (k : Kind) → require_kind (kind_text k) ≡ ok k
unfolding require_kind kind_text text_eq
require_kind-text opening = refl
require_kind-text bet = refl
require_kind-text win = refl
require_kind-text loss = refl
require_kind-text refund = refl
require_kind-text rollback = refl

kind_text-NonEmpty : (k : Kind) → NonEmpty (kind_text k)
unfolding kind_text
kind_text-NonEmpty k = elim k as (λ k. NonEmpty (kind_text k)) [
  | opening ↦ refl
  | bet ↦ refl
  | win ↦ refl
  | loss ↦ refl
  | refund ↦ refl
  | rollback ↦ refl
]

optional_string-text : (s : Text) → NonEmpty s → optional_string (some (text s)) ≡ ok (some s)
unfolding optional_string
optional_string-text s h = rw (require_string-text s h) refl

valid_currency-NonEmpty : (s : Text) → valid_currency s ≡ true → NonEmpty s
unfolding valid_currency
valid_currency-NonEmpty [] h = absurd (ground arith)
valid_currency-NonEmpty (c ∷ s) h = refl

valid_amount-NonEmpty : (s : Text) → valid_amount s ≡ true → NonEmpty s
unfolding valid_amount
valid_amount-NonEmpty [] h = absurd (ground arith)
valid_amount-NonEmpty (c ∷ s) h = refl

from-NonEmpty :
    (props : MoneyProps) {m : Money}
    → from props ≡ ok m
    → NonEmpty props.amount × NonEmpty props.currency
unfolding from
from-NonEmpty props h = (
  valid_amount-NonEmpty props.amount (ground arith),
  valid_currency-NonEmpty props.currency (ground arith),
)

has_property-is_object :
    (name : Text) (raw : Json) {value : Json}
    → property name raw ≡ some value
    → is_object raw ≡ true
unfolding property is_object
has_property-is_object name (object fs) h = refl
has_property-is_object name null h = cc
has_property-is_object name (boolean _) h = cc
has_property-is_object name (text _) h = cc
has_property-is_object name (number _) h = cc
has_property-is_object name (array _) h = refl

module _ (cmd : Command) (s : IsSendable cmd) (raw : Json) (c : Carries raw cmd) where
  reads_reference :
      optional_string (property (codes "referenceExternalTransactionId") raw)
      ≡ ok cmd.reference_external_transaction_id
  reads_reference = rw c.reference (by_reference cmd.reference_external_transaction_id s.reference)
    where
      by_reference :
          (r : Option Text) → ReferenceNonEmpty r → optional_string (optional_text r) ≡ ok r
      by_reference none h = unfold optional_string in refl
      by_reference (some t) h = optional_string-text t h

  reads_fields : read_fields raw cmd.kind c.money_raw cmd.reference_external_transaction_id ≡ ok cmd
  unfolding read_fields
  reads_fields =
      let money = from-to_json cmd.money s.amount s.currency in
      let (amount, currency) = from-NonEmpty (to_json cmd.money) money in
      rw
        (
          c.provider_id,
          c.external_transaction_id,
          c.idempotency_key,
          c.player_id,
          c.wallet_id,
          c.round_id,
          c.game_id,
          c.amount,
          c.currency,
          require_string-text cmd.provider_id s.provider_id,
          require_string-text cmd.external_transaction_id s.external_transaction_id,
          require_string-text cmd.idempotency_key s.idempotency_key,
          require_string-text cmd.player_id s.player_id,
          require_string-text cmd.wallet_id s.wallet_id,
          require_string-text cmd.round_id s.round_id,
          require_string-text cmd.game_id s.game_id,
          require_string-text (to_json cmd.money).amount amount,
          require_string-text (to_json cmd.money).currency currency,
          money,
          s.correlation_id,
          s.causation_id,
        )
        refl

  read_command_lem : read_command raw ≡ ok cmd
  unfolding read_command require_object
  read_command_lem =
      rw
        (
          has_property-is_object (codes "kind") raw c.kind,
          c.kind,
          require_string-text (kind_text cmd.kind) (kind_text-NonEmpty cmd.kind),
          require_kind-text cmd.kind,
          c.money,
          has_property-is_object (codes "amount") c.money_raw c.amount,
          reads_reference,
          reads_fields,
        )
        refl

  -- Such a message is parsed to the command.
  pub parse-carried :
      (P : Platform) (body : Text)
      → P.json_parse body ≡ some raw
      → parse_wager_transaction_message P body ≡ ok cmd
  unfolding parse_wager_transaction_message read_parsed
  parse-carried P body h = ap read_parsed h ∙ read_command_lem
