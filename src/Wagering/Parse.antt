-- ===== src/Wagering/Parse.antt =====
-- src/wagering/application/parse-wager-transaction-message.ts: the body of a queue message, read as
-- a command. The wording of the errors is left out.
pub mod Laws
pub mod Exactly
pub mod Amounts
pub mod Throws
use distributed_wagering_pro.Kernel.Money
use distributed_wagering_pro.Wagering.Json.{
  Json, Fields, null, boolean, text, number, array, object, end, field, absent,
}
use distributed_wagering_pro.Prelude.{
  Text, Bool, Option, List, none, true, find?, some, if◌then◌else◌, false, ◌∷◌, text_eq, codes, [],
}
use distributed_wagering_pro.Kernel.Errors.{Result, err, ok, invalid_message, ◌>>◌, ◌>>=◌}
use distributed_wagering_pro.Wagering.Transaction.{
  kind_text, Kind, opening, bet, win, loss, refund, rollback,
}
use distributed_wagering_pro.Persistence.World.{Platform}
use distributed_wagering_pro.Wagering.Submit.{Command}

-- `fields[name]`, `none` for `undefined`. The program asks for names only that no array has.
unfoldable pub field_of : Text → Fields → Option Json
field_of name end = none
field_of name (field k v fs) = if text_eq k name then some v else field_of name fs
field_of name (absent k fs) = if text_eq k name then none else field_of name fs

unfoldable pub property : Text → Json → Option Json
unfolding field_of
property name (object fs) = field_of name fs
property name _ = none

-- `typeof value === "object" && value !== null`
unfoldable pub is_object : Json → Bool
is_object (array xs) = true
is_object (object fs) = true
is_object _ = false

abbrev pub malformed : {A : Type 0} → Result A
malformed = err invalid_message

unfoldable pub require_string : Option Json → Result Text
require_string (some (text [])) = malformed
require_string (some (text (c ∷ cs))) = ok (c ∷ cs)
require_string _ = malformed

unfoldable pub require_object : Option Json → Result Json
unfolding is_object
require_object none = malformed
require_object (some value) = if is_object value then ok value else malformed

-- `VALID_KINDS`, the values of the enumeration.
abbrev pub valid_kinds : List Kind
valid_kinds = opening ∷ bet ∷ win ∷ loss ∷ refund ∷ rollback ∷ []

abbrev pub or_malformed : {A : Type 0} → Option A → Result A
or_malformed none = malformed
or_malformed (some a) = ok a

unfoldable pub require_kind : Text → Result Kind
unfolding kind_text
require_kind s = or_malformed (find? (λ k. text_eq (kind_text k) s) valid_kinds)

unfoldable pub optional_string : Option Json → Result (Option Text)
unfolding require_string
optional_string none = ok none
optional_string (some value) = do s ← require_string (some value); ok (some s)

-- The command's fields, once its kind, its money and its reference are checked.
unfoldable pub read_fields : Json → Kind → Json → Option Text → Result Command
unfolding require_string property Money.from
read_fields raw kind money_raw reference = do
  provider_id ← require_string (property (codes "providerId") raw)
  external_transaction_id ← require_string (property (codes "externalTransactionId") raw)
  idempotency_key ← require_string (property (codes "idempotencyKey") raw)
  player_id ← require_string (property (codes "playerId") raw)
  wallet_id ← require_string (property (codes "walletId") raw)
  round_id ← require_string (property (codes "roundId") raw)
  game_id ← require_string (property (codes "gameId") raw)
  amount ← require_string (property (codes "amount") money_raw)
  currency ← require_string (property (codes "currency") money_raw)
  money ← Money.from (record { amount = amount; currency = currency })
  ok (record {
    provider_id = provider_id;
    external_transaction_id = external_transaction_id;
    idempotency_key = idempotency_key;
    player_id = player_id;
    wallet_id = wallet_id;
    round_id = round_id;
    game_id = game_id;
    kind = kind;
    money = money;
    reference_external_transaction_id = reference;
    correlation_id = none;
    causation_id = none;
  })

-- What follows `JSON.parse`.
unfoldable pub read_command : Json → Result Command
unfolding require_object require_string require_kind optional_string read_fields property
read_command parsed = do
  raw ← require_object (some parsed)
  kind_name ← require_string (property (codes "kind") raw)
  kind ← require_kind kind_name
  money_raw ← require_object (property (codes "money") raw)
  reference ← optional_string (property (codes "referenceExternalTransactionId") raw)
  read_fields raw kind money_raw reference

unfoldable pub read_parsed : Option Json → Result Command
unfolding read_command
read_parsed none = malformed
read_parsed (some parsed) = read_command parsed

unfoldable pub parse_wager_transaction_message : Platform → Text → Result Command
unfolding read_parsed
parse_wager_transaction_message P body = read_parsed (P.json_parse body)
