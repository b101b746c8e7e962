-- ===== src/Wagering/Parse/Exactly.antt =====
-- src/wagering/application/parse-wager-transaction-message.ts: exactly which messages are read as a
-- command.
use distributed_wagering_pro.Kernel.Money
use distributed_wagering_pro.Kernel.Money.{MoneyProps, Money, valid_currency, to_json}
use distributed_wagering_pro.Kernel.Money.Decimal.{valid_amount}
use distributed_wagering_pro.Kernel.Money.Decimal.Canonical.{print-read}
use distributed_wagering_pro.Kernel.Errors.{Result, ok, err, ◌>>=◌}
use distributed_wagering_pro.Wagering.Json.{Json, null, boolean, text, number, array, object}
use distributed_wagering_pro.Wagering.Parse.{
  require_string, require_object, require_kind, optional_string, property, read_fields,
  read_command, read_parsed, parse_wager_transaction_message, valid_kinds, or_malformed,
}
use distributed_wagering_pro.Wagering.Parse.Laws.{
  NonEmpty, IsSendable, Carries, optional_text, ReferenceNonEmpty, parse-carried,
}
use distributed_wagering_pro.Wagering.Parse.Amounts.{from-nonneg}
use distributed_wagering_pro.Wagering.Submit.{Command}
use distributed_wagering_pro.Wagering.Transaction.{Kind, kind_text}
use distributed_wagering_pro.Persistence.World.{Platform}
use distributed_wagering_pro.Prelude.{
  Text, Bool, List, Option, find?, text_eq, Bool-cases, inl, inr, some, none, [], ◌∷◌, ◌≡◌, ◌≤ℤ◌,
  ◌↔◌, true, pos, codes, refl, arith, text_eq_iff, sym, ◌∙◌, ap, subst,
}

-- What is returned, if anything is, has the property.
abbrev Gives : {A : Type 0} → (A → Type 0) → Result A → Type 0
Gives Q (ok a) = Q a
Gives Q (err e) = Unit

bind-Gives :
    {A B : Type 0} (Q : B → Type 0) (r : Result A) (f : A → Result B)
    → ((a : A) → r ≡ ok a → Gives Q (f a))
    → Gives Q (r >>= f)
bind-Gives Q (ok a) f k = k a refl
bind-Gives Q (err e) f k = tt

require_string-ok :
    (v : Option Json) {s : Text} → require_string v ≡ ok s → (v ≡ some (text s)) × NonEmpty s
unfolding require_string
require_string-ok none h = absurd (cc)
require_string-ok (some (text [])) h = absurd (cc)
require_string-ok (some (text (c ∷ cs))) h = ground arith
require_string-ok (some null) h = absurd (cc)
require_string-ok (some (boolean _)) h = absurd (cc)
require_string-ok (some (number _)) h = absurd (cc)
require_string-ok (some (array _)) h = absurd (cc)
require_string-ok (some (object _)) h = absurd (cc)

string-Gives :
    {B : Type 0} (Q : B → Type 0) (v : Option Json) (f : Text → Result B)
    → ((s : Text) → v ≡ some (text s) → NonEmpty s → Gives Q (f s))
    → Gives Q (require_string v >>= f)
string-Gives Q v f k =
    bind-Gives Q (require_string v) f
      λ s e. let (is_text, filled) = require_string-ok v e in k s is_text filled

optional_string-Gives :
    (v : Option Json) → Gives (λ r. (v ≡ optional_text r) × ReferenceNonEmpty r) (optional_string v)
unfolding optional_string
optional_string-Gives none = (refl, tt)
optional_string-Gives (some j) =
    string-Gives (λ r. (some j ≡ optional_text r) × ReferenceNonEmpty r) (some j) (λ s. ok (some s))
      λ s is_text filled. (is_text, filled)

require_object-ok : (v : Option Json) {j : Json} → require_object v ≡ ok j → v ≡ some j
unfolding require_object
require_object-ok none h = absurd (cc)
require_object-ok (some value) h = ground arith

find?-passes : {A : Type 0} (p : A → Bool) (xs : List A) {x : A} → find? p xs ≡ some x → p x ≡ true
find?-passes p [] h = absurd (cc)
find?-passes p (y ∷ ys) {x} h = elim (Bool-cases (p y)) [
  | inl e ↦
      let h' : some y ≡ some x = rw e at h in
      let same : y ≡ x = cc in subst (λ z. p z ≡ true) same e
  | inr e ↦ find?-passes p ys (rw e at h)
]

or_malformed-ok : {A : Type 0} (o : Option A) {a : A} → or_malformed o ≡ ok a → o ≡ some a
or_malformed-ok none h = absurd (cc)
or_malformed-ok (some x) h = cc

require_kind-ok : (s : Text) {k : Kind} → require_kind s ≡ ok k → s ≡ kind_text k
unfolding require_kind
require_kind-ok s {k} h = sym (
    (text_eq_iff (kind_text k) s).0 (
      find?-passes (λ k. text_eq (kind_text k) s) valid_kinds
        (or_malformed-ok (find? (λ k. text_eq (kind_text k) s) valid_kinds) h)))

from-ok :
    (props : MoneyProps) {m : Money}
    → Money.from props ≡ ok m
    → (to_json m ≡ props) × (valid_currency m.currency ≡ true)
unfolding Money.from to_json
from-ok props h =
    let v : valid_amount props.amount ≡ true = ground arith in
    let (n, read, print) = print-read props.amount v in ground (arith, read, print)

-- The fields that are read, and what they say of the command.
record ReadFields (raw : Json) (kind : Kind) (money_raw : Json) (reference : Option Text)
    (cmd : Command) : Type 0 where
  provider_id : property (codes "providerId") raw ≡ some (text cmd.provider_id)
  external_transaction_id :
      property (codes "externalTransactionId") raw ≡ some (text cmd.external_transaction_id)
  idempotency_key : property (codes "idempotencyKey") raw ≡ some (text cmd.idempotency_key)
  player_id : property (codes "playerId") raw ≡ some (text cmd.player_id)
  wallet_id : property (codes "walletId") raw ≡ some (text cmd.wallet_id)
  round_id : property (codes "roundId") raw ≡ some (text cmd.round_id)
  game_id : property (codes "gameId") raw ≡ some (text cmd.game_id)
  amount : property (codes "amount") money_raw ≡ some (text (to_json cmd.money).amount)
  currency : property (codes "currency") money_raw ≡ some (text (to_json cmd.money).currency)
  kinds : cmd.kind ≡ kind
  references : cmd.reference_external_transaction_id ≡ reference
  filled :
      NonEmpty cmd.provider_id
      × NonEmpty cmd.external_transaction_id
      × NonEmpty cmd.idempotency_key
      × NonEmpty cmd.player_id
      × NonEmpty cmd.wallet_id
      × NonEmpty cmd.round_id
      × NonEmpty cmd.game_id
  money : (pos 0 ≤ℤ cmd.money.minor_units) × (valid_currency cmd.money.currency ≡ true)
  ids : (cmd.correlation_id ≡ none) × (cmd.causation_id ≡ none)

module _ (raw : Json) (kind : Kind) (money_raw : Json) (reference : Option Text) where
  read_fields-Gives :
      Gives (ReadFields raw kind money_raw reference) (read_fields raw kind money_raw reference)
  unfolding read_fields
  read_fields-Gives =
      let Q = ReadFields raw kind money_raw reference in
      string-Gives Q (property (codes "providerId") raw) _ λ provider_id e₁ n₁.
        string-Gives Q (property (codes "externalTransactionId") raw) _ λ external_id e₂ n₂.
          string-Gives Q (property (codes "idempotencyKey") raw) _ λ key e₃ n₃.
            string-Gives Q (property (codes "playerId") raw) _ λ player_id e₄ n₄.
              string-Gives Q (property (codes "walletId") raw) _ λ wallet_id e₅ n₅.
                string-Gives Q (property (codes "roundId") raw) _ λ round_id e₆ n₆.
                  string-Gives Q (property (codes "gameId") raw) _ λ game_id e₇ n₇.
                    string-Gives Q (property (codes "amount") money_raw) _ λ amount e₈ _.
                      string-Gives Q (property (codes "currency") money_raw) _ λ currency e₉ _.
                        bind-Gives Q (Money.from (record { amount = amount; currency = currency }))
                          _
                          λ money made.
                            let (printed, well_formed) =
                              from-ok (record { amount = amount; currency = currency }) made in
                            record {
                              provider_id = e₁;
                              external_transaction_id = e₂;
                              idempotency_key = e₃;
                              player_id = e₄;
                              wallet_id = e₅;
                              round_id = e₆;
                              game_id = e₇;
                              amount =
                                  e₈ ∙ ap (λ (p : MoneyProps). some (text p.amount)) (sym printed);
                              currency =
                                  e₉
                                  ∙ ap (λ (p : MoneyProps). some (text p.currency)) (sym printed);
                              kinds = refl;
                              references = refl;
                              filled = (n₁, n₂, n₃, n₄, n₅, n₆, n₇);
                              money = (
                                from-nonneg (record { amount = amount; currency = currency }) made,
                                well_formed,
                              );
                              ids = (refl, refl);
                            }

-- What is read as a command carries it.
abbrev Carried : Json → Command → Type 0
Carried raw cmd = Carries raw cmd × IsSendable cmd

fields-Carried :
    (raw : Json) (kind_name : Text) (kind : Kind) (money_raw : Json) (reference : Option Text)
    (cmd : Command)
    → property (codes "kind") raw ≡ some (text kind_name)
    → kind_name ≡ kind_text kind
    → property (codes "money") raw ≡ some money_raw
    → property (codes "referenceExternalTransactionId") raw ≡ optional_text reference
    → ReferenceNonEmpty reference
    → ReadFields raw kind money_raw reference cmd
    → Carried raw cmd
fields-Carried raw kind_name kind money_raw reference cmd k named m r given f =
    let (n₁, n₂, n₃, n₄, n₅, n₆, n₇) = f.filled in
    (
      record {
        provider_id = f.provider_id;
        external_transaction_id = f.external_transaction_id;
        idempotency_key = f.idempotency_key;
        player_id = f.player_id;
        wallet_id = f.wallet_id;
        round_id = f.round_id;
        game_id = f.game_id;
        kind = k ∙ ap (λ s. some (text s)) (named ∙ ap kind_text (sym f.kinds));
        money_raw = money_raw;
        money = m;
        amount = f.amount;
        currency = f.currency;
        reference = r ∙ ap optional_text (sym f.references);
      },
      record {
        provider_id = n₁;
        external_transaction_id = n₂;
        idempotency_key = n₃;
        player_id = n₄;
        wallet_id = n₅;
        round_id = n₆;
        game_id = n₇;
        reference = subst ReferenceNonEmpty (sym f.references) given;
        amount = f.money.0;
        currency = f.money.1;
        correlation_id = f.ids.0;
        causation_id = f.ids.1;
      },
    )

Gives-mono :
    {A : Type 0} {Q R : A → Type 0} (r : Result A) → ((a : A) → Q a → R a) → Gives Q r → Gives R r
Gives-mono (ok a) weaker h = weaker a h
Gives-mono (err e) weaker h = tt

read_command-Gives : (raw : Json) → Gives (Carried raw) (read_command raw)
unfolding read_command
read_command-Gives parsed =
    bind-Gives (Carried parsed) (require_object (some parsed)) _ λ raw is_object_raw.
      let same : some parsed ≡ some raw = require_object-ok (some parsed) is_object_raw in
      let e : parsed ≡ raw = cc in
      string-Gives (Carried parsed) (property (codes "kind") raw) _ λ kind_name k _.
        bind-Gives (Carried parsed) (require_kind kind_name) _ λ kind named.
          bind-Gives (Carried parsed) (require_object (property (codes "money") raw)) _
            λ money_raw m.
              bind-Gives (Carried parsed)
                (optional_string (property (codes "referenceExternalTransactionId") raw)) _
                λ reference r.
                  let (referred, given) =
                    subst
                      (Gives (λ x.
                        (property (codes "referenceExternalTransactionId") raw ≡ optional_text x)
                        × ReferenceNonEmpty x))
                      r
                      (optional_string-Gives
                        (property (codes "referenceExternalTransactionId") raw)) in
                  Gives-mono (read_fields raw kind money_raw reference)
                    (λ cmd f.
                      subst (λ x. Carried x cmd) (sym e)
                        (fields-Carried raw kind_name kind money_raw reference cmd k
                          (require_kind-ok kind_name named)
                          (require_object-ok (property (codes "money") raw) m) referred given f))
                    (read_fields-Gives raw kind money_raw reference)

read_parsed-Gives :
    (parsed : Option Json)
    → Gives (λ cmd. (raw : Json) × (parsed ≡ some raw) × Carried raw cmd) (read_parsed parsed)
unfolding read_parsed
read_parsed-Gives none = tt
read_parsed-Gives (some raw) =
    Gives-mono (read_command raw) (λ cmd c. (raw, refl, c)) (read_command-Gives raw)

parsed_body-Gives :
    (P : Platform) (body : Text)
    → Gives
        (λ cmd. (raw : Json) × (P.json_parse body ≡ some raw) × Carried raw cmd)
        (parse_wager_transaction_message P body)
unfolding parse_wager_transaction_message
parsed_body-Gives P body = read_parsed-Gives (P.json_parse body)

-- A message is parsed to a command exactly where its body is JSON for an object that carries the
-- fields of the command, in any order and among any others, with no property for a reference if
-- the command has none, and where no text is empty, the amount is zero or more, the currency is
-- well-formed, and the command has neither a correlation nor a causation id.
pub parse_iff :
    (P : Platform) (body : Text) (cmd : Command)
    → (parse_wager_transaction_message P body ≡ ok cmd)
      ↔ ((raw : Json) × (P.json_parse body ≡ some raw) × Carries raw cmd × IsSendable cmd)
parse_iff P body cmd = (parsed, λ (raw, e, c, s). parse-carried cmd s raw c P body e)
  where
    parsed :
        parse_wager_transaction_message P body ≡ ok cmd
        → (raw : Json) × (P.json_parse body ≡ some raw) × Carries raw cmd × IsSendable cmd
    parsed h =
        let (raw, e, c) =
          subst (Gives (λ cmd. (raw : Json) × (P.json_parse body ≡ some raw) × Carried raw cmd)) h
            (parsed_body-Gives P body) in
        (raw, e, c.0, c.1)
