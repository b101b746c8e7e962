-- ===== src/Wagering/PayloadHash.antt =====
-- src/wagering/application/payload-hash.ts: the hash of a request's business fields.
use distributed_wagering_pro.Prelude.{Text, Option, codes, some, none}
use distributed_wagering_pro.Wagering.Json.{
  Json, canonical_json, object, Fields, field, absent, text, end,
}
use distributed_wagering_pro.Kernel.Money.{MoneyProps}
use distributed_wagering_pro.Persistence.World.{Platform}

pub record PayloadHashInput : Type 0 where
  pub provider_id : Text
  pub external_transaction_id : Text
  pub player_id : Text
  pub wallet_id : Text
  pub round_id : Text
  pub game_id : Text
  pub kind : Text
  pub money : MoneyProps
  pub reference_external_transaction_id : Option Text

abbrev optional_field : Text → Option Text → Fields → Fields
optional_field k none fs = absent k fs
optional_field k (some s) fs = field k (text s) fs

-- The object that is hashed, its properties in the order of the literal that builds it.
unfoldable pub payload : PayloadHashInput → Json
payload input = object (
    field (codes "providerId") (text input.provider_id) (
      field (codes "externalTransactionId") (text input.external_transaction_id) (
        field (codes "playerId") (text input.player_id) (
          field (codes "walletId") (text input.wallet_id) (
            field (codes "roundId") (text input.round_id) (
              field (codes "gameId") (text input.game_id) (
                field (codes "kind") (text input.kind) (
                  field (codes "money")
                    (object (
                      field (codes "amount") (text input.money.amount)
                        (field (codes "currency") (text input.money.currency) end)))
                    (optional_field (codes "referenceExternalTransactionId")
                      input.reference_external_transaction_id end)))))))))

unfoldable pub compute_payload_hash : Platform → PayloadHashInput → Text
unfolding payload canonical_json
compute_payload_hash P input = P.sha256 (canonical_json (payload input))
