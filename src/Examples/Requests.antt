-- ===== src/Examples/Requests.antt =====
-- Examples on requests: the guard, the controllers, and the two processes together.
use distributed_wagering_pro.Http.KeycloakAuthGuard.{
  JwtPayload, VerifyOptions, RouteContext, can_activate, allowed,
}
use distributed_wagering_pro.Http.KeycloakAuthGuard.Allows.{can_activate_iff, MayPass}
use distributed_wagering_pro.Wagering.Http.{SubmitDto}
use distributed_wagering_pro.System.{start, event, opens}
use distributed_wagering_pro.System.Consistent.{history-consistent}
use distributed_wagering_pro.Messaging.Sqs.Client.{sqs_client}
use distributed_wagering_pro.Wallets.Http.{CreateWalletDto, open_wallet}
use distributed_wagering_pro.Wallets.Repository.{find_by_id}
use distributed_wagering_pro.Wallets.Reconcile
use distributed_wagering_pro.Wallets.Reconcile.{Reconciliation}
use distributed_wagering_pro.Wagering.Transaction.{Kind}
use distributed_wagering_pro.Examples.Database.{platform}
use distributed_wagering_pro.Examples.Stored.{world, eur}
use distributed_wagering_pro.Prelude.{
  Text, codes, none, ◌≡◌, Option, some, ◌↔◌, [], if◌then◌else◌, true, refl, text_eq, pos, ◌∷◌, ◌+ℤ◌,
  ◌-ℤ◌,
}
use distributed_wagering_pro.Kernel.Errors.{ok}
use distributed_wagering_pro.Persistence.World.{World}
use distributed_wagering_pro.Wallets.Wallet.{Wallet}
use distributed_wagering_pro.Persistence.Schema.{unique_constraints}

abbrev accepted : Text → VerifyOptions → Option JwtPayload
accepted token options =
    if text_eq token (codes "good")
    then some (record { realm_access = some (record { roles = some (codes "provider" ∷ []) }) })
    else none

abbrev options : VerifyOptions
options = record { issuer = codes "issuer"; audience = codes "wagering-api" }

abbrev with_token : RouteContext
with_token = record { is_public = none; authorization = some (codes "Bearer good") }

can_activate_iff_example :
    (can_activate accepted options with_token ≡ allowed) ↔ MayPass accepted options with_token
can_activate_iff_example = can_activate_iff accepted options with_token

abbrev pub dto : Kind → SubmitDto
dto kind = record {
  provider_id = codes "prov";
  external_transaction_id = codes "y";
  idempotency_key = codes "k2";
  player_id = codes "p";
  wallet_id = codes "w";
  round_id = codes "r";
  game_id = codes "g";
  kind = kind;
  money = record { amount = codes "2.00"; currency = codes "EUR" };
  reference_external_transaction_id = none;
}

abbrev pub empty_world : World platform
empty_world = record world {
  em = record { wallets = []; ledger = []; transactions = []; outbox = []; inbox = [] };
}

abbrev pub new_wallet : CreateWalletDto
new_wallet = record {
  player_id = codes "p";
  initial_balance = record { amount = codes "10.00"; currency = codes "EUR" };
}

abbrev pub opened_world : World platform
opened_world = (open_wallet new_wallet 1 empty_world).1

abbrev opened : Wallet
opened = record {
  id = platform.new_id 0;
  player_id = codes "p";
  currency = codes "EUR";
  balance = eur 1000;
  version = 1;
  created_at = 1;
  updated_at = 1;
}

opened_found : (find_by_id (platform.new_id 0) opened_world).0 ≡ ok (some opened)
unfolding find_by_id open_wallet text_eq ◌+ℤ◌ ◌-ℤ◌ unique_constraints
opened_found = refl

history-consistent_example :
    (r : Reconciliation) × ((Reconcile.execute (platform.new_id 0) opened_world).0 ≡ ok r)
    × (r.consistent ≡ true)
    × (r.difference.minor_units ≡ pos 0)
history-consistent_example =
    history-consistent (sqs_client platform) empty_world opened_world refl
      (event start (opens new_wallet 1 (tt, tt))) (platform.new_id 0) opened opened_found
