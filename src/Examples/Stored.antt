-- ===== src/Examples/Stored.antt =====
-- A state of the database with one wallet, its opening and a bet, and the examples on it: the
-- mappers, and reconciliation.
use distributed_wagering_pro.Wallets.Repository.{find_by_id}
use distributed_wagering_pro.Wallets.Reconcile.{execute}
use distributed_wagering_pro.Wallets.Wallet.{rehydrate, Wallet}
use distributed_wagering_pro.Wagering.Transaction.{processed, bet, WagerTransaction}
use distributed_wagering_pro.Kernel.Event.{LedgerDirection}
use distributed_wagering_pro.Wallets.Reconcile.Consistent.{reconcile-reports, report}
use distributed_wagering_pro.Prelude.{
  ℕ, Text, text_eq, codes, pos, none, ◌+ℤ◌, ◌≡◌, some, ◌∷◌, ◌-ℤ◌, [], arith, refl,
}
use distributed_wagering_pro.Wallets.Rows.{WalletRow, LedgerRow, to_wallet}
use distributed_wagering_pro.Wagering.Row.{TransactionRow}
use distributed_wagering_pro.Persistence.World.{World}
use distributed_wagering_pro.Persistence.Balanced.{ledger_sum, IsBalanced}
use distributed_wagering_pro.Kernel.Money.{Money, from_minor_units, valid_currency}
use distributed_wagering_pro.Examples.Database.{platform}
use distributed_wagering_pro.Kernel.Errors.{ok}

abbrev pub eur : ℕ → Money
eur n = record { minor_units = pos n; currency = codes "EUR" }

abbrev pub wallet_row : WalletRow
wallet_row = record {
  id = codes "w";
  player_id = codes "p";
  currency = codes "EUR";
  balance_amount = pos 700;
  version = 2;
  created_at = 1;
  updated_at = 5;
}

abbrev pub wallet : Wallet
wallet = record {
  id = codes "w";
  player_id = codes "p";
  currency = codes "EUR";
  balance = eur 700;
  version = 2;
  created_at = 1;
  updated_at = 5;
}

abbrev pub entry_row : LedgerDirection → Text → Text → ℕ → ℕ → ℕ → LedgerRow
entry_row direction id tx amount before after = record {
  id = id;
  wallet_id = codes "w";
  transaction_id = tx;
  direction = direction;
  money_amount = pos amount;
  money_currency = codes "EUR";
  balance_before_amount = pos before;
  balance_before_currency = codes "EUR";
  balance_after_amount = pos after;
  balance_after_currency = codes "EUR";
  created_at = 1;
}

abbrev pub bet_row : TransactionRow
bet_row = record {
  id = codes "t";
  provider_id = codes "prov";
  external_transaction_id = codes "x";
  idempotency_key = codes "k";
  payload_hash = codes "h";
  wallet_id = codes "w";
  player_id = codes "p";
  round_id = codes "r";
  game_id = codes "g";
  kind = bet;
  money_amount = pos 300;
  money_currency = codes "EUR";
  reference_external_transaction_id = none;
  reference_transaction_id = none;
  status = processed;
  failure_code = none;
  created_at = 4;
  processed_at = some 5;
  reference_retry_attempts = 0;
  next_reference_retry_at = none;
}

abbrev pub bet_transaction : WagerTransaction
bet_transaction = record {
  props = record {
    id = codes "t";
    provider_id = codes "prov";
    external_transaction_id = codes "x";
    idempotency_key = codes "k";
    payload_hash = codes "h";
    wallet_id = codes "w";
    player_id = codes "p";
    round_id = codes "r";
    game_id = codes "g";
    kind = bet;
    money = eur 300;
    reference_external_transaction_id = none;
    created_at = 4;
  };
  status = processed;
  reference_transaction_id = none;
  failure_code = none;
  processed_at = some 5;
  reference_retry_attempts = 0;
  next_reference_retry_at = none;
}

abbrev pub world : World platform
world = record {
  em = record {
    wallets = wallet_row ∷ [];
    ledger =
        entry_row LedgerDirection.credit (codes "e1") (codes "t0") 1000 0 1000
        ∷ entry_row LedgerDirection.debit (codes "e2") (codes "t") 300 1000 700
        ∷ [];
    transactions = bet_row ∷ [];
    outbox = [];
    inbox = [];
  };
  ids = 0;
  counts = [];
  queues = record { sent = []; waiting = [] };
  queue_urls = [];
}

pub world-IsBalanced : IsBalanced platform world
unfolding ledger_sum ◌+ℤ◌ ◌-ℤ◌ text_eq
world-IsBalanced = ((refl, omega arith), tt)

pub wallet_found : (find_by_id (codes "w") world).0 ≡ ok (some wallet)
unfolding find_by_id text_eq to_wallet from_minor_units valid_currency rehydrate
wallet_found = refl

reconcile-reports_example :
    (execute (codes "w") world).0
    ≡ ok (report (codes "w") world wallet (ledger_sum (codes "w") world.em.ledger))
reconcile-reports_example = reconcile-reports (codes "w") world wallet wallet_found
