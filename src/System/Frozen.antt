-- ===== src/System/Frozen.antt =====
-- The triggers and checks of migrations, over any history of requests and runs.
use distributed_wagering_pro.System.{History}
use distributed_wagering_pro.Messaging.Outbox.Laws.{Reach}
use distributed_wagering_pro.Persistence.World.{Platform, World}
use distributed_wagering_pro.Wagering.Row.{TransactionRow}
use distributed_wagering_pro.Persistence.Schema.Writes.{
  Open, LedgerChecked, TransactionChecked, AnyMessage,
}
use distributed_wagering_pro.Messaging.Sqs.{SqsPort}
use distributed_wagering_pro.Prelude.{◌≡◌, [], All, inl, ap, true, inr}
use distributed_wagering_pro.System.Stored.{IsStored, History-IsStored, History-Writes}
use distributed_wagering_pro.Persistence.Schema.Triggers.{
  Passes, reject_terminal_wager_transaction_mutation, reject_ledger_mutation,
  reject_outbox_message_mutation,
}
use distributed_wagering_pro.Persistence.Schema.{EnforcesUnique, wallet_checks}
use distributed_wagering_pro.Persistence.Schema.Evolves.{Evolves, Evolves-mono}
use distributed_wagering_pro.Persistence.Schema.Passes.{open-Passes, Reach-Passes}
use distributed_wagering_pro.Persistence.Balanced.{RowBalanced, All-occurs}
use distributed_wagering_pro.Persistence.Ordering.Keys.{All-intro}
use distributed_wagering_pro.Persistence.Schema.Checks.{nonneg-wallet_checks}

-- No wallet, entry, transaction or message is stored.
pub record IsEmpty (P : Platform) (w : World P) : Type 0 where
  pub wallets : P.tables.wallets.rows w.em.wallets ≡ []
  pub ledger : P.tables.ledger.rows w.em.ledger ≡ []
  pub transactions : P.tables.transactions.rows w.em.transactions ≡ []
  pub outbox : P.tables.outbox.rows w.em.outbox ≡ []

empty-IsStored : (P : Platform) (w : World P) → IsEmpty P w → IsStored P w
empty-IsStored P w e = record {
  balanced = rw e.wallets tt;
  keyed = record { transactions = rw e.transactions tt; outbox = rw e.outbox tt };
  ledger = rw e.ledger tt;
  transactions = rw e.transactions tt;
}

Open-Passes :
    (r s : TransactionRow)
    → Unit {0}
    → Open r s
    → Passes reject_terminal_wager_transaction_mutation r s × (s.id ≡ r.id)
Open-Passes r s _ (inl e) = (inl e, ap (λ x. x.id) e)
Open-Passes r s _ (inr (running, id, _)) = (open-Passes r s running, id)

module _ {P : Platform} (sqs : SqsPort P) (enforces : EnforcesUnique P) (empty v : World P)
    (is_empty : IsEmpty P empty) (before : History sqs empty v) where
  reached-IsStored : IsStored P v
  reached-IsStored = History-IsStored enforces sqs before (empty-IsStored P empty is_empty)

  -- Where the unique constraints of the migrations are enforced, and from any state that requests
  -- and runs reach from an empty database, nothing that any later series of requests and runs does
  -- would be refused by the triggers on updates, and no stored row goes away: every row of the
  -- ledger stays as it is; every row of a transaction keeps its place and its id, and is as it was
  -- or what the trigger on terminal rows lets through; every message of the outbox is as it was or
  -- what the trigger on the outbox lets through. The rows of the ledger and of the transactions
  -- that are new pass the checks of their tables.
  pub history-frozen :
      (w : World P)
      → History sqs v w
      → Evolves
          (Passes reject_ledger_mutation)
          LedgerChecked
          (P.tables.ledger.rows v.em.ledger)
          (P.tables.ledger.rows w.em.ledger)
        × Evolves
            (λ r s. Passes reject_terminal_wager_transaction_mutation r s × (s.id ≡ r.id))
            TransactionChecked
            (P.tables.transactions.rows v.em.transactions)
            (P.tables.transactions.rows w.em.transactions)
        × Evolves
            (Passes reject_outbox_message_mutation)
            AnyMessage
            (P.tables.outbox.rows v.em.outbox)
            (P.tables.outbox.rows w.em.outbox)
  history-frozen w h =
      let writes = History-Writes enforces sqs h reached-IsStored in
      let transactions = P.tables.transactions.rows v.em.transactions in
      let messages = P.tables.outbox.rows v.em.outbox in
      (
        writes.ledger,
        Evolves-mono Open _ TransactionChecked (λ _. Unit) Open-Passes transactions
            (P.tables.transactions.rows w.em.transactions)
            (All-intro (λ _. Unit) transactions (λ _ _. tt)) writes.transactions,
        Evolves-mono Reach (Passes reject_outbox_message_mutation) AnyMessage (λ _. Unit)
            (λ m m' _ r. Reach-Passes m m' r) messages (P.tables.outbox.rows w.em.outbox)
            (All-intro (λ _. Unit) messages (λ _ _. tt)) writes.outbox,
      )

  -- Where the unique constraints of the migrations are enforced, every row of a wallet, of the
  -- ledger and of a transaction passes the checks of its table in every state that requests and
  -- runs reach from an empty database: no balance and no amount of a transaction is negative,
  -- every entry moves an amount above zero between balances that are not negative, and kind,
  -- status and direction are among the values that are listed.
  pub history-checks :
      All (λ r. wallet_checks r ≡ true) (P.tables.wallets.rows v.em.wallets)
      × All LedgerChecked (P.tables.ledger.rows v.em.ledger)
      × All TransactionChecked (P.tables.transactions.rows v.em.transactions)
  history-checks =
      let wallets = P.tables.wallets.rows v.em.wallets in
      let balanced = RowBalanced (P.tables.ledger.rows v.em.ledger) in
      (
        All-intro (λ r. wallet_checks r ≡ true) wallets
            λ r o.
              nonneg-wallet_checks r (All-occurs balanced wallets reached-IsStored.balanced o).1,
        reached-IsStored.ledger,
        reached-IsStored.transactions,
      )
