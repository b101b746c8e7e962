-- ===== src/Wagering/Repository/Reads.antt =====
-- src/wagering/infrastructure/persistence/wager-transaction.repository.ts: what the queries give.
use distributed_wagering_pro.Wagering.Repository.{find_one}
use distributed_wagering_pro.Persistence.World.{Platform, World}
use distributed_wagering_pro.Wagering.Row.{TransactionRow, to_wager_transaction}
use distributed_wagering_pro.Prelude.{
  Bool, List, ◌≡◌, refl, some, none, true, All, Occurs, false, Option, arith,
}
use distributed_wagering_pro.Wagering.Transaction.{WagerTransaction}
use distributed_wagering_pro.Kernel.Errors.{ok}
use distributed_wagering_pro.Persistence.Effect.{map_found}

module _ {P : Platform} (test : TransactionRow → Bool) (w : World P) where
  abbrev pub stored : List TransactionRow
  stored = P.tables.transactions.rows w.em.transactions

  -- A query changes nothing.
  pub find_one-state : (find_one test w).1 ≡ w
  unfolding find_one
  find_one-state = refl

  pub find_one-found :
      (tx : WagerTransaction)
      → (find_one test w).0 ≡ ok (some tx)
      → (r : TransactionRow) × (test r ≡ true) × Occurs r stored × (to_wager_transaction r ≡ ok tx)
  unfolding find_one
  find_one-found tx h = from_row (P.tables.transactions.find_one test w.em.transactions) refl h
    where
      from_row :
          (o : Option TransactionRow)
          → P.tables.transactions.find_one test w.em.transactions ≡ o
          → map_found to_wager_transaction o ≡ ok (some tx)
          → (r : TransactionRow) × (test r ≡ true)
            × Occurs r stored
            × (to_wager_transaction r ≡ ok tx)
      from_row none e h' = absurd (cc)
      from_row (some r) e h' =
          let (p, o) = P.tables.transactions.find_one-some test w.em.transactions r e in
          (r, p, o, ground arith)

  pub find_one-missing : (find_one test w).0 ≡ ok none → All (λ r. test r ≡ false) stored
  unfolding find_one
  find_one-missing h = from_row (P.tables.transactions.find_one test w.em.transactions) refl h
    where
      from_row :
          (o : Option TransactionRow)
          → P.tables.transactions.find_one test w.em.transactions ≡ o
          → map_found to_wager_transaction o ≡ ok none
          → All (λ r. test r ≡ false) stored
      from_row none e h' = P.tables.transactions.find_one-none test w.em.transactions e
      from_row (some r) e h' = absurd (ground arith)
