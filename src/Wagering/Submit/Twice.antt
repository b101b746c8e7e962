-- ===== src/Wagering/Submit/Twice.antt =====
-- src/wagering/application: a second refund or rollback of one transaction.
use distributed_wagering_pro.Wagering.Repository as Transactions
use distributed_wagering_pro.Wagering.Submit.{settle_claimed, resolve}
use distributed_wagering_pro.Wagering.Submit.Refund.{reverses}
use distributed_wagering_pro.Wagering.Finalizer.{reject}
use distributed_wagering_pro.Wagering.Resolution.{resolve_reference, refused}
use distributed_wagering_pro.Wagering.Finalizer.Outcome.{rejected_at, reject-done}
use distributed_wagering_pro.Wagering.Finalizer.Untouched.{reject-SameMoney}
use distributed_wagering_pro.Wagering.Resolution.Reference.{IsCandidate}
use distributed_wagering_pro.Wagering.Resolution.Reversed.{IsReversal, reversed-refused}
use distributed_wagering_pro.Wagering.Transaction.{
  WagerTransaction, is_terminal, is_falsy, requires_reference, refund, rollback,
}
use distributed_wagering_pro.Wagering.Row.{TransactionRow}
use distributed_wagering_pro.Wallets.Wallet.{Wallet}
use distributed_wagering_pro.Persistence.World.{Platform, World}
use distributed_wagering_pro.Persistence.Balanced.{SameMoney}
use distributed_wagering_pro.Persistence.Schema.{same_external_id, same_reversal}
use distributed_wagering_pro.Persistence.Ordering.{Distinct}
use distributed_wagering_pro.Persistence.Effect.{continue, continue-keeps, pure, pair_path}
use distributed_wagering_pro.Kernel.Event.{EventContext, reference_already_reversed}
use distributed_wagering_pro.Kernel.Errors.{ok}
use distributed_wagering_pro.Prelude.{◌≡◌, ◌⊎◌, true, false, some, none, ap, subst, sym}

module _ {P : Platform} (tx reference reversal : WagerTransaction) (wallet : Wallet)
    (ctx : EventContext) (w : World P) where
  as_refused :
      requires_reference tx ≡ true
      → resolve_reference tx w ≡ (ok (refused reference_already_reversed), w)
      → settle_claimed tx wallet ctx w
        ≡ continue (λ marked. pure (marked, wallet)) (reject tx reference_already_reversed ctx w)
  unfolding settle_claimed resolve
  as_refused needs h = rw needs (ap (continue (λ o. resolve o tx wallet ctx)) h)

  -- A refund or a rollback that names a transaction which a stored and processed transaction of
  -- the same kind has reversed already is rejected as such, and no wallet and no row of the ledger
  -- changes: where no two transactions of a provider have the same external id, the unique index
  -- on reversals holds, the transaction named could be its reference but for that reversal, both
  -- rows can be read, and the new transaction is stored and not in a terminal state.
  pub settle_claimed-twice :
      (row : TransactionRow)
      → Distinct same_external_id (P.tables.transactions.rows w.em.transactions)
      → Distinct same_reversal (P.tables.transactions.rows w.em.transactions)
      → is_falsy tx.reference_external_transaction_id ≡ false
      → IsCandidate w tx reference
      → IsReversal w tx reference reversal
      → (tx.kind ≡ refund) ⊎ (tx.kind ≡ rollback)
      → is_terminal tx ≡ false
      → P.tables.transactions.find_one (Transactions.has_id tx.id) w.em.transactions ≡ some row
      → ((settle_claimed tx wallet ctx w).0
          ≡ ok (rejected_at ctx.now reference_already_reversed tx, wallet))
        × SameMoney w (settle_claimed tx wallet ctx w).1
  settle_claimed-twice row distinct once given c r kind open_state stored =
      let e =
        as_refused (reverses tx reference wallet ctx w kind)
          (reversed-refused tx reference reversal w r distinct once given c kind) in
      let done = reject-done tx none ctx row reference_already_reversed w stored open_state in
      let same = reject-SameMoney tx w reference_already_reversed ctx in
      let answer = λ (marked : WagerTransaction). pure {P = P} (marked, wallet) in
      subst
        (λ x.
          (x.0 ≡ ok (rejected_at ctx.now reference_already_reversed tx, wallet)) × SameMoney w x.1)
        (sym e)
        (
          ap (λ r. (continue answer r).0) (pair_path done),
          continue-keeps (SameMoney w) answer (reject tx reference_already_reversed ctx w) same
              (λ _ _ kept. kept),
        )
