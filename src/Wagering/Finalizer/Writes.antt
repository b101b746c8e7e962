-- ===== src/Wagering/Finalizer/Writes.antt =====
-- src/wagering/application/wager-transaction-finalizer.ts: what its methods write, under the
-- constraints and triggers of migrations.
use distributed_wagering_pro.Wagering.Finalizer.{
  publish, record_outcome, mark_pending_reference, reject,
}
use distributed_wagering_pro.Persistence.Schema.Writes.{
  Owned, Owned-IsRule, IsRule, Writes, Writes-message, Writes-update, continue-Writes, Writes-refl,
  TransactionChecked,
}
use distributed_wagering_pro.Persistence.Schema.Checks.{nonneg-transaction_checks}
use distributed_wagering_pro.Wagering.Repository
use distributed_wagering_pro.Wagering.Row.{TransactionRow, to_transaction_row}
use distributed_wagering_pro.Persistence.World.{Platform, World, App, Em, same_transaction}
use distributed_wagering_pro.Prelude.{
  Text, List, Occurs, pos, ◌≤ℤ◌, ◌≡◌, true, arith, subst, sym, text_eq_iff, Option, none, some, inr,
  ◌+◌,
}
use distributed_wagering_pro.Wagering.Transaction
use distributed_wagering_pro.Wagering.Transaction.{
  WagerTransaction, affects_balance, ledger_direction_for, CreateProps, Kind, Status, kind_text,
  status_text,
}
use distributed_wagering_pro.Kernel.Event.{Timestamp, FailureCode, IntegrationEvent, EventContext}
use distributed_wagering_pro.Kernel.Errors.{ok}
use distributed_wagering_pro.Messaging.Outbox
use distributed_wagering_pro.Messaging.Repository.{insert_outbox}
use distributed_wagering_pro.Wagering.Events.{transaction_pending_reference, transaction_rejected}
use distributed_wagering_pro.Persistence.Effect.{modify, ◌>>◌, continue, pure, or_fail}
use distributed_wagering_pro.Wagering.Backoff.{compute_reference_backoff_ms}

-- A transaction with one of these ids, of an amount that is not negative.
abbrev pub Owns : List Text → WagerTransaction → Type 0
Owns ids tx = Occurs tx.id ids × (pos 0 ≤ℤ tx.money.minor_units)

-- What a transition keeps.
pub Owns-props :
    (ids : List Text) (tx marked : WagerTransaction)
    → marked.props ≡ tx.props
    → Owns ids tx
    → Owns ids marked
Owns-props ids tx marked e own =
    subst (λ (p : CreateProps). Occurs p.id ids × (pos 0 ≤ℤ p.money.minor_units)) (sym e) own

rejected-props :
    (failure : FailureCode) (at : Timestamp) (tx marked : WagerTransaction)
    → Transaction.reject failure at tx ≡ ok marked
    → marked.props ≡ tx.props
unfolding Transaction.reject
rejected-props failure at tx marked h = ground arith

pending-props :
    (at : Timestamp) (tx marked : WagerTransaction)
    → Transaction.mark_pending_reference at tx ≡ ok marked
    → marked.props ≡ tx.props
unfolding Transaction.mark_pending_reference
pending-props at tx marked h = ground arith

pub processed-props :
    (reference : Option Text) (at : Timestamp) (tx marked : WagerTransaction)
    → Transaction.mark_processed reference at tx ≡ ok marked
    → marked.props ≡ tx.props
unfolding Transaction.mark_processed
processed-props reference at tx marked h = ground arith

pub row-TransactionChecked :
    (ids : List Text) (tx : WagerTransaction)
    → Owns ids tx
    → TransactionChecked (to_transaction_row tx)
unfolding to_transaction_row
row-TransactionChecked ids tx own = nonneg-transaction_checks (to_transaction_row tx) own.1

module _ (P : Platform) (ids : List Text) where
  -- What is written under the rule that only these transactions change.
  abbrev pub Changes : Em P.tables → Em P.tables → Type 0
  Changes = Writes P (Owned ids)

  pub rule : IsRule (Owned ids)
  rule = Owned-IsRule ids

  pub save-Changes :
      (tx : WagerTransaction) (w : World P) → Owns ids tx → Changes w.em (Repository.save tx w).1.em
  unfolding Repository.save to_transaction_row
  save-Changes tx w own =
      by_row (P.tables.transactions.find_one (Repository.has_id tx.id) w.em.transactions)
    where
      update : App P (Unit {0})
      update = modify λ em. record em {
        transactions = P.tables.transactions.assign (to_transaction_row tx) em.transactions;
      }

      same_id :
          (r : TransactionRow)
          → same_transaction r (to_transaction_row tx) ≡ true
          → Owned ids r (to_transaction_row tx)
      same_id r e =
          let id = (text_eq_iff r.id tx.id).0 e in
          inr (subst (λ i. Occurs i ids) (sym id) own.0, sym id, row-TransactionChecked ids tx own)

      by_row :
          (o : Option TransactionRow) → Changes w.em (continue (λ _. update) (or_fail o w)).1.em
      by_row none = Writes-refl P rule w.em
      by_row (some _) = Writes-update P rule (to_transaction_row tx) w.em same_id

  pub publish-Changes :
      (event : Text → IntegrationEvent) (w : World P) → Changes w.em (publish event w).1.em
  unfolding publish insert_outbox
  publish-Changes event w = Writes-message P rule (Outbox.enqueue (event (P.new_id w.ids))) w.em

  -- The outcome is counted after the last write.
  pub recorded-Changes :
      {A : Type 0} (tx : WagerTransaction) (a : A) (w : World P)
      → Changes w.em ((record_outcome tx >> pure a) w).1.em
  unfolding record_outcome
  recorded-Changes tx a w = Writes-refl P rule w.em

  pub mark_pending_reference-Changes :
      (tx : WagerTransaction) (ctx : EventContext) (w : World P)
      → Owns ids tx
      → Changes w.em (mark_pending_reference tx ctx w).1.em
  unfolding mark_pending_reference
  mark_pending_reference-Changes tx ctx w own =
      continue-Writes P rule w.em _
        (
          Transaction.mark_pending_reference
              (ctx.now + compute_reference_backoff_ms tx.reference_retry_attempts) tx,
          w,
        )
        (Writes-refl P rule w.em)
        λ marked v h.
          continue-Writes P rule v.em
            (λ _. publish (λ id. transaction_pending_reference id marked ctx) >> pure marked)
            (Repository.save marked v)
            (save-Changes marked v (Owns-props ids tx marked (pending-props _ tx marked h) own))
            λ _ u _. publish-Changes (λ id. transaction_pending_reference id marked ctx) u

  pub reject-Changes :
      (tx : WagerTransaction) (failure : FailureCode) (ctx : EventContext) (w : World P)
      → Owns ids tx
      → Changes w.em (reject tx failure ctx w).1.em
  unfolding reject
  reject-Changes tx failure ctx w own =
      continue-Writes P rule w.em _ (Transaction.reject failure ctx.now tx, w)
        (Writes-refl P rule w.em)
        λ marked v h.
          continue-Writes P rule v.em
            (λ _.
              publish (λ id. transaction_rejected id marked ctx)
              >> (record_outcome marked >> pure marked))
            (Repository.save marked v)
            (save-Changes marked v
              (Owns-props ids tx marked (rejected-props failure ctx.now tx marked h) own))
            λ _ u _.
              continue-Writes P rule u.em (λ _. record_outcome marked >> pure marked)
                (publish (λ id. transaction_rejected id marked ctx) u)
                (publish-Changes (λ id. transaction_rejected id marked ctx) u)
                λ _ t _. recorded-Changes marked marked t
