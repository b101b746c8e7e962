-- ===== src/Wagering/Resolution/Reversed.antt =====
-- src/wagering/application/wager-transaction-finalizer.ts: a reference that has been reversed already.
use distributed_wagering_pro.Wagering.Resolution.Reference.{IsCandidate}
use distributed_wagering_pro.Wagering.Resolution.Resolves.{candidate-check_reversal}
use distributed_wagering_pro.Wagering.Resolution.{
  refused, resolve_reference, check_reversal, reversal_verdict,
}
use distributed_wagering_pro.Wagering.Repository.{
  is_processed_reversal, refers_to, find_one, find_processed_reversal,
}
use distributed_wagering_pro.Persistence.World.{Platform, World}
use distributed_wagering_pro.Persistence.Schema.{same_external_id, same_reversal}
use distributed_wagering_pro.Persistence.Ordering.{Distinct}
use distributed_wagering_pro.Persistence.Ordering.Keys.{Distinct-one_row}
use distributed_wagering_pro.Persistence.Balanced.{All-occurs}
use distributed_wagering_pro.Persistence.Effect.{map_found, lift}
use distributed_wagering_pro.Wagering.Transaction.{
  WagerTransaction, Kind, is_falsy, refund, rollback, processed,
}
use distributed_wagering_pro.Wagering.Row.{TransactionRow, to_wager_transaction}
use distributed_wagering_pro.Kernel.Errors.{ok}
use distributed_wagering_pro.Kernel.Event.{reference_already_reversed}
use distributed_wagering_pro.Kernel.Money.Laws.{equals_iff}
use distributed_wagering_pro.Prelude.{
  ◌≡◌, ◌⊎◌, inl, inr, false, true, arith, Option, some, none, refl, text_eq_iff, text_eq_refl, Text,
  Bool, ◌∙◌, ap, Occurs,
}

refers_to-some : (id : Text) (o : Option Text) → refers_to id o ≡ true → o ≡ some id
refers_to-some id none h = absurd (cc)
refers_to-some id (some t) h = ap some ((text_eq_iff t id).0 h)

reversal_parts :
    (id : Text) (kind : Kind) (r : TransactionRow)
    → is_processed_reversal id kind r ≡ true
    → (r.reference_transaction_id ≡ some id) × (r.kind ≡ kind) × (r.status ≡ processed)
reversal_parts id kind r h =
    (refers_to-some id r.reference_transaction_id (ground arith), ground arith, ground arith)

-- Two processed reversals of a kind that have the same reference have the same key.
same_reference :
    (id : Text) (kind : Kind) (r s : TransactionRow)
    → (kind ≡ refund) ⊎ (kind ≡ rollback)
    → is_processed_reversal id kind r ≡ true
    → is_processed_reversal id kind s ≡ true
    → same_reversal r s ≡ true
same_reference id kind r s k h h' = by_kind k
  where
    by_kind : (kind ≡ refund) ⊎ (kind ≡ rollback) → same_reversal r s ≡ true
    by_kind (inl e) =
        let (of_r, kind_r, done_r) = reversal_parts id kind r h in
        let (of_s, kind_s, done_s) = reversal_parts id kind s h' in
        rw (of_r, kind_r, done_r, of_s, kind_s, done_s, e, text_eq_refl id) refl
    by_kind (inr e) =
        let (of_r, kind_r, done_r) = reversal_parts id kind r h in
        let (of_s, kind_s, done_s) = reversal_parts id kind s h' in
        rw (of_r, kind_r, done_r, of_s, kind_s, done_s, e, text_eq_refl id) refl

-- A stored transaction of the kind of `tx` that has reversed the reference.
pub record IsReversal {P : Platform} (w : World P) (tx reference reversal : WagerTransaction)
    : Type 0 where
  pub row : TransactionRow
  pub is_stored : Occurs row (P.tables.transactions.rows w.em.transactions)
  pub is_read : to_wager_transaction row ≡ ok reversal
  pub reverses : is_processed_reversal reference.id tx.kind row ≡ true

module _ {P : Platform} (tx reference reversal : WagerTransaction) (w : World P)
    (r : IsReversal w tx reference reversal) where
  -- The index on reversals leaves no other row that the query could find.
  reversal_found :
      Distinct same_reversal (P.tables.transactions.rows w.em.transactions)
      → (tx.kind ≡ refund) ⊎ (tx.kind ≡ rollback)
      → find_processed_reversal reference.id tx.kind w ≡ (ok (some reversal), w)
  unfolding find_processed_reversal find_one
  reversal_found distinct k = by_found (P.tables.transactions.find_one test w.em.transactions) refl
    where
      test : TransactionRow → Bool
      test = is_processed_reversal reference.id tx.kind

      by_found :
          (o : Option TransactionRow)
          → P.tables.transactions.find_one test w.em.transactions ≡ o
          → lift (map_found to_wager_transaction o) w ≡ (ok (some reversal), w)
      by_found none e = absurd (
          cc (
            r.reverses,
            All-occurs (λ s. test s ≡ false) (P.tables.transactions.rows w.em.transactions)
                (P.tables.transactions.find_one-none test w.em.transactions e) r.is_stored,
          ))
      by_found (some s) e =
          let (passes, o) = P.tables.transactions.find_one-some test w.em.transactions s e in
          let one =
            Distinct-one_row same_reversal (P.tables.transactions.rows w.em.transactions) distinct o
              r.is_stored (same_reference reference.id tx.kind s r.row k passes r.reverses)
              (same_reference reference.id tx.kind r.row s k r.reverses passes) in
          rw (one, map_found, r.is_read) refl

  pub reversed-refused :
      Distinct same_external_id (P.tables.transactions.rows w.em.transactions)
      → Distinct same_reversal (P.tables.transactions.rows w.em.transactions)
      → is_falsy tx.reference_external_transaction_id ≡ false
      → IsCandidate w tx reference
      → (tx.kind ≡ refund) ⊎ (tx.kind ≡ rollback)
      → resolve_reference tx w ≡ (ok (refused reference_already_reversed), w)
  unfolding check_reversal reversal_verdict
  reversed-refused distinct once given c k =
      candidate-check_reversal tx reference w c distinct given
      ∙ rw ((equals_iff tx.money reference.money).1 c.money, reversal_found once k) refl
