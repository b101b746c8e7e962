-- ===== src/Wagering/Reprocess.antt =====
-- src/wagering/application/use-cases/reprocess-pending-references.use-case.ts: the retries of the
-- transactions whose reference was not there. The clock is an argument.
pub mod Balance
pub mod Writes
pub mod Sound
pub mod Ends
use distributed_wagering_pro.Wagering.Finalizer
use distributed_wagering_pro.Wagering.Resolution
use distributed_wagering_pro.Wagering.Resolution.{
  ReferenceResolution, resolved, unresolved, refused,
}
use distributed_wagering_pro.Wagering.Repository
use distributed_wagering_pro.Wallets.Repository as Wallets
use distributed_wagering_pro.Persistence.World.{Platform, App}
use distributed_wagering_pro.Wagering.Transaction.{WagerTransaction}
use distributed_wagering_pro.Prelude.{
  List, ℕ, Option, if◌then◌else◌, leb, ◌∷◌, length, none, [], some, codes,
}
use distributed_wagering_pro.Kernel.Event.{EventContext, Timestamp, reference_resolution_timeout}
use distributed_wagering_pro.Wallets.Wallet.{Wallet}
use distributed_wagering_pro.Persistence.Effect.{
  pure, transactional, ◌>>◌, ◌>>=◌, throws, new_id, increment_counter,
}
use distributed_wagering_pro.Kernel.Errors.{domain, wallet_not_found}
use distributed_wagering_pro.Wagering.Backoff.{max_reference_retry_attempts}

module _ {P : Platform} where
  unfoldable pub apply_resolved :
      WagerTransaction → WagerTransaction → EventContext → Option Wallet → App P WagerTransaction
  unfolding Finalizer.apply_effect
  apply_resolved tx reference ctx none = throws (domain (wallet_not_found tx.wallet_id))
  apply_resolved tx reference ctx (some wallet) = do
    settled ← Finalizer.apply_effect tx wallet (some reference) ctx
    pure settled.0

  unfoldable pub retry_or_time_out : WagerTransaction → EventContext → App P WagerTransaction
  unfolding Finalizer.reject Finalizer.mark_pending_reference
  retry_or_time_out tx ctx =
      if leb max_reference_retry_attempts tx.reference_retry_attempts
      then (do
        marked ← Finalizer.reject tx reference_resolution_timeout ctx
        increment_counter (codes "pending_reference_retries_total") (codes "timeout" ∷ [])
        pure marked)
      else do
        marked ← Finalizer.mark_pending_reference tx ctx
        increment_counter (codes "pending_reference_retries_total") (codes "rescheduled" ∷ [])
        pure marked

  unfoldable pub act_on :
      ReferenceResolution → WagerTransaction → EventContext → App P WagerTransaction
  unfolding Wallets.find_by_id apply_resolved Finalizer.reject retry_or_time_out
  act_on (resolved reference) tx ctx = do
    wallet ← Wallets.find_by_id tx.wallet_id
    apply_resolved tx reference ctx wallet
  act_on (refused failure) tx ctx = Finalizer.reject tx failure ctx
  act_on unresolved tx ctx = retry_or_time_out tx ctx

  unfoldable pub retry_context : Timestamp → App P EventContext
  retry_context now = do
    correlation_id ← new_id
    pure (record { correlation_id = correlation_id; causation_id = none; now = now })

  -- The transaction comes back as the call leaves it.
  unfoldable pub process_one : WagerTransaction → Timestamp → App P WagerTransaction
  unfolding retry_context Resolution.resolve_reference act_on
  process_one tx now = do
    ctx ← retry_context now
    resolution ← Resolution.resolve_reference tx
    act_on resolution tx ctx

  unfoldable pub process_batch : List WagerTransaction → Timestamp → App P (Unit {0})
  unfolding process_one
  process_batch [] now = pure tt
  process_batch (tx ∷ batch) now = process_one tx now >>= λ _. process_batch batch now

  unfoldable pub run_body : ℕ → Timestamp → App P ℕ
  unfolding Repository.find_due_pending_reference_batch process_batch
  run_body batch_size now = do
    batch ← Repository.find_due_pending_reference_batch now batch_size
    process_batch batch now
    pure (length batch)

  unfoldable pub run : ℕ → Timestamp → App P ℕ
  unfolding run_body
  run batch_size now = transactional (run_body batch_size now)
