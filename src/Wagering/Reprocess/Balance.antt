-- ===== src/Wagering/Reprocess/Balance.antt =====
-- src/wagering/application/use-cases/reprocess-pending-references.use-case.ts: retries and the
-- stored balances.
use distributed_wagering_pro.Wallets.Repository.{find_by_id}
use distributed_wagering_pro.Wagering.Finalizer.{apply_effect}
use distributed_wagering_pro.Wagering.Resolution.{
  resolved, ReferenceResolution, resolve_reference, refused, unresolved,
}
use distributed_wagering_pro.Persistence.World.{Platform, World}
use distributed_wagering_pro.Wagering.Reprocess.{
  apply_resolved, retry_or_time_out, act_on, process_one, process_batch, run, retry_context,
  run_body,
}
use distributed_wagering_pro.Wagering.Transaction.{WagerTransaction}
use distributed_wagering_pro.Prelude.{
  List, ℕ, Option, ◌≡◌, arith, some, subst, ◌∙◌, ap, ◌∷◌, none, [], refl,
}
use distributed_wagering_pro.Kernel.Event.{EventContext, Timestamp, reference_resolution_timeout}
use distributed_wagering_pro.Wallets.Wallet.{Wallet}
use distributed_wagering_pro.Persistence.Balanced.{
  SameMoney, IsBalanced, transactional-IsBalanced, Agrees, SameMoney-IsBalanced, SameMoney-trans,
}
use distributed_wagering_pro.Wagering.Finalizer.Untouched.{
  reject-SameMoney, mark_pending_reference-SameMoney, resolve_reference-SameMoney,
}
use distributed_wagering_pro.Kernel.Errors.{ok}
use distributed_wagering_pro.Persistence.Effect.{continue-ok, pair_path, ◌>>=◌}
use distributed_wagering_pro.Wallets.Repository.Reads.{find_by_id-Agrees}
use distributed_wagering_pro.Wagering.Repository.{find_due_pending_reference_batch}
use distributed_wagering_pro.Wagering.Finalizer.Balance.{apply_effect-IsBalanced}

module _ {P : Platform} where
  apply_resolved-IsBalanced :
      (tx reference : WagerTransaction) (ctx : EventContext) (found : Option Wallet)
      (w w' : World P) (r : WagerTransaction)
      → IsBalanced P w
      → ((wallet : Wallet) → found ≡ some wallet → Agrees w wallet)
      → apply_resolved tx reference ctx found w ≡ (ok r, w')
      → IsBalanced P w'
  unfolding apply_resolved
  apply_resolved-IsBalanced tx reference ctx none w w' r b a h = absurd (ground arith)
  apply_resolved-IsBalanced tx reference ctx (some wallet) w w' r b a h =
      let (s, done, h') = continue-ok _ (apply_effect tx wallet (some reference) ctx w) h in
      apply_effect-IsBalanced tx wallet (some reference) ctx w w' s b (a wallet refl)
        (pair_path done ∙ ap (λ p. (ok s, p.1)) h')

  retry_or_time_out-SameMoney :
      (tx : WagerTransaction) (ctx : EventContext) (w : World P)
      → SameMoney w (retry_or_time_out tx ctx w).1
  unfolding retry_or_time_out
  retry_or_time_out-SameMoney tx ctx w = ground (
    arith,
    reject-SameMoney tx w reference_resolution_timeout ctx,
    mark_pending_reference-SameMoney tx w ctx,
  )

  act_on-IsBalanced :
      (o : ReferenceResolution) (tx : WagerTransaction) (ctx : EventContext) (w w' : World P)
      (r : WagerTransaction)
      → IsBalanced P w
      → act_on o tx ctx w ≡ (ok r, w')
      → IsBalanced P w'
  unfolding act_on
  act_on-IsBalanced (resolved reference) tx ctx w w' r b h =
      let (found, read, h') = continue-ok _ (find_by_id tx.wallet_id w) h in
      apply_resolved-IsBalanced tx reference ctx found w w' r b
        (λ wallet e. (find_by_id-Agrees tx.wallet_id w wallet b (read ∙ ap ok e)).0) h'
  act_on-IsBalanced (refused c) tx ctx w w' r b h =
      SameMoney-IsBalanced w w'
        (subst (SameMoney w) (ap (λ p. p.1) h) (reject-SameMoney tx w c ctx)) b
  act_on-IsBalanced unresolved tx ctx w w' r b h =
      SameMoney-IsBalanced w w'
        (subst (SameMoney w) (ap (λ p. p.1) h) (retry_or_time_out-SameMoney tx ctx w)) b

  retry_context-SameMoney : (now : Timestamp) (w : World P) → SameMoney w (retry_context now w).1
  unfolding retry_context
  retry_context-SameMoney now w = (refl, refl)

  pub process_one-IsBalanced :
      (tx : WagerTransaction) (now : Timestamp) (w w' : World P) (r : WagerTransaction)
      → IsBalanced P w
      → process_one tx now w ≡ (ok r, w')
      → IsBalanced P w'
  unfolding process_one
  process_one-IsBalanced tx now w w' r b h =
      let w₁ = (retry_context now w).1 in
      let w₂ = (resolve_reference tx w₁).1 in
      let (ctx, _, h₁) =
        continue-ok (λ ctx. resolve_reference tx >>= λ o. act_on o tx ctx) (retry_context now w)
          h in
      let (o, _, h₂) = continue-ok (λ o. act_on o tx ctx) (resolve_reference tx w₁) h₁ in
      act_on-IsBalanced o tx ctx w₂ w' r
        (SameMoney-IsBalanced w w₂
          (SameMoney-trans w w₁ w₂ (retry_context-SameMoney now w)
            (resolve_reference-SameMoney tx w₁))
          b)
        h₂

  process_batch-IsBalanced :
      (batch : List WagerTransaction) (now : Timestamp) (w w' : World P)
      → IsBalanced P w
      → process_batch batch now w ≡ (ok tt, w')
      → IsBalanced P w'
  unfolding process_batch
  process_batch-IsBalanced [] now w w' b h = subst (IsBalanced P) (ap (λ p. p.1) h) b
  process_batch-IsBalanced (tx ∷ batch) now w w' b h =
      let (r, done, h') = continue-ok _ (process_one tx now w) h in
      let w₁ = (process_one tx now w).1 in
      process_batch-IsBalanced batch now w₁ w'
        (process_one-IsBalanced tx now w w₁ r b (pair_path done)) h'

  run_body-IsBalanced :
      (batch_size : ℕ) (now : Timestamp) (w w' : World P) (n : ℕ)
      → IsBalanced P w
      → run_body batch_size now w ≡ (ok n, w')
      → IsBalanced P w'
  unfolding run_body
  run_body-IsBalanced batch_size now w w' n b h =
      let (batch, _, h₁) = continue-ok _ (find_due_pending_reference_batch now batch_size w) h in
      let (_, done, h₂) = continue-ok _ (process_batch batch now w) h₁ in
      process_batch-IsBalanced batch now w w' b (pair_path done ∙ ap (λ p. (ok tt, p.1)) h₂)

  -- A run over the transactions whose reference was missing, in a state where every stored balance
  -- is the signed sum of its wallet's ledger rows and not negative, leaves such a state, whatever
  -- it returns or throws.
  pub run-IsBalanced :
      (batch_size : ℕ) (now : Timestamp) (w : World P)
      → IsBalanced P w
      → IsBalanced P (run batch_size now w).1
  unfolding run
  run-IsBalanced batch_size now w b =
      transactional-IsBalanced (run_body batch_size now) w b
        (λ n w' h. run_body-IsBalanced batch_size now w w' n b h)
