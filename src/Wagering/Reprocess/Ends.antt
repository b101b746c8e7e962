-- ===== src/Wagering/Reprocess/Ends.antt =====
-- src/wagering/application/use-cases/reprocess-pending-references.use-case.ts: a transaction is not
-- taken up for ever.
use distributed_wagering_pro.Wagering.Finalizer
use distributed_wagering_pro.Wagering.Resolution
use distributed_wagering_pro.Wagering.Resolution.{
  ReferenceResolution, resolved, unresolved, refused,
}
use distributed_wagering_pro.Wagering.Finalizer.Terminal.{
  Terminal, FirstTerminal, Returns, bind-Returns, bind-keeps, reject-Returns, apply_effect-Returns,
}
use distributed_wagering_pro.Wagering.Reprocess.{
  process_one, act_on, retry_or_time_out, apply_resolved, retry_context,
}
use distributed_wagering_pro.Wagering.Repository
use distributed_wagering_pro.Wagering.Transaction
use distributed_wagering_pro.Wagering.Transaction.{WagerTransaction, is_terminal, CreateProps}
use distributed_wagering_pro.Wallets.Repository as Wallets
use distributed_wagering_pro.Prelude.{
  ◌⊎◌, ◌≡◌, ◌+◌, Option, ◌≤◌, leb, Bool-cases, inl, subst, some, false, none, arith, inr, ℕ, suc,
}
use distributed_wagering_pro.Persistence.World.{Platform, World}
use distributed_wagering_pro.Kernel.Event.{EventContext, Timestamp, reference_resolution_timeout}
use distributed_wagering_pro.Wallets.Wallet.{Wallet}
use distributed_wagering_pro.Kernel.Errors.{Result, ok, err}
use distributed_wagering_pro.Wagering.Backoff.{
  max_reference_retry_attempts, compute_reference_backoff_ms,
}
use distributed_wagering_pro.Persistence.Effect.{pure}
use distributed_wagering_pro.Wagering.Events.{transaction_pending_reference}

-- The transaction is in a terminal state, or was put off once more, for the tenth time at most.
abbrev pub Ends : WagerTransaction → WagerTransaction → Type 0
Ends tx tx' =
    Terminal tx'
    ⊎ ((tx'.reference_retry_attempts ≡ tx.reference_retry_attempts + 1)
        × (tx'.reference_retry_attempts ≤ 10))

module _ {P : Platform} (tx : WagerTransaction) where
  -- Parking counts one attempt.
  mark_pending_reference-Returns :
      (ctx : EventContext) (w : World P)
      → Returns
          (λ marked. marked.reference_retry_attempts ≡ tx.reference_retry_attempts + 1)
          (Finalizer.mark_pending_reference tx ctx w)
  unfolding Finalizer.mark_pending_reference Transaction.mark_pending_reference
  mark_pending_reference-Returns ctx w =
      bind-Returns Counted _
        (
          Transaction.mark_pending_reference
              (ctx.now + compute_reference_backoff_ms tx.reference_retry_attempts) tx,
          w,
        )
        λ marked v h. bind-Returns Counted _ (Repository.save marked v) λ _ u _.
          bind-Returns Counted (λ _. pure marked)
            (Finalizer.publish (λ id. transaction_pending_reference id marked ctx) u)
            λ _ _ _. put_off (ctx.now + compute_reference_backoff_ms tx.reference_retry_attempts) h
    where
      Counted : WagerTransaction → Type 0
      Counted marked = marked.reference_retry_attempts ≡ tx.reference_retry_attempts + 1

      put_off :
          (t : Timestamp) {marked : WagerTransaction}
          → Transaction.mark_pending_reference t tx ≡ ok marked
          → Counted marked
      put_off t h = ground arith

  retry_or_time_out-Returns :
      (ctx : EventContext) (w : World P) → Returns (Ends tx) (retry_or_time_out tx ctx w)
  unfolding retry_or_time_out
  retry_or_time_out-Returns ctx w =
      elim (Bool-cases (leb max_reference_retry_attempts tx.reference_retry_attempts)) [
        | inl e ↦ rw e (
            bind-keeps Terminal (Ends tx) _ (Finalizer.reject tx reference_resolution_timeout ctx w)
              (reject-Returns tx reference_resolution_timeout ctx w) λ marked v done. inl done)
        | inr e ↦ rw e (
            bind-keeps (λ marked. marked.reference_retry_attempts ≡ tx.reference_retry_attempts + 1)
              (Ends tx) _ (Finalizer.mark_pending_reference tx ctx w)
              (mark_pending_reference-Returns ctx w)
              λ marked v counted. inr (counted, ground arith))
      ]

  apply_resolved-Returns :
      (reference : WagerTransaction) (ctx : EventContext) (wallet : Option Wallet) (w : World P)
      → Returns (Ends tx) (apply_resolved tx reference ctx wallet w)
  unfolding apply_resolved
  apply_resolved-Returns reference ctx none w = tt
  apply_resolved-Returns reference ctx (some wallet) w =
      bind-keeps FirstTerminal (Ends tx) _ (Finalizer.apply_effect tx wallet (some reference) ctx w)
        (apply_effect-Returns tx wallet (some reference) ctx w) λ settled v done. inl done

  act_on-Returns :
      (resolution : ReferenceResolution) (ctx : EventContext) (w : World P)
      → Returns (Ends tx) (act_on resolution tx ctx w)
  unfolding act_on
  act_on-Returns (resolved reference) ctx w =
      bind-Returns (Ends tx) _ (Wallets.find_by_id tx.wallet_id w)
        λ wallet v _. apply_resolved-Returns reference ctx wallet v
  act_on-Returns (refused failure) ctx w =
      weaken (Finalizer.reject tx failure ctx w) (reject-Returns tx failure ctx w)
    where
      weaken : (r : Result WagerTransaction × World P) → Returns Terminal r → Returns (Ends tx) r
      weaken (ok marked, v) done = inl done
      weaken (err e, v) done = tt
  act_on-Returns unresolved ctx w = retry_or_time_out-Returns ctx w

  process_one-Returns : (now : Timestamp) (w : World P) → Returns (Ends tx) (process_one tx now w)
  unfolding process_one
  process_one-Returns now w = bind-Returns (Ends tx) _ (retry_context now w) λ ctx v _.
      bind-Returns (Ends tx) _ (Resolution.resolve_reference tx v)
        λ resolution u _. act_on-Returns resolution ctx u

  pub process_one-Ends :
      (now : Timestamp) (w : World P) {tx' : WagerTransaction} {w' : World P}
      → process_one tx now w ≡ (ok tx', w')
      → Ends tx tx'
  process_one-Ends now w h = subst (Returns (Ends tx)) h (process_one-Returns now w)

-- The attempts on a transaction, each on what the one before left, at any time and in any state.
pub data Attempts (P : Platform) (tx : WagerTransaction) : ℕ → WagerTransaction → Type 0 where
  none_yet : Attempts P tx 0 tx
  one_more :
      {n : ℕ} {t u : WagerTransaction} (w w' : World P)
      → Attempts P tx n t
      → is_terminal t ≡ false
      → (now : Timestamp) → process_one t now w ≡ (ok u, w')
      → Attempts P tx (suc n) u

Attempts-Ends :
    {P : Platform} {tx u : WagerTransaction} {n : ℕ}
    → tx.reference_retry_attempts ≤ 10
    → Attempts P tx n u
    → (Terminal u × (n + tx.reference_retry_attempts ≤ 11))
      ⊎ ((n + tx.reference_retry_attempts ≡ u.reference_retry_attempts)
          × (u.reference_retry_attempts ≤ 10))
Attempts-Ends few none_yet = inr (omega arith, few)
Attempts-Ends {tx = tx} few (one_more {n = n} {t = t} {u = u} w w' h open_yet now run) =
    elim (Attempts-Ends few h) [
      | inl ended ↦ absurd (cc (open_yet, ended.0))
      | inr going ↦ elim (process_one-Ends t now w run) [
        | inl ended ↦ inl (ended, omega (arith, going.0, going.1))
        | inr again ↦ inr (omega (arith, going.0, again.0), again.1)
      ]
    ]

-- What a first park of a created transaction counts.
parked_once :
    {P : Platform} (props : CreateProps) {created tx : WagerTransaction} (ctx : EventContext)
    (w w' : World P)
    → Transaction.create props ≡ ok created
    → Finalizer.mark_pending_reference created ctx w ≡ (ok tx, w')
    → tx.reference_retry_attempts ≡ 1
unfolding Transaction.create
parked_once {P} props {created} {tx} ctx w w' made parked = omega (
  arith,
  created_attempts,
  subst (Returns {P = P} (λ t. t.reference_retry_attempts ≡ created.reference_retry_attempts + 1))
      parked (mark_pending_reference-Returns created ctx w),
)
  where
    created_attempts : created.reference_retry_attempts ≡ 0
    created_attempts = ground arith

-- A transaction that was created, and parked because its reference was missing, is taken up at
-- most 10 times: where each attempt is made on what the one before left, at any time and in any
-- state of the database, none throws and none begins on a transaction in a terminal state, there
-- are at most 10 attempts.
pub retries_end :
    {P : Platform} (props : CreateProps) {created tx u : WagerTransaction} {n : ℕ}
    (ctx : EventContext) (w w' : World P)
    → Transaction.create props ≡ ok created
    → Finalizer.mark_pending_reference created ctx w ≡ (ok tx, w')
    → Attempts P tx n u
    → n ≤ 10
retries_end props ctx w w' made parked h =
    let once = parked_once props ctx w w' made parked in
    elim (Attempts-Ends (omega (arith, once)) h) [
      | inl ended ↦ omega (arith, once, ended.1)
      | inr going ↦ omega (arith, once, going.0, going.1)
    ]
