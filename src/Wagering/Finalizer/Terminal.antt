-- ===== src/Wagering/Finalizer/Terminal.antt =====
-- src/wagering/application/wager-transaction-finalizer.ts: what is applied or rejected is terminal.
use distributed_wagering_pro.Wagering.Finalizer.{
  reject, apply_loss, settle, refuse_or_rethrow, attempt, move_or_reject, apply_effect,
  apply_movement, move, new_movement, classify_apply_failure, publish, record_outcome, reference_id,
}
use distributed_wagering_pro.Persistence.Effect.{handle, continue, ◌>>◌, new_id, pure, lift, ◌>>=◌}
use distributed_wagering_pro.Wagering.Repository
use distributed_wagering_pro.Wagering.Transaction
use distributed_wagering_pro.Wagering.Transaction.{
  WagerTransaction, is_terminal, affects_balance, ledger_direction_for,
}
use distributed_wagering_pro.Wallets.Repository as Wallets
use distributed_wagering_pro.Prelude.{
  ◌≡◌, Option, true, Text, arith, Bool, some, if◌then◌else◌, refl, none, false,
}
use distributed_wagering_pro.Wallets.Wallet.{Wallet, WalletMovementContext}
use distributed_wagering_pro.Kernel.Event.{FailureCode, Timestamp, EventContext, LedgerDirection}
use distributed_wagering_pro.Persistence.World.{Platform, App, World}
use distributed_wagering_pro.Kernel.Errors.{Result, Error, ok, err}
use distributed_wagering_pro.Wallets.LedgerEntry.{WalletLedgerEntry}
use distributed_wagering_pro.Wallets.Events.{wallet_balance_changed}
use distributed_wagering_pro.Wagering.Events.{transaction_rejected, transaction_processed}

abbrev pub Terminal : WagerTransaction → Type 0
Terminal tx = is_terminal tx ≡ true

abbrev pub FirstTerminal : WagerTransaction × Wallet → Type 0
FirstTerminal settled = Terminal settled.0

reject-Terminal :
    (tx : WagerTransaction) (failure : FailureCode) (at : Timestamp) {marked : WagerTransaction}
    → Transaction.reject failure at tx ≡ ok marked
    → Terminal marked
unfolding Transaction.reject is_terminal
reject-Terminal tx failure at h = ground arith

processed-Terminal :
    (tx : WagerTransaction) (reference : Option Text) (at : Timestamp) {marked : WagerTransaction}
    → Transaction.mark_processed reference at tx ≡ ok marked
    → Terminal marked
unfolding Transaction.mark_processed is_terminal
processed-Terminal tx reference at h = ground arith

module _ {P : Platform} where
  -- What is returned, if anything is, has the property.
  abbrev pub Returns : {A : Type 0} → (A → Type 0) → Result A × World P → Type 0
  Returns Q (ok a, w) = Q a
  Returns Q (err e, w) = Unit

  pub bind-Returns :
      {A B : Type 0} (Q : B → Type 0) (f : A → App P B) (r : Result A × World P)
      → ((a : A) (v : World P) → r.0 ≡ ok a → Returns Q (f a v))
      → Returns Q (continue f r)
  bind-Returns Q f (ok a, v) k = k a v refl
  bind-Returns Q f (err e, v) k = tt

  pub bind-keeps :
      {A B : Type 0} (R : A → Type 0) (Q : B → Type 0) (f : A → App P B) (r : Result A × World P)
      → Returns R r
      → ((a : A) (v : World P) → R a → Returns Q (f a v))
      → Returns Q (continue f r)
  bind-keeps R Q f (ok a, v) h k = k a v h
  bind-keeps R Q f (err e, v) h k = tt

  handle-Returns :
      {A : Type 0} (Q : A → Type 0) (handler : Error → App P A) (r : Result A × World P)
      → Returns Q r
      → ((e : Error) (v : World P) → Returns Q (handler e v))
      → Returns Q (handle handler r)
  handle-Returns Q handler (ok a, v) q k = q
  handle-Returns Q handler (err e, v) q k = k e v

  pub reject-Returns :
      (tx : WagerTransaction) (failure : FailureCode) (ctx : EventContext) (w : World P)
      → Returns Terminal (reject tx failure ctx w)
  unfolding reject
  reject-Returns tx failure ctx w =
      bind-Returns Terminal _ (Transaction.reject failure ctx.now tx, w)
        λ marked v rejected. bind-Returns Terminal _ (Repository.save marked v) λ _ u _.
          bind-Returns Terminal (λ _. record_outcome marked >> pure marked)
            (publish (λ id. transaction_rejected id marked ctx) u)
            λ _ t _.
              bind-Returns Terminal (λ _. pure marked) (record_outcome marked t)
                λ _ _ _. reject-Terminal tx failure ctx.now rejected

  apply_loss-Returns :
      (tx : WagerTransaction) (wallet : Wallet) (reference : Option WagerTransaction)
      (ctx : EventContext) (w : World P)
      → Returns FirstTerminal (apply_loss tx wallet reference ctx w)
  unfolding apply_loss
  apply_loss-Returns tx wallet reference ctx w =
      bind-Returns FirstTerminal _
        (Transaction.mark_processed (reference_id reference) ctx.now tx, w)
        λ marked v done. bind-Returns FirstTerminal _ (Repository.save marked v) λ _ u _.
          bind-Returns FirstTerminal (λ _. record_outcome marked >> pure (marked, wallet))
            (publish (λ id. transaction_processed id marked wallet.balance ctx) u)
            λ _ t _.
              bind-Returns FirstTerminal (λ _. pure (marked, wallet)) (record_outcome marked t)
                λ _ _ _. processed-Terminal tx (reference_id reference) ctx.now done

  settle-Returns :
      (tx : WagerTransaction) (reference : Option WagerTransaction) (ctx : EventContext)
      (moved : WalletLedgerEntry × Wallet) (w : World P)
      → Returns FirstTerminal (settle tx reference ctx moved w)
  unfolding settle
  settle-Returns tx reference ctx (entry, wallet) w =
      bind-Returns FirstTerminal (λ _. Wallets.save wallet >> mark) (Wallets.insert_entry entry w)
        λ _ w₁ _.
          bind-Returns FirstTerminal (λ _. mark) (Wallets.save wallet w₁)
            λ _ w₂ _.
              bind-Returns FirstTerminal (λ marked. Repository.save marked >> announce marked)
                (Transaction.mark_processed (reference_id reference) ctx.now tx, w₂)
                λ marked w₃ done.
                  bind-Returns FirstTerminal (λ _. announce marked) (Repository.save marked w₃)
                    λ _ w₄ _.
                      bind-Returns FirstTerminal (λ _. changed marked)
                        (publish (λ id. transaction_processed id marked wallet.balance ctx) w₄)
                        λ _ w₅ _.
                          bind-Returns FirstTerminal (λ _. finish marked)
                            (publish (λ id. wallet_balance_changed id wallet entry ctx) w₅)
                            λ _ w₆ _.
                              bind-Returns FirstTerminal (λ _. pure (marked, wallet))
                                (record_outcome marked w₆)
                                λ _ _ _. processed-Terminal tx (reference_id reference) ctx.now done
    where
      finish : WagerTransaction → App P (WagerTransaction × Wallet)
      finish marked = record_outcome marked >> pure (marked, wallet)

      changed : WagerTransaction → App P (WagerTransaction × Wallet)
      changed marked = publish (λ id. wallet_balance_changed id wallet entry ctx) >> finish marked

      announce : WagerTransaction → App P (WagerTransaction × Wallet)
      announce marked =
          publish (λ id. transaction_processed id marked wallet.balance ctx) >> changed marked

      mark : App P (WagerTransaction × Wallet)
      mark = lift (Transaction.mark_processed (reference_id reference) ctx.now tx) >>= λ marked.
          Repository.save marked >> announce marked

  refuse_or_rethrow-Returns :
      (tx : WagerTransaction) (wallet : Wallet) (ctx : EventContext) (e : Error)
      (failure : Option FailureCode) (w : World P)
      → Returns FirstTerminal (refuse_or_rethrow tx wallet ctx e failure w)
  unfolding refuse_or_rethrow
  refuse_or_rethrow-Returns tx wallet ctx e none w = tt
  refuse_or_rethrow-Returns tx wallet ctx e (some failure) w =
      bind-keeps Terminal FirstTerminal (λ marked. pure (marked, wallet)) (reject tx failure ctx w)
        (reject-Returns tx failure ctx w) λ marked v done. done

  attempt-Returns :
      (direction : LedgerDirection) (movement : WalletMovementContext) (tx : WagerTransaction)
      (wallet : Wallet) (reference : Option WagerTransaction) (ctx : EventContext) (w : World P)
      → Returns FirstTerminal (attempt direction movement tx wallet reference ctx w)
  unfolding attempt
  attempt-Returns direction movement tx wallet reference ctx w =
      bind-Returns FirstTerminal (settle tx reference ctx)
        (move direction wallet tx.money movement, w)
        λ moved v _. settle-Returns tx reference ctx moved v

  move_or_reject-Returns :
      (direction : LedgerDirection) (tx : WagerTransaction) (wallet : Wallet)
      (reference : Option WagerTransaction) (ctx : EventContext) (w : World P)
      → Returns FirstTerminal (move_or_reject direction tx wallet reference ctx w)
  unfolding move_or_reject
  move_or_reject-Returns direction tx wallet reference ctx w =
      bind-Returns FirstTerminal _ (new_id w) λ entry_id v _.
        handle-Returns FirstTerminal
          (λ e. refuse_or_rethrow tx wallet ctx e (classify_apply_failure e tx.kind))
          (attempt direction (new_movement tx ctx entry_id) tx wallet reference ctx v)
          (attempt-Returns direction (new_movement tx ctx entry_id) tx wallet reference ctx v)
          (λ e u. refuse_or_rethrow-Returns tx wallet ctx e (classify_apply_failure e tx.kind) u)

  pub apply_effect-Returns :
      (tx : WagerTransaction) (wallet : Wallet) (reference : Option WagerTransaction)
      (ctx : EventContext) (w : World P)
      → Returns FirstTerminal (apply_effect tx wallet reference ctx w)
  unfolding apply_effect apply_movement
  apply_effect-Returns tx wallet reference ctx w = by_kind (affects_balance tx)
    where
      by_kind :
          (b : Bool)
          → Returns FirstTerminal (
              (if b
                  then apply_movement tx wallet reference ctx
                  else apply_loss tx wallet reference ctx)
                w)
      by_kind true =
          bind-Returns FirstTerminal _ (ledger_direction_for tx reference, w)
            λ direction v _. move_or_reject-Returns direction tx wallet reference ctx v
      by_kind false = apply_loss-Returns tx wallet reference ctx w
