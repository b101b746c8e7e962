-- ===== src/Wagering/Finalizer/Bet.antt =====
-- src/wagering/application/wager-transaction-finalizer.ts: the outcome of a bet.
use distributed_wagering_pro.Kernel.Money.{to_json}
use distributed_wagering_pro.Wallets.Repository as Wallets
use distributed_wagering_pro.Wagering.Repository as Transactions
use distributed_wagering_pro.Wagering.Transaction.{
  WagerTransaction, is_terminal, affects_balance, ledger_direction_for, direction_alone, bet,
}
use distributed_wagering_pro.Kernel.Event.{FailureCode, EventContext, LedgerDirection}
use distributed_wagering_pro.Persistence.World.{Platform, World}
use distributed_wagering_pro.Prelude.{
  none, some, ◌≡◌, false, Text, ap, ◌∙◌, refl, if◌then◌else◌, ltb_ℤ, text_eq, true, ◌-ℤ◌, pos, ◌+◌,
  Bool-cases, inl, inr,
}
use distributed_wagering_pro.Wagering.Row.{TransactionRow}
use distributed_wagering_pro.Wagering.Finalizer.Outcome.{
  processed_at, rejected_at, move-done, reject-done,
}
use distributed_wagering_pro.Wagering.Finalizer.{
  settle, apply_effect, attempt, refuse_or_rethrow, apply_movement, classify_apply_failure,
  move_or_reject, new_movement,
}
use distributed_wagering_pro.Wallets.Wallet.{Wallet, debit, WalletMovementContext}
use distributed_wagering_pro.Wallets.Rows.{WalletRow}
use distributed_wagering_pro.Kernel.Errors.{ok, Error, throw, DomainError, domain}
use distributed_wagering_pro.Persistence.Effect.{handle, continue, pure, pair_path}
use distributed_wagering_pro.Wallets.Wallet.Laws.{IsValid, with_balance, debit_lem, moved_by}

module _ {P : Platform} (tx : WagerTransaction) (ctx : EventContext) (row : TransactionRow) where
  as_debit :
      (wallet : Wallet) (w : World P)
      → tx.kind ≡ bet
      → apply_effect tx wallet none ctx w
        ≡ move_or_reject LedgerDirection.debit tx wallet none ctx w
  unfolding apply_effect affects_balance apply_movement ledger_direction_for direction_alone
  as_debit wallet w kind = rw kind refl

  refused_for_balance :
      (m : WalletMovementContext) (wallet : Wallet) (w : World P) (id available wanted : Text)
      → tx.kind ≡ bet
      → debit wallet tx.money m ≡ throw (DomainError.insufficient_balance id available wanted)
      → P.tables.transactions.find_one (Transactions.has_id tx.id) w.em.transactions ≡ some row
      → is_terminal tx ≡ false
      → (handle
          (λ e. refuse_or_rethrow tx wallet ctx e (classify_apply_failure e tx.kind))
          (attempt LedgerDirection.debit m tx wallet none ctx w)).0
        ≡ ok (rejected_at ctx.now FailureCode.insufficient_balance tx, wallet)
  unfolding attempt refuse_or_rethrow classify_apply_failure
  refused_for_balance m wallet w id available wanted kind thrown stored open_state =
      ap
        (λ r.
          (handle (λ e. refuse_or_rethrow tx wallet ctx e (classify_apply_failure e tx.kind))
            (continue (settle tx none ctx) (r, w))).0)
        thrown
      ∙ caught
    where
      e : Error
      e = domain (DomainError.insufficient_balance id available wanted)

      classified : classify_apply_failure e tx.kind ≡ some FailureCode.insufficient_balance
      classified = rw kind refl

      caught :
          (refuse_or_rethrow tx wallet ctx e (classify_apply_failure e tx.kind) w).0
          ≡ ok (rejected_at ctx.now FailureCode.insufficient_balance tx, wallet)
      caught =
          ap (λ o. (refuse_or_rethrow tx wallet ctx e o w).0) classified
          ∙ ap (λ r. (continue (λ t. pure (t, wallet)) r).0)
              (pair_path
                (reject-done tx none ctx row FailureCode.insufficient_balance w stored open_state))

module _ (tx : WagerTransaction) (ctx : EventContext) (wallet : Wallet) where
  -- What comes of a bet: the rejected transaction and the wallet as it was, or the processed one and
  -- the wallet with the amount taken off.
  abbrev pub bet_result : WalletMovementContext → WagerTransaction × Wallet
  bet_result m =
      if ltb_ℤ wallet.balance.minor_units tx.money.minor_units
      then (rejected_at ctx.now FailureCode.insufficient_balance tx, wallet)
      else (
        processed_at none ctx.now tx,
        with_balance wallet (wallet.balance.minor_units -ℤ tx.money.minor_units) m,
      )

  -- Applying a bet that is not in a terminal state, of a positive amount in the currency of a
  -- valid wallet, where the rows of both are stored, returns: if the amount is above the balance,
  -- the transaction rejected for insufficient balance and the wallet as it was; if not, the
  -- processed transaction and the wallet with the amount taken off and its version one higher.
  pub apply_effect-bet :
      {P : Platform} (w : World P) (wallet_row : WalletRow) (row : TransactionRow)
      → IsValid wallet
      → tx.kind ≡ bet
      → is_terminal tx ≡ false
      → text_eq tx.money.currency wallet.currency ≡ true
      → ltb_ℤ (pos 0) tx.money.minor_units ≡ true
      → P.tables.wallets.find_one (Wallets.has_id wallet.id) w.em.wallets ≡ some wallet_row
      → P.tables.transactions.find_one (Transactions.has_id tx.id) w.em.transactions ≡ some row
      → (apply_effect tx wallet none ctx w).0
        ≡ ok (bet_result (new_movement tx ctx (P.new_id w.ids)))
  unfolding move_or_reject
  apply_effect-bet {P = P} w wallet_row row v kind open_state currency amount found stored =
      ap (λ r. r.0) (as_debit tx ctx row wallet w kind) ∙ by_balance
    where
      m : WalletMovementContext
      m = new_movement tx ctx (P.new_id w.ids)

      w₁ : World P
      w₁ = record w { ids = w.ids + 1 }

      by_balance : (move_or_reject LedgerDirection.debit tx wallet none ctx w).0 ≡ ok (bet_result m)
      by_balance = elim (Bool-cases (ltb_ℤ wallet.balance.minor_units tx.money.minor_units)) [
        | inl short ↦ rw short (
            refused_for_balance tx ctx row m wallet w₁ wallet.id (to_json wallet.balance).amount
              (to_json tx.money).amount kind
              (debit_lem wallet tx.money m v ∙ rw (currency, amount, short) refl) stored open_state)
        | inr enough ↦ rw enough (
            move-done tx none ctx row LedgerDirection.debit wallet
              (moved_by LedgerDirection.debit wallet
                (wallet.balance.minor_units -ℤ tx.money.minor_units) tx.money m).0
              (with_balance wallet (wallet.balance.minor_units -ℤ tx.money.minor_units) m) w
              wallet_row (debit_lem wallet tx.money m v ∙ rw (currency, amount, enough) refl) found
              stored open_state)
      ]
