-- ===== src/Wagering/Finalizer/Undone.antt =====
-- src/wagering/domain/wager-transaction.ts and wager-transaction-finalizer.ts: a reversal takes back
-- what its reference did to the balance.
use distributed_wagering_pro.Wagering.Finalizer.{move}
use distributed_wagering_pro.Wagering.Transaction.{
  WagerTransaction, ledger_direction_for, direction_alone, opposite, bet, refund, rollback,
}
use distributed_wagering_pro.Wallets.Wallet.{Wallet, WalletMovementContext, debit, credit}
use distributed_wagering_pro.Wallets.Wallet.Laws.{
  IsValid, with_balance, debit_lem, credit_lem, moved_by,
}
use distributed_wagering_pro.Wallets.Wallet.History.{Step-facts, debited, credited}
use distributed_wagering_pro.Wallets.LedgerEntry.{WalletLedgerEntry}
use distributed_wagering_pro.Kernel.Money.{Money}
use distributed_wagering_pro.Kernel.Event.{LedgerDirection}
use distributed_wagering_pro.Kernel.Errors.{ok}
use distributed_wagering_pro.Prelude.{
  ◌≡◌, ◌⊎◌, inl, inr, true, false, text_eq, ltb_ℤ, pos, ◌+ℤ◌, ◌-ℤ◌, refl, ◌∙◌, sym, subst, arith,
  none, some, ℤ, int_laws, +ℤ_parts,
}

module _ (w w' : Wallet) (e : WalletLedgerEntry) (money : Money) (ctx : WalletMovementContext)
    (v : IsValid w) where
  debit-facts :
      debit w money ctx ≡ ok (e, w')
      → (text_eq money.currency w.currency ≡ true)
        × (ltb_ℤ (pos 0) money.minor_units ≡ true)
        × (w' ≡ with_balance w (w.balance.minor_units -ℤ money.minor_units) ctx)
  debit-facts h = ground (arith, sym (debit_lem w money ctx v) ∙ h)

  credit-facts :
      credit w money ctx ≡ ok (e, w')
      → (text_eq money.currency w.currency ≡ true)
        × (ltb_ℤ (pos 0) money.minor_units ≡ true)
        × (w' ≡ with_balance w (w.balance.minor_units +ℤ money.minor_units) ctx)
  credit-facts h = ground (arith, sym (credit_lem w money ctx v) ∙ h)

-- The movement goes through and leaves the balance that was there before.
pub record Restores (before after : Wallet) (direction : LedgerDirection) (money : Money)
    (ctx : WalletMovementContext) : Type 0 where
  pub entry : WalletLedgerEntry
  pub wallet : Wallet
  pub succeeds : move direction after money ctx ≡ ok (entry, wallet)
  pub balance : wallet.balance ≡ before.balance

module _ (w : Wallet) (money : Money) (ctx : WalletMovementContext) (ctx' : WalletMovementContext)
    (v : IsValid w) where
  same_balance :
      (x : ℤ)
      → x ≡ w.balance.minor_units
      → ◌≡◌ {A = Money} (record { minor_units = x; currency = w.currency }) w.balance
  same_balance x h = rw (h, ← v.one_currency) refl

  enough : ltb_ℤ (w.balance.minor_units +ℤ money.minor_units) money.minor_units ≡ false
  enough = let nonneg = v.nonneg in ground (arith, +ℤ_parts w.balance.minor_units money.minor_units)

  undo :
      (d : LedgerDirection) (e : WalletLedgerEntry) (w' : Wallet)
      → move d w money ctx ≡ ok (e, w')
      → Restores w w' (opposite d) money ctx'
  undo LedgerDirection.debit e w' h =
      let (currency, amount, is_after) = debit-facts w w' e money ctx v h in
      let after = with_balance w (w.balance.minor_units -ℤ money.minor_units) ctx in
      let valid = subst IsValid is_after (Step-facts v (debited money ctx h)).valid in
      let total = after.balance.minor_units +ℤ money.minor_units in
      subst (λ x. Restores w x LedgerDirection.credit money ctx') (sym is_after)
        (record {
          entry = (moved_by LedgerDirection.credit after total money ctx').0;
          wallet = with_balance after total ctx';
          succeeds = credit_lem after money ctx' valid ∙ rw (currency, amount) refl;
          balance = same_balance total (omega int_laws);
        })
  undo LedgerDirection.credit e w' h =
      let (currency, amount, is_after) = credit-facts w w' e money ctx v h in
      let after = with_balance w (w.balance.minor_units +ℤ money.minor_units) ctx in
      let valid = subst IsValid is_after (Step-facts v (credited money ctx h)).valid in
      let total = after.balance.minor_units -ℤ money.minor_units in
      subst (λ x. Restores w x LedgerDirection.debit money ctx') (sym is_after)
        (record {
          entry = (moved_by LedgerDirection.debit after total money ctx').0;
          wallet = with_balance after total ctx';
          succeeds = debit_lem after money ctx' valid ∙ rw (currency, amount, enough) refl;
          balance = same_balance total (omega int_laws);
        })

-- A rollback, and a refund of a bet.
abbrev pub TakesBack : WagerTransaction → WagerTransaction → Type 0
TakesBack tx reference = (tx.kind ≡ rollback) ⊎ ((tx.kind ≡ refund) × (reference.kind ≡ bet))

undoing_direction :
    (tx reference : WagerTransaction) (d : LedgerDirection)
    → TakesBack tx reference
    → ledger_direction_for reference none ≡ ok d
    → ledger_direction_for tx (some reference) ≡ ok (opposite d)
unfolding ledger_direction_for direction_alone
undoing_direction tx reference d (inl kind) h = rw (kind, h) refl
undoing_direction tx reference d (inr (kind, of_bet)) h = ground arith

-- A rollback, and a refund of a bet, undoes what its reference did to a wallet: where the movement
-- of the reference, in its own direction, has gone through on a valid wallet, the movement of the
-- transaction over the same money, in the direction that it has with that reference, goes through
-- on the wallet that came of it, and leaves the balance that was there before.
pub reversal_undoes :
    (tx reference : WagerTransaction) (before after : Wallet) (direction : LedgerDirection)
    (entry : WalletLedgerEntry) (ctx ctx' : WalletMovementContext)
    → IsValid before
    → TakesBack tx reference
    → tx.money ≡ reference.money
    → ledger_direction_for reference none ≡ ok direction
    → move direction before reference.money ctx ≡ ok (entry, after)
    → (d : LedgerDirection) × (ledger_direction_for tx (some reference) ≡ ok d)
      × Restores before after d tx.money ctx'
reversal_undoes tx reference before after direction entry ctx ctx' v u money own moved = (
  opposite direction,
  undoing_direction tx reference direction u own,
  subst (λ m. Restores before after (opposite direction) m ctx') (sym money)
      (undo before reference.money ctx ctx' v direction entry after moved),
)
