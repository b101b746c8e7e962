-- ===== src/Wallets/Wallet/Laws.antt =====
-- src/wallets/domain/wallet.ts: what a debit and a credit do, on every branch.
use distributed_wagering_pro.Kernel.Money
use distributed_wagering_pro.Kernel.Money.{Money}
use distributed_wagering_pro.Wallets.Wallet.{Wallet, WalletMovementContext, debit, credit}
use distributed_wagering_pro.Prelude.{
  ◌≡◌, pos, ℤ, ◌≤ℤ◌, ◌+◌, ◌-ℤ◌, if◌then◌else◌, not, text_eq, ltb_ℤ, ◌+ℤ◌, arith, text_eq_iff,
  text_eq_refl, -ℤ_parts, +ℤ_parts,
}
use distributed_wagering_pro.Kernel.Event.{LedgerDirection}
use distributed_wagering_pro.Wallets.LedgerEntry.{WalletLedgerEntry}
use distributed_wagering_pro.Kernel.Errors.{
  ok, throw, currency_mismatch, unbalanced_ledger_entry, insufficient_balance,
}

-- The balance is in the wallet's currency, and is not negative.
pub record IsValid (w : Wallet) : Type 0 where
  pub one_currency : w.balance.currency ≡ w.currency
  pub nonneg : pos 0 ≤ℤ w.balance.minor_units

-- The wallet whose balance has become `amount`.
abbrev pub with_balance : Wallet → ℤ → WalletMovementContext → Wallet
with_balance w amount ctx = record w {
  balance = record { minor_units = amount; currency = w.currency };
  version = w.version + 1;
  updated_at = ctx.now;
}

-- The entry that records the step from one balance to the other.
abbrev pub entry_between :
    LedgerDirection → Wallet → Wallet → Money → WalletMovementContext → WalletLedgerEntry
entry_between direction w w' money ctx = record {
  id = ctx.ledger_entry_id;
  wallet_id = w.id;
  transaction_id = ctx.transaction_id;
  direction = direction;
  money = money;
  balance_before = w.balance;
  balance_after = w'.balance;
  created_at = ctx.now;
}

abbrev pub moved_by :
    LedgerDirection → Wallet → ℤ → Money → WalletMovementContext → WalletLedgerEntry × Wallet
moved_by direction w amount money ctx =
    (entry_between direction w (with_balance w amount ctx) money ctx, with_balance w amount ctx)

module _ (w : Wallet) (money : Money) (ctx : WalletMovementContext) (v : IsValid w) where
  -- A debit of a valid wallet throws for another currency, for an amount that is not positive and
  -- for one above the balance; any other amount is taken off the balance, the version goes up by
  -- one, and the entry holds both balances.
  pub debit_lem : debit w money ctx ≡ (
      if not (text_eq money.currency w.currency)
      then throw (currency_mismatch w.currency money.currency)
      else if not (ltb_ℤ (pos 0) money.minor_units)
      then throw unbalanced_ledger_entry
      else if ltb_ℤ w.balance.minor_units money.minor_units
      then throw
          (insufficient_balance w.id (Money.to_json w.balance).amount (Money.to_json money).amount)
      else ok
          (moved_by LedgerDirection.debit w (w.balance.minor_units -ℤ money.minor_units) money ctx))
  unfolding debit
  debit_lem =
      let a = w.balance.minor_units in
      let b = money.minor_units in
      ground (
        arith,
        text_eq_iff money.currency w.currency,
        text_eq_iff w.balance.currency money.currency,
        text_eq_refl w.balance.currency,
        -ℤ_parts a b,
      )

  -- A credit of a valid wallet throws for another currency and for an amount that is not positive;
  -- any other amount is added to the balance, the version goes up by one, and the entry holds both
  -- balances.
  pub credit_lem : credit w money ctx ≡ (
      if not (text_eq money.currency w.currency)
      then throw (currency_mismatch w.currency money.currency)
      else if not (ltb_ℤ (pos 0) money.minor_units)
      then throw unbalanced_ledger_entry
      else ok (
          moved_by LedgerDirection.credit w (w.balance.minor_units +ℤ money.minor_units) money ctx))
  unfolding credit
  credit_lem =
      let a = w.balance.minor_units in
      let b = money.minor_units in
      ground (
        arith,
        text_eq_iff money.currency w.currency,
        text_eq_iff w.balance.currency money.currency,
        text_eq_refl w.balance.currency,
        +ℤ_parts a b,
      )
