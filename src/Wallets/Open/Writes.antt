-- ===== src/Wallets/Open/Writes.antt =====
-- src/wallets/application/use-cases/open-wallet.use-case.ts: what opening a wallet writes, under the
-- constraints and triggers of migrations.
use distributed_wagering_pro.Messaging.Outbox
use distributed_wagering_pro.Wallets.Open.{
  record_opening, open_body, execute, opening_entry, duplicate_or_rethrow, OpenWalletCommand,
}
use distributed_wagering_pro.Wallets.Wallet.{Wallet, open_wallet}
use distributed_wagering_pro.Wallets.Repository.{insert}
use distributed_wagering_pro.Persistence.World.{Platform, World, Em, App}
use distributed_wagering_pro.Kernel.Event.{Timestamp, EventContext}
use distributed_wagering_pro.Kernel.Money.{Money, is_positive}
use distributed_wagering_pro.Prelude.{
  ℕ, ◌-ℤ◌, ◌≡◌, pos, ◌+◌, true, ◌≤ℤ◌, none, arith, int_laws, [], Bool, if◌then◌else◌, codes, subst,
  ap, false, refl,
}
use distributed_wagering_pro.Wagering.Row.{to_transaction_row}
use distributed_wagering_pro.Wagering.Transaction.{WagerTransaction, create_opening}
use distributed_wagering_pro.Wallets.LedgerEntry.{WalletLedgerEntry}
use distributed_wagering_pro.Messaging.Outbox.{OutboxMessage}
use distributed_wagering_pro.Wallets.Rows.{to_ledger_row}
use distributed_wagering_pro.Persistence.Schema.{EnforcesUnique}
use distributed_wagering_pro.Wagering.Events.{transaction_processed}
use distributed_wagering_pro.Wallets.Events.{wallet_balance_changed}
use distributed_wagering_pro.Kernel.Errors.{ok}
use distributed_wagering_pro.Persistence.Schema.Writes.{
  LedgerChecked, Writes, Owned, Owned-IsRule, Writes-trans, Writes-claim, Writes-entry, Writes-same,
  Writes-message,
}
use distributed_wagering_pro.Persistence.Schema.Keys.{IsKeyed}
use distributed_wagering_pro.Persistence.Schema.Checks.{
  positive-ledger_checks, nonneg-transaction_checks,
}
use distributed_wagering_pro.Persistence.Schema.Commits.{Sound, transactional-Sound}
use distributed_wagering_pro.Persistence.Effect.{
  continue-keeps, increment_counter, pure, ◌>>◌, catches, transactional, new_id, continue-ok,
  handle-keeps, flush,
}
use distributed_wagering_pro.Wallets.Open.Balance.{duplicate_or_rethrow-state}

module _ (P : Platform) (cmd : OpenWalletCommand) (now : Timestamp) where
  abbrev nothing : Money
  nothing = record {
    minor_units = cmd.initial_balance.minor_units -ℤ cmd.initial_balance.minor_units;
    currency = cmd.initial_balance.currency;
  }

  -- The opening transaction, whose id is the first of the four that are taken.
  abbrev opened : Wallet → ℕ → WagerTransaction
  opened wallet ids = create_opening (record {
    id = P.new_id ids;
    wallet_id = wallet.id;
    player_id = cmd.player_id;
    money = cmd.initial_balance;
    now = now;
  })

  abbrev entry_of : Wallet → ℕ → WalletLedgerEntry
  entry_of wallet ids =
      opening_entry (P.new_id (ids + 1)) wallet (opened wallet ids) nothing cmd.initial_balance now

  abbrev context : ℕ → EventContext
  context ids = record { correlation_id = P.new_id (ids + 2); causation_id = none; now = now }

  abbrev announced : Wallet → ℕ → OutboxMessage
  announced wallet ids = Outbox.enqueue (
      transaction_processed (P.new_id (ids + 3)) (opened wallet ids) cmd.initial_balance
        (context ids))

  abbrev balance_announced : Wallet → ℕ → OutboxMessage
  balance_announced wallet ids =
      Outbox.enqueue
        (wallet_balance_changed (P.new_id (ids + 4)) wallet (entry_of wallet ids) (context ids))

  record_opening-tables :
      (wallet : Wallet) (w : World P)
      → (record_opening cmd wallet now w).0 ≡ ok tt
      → let em' = (record_opening cmd wallet now w).1.em in
        (em'.ledger ≡ P.tables.ledger.create (to_ledger_row (entry_of wallet w.ids)) w.em.ledger)
        × (em'.transactions
            ≡ P.tables.transactions.create
                (to_transaction_row (opened wallet w.ids))
                w.em.transactions)
        × (em'.outbox
            ≡ P.tables.outbox.create
                (balance_announced wallet w.ids)
                (P.tables.outbox.create (announced wallet w.ids) w.em.outbox))
  unfolding record_opening
  record_opening-tables wallet w h = (ground arith, ground arith, ground arith)

  opening-LedgerChecked :
      (wallet : Wallet) (ids : ℕ)
      → is_positive cmd.initial_balance ≡ true
      → pos 0 ≤ℤ cmd.initial_balance.minor_units
      → LedgerChecked (to_ledger_row (entry_of wallet ids))
  unfolding is_positive to_ledger_row opening_entry
  opening-LedgerChecked wallet ids positive nonneg =
      positive-ledger_checks (to_ledger_row (entry_of wallet ids)) (ground arith) (omega int_laws)
        nonneg

  record_opening-Writes :
      (wallet : Wallet) (w : World P)
      → is_positive cmd.initial_balance ≡ true
      → pos 0 ≤ℤ cmd.initial_balance.minor_units
      → (record_opening cmd wallet now w).0 ≡ ok tt
      → Writes P (Owned []) w.em (record_opening cmd wallet now w).1.em
  unfolding to_transaction_row create_opening
  record_opening-Writes wallet w positive nonneg h =
      let rule = Owned-IsRule [] in
      let em = w.em in
      let em' = (record_opening cmd wallet now w).1.em in
      let row = to_transaction_row (opened wallet w.ids) in
      let em₁ : Em P.tables = record em {
        transactions = P.tables.transactions.create row em.transactions;
      } in
      let em₂ : Em P.tables = record em₁ {
        ledger = P.tables.ledger.create (to_ledger_row (entry_of wallet w.ids)) em₁.ledger;
      } in
      let em₃ : Em P.tables = record em₂ {
        outbox = P.tables.outbox.create (announced wallet w.ids) em₂.outbox;
      } in
      let em₄ : Em P.tables = record em₃ {
        outbox = P.tables.outbox.create (balance_announced wallet w.ids) em₃.outbox;
      } in
      Writes-trans P rule em em₁ em'
        (Writes-claim P rule row em (nonneg-transaction_checks row nonneg))
        (Writes-trans P rule em₁ em₂ em'
          (Writes-entry P rule (to_ledger_row (entry_of wallet w.ids)) em₁
            (opening-LedgerChecked wallet w.ids positive nonneg))
          (Writes-trans P rule em₂ em₃ em' (Writes-message P rule (announced wallet w.ids) em₂) (
            Writes-trans P rule em₃ em₄ em'
              (Writes-message P rule (balance_announced wallet w.ids) em₃)
              (Writes-same P rule em₄ em' (record_opening-tables wallet w h)))))

  open_body-Writes :
      (wallet : Wallet) (w w' : World P)
      → pos 0 ≤ℤ cmd.initial_balance.minor_units
      → open_body cmd wallet now w ≡ (ok tt, w')
      → Writes P (Owned []) w.em w'.em
  unfolding open_body insert
  open_body-Writes wallet w w' nonneg h =
      let rest : App P (Unit {0}) =
        if is_positive cmd.initial_balance then record_opening cmd wallet now else pure tt in
      let (_, _, h₁) = continue-ok (λ _. flush >> rest) (insert wallet w) h in
      let (_, _, h₂) = continue-ok (λ _. rest) (flush (insert wallet w).1) h₁ in
      by_sign (is_positive cmd.initial_balance) refl h₂
    where
      w₁ : World P
      w₁ = (insert wallet w).1

      by_sign :
          (positive : Bool)
          → is_positive cmd.initial_balance ≡ positive
          → (if positive then record_opening cmd wallet now else pure tt) w₁ ≡ (ok tt, w')
          → Writes P (Owned []) w.em w'.em
      by_sign true e done =
          subst (λ (v : World P). Writes P (Owned []) w.em v.em) (ap (λ p. p.1) done)
            (Writes-trans P (Owned-IsRule []) w.em w₁.em (record_opening cmd wallet now w₁).1.em
              (Writes-same P (Owned-IsRule []) w.em w₁.em (refl, refl, refl))
              (record_opening-Writes wallet w₁ e nonneg (ap (λ p. p.0) done)))
      by_sign false e done =
          subst (λ (v : World P). Writes P (Owned []) w.em v.em) (ap (λ p. p.1) done)
            (Writes-same P (Owned-IsRule []) w.em w₁.em (refl, refl, refl))

  -- What opening a wallet leaves, whatever it returns or throws.
  pub opening-Sound :
      (w : World P)
      → EnforcesUnique P
      → pos 0 ≤ℤ cmd.initial_balance.minor_units
      → IsKeyed P w.em
      → Sound P (Owned []) w.em (execute cmd now w).1.em
  unfolding execute open_wallet
  opening-Sound w enforces nonneg keyed =
      continue-keeps (λ v. Sound P (Owned []) w.em v.em)
        (λ _. increment_counter (codes "wallets_opened_total") [] >> pure wallet)
        (catches (transactional (open_body cmd wallet now)) (duplicate_or_rethrow cmd) (new_id w).1)
        (handle-keeps (λ v. Sound P (Owned []) w.em v.em) (duplicate_or_rethrow cmd)
          (transactional (open_body cmd wallet now) (new_id w).1)
          (λ e v kept. rw (duplicate_or_rethrow-state {P = P} cmd now e v) kept)
          (transactional-Sound P enforces (Owned-IsRule []) (open_body cmd wallet now) (new_id w).1
            keyed (λ r w' h _. open_body-Writes wallet (new_id w).1 w' nonneg h)))
        (λ r v kept. kept)
    where
      wallet : Wallet
      wallet = open_wallet (record {
        id = P.new_id w.ids;
        player_id = cmd.player_id;
        initial_balance = cmd.initial_balance;
        now = now;
      })
