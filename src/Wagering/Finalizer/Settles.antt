-- ===== src/Wagering/Finalizer/Settles.antt =====
-- src/wagering/application/wager-transaction-finalizer.ts: what applying a transaction writes, under
-- the constraints and triggers of migrations.
use distributed_wagering_pro.Wagering.Repository
use distributed_wagering_pro.Wagering.Transaction
use distributed_wagering_pro.Wallets.Repository as Wallets
use distributed_wagering_pro.Persistence.Schema.Writes.{
  SameTables, LedgerChecked, continue-Writes, Writes-trans, Writes-refl, Writes-entry, Writes-same,
}
use distributed_wagering_pro.Wallets.Wallet.{Wallet, WalletMovementContext}
use distributed_wagering_pro.Wallets.Wallet.Laws.{IsValid, debit_lem, credit_lem}
use distributed_wagering_pro.Wallets.Events.{wallet_balance_changed}
use distributed_wagering_pro.Wallets.Wallet.History.{Step, Step-facts, debited, credited}
use distributed_wagering_pro.Wallets.LedgerEntry.{WalletLedgerEntry}
use distributed_wagering_pro.Wallets.Rows.{to_ledger_row, to_wallet_row, WalletRow}
use distributed_wagering_pro.Persistence.World.{Platform, World, Em, App}
use distributed_wagering_pro.Prelude.{
  ltb_ℤ, List, pos, Text, ◌≡◌, true, arith, sym, Option, ◌∙◌, Bool, ◌+◌, if◌then◌else◌, some, none,
  false, refl,
}
use distributed_wagering_pro.Kernel.Event.{LedgerDirection, EventContext, FailureCode}
use distributed_wagering_pro.Kernel.Money.{Money}
use distributed_wagering_pro.Wagering.Finalizer.{
  move, apply_loss, settle, refuse_or_rethrow, attempt, move_or_reject, apply_effect, publish,
  new_movement, reference_id, classify_apply_failure, apply_movement, record_outcome, reject,
}
use distributed_wagering_pro.Wagering.Transaction.{
  WagerTransaction, ledger_direction_for, affects_balance,
}
use distributed_wagering_pro.Kernel.Errors.{ok, Error, Result, err}
use distributed_wagering_pro.Wagering.Finalizer.Writes.{
  Owns, Changes, rule, save-Changes, publish-Changes, Owns-props, recorded-Changes, reject-Changes,
  processed-props,
}
use distributed_wagering_pro.Persistence.Effect.{modify, handle, ◌>>◌, continue, pure, or_fail}
use distributed_wagering_pro.Wagering.Events.{transaction_processed}
use distributed_wagering_pro.Wagering.Finalizer.Balance.{move-Step}
use distributed_wagering_pro.Persistence.Schema.Checks.{positive-ledger_checks}

-- The row of a movement passes the checks of the ledger.
Step-positive :
    {w : Wallet} {e : WalletLedgerEntry} {w' : Wallet}
    → IsValid w
    → Step w e w'
    → ltb_ℤ (pos 0) e.money.minor_units ≡ true
Step-positive {w} {e} {w'} v (debited money ctx h) =
    ground (arith, sym (debit_lem w money ctx v) ∙ h)
Step-positive {w} {e} {w'} v (credited money ctx h) =
    ground (arith, sym (credit_lem w money ctx v) ∙ h)

pub moved-LedgerChecked :
    (direction : LedgerDirection) (wallet : Wallet) (money : Money) (m : WalletMovementContext)
    (entry : WalletLedgerEntry) (wallet' : Wallet)
    → IsValid wallet
    → move direction wallet money m ≡ ok (entry, wallet')
    → LedgerChecked (to_ledger_row entry)
unfolding to_ledger_row
moved-LedgerChecked direction wallet money m entry wallet' v h =
    let step = move-Step direction wallet money m entry wallet' h in
    let facts = Step-facts v step in
    positive-ledger_checks (to_ledger_row entry) (Step-positive v step) (rw facts.before v.nonneg)
      (rw facts.after facts.valid.nonneg)

-- What is returned, once the outcome is counted.
abbrev finish : (P : Platform) → WagerTransaction → Wallet → App P (WagerTransaction × Wallet)
finish P marked wallet =
    record_outcome marked >> pure {A = WagerTransaction × Wallet} (marked, wallet)

module _ (P : Platform) (ids : List Text) (tx : WagerTransaction) (own : Owns ids tx)
    (ctx : EventContext) where
  pub apply_loss-Changes :
      (wallet : Wallet) (reference : Option WagerTransaction) (w : World P)
      → Changes P ids w.em (apply_loss tx wallet reference ctx w).1.em
  unfolding apply_loss
  apply_loss-Changes wallet reference w =
      continue-Writes P (rule P ids) w.em _
        (Transaction.mark_processed (reference_id reference) ctx.now tx, w)
        (Writes-refl P (rule P ids) w.em)
        λ marked v h.
          let event = λ (id : Text). transaction_processed id marked wallet.balance ctx in
          continue-Writes P (rule P ids) v.em (λ _. publish event >> finish P marked wallet)
            (Repository.save marked v)
            (save-Changes P ids marked v (
              Owns-props ids tx marked
                (processed-props (reference_id reference) ctx.now tx marked h) own))
            λ _ u _.
              continue-Writes P (rule P ids) u.em (λ _. finish P marked wallet) (publish event u)
                (publish-Changes P ids event u)
                λ _ t _.
                  recorded-Changes P ids {A = WagerTransaction × Wallet} marked (marked, wallet) t

  save_wallet-SameTables :
      (wallet : Wallet) (w : World P) → SameTables P w.em (Wallets.save wallet w).1.em
  unfolding Wallets.save
  save_wallet-SameTables wallet w =
      by_row (P.tables.wallets.find_one (Wallets.has_id wallet.id) w.em.wallets)
    where
      update : App P (Unit {0})
      update =
          modify (λ em. record em {
            wallets = P.tables.wallets.assign (to_wallet_row wallet) em.wallets;
          })

      by_row :
          (o : Option WalletRow) → SameTables P w.em (continue (λ _. update) (or_fail o w)).1.em
      by_row none = (refl, refl, refl)
      by_row (some _) = (refl, refl, refl)

  -- The events after a movement.
  announce-Changes :
      (marked : WagerTransaction) (wallet : Wallet) (entry : WalletLedgerEntry) (w : World P)
      → Changes P ids w.em
          ((publish (λ id. transaction_processed id marked wallet.balance ctx)
              >> (publish (λ id. wallet_balance_changed id wallet entry ctx)
                  >> finish P marked wallet))
            w).1.em
  announce-Changes marked wallet entry w =
      let balance = λ (id : Text). wallet_balance_changed id wallet entry ctx in
      let event = λ (id : Text). transaction_processed id marked wallet.balance ctx in
      continue-Writes P (rule P ids) w.em (λ _. publish balance >> finish P marked wallet)
        (publish event w) (publish-Changes P ids event w)
        λ _ v _.
          continue-Writes P (rule P ids) v.em (λ _. finish P marked wallet) (publish balance v)
            (publish-Changes P ids balance v)
            λ _ u _.
              recorded-Changes P ids {A = WagerTransaction × Wallet} marked (marked, wallet) u

  settle-Changes :
      (reference : Option WagerTransaction) (entry : WalletLedgerEntry) (wallet : Wallet)
      (w : World P)
      → LedgerChecked (to_ledger_row entry)
      → Changes P ids w.em (settle tx reference ctx (entry, wallet) w).1.em
  unfolding settle Wallets.insert_entry
  settle-Changes reference entry wallet w checked =
      let w₁ : World P = record w {
        em = record w.em { ledger = P.tables.ledger.create (to_ledger_row entry) w.em.ledger };
      } in
      Writes-trans P (rule P ids) w.em w₁.em (settle tx reference ctx (entry, wallet) w).1.em
        (Writes-entry P (rule P ids) (to_ledger_row entry) w.em checked)
        (continue-Writes P (rule P ids) w₁.em _ (Wallets.save wallet w₁)
          (Writes-same P (rule P ids) w₁.em (Wallets.save wallet w₁).1.em
            (save_wallet-SameTables wallet w₁))
          λ _ v _.
            continue-Writes P (rule P ids) v.em _
              (Transaction.mark_processed (reference_id reference) ctx.now tx, v)
              (Writes-refl P (rule P ids) v.em)
              λ marked u h.
                continue-Writes P (rule P ids) u.em
                  (λ _.
                    publish (λ id. transaction_processed id marked wallet.balance ctx)
                    >> (publish (λ id. wallet_balance_changed id wallet entry ctx)
                        >> finish P marked wallet))
                  (Repository.save marked u)
                  (save-Changes P ids marked u (
                    Owns-props ids tx marked
                      (processed-props (reference_id reference) ctx.now tx marked h) own))
                  λ _ t _. announce-Changes marked wallet entry t)

  refuse-Changes :
      (wallet : Wallet) (e : Error) (o : Option FailureCode) (w : World P)
      → Changes P ids w.em (refuse_or_rethrow tx wallet ctx e o w).1.em
  unfolding refuse_or_rethrow
  refuse-Changes wallet e none w = Writes-refl P (rule P ids) w.em
  refuse-Changes wallet e (some failure) w =
      continue-Writes P (rule P ids) w.em (λ marked. pure (marked, wallet))
        (reject tx failure ctx w) (reject-Changes P ids tx failure ctx w own)
        λ _ v _. Writes-refl P (rule P ids) v.em

  attempt-Changes :
      (direction : LedgerDirection) (m : WalletMovementContext) (wallet : Wallet)
      (reference : Option WagerTransaction) (w : World P)
      → IsValid wallet
      → Changes P ids w.em (attempt direction m tx wallet reference ctx w).1.em
  unfolding attempt
  attempt-Changes direction m wallet reference w valid =
      continue-Writes P (rule P ids) w.em (settle tx reference ctx)
        (move direction wallet tx.money m, w) (Writes-refl P (rule P ids) w.em)
        λ moved v h.
          settle-Changes reference moved.0 moved.1 v
            (moved-LedgerChecked direction wallet tx.money m moved.0 moved.1 valid h)

  handle-Changes :
      {A : Type 0} (em : Em P.tables) (handler : Error → App P A) (r : Result A × World P)
      → Changes P ids em r.1.em
      → ((e : Error) (v : World P) → Changes P ids v.em (handler e v).1.em)
      → Changes P ids em (handle handler r).1.em
  handle-Changes em handler (ok a, v) h k = h
  handle-Changes em handler (err e, v) h k =
      Writes-trans P (rule P ids) em v.em (handler e v).1.em h (k e v)

  move_or_reject-Changes :
      (direction : LedgerDirection) (wallet : Wallet) (reference : Option WagerTransaction)
      (w : World P)
      → IsValid wallet
      → Changes P ids w.em (move_or_reject direction tx wallet reference ctx w).1.em
  unfolding move_or_reject
  move_or_reject-Changes direction wallet reference w valid =
      let m = new_movement tx ctx (P.new_id w.ids) in
      let w₁ : World P = record w { ids = w.ids + 1 } in
      handle-Changes w.em
        (λ e. refuse_or_rethrow tx wallet ctx e (classify_apply_failure e tx.kind))
        (attempt direction m tx wallet reference ctx w₁)
        (attempt-Changes direction m wallet reference w₁ valid)
        λ e v. refuse-Changes wallet e (classify_apply_failure e tx.kind) v

  pub apply_effect-Changes :
      (wallet : Wallet) (reference : Option WagerTransaction) (w : World P)
      → IsValid wallet
      → Changes P ids w.em (apply_effect tx wallet reference ctx w).1.em
  unfolding apply_effect
  apply_effect-Changes wallet reference w valid = by_effect (affects_balance tx)
    where
      by_effect :
          (moves : Bool)
          → Changes P ids w.em
              ((if moves
                  then apply_movement tx wallet reference ctx
                  else apply_loss tx wallet reference ctx)
                w).1.em
      by_effect true =
          continue-Writes P (rule P ids) w.em (λ d. move_or_reject d tx wallet reference ctx)
            (ledger_direction_for tx reference, w) (Writes-refl P (rule P ids) w.em)
            λ d v _. move_or_reject-Changes d wallet reference v valid
      by_effect false = apply_loss-Changes wallet reference w
