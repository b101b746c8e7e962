-- ===== src/Wagering/Finalizer/Balance.antt =====
-- src/wagering/application/wager-transaction-finalizer.ts: applying a transaction, and the stored
-- balances.
use distributed_wagering_pro.Wagering.Finalizer.{
  settle, classify_apply_failure, attempt, move, refuse_or_rethrow, reject, move_or_reject,
  apply_effect, new_movement, apply_loss,
}
use distributed_wagering_pro.Persistence.World.{Platform, World, same_wallet}
use distributed_wagering_pro.Wagering.Transaction.{
  WagerTransaction, Kind, affects_balance, ledger_direction_for,
}
use distributed_wagering_pro.Prelude.{
  Option, ◌≡◌, none, arith, ap, ◌++◌, ◌∷◌, [], sym, ◌∙◌, ◌+ℤ◌, some, refl, Bool-cases, ◌+◌, inl,
  inr,
}
use distributed_wagering_pro.Kernel.Event.{
  EventContext, LedgerDirection, debit, credit, FailureCode,
}
use distributed_wagering_pro.Wallets.LedgerEntry.{WalletLedgerEntry}
use distributed_wagering_pro.Wallets.Wallet.{Wallet, WalletMovementContext}
use distributed_wagering_pro.Kernel.Errors.{Error, ok, err, Result}
use distributed_wagering_pro.Wallets.Rows.{to_ledger_row, to_wallet_row}
use distributed_wagering_pro.Kernel.Money.{Money}
use distributed_wagering_pro.Persistence.Balanced.{
  IsBalanced, ledger_sum, movement-balanced, Agrees, SameMoney-IsBalanced,
}
use distributed_wagering_pro.Persistence.Effect.{continue-ok, pure, continue, handle-ok}
use distributed_wagering_pro.Wallets.Wallet.History.{
  Step-facts, Step, debited, credited, signed_amount,
}
use distributed_wagering_pro.Persistence.Table.{assign_row}
use distributed_wagering_pro.Wagering.Finalizer.Untouched.{reject-SameMoney, apply_loss-SameMoney}

module _ {P : Platform} (tx : WagerTransaction) (reference : Option WagerTransaction)
    (ctx : EventContext) where
  -- A movement that is settled adds the entry and stores the wallet.
  pub settle-writes :
      (entry : WalletLedgerEntry) (wallet : Wallet) (w : World P) (r : WagerTransaction × Wallet)
      → (settle tx reference ctx (entry, wallet) w).0 ≡ ok r
      → let w' = (settle tx reference ctx (entry, wallet) w).1 in
        (w'.em.ledger ≡ P.tables.ledger.create (to_ledger_row entry) w.em.ledger)
        × (w'.em.wallets ≡ P.tables.wallets.assign (to_wallet_row wallet) w.em.wallets)
        × (r.1 ≡ wallet)
  unfolding settle
  settle-writes entry wallet w r h = ground arith

  -- What it throws is never an error that the `catch` turns into a rejection.
  pub settle-unclassified :
      (entry : WalletLedgerEntry) (wallet : Wallet) (w : World P) (e : Error) (kind : Kind)
      → (settle tx reference ctx (entry, wallet) w).0 ≡ err e
      → classify_apply_failure e kind ≡ none
  unfolding settle classify_apply_failure
  settle-unclassified entry wallet w e kind h = ground arith

-- A debit or a credit is one step of the wallet.
pub move-Step :
    (direction : LedgerDirection) (wallet : Wallet) (money : Money) (m : WalletMovementContext)
    (entry : WalletLedgerEntry) (wallet' : Wallet)
    → move direction wallet money m ≡ ok (entry, wallet')
    → Step wallet entry wallet'
move-Step debit wallet money m entry wallet' h = debited money m h
move-Step credit wallet money m entry wallet' h = credited money m h

module _ {P : Platform} (tx : WagerTransaction) (wallet : Wallet)
    (reference : Option WagerTransaction) (ctx : EventContext) where
  attempt-IsBalanced :
      (direction : LedgerDirection) (m : WalletMovementContext) (w w' : World P)
      (r : WagerTransaction × Wallet)
      → IsBalanced P w
      → Agrees w wallet
      → attempt direction m tx wallet reference ctx w ≡ (ok r, w')
      → IsBalanced P w'
  unfolding attempt to_ledger_row to_wallet_row
  attempt-IsBalanced direction m w w' r b a h =
      let ((entry, wallet'), moved, settled) =
        continue-ok (settle tx reference ctx) (move direction wallet tx.money m, w) h in
      let s = Step-facts a.valid (move-Step direction wallet tx.money m entry wallet' moved) in
      let (ledger, wallets, _) =
        settle-writes tx reference ctx entry wallet' w r (ap (λ p. p.0) settled) in
      let ledger_rows : P.tables.ledger.rows w'.em.ledger
          ≡ P.tables.ledger.rows w.em.ledger ++ to_ledger_row entry ∷ [] =
        ap (λ p. P.tables.ledger.rows p.1.em.ledger) (sym settled)
        ∙ ap P.tables.ledger.rows ledger
        ∙ P.tables.ledger.rows-create (to_ledger_row entry) w.em.ledger in
      let wallet_rows : P.tables.wallets.rows w'.em.wallets
          ≡ assign_row same_wallet (to_wallet_row wallet') (P.tables.wallets.rows w.em.wallets) =
        ap (λ p. P.tables.wallets.rows p.1.em.wallets) (sym settled)
        ∙ ap P.tables.wallets.rows wallets
        ∙ P.tables.wallets.rows-assign (to_wallet_row wallet') w.em.wallets in
      rw (ledger_rows, wallet_rows)
        (movement-balanced (P.tables.ledger.rows w.em.ledger) (P.tables.wallets.rows w.em.wallets)
          (to_ledger_row entry) (to_wallet_row wallet') b (s.owner ∙ sym s.identity.0)
          (s.balance
            ∙ ap (λ b. b +ℤ signed_amount entry)
                (a.sum
                  ∙ ap (λ id. ledger_sum id (P.tables.ledger.rows w.em.ledger)) (sym s.identity.0)))
          s.valid.nonneg)

  -- An error that becomes a rejection comes from the movement, which has written nothing.
  attempt-refused :
      (direction : LedgerDirection) (m : WalletMovementContext) (w : World P) (e : Error)
      (kind : Kind) (c : FailureCode)
      → (attempt direction m tx wallet reference ctx w).0 ≡ err e
      → classify_apply_failure e kind ≡ some c
      → (attempt direction m tx wallet reference ctx w).1 ≡ w
  unfolding attempt
  attempt-refused direction m w e kind c h k = by_result (move direction wallet tx.money m) h
    where
      by_result :
          (x : Result (WalletLedgerEntry × Wallet))
          → (continue (settle tx reference ctx) (x, w)).0 ≡ err e
          → (continue (settle tx reference ctx) (x, w)).1 ≡ w
      by_result (err _) h' = refl
      by_result (ok (entry, wallet')) h' =
          absurd (cc (k, settle-unclassified tx reference ctx entry wallet' w e kind h'))

  refuse-IsBalanced :
      (e : Error) (o : Option FailureCode) (w w' : World P) (r : WagerTransaction × Wallet)
      → IsBalanced P w
      → refuse_or_rethrow tx wallet ctx e o w ≡ (ok r, w')
      → IsBalanced P w'
  unfolding refuse_or_rethrow
  refuse-IsBalanced e none w w' r b h = absurd (ground arith)
  refuse-IsBalanced e (some c) w w' r b h =
      let (marked, _, h') = continue-ok (λ t. pure (t, wallet)) (reject tx c ctx w) h in
      let (wallets, ledger) = reject-SameMoney tx w c ctx in
      let same : (reject tx c ctx w).1 ≡ w' = ap (λ p. p.1) h' in
      SameMoney-IsBalanced w w'
        (ap (λ v. v.em.wallets) (sym same) ∙ wallets, ap (λ v. v.em.ledger) (sym same) ∙ ledger) b

  unclassified :
      (e : Error) (w w' : World P) (r : WagerTransaction × Wallet)
      → refuse_or_rethrow tx wallet ctx e none w ≡ (ok r, w')
      → ⊥
  unfolding refuse_or_rethrow
  unclassified e w w' r h = ground arith

  move_or_reject-IsBalanced :
      (direction : LedgerDirection) (w w' : World P) (r : WagerTransaction × Wallet)
      → IsBalanced P w
      → Agrees w wallet
      → move_or_reject direction tx wallet reference ctx w ≡ (ok r, w')
      → IsBalanced P w'
  unfolding move_or_reject
  move_or_reject-IsBalanced direction w w' r b a h =
      let m = new_movement tx ctx (P.new_id w.ids) in
      let w₁ : World P = record w { ids = w.ids + 1 } in
      let a₁ : Agrees w₁ wallet = record { valid = a.valid; sum = a.sum } in
      elim (handle-ok (λ e. refuse_or_rethrow tx wallet ctx e (classify_apply_failure e tx.kind))
        (attempt direction m tx wallet reference ctx w₁) h) [
          | inl done ↦ attempt-IsBalanced direction m w₁ w' r b a₁ done
          | inr (e, thrown, handled) ↦
              caught e (classify_apply_failure e tx.kind) thrown refl handled
        ]
    where
      caught :
          (e : Error) (o : Option FailureCode)
          → (attempt direction
              (new_movement tx ctx (P.new_id w.ids))
              tx
              wallet
              reference
              ctx
              (record w { ids = w.ids + 1 })).0
            ≡ err e
          → classify_apply_failure e tx.kind ≡ o
          → refuse_or_rethrow tx wallet ctx e o
              (attempt direction
                (new_movement tx ctx (P.new_id w.ids))
                tx
                wallet
                reference
                ctx
                (record w { ids = w.ids + 1 })).1
            ≡ (ok r, w')
          → IsBalanced P w'
      caught e none thrown k h' = absurd (unclassified e _ w' r h')
      caught e (some c) thrown k h' =
          refuse-IsBalanced e (some c) (record w { ids = w.ids + 1 }) w' r b
            (ap (refuse_or_rethrow tx wallet ctx e (some c)) (
                sym (
                  attempt-refused direction (new_movement tx ctx (P.new_id w.ids))
                    (record w { ids = w.ids + 1 }) e tx.kind c thrown k))
              ∙ h')

  pub apply_effect-IsBalanced :
      (w w' : World P) (r : WagerTransaction × Wallet)
      → IsBalanced P w
      → Agrees w wallet
      → apply_effect tx wallet reference ctx w ≡ (ok r, w')
      → IsBalanced P w'
  unfolding apply_effect
  apply_effect-IsBalanced w w' r b a h = elim (Bool-cases (affects_balance tx)) [
    | inl moves ↦
        let (direction, _, h') =
          continue-ok (λ d. move_or_reject d tx wallet reference ctx)
            (ledger_direction_for tx reference, w) (rw moves at h) in
        move_or_reject-IsBalanced direction w w' r b a h'
    | inr stays ↦
        let (wallets, ledger) = apply_loss-SameMoney tx w wallet reference ctx in
        let same : (apply_loss tx wallet reference ctx w).1 ≡ w' = ap (λ p. p.1) (rw stays at h) in
        SameMoney-IsBalanced w w'
          (ap (λ v. v.em.wallets) (sym same) ∙ wallets, ap (λ v. v.em.ledger) (sym same) ∙ ledger) b
  ]
