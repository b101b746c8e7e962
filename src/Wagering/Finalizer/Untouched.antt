-- ===== src/Wagering/Finalizer/Untouched.antt =====
-- src/wagering/application/wager-transaction-finalizer.ts: what moves no money.
use distributed_wagering_pro.Wagering.Finalizer.{mark_pending_reference, reject, apply_loss}
use distributed_wagering_pro.Wagering.Resolution.{resolve_reference}
use distributed_wagering_pro.Persistence.World.{Platform, World}
use distributed_wagering_pro.Wagering.Transaction.{WagerTransaction}
use distributed_wagering_pro.Prelude.{arith, Option, ◌≡◌}
use distributed_wagering_pro.Kernel.Event.{EventContext, FailureCode}
use distributed_wagering_pro.Wallets.Wallet.{Wallet}
use distributed_wagering_pro.Persistence.Balanced.{SameMoney}

module _ {P : Platform} (tx : WagerTransaction) (w : World P) where
  -- Neither the result nor an error changes that.
  pub mark_pending_reference-SameMoney :
      (ctx : EventContext) → SameMoney w (mark_pending_reference tx ctx w).1
  unfolding mark_pending_reference
  mark_pending_reference-SameMoney ctx = ground arith

  pub reject-SameMoney : (c : FailureCode) (ctx : EventContext) → SameMoney w (reject tx c ctx w).1
  unfolding reject
  reject-SameMoney c ctx = ground arith

  pub apply_loss-SameMoney :
      (wallet : Wallet) (reference : Option WagerTransaction) (ctx : EventContext)
      → SameMoney w (apply_loss tx wallet reference ctx w).1
  unfolding apply_loss
  apply_loss-SameMoney wallet reference ctx = ground arith

  pub resolve_reference-SameMoney : SameMoney w (resolve_reference tx w).1
  unfolding resolve_reference
  resolve_reference-SameMoney = ground arith

  -- Resolving a reference only reads.
  pub resolve_reference-em : (resolve_reference tx w).1.em ≡ w.em
  unfolding resolve_reference
  resolve_reference-em = ground arith
