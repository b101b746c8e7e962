-- ===== src/System/Consistent.antt =====
-- Balances and ledger, over any history of requests and runs.
use distributed_wagering_pro.System.{
  Event, History, opens, submits, consumes, publishes, reprocesses, start, event,
}
use distributed_wagering_pro.Wallets.Http.{CreateWalletDto, open_wallet, to_wallet_view}
use distributed_wagering_pro.Wagering.Http.{submit_transaction, SubmitDto, command_of}
use distributed_wagering_pro.Wagering.Submit
use distributed_wagering_pro.Wallets.Open
use distributed_wagering_pro.Wallets.Reconcile
use distributed_wagering_pro.Wallets.Reconcile.{Reconciliation}
use distributed_wagering_pro.Wallets.Repository.{find_by_id}
use distributed_wagering_pro.Kernel.Money
use distributed_wagering_pro.Wagering.Reprocess.Balance.{run-IsBalanced}
use distributed_wagering_pro.Kernel.Money.{MoneyProps, Money}
use distributed_wagering_pro.Persistence.World.{Platform, World}
use distributed_wagering_pro.Kernel.Event.{Timestamp}
use distributed_wagering_pro.Wagering.Submit.{Clock}
use distributed_wagering_pro.Messaging.Sqs.{SqsPort}
use distributed_wagering_pro.Prelude.{◌≡◌, [], pos, Text, ◌≤ℤ◌, arith, some, true, refl}
use distributed_wagering_pro.Kernel.Errors.{ok, Result, err}
use distributed_wagering_pro.Wallets.Open.Balance.{IsFresh, opening-IsBalanced}
use distributed_wagering_pro.Persistence.Balanced.{IsBalanced}
use distributed_wagering_pro.Persistence.Effect.{continue-keeps, continue, ◌>>=◌, pure}
use distributed_wagering_pro.Wagering.Consume.Balance.{consumer-IsBalanced}
use distributed_wagering_pro.Wagering.Submit.Balance.{execute-IsBalanced}
use distributed_wagering_pro.Messaging.Publish.Balance.{publisher-IsBalanced}
use distributed_wagering_pro.Wallets.Wallet.{Wallet}
use distributed_wagering_pro.Wallets.Reconcile.Consistent.{reconcile-consistent}
use distributed_wagering_pro.Wallets.Open.{OpenWalletCommand}

from-nonneg : (props : MoneyProps) {m : Money} → Money.from props ≡ ok m → pos 0 ≤ℤ m.minor_units
unfolding Money.from
from-nonneg props h = ground arith

module _ {P : Platform} where
  open_wallet-IsBalanced :
      (dto : CreateWalletDto) (now : Timestamp) (w : World P)
      → IsFresh P (P.new_id w.ids) w
      → IsBalanced P w
      → IsBalanced P (open_wallet dto now w).1
  unfolding open_wallet
  open_wallet-IsBalanced dto now w fresh b = by_money (Money.from dto.initial_balance) refl
    where
      by_money :
          (r : Result Money)
          → Money.from dto.initial_balance ≡ r
          → IsBalanced P
              (continue
                (λ m.
                  Open.execute (record { player_id = dto.player_id; initial_balance = m }) now
                  >>= λ wallet. pure (to_wallet_view P wallet))
                (r, w)).1
      by_money (err e) h = b
      by_money (ok m) h =
          let cmd : OpenWalletCommand = record { player_id = dto.player_id; initial_balance = m } in
          continue-keeps (IsBalanced P) _ (Open.execute cmd now w)
            (opening-IsBalanced cmd now w (from-nonneg dto.initial_balance h) fresh b)
            (λ _ v bv. bv)

  submit_transaction-IsBalanced :
      (dto : SubmitDto) (clock : Clock) (w : World P)
      → IsBalanced P w
      → IsBalanced P (submit_transaction dto clock w).1
  unfolding submit_transaction
  submit_transaction-IsBalanced dto clock w b =
      continue-keeps (IsBalanced P) _ (Money.from dto.money, w) b
        λ money v bv.
          continue-keeps (IsBalanced P) _ (Submit.execute (command_of dto money) clock v)
            (execute-IsBalanced (command_of dto money) clock v bv) λ _ u bu. bu

  module _ (sqs : SqsPort P) where
    pub Event-IsBalanced : {v w : World P} → Event sqs v w → IsBalanced P v → IsBalanced P w
    Event-IsBalanced {v = v} (opens dto now fresh) b = open_wallet-IsBalanced dto now v fresh b
    Event-IsBalanced {v = v} (submits dto clock) b = submit_transaction-IsBalanced dto clock v b
    Event-IsBalanced {v = v} (consumes submitted clock) b =
        consumer-IsBalanced sqs clock submitted 10 5 v b
    Event-IsBalanced {v = v} (publishes now) b = publisher-IsBalanced now sqs 20 v b
    Event-IsBalanced {v = v} (reprocesses now) b = run-IsBalanced 20 now v b

    History-IsBalanced : {v w : World P} → History sqs v w → IsBalanced P v → IsBalanced P w
    History-IsBalanced start b = b
    History-IsBalanced (event h e) b = Event-IsBalanced e (History-IsBalanced h b)

    -- After any series of requests that open wallets or submit transactions and of runs of the
    -- consumer, the publisher and the reprocessing, whatever each of them returns or throws, that
    -- begins where no wallet is stored and in which each new wallet's id is fresh, reconciliation
    -- reports every wallet that is read as consistent, with the difference zero.
    pub history-consistent :
        (empty w : World P)
        → P.tables.wallets.rows empty.em.wallets ≡ []
        → History sqs empty w
        → (id : Text) (wallet : Wallet) → (find_by_id id w).0 ≡ ok (some wallet)
        → (r : Reconciliation) × ((Reconcile.execute id w).0 ≡ ok r)
          × (r.consistent ≡ true)
          × (r.difference.minor_units ≡ pos 0)
    history-consistent empty w none_yet h id wallet found =
        reconcile-consistent id w wallet (History-IsBalanced h (rw none_yet tt)) found
