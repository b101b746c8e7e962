-- ===== src/Wagering/Submit/Lock.antt =====
-- src/wagering/application/use-cases/submit-wager-transaction.use-case.ts: the wallet that a request
-- works on.
use distributed_wagering_pro.Wallets.Repository.{find_by_id}
use distributed_wagering_pro.Persistence.World.{Platform, World}
use distributed_wagering_pro.Wagering.Submit.{Command, Clock, locked_from, locked_wallet}
use distributed_wagering_pro.Prelude.{Option, ◌≡◌, some, arith, ◌∙◌, none, ap}
use distributed_wagering_pro.Wallets.Wallet.{Wallet}
use distributed_wagering_pro.Kernel.Errors.{ok}
use distributed_wagering_pro.Persistence.Effect.{continue-ok}
use distributed_wagering_pro.Wallets.Repository.Reads.{find_by_id-state}

module _ {P : Platform} (cmd : Command) (clock : Clock) where
  locked_from-found :
      (o : Option Wallet) (v w' : World P) (wallet : Wallet)
      → locked_from cmd clock o v ≡ (ok wallet, w')
      → (o ≡ some wallet) × (w'.em ≡ v.em)
  unfolding locked_from
  locked_from-found none v w' wallet h = absurd (ground arith)
  locked_from-found (some x) v w' wallet h = ground arith

  -- The wallet that is locked is the stored one that the request names.
  pub locked_wallet-found :
      (w w' : World P) (wallet : Wallet)
      → locked_wallet cmd clock w ≡ (ok wallet, w')
      → ((find_by_id cmd.wallet_id w).0 ≡ ok (some wallet)) × (w'.em ≡ w.em)
  unfolding locked_wallet
  locked_wallet-found w w' wallet h =
      let (o, found, h') = continue-ok (locked_from cmd clock) (find_by_id cmd.wallet_id w) h in
      let (e, same) = locked_from-found o (find_by_id cmd.wallet_id w).1 w' wallet h' in
      (found ∙ ap ok e, same ∙ ap (λ v. v.em) (find_by_id-state cmd.wallet_id w))
