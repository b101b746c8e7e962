-- ===== src/Wagering/Submit/Balance.antt =====
-- src/wagering/application/use-cases/submit-wager-transaction.use-case.ts: requests and the
-- stored balances.
use distributed_wagering_pro.Wagering.Submit.{
  execute, Submitted, Command, Clock, locked_wallet, claimed, event_context, settle_claimed,
  resolve, process_new, on_unique_violation, hash_input,
}
use distributed_wagering_pro.Persistence.World.{Platform, World, App}
use distributed_wagering_pro.Prelude.{
  Text, arith, ◌≡◌, Bool-cases, inl, some, subst, ◌∙◌, ap, none, inr, Bool, if◌then◌else◌, true,
  false,
}
use distributed_wagering_pro.Wagering.Transaction.{
  WagerTransaction, requires_reference, kind_eq, opening,
}
use distributed_wagering_pro.Wallets.Wallet.{Wallet}
use distributed_wagering_pro.Persistence.Balanced.{
  IsBalanced, Agrees, SameMoney, SameMoney-IsBalanced, SameMoney-Agrees, SameMoney-trans,
  transactional-IsBalanced,
}
use distributed_wagering_pro.Kernel.Event.{EventContext}
use distributed_wagering_pro.Kernel.Errors.{ok, Error, domain, invariant_violation}
use distributed_wagering_pro.Wagering.Finalizer.{mark_pending_reference, reject}
use distributed_wagering_pro.Wagering.Resolution.{
  resolved, ReferenceResolution, resolve_reference, refused, unresolved,
}
use distributed_wagering_pro.Persistence.Effect.{
  continue-ok, pure, pair_path, handle-keeps, transactional, throws, catches,
}
use distributed_wagering_pro.Wallets.Repository.Reads.{find_by_id-Agrees}
use distributed_wagering_pro.Wagering.Finalizer.Untouched.{
  resolve_reference-SameMoney, mark_pending_reference-SameMoney, reject-SameMoney,
}
use distributed_wagering_pro.Wagering.Finalizer.Balance.{apply_effect-IsBalanced}
use distributed_wagering_pro.Wagering.PayloadHash.{compute_payload_hash}
use distributed_wagering_pro.Wagering.Submit.Lock.{locked_wallet-found}

module _ {P : Platform} (cmd : Command) (clock : Clock) where
  pub locked_wallet_lem :
      (w w' : World P) (wallet : Wallet)
      → IsBalanced P w
      → locked_wallet cmd clock w ≡ (ok wallet, w')
      → Agrees w wallet × SameMoney w w'
  locked_wallet_lem w w' wallet b h =
      let (found, same) = locked_wallet-found cmd clock w w' wallet h in
      (
        (find_by_id-Agrees cmd.wallet_id w wallet b found).0,
        (ap (λ em. em.wallets) same, ap (λ em. em.ledger) same),
      )

  claimed-SameMoney :
      (payload_hash : Text) (w : World P) → SameMoney w (claimed cmd payload_hash clock w).1
  unfolding claimed
  claimed-SameMoney payload_hash w = ground arith

  event_context-SameMoney : (w : World P) → SameMoney w (event_context cmd clock w).1
  unfolding event_context
  event_context-SameMoney w = ground arith

  resolve-IsBalanced :
      (o : ReferenceResolution) (tx : WagerTransaction) (wallet : Wallet) (ctx : EventContext)
      (w w' : World P) (r : WagerTransaction × Wallet)
      → IsBalanced P w
      → Agrees w wallet
      → resolve o tx wallet ctx w ≡ (ok r, w')
      → IsBalanced P w'
  unfolding resolve
  resolve-IsBalanced unresolved tx wallet ctx w w' r b a h =
      let (_, _, h') = continue-ok (λ t. pure (t, wallet)) (mark_pending_reference tx ctx w) h in
      SameMoney-IsBalanced w w'
        (subst (SameMoney w) (ap (λ p. p.1) h') (mark_pending_reference-SameMoney tx w ctx)) b
  resolve-IsBalanced (refused c) tx wallet ctx w w' r b a h =
      let (_, _, h') = continue-ok (λ t. pure (t, wallet)) (reject tx c ctx w) h in
      SameMoney-IsBalanced w w'
        (subst (SameMoney w) (ap (λ p. p.1) h') (reject-SameMoney tx w c ctx)) b
  resolve-IsBalanced (resolved reference) tx wallet ctx w w' r b a h =
      apply_effect-IsBalanced tx wallet (some reference) ctx w w' r b a h

  settle_claimed-IsBalanced :
      (tx : WagerTransaction) (wallet : Wallet) (ctx : EventContext) (w w' : World P)
      (r : WagerTransaction × Wallet)
      → IsBalanced P w
      → Agrees w wallet
      → settle_claimed tx wallet ctx w ≡ (ok r, w')
      → IsBalanced P w'
  unfolding settle_claimed
  settle_claimed-IsBalanced tx wallet ctx w w' r b a h = elim (Bool-cases (requires_reference tx)) [
    | inl needs ↦
        let (resolution, _, h') =
          continue-ok (λ o. resolve o tx wallet ctx) (resolve_reference tx w) (rw needs at h) in
        let same = resolve_reference-SameMoney tx w in
        resolve-IsBalanced resolution tx wallet ctx (resolve_reference tx w).1 w' r
          (SameMoney-IsBalanced w (resolve_reference tx w).1 same b)
          (SameMoney-Agrees w (resolve_reference tx w).1 wallet same a) h'
    | inr alone ↦ apply_effect-IsBalanced tx wallet none ctx w w' r b a (rw alone at h)
  ]

  process_new-IsBalanced :
      (payload_hash : Text) (w w' : World P) (r : Submitted)
      → IsBalanced P w
      → process_new cmd payload_hash clock w ≡ (ok r, w')
      → IsBalanced P w'
  unfolding process_new
  process_new-IsBalanced payload_hash w w' r b h =
      let w₁ = (locked_wallet cmd clock w).1 in
      let w₂ = (claimed cmd payload_hash clock w₁).1 in
      let w₃ = (event_context cmd clock w₂).1 in
      let (wallet, found, h₁) = continue-ok _ (locked_wallet cmd clock w) h in
      let (tx, _, h₂) = continue-ok _ (claimed cmd payload_hash clock w₁) h₁ in
      let (ctx, _, h₃) = continue-ok _ (event_context cmd clock w₂) h₂ in
      let (settled, done, h₄) = continue-ok _ (settle_claimed tx wallet ctx w₃) h₃ in
      let (a, same) = locked_wallet_lem w w₁ wallet b (pair_path found) in
      let same₃ : SameMoney w w₃ =
        SameMoney-trans w w₂ w₃ (SameMoney-trans w w₁ w₂ same (claimed-SameMoney payload_hash w₁))
          (event_context-SameMoney w₂) in
      settle_claimed-IsBalanced tx wallet ctx w₃ w' settled (SameMoney-IsBalanced w w₃ same₃ b)
        (SameMoney-Agrees w w₃ wallet same₃ a) (pair_path done ∙ ap (λ p. (ok settled, p.1)) h₄)

  -- A replay only reads.
  on_unique_violation-SameMoney :
      (payload_hash : Text) (e : Error) (w : World P)
      → SameMoney w (on_unique_violation cmd payload_hash e w).1
  unfolding on_unique_violation
  on_unique_violation-SameMoney payload_hash e w = ground arith

  -- Submitting a transaction in a state where every stored balance is the signed sum of its
  -- wallet's ledger rows and not negative leaves such a state, whatever the call returns or
  -- throws.
  pub execute-IsBalanced : (w : World P) → IsBalanced P w → IsBalanced P (execute cmd clock w).1
  unfolding execute
  execute-IsBalanced w b = by_kind (kind_eq cmd.kind opening)
    where
      payload_hash : Text
      payload_hash = compute_payload_hash P (hash_input cmd)

      conflict : Error → App P Submitted
      conflict = on_unique_violation cmd payload_hash

      by_kind :
          (is_opening : Bool)
          → IsBalanced P
              ((if is_opening
                  then throws (domain invariant_violation)
                  else catches (transactional (process_new cmd payload_hash clock)) conflict)
                w).1
      by_kind true = b
      by_kind false =
          handle-keeps (IsBalanced P) conflict
            (transactional (process_new cmd payload_hash clock) w)
            (λ e v kept.
              SameMoney-IsBalanced v (conflict e v).1
                (on_unique_violation-SameMoney payload_hash e v) kept)
            (transactional-IsBalanced (process_new cmd payload_hash clock) w b
              (λ r w' h. process_new-IsBalanced payload_hash w w' r b h))
