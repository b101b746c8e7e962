-- ===== src/Wagering/Reprocess/Writes.antt =====
-- src/wagering/application/use-cases/reprocess-pending-references.use-case.ts: what a run writes, under
-- the constraints and triggers of migrations.
use distributed_wagering_pro.Wallets.Repository.{find_by_id}
use distributed_wagering_pro.Wagering.Reprocess.{
  apply_resolved, retry_or_time_out, act_on, retry_context, process_one, process_batch,
}
use distributed_wagering_pro.Persistence.World.{Platform, World, App, Em}
use distributed_wagering_pro.Prelude.{
  List, Text, Option, All, ◌≡◌, ◌+◌, some, none, sym, codes, ap, ◌∷◌, [], subst, Bool,
  if◌then◌else◌, refl, leb, true, false,
}
use distributed_wagering_pro.Wagering.Transaction.{WagerTransaction}
use distributed_wagering_pro.Wagering.Finalizer.Writes.{
  Owns, Changes, rule, reject-Changes, mark_pending_reference-Changes,
}
use distributed_wagering_pro.Kernel.Event.{Timestamp, EventContext, reference_resolution_timeout}
use distributed_wagering_pro.Wagering.Finalizer.{apply_effect, reject, mark_pending_reference}
use distributed_wagering_pro.Wagering.Resolution.{
  ReferenceResolution, resolved, resolve_reference, refused, unresolved,
}
use distributed_wagering_pro.Kernel.Errors.{Result, ok, err}
use distributed_wagering_pro.Persistence.Balanced.{IsBalanced, RowBalanced}
use distributed_wagering_pro.Wallets.Wallet.{Wallet}
use distributed_wagering_pro.Persistence.Effect.{
  continue, ◌>>◌, ◌>>=◌, increment_counter, continue-ok, pure, pair_path,
}
use distributed_wagering_pro.Wallets.Wallet.Laws.{IsValid}
use distributed_wagering_pro.Persistence.Schema.Writes.{Writes-refl, continue-Writes, Writes-trans}
use distributed_wagering_pro.Wagering.Finalizer.Untouched.{resolve_reference-em}
use distributed_wagering_pro.Wagering.Finalizer.Settles.{apply_effect-Changes}
use distributed_wagering_pro.Wagering.Reprocess.Balance.{process_one-IsBalanced}
use distributed_wagering_pro.Wagering.Backoff.{max_reference_retry_attempts}
use distributed_wagering_pro.Wallets.Repository.Reads.{find_by_id-state, find_by_id-Agrees}

module _ (P : Platform) (ids : List Text) where
  module _ (tx : WagerTransaction) (own : Owns ids tx) where
    apply_resolved-Changes :
        (reference : WagerTransaction) (ctx : EventContext) (found : Option Wallet) (w : World P)
        → ((wallet : Wallet) → found ≡ some wallet → IsValid wallet)
        → Changes P ids w.em (apply_resolved tx reference ctx found w).1.em
    unfolding apply_resolved
    apply_resolved-Changes reference ctx none w valid = Writes-refl P (rule P ids) w.em
    apply_resolved-Changes reference ctx (some wallet) w valid =
        continue-Writes P (rule P ids) w.em _ (apply_effect tx wallet (some reference) ctx w)
          (apply_effect-Changes P ids tx own ctx wallet (some reference) w (valid wallet refl))
          λ _ v _. Writes-refl P (rule P ids) v.em

    retry_or_time_out-Changes :
        (ctx : EventContext) (w : World P) → Changes P ids w.em (retry_or_time_out tx ctx w).1.em
    unfolding retry_or_time_out
    retry_or_time_out-Changes ctx w =
        by_attempts (leb max_reference_retry_attempts tx.reference_retry_attempts)
      where
        counted : Text → WagerTransaction → App P WagerTransaction
        counted label marked = do
          increment_counter (codes "pending_reference_retries_total") (label ∷ [])
          pure marked

        by_attempts :
            (t : Bool)
            → Changes P ids w.em
                ((if t
                    then reject tx reference_resolution_timeout ctx >>= counted (codes "timeout")
                    else mark_pending_reference tx ctx >>= counted (codes "rescheduled"))
                  w).1.em
        by_attempts true =
            continue-Writes P (rule P ids) w.em (counted (codes "timeout"))
              (reject tx reference_resolution_timeout ctx w)
              (reject-Changes P ids tx reference_resolution_timeout ctx w own)
              λ _ v _. Writes-refl P (rule P ids) v.em
        by_attempts false =
            continue-Writes P (rule P ids) w.em (counted (codes "rescheduled"))
              (mark_pending_reference tx ctx w) (mark_pending_reference-Changes P ids tx ctx w own)
              λ _ v _. Writes-refl P (rule P ids) v.em

    -- The wallet that the call reads is valid in a balanced state.
    with_wallet-Changes :
        (reference : WagerTransaction) (ctx : EventContext) (w : World P)
        (r : Result (Option Wallet) × World P)
        → r.1 ≡ w
        → ((wallet : Wallet) → r.0 ≡ ok (some wallet) → IsValid wallet)
        → Changes P ids w.em (continue (apply_resolved tx reference ctx) r).1.em
    with_wallet-Changes reference ctx w (err e, v) same valid =
        rw same (Writes-refl P (rule P ids) w.em)
    with_wallet-Changes reference ctx w (ok found, v) same valid =
        subst (λ (u : World P). Changes P ids u.em (apply_resolved tx reference ctx found v).1.em)
          same (apply_resolved-Changes reference ctx found v λ wallet e. valid wallet (ap ok e))

    act_on-Changes :
        (o : ReferenceResolution) (ctx : EventContext) (w : World P)
        → IsBalanced P w
        → Changes P ids w.em (act_on o tx ctx w).1.em
    unfolding act_on
    act_on-Changes (resolved reference) ctx w b =
        with_wallet-Changes reference ctx w (find_by_id tx.wallet_id w)
          (find_by_id-state tx.wallet_id w)
          λ wallet read. (find_by_id-Agrees tx.wallet_id w wallet b read).0.valid
    act_on-Changes (refused failure) ctx w b = reject-Changes P ids tx failure ctx w own
    act_on-Changes unresolved ctx w b = retry_or_time_out-Changes ctx w

    resolved-Changes :
        (ctx : EventContext) (w : World P) (r : Result ReferenceResolution × World P)
        → r.1.em ≡ w.em
        → IsBalanced P w
        → Changes P ids w.em (continue (λ o. act_on o tx ctx) r).1.em
    resolved-Changes ctx w (err e, v) same b = rw same (Writes-refl P (rule P ids) w.em)
    resolved-Changes ctx w (ok o, v) same b =
        subst (λ em. Changes P ids em (act_on o tx ctx v).1.em) same
          (act_on-Changes o ctx v (
            subst
              (λ (em : Em P.tables).
                All (RowBalanced (P.tables.ledger.rows em.ledger))
                  (P.tables.wallets.rows em.wallets))
              (sym same) b))

    process_one-Changes :
        (now : Timestamp) (w : World P)
        → IsBalanced P w
        → Changes P ids w.em (process_one tx now w).1.em
    unfolding process_one retry_context
    process_one-Changes now w b =
        let v : World P = record w { ids = w.ids + 1 } in
        resolved-Changes
          (record { correlation_id = P.new_id w.ids; causation_id = none; now = now }) v
          (resolve_reference tx v) (resolve_reference-em tx v) b

  pub process_batch-Changes :
      (batch : List WagerTransaction) (now : Timestamp) (w w' : World P)
      → All (Owns ids) batch
      → IsBalanced P w
      → process_batch batch now w ≡ (ok tt, w')
      → Changes P ids w.em w'.em
  unfolding process_batch
  process_batch-Changes [] now w w' own b h =
      rw (sym (ap (λ p. p.1) h)) (Writes-refl P (rule P ids) w.em)
  process_batch-Changes (tx ∷ batch) now w w' own b h =
      let (r, done, h') = continue-ok _ (process_one tx now w) h in
      let w₁ = (process_one tx now w).1 in
      Writes-trans P (rule P ids) w.em w₁.em w'.em (process_one-Changes tx own.0 now w b) (
        process_batch-Changes batch now w₁ w' own.1
          (process_one-IsBalanced tx now w w₁ r b (pair_path done)) h')
