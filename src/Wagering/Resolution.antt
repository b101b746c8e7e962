-- ===== src/Wagering/Resolution.antt =====
-- src/wagering/application/reference-resolution.ts, and `resolveReference` of
-- wager-transaction-finalizer.ts: which stored transaction a refund or a rollback refers to.
pub mod Reference
pub mod Resolves
pub mod Reversed
use distributed_wagering_pro.Kernel.Money
use distributed_wagering_pro.Wagering.Repository
use distributed_wagering_pro.Wagering.Transaction.{
  WagerTransaction, Kind, Status, kind_eq, is_falsy, refund,
}
use distributed_wagering_pro.Prelude.{
  Option, Bool, Text, true, text_eq, if◌then◌else◌, [], some, false, ◌&&◌, not, none,
}
use distributed_wagering_pro.Persistence.World.{Platform, App}
use distributed_wagering_pro.Kernel.Event.{
  FailureCode, reference_already_reversed, reference_invalid_state, reference_amount_mismatch,
  reference_mismatch, reference_invalid_kind,
}
use distributed_wagering_pro.Kernel.Errors.{domain, invariant_violation}
use distributed_wagering_pro.Persistence.Effect.{pure, throws, ◌>>=◌}
use distributed_wagering_pro.Kernel.Money.{Money}
use distributed_wagering_pro.Wagering.Transaction.{
  bet, pending, win, pending_reference, rejected, failed, processed,
}

pub data ReferenceResolution : Type 0 where
  resolved : WagerTransaction → ReferenceResolution
  unresolved : ReferenceResolution
  refused : FailureCode → ReferenceResolution

-- REVERSAL_ALLOWED_REFERENCE_KINDS
abbrev reversal_allowed : Kind → Bool
reversal_allowed bet = true
reversal_allowed win = true
reversal_allowed refund = true
reversal_allowed _ = false

unfoldable pub same_owner : WagerTransaction → WagerTransaction → Bool
same_owner reference tx =
    text_eq reference.player_id tx.player_id
    && (text_eq reference.wallet_id tx.wallet_id
        && (text_eq reference.round_id tx.round_id
            && text_eq reference.money.currency tx.money.currency))

unfoldable pub valid_kind : Kind → Kind → Bool
valid_kind kind reference =
    if kind_eq kind refund then kind_eq reference bet else reversal_allowed reference

abbrev pub text_of : Option Text → Text
text_of none = []
text_of (some s) = s

module _ {P : Platform} where
  -- The last check: has the reference been reversed by this kind of transaction already?
  reversal_verdict : WagerTransaction → Option WagerTransaction → App P ReferenceResolution
  reversal_verdict reference none = pure (resolved reference)
  reversal_verdict reference (some _) = pure (refused reference_already_reversed)

  pub check_reversal : WagerTransaction → WagerTransaction → App P ReferenceResolution
  unfolding reversal_verdict Repository.find_processed_reversal Money.equals
  check_reversal tx reference =
      if not (Money.equals tx.money reference.money)
      then pure (refused reference_amount_mismatch)
      else do
        reversal ← Repository.find_processed_reversal reference.id tx.kind
        reversal_verdict reference reversal

  check_status : Status → WagerTransaction → WagerTransaction → App P ReferenceResolution
  unfolding check_reversal
  check_status pending tx reference = pure unresolved
  check_status pending_reference tx reference = pure unresolved
  check_status rejected tx reference = pure (refused reference_invalid_state)
  check_status failed tx reference = pure (refused reference_invalid_state)
  check_status processed tx reference = check_reversal tx reference

  check_found : WagerTransaction → Option WagerTransaction → App P ReferenceResolution
  unfolding check_status same_owner valid_kind
  check_found tx none = pure unresolved
  check_found tx (some reference) =
      if not (same_owner reference tx)
      then pure (refused reference_mismatch)
      else if not (valid_kind tx.kind reference.kind)
      then pure (refused reference_invalid_kind)
      else check_status reference.status tx reference

  unfoldable pub resolve_reference : WagerTransaction → App P ReferenceResolution
  unfolding check_found Repository.find_by_provider_and_external_id
  resolve_reference tx =
      if is_falsy tx.reference_external_transaction_id
      then throws (domain invariant_violation)
      else do
        reference ←
            Repository.find_by_provider_and_external_id tx.provider_id
              (text_of tx.reference_external_transaction_id)
        check_found tx reference
