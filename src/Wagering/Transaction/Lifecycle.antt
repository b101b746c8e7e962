-- ===== src/Wagering/Transaction/Lifecycle.antt =====
-- src/wagering/domain/wager-transaction.ts: the states of a transaction.
use distributed_wagering_pro.Wagering.Transaction.{
  WagerTransaction, CreateProps, CreateOpeningProps, create, create_opening, mark_processed,
  mark_pending_reference, reject, fail, is_terminal, Status, pending, pending_reference, processed,
  rejected, failed,
}
use distributed_wagering_pro.Prelude.{
  Option, ◌≡◌, Text, none, false, ◌≤◌, arith, ◌≢◌, true, ◌∙◌, ap, refl,
}
use distributed_wagering_pro.Kernel.Event.{Timestamp, FailureCode}
use distributed_wagering_pro.Kernel.Errors.{ok}

-- A successful call of one of the four transitions.
pub data Step (tx tx' : WagerTransaction) : Type 0 where
  processes : (r : Option Text) (at : Timestamp) → mark_processed r at tx ≡ ok tx' → Step tx tx'
  parks : (t : Timestamp) → mark_pending_reference t tx ≡ ok tx' → Step tx tx'
  rejects : (c : FailureCode) (at : Timestamp) → reject c at tx ≡ ok tx' → Step tx tx'
  fails : (c : FailureCode) (at : Timestamp) → fail c at tx ≡ ok tx' → Step tx tx'

pub data Reach (tx : WagerTransaction) : WagerTransaction → Type 0 where
  here : Reach tx tx
  next : {t u : WagerTransaction} → Reach tx t → Step t u → Reach tx u

-- Which fields a transaction has in each state.
abbrev pub FieldsFit : Status → WagerTransaction → Type 0
FieldsFit pending tx =
    (tx.reference_retry_attempts ≡ 0)
    × (tx.next_reference_retry_at ≡ none)
    × (tx.reference_transaction_id ≡ none)
    × (tx.failure_code ≡ none)
    × (tx.processed_at ≡ none)
FieldsFit pending_reference tx =
    (1 ≤ tx.reference_retry_attempts)
    × (tx.next_reference_retry_at ≢ none)
    × (tx.reference_transaction_id ≡ none)
    × (tx.failure_code ≡ none)
    × (tx.processed_at ≡ none)
FieldsFit processed tx = (tx.failure_code ≡ none) × (tx.processed_at ≢ none)
FieldsFit rejected tx =
    (tx.failure_code ≢ none) × (tx.processed_at ≢ none) × (tx.reference_transaction_id ≡ none)
FieldsFit failed tx =
    (tx.failure_code ≢ none) × (tx.processed_at ≢ none) × (tx.reference_transaction_id ≡ none)

abbrev pub IsWellFormed : WagerTransaction → Type 0
IsWellFormed tx = FieldsFit tx.status tx

-- A step keeps the props, and the fields that it leaves fit the new state.
pub Step-IsWellFormed :
    {tx tx' : WagerTransaction}
    → Step tx tx'
    → IsWellFormed tx
    → IsWellFormed tx' × (tx'.props ≡ tx.props)
unfolding mark_processed mark_pending_reference reject fail
Step-IsWellFormed {tx} (processes r at h) w = ground arith
Step-IsWellFormed {tx} (parks t h) w = ground arith
Step-IsWellFormed {tx} (rejects c at h) w = ground arith
Step-IsWellFormed {tx} (fails c at h) w = ground arith

-- A created transaction is pending, with the props that it was given, and its fields fit that state.
pub create-IsWellFormed :
    (props : CreateProps) {tx : WagerTransaction}
    → create props ≡ ok tx
    → IsWellFormed tx × (tx.props ≡ props) × (tx.status ≡ pending)
unfolding create
create-IsWellFormed props h = ground arith

-- An opening transaction fits its state.
pub create_opening-IsWellFormed : (o : CreateOpeningProps) → IsWellFormed (create_opening o)
unfolding create_opening
create_opening-IsWellFormed o = ground arith

-- Whatever transitions are called on a transaction that create returned, its fields fit its state,
-- and what it was created with stays.
pub Reach-IsWellFormed :
    (props : CreateProps) {tx tx' : WagerTransaction}
    → create props ≡ ok tx
    → Reach tx tx'
    → IsWellFormed tx' × (tx'.props ≡ props)
Reach-IsWellFormed props h here = let c = create-IsWellFormed props h in (c.0, c.1)
Reach-IsWellFormed props h (next r s) =
    let (w, e) = Reach-IsWellFormed props h r in
    let (w', e') = Step-IsWellFormed s w in (w', e' ∙ e)

Step-live : {tx tx' : WagerTransaction} → Step tx tx' → is_terminal tx ≡ false
unfolding mark_processed mark_pending_reference reject fail
Step-live {tx} (processes r at h) = ground arith
Step-live {tx} (parks t h) = ground arith
Step-live {tx} (rejects c at h) = ground arith
Step-live {tx} (fails c at h) = ground arith

-- No series of transitions changes a transaction that is in a terminal state.
pub terminal_is_final :
    {tx tx' : WagerTransaction} → is_terminal tx ≡ true → Reach tx tx' → tx' ≡ tx
terminal_is_final h here = refl
terminal_is_final h (next r s) =
    let e = terminal_is_final h r in absurd (cc (ap is_terminal e, Step-live s))
