-- ===== src/Wagering/Submit/Replay.antt =====
-- src/wagering/application/use-cases/submit-wager-transaction.use-case.ts: a request whose
-- idempotency key is taken.
use distributed_wagering_pro.Wallets.Repository.{find_by_id}
use distributed_wagering_pro.Wagering.Repository.{
  find_by_idempotency_key, claim, insert, find_one, has_idempotency_key,
}
use distributed_wagering_pro.Wagering.Submit.{
  Command, Clock, claimed, handle_claim_conflict, create_props, replay, replay_or_conflict,
  Submitted, process_new, execute, locked_wallet, hash_input, on_unique_violation,
}
use distributed_wagering_pro.Wagering.Transaction.{
  create, CreateProps, WagerTransaction, matches_payload, kind_eq, opening,
}
use distributed_wagering_pro.Persistence.World.{Platform, Em, World}
use distributed_wagering_pro.Wagering.Row.{to_transaction_row, TransactionRow}
use distributed_wagering_pro.Prelude.{
  Occurs, ◌≡◌, Text, arith, ◌∙◌, some, sym, if◌then◌else◌, refl, true, Bool-cases, inl, inr, ap,
  false, subst, text_eq_iff, Bool,
}
use distributed_wagering_pro.Kernel.Errors.{
  err, ok, unique_constraint_violation, domain, idempotency_conflict, Result, invariant_violation,
}
use distributed_wagering_pro.Wallets.Wallet.{Wallet}
use distributed_wagering_pro.Persistence.Effect.{
  continue-throws, handle, transactional-throws, throws, catches, transactional,
}
use distributed_wagering_pro.Wagering.PayloadHash.{compute_payload_hash}
use distributed_wagering_pro.Wagering.Submit.Lock.{locked_wallet-found}
use distributed_wagering_pro.Wagering.Repository.Reads.{find_one-found}

-- The unique constraint on `idempotency_key`: a flush with a new row whose key is taken is refused.
abbrev pub RefusesTakenKeys : Platform → Type 0
RefusesTakenKeys P =
    (em : Em P.tables) (row new : TransactionRow)
    → Occurs row (P.tables.transactions.rows em.transactions)
    → row.idempotency_key ≡ new.idempotency_key
    → P.flush (record em { transactions = P.tables.transactions.create new em.transactions })
      ≡ err unique_constraint_violation

-- What a request gets whose key is taken by `tx`.
abbrev pub replayed : Command → Text → WagerTransaction → Wallet → Result Submitted
replayed cmd payload_hash tx wallet =
    if matches_payload payload_hash tx
    then ok (record { transaction = tx; idempotent_replay = true; balance = wallet.balance })
    else err (domain (idempotency_conflict cmd.idempotency_key))

create-key :
    (props : CreateProps) (tx : WagerTransaction)
    → create props ≡ ok tx
    → (to_transaction_row tx).idempotency_key ≡ props.idempotency_key
unfolding create to_transaction_row
create-key props tx h = ground arith

module _ {P : Platform} (unique : RefusesTakenKeys P) (cmd : Command) (clock : Clock) where
  claimed-taken :
      (payload_hash : Text) (w : World P) (row : TransactionRow) (made : WagerTransaction)
      → Occurs row (P.tables.transactions.rows w.em.transactions)
      → row.idempotency_key ≡ cmd.idempotency_key
      → create (create_props cmd payload_hash (P.new_id w.ids) clock.now) ≡ ok made
      → (claimed cmd payload_hash clock w).0 ≡ err unique_constraint_violation
  unfolding claimed claim insert
  claimed-taken payload_hash w row made o k h =
      let taken =
        unique w.em row (to_transaction_row made) o (
          k ∙ sym (create-key (create_props cmd payload_hash (P.new_id w.ids) clock.now) made h)) in
      rw (h, taken) refl

  replay-lem :
      (payload_hash : Text) (w : World P) (tx : WagerTransaction) (wallet : Wallet)
      → (find_by_id tx.wallet_id w).0 ≡ ok (some wallet)
      → ((replay cmd payload_hash tx w).0 ≡ replayed cmd payload_hash tx wallet)
        × ((replay cmd payload_hash tx w).1.em ≡ w.em)
  unfolding replay find_by_id
  replay-lem payload_hash w tx wallet k = elim (Bool-cases (matches_payload payload_hash tx)) [
    | inl e ↦ rw (e, k) (refl, refl)
    | inr e ↦ rw e (refl, refl)
  ]

  handle_claim_conflict-lem :
      (payload_hash : Text) (w : World P) (tx : WagerTransaction) (wallet : Wallet)
      → (find_by_idempotency_key cmd.idempotency_key w).0 ≡ ok (some tx)
      → (find_by_id tx.wallet_id w).0 ≡ ok (some wallet)
      → ((handle_claim_conflict cmd payload_hash w).0 ≡ replayed cmd payload_hash tx wallet)
        × ((handle_claim_conflict cmd payload_hash w).1.em ≡ w.em)
  unfolding handle_claim_conflict replay_or_conflict find_by_idempotency_key
  handle_claim_conflict-lem payload_hash w tx wallet h k =
      rw (h) (replay-lem payload_hash w tx wallet k)

  process_new-taken :
      (payload_hash : Text) (w w₁ : World P) (row : TransactionRow) (made : WagerTransaction)
      (wallet : Wallet)
      → locked_wallet cmd clock w ≡ (ok wallet, w₁)
      → Occurs row (P.tables.transactions.rows w₁.em.transactions)
      → row.idempotency_key ≡ cmd.idempotency_key
      → create (create_props cmd payload_hash (P.new_id w₁.ids) clock.now) ≡ ok made
      → (process_new cmd payload_hash clock w).0 ≡ err unique_constraint_violation
  unfolding process_new
  process_new-taken payload_hash w w₁ row made wallet locked o k h = rw locked (
      continue-throws _ (claimed cmd payload_hash clock w₁)
        (claimed-taken payload_hash w₁ row made o k h))

  -- What is read depends on what is stored alone.
  by_key_of_em :
      (v w : World P) (tx : WagerTransaction)
      → w.em ≡ v.em
      → (find_by_idempotency_key cmd.idempotency_key v).0 ≡ ok (some tx)
      → (find_by_idempotency_key cmd.idempotency_key w).0 ≡ ok (some tx)
  unfolding find_by_idempotency_key find_one
  by_key_of_em v w tx e h = rw e h

  by_id_of_em :
      (id : Text) (v w : World P) (wallet : Wallet)
      → w.em ≡ v.em
      → (find_by_id id v).0 ≡ ok (some wallet)
      → (find_by_id id w).0 ≡ ok (some wallet)
  unfolding find_by_id
  by_id_of_em id v w wallet e h = rw e h

  find_one-by_key :
      (w : World P) (tx : WagerTransaction)
      → (find_by_idempotency_key cmd.idempotency_key w).0 ≡ ok (some tx)
      → (find_one (has_idempotency_key cmd.idempotency_key) w).0 ≡ ok (some tx)
  unfolding find_by_idempotency_key
  find_one-by_key w tx h = h

  rolled_back :
      (payload_hash : Text) (w : World P)
      → kind_eq cmd.kind opening ≡ false
      → compute_payload_hash P (hash_input cmd) ≡ payload_hash
      → (process_new cmd payload_hash clock w).0 ≡ err unique_constraint_violation
      → execute cmd clock w
        ≡ handle_claim_conflict cmd payload_hash
            (record (process_new cmd payload_hash clock w).1 { em = w.em })
  unfolding execute on_unique_violation
  rolled_back payload_hash w kind hashed thrown =
      by_kind (kind_eq cmd.kind opening) (compute_payload_hash P (hash_input cmd)) kind hashed
    where
      by_kind :
          (c : Bool) (hash : Text)
          → c ≡ false
          → hash ≡ payload_hash
          → (if c
                then throws (domain invariant_violation)
                else catches
                    (transactional (process_new cmd hash clock))
                    (on_unique_violation cmd hash))
              w
            ≡ handle_claim_conflict cmd payload_hash
                (record (process_new cmd payload_hash clock w).1 { em = w.em })
      by_kind true hash e f = absurd (ground arith)
      by_kind false hash e f =
          ap (λ t. catches (transactional (process_new cmd t clock)) (on_unique_violation cmd t) w)
            f
          ∙ ap (handle (on_unique_violation cmd payload_hash))
              (transactional-throws (process_new cmd payload_hash clock) w thrown)

  -- If the tables refuse a taken idempotency key, a request of another kind than OPENING, whose
  -- wallet can be locked and from which a transaction can be made, and whose key a stored
  -- transaction of that wallet has, gets that transaction back as a replay with the wallet's
  -- balance if the payload hashes are equal, and an idempotency conflict if not; what is stored
  -- stays as it is.
  pub execute-replays :
      (w w₁ : World P) (tx made : WagerTransaction) (wallet : Wallet)
      → kind_eq cmd.kind opening ≡ false
      → locked_wallet cmd clock w ≡ (ok wallet, w₁)
      → (find_by_idempotency_key cmd.idempotency_key w).0 ≡ ok (some tx)
      → tx.wallet_id ≡ cmd.wallet_id
      → create
          (create_props cmd (compute_payload_hash P (hash_input cmd)) (P.new_id w₁.ids) clock.now)
        ≡ ok made
      → ((execute cmd clock w).0 ≡ replayed cmd (compute_payload_hash P (hash_input cmd)) tx wallet)
        × ((execute cmd clock w).1.em ≡ w.em)
  execute-replays w w₁ tx made wallet kind locked h owner made_from =
      let payload_hash = compute_payload_hash P (hash_input cmd) in
      let w₂ = record (process_new cmd payload_hash clock w).1 { em = w.em } in
      let (found, same) = locked_wallet-found cmd clock w w₁ wallet locked in
      let (row, key, o, _) =
        find_one-found (has_idempotency_key cmd.idempotency_key) w tx (find_one-by_key w tx h) in
      let thrown : (process_new cmd payload_hash clock w).0 ≡ err unique_constraint_violation =
        process_new-taken payload_hash w w₁ row made wallet locked
          (subst (λ em. Occurs row (P.tables.transactions.rows em.transactions)) (sym same) o)
          ((text_eq_iff row.idempotency_key cmd.idempotency_key).0 key) made_from in
      let (result, kept) =
        handle_claim_conflict-lem payload_hash w₂ tx wallet (by_key_of_em w w₂ tx refl h) (
          by_id_of_em tx.wallet_id w w₂ wallet refl
            (ap (λ id. (find_by_id id w).0) owner ∙ found)) in
      let run = rolled_back payload_hash w kind refl thrown in
      (ap (λ x. x.0) run ∙ result, ap (λ x. x.1.em) run ∙ kept)
