-- ===== src/Wagering/Reprocess/Sound.antt =====
-- src/wagering/application/use-cases/reprocess-pending-references.use-case.ts: a run and the rows that
-- the triggers of migrations freeze.
use distributed_wagering_pro.Kernel.Money
use distributed_wagering_pro.Kernel.Errors
use distributed_wagering_pro.Wagering.Reprocess.{run_body, run, process_batch}
use distributed_wagering_pro.Wagering.Row.{TransactionRow, to_wager_transaction}
use distributed_wagering_pro.Prelude.{
  List, Text, ◌≡◌, true, All, arith, Occurs, false, map, subst, ◌∷◌, text_eq_iff, [], sym, ℕ, inl,
  inr, length, ◌∙◌, ap, refl,
}
use distributed_wagering_pro.Kernel.Event.{Timestamp}
use distributed_wagering_pro.Persistence.World.{Platform, World}
use distributed_wagering_pro.Wagering.Transaction.{
  pending_reference, WagerTransaction, is_terminal_status, Status, pending, processed, rejected,
  failed,
}
use distributed_wagering_pro.Wagering.Repository.{
  is_due_pending_reference, status_eq, find_due_pending_reference_batch,
}
use distributed_wagering_pro.Persistence.Effect.{map_rows, continue-ok, ◌>>◌, pure, pair_path}
use distributed_wagering_pro.Persistence.Schema.Keys.{IsKeyed}
use distributed_wagering_pro.Kernel.Errors.{ok, ok_injective, Result, err}
use distributed_wagering_pro.Persistence.Schema.Writes.{
  TransactionChecked, Writes, Open, Owned, Open-IsRule, Writes-mono,
}
use distributed_wagering_pro.Wagering.Finalizer.Writes.{Owns}
use distributed_wagering_pro.Persistence.Ordering.Keys.{
  Occurs-map, Distinct-Only, same_key, All-intro, map-Occurs,
}
use distributed_wagering_pro.Persistence.Balanced.{All-occurs, IsBalanced}
use distributed_wagering_pro.Persistence.Schema.{EnforcesUnique}
use distributed_wagering_pro.Persistence.Schema.Checks.{transaction_checks-nonneg}
use distributed_wagering_pro.Persistence.Schema.Commits.{Sound, transactional-Sound}
use distributed_wagering_pro.Persistence.Table.{Query}
use distributed_wagering_pro.Wagering.Reprocess.Writes.{process_batch-Changes}

abbrev id_of : TransactionRow → Text
id_of r = r.id

read-fields :
    (row : TransactionRow) (tx : WagerTransaction)
    → to_wager_transaction row ≡ ok tx
    → (tx.id ≡ row.id) × (tx.money.minor_units ≡ row.money_amount)
unfolding to_wager_transaction Money.from_minor_units
read-fields row tx h = ground arith

read-Owns :
    (ids : List Text) (rows : List TransactionRow) (batch : List WagerTransaction)
    → map_rows to_wager_transaction rows ≡ ok batch
    → All (λ r. Occurs r.id ids × TransactionChecked r) rows
    → All (Owns ids) batch
read-Owns ids [] batch h own = subst (All (Owns ids)) (ok_injective h) tt
read-Owns ids (row ∷ rows) batch h own =
    by_parts (to_wager_transaction row) (map_rows to_wager_transaction rows) refl h
      (λ rest k. read-Owns ids rows rest k own.1)
  where
    by_parts :
        (x : Result WagerTransaction) (y : Result (List WagerTransaction))
        → to_wager_transaction row ≡ x
        → Errors.◌>>=◌ x (λ a. Errors.◌>>=◌ y λ rest. ok (a ∷ rest)) ≡ ok batch
        → ((rest : List WagerTransaction) → y ≡ ok rest → All (Owns ids) rest)
        → All (Owns ids) batch
    by_parts (err _) y e r k = absurd (cc)
    by_parts (ok tx) (err _) e r k = absurd (cc)
    by_parts (ok tx) (ok rest) e r k =
        let (id, amount) = read-fields row tx e in
        subst (All (Owns ids)) (ok_injective r) (
          (
            (
              subst (λ i. Occurs i ids) (sym id) own.0.0,
              rw amount (transaction_checks-nonneg row own.0.1),
            ),
            k rest refl,
          ))

running :
    (now : Timestamp) (r : TransactionRow)
    → is_due_pending_reference now r ≡ true
    → is_terminal_status r.status ≡ false
running now r h = by_status r.status (ground arith)
  where
    by_status : (s : Status) → status_eq s pending_reference ≡ true → is_terminal_status s ≡ false
    by_status pending k = refl
    by_status pending_reference k = refl
    by_status processed k = absurd (cc)
    by_status rejected k = absurd (cc)
    by_status failed k = absurd (cc)

module _ (P : Platform) (now : Timestamp) (w : World P) where
  -- Only rows that wait for their reference are taken.
  taken-running :
      (found : List TransactionRow)
      → IsKeyed P w.em
      → All
          (λ r.
            (is_due_pending_reference now r ≡ true)
            × Occurs r (P.tables.transactions.rows w.em.transactions))
          found
      → All
          (λ r. Occurs r.id (map id_of found) → is_terminal_status r.status ≡ false)
          (P.tables.transactions.rows w.em.transactions)
  taken-running found keyed h =
      let rows = P.tables.transactions.rows w.em.transactions in
      All-intro (λ r. Occurs r.id (map id_of found) → is_terminal_status r.status ≡ false) rows
        by_row
    where
      by_row :
          (r : TransactionRow)
          → Occurs r (P.tables.transactions.rows w.em.transactions)
          → Occurs r.id (map id_of found)
          → is_terminal_status r.status ≡ false
      by_row r stored o =
          let rows = P.tables.transactions.rows w.em.transactions in
          let (b, taken, id) = Occurs-map id_of found o in
          let (due, b_stored) =
            All-occurs (λ x. (is_due_pending_reference now x ≡ true) × Occurs x rows) found h
              taken in
          let only = Distinct-Only id_of b rows keyed.transactions b_stored in
          let same =
            All-occurs (λ x. same_key id_of x b ≡ true → x ≡ b) rows only stored
              ((text_eq_iff r.id b.id).1 (sym id)) in
          rw same (running now b due)

  run_body-Open :
      (batch_size : ℕ) (w' : World P) (n : ℕ)
      → IsBalanced P w
      → IsKeyed P w.em
      → All TransactionChecked (P.tables.transactions.rows w.em.transactions)
      → run_body batch_size now w ≡ (ok n, w')
      → Writes P Open w.em w'.em
  unfolding run_body find_due_pending_reference_batch
  run_body-Open batch_size w' n b keyed checked h =
      let rows = P.tables.transactions.rows w.em.transactions in
      let query : Query TransactionRow = record {
        passes = is_due_pending_reference now;
        before = λ r s. false;
        limit = batch_size;
      } in
      let found = P.tables.transactions.get_result_list query w.em.transactions in
      let ids = map id_of found in
      let taken = P.tables.transactions.get_result_list-occurs query w.em.transactions in
      let (batch, read, h₁) =
        continue-ok (λ batch. process_batch batch now >> pure (length batch))
          (find_due_pending_reference_batch now batch_size w) h in
      let (_, done, h₂) = continue-ok (λ _. pure (length batch)) (process_batch batch now w) h₁ in
      Writes-mono P (Owned ids) Open (λ r. Occurs r.id ids → is_terminal_status r.status ≡ false)
        w.em w'.em (weaker ids) (taken-running found keyed taken)
        (process_batch-Changes P ids batch now w w'
          (read-Owns ids found batch read (
            All-intro (λ r. Occurs r.id ids × TransactionChecked r) found
              λ r o. (
                map-Occurs id_of found r o,
                All-occurs TransactionChecked rows checked
                    (All-occurs (λ x. (is_due_pending_reference now x ≡ true) × Occurs x rows) found
                      taken o).1,
              )))
          b (pair_path done ∙ ap (λ p. (ok tt, p.1)) h₂))
    where
      weaker :
          (ids : List Text) (r s : TransactionRow)
          → (Occurs r.id ids → is_terminal_status r.status ≡ false)
          → Owned ids r s
          → Open r s
      weaker ids r s q (inl e) = inl e
      weaker ids r s q (inr (o, id, c)) = inr (q o, id, c)

  -- A run changes no transaction that is terminal when it begins, whatever it returns or throws.
  pub run-Sound :
      (batch_size : ℕ)
      → EnforcesUnique P
      → IsBalanced P w
      → IsKeyed P w.em
      → All TransactionChecked (P.tables.transactions.rows w.em.transactions)
      → Sound P Open w.em (run batch_size now w).1.em
  unfolding run
  run-Sound batch_size enforces b keyed checked =
      transactional-Sound P enforces Open-IsRule (run_body batch_size now) w keyed
        λ n w' h _. run_body-Open batch_size w' n b keyed checked h
