-- ===== src/Wagering/Submit/Writes.antt =====
-- src/wagering/application/use-cases/submit-wager-transaction.use-case.ts: what a request writes, under
-- the constraints and triggers of migrations.
use distributed_wagering_pro.Wagering.Transaction
use distributed_wagering_pro.Wagering.Finalizer
use distributed_wagering_pro.Wagering.Resolution
use distributed_wagering_pro.Prelude.{
  Text, List, ◌≢◌, ◌++◌, ◌∷◌, ◌≡◌, [], arith, All, false, text_eq_iff, sym, pos, ◌≤ℤ◌, Bool,
  if◌then◌else◌, ◌∙◌, none, ap, true, some, inl, subst, refl, inr,
}
use distributed_wagering_pro.Persistence.World.{Platform, same_transaction, World, App, Em}
use distributed_wagering_pro.Wagering.Row.{TransactionRow, to_transaction_row}
use distributed_wagering_pro.Wagering.Submit.{
  Command, Clock, event_context, on_unique_violation, claimed, create_props, process_new, resolve,
  settle_claimed, Submitted, locked_wallet, execute, hash_input,
}
use distributed_wagering_pro.Persistence.Ordering.{Distinct}
use distributed_wagering_pro.Wagering.Transaction.{
  WagerTransaction, requires_reference, kind_eq, opening,
}
use distributed_wagering_pro.Kernel.Errors.{Error, ok, domain, invariant_violation}
use distributed_wagering_pro.Wagering.Finalizer.Writes.{
  Owns, Changes, rule, mark_pending_reference-Changes, reject-Changes, row-TransactionChecked,
}
use distributed_wagering_pro.Persistence.Schema.{EnforcesUnique}
use distributed_wagering_pro.Wallets.Wallet.{Wallet}
use distributed_wagering_pro.Wallets.Wallet.Laws.{IsValid}
use distributed_wagering_pro.Kernel.Event.{EventContext}
use distributed_wagering_pro.Wagering.Resolution.{ReferenceResolution, refused, resolved}
use distributed_wagering_pro.Persistence.Balanced.{IsBalanced}
use distributed_wagering_pro.Persistence.Schema.Writes.{
  continue-Writes, Writes, Owned, Writes-refl, Writes-mono, Writes-trans, Writes-claim,
}
use distributed_wagering_pro.Persistence.Effect.{
  ◌>>=◌, pure, continue-ok, pair_path, throws, catches, transactional, handle-keeps,
}
use distributed_wagering_pro.Wagering.Finalizer.Settles.{apply_effect-Changes}
use distributed_wagering_pro.Wagering.Submit.Balance.{locked_wallet_lem}
use distributed_wagering_pro.Wagering.Submit.Lock.{locked_wallet-found}
use distributed_wagering_pro.Wagering.Resolution.{unresolved}
use distributed_wagering_pro.Persistence.Schema.Keys.{flushed-IsKeyed, IsKeyed}
use distributed_wagering_pro.Persistence.Schema.Commits.{Sound, transactional-Sound}
use distributed_wagering_pro.Wagering.PayloadHash.{compute_payload_hash}
use distributed_wagering_pro.Wagering.Finalizer.Untouched.{resolve_reference-em}

-- No stored row has the id.
abbrev Unused : Text → TransactionRow → Type 0
Unused id r = r.id ≢ id

Distinct-last :
    (rows : List TransactionRow) (new : TransactionRow)
    → Distinct same_transaction (rows ++ new ∷ [])
    → All (Unused new.id) rows
Distinct-last [] new d = tt
Distinct-last (r ∷ rows) new d = (unused, Distinct-last rows new d.1)
  where
    apart :
        (rs : List TransactionRow)
        → All (λ s. same_transaction s r ≡ false) (rs ++ new ∷ [])
        → same_transaction new r ≡ false
    apart [] h = h.0
    apart (s ∷ rs) h = apart rs h.1

    unused : r.id ≢ new.id
    unused e = cc (apart rows d.0, (text_eq_iff new.id r.id).1 (sym e))

module _ (P : Platform) (cmd : Command) (clock : Clock) where
  event_context-em : (w : World P) → (event_context cmd clock w).1.em ≡ w.em
  unfolding event_context
  event_context-em w = ground arith

  on_unique_violation-em :
      (payload_hash : Text) (e : Error) (w : World P)
      → (on_unique_violation cmd payload_hash e w).1.em ≡ w.em
  unfolding on_unique_violation
  on_unique_violation-em payload_hash e w = ground arith

  claimed_lem :
      (payload_hash : Text) (w w' : World P) (tx : WagerTransaction)
      → claimed cmd payload_hash clock w ≡ (ok tx, w')
      → (w'.em ≡ record w.em {
        transactions = P.tables.transactions.create (to_transaction_row tx) w.em.transactions;
      })
        × (P.flush w'.em ≡ ok tt)
        × (tx.money ≡ cmd.money)
  unfolding claimed Transaction.create create_props
  claimed_lem payload_hash w w' tx h = ground arith

  module _ (ids : List Text) (tx : WagerTransaction) (own : Owns ids tx) (wallet : Wallet)
      (valid : IsValid wallet) (ctx : EventContext) where
    resolve-Changes :
        (o : ReferenceResolution) (w : World P)
        → Changes P ids w.em (resolve o tx wallet ctx w).1.em
    unfolding resolve
    resolve-Changes unresolved w =
        continue-Writes P (rule P ids) w.em (λ t. pure (t, wallet))
          (Finalizer.mark_pending_reference tx ctx w)
          (mark_pending_reference-Changes P ids tx ctx w own)
          λ _ v _. Writes-refl P (rule P ids) v.em
    resolve-Changes (refused failure) w =
        continue-Writes P (rule P ids) w.em (λ t. pure (t, wallet))
          (Finalizer.reject tx failure ctx w) (reject-Changes P ids tx failure ctx w own)
          λ _ v _. Writes-refl P (rule P ids) v.em
    resolve-Changes (resolved reference) w =
        apply_effect-Changes P ids tx own ctx wallet (some reference) w valid

    settle_claimed-Changes :
        (w : World P) → Changes P ids w.em (settle_claimed tx wallet ctx w).1.em
    unfolding settle_claimed
    settle_claimed-Changes w = by_kind (requires_reference tx)
      where
        with_reference : App P (WagerTransaction × Wallet)
        with_reference = do
          resolution ← Resolution.resolve_reference tx
          resolve resolution tx wallet ctx

        by_kind :
            (t : Bool)
            → Changes P ids w.em
                ((if t then with_reference else Finalizer.apply_effect tx wallet none ctx) w).1.em
        by_kind true =
            continue-Writes P (rule P ids) w.em (λ o. resolve o tx wallet ctx)
              (Resolution.resolve_reference tx w)
              (rw (resolve_reference-em tx w) (Writes-refl P (rule P ids) w.em))
              λ o v _. resolve-Changes o v
        by_kind false = apply_effect-Changes P ids tx own ctx wallet none w valid

  -- The database with the new row.
  abbrev after : WagerTransaction → Em P.tables → Em P.tables
  after tx em = record em {
    transactions = P.tables.transactions.create (to_transaction_row tx) em.transactions;
  }

  -- Its id is that of no other row, so what changes later is the new row alone.
  claim_alone :
      (tx : WagerTransaction) (em em' : Em P.tables)
      → EnforcesUnique P
      → P.flush (after tx em) ≡ ok tt
      → Owns (tx.id ∷ []) tx
      → Changes P (tx.id ∷ []) (after tx em) em'
      → Writes P (Owned []) em em'
  unfolding to_transaction_row
  claim_alone tx em em' enforces flushed own rest =
      let row = to_transaction_row tx in
      let rows = P.tables.transactions.rows em.transactions in
      let keyed = (flushed-IsKeyed {P = P} enforces (after tx em) flushed).transactions in
      Writes-mono P (Owned (tx.id ∷ [])) (Owned []) (Unused tx.id) em em' others
        (Distinct-last rows row (
          subst (Distinct same_transaction) (P.tables.transactions.rows-create row em.transactions)
            keyed))
        (Writes-trans P (rule P (tx.id ∷ [])) em (after tx em) em'
          (Writes-claim P (rule P (tx.id ∷ [])) row em (row-TransactionChecked (tx.id ∷ []) tx own))
          rest)
    where
      others : (r s : TransactionRow) → Unused tx.id r → Owned (tx.id ∷ []) r s → Owned [] r s
      others r s unused (inl e) = inl e
      others r s unused (inr (inl e, _, _)) = absurd (unused (sym e))
      others r s unused (inr (inr o, _, _)) = absurd o

  module _ (enforces : EnforcesUnique P) (nonneg : pos 0 ≤ℤ cmd.money.minor_units) where
    -- A request changes no transaction that is stored before it: it adds its own.
    process_new-Writes :
        (payload_hash : Text) (w w' : World P) (r : Submitted)
        → IsBalanced P w
        → process_new cmd payload_hash clock w ≡ (ok r, w')
        → Writes P (Owned []) w.em w'.em
    unfolding process_new
    process_new-Writes payload_hash w w' r b h =
        let w₁ = (locked_wallet cmd clock w).1 in
        let w₂ = (claimed cmd payload_hash clock w₁).1 in
        let w₃ = (event_context cmd clock w₂).1 in
        let (wallet, found, h₁) = continue-ok _ (locked_wallet cmd clock w) h in
        let (tx, made, h₂) = continue-ok _ (claimed cmd payload_hash clock w₁) h₁ in
        let (ctx, _, h₃) = continue-ok _ (event_context cmd clock w₂) h₂ in
        let (settled, done, h₄) = continue-ok _ (settle_claimed tx wallet ctx w₃) h₃ in
        let (a, _) = locked_wallet_lem cmd clock w w₁ wallet b (pair_path found) in
        let read = (locked_wallet-found cmd clock w w₁ wallet (pair_path found)).1 in
        let (stored, flushed, money) = claimed_lem payload_hash w₁ w₂ tx (pair_path made) in
        let own : Owns (tx.id ∷ []) tx = (inl refl, rw money nonneg) in
        let stored' : w₂.em ≡ after tx w.em = stored ∙ ap (after tx) read in
        claim_alone tx w.em w'.em enforces (subst (λ em. P.flush em ≡ ok tt) stored' flushed) own (
          subst (λ em. Changes P (tx.id ∷ []) em w'.em) (event_context-em w₂ ∙ stored')
            (subst (λ v. Changes P (tx.id ∷ []) w₃.em v.em) (ap (λ p. p.1) h₄)
              (settle_claimed-Changes (tx.id ∷ []) tx own wallet a.valid ctx w₃)))

    -- What a request leaves, whatever it returns or throws.
    pub execute-Sound :
        (w : World P)
        → IsBalanced P w
        → IsKeyed P w.em
        → Sound P (Owned []) w.em (execute cmd clock w).1.em
    unfolding execute
    execute-Sound w b keyed = by_kind (kind_eq cmd.kind opening)
      where
        payload_hash : Text
        payload_hash = compute_payload_hash P (hash_input cmd)

        conflict : Error → App P Submitted
        conflict = on_unique_violation cmd payload_hash

        by_kind :
            (is_opening : Bool)
            → Sound P
                (Owned [])
                w.em
                ((if is_opening
                    then throws (domain invariant_violation)
                    else catches (transactional (process_new cmd payload_hash clock)) conflict)
                  w).1.em
        by_kind true = (Writes-refl P (rule P []) w.em, keyed)
        by_kind false =
            handle-keeps (λ v. Sound P (Owned []) w.em v.em) conflict
              (transactional (process_new cmd payload_hash clock) w)
              (λ e v kept. rw (on_unique_violation-em payload_hash e v) kept)
              (transactional-Sound P enforces (rule P []) (process_new cmd payload_hash clock) w
                keyed (λ r w' h _. process_new-Writes payload_hash w w' r b h))
