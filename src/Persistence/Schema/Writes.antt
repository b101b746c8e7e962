-- ===== src/Persistence/Schema/Writes.antt =====
-- What a series of writes does to the three tables that have triggers or rows that are only added.
use distributed_wagering_pro.Prelude.{
  Text, List, ◌≡◌, ◌⊎◌, inl, inr, true, All, Occurs, refl, ◌∙◌, subst, sym, ap, false,
}
use distributed_wagering_pro.Persistence.World.{Platform, Em, World, App, same_transaction}
use distributed_wagering_pro.Persistence.Effect.{continue}
use distributed_wagering_pro.Kernel.Errors.{Result, ok, err}
use distributed_wagering_pro.Persistence.Schema.{ledger_checks, transaction_checks}
use distributed_wagering_pro.Persistence.Schema.Triggers.{Passes, reject_ledger_mutation}
use distributed_wagering_pro.Persistence.Schema.Evolves.{
  Evolves, Evolves-refl, Evolves-trans, Evolves-create, Evolves-assign, Evolves-mono,
}
use distributed_wagering_pro.Wallets.Rows.{LedgerRow}
use distributed_wagering_pro.Wagering.Row.{TransactionRow}
use distributed_wagering_pro.Messaging.Outbox.{OutboxMessage}
use distributed_wagering_pro.Messaging.Outbox.Laws.{Reach, here, next}
use distributed_wagering_pro.Wagering.Transaction.{is_terminal_status}

abbrev pub LedgerChecked : LedgerRow → Type 0
LedgerChecked r = ledger_checks r ≡ true

abbrev pub TransactionChecked : TransactionRow → Type 0
TransactionChecked r = transaction_checks r ≡ true

abbrev pub AnyMessage : OutboxMessage → Type 0
AnyMessage m = Unit

-- Rules for what may become of a transaction's row.
pub record IsRule (T : TransactionRow → TransactionRow → Type 0) : Type 0 where
  pub same_row : (r : TransactionRow) → T r r
  pub compose : (r s t : TransactionRow) → T r s → T s t → T r t
  pub checked : (r s : TransactionRow) → TransactionChecked r → T r s → TransactionChecked s

-- Only rows under a condition change; they keep their id, and pass the checks.
abbrev pub Guarded : (TransactionRow → Type 0) → TransactionRow → TransactionRow → Type 0
Guarded G r s = (s ≡ r) ⊎ (G r × (s.id ≡ r.id) × TransactionChecked s)

pub Guarded-IsRule : (G : TransactionRow → Type 0) → IsRule (Guarded G)
Guarded-IsRule G = record { same_row = λ r. inl refl; compose = composed; checked = still_checked }
  where
    composed : (r s t : TransactionRow) → Guarded G r s → Guarded G s t → Guarded G r t
    composed r s t (inl e) k = subst (λ x. Guarded G x t) e k
    composed r s t (inr (g, id, c)) (inl e) =
        inr (g, ap (λ x. x.id) e ∙ id, subst TransactionChecked (sym e) c)
    composed r s t (inr (g, id, _)) (inr (_, id', c)) = inr (g, id' ∙ id, c)

    still_checked :
        (r s : TransactionRow) → TransactionChecked r → Guarded G r s → TransactionChecked s
    still_checked r s h (inl e) = subst TransactionChecked (sym e) h
    still_checked r s h (inr (_, _, c)) = c

-- The rows of the transactions with these ids may change.
abbrev pub Owned : List Text → TransactionRow → TransactionRow → Type 0
Owned ids = Guarded (λ r. Occurs r.id ids)

pub Owned-IsRule : (ids : List Text) → IsRule (Owned ids)
Owned-IsRule ids = Guarded-IsRule (λ r. Occurs r.id ids)

-- The rows that are not terminal may change.
abbrev pub Open : TransactionRow → TransactionRow → Type 0
Open = Guarded (λ r. is_terminal_status r.status ≡ false)

pub Open-IsRule : IsRule Open
Open-IsRule = Guarded-IsRule (λ r. is_terminal_status r.status ≡ false)

pub Reach-trans : (m n o : OutboxMessage) → Reach m n → Reach n o → Reach m o
Reach-trans m n o r here = r
Reach-trans m n o r (next {t} k s) = next (Reach-trans m n t r k) s

-- The trigger of the ledger lets no update through.
pub immutable_entry : (r s : LedgerRow) → Passes reject_ledger_mutation r s → s ≡ r
unfolding reject_ledger_mutation
immutable_entry r s (inl e) = e
immutable_entry r s (inr h) = absurd (cc)

-- The database after the writes, from the one before them.
pub record Writes (P : Platform) (T : TransactionRow → TransactionRow → Type 0)
    (em em' : Em P.tables) : Type 0 where
  pub ledger :
      Evolves
        (Passes reject_ledger_mutation)
        LedgerChecked
        (P.tables.ledger.rows em.ledger)
        (P.tables.ledger.rows em'.ledger)
  pub transactions :
      Evolves T TransactionChecked
        (P.tables.transactions.rows em.transactions)
        (P.tables.transactions.rows em'.transactions)
  pub outbox :
      Evolves Reach AnyMessage (P.tables.outbox.rows em.outbox) (P.tables.outbox.rows em'.outbox)

-- The three tables are as they were.
abbrev pub SameTables : (P : Platform) → Em P.tables → Em P.tables → Type 0
SameTables P em em' =
    (em'.ledger ≡ em.ledger) × (em'.transactions ≡ em.transactions) × (em'.outbox ≡ em.outbox)

module _ (P : Platform) {T : TransactionRow → TransactionRow → Type 0} (rule : IsRule T) where
  pub Writes-same : (em em' : Em P.tables) → SameTables P em em' → Writes P T em em'
  Writes-same em em' (ledger, transactions, outbox) = record {
    ledger = rw ledger (
        Evolves-refl (Passes reject_ledger_mutation) LedgerChecked (λ r. inl refl)
          (P.tables.ledger.rows em.ledger));
    transactions = rw transactions (
        Evolves-refl T TransactionChecked rule.same_row
          (P.tables.transactions.rows em.transactions));
    outbox = rw outbox (Evolves-refl Reach AnyMessage (λ m. here) (P.tables.outbox.rows em.outbox));
  }

  pub Writes-refl : (em : Em P.tables) → Writes P T em em
  Writes-refl em = Writes-same em em (refl, refl, refl)

  pub Writes-trans :
      (em em' em'' : Em P.tables) → Writes P T em em' → Writes P T em' em'' → Writes P T em em''
  Writes-trans em em' em'' u v = record {
    ledger =
        Evolves-trans (Passes reject_ledger_mutation) LedgerChecked
          (λ r s h p. subst LedgerChecked (sym (immutable_entry r s p)) h)
          (λ r s t p q. inl (immutable_entry s t q ∙ immutable_entry r s p))
          (P.tables.ledger.rows em.ledger) (P.tables.ledger.rows em'.ledger)
          (P.tables.ledger.rows em''.ledger) u.ledger v.ledger;
    transactions =
        Evolves-trans T TransactionChecked rule.checked rule.compose
          (P.tables.transactions.rows em.transactions) (P.tables.transactions.rows em'.transactions)
          (P.tables.transactions.rows em''.transactions) u.transactions v.transactions;
    outbox =
        Evolves-trans Reach AnyMessage (λ m n _ _. tt) Reach-trans (P.tables.outbox.rows em.outbox)
          (P.tables.outbox.rows em'.outbox) (P.tables.outbox.rows em''.outbox) u.outbox v.outbox;
  }

  pub Writes-entry :
      (row : LedgerRow) (em : Em P.tables)
      → LedgerChecked row
      → Writes P T em (record em { ledger = P.tables.ledger.create row em.ledger })
  Writes-entry row em h = record {
    transactions = (Writes-refl em).transactions;
    outbox = (Writes-refl em).outbox;
    ledger = rw (P.tables.ledger.rows-create row em.ledger) (
        Evolves-create (Passes reject_ledger_mutation) LedgerChecked (λ r. inl refl)
          (P.tables.ledger.rows em.ledger) row h);
  }

  pub Writes-message :
      (message : OutboxMessage) (em : Em P.tables)
      → Writes P T em (record em { outbox = P.tables.outbox.create message em.outbox })
  Writes-message message em = record {
    ledger = (Writes-refl em).ledger;
    transactions = (Writes-refl em).transactions;
    outbox =
        rw (P.tables.outbox.rows-create message em.outbox)
          (Evolves-create Reach AnyMessage (λ m. here) (P.tables.outbox.rows em.outbox) message tt);
  }

  pub Writes-claim :
      (row : TransactionRow) (em : Em P.tables)
      → TransactionChecked row
      → Writes P T em
          (record em { transactions = P.tables.transactions.create row em.transactions })
  Writes-claim row em h = record {
    ledger = (Writes-refl em).ledger;
    outbox = (Writes-refl em).outbox;
    transactions = rw (P.tables.transactions.rows-create row em.transactions) (
        Evolves-create T TransactionChecked rule.same_row
          (P.tables.transactions.rows em.transactions) row h);
  }

  pub Writes-update :
      (row : TransactionRow) (em : Em P.tables)
      → ((r : TransactionRow) → same_transaction r row ≡ true → T r row)
      → Writes P T em
          (record em { transactions = P.tables.transactions.assign row em.transactions })
  Writes-update row em h = record {
    ledger = (Writes-refl em).ledger;
    outbox = (Writes-refl em).outbox;
    transactions = rw (P.tables.transactions.rows-assign row em.transactions) (
        Evolves-assign T TransactionChecked rule.same_row same_transaction row
          (P.tables.transactions.rows em.transactions) h);
  }

  -- A sequence of calls.
  pub continue-Writes :
      {A B : Type 0} (em : Em P.tables) (f : A → App P B) (r : Result A × World P)
      → Writes P T em r.1.em
      → ((a : A) (v : World P) → r.0 ≡ ok a → Writes P T v.em (f a v).1.em)
      → Writes P T em (continue f r).1.em
  continue-Writes em f (ok a, v) h k = Writes-trans em v.em (f a v).1.em h (k a v refl)
  continue-Writes em f (err e, v) h k = h

-- Under another rule for the transactions, where something is known of the rows that are there.
pub Writes-mono :
    (P : Platform) (T S : TransactionRow → TransactionRow → Type 0) (Q : TransactionRow → Type 0)
    (em em' : Em P.tables)
    → ((r s : TransactionRow) → Q r → T r s → S r s)
    → All Q (P.tables.transactions.rows em.transactions)
    → Writes P T em em'
    → Writes P S em em'
Writes-mono P T S Q em em' weaker q w = record {
  ledger = w.ledger;
  transactions =
      Evolves-mono T S TransactionChecked Q weaker (P.tables.transactions.rows em.transactions)
        (P.tables.transactions.rows em'.transactions) q w.transactions;
  outbox = w.outbox;
}
