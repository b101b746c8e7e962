-- ===== src/Persistence/Schema/Keys.antt =====
-- migrations: what the primary keys give, once a flush has gone through.
use distributed_wagering_pro.Prelude.{
  Bool, List, ◌≡◌, true, [], ◌∷◌, arith, All, false, ◌++◌, Occurs, refl, inl, ap, ◌∙◌, text_eq_iff,
  sym, inr,
}
use distributed_wagering_pro.Persistence.Schema.{
  taken, is_unique, unique_constraints, EnforcesUnique, same_idempotency_key,
}
use distributed_wagering_pro.Persistence.Ordering.{Distinct}
use distributed_wagering_pro.Persistence.World.{Platform, Em, same_transaction, same_outbox, Tables}
use distributed_wagering_pro.Kernel.Errors.{ok}
use distributed_wagering_pro.Wagering.Row.{TransactionRow}

module _ {Row : Type 0} (same : Row → Row → Bool) where
  not_taken :
      (r : Row) (rows : List Row) → taken same r rows ≡ false → All (λ s. same s r ≡ false) rows
  not_taken r [] h = tt
  not_taken r (s ∷ rows) h = let rest = not_taken r rows in (ground arith, rest (ground arith))

  pub is_unique-Distinct : (rows : List Row) → is_unique same rows ≡ true → Distinct same rows
  is_unique-Distinct [] h = tt
  is_unique-Distinct (r ∷ rows) h =
      (not_taken r rows (ground arith), is_unique-Distinct rows (ground arith))

-- The keys by which the use cases find what they update.
pub record IsKeyed (P : Platform) (em : Em P.tables) : Type 0 where
  pub transactions : Distinct same_transaction (P.tables.transactions.rows em.transactions)
  pub outbox : Distinct same_outbox (P.tables.outbox.rows em.outbox)

pub flushed-IsKeyed :
    {P : Platform} → EnforcesUnique P → (em : Em P.tables) → P.flush em ≡ ok tt → IsKeyed P em
unfolding unique_constraints
flushed-IsKeyed {P = P} enforces em h =
    let u = enforces em h in
    record {
      transactions =
          is_unique-Distinct same_transaction (P.tables.transactions.rows em.transactions)
            (ground arith);
      outbox = is_unique-Distinct same_outbox (P.tables.outbox.rows em.outbox) (ground arith);
    }

module _ {Row : Type 0} (same : Row → Row → Bool) where
  taken-append :
      (r : Row) (rows : List Row) (new : Row)
      → same new r ≡ true
      → taken same r (rows ++ new ∷ []) ≡ true
  taken-append r [] new h = rw h refl
  taken-append r (s ∷ rows) new h = ground (arith, taken-append r rows new h)

  -- A row whose key is taken cannot be added.
  pub is_unique-taken :
      (rows : List Row) (row new : Row)
      → Occurs row rows
      → same new row ≡ true
      → is_unique same (rows ++ new ∷ []) ≡ false
  is_unique-taken [] row new o h = absurd o
  is_unique-taken (r ∷ rows) row new (inl e) h =
      rw (taken-append r rows new (ap (same new) e ∙ h)) refl
  is_unique-taken (r ∷ rows) row new (inr o) h = ground (arith, is_unique-taken rows row new o h)

-- In particular one whose idempotency key is taken.
pub taken_key-violates :
    (tables : Tables) (em : Em tables) (row new : TransactionRow)
    → Occurs row (tables.transactions.rows em.transactions)
    → row.idempotency_key ≡ new.idempotency_key
    → unique_constraints {tables = tables}
        (record em { transactions = tables.transactions.create new em.transactions })
      ≡ false
unfolding unique_constraints
taken_key-violates tables em row new o h =
    rw (tables.transactions.rows-create new em.transactions) (
      ground (
        arith,
        is_unique-taken same_idempotency_key (tables.transactions.rows em.transactions) row new o
            ((text_eq_iff new.idempotency_key row.idempotency_key).1 (sym h)),
      ))
