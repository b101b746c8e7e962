-- ===== src/Persistence/Schema/Commits.antt =====
-- What a transaction of the database leaves, where the primary keys are enforced.
use distributed_wagering_pro.Persistence.Schema.{EnforcesUnique}
use distributed_wagering_pro.Persistence.Schema.Keys.{IsKeyed, flushed-IsKeyed}
use distributed_wagering_pro.Persistence.Schema.Writes.{IsRule, Writes, Writes-refl}
use distributed_wagering_pro.Persistence.World.{Platform, App, World, Em}
use distributed_wagering_pro.Wagering.Row.{TransactionRow}
use distributed_wagering_pro.Prelude.{◌≡◌, refl}
use distributed_wagering_pro.Kernel.Errors.{ok, Result, err}
use distributed_wagering_pro.Persistence.Effect.{transactional, commit, commit_flushed}

-- The writes since `em`, and the keys.
abbrev pub Sound :
    (P : Platform) → (TransactionRow → TransactionRow → Type 0) → Em P.tables → Em P.tables → Type 0
Sound P T em em' = Writes P T em em' × IsKeyed P em'

module _ (P : Platform) (enforces : EnforcesUnique P) {T : TransactionRow → TransactionRow → Type 0}
    (rule : IsRule T) where
  -- What commits has passed the constraints, and what throws is rolled back.
  pub transactional-Sound :
      {A : Type 0} (body : App P A) (w : World P)
      → IsKeyed P w.em
      → ((a : A) (w' : World P)
          → body w ≡ (ok a, w')
          → P.flush w'.em ≡ ok tt
          → Writes P T w.em w'.em)
      → Sound P T w.em (transactional body w).1.em
  transactional-Sound {A} body w keyed writes = by_result (body w) writes
    where
      by_result :
          (r : Result A × World P)
          → ((a : A) (w' : World P)
              → r ≡ (ok a, w')
              → P.flush w'.em ≡ ok tt
              → Writes P T w.em w'.em)
          → Sound P T w.em (commit w.em r).1.em
      by_result (err _, v) k = (Writes-refl P rule w.em, keyed)
      by_result (ok a, v) k = by_flush (P.flush v.em) refl
        where
          by_flush :
              (f : Result (Unit {0}))
              → P.flush v.em ≡ f
              → Sound P T w.em (commit_flushed w.em a v f).1.em
          by_flush (ok tt) e = (k a v refl e, flushed-IsKeyed enforces v.em e)
          by_flush (err _) e = (Writes-refl P rule w.em, keyed)
