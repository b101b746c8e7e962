-- ===== src/Persistence/Effect.antt =====
-- The effect of the use cases: reading and changing the state, throwing, and transactions.
use distributed_wagering_pro.Persistence.World.{Platform, App, Em, World}
use distributed_wagering_pro.Kernel.Errors.{Error, Result, ok, err, entity_not_found}
use distributed_wagering_pro.Prelude.{
  Text, List, ◌+◌, ◌∷◌, Option, [], some, none, ◌≡◌, arith, refl, ◌⊎◌, inl, inr, ap, sym, ◌∙◌,
}
use distributed_wagering_pro.Kernel.Errors

module _ {P : Platform} where
  abbrev pub pure : {A : Type 0} → A → App P A
  pure a w = (ok a, w)

  abbrev pub throws : {A : Type 0} → Error → App P A
  throws e w = (err e, w)

  abbrev pub lift : {A : Type 0} → Result A → App P A
  lift r w = (r, w)

  abbrev pub continue : {A B : Type 0} → (A → App P B) → Result A × World P → Result B × World P
  continue f (ok a, w) = f a w
  continue f (err e, w) = (err e, w)

  -- Inversion of a sequence that does not throw.
  pub continue-ok :
      {A B : Type 0} (f : A → App P B) (r : Result A × World P) {b : B} {w : World P}
      → continue f r ≡ (ok b, w)
      → (a : A) × (r.0 ≡ ok a) × (f a r.1 ≡ (ok b, w))
  continue-ok f (ok a, v) h = (a, refl, h)
  continue-ok f (err e, v) h = absurd (ground arith)

  infixl 5 ◌>>=◌ ◌>>◌
  abbrev pub ◌>>=◌ : {A B : Type 0} → App P A → (A → App P B) → App P B
  ◌>>=◌ m f w = continue f (m w)

  abbrev pub ◌>>◌ : {B : Type 0} → App P (Unit {0}) → App P B → App P B
  m >> k = m >>= λ _. k

  -- A call, from its result.
  pub pair_path : {A : Type 0} {r : Result A × World P} {a : Result A} → r.0 ≡ a → r ≡ (a, r.1)
  pair_path {r = r} h = ap (λ x. (x, r.1)) h

  pub continue-keeps :
      {A B : Type 0} (Q : World P → Type 0) (f : A → App P B) (r : Result A × World P)
      → Q r.1
      → ((a : A) (v : World P) → Q v → Q (f a v).1)
      → Q (continue f r).1
  continue-keeps Q f (ok a, v) q keep = keep a v q
  continue-keeps Q f (err e, v) q keep = q

  pub continue-throws :
      {A B : Type 0} (f : A → App P B) (r : Result A × World P) {e : Error}
      → r.0 ≡ err e
      → (continue f r).0 ≡ err e
  continue-throws f (ok a, v) h = absurd (ground arith)
  continue-throws f (err e, v) h = ground arith

  -- The unit of work, read and changed.
  abbrev pub gets : {A : Type 0} → (Em P.tables → A) → App P A
  gets f w = (ok (f w.em), w)

  abbrev pub modify : (Em P.tables → Em P.tables) → App P (Unit {0})
  modify f w = (ok tt, record w { em = f w.em })

  -- `em.flush()`
  abbrev pub flush : App P (Unit {0})
  flush w = (P.flush w.em, w)

  -- `newId()`
  abbrev pub new_id : App P Text
  new_id w = (ok (P.new_id w.ids), record w { ids = w.ids + 1 })

  -- `metrics.incrementCounter(name, labels)`
  abbrev pub increment_counter : Text → List Text → App P (Unit {0})
  increment_counter name labels w =
      (ok tt, record w { counts = record { name = name; labels = labels } ∷ w.counts })

  -- `em.transactional(body)`: the body, then the commit, which flushes. What either throws is thrown
  -- on, and the database is as it was before; ids and metrics stay used.
  abbrev pub commit_flushed :
      {A : Type 0} → Em P.tables → A → World P → Result (Unit {0}) → Result A × World P
  commit_flushed before a w (ok _) = (ok a, w)
  commit_flushed before a w (err e) = (err e, record w { em = before })

  abbrev pub commit : {A : Type 0} → Em P.tables → Result A × World P → Result A × World P
  commit before (err e, w) = (err e, record w { em = before })
  commit before (ok a, w) = commit_flushed before a w (P.flush w.em)

  abbrev pub transactional : {A : Type 0} → App P A → App P A
  transactional body w = commit w.em (body w)

  -- What a transaction leaves stored, where the body keeps it: what is thrown is rolled back.
  pub transactional-keeps :
      {A : Type 0} (Q : Em P.tables → Type 0) (body : App P A) (w : World P)
      → Q w.em
      → ((a : A) (w' : World P) → body w ≡ (ok a, w') → Q w'.em)
      → Q (transactional body w).1.em
  transactional-keeps {A = A} Q body w q keep = by_result (body w) keep
    where
      by_result :
          (r : Result A × World P)
          → ((a : A) (w' : World P) → r ≡ (ok a, w') → Q w'.em)
          → Q (commit w.em r).1.em
      by_result (err _, v) keep' = q
      by_result (ok a, v) keep' = by_flush (P.flush v.em)
        where
          by_flush : (f : Result (Unit {0})) → Q (commit_flushed w.em a v f).1.em
          by_flush (ok _) = keep' a v refl
          by_flush (err _) = q

  -- Inversion of a transaction that commits.
  pub transactional-ok :
      {A : Type 0} (body : App P A) (w : World P) {a : A} {w' : World P}
      → transactional body w ≡ (ok a, w')
      → (body w ≡ (ok a, w')) × (P.flush w'.em ≡ ok tt)
  transactional-ok {A = A} body w {a = a} {w' = w'} h = by_result (body w) h
    where
      by_result :
          (r : Result A × World P)
          → commit w.em r ≡ (ok a, w')
          → (r ≡ (ok a, w')) × (P.flush w'.em ≡ ok tt)
      by_result (err e, v) k = absurd (ground arith)
      by_result (ok b, v) k = by_flush (P.flush v.em) refl k
        where
          by_flush :
              (f : Result (Unit {0}))
              → P.flush v.em ≡ f
              → commit_flushed w.em b v f ≡ (ok a, w')
              → (◌≡◌ {A = Result A × World P} (ok b, v) (ok a, w')) × (P.flush w'.em ≡ ok tt)
          by_flush (ok _) e k' =
              (k', ap {A = World P} (λ x. P.flush x.em) (sym (ap (λ r. r.1) k')) ∙ e)
          by_flush (err _) e k' = absurd (ground arith)

  -- A transaction whose body returns, and whose flush goes through.
  pub transactional_lem :
      {A : Type 0} (body : App P A) (w : World P) {a : A} {w' : World P}
      → body w ≡ (ok a, w')
      → P.flush w'.em ≡ ok tt
      → transactional body w ≡ (ok a, w')
  transactional_lem body w h flushed = rw (h, flushed) refl

  -- A body that throws is rolled back.
  pub transactional-throws :
      {A : Type 0} (body : App P A) (w : World P) {e : Error}
      → (body w).0 ≡ err e
      → transactional body w ≡ (err e, record (body w).1 { em = w.em })
  transactional-throws body w h = ap (commit w.em) (pair_path h)

  -- `try { body } catch (err) { handler(err) }`: what was written before the throw stays.
  abbrev pub handle : {A : Type 0} → (Error → App P A) → Result A × World P → Result A × World P
  handle handler (ok a, w) = (ok a, w)
  handle handler (err e, w) = handler e w

  -- What a `try` leaves, where the handler keeps it.
  pub handle-keeps :
      {A : Type 0} (Q : World P → Type 0) (handler : Error → App P A) (r : Result A × World P)
      → ((e : Error) (v : World P) → Q v → Q (handler e v).1)
      → Q r.1
      → Q (handle handler r).1
  handle-keeps Q handler (ok a, v) keep q = q
  handle-keeps Q handler (err e, v) keep q = keep e v q

  -- Inversion of a `try` that does not throw.
  pub handle-ok :
      {A : Type 0} (handler : Error → App P A) (r : Result A × World P) {a : A} {w : World P}
      → handle handler r ≡ (ok a, w)
      → (r ≡ (ok a, w)) ⊎ ((e : Error) × (r.0 ≡ err e) × (handler e r.1 ≡ (ok a, w)))
  handle-ok handler (ok a, v) h = inl h
  handle-ok handler (err e, v) h = inr (e, refl, h)

  abbrev pub catches : {A : Type 0} → App P A → (Error → App P A) → App P A
  catches body handler w = handle handler (body w)

  -- `findOneOrFail`
  abbrev pub or_fail : {A : Type 0} → Option A → App P (Unit {0})
  or_fail none = throws entity_not_found
  or_fail (some a) = pure tt

-- `row ? toDomain(row) : null`
abbrev pub map_found : {Row A : Type 0} → (Row → Result A) → Option Row → Result (Option A)
map_found to_domain none = ok none
map_found to_domain (some row) = elim (to_domain row) [ ok a ↦ ok (some a) | err e ↦ err e ]

-- `rows.map(toDomain)`
abbrev pub map_rows : {Row A : Type 0} → (Row → Result A) → List Row → Result (List A)
map_rows to_domain [] = ok []
map_rows to_domain (row ∷ rows) =
    Errors.◌>>=◌ (to_domain row) λ a. Errors.◌>>=◌ (map_rows to_domain rows) λ rest. ok (a ∷ rest)
