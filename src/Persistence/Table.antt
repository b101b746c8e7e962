-- ===== src/Persistence/Table.antt =====
-- What the repositories use of MikroORM and PostgreSQL, as an interface: one table, as the unit of
-- work of an `EntityManager` sees it, with what is queued to be written.
use distributed_wagering_pro.Prelude.{
  Bool, ℕ, List, ◌∷◌, Option, if◌then◌else◌, ◌≡◌, some, true, Occurs, none, All, false, length, ◌≤◌,
  ◌++◌, [], take,
}
use mathlib.Core.List.{Perm}
use distributed_wagering_pro.Persistence.Ordering.{Distinct, IsOrderOn, sort_rows}

-- A `where`, an `orderBy` and a `limit` of a query builder.
pub record Query (Row : Type 0) : Type 0 where
  pub passes : Row → Bool
  pub before : Row → Row → Bool
  pub limit : ℕ

-- The rows that pass a test.
abbrev pub filter_rows : {Row : Type 0} → (Row → Bool) → List Row → List Row
filter_rows p [] = []
filter_rows p (r ∷ rs) = if p r then r ∷ filter_rows p rs else filter_rows p rs

-- `em.assign` of new data to the row with the same primary key.
abbrev pub assign_row : {Row : Type 0} → (Row → Row → Bool) → Row → List Row → List Row
assign_row same data' [] = []
assign_row same data' (r ∷ rs) = (if same r data' then data' else r) ∷ assign_row same data' rs

-- `rows` lists the rows in the order in which they were created; no operation lets the program see
-- that order. `same` says that two rows have the same primary key.
pub record Table (Row : Type 0) (same : Row → Row → Bool) : Type 1 where
  pub Rows : Type 0
  pub rows : Rows → List Row
  pub find_one : (Row → Bool) → Rows → Option Row
  pub get_result_list : Query Row → Rows → List Row
  pub get_ordered : Query Row → Rows → List Row
  pub select : (Row → Bool) → Rows → List Row
  pub create : Row → Rows → Rows
  pub assign : Row → Rows → Rows
  -- `findOne` gives a row that passes the test, and `null` only if there is none.
  pub find_one-some :
      (p : Row → Bool) (t : Rows) (r : Row)
      → find_one p t ≡ some r
      → (p r ≡ true) × Occurs r (rows t)
  pub find_one-none :
      (p : Row → Bool) (t : Rows) → find_one p t ≡ none → All (λ r. p r ≡ false) (rows t)
  -- A query gives rows of the table that pass its test, and no more than its limit. (Rows that
  -- another transaction has locked are skipped, so it need not give all of them.)
  pub get_result_list-occurs :
      (q : Query Row) (t : Rows)
      → All (λ r. (q.passes r ≡ true) × Occurs r (rows t)) (get_result_list q t)
  pub get_result_list-limit : (q : Query Row) (t : Rows) → length (get_result_list q t) ≤ q.limit
  -- It gives each row once.
  pub get_result_list-Distinct :
      (q : Query Row) (t : Rows) → Distinct same (rows t) → Distinct same (get_result_list q t)
  -- A query without locks gives the first rows of the sorted ones, where the order tells them apart.
  pub get_ordered_lem :
      (q : Query Row) (t : Rows)
      → IsOrderOn q.before (rows t)
      → get_ordered q t ≡ take q.limit (sort_rows q.before (filter_rows q.passes (rows t)))
  -- `select … where …` gives every row that passes the test, in some order.
  pub select-perm : (p : Row → Bool) (t : Rows) → Perm (select p t) (filter_rows p (rows t))
  pub rows-create : (r : Row) (t : Rows) → rows (create r t) ≡ rows t ++ r ∷ []
  pub rows-assign : (r : Row) (t : Rows) → rows (assign r t) ≡ assign_row same r (rows t)
