-- ===== src/Persistence/Ordering.antt =====
-- What an `order by` over distinct keys gives: the sorted rows.
pub mod Laws
pub mod Keys
use distributed_wagering_pro.Prelude.{
  Bool, List, [], ◌∷◌, All, if◌then◌else◌, ◌≡◌, false, true, ◌&&◌,
}

-- No two rows have the same primary key.
abbrev pub Distinct : {Row : Type 0} → (Row → Row → Bool) → List Row → Type 0
Distinct same [] = Unit
Distinct same (r ∷ rs) = All (λ s. same s r ≡ false) rs × Distinct same rs

-- `r` put before the first row that does not come before it.
unfoldable pub insert_row : {Row : Type 0} → (Row → Row → Bool) → Row → List Row → List Row
insert_row before r [] = r ∷ []
insert_row before r (s ∷ rows) =
    let rest = insert_row before r rows in if before r s then r ∷ s ∷ rows else s ∷ rest

unfoldable pub sort_rows : {Row : Type 0} → (Row → Row → Bool) → List Row → List Row
unfolding insert_row
sort_rows before [] = []
sort_rows before (r ∷ rows) = insert_row before r (sort_rows before rows)

-- An order in which no two of the rows stand at the same place.
pub record IsOrderOn {Row : Type 0} (before : Row → Row → Bool) (rows : List Row) : Type 0 where
  pub total : (r s : Row) → before r s ≡ false → before s r ≡ true
  pub transitive : (r s t : Row) → before r s ≡ true → before s t ≡ true → before r t ≡ true
  pub apart : Distinct (λ r s. before r s && before s r) rows
