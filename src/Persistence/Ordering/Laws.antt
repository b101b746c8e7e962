-- ===== src/Persistence/Ordering/Laws.antt =====
-- Sorting rows, and the part of the sorted rows behind one of them.
use distributed_wagering_pro.Persistence.Ordering.{insert_row, sort_rows, Distinct}
use distributed_wagering_pro.Prelude.{
  Bool, ◌≡◌, List, ◌&&◌, true, ◌∷◌, false, All, Bool-cases, ◌++◌, [], if◌then◌else◌, not, refl, inl,
  sym, ap, inr, arith,
}
use distributed_wagering_pro.Persistence.Table.{filter_rows}

module _ {Row : Type 0} where
  pub All-filter :
      (Q : Row → Type 0) (p : Row → Bool) (rows : List Row)
      → All Q rows
      → All Q (filter_rows p rows)
  All-filter Q p [] h = tt
  All-filter Q p (r ∷ rows) h =
      let rest = All-filter Q p rows h.1 in
      elim (Bool-cases (p r)) [ inl e ↦ rw e (h.0, rest) | inr e ↦ rw e rest ]

  pub Distinct-filter :
      (same : Row → Row → Bool) (p : Row → Bool) (rows : List Row)
      → Distinct same rows
      → Distinct same (filter_rows p rows)
  Distinct-filter same p [] d = tt
  Distinct-filter same p (r ∷ rows) d =
      let rest = Distinct-filter same p rows d.1 in
      elim (Bool-cases (p r)) [
        | inl e ↦ rw e (All-filter (λ s. same s r ≡ false) p rows d.0, rest)
        | inr e ↦ rw e rest
      ]

  pub filter-and :
      (p q : Row → Bool) (rows : List Row)
      → filter_rows (λ r. p r && q r) rows ≡ filter_rows q (filter_rows p rows)
  filter-and p q [] = refl
  filter-and p q (r ∷ rows) =
      let rest = filter-and p q rows in
      elim (Bool-cases (p r)) [
        | inl e ↦ elim (Bool-cases (q r)) [ inl k ↦ rw (e, k, rest) refl | inr k ↦ rw (e, k) rest ]
        | inr e ↦ rw e rest
      ]

module _ {Row : Type 0} (before : Row → Row → Bool) where
  -- `r` comes before `s`, and not the other way round.
  abbrev pub Precedes : Row → Row → Type 0
  Precedes r s = (before r s ≡ true) × (before s r ≡ false)

  abbrev pub Ascending : List Row → Type 0
  Ascending [] = Unit
  Ascending (r ∷ rows) = All (Precedes r) rows × Ascending rows

  abbrev Apart : Row → Row → Type 0
  Apart x s = (before s x && before x s) ≡ false

  insert-first :
      (x : Row) (rows : List Row)
      → All (λ s. before x s ≡ true) rows
      → insert_row before x rows ≡ x ∷ rows
  unfolding insert_row
  insert-first x [] h = refl
  insert-first x (y ∷ rows) h = rw h.0 refl

  All-insert_row :
      (Q : Row → Type 0) (x : Row) (rows : List Row)
      → Q x
      → All Q rows
      → All Q (insert_row before x rows)
  unfolding insert_row
  All-insert_row Q x [] q h = (q, tt)
  All-insert_row Q x (y ∷ rows) q h =
      let rest = All-insert_row Q x rows q h.1 in
      elim (Bool-cases (before x y)) [ inl e ↦ rw e (q, h) | inr e ↦ rw e (h.0, rest) ]

  pub All-sort_rows :
      (Q : Row → Type 0) (rows : List Row) → All Q rows → All Q (sort_rows before rows)
  unfolding sort_rows
  All-sort_rows Q [] h = tt
  All-sort_rows Q (r ∷ rows) h =
      All-insert_row Q r (sort_rows before rows) h.0 (All-sort_rows Q rows h.1)

  module _ (total : (r s : Row) → before r s ≡ false → before s r ≡ true)
      (transitive : (r s t : Row) → before r s ≡ true → before s t ≡ true → before r t ≡ true) where
    behind :
        (x y : Row) (rows : List Row)
        → before x y ≡ true
        → All (Precedes y) rows
        → All (λ s. before x s ≡ true) rows
    behind x y [] e h = tt
    behind x y (z ∷ rows) e h = (transitive x y z e h.0.0, behind x y rows e h.1)

    all-Precedes :
        (x : Row) (rows : List Row)
        → All (λ s. before x s ≡ true) rows
        → All (Apart x) rows
        → All (Precedes x) rows
    all-Precedes x [] h a = tt
    all-Precedes x (z ∷ rows) h a = ((h.0, ground (arith, a.0, h.0)), all-Precedes x rows h.1 a.1)

    insert_row-Ascending :
        (x : Row) (rows : List Row)
        → Ascending rows
        → All (Apart x) rows
        → Ascending (insert_row before x rows)
    unfolding insert_row
    insert_row-Ascending x [] h a = (tt, tt)
    insert_row-Ascending x (y ∷ rows) h a =
        let rest = insert_row-Ascending x rows h.1 a.1 in
        elim (Bool-cases (before x y)) [
          | inl e ↦ rw e (all-Precedes x (y ∷ rows) (e, behind x y rows e h.0) a, h)
          | inr e ↦ rw e (All-insert_row (Precedes y) x rows (total x y e, e) h.0, rest)
        ]

    pub sort_rows-Ascending :
        (rows : List Row)
        → Distinct (λ r s. before r s && before s r) rows
        → Ascending (sort_rows before rows)
    unfolding sort_rows
    sort_rows-Ascending [] d = tt
    sort_rows-Ascending (r ∷ rows) d =
        insert_row-Ascending r (sort_rows before rows) (sort_rows-Ascending rows d.1)
          (All-sort_rows (Apart r) rows d.0)

    filter-insert_row :
        (p : Row → Bool) (x : Row) (rows : List Row)
        → Ascending rows
        → filter_rows p (insert_row before x rows)
          ≡ (if p x then insert_row before x (filter_rows p rows) else filter_rows p rows)
    unfolding insert_row
    filter-insert_row p x [] h = refl
    filter-insert_row p x (y ∷ rows) h =
        let rest = filter-insert_row p x rows h.1 in
        elim (Bool-cases (before x y)) [
          | inl e ↦ elim (Bool-cases (p x)) [
            | inl q ↦
                rw (e, q)
                  (sym (
                    insert-first x (filter_rows p (y ∷ rows)) (
                      All-filter (λ s. before x s ≡ true) p (y ∷ rows) (e, behind x y rows e h.0))))
            | inr q ↦ rw (e, q) refl
          ]
          | inr e ↦ elim (Bool-cases (p y)) [
            | inl q ↦ elim (Bool-cases (p x)) [
              | inl k ↦ rw (q, e, q, rest, k) refl
              | inr k ↦ rw (q, e, q, rest, k) refl
            ]
            | inr q ↦ rw (q, e, q) rest
          ]
        ]

    pub sort-filter :
        (p : Row → Bool) (rows : List Row)
        → Distinct (λ r s. before r s && before s r) rows
        → sort_rows before (filter_rows p rows) ≡ filter_rows p (sort_rows before rows)
    unfolding sort_rows
    sort-filter p [] d = refl
    sort-filter p (r ∷ rows) d =
        let rest = sort-filter p rows d.1 in
        let inserted =
          filter-insert_row p r (sort_rows before rows) (sort_rows-Ascending rows d.1) in
        elim (Bool-cases (p r)) [
          | inl q ↦ rw (inserted, q, rest) refl
          | inr q ↦ rw (inserted, q) rest
        ]

    keeps_all :
        (r : Row) (rows : List Row)
        → All (Precedes r) rows
        → filter_rows (λ s. not (before s r)) rows ≡ rows
    keeps_all r [] h = refl
    keeps_all r (s ∷ rows) h = rw h.0.1 (ap (λ rest. s ∷ rest) (keeps_all r rows h.1))

    -- What stands behind a row is what comes after it.
    pub filter-after :
        (front : List Row) (r : Row) (back : List Row)
        → Ascending (front ++ r ∷ back)
        → filter_rows (λ s. not (before s r)) (front ++ r ∷ back) ≡ back
    filter-after [] r back h =
        let own : before r r ≡ true = elim (Bool-cases (before r r)) [
          | inl e ↦ e
          | inr e ↦ total r r e
        ] in
        rw own (keeps_all r back h.0)
    filter-after (a ∷ front) r back h = rw (first front h.0) (filter-after front r back h.1)
      where
        first : (xs : List Row) → All (Precedes a) (xs ++ r ∷ back) → before a r ≡ true
        first [] k = k.0.0
        first (x ∷ xs) k = first xs k.1
