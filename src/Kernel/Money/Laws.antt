-- ===== src/Kernel/Money/Laws.antt =====
-- src/shared/kernel/money.ts: sums and differences.
use distributed_wagering_pro.Kernel.Money.{Money, add, subtract, equals, is_less_than, is_negative}
use distributed_wagering_pro.Prelude.{
  ◌≡◌, ◌≢◌, true, ◌↔◌, arith, text_eq_iff, eqb_ℤ_iff, +ℤ_cancel, ◌+ℤ◌, +ℤ_comm, ◌-ℤ◌, -ℤ_cancel,
  -ℤ_parts,
}
use distributed_wagering_pro.Kernel.Errors.{ok, throw, currency_mismatch}

-- If a sum exists, subtracting what was added gives the first amount back, and adding in the other
-- order gives the same sum.
subtract-add :
    (m other : Money) {s : Money}
    → add m other ≡ ok s
    → (subtract s other ≡ ok m) × (add other m ≡ ok s)
unfolding add subtract
subtract-add m other h =
    let a = m.minor_units in
    let b = other.minor_units in
    ground (
      arith,
      +ℤ_cancel a b,
      +ℤ_comm a b,
      text_eq_iff m.currency other.currency,
      text_eq_iff other.currency m.currency,
    )

-- A sum, a difference and a comparison of amounts in two currencies throw, with both currencies; in
-- one currency none of them does.
pub currencies_agree :
    (m other : Money)
    → (m.currency ≢ other.currency
        → (add m other ≡ throw (currency_mismatch m.currency other.currency))
          × (subtract m other ≡ throw (currency_mismatch m.currency other.currency))
          × (is_less_than m other ≡ throw (currency_mismatch m.currency other.currency)))
      × (m.currency ≡ other.currency
          → (s : Money) × (d : Money) × (add m other ≡ ok s)
            × (subtract m other ≡ ok d)
            × (add d other ≡ ok m)
            × (is_less_than m other ≡ ok (is_negative d)))
unfolding add subtract is_less_than is_negative
currencies_agree m other =
    let a = m.minor_units in
    let b = other.minor_units in
    let same = text_eq_iff m.currency other.currency in
    (
      λ ne. ground (arith, same),
      λ e. (
        record m { minor_units = a +ℤ b },
        record m { minor_units = a -ℤ b },
        ground (arith, same),
        ground (arith, same),
        ground (arith, same, -ℤ_cancel a b),
        rw (same.1 e) (ground (arith, -ℤ_parts a b)),
      ),
    )

-- `equals` decides equality.
pub equals_iff : (m other : Money) → (equals m other ≡ true) ↔ (m ≡ other)
unfolding equals
equals_iff m other =
    ground (arith, text_eq_iff m.currency other.currency, eqb_ℤ_iff m.minor_units other.minor_units)
