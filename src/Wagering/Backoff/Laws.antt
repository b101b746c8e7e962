-- ===== src/Wagering/Backoff/Laws.antt =====
-- src/wagering/application/reference-backoff.ts: the delays before the retries.
use distributed_wagering_pro.Wagering.Backoff.{compute_reference_backoff_ms}
use distributed_wagering_pro.Prelude.{ℕ, ◌≤◌, suc, ◌≡◌, ◌*◌, min, le-pow, arith, pow-double, ◌↔◌}

-- The delay that follows on n attempts before it, which the finalizer computes before it counts
-- the attempt, is between 5 seconds and 5 minutes; the next one is its double or 5 minutes; and it
-- is 5 minutes exactly for n of 6 or more, so from the seventh retry on.
pub reference_backoff_bounds :
    (n : ℕ)
    → (5000 ≤ compute_reference_backoff_ms n)
      × (compute_reference_backoff_ms n ≤ 300000)
      × (compute_reference_backoff_ms (suc n) ≡ min (2 * compute_reference_backoff_ms n) 300000)
      × ((compute_reference_backoff_ms n ≡ 300000) ↔ (6 ≤ n))
unfolding compute_reference_backoff_ms
reference_backoff_bounds n =
    let one = le-pow 0 n (omega arith) in
    (
      omega arith,
      omega arith,
      omega (arith, pow-double n),
      (λ h. grind (arith, λ (p : n ≤ 5). le-pow n 5 p), λ h. omega (arith, le-pow 6 n h)),
    )
