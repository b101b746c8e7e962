-- ===== src/Wagering/Backoff.antt =====
-- src/wagering/application/reference-backoff.ts
pub mod Laws
use distributed_wagering_pro.Prelude.{ℕ, min, ◌*◌, ◌^◌}

abbrev pub max_reference_retry_attempts : ℕ
max_reference_retry_attempts = 10

abbrev base_backoff_ms : ℕ
base_backoff_ms = 5000

abbrev max_backoff_ms : ℕ
max_backoff_ms = 300000

unfoldable pub compute_reference_backoff_ms : ℕ → ℕ
compute_reference_backoff_ms attempts = min (base_backoff_ms * 2 ^ attempts) max_backoff_ms
