-- ===== src/Prelude/Powers.antt =====
-- Powers of two, for the delays that double.
use Prim.Native.Nat.{ℕ, suc, ◌*◌, ◌^◌, ◌≤◌}
use mathlib.Core.Path.{◌≡◌}
use native.Mathlib.Omega.{arith}
use native.Mathlib.Nat.{pow-suc, pow-le-pow_right}

pub pow-double : (n : ℕ) → 2 ^ suc n ≡ 2 * 2 ^ n
pow-double n = rw pow-suc (omega arith)

pub le-pow : (k n : ℕ) → k ≤ n → 2 ^ k ≤ 2 ^ n
le-pow k n h = pow-le-pow_right (omega arith) h
