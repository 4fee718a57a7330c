-- ===== src/Prelude/Modulo.antt =====
-- A remainder of a number below twice the modulus.
use Prim.Native.Nat.{ℕ, ◌+◌, ◌-◌, ◌%◌, ◌≤◌, ◌<◌}
use mathlib.Core.Path.{◌≡◌}
use mathlib.Core.Logic.{◌⊎◌, inl, inr}
use native.Mathlib.Omega.{arith}
use native.Mathlib.Nat.{mod-eq_of_lt, mod-eq-sub-mod}
use native.Mathlib.Decide.{dec_lt}

pub mod_once : (a n : ℕ) → a < n + n → ((a < n) × (a % n ≡ a)) ⊎ ((n ≤ a) × (a % n + n ≡ a))
mod_once a n h = elim (dec_lt a n) [
  | yes p ↦ inl (p, mod-eq_of_lt p)
  | no p ↦ inr (
    omega arith,
    omega (
      arith,
      mod-eq-sub-mod {n = a} {m = n} (omega arith),
      mod-eq_of_lt {n = a - n} {m = n} (omega arith),
    ),
  )
]
