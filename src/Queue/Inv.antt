-- ===== src/Queue/Inv.antt =====
-- The invariants of the two modes of a queue, and the arithmetic of its two pointers.
use native.Mathlib.Nat.{add_assoc, mod-add-mod}
use g_plat.Prelude.{ℕ, ◌+◌, ◌-◌, suc, ◌%◌, ◌^◌, ◌≤◌, ◌<◌, ◌≡◌, ◌≢◌, ◌↔◌, ap, arith, mod_once}
use g_plat.Queue.{Queue, normal_mode, shift_mode}

pub record IsNormal (q : Queue) : Type 0 where
  pub mode : q.operate_mode ≡ normal_mode
  pub pos : 0 < q.num
  pub small : q.num < 2 ^ 31
  pub read_in : q.read_point < q.num
  pub write_in : q.write_point < q.num

pub record IsShift (q : Queue) : Type 0 where
  pub mode : q.operate_mode ≡ shift_mode
  pub pos : 0 < q.num
  pub small : q.num < 2 ^ 31
  pub flag : q.read_point ≤ 1
  pub write_in : q.write_point < q.num

-- How many records a normal queue holds, from the two pointers.
abbrev pub used_between : ℕ → ℕ → ℕ → ℕ
used_between w r n = (w + n - r) % n

-- The pointer arithmetic of the ring, with the three remainders told apart by `mod_once`.
module _ {w r n : ℕ} (hr : r < n) (hw : w < n) where
  pub used-lt : used_between w r n < n
  used-lt = omega arith

  pub slot_after_used : (r + 1 + used_between w r n) % n ≡ (w + 1) % n
  slot_after_used = omega (
    arith,
    mod_once (w + n - r) n (omega arith),
    mod_once (w + 1) n (omega arith),
    mod_once (r + 1 + used_between w r n) n (omega arith),
  )

  pub slot_in_use-ne :
      (i : ℕ) → i < used_between w r n → (w + 1) % n ≢ r → (r + 1 + i) % n ≢ (w + 1) % n
  slot_in_use-ne i lt ne = omega (
    arith,
    mod_once (w + n - r) n (omega arith),
    mod_once (w + 1) n (omega arith),
    mod_once (r + 1 + i) n (omega arith),
  )

  pub used_after_write : (w + 1) % n ≢ r → used_between ((w + 1) % n) r n ≡ suc (used_between w r n)
  used_after_write ne = omega (
    arith,
    mod_once (w + n - r) n (omega arith),
    mod_once (w + 1) n (omega arith),
    mod_once ((w + 1) % n + n - r) n (omega arith),
  )

  pub used_after_read : w ≢ r → suc (used_between w ((r + 1) % n) n) ≡ used_between w r n
  used_after_read ne = omega (
    arith,
    mod_once (w + n - r) n (omega arith),
    mod_once (r + 1) n (omega arith),
    mod_once (w + n - (r + 1) % n) n (omega arith),
  )

  pub full_iff_used : ((w + 1) % n ≡ r) ↔ (used_between w r n ≡ n - 1)
  full_iff_used = (
    λ e. omega (arith, mod_once (w + n - r) n (omega arith), mod_once (w + 1) n (omega arith)),
    λ e. omega (arith, mod_once (w + n - r) n (omega arith), mod_once (w + 1) n (omega arith)),
  )

  pub empty_iff_used : (r ≡ w) ↔ (used_between w r n ≡ 0)
  empty_iff_used = (
    λ e. omega (arith, mod_once (w + n - r) n (omega arith)),
    λ e. omega (arith, mod_once (w + n - r) n (omega arith)),
  )

pub slot_after_next :
    {r n : ℕ} (i : ℕ) → r < n → i < n → ((r + 1) % n + 1 + i) % n ≡ (r + 1 + (i + 1)) % n
slot_after_next {r} {n} i h k =
    rw (add_assoc ((r + 1) % n) 1 i, mod-add-mod (r + 1) n (1 + i)) (ap (λ t. t % n) (omega arith))
