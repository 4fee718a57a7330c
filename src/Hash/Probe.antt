-- ===== src/Hash/Probe.antt =====
-- The places that the search of hash1 and hash2 looks at.
use native.Mathlib.Nat.{
  mod-add-mod, add-mod-mod, add-mod_right, mod-eq_of_lt, mul-add-mod_self_left, div-add-mod,
}
use g_plat.Prelude.{
  ℕ, zero, suc, ◌+◌, ◌-◌, ◌*◌, ◌/◌, ◌%◌, ◌^◌, List, ◌<◌, ◌≤◌, ◌≡◌, refl, sym, ap, ◌∙◌, Bool, true,
  false, ◌||◌, arith, ◌==◌, if◌then◌else◌, ℕ_discrete,
}
use g_plat.Hash.{table_size, index_size, hash1, hash2}

-- The place after `j` rounds from `loc`.
unfoldable pub probe : ℕ → ℕ → ℕ → ℕ → ℕ
probe size c loc zero = loc
probe size c loc (suc j) = probe size c ((loc + c) % size) j

probe_closed : (size c loc j : ℕ) → loc < size → probe size c loc j ≡ (loc + j * c) % size
unfolding probe
probe_closed size c loc zero h =
    sym (mod-eq_of_lt {n = loc} {m = size} h) ∙ ap (λ t. t % size) (omega arith)
probe_closed size c loc (suc j) h =
    probe_closed size c ((loc + c) % size) j (omega arith)
    ∙ mod-add-mod (loc + c) size (j * c)
    ∙ ap (λ t. t % size) (omega arith)

pub inverse : ℕ → ℕ → ℕ
inverse size c = c ^ (size - 2) % size

is_undone : ℕ → ℕ → Bool
unfolding inverse
is_undone size c = c == 0 || c * inverse size c % size == 1

-- The steps that are smaller than `bound`, the largest first.
are_undone : ℕ → ℕ → Bool
are_undone size zero = true
are_undone size (suc c) = if is_undone size c then are_undone size c else false

undone_step :
    (size bound : ℕ) → are_undone size bound ≡ true → (c : ℕ) → c < bound → is_undone size c ≡ true
unfolding are_undone
undone_step size zero all c lt = absurd (omega arith)
undone_step size (suc b) all c lt = elim (ℕ_discrete c b) [
  | yes e ↦ ground (arith, ap (is_undone size) e)
  | no ne ↦ undone_step size b (ground arith) c (omega arith)
]

table_steps : are_undone table_size 275 ≡ true
unfolding are_undone is_undone
table_steps = refl

index_steps : are_undone index_size 275 ≡ true
unfolding are_undone is_undone
index_steps = refl

mod_mul : (a b m : ℕ) → a % m * b % m ≡ a * b % m
mod_mul a b m =
    sym (mul-add-mod_self_left m (a / m * b) (a % m * b))
    ∙ ap (λ t. t % m) (omega (arith, ap (λ t. t * b) (div-add-mod a m)))

-- A step that can be undone: then every place is reached, from every place.
pub Undoes : ℕ → ℕ → ℕ → Type 0
Undoes size c d = c * d % size ≡ 1

module _ (size c d loc t : ℕ) (u : c * d % size ≡ 1) (h : loc < size) (k : t < size) where
  -- the round in which the search that starts at `loc` comes to `t`
  abbrev pub round : ℕ
  round = (t + size - loc) * d % size

  way : round * c % size ≡ (t + size - loc) % size
  way =
      mod_mul ((t + size - loc) * d) c size
      ∙ ap (λ x. x % size) (omega arith)
      ∙ sym (mod_mul (c * d) (t + size - loc) size)
      ∙ rw u (ap (λ x. x % size) (omega arith))

  pub probe_round : probe size c loc round ≡ t
  probe_round =
      probe_closed size c loc round h
      ∙ sym (add-mod-mod loc (round * c) size)
      ∙ rw way (
          add-mod-mod loc (t + size - loc) size
          ∙ omega (
            arith,
            add-mod_right t size,
            mod-eq_of_lt {n = t} {m = size} k,
            ap (λ x. x % size) (regroup),
          ))
    where
      regroup : loc + (t + size - loc) ≡ t + size
      regroup = omega arith

probe-lt : (size c loc j : ℕ) → loc < size → probe size c loc j < size
unfolding probe
probe-lt size c loc zero h = h
probe-lt size c loc (suc j) h = probe-lt size c ((loc + c) % size) j (omega arith)

-- The place that the search for a name looks at in the round `j`.
unfoldable pub place : ℕ → List ℕ → ℕ → ℕ
place size key j = probe size (hash2 key) (hash1 key) j

-- What the search needs of the size of a table; `275` bounds every step.
pub record IsSize (size : ℕ) : Type 0 where
  pub large : table_size ≤ size
  pub steps : (c : ℕ) → 0 < c → c < 275 → c * inverse size c % size ≡ 1

step_of_table : (size c : ℕ) → is_undone size c ≡ true → 0 < c → c * inverse size c % size ≡ 1
unfolding is_undone
step_of_table size c h k = ground arith

pub table_size-IsSize : IsSize table_size
table_size-IsSize = record {
  large = omega arith;
  steps = λ c h k. step_of_table table_size c (undone_step table_size 275 table_steps c k) h;
}

pub index_size-IsSize : IsSize index_size
index_size-IsSize = record {
  large = omega arith;
  steps = λ c h k. step_of_table index_size c (undone_step index_size 275 index_steps c k) h;
}

pub hash1-lt : (key : List ℕ) → hash1 key < table_size
unfolding hash1
hash1-lt key = omega arith

hash2_bounds : (key : List ℕ) → (0 < hash2 key) × (hash2 key < 275)
unfolding hash2
hash2_bounds key = ground arith

module _ {size : ℕ} (big : IsSize size) (key : List ℕ) where
  pub place-lt : (j : ℕ) → place size key j < size
  unfolding place
  place-lt j = probe-lt size (hash2 key) (hash1 key) j (omega (arith, hash1-lt key, big.large))

  -- The steps of the search for any name, on a table of one of the two sizes of the program, lead to
  -- every slot within `size` rounds.
  pub place_covers : (t : ℕ) → t < size → (j : ℕ) × (j < size) × (place size key j ≡ t)
  unfolding place
  place_covers t h =
      let start : hash1 key < size = omega (arith, hash1-lt key, big.large) in
      let u = big.steps (hash2 key) (hash2_bounds key).0 (hash2_bounds key).1 in
      (
        round size (hash2 key) (inverse size (hash2 key)) (hash1 key) t u start h,
        omega arith,
        probe_round size (hash2 key) (inverse size (hash2 key)) (hash1 key) t u start h,
      )
