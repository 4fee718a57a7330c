-- ===== src/Hash/Count.antt =====
-- How many slots of a table are in use, and that a table that is not full has a blank slot.
use g_plat.Prelude.{
  ℕ, zero, suc, ◌+◌, ◌<◌, ◌≤◌, ◌≡◌, ◌≢◌, inl, inr, ap, refl, Bool, true, false, not, arith, update,
  if◌then◌else◌, ℕ_discrete, Bool-cases,
}
use g_plat.Hash.{Slot, is_blank}
use g_plat.Hash.Directory.{Blank}

-- `for (i = 0; i < n; i++) if (p(i)) j++;`
unfoldable pub count_below : ℕ → (ℕ → Bool) → ℕ
count_below zero p = 0
count_below (suc n) p = (if p n then 1 else 0) + count_below n p

pub count_below-le : (n : ℕ) (p : ℕ → Bool) → count_below n p ≤ n
unfolding count_below
count_below-le zero p = omega arith
count_below-le (suc n) p = ground (arith, count_below-le n p)

-- Where the count falls short one place fails the test.
pub count_below-lt :
    (n : ℕ) (p : ℕ → Bool) → count_below n p < n → (t : ℕ) × (t < n) × (p t ≡ false)
unfolding count_below
count_below-lt zero p h = absurd (omega arith)
count_below-lt (suc n) p h = elim (Bool-cases (p n)) [
  | inr miss ↦ (n, omega arith, miss)
  | inl hit ↦ let (t, lt, e) = count_below-lt n p (ground arith) in (t, omega arith, e)
]

pub count_below-congr :
    (n : ℕ) (p p' : ℕ → Bool) → ((t : ℕ) → t < n → p t ≡ p' t) → count_below n p ≡ count_below n p'
unfolding count_below
count_below-congr zero p p' h = refl
count_below-congr (suc n) p p' h =
    ground (arith, h n (omega arith), count_below-congr n p p' (λ t lt. h t (omega arith)))

pub count_below_none :
    (n : ℕ) (p : ℕ → Bool) → ((t : ℕ) → t < n → p t ≡ false) → count_below n p ≡ 0
unfolding count_below
count_below_none zero p h = refl
count_below_none (suc n) p h =
    ground (arith, h n (omega arith), count_below_none n p (λ t lt. h t (omega arith)))

-- One place comes to pass the test.
pub count_below-add :
    (n : ℕ) (p p' : ℕ → Bool) (t : ℕ)
    → t < n
    → p t ≡ false
    → p' t ≡ true
    → ((j : ℕ) → j ≢ t → p j ≡ p' j)
    → count_below n p' ≡ suc (count_below n p)
unfolding count_below
count_below-add zero p p' t h a b same = absurd (omega arith)
count_below-add (suc n) p p' t h a b same = elim (ℕ_discrete n t) [
  | yes e ↦ ground (arith, ap p e, ap p' e, count_below-congr n p p' (λ j lt. same j (omega arith)))
  | no ne ↦ ground (arith, same n ne, count_below-add n p p' t (omega arith) a b same)
]

module _ {ℓ} {A : Type ℓ} where
  abbrev pub in_use : (ℕ → Slot A) → ℕ → Bool
  in_use slots t = not (is_blank (slots t).name)

  pub used-lt-Blank :
      (size : ℕ) (slots : ℕ → Slot A) → count_below size (in_use slots) < size → Blank size slots
  used-lt-Blank size slots h =
      let (t, lt, e) = count_below-lt size (in_use slots) h in
      record { slot = t; in_range = lt; blank = ground arith }

  abbrev pub used : ℕ → (ℕ → Slot A) → ℕ
  used size slots = count_below size (in_use slots)

  -- A slot in use whose name is replaced by another, and a blank one that gets a name.
  pub used-update_same :
      (size : ℕ) (slots : ℕ → Slot A) (t : ℕ) (s : Slot A)
      → in_use slots t ≡ not (is_blank s.name)
      → used size (update slots t s) ≡ used size slots
  used-update_same size slots t s h =
      count_below-congr size (in_use (update slots t s)) (in_use slots) (λ j _. ground (arith, h))

  pub used-update_blank :
      (size : ℕ) (slots : ℕ → Slot A) (t : ℕ) (s : Slot A)
      → t < size
      → is_blank (slots t).name ≡ true
      → is_blank s.name ≡ false
      → used size (update slots t s) ≡ suc (used size slots)
  used-update_blank size slots t s lt b n =
      count_below-add size (in_use slots) (in_use (update slots t s)) t lt (ground (arith, b))
        (ground (arith, n)) (λ j ne. ground arith)
