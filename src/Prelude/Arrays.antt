-- ===== src/Prelude/Arrays.antt =====
-- C arrays as functions of the index: a write gives the function anew at one place.
use Prim.Native.Nat.{ℕ, zero, suc, ◌+◌, ◌-◌, ◌≤◌, ◌<◌, min}
use mathlib.Core.Path.{◌≡◌, refl, ap, ap₂, ◌∙◌}
use mathlib.Core.Bool.{◌&&◌}
use mathlib.Core.List.{List, [], ◌∷◌, ◌++◌}
use native.Mathlib.Omega.{arith}
use native.Mathlib.Nat.{add-zero, add_assoc}
use g_plat.Prelude.Lists.{length, take, drop}
use g_plat.Prelude.Tests.{◌==◌, ltb, leb, if◌then◌else◌}

module _ {ℓ} {A : Type ℓ} where
  abbrev pub update : (ℕ → A) → ℕ → A → ℕ → A
  update f i v j = if j == i then v else f j

  -- f i, f (i + 1), ..., `n` entries
  unfoldable pub collect : (ℕ → A) → ℕ → ℕ → List A
  collect f i zero = []
  collect f i (suc n) = f i ∷ collect f (i + 1) n

  -- `memcpy(f + pos, bytes, n)`, `memset(f + pos, a, n)` and `memmove(f + pos, f + pos + k, n)`
  unfoldable pub copy_in : (ℕ → A) → ℕ → List A → ℕ → A
  copy_in f pos [] i = f i
  copy_in f pos (a ∷ as') i = if i == pos then a else copy_in f (pos + 1) as' i

  abbrev pub fill : (ℕ → A) → ℕ → ℕ → A → ℕ → A
  fill f pos n a i = if leb pos i && ltb i (pos + n) then a else f i

  abbrev pub move_down : (ℕ → A) → ℕ → ℕ → ℕ → ℕ → A
  move_down f pos k n i = if leb pos i && ltb i (pos + n) then f (i + k) else f i

  pub length-collect : (f : ℕ → A) (i n : ℕ) → length (collect f i n) ≡ n
  unfolding collect
  length-collect f i zero = refl
  length-collect f i (suc n) = ap suc (length-collect f (i + 1) n)

  pub collect-ext :
      (f g : ℕ → A) (i n : ℕ)
      → ((k : ℕ) → i ≤ k → k < i + n → f k ≡ g k)
      → collect f i n ≡ collect g i n
  unfolding collect
  collect-ext f g i zero h = refl
  collect-ext f g i (suc n) h =
      rw (h i (omega arith) (omega arith))
        (ap (λ t. g i ∷ t) (collect-ext f g (i + 1) n (λ k lo hi. h k (omega arith) (omega arith))))

  pub collect-snoc : (f : ℕ → A) (i n : ℕ) → collect f i (suc n) ≡ collect f i n ++ f (i + n) ∷ []
  unfolding collect
  collect-snoc f i zero = let e : i ≡ i + 0 = omega arith in ap (λ k. f k ∷ []) e
  collect-snoc f i (suc n) =
      let e : i + 1 + n ≡ i + suc n = omega arith in
      ap (λ t. f i ∷ t) (collect-snoc f (i + 1) n ∙ ap (λ k. collect f (i + 1) n ++ f k ∷ []) e)

  pub collect-shift : (f : ℕ → A) (i n : ℕ) → collect f (i + 1) n ≡ collect (λ k. f (k + 1)) i n
  unfolding collect
  collect-shift f i zero = refl
  collect-shift f i (suc n) = ap (λ t. f (i + 1) ∷ t) (collect-shift f (i + 1) n)

  pub collect-cons :
      (f : ℕ → A) (i n : ℕ) → collect f i (suc n) ≡ f i ∷ collect (λ k. f (k + 1)) i n
  unfolding collect
  collect-cons f i n = ap (λ t. f i ∷ t) (collect-shift f i n)

  pub take-collect : (f : ℕ → A) (i n m : ℕ) → take m (collect f i n) ≡ collect f i (min m n)
  unfolding collect
  take-collect f i n zero = let e : 0 ≡ min 0 n = omega arith in ap (collect f i) e
  take-collect f i zero (suc m) = let e : 0 ≡ min (suc m) 0 = omega arith in ap (collect f i) e
  take-collect f i (suc n) (suc m) =
      let e : suc (min m n) ≡ min (suc m) (suc n) = omega arith in
      ap (λ t. f i ∷ t) (take-collect f (i + 1) n m) ∙ ap (collect f i) e

  pub drop-collect : (f : ℕ → A) (i n m : ℕ) → drop m (collect f i n) ≡ collect f (i + m) (n - m)
  unfolding collect
  drop-collect f i n zero =
      let e : i ≡ i + 0 = omega arith in let k : n ≡ n - 0 = omega arith in ap₂ (collect f) e k
  drop-collect f i zero (suc m) =
      let k : 0 ≡ 0 - suc m = omega arith in ap (collect f (i + suc m)) k
  drop-collect f i (suc n) (suc m) =
      let e : i + 1 + m ≡ i + suc m = omega arith in
      let k : n - m ≡ suc n - suc m = omega arith in
      drop-collect f (i + 1) n m ∙ ap₂ (collect f) e k

  -- two functions that agree from two places on
  pub collect-align :
      (f g : ℕ → A) (i j n : ℕ)
      → ((k : ℕ) → k < n → f (i + k) ≡ g (j + k))
      → collect f i n ≡ collect g j n
  unfolding collect
  collect-align f g i j zero h = refl
  collect-align f g i j (suc n) h = ap₂ ◌∷◌ (rw (← add-zero i, ← add-zero j) (h 0 (omega arith))) (
      collect-align f g (i + 1) (j + 1) n
        (λ k lt. rw (add_assoc i 1 k, add_assoc j 1 k) (h (1 + k) (omega arith))))

  pub collect-append :
      (f : ℕ → A) (i n m : ℕ) → collect f i (n + m) ≡ collect f i n ++ collect f (i + n) m
  unfolding collect
  collect-append f i zero m = ap₂ (collect f) (omega arith) (omega arith)
  collect-append f i (suc n) m =
      let e : suc n + m ≡ suc (n + m) = omega arith in
      ap (collect f i) e
      ∙ ap (λ t. f i ∷ t)
          (collect-append f (i + 1) n m
            ∙ ap (λ k. collect f (i + 1) n ++ collect f k m) (omega arith))
