-- ===== src/Message/Bytes.antt =====
-- Numbers and texts as bytes, and back.
use g_plat.Prelude.{
  ℕ, zero, suc, ap, ◌/◌, ◌%◌, ◌<◌, ◌≡◌, ◌≢◌, refl, List, [], ◌∷◌, ◌++◌, arith, length, take, drop,
}
use g_plat.Message.{to_le, of_le, pad, text_of}

-- `n` bytes are enough for `x`.
abbrev pub Fits : ℕ → ℕ → Type 0
Fits zero x = x ≡ 0
Fits (suc n) x = Fits n (x / 256)

pub of_le-to_le : (n x : ℕ) → Fits n x → of_le (to_le n x) ≡ x
unfolding of_le to_le
of_le-to_le zero x h = omega (arith, h)
of_le-to_le (suc n) x h = omega (arith, of_le-to_le n (x / 256) h)

-- A text as it can stand in a `char[]`: without a zero.
abbrev pub IsText : List ℕ → Type 0
IsText [] = Unit {0}
IsText (b ∷ t) = (b ≢ 0) × IsText t

text_of-zeros : (n : ℕ) → text_of (pad n []) ≡ []
unfolding text_of pad
text_of-zeros zero = refl
text_of-zeros (suc n) = refl

pub text_of-pad : (n : ℕ) (t : List ℕ) → IsText t → length t < n → text_of (pad n t) ≡ t
unfolding text_of pad
text_of-pad zero t v h = absurd (omega (arith, h))
text_of-pad (suc n) [] v h = refl
text_of-pad (suc n) (b ∷ t) v h = ground (arith, v.0, text_of-pad n t v.1 (omega (arith, h)))

pub take-pad : (n : ℕ) (t r : List ℕ) → take n (pad n t ++ r) ≡ pad n t
unfolding pad
take-pad zero t r = refl
take-pad (suc n) [] r = ap (λ x. 0 ∷ x) (take-pad n [] r)
take-pad (suc n) (b ∷ t) r = ap (λ x. b ∷ x) (take-pad n t r)

pub drop-pad : (n : ℕ) (t r : List ℕ) → drop n (pad n t ++ r) ≡ r
unfolding pad
drop-pad zero t r = refl
drop-pad (suc n) [] r = drop-pad n [] r
drop-pad (suc n) (b ∷ t) r = drop-pad n t r

pub take-to_le : (n x : ℕ) (r : List ℕ) → take n (to_le n x ++ r) ≡ to_le n x
unfolding to_le
take-to_le zero x r = refl
take-to_le (suc n) x r = ap (λ l. x % 256 ∷ l) (take-to_le n (x / 256) r)

pub drop-to_le : (n x : ℕ) (r : List ℕ) → drop n (to_le n x ++ r) ≡ r
unfolding to_le
drop-to_le zero x r = refl
drop-to_le (suc n) x r = drop-to_le n (x / 256) r

pub length-pad : (n : ℕ) (t : List ℕ) → length (pad n t) ≡ n
unfolding pad
length-pad zero t = refl
length-pad (suc n) [] = ap suc (length-pad n [])
length-pad (suc n) (b ∷ t) = ap suc (length-pad n t)

pub length-to_le : (n x : ℕ) → length (to_le n x) ≡ n
unfolding to_le
length-to_le zero x = refl
length-to_le (suc n) x = ap suc (length-to_le n (x / 256))
