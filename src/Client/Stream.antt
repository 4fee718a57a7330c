-- ===== src/Client/Stream.antt =====
-- readn on a stream that comes in pieces.
use g_plat.Prelude.{
  ℕ, zero, suc, ◌-◌, ◌≤◌, ◌<◌, ◌≡◌, refl, sym, ap, ◌∙◌, some, List, [], ◌∷◌, ◌++◌, arith, length,
  take, drop, length-append,
}
use g_plat.Client.{Reading, got, interrupted, ended, broken, bytes, behind_all, readn}

-- The bytes that the answers of read bring.
abbrev pub stream : List Reading → List ℕ
stream [] = []
stream (got xs ∷ rs) = xs ++ stream rs
stream (interrupted ∷ rs) = stream rs
stream (ended ∷ rs) = []
stream (broken e ∷ rs) = []

-- Up to `n` bytes nothing but pieces and signals: each piece has some bytes, and no more than read
-- was asked for.
abbrev pub Brings : ℕ → List Reading → Type 0
Brings zero rs = Unit {0}
Brings (suc n) [] = ⊥
Brings (suc n) (got xs ∷ rs) =
    (0 < length xs) × ((length xs ≤ suc n) × Brings (suc n - length xs) rs)
Brings (suc n) (interrupted ∷ rs) = Brings (suc n) rs
Brings (suc n) (ended ∷ rs) = ⊥
Brings (suc n) (broken e ∷ rs) = ⊥

minus : (n m : ℕ) → n - m ≡ suc n - suc m
minus n m = omega arith

take-piece :
    (n : ℕ) (xs ys : List ℕ) → length xs ≤ n → take n (xs ++ ys) ≡ xs ++ take (n - length xs) ys
take-piece n [] ys h = ap (λ k. take k ys) (omega arith)
take-piece zero (x ∷ xs) ys h = absurd (omega arith)
take-piece (suc n) (x ∷ xs) ys h =
    ap (λ l. x ∷ l)
      (take-piece n xs ys (omega arith) ∙ ap (λ k. xs ++ take k ys) (minus n (length xs)))

drop-piece : (n : ℕ) (xs ys : List ℕ) → length xs ≤ n → drop n (xs ++ ys) ≡ drop (n - length xs) ys
drop-piece n [] ys h = ap (λ k. drop k ys) (omega arith)
drop-piece zero (x ∷ xs) ys h = absurd (omega arith)
drop-piece (suc n) (x ∷ xs) ys h =
    drop-piece n xs ys (omega arith) ∙ ap (λ k. drop k ys) (minus n (length xs))

-- However read cuts the stream and however often a signal comes between, readn gives the next `n`
-- bytes of the stream and leaves those behind them.
pub readn-stream :
    (n : ℕ) (rs : List Reading)
    → Brings n rs
    → (rest : List Reading) × (readn n rs ≡ some (bytes (take n (stream rs)), rest))
      × (length (take n (stream rs)) ≡ n)
      × (stream rest ≡ drop n (stream rs))
unfolding readn
readn-stream zero rs h = (rs, refl, refl, refl)
readn-stream (suc n) [] h = absurd h
readn-stream (suc n) (got xs ∷ rs) (some_bytes, (fits, more)) =
    let (rest, e, len, left) = readn-stream (suc n - length xs) rs more in
    (
      rest,
      ap (behind_all xs) e
          ∙ ap (λ l. some (bytes l, rest)) (sym (take-piece (suc n) xs (stream rs) fits)),
      omega (
        arith,
        ap length (take-piece (suc n) xs (stream rs) fits),
        length-append xs (take (suc n - length xs) (stream rs)),
        len,
        fits,
      ),
      left ∙ sym (drop-piece (suc n) xs (stream rs) fits),
    )
readn-stream (suc n) (interrupted ∷ rs) h = readn-stream (suc n) rs h
readn-stream (suc n) (ended ∷ rs) h = absurd h
readn-stream (suc n) (broken e ∷ rs) h = absurd h
