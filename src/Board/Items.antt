-- ===== src/Board/Items.antt =====
-- Where the bytes of an item are read from, and what copies elsewhere leave of them.
use g_plat.Prelude.{
  ℕ, ◌+◌, ◌≤◌, ◌<◌, ◌≡◌, ◌≢◌, ◌⊎◌, refl, ap₂, ◌∙◌, List, [], ◌∷◌, arith, length, collect,
  collect-ext, copy_in,
}
use g_plat.Hash.{index_size}
use g_plat.Hash.Directory.{Live}
use g_plat.FileTable.Inv.{is_blank_name}
use g_plat.Board.{Board}
use g_plat.Board.Inv.{Holds}

pub copy_in-outside :
    (f : ℕ → ℕ) (pos : ℕ) (xs : List ℕ) (i : ℕ)
    → (i < pos) ⊎ (pos + length xs ≤ i)
    → copy_in f pos xs i ≡ f i
unfolding copy_in
copy_in-outside f pos [] i h = refl
copy_in-outside f pos (x ∷ xs) i h =
    let rest = copy_in-outside f (pos + 1) xs i (omega (arith, h)) in ground (arith, rest, h)

-- What is read back where bytes were copied in.
pub collect-copy_in :
    (f : ℕ → ℕ) (pos : ℕ) (xs : List ℕ) → collect (copy_in f pos xs) pos (length xs) ≡ xs
unfolding collect copy_in
collect-copy_in f pos [] = refl
collect-copy_in f pos (x ∷ xs) = ap₂ ◌∷◌ (ground arith) (
    collect-ext (copy_in f pos (x ∷ xs)) (copy_in f (pos + 1) xs) (pos + 1) (length xs)
      (λ k lo hi. ground arith)
    ∙ collect-copy_in f (pos + 1) xs)

pub Live-Holds : {b : Board} (k : List ℕ) {t : ℕ} → k ≢ [] → Live index_size b.index k t → Holds b t
Live-Holds {b} k {t} ne l = record {
  in_range = l.in_range;
  item = rw (l.named, is_blank_name k ne, l.kept) refl;
}
