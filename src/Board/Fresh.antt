-- ===== src/Board/Fresh.antt =====
-- The boards without items: what CreateB makes, and what ClearB leaves.
use g_plat.Prelude.{ℕ, ◌+◌, ◌*◌, ◌≤◌, ◌<◌, ◌≡◌, ◌≢◌, refl, sym, ap, ◌∙◌, List, [], arith, length}
use g_plat.Errors.{done, fail, error_tag_not_exist}
use g_plat.Hash.{index_size}
use g_plat.Hash.Probe.{index_size-IsSize}
use g_plat.Hash.Directory.{WellPlaced, locate_missing}
use g_plat.Queue.{FileAnswers}
use g_plat.Queue.Create.{AllWell, open_file-done}
use g_plat.Board.{Board, blank_index, init_board, create_b, clear_b, read_b, type_avg_size}
use g_plat.Board.Inv.{IsSound, Holds}

blank-WellPlaced : WellPlaced index_size blank_index
blank-WellPlaced = record {
  placed = λ k t ne l. absurd (ne (sym l.named));
  graves = λ t lt e. cc;
  lives = λ t lt e g. cc;
}

-- A board that has an index of blank slots and counts all its bytes as free.
module _ (b : Board) (index : b.index ≡ blank_index) (next : b.next_pos ≡ 0)
    (next_type : b.next_type_pos ≡ 0) (remain : b.remain ≡ b.data_size)
    (type_remain : b.type_remain ≡ index_size * type_avg_size) where
  no-Holds : (t : ℕ) → ¬ Holds b t
  no-Holds t h = ground (arith, h.item, index)

  pub fresh-IsSound : IsSound b
  fresh-IsSound = record {
    placed = rw index blank-WellPlaced;
    sums = omega (arith, next, remain);
    inside = λ t h. absurd (no-Holds t h);
    apart = λ t u h g ne. absurd (no-Holds t h);
    type_sums = omega (arith, next_type, type_remain);
    type_inside = λ t h. absurd (no-Holds t h);
    types_apart = λ t u h g ne. absurd (no-Holds t h);
    type_addrs = λ t. rw index (omega arith);
  }

  pub fresh-read : (k : List ℕ) (n : ℕ) → k ≢ [] → read_b b k n ≡ fail error_tag_not_exist
  unfolding read_b
  fresh-read k n ne =
      rw
        (
          locate_missing index_size-IsSize b.index k
              (record { slot = 0; in_range = omega arith; blank = rw index refl })
              (λ t l. ne (sym l.named ∙ ap (λ x. (x t).name) index)),
          read_b,
        )
        refl

-- Given file steps that succeed and a name of at most 40 bytes, CreateB makes a sound board on which
-- every name is missing.
pub create_b-IsSound :
    (os : FileAnswers) (path name : List ℕ) (size : ℕ) (k : List ℕ) (n : ℕ)
    → AllWell os
    → length name ≤ 40
    → length path + length name < 100
    → k ≢ []
    → (b : Board) × (create_b os path name size ≡ done b)
      × IsSound b
      × (read_b b k n ≡ fail error_tag_not_exist)
unfolding create_b
create_b-IsSound os path name size k n w short fits ne = (
  init_board size,
  rw (open_file-done os path name w short fits, create_b) refl,
  fresh-IsSound (init_board size) refl refl refl refl refl,
  fresh-read (init_board size) refl refl refl refl refl k n ne,
)

-- ClearB, on a board whose area for the types has the size that CreateB gave it, leaves a sound board
-- on which every name is missing.
pub clear_b-IsSound :
    (b : Board) (k : List ℕ) (n : ℕ)
    → b.types_size ≡ index_size * type_avg_size
    → k ≢ []
    → IsSound (clear_b b) × (read_b (clear_b b) k n ≡ fail error_tag_not_exist)
unfolding clear_b
clear_b-IsSound b k n e ne =
    (fresh-IsSound _ refl refl refl refl e, fresh-read _ refl refl refl refl e k n ne)
