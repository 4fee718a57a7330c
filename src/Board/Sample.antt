-- ===== src/Board/Sample.antt =====
-- A board of 16 bytes with the item "a" of 4 bytes, for the tests.
use g_plat.Prelude.{ℕ, ◌≢◌, refl, sym, some, List, [], ◌∷◌, arith}
use g_plat.Hash.{index_size}
use g_plat.Hash.Directory.{Live}
use g_plat.Hash.Sample.{name_a, a-ne-nil, a-ne-grave, hash1-a, First-room}
use g_plat.FileTable.Insert.{IsName}
use g_plat.Board.{Board, init_board}
use g_plat.Board.Inv.{IsSound}
use g_plat.Board.Place.{Fits}
use g_plat.Board.Creation.{after_create, create-IsSound, create-Live_self}
use g_plat.Board.Fresh.{fresh-IsSound}

name_a-IsName : IsName name_a
name_a-IsName = record { some_bytes = a-ne-nil; no_grave = a-ne-grave; short = omega arith }

abbrev pub board0 : Board
board0 = init_board 16

pub board0-IsSound : IsSound board0
board0-IsSound = fresh-IsSound board0 refl refl refl refl refl

pub board0-absent : (k : List ℕ) → k ≢ [] → (j : ℕ) → ¬ Live index_size board0.index k j
board0-absent k ne j l = ne (sym l.named)

pub Fits-a : Fits board0 name_a 4 (some (7 ∷ 8 ∷ [])) 2
Fits-a = record {
  blank = record { slot = 0; in_range = omega arith; blank = refl };
  name = name_a-IsName;
  absent = board0-absent name_a a-ne-nil;
  room = omega arith;
  slots = omega arith;
  small = omega arith;
  buffer = omega arith;
}

-- With "a", created at the time 1 with a type of two bytes.
unfoldable pub board1 : Board
unfolding after_create
board1 =
    after_create board0 name_a 4 (some (7 ∷ 8 ∷ [])) 2 1 97 board0-IsSound Fits-a (omega arith)
      (First-room index_size board0.index name_a 97 hash1-a refl)

pub board1-IsSound : IsSound board1
unfolding board1
board1-IsSound =
    create-IsSound board0 name_a 4 (some (7 ∷ 8 ∷ [])) 2 1 97 board0-IsSound Fits-a (omega arith)
      (First-room index_size board0.index name_a 97 hash1-a refl)

pub board1-a : Live index_size board1.index name_a 97
unfolding board1
board1-a =
    create-Live_self board0 name_a 4 (some (7 ∷ 8 ∷ [])) 2 1 97 board0-IsSound Fits-a (omega arith)
      (First-room index_size board0.index name_a 97 hash1-a refl)
