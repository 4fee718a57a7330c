-- ===== src/Library/Found.antt =====
-- A call by the name of a file that is mapped.
use g_plat.Prelude.{ℕ, ◌≡◌, ap, List, arith, fun_ext}
use g_plat.Errors.{Outcome, done}
use g_plat.FileTable.{fetch_tab, Handles}
use g_plat.Queue.{Queue}
use g_plat.Board.{Board}
use g_plat.Library.{
  Library, Mapped, board_file, queue_file, set_mapped, on_board, on_queue, fetched, board_at,
  queue_at,
}

pub on_board-found :
    {A : Type 0} (L : Library) (name : List ℕ) (call : Board → Outcome A × Board) {hd : Handles}
    {b : Board}
    → fetch_tab L.table name ≡ done hd
    → L.mapped hd.map_address ≡ board_file b
    → on_board L name call ≡ ((call b).0, set_mapped L hd.map_address (board_file (call b).1))
unfolding on_board fetched
on_board-found L name call {hd} e m = rw (e, fetched) (ap (board_at L call hd.map_address) m)

pub on_queue-found :
    {A : Type 0} (L : Library) (name : List ℕ) (call : Queue → Outcome A × Queue) {hd : Handles}
    {q : Queue}
    → fetch_tab L.table name ≡ done hd
    → L.mapped hd.map_address ≡ queue_file q
    → on_queue L name call ≡ ((call q).0, set_mapped L hd.map_address (queue_file (call q).1))
unfolding on_queue fetched
on_queue-found L name call {hd} e m = rw (e, fetched) (ap (queue_at L call hd.map_address) m)

pub mapped-set_mapped :
    (L : Library) (a : ℕ) (file : Mapped) → (set_mapped L a file).mapped a ≡ file
mapped-set_mapped L a file = ground arith

pub set_mapped-same :
    (L : Library) (a : ℕ) (file : Mapped) → L.mapped a ≡ file → set_mapped L a file ≡ L
set_mapped-same L a file e = ap (λ f. record L { mapped = f }) (fun_ext (λ i. ground (arith, e)))
