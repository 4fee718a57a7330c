-- ===== src/Library.antt =====
-- The calls of higplat/higplat.cpp by the name of a file: fetchtab gives the address of the mapping,
-- and the call works there.
pub mod Found
use g_plat.Prelude.{ℕ, ◌+◌, Option, List, ltb, ◌==◌, if◌then◌else◌, length, update, collect}
use g_plat.Errors.{Outcome, done, fail, refuse, fault, hang, error_parameter_size}
use g_plat.Hash.{lost, missing, found, locate, index_size}
use g_plat.FileTable.{FileTable, fetch_tab}
use g_plat.Queue.{Queue, type_max_size}
use g_plat.Board.{Board, clear_b, read_type}
use g_plat.Board.Add.{create_item}
use g_plat.Database.{Database}

-- What is mapped at an address, by the `qbdtype` at its start.
pub data Mapped : Type 0 where
  nothing : Mapped
  queue_file : Queue → Mapped
  board_file : Board → Mapped
  database_file : Database → Mapped

-- The table of the files, the mappings, and `errorCode`, of which each thread has its own.
pub record Library : Type 0 where
  pub table : FileTable
  pub mapped : ℕ → Mapped
  pub error_code : ℕ → ℕ

abbrev pub set_mapped : Library → ℕ → Mapped → Library
set_mapped L a file = record L { mapped = update L.mapped a file }

-- The beginning of the calls: `if (!fetchtab(name, tabmsg)) return false`.
unfoldable pub fetched :
    {A : Type 0} → Library → List ℕ → (ℕ → Mapped → Outcome A × Library) → Outcome A × Library
fetched L name call = elim (fetch_tab L.table name) [
  | done h ↦ call h.map_address (L.mapped h.map_address)
  | fail e ↦ (fail e, L)
  | refuse ↦ (refuse, L)
  | fault ↦ (fault, L)
  | hang ↦ (hang, L)
]

-- The calls take the mapping for a queue, or a board, without a look at its `qbdtype`.
abbrev pub queue_at :
    {A : Type 0} → Library → (Queue → Outcome A × Queue) → ℕ → Mapped → Outcome A × Library
queue_at L call a (queue_file q) = let (o, q') = call q in (o, set_mapped L a (queue_file q'))
queue_at L call a _ = (fault, L)

abbrev pub board_at :
    {A : Type 0} → Library → (Board → Outcome A × Board) → ℕ → Mapped → Outcome A × Library
board_at L call a (board_file b) = let (o, b') = call b in (o, set_mapped L a (board_file b'))
board_at L call a _ = (fault, L)

unfoldable pub on_queue :
    {A : Type 0} → Library → List ℕ → (Queue → Outcome A × Queue) → Outcome A × Library
unfolding fetched
on_queue L name call = fetched L name (queue_at L call)

unfoldable pub on_board :
    {A : Type 0} → Library → List ℕ → (Board → Outcome A × Board) → Outcome A × Library
unfolding fetched
on_board L name call = fetched L name (board_at L call)

-- ClearB looks at the `qbdtype`.
abbrev pub clear_at : Library → ℕ → Mapped → Outcome (Unit {0}) × Library
clear_at L a (board_file b) = (done tt, set_mapped L a (board_file (clear_b b)))
clear_at L a nothing = (fault, L)
clear_at L a _ = (refuse, L)

unfoldable pub clear_b_named : Library → List ℕ → Outcome (Unit {0}) × Library
unfolding fetched
clear_b_named L name = fetched L name (clear_at L)

-- CreateItem tests the size of the type before fetchtab.
unfoldable pub create_item_named :
    Library → List ℕ → List ℕ → ℕ → Option (List ℕ) → ℕ → ℕ → Outcome (Unit {0}) × Library
unfolding on_board
create_item_named L board name item_size typ type_size now =
    if ltb type_max_size type_size
    then (fail error_parameter_size, L)
    else on_board L board (λ b. create_item b name item_size typ type_size now)

-- The case of a database in ReadType.
unfoldable pub table_type : Database → List ℕ → Outcome (List ℕ)
table_type d name = elim (locate index_size d.index name) [
  | lost ↦ hang
  | missing ↦ refuse
  | found loc ↦
      let table = (d.index loc).fields in
      if table.type_size == 0
      then refuse
      else done (collect d.mem (d.data_size + table.type_addr) table.type_size)
]

-- ReadType of a queue gives the queue's type, of a board the item's.
abbrev pub type_at : Library → List ℕ → ℕ → Mapped → Outcome (List ℕ) × Library
type_at L name a nothing = (fault, L)
type_at L name a (queue_file q) = (done q.type_area, L)
type_at L name a (board_file b) = (read_type b name, L)
type_at L name a (database_file d) = (table_type d name, L)

-- The copy into a buffer of `n` bytes, which the calls below make without a look at its size.
abbrev pub fits : {B : Type 0} → ℕ → (B → List ℕ) → Outcome B × Library → Outcome B × Library
fits n bytes (done x, L) = if ltb n (length (bytes x)) then (fault, L) else (done x, L)
fits n bytes (fail e, L) = (fail e, L)
fits n bytes (refuse, L) = (refuse, L)
fits n bytes (fault, L) = (fault, L)
fits n bytes (hang, L) = (hang, L)

unfoldable pub read_type_named : Library → List ℕ → List ℕ → ℕ → Outcome (List ℕ) × Library
unfolding fetched table_type
read_type_named L file name buff_size =
    fits buff_size (λ typ. typ) (fetched L file (type_at L name))
