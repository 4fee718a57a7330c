-- ===== src/Database/View.antt =====
-- A database seen as a board: the rows that a table has place for are the bytes of one item.
use g_plat.Prelude.{ℕ, ◌*◌, ◌≤◌, ◌≢◌, refl, Option, none, some, List, [], collect}
use g_plat.Hash.{Slot, index_size}
use g_plat.Hash.Directory.{Live, WellPlaced}
use g_plat.Hash.Bury.{SameNames, Live-same, same-WellPlaced}
use g_plat.Hash.Lookup.{entry_of}
use g_plat.Board.{Board, Item}
use g_plat.Board.Inv.{IsSound, Holds}
use g_plat.Board.Items.{Live-Holds}
use g_plat.Database.{Database, Table}

abbrev pub as_item : Table → Item
as_item table = record {
  start_pos = table.start_pos;
  item_size = table.record_size * table.max_count;
  str_lenth = 0;
  timestamp = table.timestamp;
  type_addr = table.type_addr;
  type_size = table.type_size;
}

abbrev pub as_slot : Slot Table → Slot Item
as_slot s = record { name = s.name; erased = s.erased; fields = as_item s.fields }

abbrev pub as_items : (ℕ → Slot Table) → ℕ → Slot Item
as_items slots t = as_slot (slots t)

abbrev pub as_board : Database → Board
as_board d = record {
  counter = d.counter;
  data_size = d.data_size;
  types_size = d.types_size;
  next_pos = d.next_pos;
  next_type_pos = d.next_type_pos;
  remain = d.remain;
  type_remain = d.type_remain;
  index_count = d.index_count;
  index = as_items d.index;
  mem = d.mem;
}

-- The board is sound, and no table has more rows than it has place for.
pub record IsIntact (d : Database) : Type 0 where
  pub board : IsSound (as_board d)
  pub counts : (t : ℕ) → (d.index t).fields.curr_count ≤ (d.index t).fields.max_count

module _ (d : Database) where
  pub as_items-SameNames : SameNames (as_items d.index) d.index
  as_items-SameNames = record { names = λ t. refl; marks = λ t. refl }

  pub Live-as_items :
      (k : List ℕ) (t : ℕ) → Live index_size d.index k t → Live index_size (as_board d).index k t
  Live-as_items k t l = (Live-same index_size as_items-SameNames k t).0 l

  pub intact-WellPlaced : IsIntact d → WellPlaced index_size d.index
  intact-WellPlaced v = same-WellPlaced index_size as_items-SameNames v.board.placed

  pub Live-Holds_table :
      (k : List ℕ) {t : ℕ} → k ≢ [] → Live index_size d.index k t → Holds (as_board d) t
  Live-Holds_table k {t} ne l = Live-Holds k ne (Live-as_items k t l)

-- What the functions say of one table: its rows are the `bytes` of `count` records.
pub record Rows : Type 0 where
  pub record_size : ℕ
  pub max_count : ℕ
  pub count : ℕ
  pub bytes : List ℕ
  pub time : ℕ

abbrev pub rows_of : (ℕ → ℕ) → Table → Rows
rows_of mem table = record {
  record_size = table.record_size;
  max_count = table.max_count;
  count = table.curr_count;
  bytes = collect mem table.start_pos (table.record_size * table.curr_count);
  time = table.timestamp;
}

abbrev pub rows_at : (ℕ → ℕ) → Option Table → Option Rows
rows_at mem none = none
rows_at mem (some table) = some (rows_of mem table)

-- The tables as a map from names to rows.
unfoldable pub content : Database → List ℕ → Option Rows
content d k = rows_at d.mem (entry_of index_size d.index k)
