-- ===== src/Board/Erase.antt =====
-- DeleteItem of higplat/higplat.cpp.
use g_plat.Prelude.{ℕ, ◌+◌, ◌-◌, ◌*◌, ◌||◌, List, ltb, if◌then◌else◌, move_down}
use g_plat.Errors.{Outcome, done, fail, fault, hang, error_item_not_exist}
use g_plat.Hash.{Slot, lost, missing, found, locate, index_size}
use g_plat.Hash.Change.{bury}
use g_plat.Board.{Board, Item, is_item, type_avg_size}

-- The closing loop of DeleteItem on one index entry, after the entry itself is marked.
abbrev pub shift_pos : ℕ → ℕ → ℕ → ℕ
shift_pos pos size p = if ltb pos p then p - size else p

abbrev pub shift_item : ℕ → ℕ → ℕ → ℕ → Item → Item
shift_item pos size type_pos type_size item = record item {
  start_pos = shift_pos pos size item.start_pos;
  type_addr = shift_pos type_pos type_size item.type_addr;
}

abbrev pub shift_slot : ℕ → ℕ → ℕ → ℕ → Slot Item → Slot Item
shift_slot pos size type_pos type_size s =
    if is_item s then record s { fields = shift_item pos size type_pos type_size s.fields } else s

-- The item in the slot `loc` taken out; the bytes behind it and behind its type move down.
unfoldable pub remove_item : Board → ℕ → Item → Board
remove_item b loc item = record b {
  index = λ t.
      shift_slot item.start_pos item.item_size item.type_addr item.type_size
        (bury b.index loc (record item { type_size = 0 }) t);
  mem =
      move_down
        (move_down b.mem item.start_pos item.item_size
          (b.data_size - item.start_pos - item.item_size))
        (b.data_size + item.type_addr) item.type_size
        (index_size * type_avg_size - item.type_addr - item.type_size);
  next_pos = b.next_pos - item.item_size;
  remain = b.remain + item.item_size;
  index_count = b.index_count - 1;
  next_type_pos = b.next_type_pos - item.type_size;
  type_remain = b.type_remain + item.type_size;
}

-- A negative length of a memmove is a huge one.
unfoldable pub delete_item : Board → List ℕ → Outcome (Unit {0}) × Board
unfolding remove_item
delete_item b name = elim (locate index_size b.index name) [
  | lost ↦ (hang, b)
  | missing ↦ (fail error_item_not_exist, b)
  | found loc ↦
      let item = (b.index loc).fields in
      if ltb b.data_size (item.start_pos + item.item_size)
        || ltb (index_size * type_avg_size) (item.type_addr + item.type_size)
      then (fault, b)
      else (done tt, remove_item b loc item)
]
