-- ===== src/Database/Drop.antt =====
-- DeleteTable of higplat/higplat.cpp.
use g_plat.Prelude.{ℕ, ◌+◌, ◌-◌, ◌*◌, Bool, not, ◌&&◌, ◌||◌, List, ltb, if◌then◌else◌, move_down}
use g_plat.Errors.{Outcome, done, fail, fault, hang, error_table_not_exist}
use g_plat.Hash.{Slot, lost, missing, found, locate, index_size, is_blank}
use g_plat.Hash.Change.{bury}
use g_plat.Board.{type_avg_size}
use g_plat.Board.Erase.{shift_pos}
use g_plat.Database.{Database, Table}

abbrev pub is_table : Slot Table → Bool
is_table s = not (is_blank s.name) && not s.erased

abbrev pub shift_fields : ℕ → ℕ → ℕ → ℕ → Table → Table
shift_fields pos size type_pos type_size table = record table {
  start_pos = shift_pos pos size table.start_pos;
  type_addr = shift_pos type_pos type_size table.type_addr;
}

-- The closing loop of DeleteTable on one index entry, after the entry itself is marked.
abbrev pub shift_table : ℕ → ℕ → ℕ → ℕ → Slot Table → Slot Table
shift_table pos size type_pos type_size s =
    if is_table s
    then record s { fields = shift_fields pos size type_pos type_size s.fields }
    else s

-- The table in the slot `loc` taken out; the bytes behind it and behind its type move down.
unfoldable pub remove_table : Database → ℕ → Table → Database
remove_table d loc table =
    let size = table.record_size * table.max_count in
    record d {
      index = λ t.
          shift_table table.start_pos size table.type_addr table.type_size
            (bury d.index loc (record table { curr_count = 0; type_size = 0 }) t);
      mem =
          move_down (move_down d.mem table.start_pos size (d.data_size - table.start_pos - size))
            (d.data_size + table.type_addr) table.type_size
            (index_size * type_avg_size - table.type_addr - table.type_size);
      next_pos = d.next_pos - size;
      remain = d.remain + size;
      index_count = d.index_count - 1;
      next_type_pos = d.next_type_pos - table.type_size;
      type_remain = d.type_remain + table.type_size;
    }

-- A negative length of a memmove is a huge one.
unfoldable pub delete_table : Database → List ℕ → Outcome (Unit {0}) × Database
unfolding remove_table
delete_table d name = elim (locate index_size d.index name) [
  | lost ↦ (hang, d)
  | missing ↦ (fail error_table_not_exist, d)
  | found loc ↦
      let table = (d.index loc).fields in
      if ltb d.data_size (table.start_pos + table.record_size * table.max_count)
        || ltb (index_size * type_avg_size) (table.type_addr + table.type_size)
      then (fault, d)
      else (done tt, remove_table d loc table)
]
