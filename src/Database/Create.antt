-- ===== src/Database/Create.antt =====
-- CreateTable of higplat/higplat.cpp.
use g_plat.Prelude.{
  ℕ, ◌+◌, ◌-◌, ◌*◌, Bool, false, not, ◌&&◌, ◌||◌, Option, none, some, List, ltb, leb, ◌==◌,
  if◌then◌else◌, length, same_text, copy_in,
}
use g_plat.Errors.{
  Outcome, done, fail, fault, hang, error_no_space, error_table_already_exist, error_table_overflow,
  error_parameter_size,
}
use g_plat.Hash.{seek, seek_room, index_size}
use g_plat.Hash.Change.{put}
use g_plat.Queue.{overflows, type_max_size, max_msg_len}
use g_plat.Board.Add.{type_text}
use g_plat.Database.{Database, Table}

-- `pType != 0 && typeSize != 0 && typeSize < TYPEMAXSIZE && typeSize < pHead->typeremain`
abbrev pub keeps_table_type : Database → Option (List ℕ) → ℕ → Bool
keeps_table_type d none type_size = false
keeps_table_type d (some _) type_size =
    not (type_size == 0) && ltb type_size type_max_size && ltb type_size d.type_remain

-- The index entry of a new table: what is not assigned keeps the value that the slot had.
abbrev pub new_table : Database → Table → ℕ → ℕ → ℕ → Table
new_table d old record_size max_count now = record old {
  record_size = record_size;
  max_count = max_count;
  curr_count = 0;
  start_pos = d.next_pos;
  timestamp = now;
}

abbrev pub typed : Database → Table → Bool → ℕ → Table
typed d table kept type_size =
    if kept
    then record table { type_size = type_size; type_addr = d.next_type_pos }
    else record table { type_size = 0 }

-- The end of CreateTable, from `pHead->indexcount++` on. The rows are not zeroed.
unfoldable pub add_table : Database → ℕ → List ℕ → ℕ → ℕ → Option (List ℕ) → ℕ → ℕ → Database
add_table d loc name record_size max_count typ type_size now =
    let kept = keeps_table_type d typ type_size in
    record d {
      index_count = d.index_count + 1;
      next_pos = d.next_pos + record_size * max_count;
      remain = d.remain - record_size * max_count;
      next_type_pos = if kept then d.next_type_pos + type_size else d.next_type_pos;
      type_remain = if kept then d.type_remain - type_size else d.type_remain;
      index =
          put d.index loc name
            (typed d (new_table d (d.index loc).fields record_size max_count now) kept type_size);
      mem =
          if kept
          then copy_in d.mem (d.data_size + d.next_type_pos) (type_text typ type_size)
          else d.mem;
    }

-- The copies of the name and of the type stay within their buffers.
abbrev pub table_overruns : Database → List ℕ → Option (List ℕ) → ℕ → Bool
table_overruns d name typ type_size =
    leb 40 (length name)
    || (keeps_table_type d typ type_size && ltb (length (type_text typ type_size)) type_size)

unfoldable pub place_table :
    Database → List ℕ → ℕ → ℕ → Option (List ℕ) → ℕ → ℕ → Outcome (Unit {0}) × Database
place_table d name record_size max_count typ type_size now =
    elim (seek_room index_size d.index name) [
      | none ↦ (hang, d)
      | some loc ↦
          if d.index_count == index_size - 1
          then (fail error_table_overflow, d)
          else if table_overruns d name typ type_size
          then (fault, d)
          else (done tt, add_table d loc name record_size max_count typ type_size now)
    ]

unfoldable pub create_table :
    Database → List ℕ → ℕ → ℕ → Option (List ℕ) → ℕ → ℕ → Outcome (Unit {0}) × Database
unfolding place_table
create_table d name record_size max_count typ type_size now =
    if ltb max_msg_len record_size || ltb type_max_size type_size
    then (fail error_parameter_size, d)
    else elim (seek index_size d.index name) [
      | none ↦ (hang, d)
      | some loc ↦
          if same_text (d.index loc).name name && not (d.index loc).erased
          then (fail error_table_already_exist, d)
          else if overflows (record_size * max_count)
          then (fault, d)
          else if ltb d.remain (record_size * max_count)
          then (fail error_no_space, d)
          else place_table d name record_size max_count typ type_size now
    ]
