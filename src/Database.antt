-- ===== src/Database.antt =====
-- The databases of higplat/higplat.cpp: ClearDB, ClearTable, UpdateTable, InsertTable, RefreshTable
-- and SelectTable, on the database that the file maps.
pub mod Create
pub mod Drop
pub mod View
pub mod Alter
pub mod Spec
pub mod Refine
pub mod Run
pub mod Removal
pub mod Created
pub mod Creation
pub mod Fresh
pub mod Failure
mod Tests
use g_plat.Prelude.{
  false, ℕ, zero, suc, ◌+◌, ◌-◌, ◌*◌, Bool, not, ◌||◌, Option, none, some, List, [], ltb, leb, ◌==◌,
  if◌then◌else◌, length, take, update, collect, copy_in,
}
use g_plat.Errors.{
  Outcome, done, fail, refuse, fault, hang, error_recordsize, error_no_space, error_table_not_exist,
  error_table_rowid,
}
use g_plat.Queue.{overflows}
use g_plat.Hash.{Slot, lost, missing, found, locate, index_size}

-- `DB_INDEX_STRUCT` beside the name and the mark of a deletion.
pub record Table : Type 0 where
  pub start_pos : ℕ
  pub record_size : ℕ
  pub max_count : ℕ
  pub curr_count : ℕ
  pub timestamp : ℕ
  pub type_addr : ℕ
  pub type_size : ℕ

-- `DB_HEAD`, and in `mem` the bytes behind it: `data_size` of them for the rows, then the types.
pub record Database : Type 0 where
  pub counter : ℕ
  pub data_size : ℕ
  pub types_size : ℕ
  pub next_pos : ℕ
  pub next_type_pos : ℕ
  pub remain : ℕ
  pub type_remain : ℕ
  pub index_count : ℕ
  pub index : ℕ → Slot Table
  pub mem : ℕ → ℕ

abbrev pub no_table : Table
no_table = record {
  start_pos = 0;
  record_size = 0;
  max_count = 0;
  curr_count = 0;
  timestamp = 0;
  type_addr = 0;
  type_size = 0;
}

abbrev pub blank_tables : ℕ → Slot Table
blank_tables t = record { name = []; erased = false; fields = no_table }

pub clear_db : Database → Database
clear_db d = record d {
  index = blank_tables;
  remain = d.data_size;
  type_remain = d.types_size;
  counter = 0;
  next_pos = 0;
  next_type_pos = 0;
  index_count = 0;
}

abbrev pub set_table : Database → ℕ → Table → ℕ → Slot Table
set_table d loc table = update d.index loc (record (d.index loc) { fields = table })

pub clear_table : Database → List ℕ → ℕ → Outcome (Unit {0}) × Database
clear_table d name now = elim (locate index_size d.index name) [
  | lost ↦ (hang, d)
  | missing ↦ (fail error_table_not_exist, d)
  | found loc ↦ (
    done tt,
    record d {
      index = set_table d loc (record (d.index loc).fields { curr_count = 0; timestamp = now });
      counter = d.counter + 1;
    },
  )
]

pub update_found : Database → ℕ → ℕ → ℕ → List ℕ → Outcome (Unit {0}) × Database
update_found d loc rowid record_size row =
    let table = (d.index loc).fields in
    if not (record_size == table.record_size)
    then (fail error_recordsize, d)
    else if leb table.curr_count rowid
    then (fail error_table_rowid, d)
    else if ltb (length row) record_size
    then (fault, d)
    else (
      done tt,
      record d {
        mem = copy_in d.mem (table.start_pos + record_size * rowid) (take record_size row);
        counter = d.counter + 1;
      },
    )

-- `none` is a negative rowid. The time of the table is left alone.
pub update_table : Database → List ℕ → Option ℕ → ℕ → List ℕ → Outcome (Unit {0}) × Database
unfolding update_found
update_table d name none record_size row = (done tt, d)
update_table d name (some rowid) record_size row =
    if record_size == 0 then (done tt, d) else elim (locate index_size d.index name) [
      | lost ↦ (hang, d)
      | missing ↦ (fail error_table_not_exist, d)
      | found loc ↦ update_found d loc rowid record_size row
    ]

-- `count` rows put behind the `from` first ones.
abbrev pub put_rows : Database → ℕ → ℕ → ℕ → ℕ → List ℕ → ℕ → Database
put_rows d loc from count record_size rows now =
    let table = (d.index loc).fields in
    record d {
      mem = copy_in d.mem (table.start_pos + record_size * from) (take (record_size * count) rows);
      index = set_table d loc (record table { curr_count = from + count; timestamp = now });
      counter = d.counter + 1;
    }

pub insert_found : Database → ℕ → ℕ → ℕ → List ℕ → ℕ → Outcome (Unit {0}) × Database
insert_found d loc count record_size rows now =
    let table = (d.index loc).fields in
    if not (record_size == table.record_size)
    then (fail error_recordsize, d)
    else if overflows (table.curr_count + count)
    then (fault, d)
    else if ltb table.max_count (table.curr_count + count)
    then (fail error_no_space, d)
    else if ltb (length rows) (record_size * count)
    then (fault, d)
    else (done tt, put_rows d loc table.curr_count count record_size rows now)

pub insert_table : Database → List ℕ → ℕ → ℕ → List ℕ → ℕ → Outcome (Unit {0}) × Database
unfolding insert_found
insert_table d name count record_size rows now =
    if count == 0 || record_size == 0 then (done tt, d) else elim (locate index_size d.index name) [
      | lost ↦ (hang, d)
      | missing ↦ (fail error_table_not_exist, d)
      | found loc ↦ insert_found d loc count record_size rows now
    ]

-- `currcount` is set to 0 before the test for space, and stays so where the test fails.
pub refresh_found : Database → ℕ → ℕ → ℕ → List ℕ → ℕ → Outcome (Unit {0}) × Database
refresh_found d loc count record_size rows now =
    let table = (d.index loc).fields in
    if not (record_size == table.record_size)
    then (fail error_recordsize, d)
    else if ltb table.max_count (0 + count)
    then (
      fail error_no_space,
      record d { index = set_table d loc (record table { curr_count = 0 }) },
    )
    else if ltb (length rows) (record_size * count)
    then (fault, d)
    else (done tt, put_rows d loc 0 count record_size rows now)

pub refresh_table : Database → List ℕ → ℕ → ℕ → List ℕ → ℕ → Outcome (Unit {0}) × Database
unfolding refresh_found
refresh_table d name count record_size rows now =
    if count == 0 || record_size == 0 then (done tt, d) else elim (locate index_size d.index name) [
      | lost ↦ (hang, d)
      | missing ↦ (fail error_table_not_exist, d)
      | found loc ↦ refresh_found d loc count record_size rows now
    ]

-- What goes out of SelectTable: `rows` is `none` for a null pointer.
pub record Selected : Type 0 where
  pub rows : Option (List ℕ)
  pub count : ℕ
  pub record_size : ℕ
  pub write_time : ℕ

select_found : Bool → Database → Table → Outcome Selected
select_found allocated d table =
    if table.curr_count == 0
    then done (record {
      rows = none;
      count = 0;
      record_size = table.record_size;
      write_time = table.timestamp;
    })
    else if allocated
    then done (record {
      rows = some (collect d.mem table.start_pos (table.record_size * table.curr_count));
      count = table.curr_count;
      record_size = table.record_size;
      write_time = table.timestamp;
    })
    else refuse

-- `allocated` is the answer of malloc.
pub select_table : Bool → Database → List ℕ → Outcome Selected
unfolding select_found
select_table allocated d name = elim (locate index_size d.index name) [
  | lost ↦ hang
  | missing ↦ fail error_table_not_exist
  | found loc ↦ select_found allocated d (d.index loc).fields
]
