-- ===== src/FileTable.antt =====
-- The table of the files that the process has mapped: inserttab, fetchtab, fetchtab1, deletetab,
-- LoadQ, UnloadQ, UnloadAll and FlushQFile of higplat/higplat.cpp.
pub mod Inv
pub mod Insert
pub mod Delete
pub mod Flush
pub mod Sample
mod Tests
use g_plat.Prelude.{
  ℕ, zero, suc, ◌+◌, ◌-◌, Bool, false, not, ◌&&◌, Option, none, some, List, [], ◌∷◌, ltb, leb, ◌==◌,
  if◌then◌else◌, length, update,
}
use g_plat.Errors.{
  Outcome, done, fail, refuse, fault, hang, error_record_not_exist, error_table_overflow,
  error_already_load,
}
use g_plat.Hash.{
  Slot, Located, lost, missing, found, locate, seek_room, table_size, is_blank, grave,
}
use g_plat.Hash.Change.{put, bury}

-- What the calls copy out of an entry: file descriptor, mapped address, mutexes. A mutex pointer
-- that is null is `none`.
pub record Handles : Type 0 where
  pub h_file : ℕ
  pub map_address : ℕ
  pub h_map_file : ℕ
  pub h_mutex : ℕ
  pub rw_mutex : Option ℕ

-- The fields of `TABLE_MSG` beside the name and the mark of a deletion.
pub record TableMsg : Type 0 where
  pub handles : Handles
  pub count : ℕ
  pub file_size : ℕ

-- `table`, all zero at the start, and `tabCounter`
pub record FileTable : Type 0 where
  pub slots : ℕ → Slot TableMsg
  pub tab_counter : ℕ

abbrev no_handles : Handles
no_handles = record { h_file = 0; map_address = 0; h_map_file = 0; h_mutex = 0; rw_mutex = none }

abbrev pub init_table : FileTable
init_table = record {
  slots = λ t. record {
    name = [];
    erased = false;
    fields = record { handles = no_handles; count = 0; file_size = 0 };
  };
  tab_counter = 0;
}

-- The entry as both branches of inserttab leave it: `filesize` is not among the fields assigned.
abbrev pub entered : TableMsg → TableMsg → TableMsg
entered old tabmsg = record old { handles = tabmsg.handles; count = old.count + 1 }

store : FileTable → ℕ → List ℕ → TableMsg → ℕ → FileTable
store T loc dqname tabmsg counter = record {
  slots = put T.slots loc dqname (entered (T.slots loc).fields tabmsg);
  tab_counter = counter;
}

-- `dqname` has room for 39 bytes and the closing zero.
pub insert_tab : FileTable → List ℕ → TableMsg → Outcome (Unit {0}) × FileTable
unfolding store
insert_tab T dqname tabmsg =
    if leb 40 (length dqname) then (fault, T) else elim (seek_room table_size T.slots dqname) [
      | none ↦ (hang, T)
      | some loc ↦
          if (T.slots loc).erased
          then (done tt, store T loc dqname tabmsg T.tab_counter)
          else if T.tab_counter == table_size - 1
          then (fail error_table_overflow, T)
          else (done tt, store T loc dqname tabmsg (T.tab_counter + 1))
    ]

pub fetch_tab : FileTable → List ℕ → Outcome Handles
fetch_tab T dqname = elim (locate table_size T.slots dqname) [
  | lost ↦ hang
  | missing ↦ fail error_record_not_exist
  | found loc ↦ done (T.slots loc).fields.handles
]

abbrev pub with_count : FileTable → ℕ → ℕ → FileTable
with_count T loc n = record T {
  slots =
      update T.slots loc
        (record (T.slots loc) { fields = record (T.slots loc).fields { count = n } });
}

pub fetch_tab1 : FileTable → List ℕ → Outcome Handles × FileTable
fetch_tab1 T dqname = elim (locate table_size T.slots dqname) [
  | lost ↦ (hang, T)
  | missing ↦ (fail error_record_not_exist, T)
  | found loc ↦
      (done (T.slots loc).fields.handles, with_count T loc ((T.slots loc).fields.count + 1))
]

-- `--count < 1` is `count <= 1`; the entry's fields but the count stay in the slot.
pub delete_tab : FileTable → List ℕ → Outcome Handles × FileTable
delete_tab T dqname = elim (locate table_size T.slots dqname) [
  | lost ↦ (hang, T)
  | missing ↦ (fail error_record_not_exist, T)
  | found loc ↦
      if leb (T.slots loc).fields.count 1
      then (
        done (T.slots loc).fields.handles,
        record T { slots = bury T.slots loc (record (T.slots loc).fields { count = 0 }) },
      )
      else (refuse, with_count T loc ((T.slots loc).fields.count - 1))
]

-- What the operating system answers to LoadQ: the mapped file, or `none` where open, fstat or mmap
-- fails; whether the file is a board or a database says if there is a mutex in its head.
pub record Opened : Type 0 where
  pub h_file : ℕ
  pub map_address : ℕ
  pub file_size : ℕ
  pub rw_mutex : Option ℕ
  pub h_mutex : ℕ

abbrev pub opened_msg : Opened → TableMsg
opened_msg o = record {
  handles = record {
    h_file = o.h_file;
    map_address = o.map_address;
    h_map_file = 0;
    h_mutex = o.h_mutex;
    rw_mutex = o.rw_mutex;
  };
  count = 0;
  file_size = o.file_size;
}

-- The rest of LoadQ, for a name that is not loaded: `path` is the directory of the files.
load_new : Option Opened → List ℕ → FileTable → List ℕ → Outcome (Option ℕ) × FileTable
load_new os path T dqname = if leb 100 (length path + length dqname) then (fault, T) else elim os [
  | none ↦ (refuse, T)
  | some o ↦
      let (r, T') = insert_tab T dqname (opened_msg o) in
      (
        elim r [
          | done _ ↦ done none
          | fail e ↦ fail e
          | refuse ↦ refuse
          | fault ↦ fault
          | hang ↦ hang
        ],
        T',
      )
]

-- `done (some e)` is `return true` with errorCode set to `e`.
pub load_q : Option Opened → List ℕ → FileTable → List ℕ → Outcome (Option ℕ) × FileTable
unfolding load_new
load_q os path T dqname = elim (fetch_tab T dqname) [
  | done _ ↦ (done (some error_already_load), T)
  | fail _ ↦ load_new os path T dqname
  | refuse ↦ load_new os path T dqname
  | fault ↦ (fault, T)
  | hang ↦ (hang, T)
]

-- UnloadQ returns true whether or not there was such a file.
pub unload_q : FileTable → List ℕ → Outcome (Unit {0}) × FileTable
unload_q T dqname = let (r, T') = delete_tab T dqname in (elim r [ hang ↦ hang | _ ↦ done tt ], T')

abbrev pub in_table : FileTable → ℕ → Bool
in_table T t = not (is_blank (T.slots t).name) && not (T.slots t).erased

-- UnloadAll blanks the name of each entry and drops its mutex pointer, no more.
pub unload_all : FileTable → FileTable
unload_all T = record T {
  slots = λ t.
      if ltb t table_size && in_table T t
      then record (T.slots t) {
        name = [];
        fields = record (T.slots t).fields {
          handles = record (T.slots t).fields.handles { rw_mutex = none };
        };
      }
      else T.slots t;
}

-- The calls `msync(address, filesize)` of FlushQFile, in order.
flush_from : FileTable → ℕ → ℕ → List (ℕ × ℕ)
flush_from T t zero = []
flush_from T t (suc n) =
    let rest = flush_from T (t + 1) n in
    if in_table T t && not ((T.slots t).fields.handles.map_address == 0)
    then ((T.slots t).fields.handles.map_address, (T.slots t).fields.file_size) ∷ rest
    else rest

pub flush_q_file : FileTable → List (ℕ × ℕ)
unfolding flush_from
flush_q_file T = flush_from T 0 table_size
