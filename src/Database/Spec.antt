-- ===== src/Database/Spec.antt =====
-- The tables as a map from names to rows: what InsertTable, UpdateTable, RefreshTable and ClearTable
-- are for, without the bytes that the file keeps them in.
use g_plat.Prelude.{
  ◌^◌, ℕ, ◌+◌, ◌*◌, Bool, not, ◌||◌, Option, none, some, List, [], ◌++◌, ltb, leb, ◌==◌,
  if◌then◌else◌, length, take, drop, same_text,
}
use g_plat.Errors.{
  Outcome, done, fail, fault, error_recordsize, error_no_space, error_table_not_exist,
  error_table_rowid,
}
use g_plat.Database.{Database, insert_table, update_table, refresh_table, clear_table}
use g_plat.Database.View.{Rows}

-- A call: the name, then the arguments in the order of the program, and the time.
pub data Request : Type 0 where
  insert : List ℕ → ℕ → ℕ → List ℕ → ℕ → Request
  update_row : List ℕ → Option ℕ → ℕ → List ℕ → Request
  refresh : List ℕ → ℕ → ℕ → List ℕ → ℕ → Request
  clear : List ℕ → ℕ → Request

abbrev pub target : Request → List ℕ
target (insert name _ _ _ _) = name
target (update_row name _ _ _) = name
target (refresh name _ _ _ _) = name
target (clear name _) = name

abbrev pub serve : Database → Request → Outcome (Unit {0}) × Database
serve d (insert name count record_size rows now) = insert_table d name count record_size rows now
serve d (update_row name rowid record_size row) = update_table d name rowid record_size row
serve d (refresh name count record_size rows now) = refresh_table d name count record_size rows now
serve d (clear name now) = clear_table d name now

-- The call does nothing, whatever the tables are.
abbrev pub is_idle : Request → Bool
is_idle (insert _ count record_size _ _) = count == 0 || record_size == 0
is_idle (update_row _ none _ _) = Bool.true
is_idle (update_row _ (some _) record_size _) = record_size == 0
is_idle (refresh _ count record_size _ _) = count == 0 || record_size == 0
is_idle (clear _ _) = Bool.false

-- The call on the rows of its table.
abbrev pub on_rows : Rows → Request → Outcome (Unit {0}) × Rows
on_rows r (insert _ count record_size rows now) =
    if not (record_size == r.record_size)
    then (fail error_recordsize, r)
    else if leb (2 ^ 31) (r.count + count)
    then (fault, r)
    else if ltb r.max_count (r.count + count)
    then (fail error_no_space, r)
    else if ltb (length rows) (record_size * count)
    then (fault, r)
    else (
      done tt,
      record r {
        count = r.count + count;
        bytes = r.bytes ++ take (record_size * count) rows;
        time = now;
      },
    )
on_rows r (update_row _ none _ _) = (done tt, r)
on_rows r (update_row _ (some rowid) record_size row) =
    if not (record_size == r.record_size)
    then (fail error_recordsize, r)
    else if leb r.count rowid
    then (fail error_table_rowid, r)
    else if ltb (length row) record_size
    then (fault, r)
    else (
      done tt,
      record r {
        bytes =
            take (record_size * rowid) r.bytes
            ++ (take record_size row ++ drop (record_size * rowid + record_size) r.bytes);
      },
    )
on_rows r (refresh _ count record_size rows now) =
    if not (record_size == r.record_size)
    then (fail error_recordsize, r)
    else if ltb r.max_count count
    then (fail error_no_space, record r { count = 0; bytes = [] })
    else if ltb (length rows) (record_size * count)
    then (fault, r)
    else (done tt, record r { count = count; bytes = take (record_size * count) rows; time = now })
on_rows r (clear _ now) = (done tt, record r { count = 0; bytes = []; time = now })

abbrev pub Tables : Type 0
Tables = List ℕ → Option Rows

abbrev pub set_rows : Tables → List ℕ → Rows → Tables
set_rows m name r k = if same_text k name then some r else m k

abbrev pub spec_at : Tables → Request → Option Rows → Outcome (Unit {0}) × Tables
spec_at m r none = (fail error_table_not_exist, m)
spec_at m r (some rows) = let (o, rows') = on_rows rows r in (o, set_rows m (target r) rows')

abbrev pub spec_serve : Tables → Request → Outcome (Unit {0}) × Tables
spec_serve m r = if is_idle r then (done tt, m) else spec_at m r (m (target r))
