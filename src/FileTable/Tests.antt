-- ===== src/FileTable/Tests.antt =====
-- The table of the mapped files with one file in it.
use g_plat.Prelude.{
  ℕ, ◌+◌, ◌<◌, ◌≤◌, ◌≡◌, ◌≢◌, ◌⊎◌, refl, sym, some, List, [], ◌∷◌, arith, if◌then◌else◌, same_text,
}
use g_plat.Errors.{done, fail, refuse, error_record_not_exist, error_table_overflow}
use g_plat.Hash.{table_size}
use g_plat.Hash.Probe.{table_size-IsSize}
use g_plat.Hash.Directory.{Live, locate_missing}
use g_plat.Hash.Change.{put, Live-put_self}
use g_plat.Hash.Sample.{
  name_a, name_b, a-ne-nil, b-ne-nil, a-ne-grave, b-ne-grave, hash1-a, First-room, put_a-absent,
}
use g_plat.FileTable.{
  FileTable, TableMsg, Opened, opened_msg, init_table, insert_tab, fetch_tab, fetch_tab1,
  delete_tab, flush_q_file,
}
use g_plat.FileTable.Inv.{IsWell, init_table-IsWell, put_blank-IsWell, well-Blank}
use g_plat.FileTable.Insert.{IsName, insert_tab_lem}
use g_plat.FileTable.Delete.{fetch_tab1_lem, delete_tab_lem}
use g_plat.FileTable.Flush.{AllEmpty, load, unload, run, flush_writes_nothing}

abbrev a_file : Opened
a_file = record {
  h_file = 3;
  map_address = 4096;
  file_size = 512;
  rw_mutex = some 4200;
  h_mutex = 1;
}

abbrev a_msg : TableMsg
a_msg = opened_msg a_file

abbrev a_entry : TableMsg
a_entry = record (opened_msg a_file) { count = 1 }

name_b-IsName : IsName name_b
name_b-IsName = record { some_bytes = b-ne-nil; no_grave = b-ne-grave; short = omega arith }

init_table-absent : (k : List ℕ) → k ≢ [] → (j : ℕ) → ¬ Live table_size init_table.slots k j
init_table-absent k ne j l = ne (sym l.named)

abbrev one_file : FileTable
one_file = record {
  slots = put init_table.slots 97 name_a a_entry;
  tab_counter = init_table.tab_counter + 1;
}

one_file-IsWell : IsWell one_file
one_file-IsWell =
    put_blank-IsWell name_a a_entry init_table-IsWell a-ne-nil a-ne-grave (omega arith)
      (First-room table_size init_table.slots name_a 97 hash1-a refl)
      (init_table-absent name_a a-ne-nil) refl (omega arith)

one_file-Live : Live table_size one_file.slots name_a 97
one_file-Live =
    Live-put_self table_size-IsSize init_table.slots name_a a_entry init_table-IsWell.placed
      a-ne-nil (First-room table_size init_table.slots name_a 97 hash1-a refl)
      (init_table-absent name_a a-ne-nil)

one_file-no_b : fetch_tab one_file name_b ≡ fail error_record_not_exist
unfolding fetch_tab
one_file-no_b =
    rw
      (
        locate_missing table_size-IsSize one_file.slots name_b (well-Blank one_file-IsWell) (
            put_a-absent table_size init_table.slots a_entry 97
              (init_table-absent name_b b-ne-nil)),
        fetch_tab,
      )
      refl

insert_tab_example :
    let (o, T') = insert_tab one_file name_b a_msg in
    IsWell T'
    × (((o ≡ done tt)
          × (fetch_tab T' name_a ≡ (
              if same_text name_a name_b then done a_msg.handles else fetch_tab one_file name_a)))
        ⊎ ((o ≡ fail error_table_overflow) × (one_file.tab_counter ≡ 276) × (T' ≡ one_file)))
insert_tab_example =
    insert_tab_lem {T = one_file} name_b name_a a_msg one_file-IsWell name_b-IsName a-ne-nil
      one_file-no_b

fetch_tab1_example :
    let (o, T') = fetch_tab1 one_file name_a in
    (o ≡ fetch_tab one_file name_a)
    × ((T'.slots 97).fields.count ≡ 2)
    × IsWell T'
    × (fetch_tab T' name_b ≡ fetch_tab one_file name_b)
fetch_tab1_example =
    fetch_tab1_lem {T = one_file} name_a name_b {t = 97} one_file-IsWell a-ne-nil b-ne-nil
      one_file-Live

delete_tab_example :
    let (o, T') = delete_tab one_file name_a in
    IsWell T'
    × (((1 ≤ 1)
          × (o ≡ done a_msg.handles)
          × (fetch_tab T' name_b ≡ (
              if same_text name_b name_a
              then fail error_record_not_exist
              else fetch_tab one_file name_b)))
        ⊎ ((1 < 1)
            × (o ≡ refuse)
            × ((T'.slots 97).fields.count + 1 ≡ 1)
            × (fetch_tab T' name_b ≡ fetch_tab one_file name_b)))
delete_tab_example =
    delete_tab_lem {T = one_file} name_a name_b {t = 97} one_file-IsWell a-ne-nil b-ne-nil
      one_file-Live

flush_writes_nothing_example :
    AllEmpty (flush_q_file (run init_table (load (some a_file) [] name_a ∷ unload name_a ∷ [])))
flush_writes_nothing_example =
    flush_writes_nothing (load (some a_file) [] name_a ∷ unload name_a ∷ [])
