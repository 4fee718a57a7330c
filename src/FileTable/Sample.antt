-- ===== src/FileTable/Sample.antt =====
-- A table of the mapped files with one file in it, for the tests.
use g_plat.Prelude.{ℕ, ◌+◌, ◌<◌, ◌≡◌, ◌≢◌, refl, sym, ap, none, List, []}
use g_plat.Errors.{done}
use g_plat.Hash.{table_size, hash1, grave}
use g_plat.Hash.Probe.{table_size-IsSize}
use g_plat.Hash.Directory.{Live, locate_found}
use g_plat.Hash.Change.{put, put-WellPlaced, Live-put_self, update_self}
use g_plat.Hash.Sample.{First-room}
use g_plat.FileTable.{FileTable, TableMsg, opened_msg, init_table, fetch_tab}
use g_plat.FileTable.Inv.{init_table-IsWell}

-- A file at the address 4096.
abbrev pub one_entry : TableMsg
one_entry =
    opened_msg
      (record { h_file = 3; map_address = 4096; file_size = 512; rw_mutex = none; h_mutex = 1 })

abbrev pub table_of : List ℕ → ℕ → FileTable
table_of name t = record {
  slots = put init_table.slots t name one_entry;
  tab_counter = init_table.tab_counter + 1;
}

pub fetch_tab-table_of :
    (name : List ℕ) (t : ℕ)
    → name ≢ []
    → name ≢ grave
    → hash1 name ≡ t
    → t < table_size
    → fetch_tab (table_of name t) name ≡ done one_entry.handles
unfolding fetch_tab
fetch_tab-table_of name t ne ng e lt =
    let room = First-room table_size init_table.slots name t e refl in
    let absent : (j : ℕ) → ¬ Live table_size init_table.slots name j = λ j l. ne (sym l.named) in
    let w = init_table-IsWell.placed in
    rw
      (
        locate_found table_size-IsSize (table_of name t).slots name t
            (put-WellPlaced table_size-IsSize init_table.slots name one_entry w ne room absent ng)
            ne (Live-put_self table_size-IsSize init_table.slots name one_entry w ne room absent),
        fetch_tab,
      )
      (ap (λ s. done s.fields.handles) (update_self init_table.slots t _))
