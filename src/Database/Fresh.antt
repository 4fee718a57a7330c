-- ===== src/Database/Fresh.antt =====
-- ClearDB, and the database without tables that it leaves.
use g_plat.Prelude.{ℕ, ◌*◌, ◌≡◌, ◌≢◌, ap, sym, refl, ◌∙◌, Bool, List, [], arith, none}
use g_plat.Errors.{fail, error_table_not_exist}
use g_plat.Hash.{index_size}
use g_plat.Hash.Directory.{Blank}
use g_plat.Board.{type_avg_size}
use g_plat.Board.Fresh.{fresh-IsSound}
use g_plat.Database.{Database, clear_db, select_table}
use g_plat.Database.View.{as_board, IsIntact, content}
use g_plat.Database.Run.{select_rows, select_table-content}
use g_plat.Database.Alter.{content-absent}

-- ClearDB, on a database whose area for the types has its size: the database is intact, has an index
-- of slots that were never used, and has no table of a name `k`; all the bytes for rows are free
-- again; and SelectTable of `k` reports that there is no such table.
pub clear_db-IsIntact :
    (d : Database) (allocated : Bool) (k : List ℕ)
    → d.types_size ≡ index_size * type_avg_size
    → k ≢ []
    → IsIntact (clear_db d)
      × Blank index_size (clear_db d).index
      × (content (clear_db d) k ≡ none)
      × ((clear_db d).remain ≡ d.data_size)
      × (select_table allocated (clear_db d) k ≡ fail error_table_not_exist)
unfolding clear_db
clear_db-IsIntact d allocated k e ne =
    let v : IsIntact (clear_db d) = record {
      board = fresh-IsSound (as_board (clear_db d)) refl refl refl refl e;
      counts = λ t. omega arith;
    } in
    let blank : Blank index_size (clear_db d).index = record {
      slot = 0;
      in_range = omega arith;
      blank = refl;
    } in
    let absent : content (clear_db d) k ≡ none =
      content-absent (clear_db d) k (λ t l. ne (sym l.named)) in
    (
      v,
      blank,
      absent,
      refl,
      select_table-content (clear_db d) v blank allocated k ne ∙ ap (select_rows allocated) absent,
    )
