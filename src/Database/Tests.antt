-- ===== src/Database/Tests.antt =====
-- A database of 16 bytes for rows, with the table "a" of three records of two bytes.
use g_plat.Prelude.{
  ap, ◌∙◌, ℕ, ◌*◌, ◌≡◌, ◌≢◌, refl, sym, true, none, some, List, [], ◌∷◌, arith, same_text,
  if◌then◌else◌,
}
use g_plat.Errors.{Outcome, error_no_space, done, fault, fail, error_table_not_exist}
use g_plat.Hash.{index_size}
use g_plat.Hash.Probe.{index_size-IsSize}
use g_plat.Hash.Directory.{Live, Blank, locate_missing}
use g_plat.Hash.Change.{Room}
use g_plat.Hash.Sample.{
  name_a, name_b, a-ne-nil, b-ne-nil, a-ne-grave, hash1-a, First-room, put_a-absent,
}
use g_plat.Board.{type_avg_size}
use g_plat.Board.Place.{Fits}
use g_plat.Database.{Database, clear_db, select_table, blank_tables}
use g_plat.Database.Create.{create_table, add_table}
use g_plat.Database.Drop.{delete_table}
use g_plat.Database.View.{as_board, IsIntact, content}
use g_plat.Database.Spec.{Request, insert, update_row, refresh, clear}
use g_plat.Database.Run.{
  Shows, serve_all, spec_all, select_rows, AllNamed, AllDefined, serve_all_refines,
}
use g_plat.Database.Created.{created-IsIntact}
use g_plat.Database.Creation.{create_table-content}
use g_plat.Board.Removal.{Frees}
use g_plat.Database.View.{Rows}
use g_plat.Database.Alter.{content-absent}
use g_plat.Database.Spec.{Tables}
use g_plat.Database.Created.{created-content}
use g_plat.Database.Removal.{delete_table-content}
use g_plat.Database.Fresh.{clear_db-IsIntact}
use g_plat.Database.Failure.{reshape-fails, drop, reshape}

abbrev used : Database
used = record {
  counter = 5;
  data_size = 16;
  types_size = index_size * type_avg_size;
  next_pos = 4;
  next_type_pos = 0;
  remain = 12;
  type_remain = index_size * type_avg_size;
  index_count = 1;
  index = blank_tables;
  mem = λ i. 9;
}

clear_db_example :
    IsIntact (clear_db used)
    × Blank index_size (clear_db used).index
    × (content (clear_db used) name_a ≡ none)
    × ((clear_db used).remain ≡ used.data_size)
    × (select_table true (clear_db used) name_a ≡ fail error_table_not_exist)
clear_db_example = clear_db-IsIntact used true name_a refl a-ne-nil

abbrev empty : Database
empty = clear_db used

empty-absent : (k : List ℕ) → k ≢ [] → (j : ℕ) → ¬ Live index_size (as_board empty).index k j
unfolding clear_db
empty-absent k ne j l = ne (sym l.named)

Fits-a : Fits (as_board empty) name_a (2 * 3) none 0
unfolding clear_db
Fits-a = record {
  blank = record { slot = 0; in_range = omega arith; blank = refl };
  name = record { some_bytes = a-ne-nil; no_grave = a-ne-grave; short = omega arith };
  absent = empty-absent name_a a-ne-nil;
  room = omega arith;
  slots = omega arith;
  small = omega arith;
  buffer = tt;
}

create_table_example :
    let (o, after) = create_table empty name_a 2 3 none 0 1 in
    (o ≡ done tt)
    × (content after name_b ≡ (
        if same_text name_b name_a
        then some (record { record_size = 2; max_count = 3; count = 0; bytes = []; time = 1 })
        else content empty name_b))
    × IsIntact after
create_table_example =
    create_table-content empty name_a 2 3 none 0 1 name_b clear_db_example.0 Fits-a (omega arith)
      (omega arith) b-ne-nil

Room-a : Room index_size-IsSize empty.index name_a 97
unfolding clear_db
Room-a = First-room index_size empty.index name_a 97 hash1-a refl

abbrev one_table : Database
one_table = add_table empty 97 name_a 2 3 none 0 1

one_table-IsIntact : IsIntact one_table
one_table-IsIntact =
    created-IsIntact empty name_a 2 3 none 0 1 97 clear_db_example.0 Fits-a (omega arith) Room-a

one_table-Blank : Blank index_size one_table.index
unfolding clear_db add_table
one_table-Blank = record { slot = 0; in_range = omega arith; blank = refl }

one_table-a : Live index_size one_table.index name_a 97
unfolding clear_db add_table
one_table-a = record { in_range = omega arith; named = refl; kept = refl }

delete_table_example :
    let (o, after) = delete_table one_table name_a in
    (o ≡ done tt)
    × (content after name_b ≡ (if same_text name_b name_a then none else content one_table name_b))
    × IsIntact after
    × Blank index_size after.index
    × Frees (as_board one_table) (as_board after) ((as_board one_table).index 97).fields
delete_table_example =
    delete_table-content one_table name_a name_b 97 one_table-IsIntact one_table-Blank a-ne-nil
      b-ne-nil one_table-a

one_table-no_b : (j : ℕ) → ¬ Live index_size one_table.index name_b j
unfolding clear_db add_table
one_table-no_b = put_a-absent index_size blank_tables _ 97 (λ j l. b-ne-nil (sym l.named))

abbrev calls : List Request
calls =
    insert name_a 2 2 (1 ∷ 2 ∷ 3 ∷ 4 ∷ []) 10
    ∷ update_row name_a (some 1) 2 (7 ∷ 8 ∷ [])
    ∷ refresh name_a 4 2 (1 ∷ 2 ∷ []) 11
    ∷ insert name_b 1 2 (1 ∷ 2 ∷ []) 12
    ∷ clear name_a 13
    ∷ []

calls-AllNamed : AllNamed calls
calls-AllNamed = (a-ne-nil, (a-ne-nil, (a-ne-nil, (b-ne-nil, (a-ne-nil, tt)))))

abbrev empty_rows : Rows
empty_rows = record { record_size = 2; max_count = 3; count = 0; bytes = []; time = 1 }

abbrev at_first : Tables
at_first k = if same_text k name_a then some empty_rows else none

one_table-Shows : Shows one_table at_first
unfolding clear_db
one_table-Shows k ne =
    created-content empty name_a 2 3 none 0 1 97 clear_db_example.0 Fits-a (omega arith) Room-a k ne
    ∙ ap (λ x. if same_text k name_a then some empty_rows else x)
        (content-absent empty k (λ j l. ne (sym l.named)))

done-ne-fault : {o : Outcome (Unit {0})} → o ≡ done tt → o ≢ fault
done-ne-fault e h = cc (sym e ∙ h)

fail-ne-fault : {o : Outcome (Unit {0})} (n : ℕ) → o ≡ fail n → o ≢ fault
fail-ne-fault n e h = cc (sym e ∙ h)

calls-AllDefined : AllDefined at_first calls
unfolding same_text
calls-AllDefined = (
  done-ne-fault refl,
  (
    done-ne-fault refl,
    (
      fail-ne-fault error_no_space refl,
      (fail-ne-fault error_table_not_exist refl, (done-ne-fault refl, tt)),
    ),
  ),
)

serve_all_example :
    ((serve_all one_table calls).0 ≡ (spec_all at_first calls).0)
    × (select_table true (serve_all one_table calls).1 name_a
        ≡ select_rows true ((spec_all at_first calls).1 name_a))
    × IsIntact (serve_all one_table calls).1
serve_all_example =
    serve_all_refines one_table at_first calls true name_a one_table-IsIntact one_table-Blank
      one_table-Shows calls-AllNamed calls-AllDefined a-ne-nil

abbrev too_many : Request
too_many = refresh name_a 4 2 (1 ∷ 2 ∷ 3 ∷ 4 ∷ 5 ∷ 6 ∷ 7 ∷ 8 ∷ []) 11

drop_b-answer : (reshape one_table (drop name_b)).0 ≢ done tt
unfolding delete_table
drop_b-answer h = cc (
    rw
      (
        locate_missing index_size-IsSize one_table.index name_b one_table-Blank one_table-no_b,
        delete_table,
      )
      at h)

drop_b-defined : (reshape one_table (drop name_b)).0 ≢ fault
unfolding delete_table
drop_b-defined h = cc (
    rw
      (
        locate_missing index_size-IsSize one_table.index name_b one_table-Blank one_table-no_b,
        delete_table,
      )
      at h)

reshape-fails_example : (reshape one_table (drop name_b)).1 ≡ one_table
reshape-fails_example = reshape-fails one_table (drop name_b) drop_b-answer drop_b-defined
