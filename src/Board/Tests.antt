-- ===== src/Board/Tests.antt =====
-- A board of 16 bytes with the items "a" of 4 bytes and "b" of 2, one after the other.
use g_plat.Prelude.{
  ℕ, ◌*◌, ◌≡◌, refl, sym, ◌∙◌, collect, none, true, List, [], ◌∷◌, ◌++◌, arith, if◌then◌else◌, take,
  drop, replicate,
}
use g_plat.Errors.{done, fail, refuse, error_tag_not_exist}
use g_plat.Hash.{index_size}
use g_plat.Hash.Probe.{index_size-IsSize}
use g_plat.Hash.Directory.{Live, Blank}
use g_plat.Hash.Change.{Room}
use g_plat.Hash.Sample.{
  name_a, name_b, a-ne-nil, b-ne-nil, b-ne-a, b-ne-grave, hash1-b, First-room, put_a-absent,
}
use g_plat.FileTable.Insert.{IsName}
use g_plat.Queue.{FileAnswers}
use g_plat.Board.Sample.{board0, board0-absent, board1, board1-IsSound, board1-a}
use g_plat.Board.{
  Board, create_b, clear_b, read_b, read_b_string, read_b_string2, get_string_length, read_type,
  type_avg_size,
}
use g_plat.Board.Add.{create_item, stores_type, type_text}
use g_plat.Board.Erase.{delete_item}
use g_plat.Board.Store.{write_b, write_b_off_set, write_b_string}
use g_plat.Board.Inv.{IsSound}
use g_plat.Board.Place.{Fits}
use g_plat.Board.Creation.{after_create, create-IsSound, create-Live_self, create-Live}
use g_plat.Board.Fresh.{create_b-IsSound, clear_b-IsSound}
use g_plat.Board.NewItem.{create_item-read_b}
use g_plat.Board.Removal.{Frees, delete_item-read_b}
use g_plat.Board.Rewrite.{read_b-found}
use g_plat.Board.Write.{write_b-read_b}
use g_plat.Board.WritePart.{write_b_off_set-read_b}
use g_plat.Board.WriteString.{write_b_string-read_b_string}

name_b-IsName : IsName name_b
name_b-IsName = record { some_bytes = b-ne-nil; no_grave = b-ne-grave; short = omega arith }

Fits-b : Fits board1 name_b 2 none 0
unfolding board1 after_create
Fits-b = record {
  blank = record { slot = 0; in_range = omega arith; blank = refl };
  name = name_b-IsName;
  absent = put_a-absent index_size board0.index _ 97 (board0-absent name_b b-ne-nil);
  room = omega arith;
  slots = omega arith;
  small = omega arith;
  buffer = tt;
}

Room-b : Room index_size-IsSize board1.index name_b 98
unfolding board1 after_create
Room-b = First-room index_size board1.index name_b 98 hash1-b refl

-- With "b" too, created at the time 2 without a type.
board2 : Board
unfolding after_create
board2 = after_create board1 name_b 2 none 0 2 98 board1-IsSound Fits-b (omega arith) Room-b

board2-IsSound : IsSound board2
unfolding board2
board2-IsSound =
    create-IsSound board1 name_b 2 none 0 2 98 board1-IsSound Fits-b (omega arith) Room-b

board2-a : Live index_size board2.index name_a 97
unfolding board2
board2-a =
    (create-Live board1 name_b 2 none 0 2 98 board1-IsSound Fits-b (omega arith) Room-b name_a
      a-ne-nil board1-a).1

board2-b : Live index_size board2.index name_b 98
unfolding board2
board2-b = create-Live_self board1 name_b 2 none 0 2 98 board1-IsSound Fits-b (omega arith) Room-b

board2-Blank : Blank index_size board2.index
unfolding board2 board1 after_create
board2-Blank = record { slot = 0; in_range = omega arith; blank = refl }

board2-size_a : (board2.index 97).fields.item_size ≡ 4
unfolding board2 board1 after_create
board2-size_a = refl

board2-types : board2.types_size ≡ index_size * type_avg_size
unfolding board2 board1 after_create
board2-types = refl

create_item_example :
    let (o, b') = create_item board1 name_b 2 none 0 2 in
    (o ≡ done tt)
    × (read_b b' name_b 2 ≡ done (replicate 2 0, 2))
    × (read_type b' name_b
        ≡ (if stores_type board1 none 0 then done (type_text none 0) else refuse))
    × (read_b b' name_a 4 ≡ read_b board1 name_a 4)
    × (read_type b' name_a ≡ read_type board1 name_a)
    × IsSound b'
create_item_example =
    create_item-read_b name_b name_a 2 none 0 2 4 board1-IsSound Fits-b a-ne-nil board1-a

delete_item_example :
    let (o, b') = delete_item board2 name_a in
    (o ≡ done tt)
    × (read_b b' name_a 4 ≡ fail error_tag_not_exist)
    × (read_b b' name_b 2 ≡ read_b board2 name_b 2)
    × (read_type b' name_b ≡ read_type board2 name_b)
    × IsSound b'
    × Blank index_size b'.index
    × Frees board2 b' (board2.index 97).fields
delete_item_example =
    delete_item-read_b name_a name_b 4 2 board2-IsSound board2-Blank a-ne-nil b-ne-nil b-ne-a
      board2-a

abbrev four_bytes : List ℕ
four_bytes = 1 ∷ 2 ∷ 3 ∷ 4 ∷ []

write_b_example :
    let (o, b') = write_b board2 name_a four_bytes 4 none 9 in
    (o ≡ done tt)
    × (read_b b' name_a 4 ≡ done (four_bytes, 9))
    × (read_b b' name_b 2 ≡ read_b board2 name_b 2)
    × IsSound b'
write_b_example =
    write_b-read_b name_a name_b four_bytes 9 2 board2-IsSound a-ne-nil b-ne-nil b-ne-a board2-a
      (sym board2-size_a)

-- What "a" holds before.
board2-read_a : read_b board2 name_a 4 ≡ done (replicate 4 0, 1)
unfolding board2 board1 after_create collect
board2-read_a = read_b-found board2 name_a 4 board2-IsSound.placed a-ne-nil board2-a ∙ refl

write_b_off_set_example :
    let (o, b') = write_b_off_set board2 name_a four_bytes 4 1 2 9 in
    (o ≡ done tt)
    × (read_b b' name_a 4
        ≡ done
            (take 1 (replicate 4 0) ++ (take 2 (drop 1 four_bytes) ++ drop 3 (replicate 4 0)), 9))
    × (read_b b' name_b 2 ≡ read_b board2 name_b 2)
    × IsSound b'
write_b_off_set_example =
    write_b_off_set-read_b name_a name_b four_bytes (replicate 4 0) 1 2 9 1 2 board2-IsSound
      a-ne-nil b-ne-nil b-ne-a board2-a (sym board2-size_a) (omega arith) board2-read_a

write_b_string_example :
    let (o, b') = write_b_string board2 name_a (65 ∷ 66 ∷ []) 2 none 9 in
    (o ≡ done tt)
    × (get_string_length b' name_a ≡ done 2)
    × (read_b_string b' name_a 3 ≡ done ((65 ∷ 66 ∷ []) ++ replicate 1 0, 9))
    × (read_b_string2 b' name_a 2 ≡ done (65 ∷ 66 ∷ [], 9))
    × (read_b b' name_b 2 ≡ read_b board2 name_b 2)
    × IsSound b'
write_b_string_example =
    write_b_string-read_b_string name_a name_b (65 ∷ 66 ∷ []) 9 3 2 board2-IsSound a-ne-nil b-ne-nil
      b-ne-a board2-a (rw board2-size_a (omega arith)) (omega arith)

abbrev all_well : FileAnswers
all_well = record {
  exists = true;
  removed = true;
  parent_missing = true;
  parent_created = true;
  opened = true;
  truncated = true;
  mapped = true;
}

create_b_example :
    (b : Board) × (create_b all_well [] name_a 16 ≡ done b)
    × IsSound b
    × (read_b b name_b 2 ≡ fail error_tag_not_exist)
create_b_example =
    create_b-IsSound all_well [] name_a 16 name_b 2 (refl, refl, refl, refl, refl) (omega arith)
      (omega arith) b-ne-nil

clear_b_example :
    IsSound (clear_b board2) × (read_b (clear_b board2) name_a 4 ≡ fail error_tag_not_exist)
clear_b_example = clear_b-IsSound board2 name_a 4 board2-types a-ne-nil
