-- ===== src/Board/Add.antt =====
-- CreateItem of higplat/higplat.cpp.
use g_plat.Prelude.{
  ℕ, ◌+◌, ◌-◌, Bool, false, not, ◌&&◌, ◌||◌, Option, none, some, List, [], ltb, leb, ◌==◌,
  if◌then◌else◌, length, take, same_text, copy_in, fill,
}
use g_plat.Errors.{
  Outcome, done, fail, fault, hang, error_no_space, error_item_already_exist, error_item_overflow,
  error_parameter_size,
}
use g_plat.Hash.{seek, seek_room, index_size}
use g_plat.Hash.Change.{put}
use g_plat.Queue.{type_max_size}
use g_plat.Board.{Board, Item}

-- `pType != 0 && typeSize != 0 && typeSize < TYPEMAXSIZE && typeSize < pHead->typeremain`
abbrev pub stores_type : Board → Option (List ℕ) → ℕ → Bool
stores_type b none type_size = false
stores_type b (some _) type_size =
    not (type_size == 0) && ltb type_size type_max_size && ltb type_size b.type_remain

abbrev pub type_text : Option (List ℕ) → ℕ → List ℕ
type_text none n = []
type_text (some bytes) n = take n bytes

-- The index entry of a new item: what is not assigned keeps the value that the slot had.
abbrev pub new_item : Board → Item → ℕ → ℕ → Item
new_item b old item_size now = record old {
  item_size = item_size;
  start_pos = b.next_pos;
  timestamp = now;
}

abbrev pub with_type : Board → Item → Bool → ℕ → Item
with_type b item stored type_size =
    if stored
    then record item { type_size = type_size; type_addr = b.next_type_pos }
    else record item { type_size = 0 }

-- The end of CreateItem, from `pHead->indexcount++` on.
unfoldable pub add_item : Board → ℕ → List ℕ → ℕ → Option (List ℕ) → ℕ → ℕ → Board
add_item b loc name item_size typ type_size now =
    let stored = stores_type b typ type_size in
    record b {
      index_count = b.index_count + 1;
      next_pos = b.next_pos + item_size;
      remain = b.remain - item_size;
      next_type_pos = if stored then b.next_type_pos + type_size else b.next_type_pos;
      type_remain = if stored then b.type_remain - type_size else b.type_remain;
      index =
          put b.index loc name
            (with_type b (new_item b (b.index loc).fields item_size now) stored type_size);
      mem =
          fill
            (if stored
              then copy_in b.mem (b.data_size + b.next_type_pos) (type_text typ type_size)
              else b.mem)
            b.next_pos item_size 0;
    }

-- The copies of the name and of the type stay within their buffers.
abbrev create_overruns : Board → List ℕ → Option (List ℕ) → ℕ → Bool
create_overruns b name typ type_size =
    leb 40 (length name)
    || (stores_type b typ type_size && ltb (length (type_text typ type_size)) type_size)

unfoldable pub place_item :
    Board → List ℕ → ℕ → Option (List ℕ) → ℕ → ℕ → Outcome (Unit {0}) × Board
place_item b name item_size typ type_size now = elim (seek_room index_size b.index name) [
  | none ↦ (hang, b)
  | some loc ↦
      if b.index_count == index_size - 1
      then (fail error_item_overflow, b)
      else if create_overruns b name typ type_size
      then (fault, b)
      else (done tt, add_item b loc name item_size typ type_size now)
]

unfoldable pub create_item :
    Board → List ℕ → ℕ → Option (List ℕ) → ℕ → ℕ → Outcome (Unit {0}) × Board
unfolding place_item
create_item b name item_size typ type_size now =
    if ltb type_max_size type_size
    then (fail error_parameter_size, b)
    else elim (seek index_size b.index name) [
      | none ↦ (hang, b)
      | some loc ↦
          if same_text (b.index loc).name name && not (b.index loc).erased
          then (fail error_item_already_exist, b)
          else if ltb b.remain item_size
          then (fail error_no_space, b)
          else place_item b name item_size typ type_size now
    ]
