-- ===== src/Board.antt =====
-- The bulletin boards of higplat/higplat.cpp (CreateB to DeleteItem, CreateItem, ReadType,
-- ReadBoardInfo), on the board that the file maps. The search for an item's name is that of Hash.
pub mod Inv
pub mod Items
pub mod Layout
pub mod Rewrite
pub mod Delete
pub mod Fresh
pub mod NewItem
pub mod Creation
pub mod Place
pub mod Removal
pub mod Write
pub mod WritePart
pub mod WriteString
pub mod Add
pub mod Erase
pub mod Store
pub mod Sample
mod Tests
use g_plat.Prelude.{
  ℕ, ◌+◌, ◌-◌, ◌*◌, Bool, true, false, not, ◌&&◌, ◌||◌, Option, none, some, List, [], ◌∷◌, ◌++◌,
  ltb, leb, ◌==◌, if◌then◌else◌, length, take, drop, replicate, update, collect, same_text, copy_in,
  fill, move_down,
}
use g_plat.Errors.{
  Outcome, done, fail, refuse, fault, hang, error_recordsize, error_no_space, error_item_not_exist,
  error_item_already_exist, error_item_overflow, error_parameter_size, error_tag_not_exist,
  string_too_long, buffer_too_small,
}
use g_plat.Hash.{
  Slot, Located, lost, missing, found, locate, seek, seek_room, index_size, is_blank, grave,
}
use g_plat.Hash.Change.{put, bury}
use g_plat.Hash.Count.{count_below}
use g_plat.Queue.{FileAnswers, open_file, type_max_size}

abbrev pub type_avg_size : ℕ
type_avg_size = 32

-- `BOARD_INDEX_STRUCT` beside the name and the mark of a deletion; a time is a number.
pub record Item : Type 0 where
  pub start_pos : ℕ
  pub item_size : ℕ
  pub str_lenth : ℕ
  pub timestamp : ℕ
  pub type_addr : ℕ
  pub type_size : ℕ

-- `BOARD_HEAD`, and in `mem` the bytes behind it: `data_size` of them for the items, then the types.
-- `totalsize` is `sizeof(BOARD_HEAD) + data_size`.
pub record Board : Type 0 where
  pub counter : ℕ
  pub data_size : ℕ
  pub types_size : ℕ
  pub next_pos : ℕ
  pub next_type_pos : ℕ
  pub remain : ℕ
  pub type_remain : ℕ
  pub index_count : ℕ
  pub index : ℕ → Slot Item
  pub mem : ℕ → ℕ

abbrev pub no_item : Item
no_item = record {
  start_pos = 0;
  item_size = 0;
  str_lenth = 0;
  timestamp = 0;
  type_addr = 0;
  type_size = 0;
}

abbrev pub blank_index : ℕ → Slot Item
blank_index t = record { name = []; erased = false; fields = no_item }

abbrev pub init_board : ℕ → Board
init_board size = record {
  counter = 0;
  data_size = size;
  types_size = index_size * type_avg_size;
  next_pos = 0;
  next_type_pos = 0;
  remain = size;
  type_remain = index_size * type_avg_size;
  index_count = 0;
  index = blank_index;
  mem = λ i. 0;
}

pub create_b : FileAnswers → List ℕ → List ℕ → ℕ → Outcome Board
create_b os path name size = elim (open_file os path name) [
  | done _ ↦ done (init_board size)
  | fail e ↦ fail e
  | refuse ↦ refuse
  | fault ↦ fault
  | hang ↦ hang
]

-- An index entry that an item is in.
abbrev pub is_item : Slot Item → Bool
is_item s = not (is_blank s.name) && not s.erased

-- The bytes with the time of the last write.
pub read_b : Board → List ℕ → ℕ → Outcome (List ℕ × ℕ)
read_b b name act_size = elim (locate index_size b.index name) [
  | lost ↦ hang
  | missing ↦ fail error_tag_not_exist
  | found loc ↦
      let item = (b.index loc).fields in
      if not (item.item_size == act_size)
      then fail error_recordsize
      else done (collect b.mem item.start_pos act_size, item.timestamp)
]

-- `-1` is `refuse`.
pub get_string_length : Board → List ℕ → Outcome ℕ
get_string_length b name = elim (locate index_size b.index name) [
  | lost ↦ hang
  | missing ↦ refuse
  | found loc ↦ done (b.index loc).fields.str_lenth
]

-- The caller's buffer of `act_size` bytes, zero behind the string.
pub read_b_string : Board → List ℕ → ℕ → Outcome (List ℕ × ℕ)
read_b_string b name act_size = elim (locate index_size b.index name) [
  | lost ↦ hang
  | missing ↦ fail error_tag_not_exist
  | found loc ↦
      let item = (b.index loc).fields in
      if ltb act_size item.str_lenth
      then fail buffer_too_small
      else done (
        collect b.mem item.start_pos item.str_lenth ++ replicate (act_size - item.str_lenth) 0,
        item.timestamp,
      )
]

-- The string's bytes alone, which give its length.
pub read_b_string2 : Board → List ℕ → ℕ → Outcome (List ℕ × ℕ)
read_b_string2 b name act_size = elim (locate index_size b.index name) [
  | lost ↦ hang
  | missing ↦ fail error_tag_not_exist
  | found loc ↦
      let item = (b.index loc).fields in
      if ltb act_size item.str_lenth
      then fail buffer_too_small
      else done (collect b.mem item.start_pos item.str_lenth, item.timestamp)
]

pub clear_b : Board → Board
clear_b b = record b {
  index = blank_index;
  remain = b.data_size;
  type_remain = b.types_size;
  counter = 0;
  next_pos = 0;
  next_type_pos = 0;
  index_count = 0;
}

-- ReadType on a board: `false` without an error code where there is no item or no type.
pub read_type : Board → List ℕ → Outcome (List ℕ)
read_type b name = elim (locate index_size b.index name) [
  | lost ↦ hang
  | missing ↦ refuse
  | found loc ↦
      let item = (b.index loc).fields in
      if item.type_size == 0
      then refuse
      else done (collect b.mem (b.data_size + item.type_addr) item.type_size)
]

-- `BOARD_INFO`
pub record BoardInfo : Type 0 where
  pub total_size : ℕ
  pub remain_size : ℕ
  pub tagcount_head : ℕ
  pub tagcount_act : ℕ

pub read_board_info : Board → BoardInfo
read_board_info b = record {
  total_size = b.data_size;
  remain_size = b.remain;
  tagcount_head = b.index_count;
  tagcount_act = count_below index_size (λ t. is_item (b.index t));
}
