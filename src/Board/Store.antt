-- ===== src/Board/Store.antt =====
-- WriteB, WriteB_String and WriteBOffSet of higplat/higplat.cpp.
use g_plat.Prelude.{
  ℕ, ◌+◌, not, ◌||◌, Option, none, some, List, ltb, ◌==◌, if◌then◌else◌, length, take, drop, update,
  copy_in, fill,
}
use g_plat.Errors.{
  Outcome, done, fail, refuse, fault, hang, error_recordsize, error_tag_not_exist, string_too_long,
}
use g_plat.Hash.{Slot, lost, missing, found, locate, index_size}
use g_plat.Board.{Board, Item}

abbrev pub set_fields : Board → ℕ → Item → ℕ → Slot Item
set_fields b loc item = update b.index loc (record (b.index loc) { fields = item })

-- `lpSubItem` as an offset from `lpItem`, with `actSubSize`; `bytes` is the buffer `lpItem`.
abbrev Part : Type 0
Part = Option (ℕ × ℕ)

write_found : Board → ℕ → List ℕ → ℕ → Part → ℕ → Outcome (Unit {0}) × Board
write_found b loc bytes act_size none now =
    let item = (b.index loc).fields in
    if not (item.item_size == act_size)
    then (fail error_recordsize, b)
    else if ltb (length bytes) act_size
    then (fault, b)
    else (
      done tt,
      record b {
        mem = copy_in b.mem item.start_pos (take act_size bytes);
        index = set_fields b loc (record item { timestamp = now });
      },
    )
write_found b loc bytes act_size (some (off, sub_size)) now =
    let item = (b.index loc).fields in
    if not (item.item_size == act_size) || ltb act_size (off + sub_size)
    then (fail error_recordsize, b)
    else if ltb (length bytes) (off + sub_size)
    then (fault, b)
    else (
      done tt,
      record b {
        mem = copy_in b.mem (item.start_pos + off) (take sub_size (drop off bytes));
        index = set_fields b loc (record item { timestamp = now });
      },
    )

unfoldable pub write_b : Board → List ℕ → List ℕ → ℕ → Part → ℕ → Outcome (Unit {0}) × Board
unfolding write_found
write_b b name bytes act_size part now = elim (locate index_size b.index name) [
  | lost ↦ (hang, b)
  | missing ↦ (fail error_tag_not_exist, b)
  | found loc ↦ write_found b loc bytes act_size part now
]

-- WriteBOffSet
unfoldable pub write_b_off_set :
    Board → List ℕ → List ℕ → ℕ → ℕ → ℕ → ℕ → Outcome (Unit {0}) × Board
write_b_off_set b name bytes act_size off sub_size now =
    write_b b name bytes act_size (some (off, sub_size)) now

-- With a part given it does nothing and returns false.
write_string_found : Board → ℕ → List ℕ → ℕ → Part → ℕ → Outcome (Unit {0}) × Board
write_string_found b loc bytes act_size (some _) now = (refuse, b)
write_string_found b loc bytes act_size none now =
    let item = (b.index loc).fields in
    if ltb item.item_size act_size
    then (fail string_too_long, b)
    else if ltb (length bytes) act_size
    then (fault, b)
    else (
      done tt,
      record b {
        mem =
            copy_in (fill b.mem item.start_pos item.item_size 0) item.start_pos
              (take act_size bytes);
        index = set_fields b loc (record item { str_lenth = act_size; timestamp = now });
      },
    )

unfoldable pub write_b_string : Board → List ℕ → List ℕ → ℕ → Part → ℕ → Outcome (Unit {0}) × Board
unfolding write_string_found
write_b_string b name bytes act_size part now = elim (locate index_size b.index name) [
  | lost ↦ (hang, b)
  | missing ↦ (fail error_tag_not_exist, b)
  | found loc ↦ write_string_found b loc bytes act_size part now
]
