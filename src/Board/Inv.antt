-- ===== src/Board/Inv.antt =====
-- The invariant of a board of higplat/higplat.cpp.
use g_plat.Prelude.{ℕ, ◌+◌, ◌*◌, ◌≤◌, ◌<◌, ◌≡◌, ◌≢◌, ◌⊎◌, true}
use g_plat.Hash.{index_size}
use g_plat.Hash.Directory.{WellPlaced}
use g_plat.Board.{Board, Item, is_item, type_avg_size}

-- The bytes of two items do not overlap.
abbrev pub Apart : Item → Item → Type 0
Apart x y = (x.start_pos + x.item_size ≤ y.start_pos) ⊎ (y.start_pos + y.item_size ≤ x.start_pos)

-- The same of two items' types, of which only those with bytes count.
abbrev pub TypesApart : Item → Item → Type 0
TypesApart x y =
    (x.type_size ≡ 0)
    ⊎ ((y.type_size ≡ 0)
        ⊎ ((x.type_addr + x.type_size ≤ y.type_addr) ⊎ (y.type_addr + y.type_size ≤ x.type_addr)))

-- A slot of the index that an item is in.
pub record Holds (b : Board) (t : ℕ) : Type 0 where
  pub in_range : t < index_size
  pub item : is_item (b.index t) ≡ true

-- The names are where the searches look for them, the free bytes are those behind the items, and
-- the items' bytes stand before them, each apart from the others'.
pub record IsSound (b : Board) : Type 0 where
  pub placed : WellPlaced index_size b.index
  pub sums : b.next_pos + b.remain ≡ b.data_size
  pub inside :
      (t : ℕ) → Holds b t → (b.index t).fields.start_pos + (b.index t).fields.item_size ≤ b.next_pos
  pub apart :
      (t u : ℕ) → Holds b t → Holds b u → t ≢ u → Apart (b.index t).fields (b.index u).fields
  pub type_sums : b.next_type_pos + b.type_remain ≡ index_size * type_avg_size
  pub type_inside :
      (t : ℕ)
      → Holds b t
      → ((b.index t).fields.type_size ≡ 0)
        ⊎ ((b.index t).fields.type_addr + (b.index t).fields.type_size ≤ b.next_type_pos)
  pub types_apart :
      (t u : ℕ) → Holds b t → Holds b u → t ≢ u → TypesApart (b.index t).fields (b.index u).fields
  pub type_addrs : (t : ℕ) → (b.index t).fields.type_addr ≤ index_size * type_avg_size
