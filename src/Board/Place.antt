-- ===== src/Board/Place.antt =====
-- CreateItem on a sound board that has room for the item: where the item and its type go.
use g_plat.Prelude.{
  ℕ, ◌-◌, ◌≤◌, ◌<◌, ◌≡◌, ◌≢◌, true, some, Option, none, List, arith, length, length-take,
}
use g_plat.Errors.{done}
use g_plat.Hash.{index_size}
use g_plat.Hash.Probe.{index_size-IsSize}
use g_plat.Hash.Directory.{Live, Blank}
use g_plat.Hash.Change.{Room}
use g_plat.Hash.Rooms.{seek-absent, seek_room-found}
use g_plat.FileTable.Insert.{IsName}
use g_plat.Queue.Create.{TypeFits}
use g_plat.Queue.{type_max_size}
use g_plat.Board.{Board}
use g_plat.Board.Add.{create_item, place_item, add_item, stores_type, type_text}

-- What CreateItem asks of the board and of the call: a blank slot in the index, a name that is not
-- there, and room.
pub record Fits (b : Board) (k : List ℕ) (item_size : ℕ) (typ : Option (List ℕ)) (type_size : ℕ)
    : Type 0 where
  pub blank : Blank index_size b.index
  pub name : IsName k
  pub absent : (j : ℕ) → ¬ Live index_size b.index k j
  pub room : item_size ≤ b.remain
  pub slots : b.index_count ≢ index_size - 1
  pub small : type_size ≤ type_max_size
  pub buffer : TypeFits typ type_size

pub length-type_text :
    (typ : Option (List ℕ)) (n : ℕ) (b : Board)
    → TypeFits typ n
    → stores_type b typ n ≡ true
    → length (type_text typ n) ≡ n
length-type_text none n b f s = absurd (cc s)
length-type_text (some bytes) n b f s = omega (arith, length-take n bytes)

pub stores_type-pos :
    (typ : Option (List ℕ)) (n : ℕ) (b : Board) → stores_type b typ n ≡ true → n ≢ 0
stores_type-pos none n b s = absurd (cc s)
stores_type-pos (some bytes) n b s = ground arith

pub create_found :
    (b : Board) (k : List ℕ) (item_size : ℕ) (typ : Option (List ℕ)) (type_size now : ℕ)
    → Fits b k item_size typ type_size
    → (t : ℕ) × (t < index_size)
      × Room index_size-IsSize b.index k t
      × (create_item b k item_size typ type_size now
          ≡ (done tt, add_item b t k item_size typ type_size now))
unfolding create_item place_item
create_found b k item_size typ type_size now f =
    let (t0, r0, no_item) = seek-absent b.index k f.blank f.absent in
    let (t, r, lt, room) = seek_room-found b.index k f.blank in
    (
      t,
      lt,
      room,
      rw (r0, r, create_item, place_item)
          (ground (
            arith,
            no_item,
            f.room,
            f.slots,
            f.small,
            f.name.short,
            length-type_text typ type_size b f.buffer,
          )),
    )
