-- ===== src/Database/Creation.antt =====
-- CreateTable on an intact database that has room for the table.
use g_plat.Prelude.{
  ◌^◌, ℕ, ◌-◌, ◌*◌, ◌≤◌, ◌<◌, ◌≡◌, ◌≢◌, refl, sym, ◌∙◌, true, false, Option, some, List, [], arith,
  length, not, ◌&&◌, same_text, if◌then◌else◌,
}
use g_plat.Errors.{done}
use g_plat.Hash.{index_size, seek, seek_room}
use g_plat.Hash.Probe.{index_size-IsSize}
use g_plat.Hash.Directory.{Blank}
use g_plat.Hash.Change.{Room}
use g_plat.Hash.Rooms.{seek-absent, seek_room-found}
use g_plat.Queue.{max_msg_len, type_max_size}
use g_plat.Board.Add.{type_text}
use g_plat.Board.Place.{Fits, length-type_text}
use g_plat.Database.{Database}
use g_plat.Database.Create.{create_table, place_table, add_table, keeps_table_type}
use g_plat.Database.View.{as_board, IsIntact, content, Live-as_items}
use g_plat.Database.Created.{same_keeps, created-IsIntact, created-content}

create_table-passes :
    (d : Database) (k : List ℕ) (record_size max_count : ℕ) (typ : Option (List ℕ))
    (type_size now t0 t : ℕ)
    → seek index_size d.index k ≡ some t0
    → (same_text (d.index t0).name k && not (d.index t0).erased) ≡ false
    → seek_room index_size d.index k ≡ some t
    → length k < 40
    → record_size * max_count < 2 ^ 31
    → record_size * max_count ≤ d.remain
    → d.index_count ≢ index_size - 1
    → record_size ≤ max_msg_len
    → type_size ≤ type_max_size
    → (keeps_table_type d typ type_size ≡ true → length (type_text typ type_size) ≡ type_size)
    → create_table d k record_size max_count typ type_size now
      ≡ (done tt, add_table d t k record_size max_count typ type_size now)
unfolding create_table place_table
create_table-passes d k record_size max_count typ type_size now t0 t r0 no_entry r short int fits
      slots small small_type text =
    rw (r0, r, create_table, place_table) (ground (arith, no_entry, text))

create_table-found :
    (d : Database) (k : List ℕ) (record_size max_count : ℕ) (typ : Option (List ℕ))
    (type_size now : ℕ)
    → Fits (as_board d) k (record_size * max_count) typ type_size
    → record_size ≤ max_msg_len
    → record_size * max_count < 2 ^ 31
    → (t : ℕ) × (t < index_size)
      × Room index_size-IsSize d.index k t
      × (create_table d k record_size max_count typ type_size now
          ≡ (done tt, add_table d t k record_size max_count typ type_size now))
create_table-found d k record_size max_count typ type_size now f small int =
    let blank : Blank index_size d.index = record {
      slot = f.blank.slot;
      in_range = f.blank.in_range;
      blank = f.blank.blank;
    } in
    let (t0, r0, no_entry) =
      seek-absent d.index k blank (λ j l. f.absent j (Live-as_items d k j l)) in
    let (t, r, lt, room) = seek_room-found d.index k blank in
    (
      t,
      lt,
      room,
      create_table-passes d k record_size max_count typ type_size now t0 t r0 no_entry r
          f.name.short int f.room f.slots small f.small
          (λ e.
            length-type_text typ type_size (as_board d) f.buffer
              (sym (same_keeps d typ type_size) ∙ e)),
    )

-- CreateTable for a name `k` that no table has, on an intact database with room for the table, in
-- the bytes and in the index, and for records of at most MAXMSGLEN bytes, of a size that an `int`
-- holds: it succeeds; then `k` is a table of that shape without rows, every other name `k'` has the
-- rows that it had, and the database is intact again.
pub create_table-content :
    (d : Database) (k : List ℕ) (record_size max_count : ℕ) (typ : Option (List ℕ))
    (type_size now : ℕ) (k' : List ℕ)
    → IsIntact d
    → Fits (as_board d) k (record_size * max_count) typ type_size
    → record_size ≤ max_msg_len
    → record_size * max_count < 2 ^ 31
    → k' ≢ []
    → let (o, after) = create_table d k record_size max_count typ type_size now in
      (o ≡ done tt)
      × (content after k' ≡ (
          if same_text k' k
          then some (record {
            record_size = record_size;
            max_count = max_count;
            count = 0;
            bytes = [];
            time = now;
          })
          else content d k'))
      × IsIntact after
create_table-content d k record_size max_count typ type_size now k' v f small int kne =
    let (t, lt, room, e) =
      create_table-found d k record_size max_count typ type_size now f small int in
    rw e (
      refl,
      created-content d k record_size max_count typ type_size now t v f lt room k' kne,
      created-IsIntact d k record_size max_count typ type_size now t v f lt room,
    )
