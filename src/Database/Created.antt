-- ===== src/Database/Created.antt =====
-- The new table in the database.
use g_plat.Prelude.{
  ℕ, ◌-◌, ◌+◌, ◌*◌, ◌≤◌, ◌<◌, ◌≡◌, ◌≢◌, inl, inr, refl, sym, ap, ◌∙◌, true, false, Bool, Option,
  none, some, List, [], arith, ◌==◌, collect, collect-ext, same_text, same_text→eq, same_text_refl,
  if◌then◌else◌, Bool-cases,
}
use g_plat.Hash.{Slot, index_size}
use g_plat.Hash.Probe.{index_size-IsSize}
use g_plat.Hash.Directory.{Live}
use g_plat.Hash.Change.{
  Room, update_self, update_ne, Live-put, Live-put_self, Live-put_old, Live-ne-Room,
}
use g_plat.Hash.Lookup.{Live-cases}
use g_plat.Board.{Board}
use g_plat.Board.Add.{type_text, add_item, stores_type, with_type, new_item}
use g_plat.Board.Items.{copy_in-outside}
use g_plat.Board.Place.{Fits}
use g_plat.Board.Creation.{after_create, create-IsSound}
use g_plat.Board.Layout.{SameLayout, same_layout-IsSound}
use g_plat.Database.{Database, Table}
use g_plat.Database.Create.{add_table, typed, new_table, keeps_table_type}
use g_plat.Database.View.{
  as_board, as_slot, as_item, IsIntact, Rows, rows_of, content, Live-as_items, Live-Holds_table,
  intact-WellPlaced,
}
use g_plat.Database.Alter.{content-Live, content-absent}
use native.Mathlib.Nat.{mul-le-mul_left, mul-zero}

slot_if :
    (c : Bool) (x y : Slot Table)
    → as_slot (if c then x else y) ≡ (if c then as_slot x else as_slot y)
slot_if true x y = refl
slot_if false x y = refl

pub same_keeps :
    (d : Database) (typ : Option (List ℕ)) (n : ℕ)
    → keeps_table_type d typ n ≡ stores_type (as_board d) typ n
same_keeps d none n = refl
same_keeps d (some bytes) n = refl

typed-as_item :
    (d : Database) (table : Table) (c : Bool) (n : ℕ)
    → as_item (typed d table c n) ≡ with_type (as_board d) (as_item table) c n
typed-as_item d table true n = refl
typed-as_item d table false n = refl

module _ (d : Database) (k : List ℕ) (record_size max_count : ℕ) (typ : Option (List ℕ))
    (type_size now t : ℕ) (v : IsIntact d)
    (f : Fits (as_board d) k (record_size * max_count) typ type_size) (lt : t < index_size)
    (room : Room index_size-IsSize d.index k t) where
  abbrev d' : Database
  d' = add_table d t k record_size max_count typ type_size now

  abbrev fresh : Table
  fresh =
      typed d (new_table d (d.index t).fields record_size max_count now)
        (keeps_table_type d typ type_size) type_size

  pub absent : (j : ℕ) → ¬ Live index_size d.index k j
  absent j l = f.absent j (Live-as_items d k j l)

  board-Room : Room index_size-IsSize (as_board d).index k t
  board-Room = record {
    round = room.round;
    there = room.there;
    stops = room.stops;
    before = room.before;
  }

  created : Board
  created =
      after_create (as_board d) k (record_size * max_count) typ type_size now t v.board f lt
        board-Room

  created-slot : (j : ℕ) → as_slot (d'.index j) ≡ created.index j
  unfolding created after_create add_item add_table
  created-slot j =
      slot_if (j == t) (record { name = k; erased = false; fields = fresh }) (d.index j)
      ∙ ap
          (λ x.
            if j == t then record { name = k; erased = false; fields = x } else as_slot (d.index j))
          (typed-as_item d (new_table d (d.index t).fields record_size max_count now)
              (keeps_table_type d typ type_size) type_size
            ∙ ap
                (λ c.
                  with_type (as_board d)
                    (new_item (as_board d) (as_item (d.index t).fields) (record_size * max_count)
                      now)
                    c type_size)
                (same_keeps d typ type_size))

  created-SameLayout : SameLayout created (as_board d')
  unfolding created after_create add_item add_table
  created-SameLayout = record {
    same_names = record {
      names = λ j. ap (λ s. s.name) (created-slot j);
      marks = λ j. ap (λ s. s.erased) (created-slot j);
    };
    starts = λ j. ap (λ s. s.fields.start_pos) (created-slot j);
    sizes = λ j. ap (λ s. s.fields.item_size) (created-slot j);
    addrs = λ j. ap (λ s. s.fields.type_addr) (created-slot j);
    type_sizes = λ j. ap (λ s. s.fields.type_size) (created-slot j);
    data_sizes = refl;
    nexts = refl;
    remains = refl;
    next_types =
        ap (λ c. if c then d.next_type_pos + type_size else d.next_type_pos)
          (same_keeps d typ type_size);
    type_remains =
        ap (λ c. if c then d.type_remain - type_size else d.type_remain)
          (same_keeps d typ type_size);
  }

  created-counts : (j : ℕ) → (d'.index j).fields.curr_count ≤ (d'.index j).fields.max_count
  unfolding add_table
  created-counts j = ground (arith, v.counts j)

  pub created-IsIntact : IsIntact d'
  unfolding created after_create
  created-IsIntact = record {
    board = same_layout-IsSound created (as_board d') created-SameLayout (
        create-IsSound (as_board d) k (record_size * max_count) typ type_size now t v.board f lt
          board-Room);
    counts = created-counts;
  }

  created-fresh : d'.index t ≡ record { name = k; erased = false; fields = fresh }
  unfolding add_table
  created-fresh = update_self d.index t _

  abbrev empty_rows : List ℕ → Rows
  empty_rows bytes = record {
    record_size = record_size;
    max_count = max_count;
    count = 0;
    bytes = bytes;
    time = now;
  }

  no_rows : empty_rows (collect d'.mem d.next_pos (record_size * 0)) ≡ empty_rows []
  unfolding collect
  no_rows = ap (λ n. empty_rows (collect d'.mem d.next_pos n)) (mul-zero record_size)

  fresh-rows : rows_of d'.mem fresh ≡ record {
    record_size = record_size;
    max_count = max_count;
    count = 0;
    bytes = [];
    time = now;
  }
  unfolding collect
  fresh-rows = elim (Bool-cases (keeps_table_type d typ type_size)) [
    | inl e ↦ rw e no_rows
    | inr e ↦ rw e no_rows
  ]

  -- The rows of a table that was there.
  old-rows :
      (k' : List ℕ) (u : ℕ)
      → k' ≢ []
      → Live index_size d.index k' u
      → (u ≢ t) × (rows_of d'.mem (d'.index u).fields ≡ rows_of d.mem (d.index u).fields)
  unfolding add_table
  old-rows k' u kne m =
      let off = Live-ne-Room index_size-IsSize d.index k k' kne room m in
      let old : Table = (d.index u).fields in
      let most : old.record_size * old.curr_count ≤ old.record_size * old.max_count =
        mul-le-mul_left old.record_size (v.counts u) in
      (
        off,
        ap (λ s. rows_of d'.mem s.fields) (update_ne d.index t u _ off)
            ∙ ap
                (λ x. record {
                  record_size = old.record_size;
                  max_count = old.max_count;
                  count = old.curr_count;
                  bytes = x;
                  time = old.timestamp;
                })
                (collect-ext d'.mem d.mem old.start_pos (old.record_size * old.curr_count)
                  (λ i lo hi. ground (
                    arith,
                    most,
                    v.board.inside u (Live-Holds_table d k' kne m),
                    v.board.sums,
                    copy_in-outside d.mem (d.data_size + d.next_type_pos) (type_text typ type_size)
                        i,
                  ))),
      )

  pub created-content :
      (k' : List ℕ)
      → k' ≢ []
      → content d' k' ≡ (
          if same_text k' k
          then some (record {
            record_size = record_size;
            max_count = max_count;
            count = 0;
            bytes = [];
            time = now;
          })
          else content d k')
  unfolding add_table
  created-content k' kne =
      let w = intact-WellPlaced d v in
      let w' = intact-WellPlaced d' created-IsIntact in
      elim (Bool-cases (same_text k' k)) [
        | inl same ↦
            rw (same, same_text→eq k' k same)
              (content-Live d' k t w' f.name.some_bytes
                  (Live-put_self index_size-IsSize d.index k fresh w f.name.some_bytes room absent)
                ∙ ap (λ s. some (rows_of d'.mem s.fields)) created-fresh
                ∙ ap some fresh-rows)
        | inr other ↦ rw other (elim (Live-cases index_size-IsSize d.index k' w kne) [
          | inr no_slot ↦
              content-absent d' k' (λ j m.
                elim (Live-put index_size-IsSize d.index k fresh w f.name.some_bytes room absent k'
                  j m) [
                    | inl (e, _) ↦ cc (sym other ∙ ap (λ x. same_text x k) e ∙ same_text_refl k)
                    | inr (old, _) ↦ no_slot j old
                  ])
              ∙ sym (content-absent d k' no_slot)
          | inl (u, m) ↦
              let (off, same) = old-rows k' u kne m in
              content-Live d' k' u w' kne (
                Live-put_old index_size-IsSize d.index k fresh w f.name.some_bytes room absent k' u
                  kne m)
              ∙ ap some same
              ∙ sym (content-Live d k' u w kne m)
        ])
      ]

-- The tests of CreateTable, all passed.
