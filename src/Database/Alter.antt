-- ===== src/Database/Alter.antt =====
-- A database in which the rows of one table are altered: its bytes, and fields of its entry that do
-- not say where the bytes are.
use g_plat.Prelude.{
  ℕ, ◌+◌, ◌*◌, ◌≤◌, ◌<◌, ◌≡◌, ◌≢◌, ◌⊎◌, inl, inr, refl, sym, ap, ap₂, ◌∙◌, none, some, List, [],
  arith, collect-ext, same_text, same_text→eq, same_text_refl, if◌then◌else◌, Bool-cases,
}
use g_plat.Hash.{index_size}
use g_plat.Hash.Probe.{index_size-IsSize}
use g_plat.Hash.Directory.{Live, WellPlaced, Blank}
use g_plat.Hash.Change.{update_self, update_ne}
use g_plat.Hash.Bury.{SameNames, Live-same}
use g_plat.Hash.Lookup.{entry_of-Live, entry_of-absent, Live-cases}
use g_plat.Board.Layout.{SameLayout, same_layout-IsSound}
use g_plat.Database.{Database, Table, set_table}
use g_plat.Database.View.{
  as_board, IsIntact, Live-Holds_table, intact-WellPlaced, rows_of, rows_at, content,
}
use native.Mathlib.Nat.{mul-le-mul_left}

pub content-Live :
    (d : Database) (k : List ℕ) (t : ℕ)
    → WellPlaced index_size d.index
    → k ≢ []
    → Live index_size d.index k t
    → content d k ≡ some (rows_of d.mem (d.index t).fields)
unfolding content
content-Live d k t w ne l = ap (rows_at d.mem) (entry_of-Live index_size-IsSize d.index k t w ne l)

pub content-absent :
    (d : Database) (k : List ℕ) → ((t : ℕ) → ¬ Live index_size d.index k t) → content d k ≡ none
unfolding content
content-absent d k h = ap (rows_at d.mem) (entry_of-absent index_size-IsSize d.index k h)

module _ (d : Database) (t : ℕ) (table : Table) (bytes : ℕ → ℕ) (count : ℕ)
    (start : table.start_pos ≡ (d.index t).fields.start_pos)
    (size : table.record_size ≡ (d.index t).fields.record_size)
    (room : table.max_count ≡ (d.index t).fields.max_count)
    (addr : table.type_addr ≡ (d.index t).fields.type_addr)
    (type_size : table.type_size ≡ (d.index t).fields.type_size)
    (most : table.curr_count ≤ table.max_count) where
  abbrev pub altered : Database
  altered = record d { mem = bytes; index = set_table d t table; counter = count }

  altered-SameNames : SameNames d.index altered.index
  altered-SameNames = record { names = λ j. ground arith; marks = λ j. ground arith }

  altered-SameLayout : SameLayout (as_board d) (as_board altered)
  altered-SameLayout = record {
    same_names = record { names = λ j. ground arith; marks = λ j. ground arith };
    starts = λ j. ground (arith, start);
    sizes = λ j. ground (arith, size, room);
    addrs = λ j. ground (arith, addr);
    type_sizes = λ j. ground (arith, type_size);
    data_sizes = refl;
    nexts = refl;
    remains = refl;
    next_types = refl;
    type_remains = refl;
  }

  pub altered-IsIntact : IsIntact d → IsIntact altered
  altered-IsIntact v = record {
    board = same_layout-IsSound (as_board d) (as_board altered) altered-SameLayout v.board;
    counts = λ j. ground (arith, v.counts j, most);
  }

  pub altered-Blank : Blank index_size d.index → Blank index_size altered.index
  altered-Blank h = record {
    slot = h.slot;
    in_range = h.in_range;
    blank = ground (arith, h.blank, altered-SameNames.names h.slot);
  }

  altered-Live :
      (k : List ℕ) (j : ℕ) → Live index_size d.index k j → Live index_size altered.index k j
  altered-Live k j l = (Live-same index_size altered-SameNames k j).1 l

  -- After it the altered table has the rows that its new entry says, and each other table those that
  -- it had.
  pub altered-content :
      (k k' : List ℕ)
      → IsIntact d
      → k ≢ []
      → k' ≢ []
      → Live index_size d.index k t
      → ((i : ℕ)
          → (i < table.start_pos) ⊎ (table.start_pos + table.record_size * table.max_count ≤ i)
          → bytes i ≡ d.mem i)
      → content altered k' ≡ (if same_text k' k then some (rows_of bytes table) else content d k')
  altered-content k k' v ne kne l h =
      let w = intact-WellPlaced d v in
      let w' = intact-WellPlaced altered (altered-IsIntact v) in
      elim (Bool-cases (same_text k' k)) [
        | inl same ↦
            rw (same, same_text→eq k' k same)
              (content-Live altered k t w' ne (altered-Live k t l)
                ∙ ap (λ s. some (rows_of bytes s.fields)) (update_self d.index t _))
        | inr other ↦ rw other (elim (Live-cases index_size-IsSize d.index k' w kne) [
          | inr no_slot ↦
              content-absent altered k'
                (λ j l'. no_slot j ((Live-same index_size altered-SameNames k' j).0 l'))
              ∙ sym (content-absent d k' no_slot)
          | inl (u, m) ↦
              let off : u ≢ t = λ e. cc (
                sym other
                ∙ ap (λ x. same_text x k) (sym m.named ∙ ap (λ x. (d.index x).name) e ∙ l.named)
                ∙ same_text_refl k) in
              let old : Table = (d.index u).fields in
              let most_bytes : old.record_size * old.curr_count ≤ old.record_size * old.max_count =
                mul-le-mul_left old.record_size (v.counts u) in
              let apart =
                v.board.apart u t (Live-Holds_table d k' kne m) (Live-Holds_table d k ne l) off in
              let here : table.start_pos + table.record_size * table.max_count
                  ≡ (d.index t).fields.start_pos
                    + (d.index t).fields.record_size * (d.index t).fields.max_count =
                ap₂ ◌+◌ start (ap₂ ◌*◌ size room) in
              let far : (i : ℕ)
                  → old.start_pos ≤ i
                  → i < old.start_pos + old.record_size * old.curr_count
                  → (i < table.start_pos)
                    ⊎ (table.start_pos + table.record_size * table.max_count ≤ i) =
                λ i lo hi. rw here (ground (arith, start, lo, hi, apart, most_bytes)) in
              content-Live altered k' u w' kne (altered-Live k' u m)
              ∙ ap (λ s. some (rows_of bytes s.fields)) (update_ne d.index t u _ off)
              ∙ ap
                  (λ x. some (record {
                    record_size = old.record_size;
                    max_count = old.max_count;
                    count = old.curr_count;
                    bytes = x;
                    time = old.timestamp;
                  }))
                  (collect-ext bytes d.mem old.start_pos (old.record_size * old.curr_count)
                    (λ i lo hi. h i (far i lo hi)))
              ∙ sym (content-Live d k' u w kne m)
        ])
      ]
