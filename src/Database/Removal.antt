-- ===== src/Database/Removal.antt =====
-- DeleteTable on an intact database: the table is gone and the others keep their rows, although the
-- bytes behind it move.
use g_plat.Prelude.{
  ℕ, ◌*◌, ◌≤◌, ◌≡◌, ◌≢◌, ◌↔◌, inl, inr, refl, sym, ap, subst, fun_ext, ◌∙◌, true, none, some, List,
  [], arith, collect-align, same_text, same_text→eq, same_text_refl, if◌then◌else◌, Bool-cases,
}
use g_plat.Errors.{done}
use g_plat.Hash.{Slot, index_size, is_blank}
use g_plat.Hash.Probe.{index_size-IsSize}
use g_plat.Hash.Directory.{Live, Blank, Live-unique, locate_found}
use g_plat.Hash.Change.{bury, update_ne}
use g_plat.Hash.Bury.{SameNames, Live-same, Live-bury}
use g_plat.Hash.Lookup.{Live-cases}
use g_plat.Board.Inv.{IsSound}
use g_plat.Board.Erase.{remove_item}
use g_plat.Board.Delete.{after_delete, delete-bytes, delete-Blank}
use g_plat.Board.Removal.{Frees, delete-Frees, delete-IsSound}
use g_plat.Database.{Database, Table}
use g_plat.Database.Drop.{delete_table, remove_table, shift_table, shift_fields, is_table}
use g_plat.Database.View.{
  as_board, IsIntact, rows_of, content, Live-as_items, Live-Holds_table, intact-WellPlaced,
}
use g_plat.Database.Alter.{content-Live, content-absent}
use native.Mathlib.Nat.{mul-le-mul_left}

shift_table-fields :
    (p n a m : ℕ) (s : Slot Table)
    → is_table s ≡ true
    → (shift_table p n a m s).fields ≡ shift_fields p n a m s.fields
shift_table-fields p n a m s h = rw h refl

module _ (d : Database) (k : List ℕ) (t : ℕ) (v : IsIntact d) (ne : k ≢ [])
    (l : Live index_size d.index k t) where
  abbrev gone : Table
  gone = (d.index t).fields

  abbrev d' : Database
  d' = remove_table d t gone

  abbrev lb : Live index_size (as_board d).index k t
  lb = Live-as_items d k t l

  -- It is DeleteItem on the board.
  removed_board : as_board d' ≡ after_delete (as_board d) k t v.board ne lb
  unfolding remove_table after_delete remove_item
  removed_board =
      ap (λ x. record (as_board (remove_table d t gone)) { index = x })
        (fun_ext (λ j. ground arith))

  delete_table-found : delete_table d k ≡ (done tt, d')
  unfolding delete_table
  delete_table-found =
      rw (locate_found index_size-IsSize d.index k t (intact-WellPlaced d v) ne l, delete_table)
        (ground (
          arith,
          v.board.inside t (Live-Holds_table d k ne l),
          v.board.sums,
          v.board.type_inside t (Live-Holds_table d k ne l),
          v.board.type_sums,
          v.board.type_addrs t,
        ))

  removed-counts : (j : ℕ) → (d'.index j).fields.curr_count ≤ (d'.index j).fields.max_count
  unfolding remove_table
  removed-counts j = ground (arith, v.counts j)

  removed-IsIntact : IsIntact d'
  removed-IsIntact = record {
    board = subst IsSound (sym removed_board) (delete-IsSound (as_board d) k t v.board ne lb);
    counts = removed-counts;
  }

  removed-Frees : Frees (as_board d) (as_board d') ((as_board d).index t).fields
  removed-Frees =
      subst (λ b. Frees (as_board d) b ((as_board d).index t).fields) (sym removed_board)
        (delete-Frees (as_board d) k t v.board ne lb)

  abbrev buried : ℕ → Slot Table
  buried = bury d.index t (record (d.index t).fields { curr_count = 0; type_size = 0 })

  removed-SameNames : SameNames buried d'.index
  unfolding remove_table
  removed-SameNames = record { names = λ j. ground arith; marks = λ j. ground arith }

  removed-Live :
      (k' : List ℕ) (u : ℕ)
      → Live index_size d'.index k' u ↔ (Live index_size d.index k' u × (u ≢ t))
  removed-Live k' u = (
    λ m.
        (Live-bury index_size d.index _ t k' u).0
          ((Live-same index_size removed-SameNames k' u).0 m),
    λ h.
        (Live-same index_size removed-SameNames k' u).1
          ((Live-bury index_size d.index _ t k' u).1 h),
  )

  removed-Blank : Blank index_size d.index → Blank index_size d'.index
  removed-Blank h =
      let x =
        delete-Blank (as_board d) k t v.board ne lb
          (record { slot = h.slot; in_range = h.in_range; blank = h.blank }) in
      record {
        slot = x.slot;
        in_range = x.in_range;
        blank = ap (λ b. is_blank (b.index x.slot).name) removed_board ∙ x.blank;
      }

  -- The entry of another table: the rows may stand elsewhere.
  removed-rows :
      (k' : List ℕ) (u : ℕ)
      → k' ≢ []
      → Live index_size d.index k' u
      → u ≢ t
      → rows_of d'.mem (d'.index u).fields ≡ rows_of d.mem (d.index u).fields
  unfolding remove_table after_delete remove_item
  removed-rows k' u kne m off =
      let h = Live-Holds_table d k' kne m in
      let old : Table = (d.index u).fields in
      let most : old.record_size * old.curr_count ≤ old.record_size * old.max_count =
        mul-le-mul_left old.record_size (v.counts u) in
      ap
        (λ s.
          rows_of d'.mem
            (shift_table gone.start_pos (gone.record_size * gone.max_count) gone.type_addr
              gone.type_size s).fields)
        (update_ne d.index t u _ off)
      ∙ ap (rows_of d'.mem) (
          shift_table-fields gone.start_pos (gone.record_size * gone.max_count) gone.type_addr
            gone.type_size (d.index u) h.item)
      ∙ ap
          (λ x. record {
            record_size = old.record_size;
            max_count = old.max_count;
            count = old.curr_count;
            bytes = x;
            time = old.timestamp;
          })
          (collect-align d'.mem d.mem _ old.start_pos (old.record_size * old.curr_count) (λ i lt.
            delete-bytes (as_board d) k t v.board ne lb u i h off (omega (arith, lt, most))))

  removed-content :
      (k' : List ℕ) → k' ≢ [] → content d' k' ≡ (if same_text k' k then none else content d k')
  removed-content k' kne =
      let w = intact-WellPlaced d v in
      let w' = intact-WellPlaced d' removed-IsIntact in
      elim (Bool-cases (same_text k' k)) [
        | inl same ↦
            rw (same, same_text→eq k' k same)
              (content-absent d' k (λ j m.
                let (old, off) = (removed-Live k j).0 m in
                off (Live-unique index_size-IsSize d.index k w ne old l)))
        | inr other ↦ rw other (elim (Live-cases index_size-IsSize d.index k' w kne) [
          | inr no_slot ↦
              content-absent d' k' (λ j m. no_slot j ((removed-Live k' j).0 m).0)
              ∙ sym (content-absent d k' no_slot)
          | inl (u, m) ↦
              let off : u ≢ t = λ e. cc (
                sym other
                ∙ ap (λ x. same_text x k) (sym m.named ∙ ap (λ x. (d.index x).name) e ∙ l.named)
                ∙ same_text_refl k) in
              content-Live d' k' u w' kne ((removed-Live k' u).1 (m, off))
              ∙ ap some (removed-rows k' u kne m off)
              ∙ sym (content-Live d k' u w kne m)
        ])
      ]

-- DeleteTable of a table `k` that is there, on an intact database whose index has a slot that was
-- never used: it succeeds; then no table has the name `k`, and every other `k'` has the rows that it
-- had, whose bytes may have moved; and the database is intact, with such a slot, and with the room of
-- the table given back: what is left lies below the lowered `nextpos`.
pub delete_table-content :
    (d : Database) (k k' : List ℕ) (t : ℕ)
    → IsIntact d
    → Blank index_size d.index
    → k ≢ []
    → k' ≢ []
    → Live index_size d.index k t
    → let (o, after) = delete_table d k in
      (o ≡ done tt)
      × (content after k' ≡ (if same_text k' k then none else content d k'))
      × IsIntact after
      × Blank index_size after.index
      × Frees (as_board d) (as_board after) ((as_board d).index t).fields
delete_table-content d k k' t v blank ne kne l = rw (delete_table-found d k t v ne l) (
  refl,
  removed-content d k t v ne l k' kne,
  removed-IsIntact d k t v ne l,
  removed-Blank d k t v ne l blank,
  removed-Frees d k t v ne l,
)
