-- ===== src/Board/Delete.antt =====
-- DeleteItem on a sound board: where the items and types behind move to.
use g_plat.Prelude.{
  ℕ, ◌+◌, ◌*◌, ◌≤◌, ◌<◌, ◌≡◌, ◌≢◌, refl, sym, ap, ap₂, ◌∙◌, true, false, List, [], arith, not, ◌&&◌,
  ℕ_discrete,
}
use g_plat.Errors.{done}
use g_plat.Hash.{Slot, index_size, is_blank}
use g_plat.Hash.Probe.{index_size-IsSize}
use g_plat.Hash.Directory.{Live, Blank, WellPlaced, locate_found, Live-unique}
use g_plat.Hash.Change.{bury, update_ne, update_self}
use g_plat.Hash.Bury.{SameNames, Live-same, same-WellPlaced, bury-WellPlaced, Live-bury}
use g_plat.FileTable.Inv.{is_blank_name}
use g_plat.Board.{Board, Item, type_avg_size, is_item}
use g_plat.Board.Erase.{delete_item, remove_item, shift_item, shift_pos, shift_slot}
use g_plat.Board.Inv.{IsSound, Holds}
use g_plat.Board.Items.{Live-Holds}

item_kept : (s : Slot Item) → is_item s ≡ true → s.erased ≡ false
item_kept s h = ground arith

shift_slot-fields :
    (p n a m : ℕ) (s : Slot Item)
    → is_item s ≡ true
    → (shift_slot p n a m s).fields ≡ shift_item p n a m s.fields
shift_slot-fields p n a m s h = rw h refl

module _ (b : Board) (k : List ℕ) (t : ℕ) (v : IsSound b) (ne : k ≢ [])
    (l : Live index_size b.index k t) where
  abbrev gone : Item
  gone = (b.index t).fields

  unfoldable pub after_delete : Board
  unfolding remove_item
  after_delete = remove_item b t gone

  abbrev buried : ℕ → Slot Item
  buried = bury b.index t (record (b.index t).fields { type_size = 0 })

  pub delete_found : delete_item b k ≡ (done tt, after_delete)
  unfolding delete_item after_delete
  delete_found =
      rw (locate_found index_size-IsSize b.index k t v.placed ne l, delete_item)
        (ground (
          arith,
          v.inside t (Live-Holds k ne l),
          v.sums,
          v.type_inside t (Live-Holds k ne l),
          v.type_sums,
          v.type_addrs t,
        ))

  delete-SameNames : SameNames buried after_delete.index
  unfolding after_delete
  delete-SameNames = record { names = λ j. ground arith; marks = λ j. ground arith }

  pub delete-WellPlaced : WellPlaced index_size after_delete.index
  delete-WellPlaced =
      same-WellPlaced index_size delete-SameNames (bury-WellPlaced index_size b.index _ t v.placed)

  pub delete-Live :
      (k' : List ℕ) {u : ℕ}
      → Live index_size b.index k' u
      → u ≢ t
      → Live index_size after_delete.index k' u
  delete-Live k' {u} m off =
      (Live-same index_size delete-SameNames k' u).1
        ((Live-bury index_size b.index _ t k' u).1 (m, off))

  pub delete-was :
      (k' : List ℕ) (u : ℕ) → Live index_size after_delete.index k' u → Live index_size b.index k' u
  delete-was k' u m =
      ((Live-bury index_size b.index _ t k' u).0
        ((Live-same index_size delete-SameNames k' u).0 m)).0

  pub delete-absent : (u : ℕ) → ¬ Live index_size after_delete.index k u
  delete-absent u m =
      let (old, off) =
        (Live-bury index_size b.index _ t k u).0
          ((Live-same index_size delete-SameNames k u).0 m) in
      off (Live-unique index_size-IsSize b.index k v.placed ne old l)

  delete-name : (u : ℕ) → u ≢ t → (after_delete.index u).name ≡ (b.index u).name
  delete-name u off = delete-SameNames.names u ∙ ap (λ s. s.name) (update_ne b.index t u _ off)

  delete-mark : (u : ℕ) → u ≢ t → (after_delete.index u).erased ≡ (b.index u).erased
  delete-mark u off = delete-SameNames.marks u ∙ ap (λ s. s.erased) (update_ne b.index t u _ off)

  delete-erased : (after_delete.index t).erased ≡ true
  delete-erased = delete-SameNames.marks t ∙ ap (λ s. s.erased) (update_self b.index t _)

  pub delete-Blank : Blank index_size b.index → Blank index_size after_delete.index
  delete-Blank d = record {
    slot = d.slot;
    in_range = d.in_range;
    blank =
        ap is_blank (
          delete-name d.slot (λ e. cc (
            sym d.blank
            ∙ ap (λ x. is_blank (b.index x).name) e
            ∙ ap is_blank l.named
            ∙ is_blank_name k ne)))
        ∙ d.blank;
  }

  -- The slots that still hold an item, and the entries in them.
  pub delete-Holds : {u : ℕ} → Holds after_delete u → Holds b u × (u ≢ t)
  delete-Holds {u} h = elim (ℕ_discrete u t) [
    | yes e ↦ absurd (
        cc (
          sym (item_kept (after_delete.index u) h.item)
          ∙ ap (λ x. (after_delete.index x).erased) e
          ∙ delete-erased))
    | no off ↦ (
      record {
        in_range = h.in_range;
        item =
            ap₂ (λ n e. not (is_blank n) && not e) (sym (delete-name u off))
              (sym (delete-mark u off))
            ∙ h.item;
      },
      off,
    )
  ]

  pub delete-fields :
      (u : ℕ)
      → Holds b u
      → u ≢ t
      → (after_delete.index u).fields
        ≡ shift_item gone.start_pos gone.item_size gone.type_addr gone.type_size (b.index u).fields
  unfolding after_delete
  delete-fields u h off =
      ap (λ s. (shift_slot gone.start_pos gone.item_size gone.type_addr gone.type_size s).fields)
        (update_ne b.index t u _ off)
      ∙ shift_slot-fields _ _ _ _ (b.index u) h.item

  pub delete-type_addrs :
      (u : ℕ) → (after_delete.index u).fields.type_addr ≤ index_size * type_avg_size
  unfolding after_delete
  delete-type_addrs u = ground (arith, v.type_addrs u, v.type_addrs t)

  -- The bytes of another item, and of another type, where they stand now.
  pub delete-bytes :
      (u i : ℕ)
      → Holds b u
      → u ≢ t
      → i < (b.index u).fields.item_size
      → after_delete.mem (shift_pos gone.start_pos gone.item_size (b.index u).fields.start_pos + i)
        ≡ b.mem ((b.index u).fields.start_pos + i)
  unfolding after_delete
  delete-bytes u i h off lt = ground (
    arith,
    v.sums,
    v.inside u h,
    v.inside t (Live-Holds k ne l),
    v.apart u t h (Live-Holds k ne l) off,
  )

  pub delete-type_bytes :
      (u i : ℕ)
      → Holds b u
      → u ≢ t
      → i < (b.index u).fields.type_size
      → after_delete.mem
          (b.data_size + shift_pos gone.type_addr gone.type_size (b.index u).fields.type_addr + i)
        ≡ b.mem (b.data_size + (b.index u).fields.type_addr + i)
  unfolding after_delete
  delete-type_bytes u i h off lt = ground (
    arith,
    v.sums,
    v.type_sums,
    v.type_inside u h,
    v.type_inside t (Live-Holds k ne l),
    v.types_apart u t h (Live-Holds k ne l) off,
  )
