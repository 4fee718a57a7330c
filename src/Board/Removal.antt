-- ===== src/Board/Removal.antt =====
-- DeleteItem on a sound board, seen through ReadB and ReadType.
use g_plat.Prelude.{
  ◌-◌, inl, inr, ℕ, ◌+◌, ◌≡◌, ◌≢◌, refl, sym, ap, ◌∙◌, List, [], arith, collect-align,
  if◌then◌else◌, ◌==◌,
}
use g_plat.Errors.{done, fail, refuse, error_tag_not_exist}
use g_plat.Hash.{index_size}
use g_plat.Hash.Probe.{index_size-IsSize}
use g_plat.Hash.Directory.{Live, Blank, locate_missing}
use g_plat.Hash.Lookup.{Live-cases}
use g_plat.Board.{Item, Board, read_b, read_type}
use g_plat.Board.Erase.{delete_item, shift_item, remove_item}
use g_plat.Board.Inv.{IsSound}
use g_plat.Board.Items.{Live-Holds}
use g_plat.Board.Rewrite.{read_item, read_b-found, type_item, read_type-found}
use g_plat.Board.Delete.{
  after_delete, delete_found, delete-WellPlaced, delete-Live, delete-absent, delete-was,
  delete-Blank, delete-Holds, delete-fields, delete-bytes, delete-type_bytes, delete-type_addrs,
}

module _ (b : Board) (k : List ℕ) (t : ℕ) (v : IsSound b) (ne : k ≢ [])
    (l : Live index_size b.index k t) where
  abbrev b' : Board
  b' = after_delete b k t v ne l

  pub delete-IsSound : IsSound b'
  unfolding after_delete
  delete-IsSound = record {
    placed = delete-WellPlaced b k t v ne l;
    sums = omega (arith, v.sums, v.inside t (Live-Holds k ne l));
    inside = λ u h.
        let (old, off) = delete-Holds b k t v ne l h in
        rw (delete-fields b k t v ne l u old off) (
          ground (
            arith,
            v.inside u old,
            v.inside t (Live-Holds k ne l),
            v.apart u t old (Live-Holds k ne l) off,
          ));
    apart = λ x y h g diff.
        let (old, off) = delete-Holds b k t v ne l h in
        let (old', off') = delete-Holds b k t v ne l g in
        rw (delete-fields b k t v ne l x old off, delete-fields b k t v ne l y old' off')
          (ground (
            arith,
            v.apart x y old old' diff,
            v.apart x t old (Live-Holds k ne l) off,
            v.apart y t old' (Live-Holds k ne l) off',
          ));
    type_sums = omega (arith, v.type_sums, v.type_inside t (Live-Holds k ne l));
    type_inside = λ u h.
        let (old, off) = delete-Holds b k t v ne l h in
        rw (delete-fields b k t v ne l u old off) (
          ground (
            arith,
            v.type_inside u old,
            v.type_inside t (Live-Holds k ne l),
            v.types_apart u t old (Live-Holds k ne l) off,
          ));
    types_apart = λ x y h g diff.
        let (old, off) = delete-Holds b k t v ne l h in
        let (old', off') = delete-Holds b k t v ne l g in
        rw (delete-fields b k t v ne l x old off, delete-fields b k t v ne l y old' off')
          (ground (
            arith,
            v.types_apart x y old old' diff,
            v.types_apart x t old (Live-Holds k ne l) off,
            v.types_apart y t old' (Live-Holds k ne l) off',
          ));
    type_addrs = delete-type_addrs b k t v ne l;
  }

  delete-others :
      (k' : List ℕ) (n : ℕ) {u : ℕ}
      → k' ≢ []
      → Live index_size b.index k' u
      → u ≢ t
      → read_b b' k' n ≡ read_b b k' n
  delete-others k' n {u} kne m off =
      let h = Live-Holds k' kne m in
      let same =
        collect-align b'.mem b.mem _ (b.index u).fields.start_pos (b.index u).fields.item_size
          (λ i lt. delete-bytes b k t v ne l u i h off lt) in
      read_b-found b' k' n (delete-WellPlaced b k t v ne l) kne (delete-Live b k t v ne l k' m off)
      ∙ ap (λ x. read_item b' x n) (delete-fields b k t v ne l u h off)
      ∙ ground (arith, same)
      ∙ sym (read_b-found b k' n v.placed kne m)

  delete-other_types :
      (k' : List ℕ) {u : ℕ}
      → k' ≢ []
      → Live index_size b.index k' u
      → u ≢ t
      → read_type b' k' ≡ read_type b k'
  unfolding after_delete
  delete-other_types k' {u} kne m off =
      let h = Live-Holds k' kne m in
      let same =
        collect-align b'.mem b.mem _ (b.data_size + (b.index u).fields.type_addr)
          (b.index u).fields.type_size (λ i lt. delete-type_bytes b k t v ne l u i h off lt) in
      let type_item_moves : type_item b' (
            shift_item (b.index t).fields.start_pos (b.index t).fields.item_size
              (b.index t).fields.type_addr (b.index t).fields.type_size (b.index u).fields)
          ≡ type_item b (b.index u).fields =
        ap (λ x. if (b.index u).fields.type_size == 0 then refuse else done x) same in
      read_type-found b' k' (delete-WellPlaced b k t v ne l) kne (delete-Live b k t v ne l k' m off)
      ∙ ap (type_item b') (delete-fields b k t v ne l u h off)
      ∙ type_item_moves
      ∙ sym (read_type-found b k' v.placed kne m)

delete-missing :
    (b : Board) (k : List ℕ) (t : ℕ) (v : IsSound b) (ne : k ≢ []) (l : Live index_size b.index k t)
    (d : Blank index_size b.index) (k' : List ℕ) (n : ℕ)
    → ((u : ℕ) → ¬ Live index_size b.index k' u)
    → (read_b (b' b k t v ne l) k' n ≡ read_b b k' n)
      × (read_type (b' b k t v ne l) k' ≡ read_type b k')
unfolding read_b read_type
delete-missing b k t v ne l d k' n no_slot =
    let before = locate_missing index_size-IsSize b.index k' d no_slot in
    let behind =
      locate_missing index_size-IsSize (b' b k t v ne l).index k' (delete-Blank b k t v ne l d)
        (λ u h. no_slot u (delete-was b k t v ne l k' u h)) in
    (rw (before, behind, read_b) refl, rw (before, behind, read_type) refl)

-- The board `b'` has the room of the item `item` back, in its bytes, its types and its index.
pub record Frees (b b' : Board) (item : Item) : Type 0 where
  pub next_pos : b'.next_pos + item.item_size ≡ b.next_pos
  pub remain : b'.remain ≡ b.remain + item.item_size
  pub types : b'.type_remain ≡ b.type_remain + item.type_size
  pub index_count : b'.index_count ≡ b.index_count - 1

pub delete-Frees :
    (b : Board) (k : List ℕ) (t : ℕ) (v : IsSound b) (ne : k ≢ []) (l : Live index_size b.index k t)
    → Frees b (b' b k t v ne l) (b.index t).fields
unfolding after_delete remove_item
delete-Frees b k t v ne l = record {
  next_pos = omega (arith, v.inside t (Live-Holds k ne l));
  remain = refl;
  types = refl;
  index_count = refl;
}

-- DeleteItem of an item `k`, on a sound board whose index has a slot that was never used: it
-- succeeds; ReadB of `k` then reports that there is no such item; ReadB and ReadType of any other
-- name `k'`, whose bytes may have moved, return what they returned before; and the board is sound
-- again, with such a slot, and with the room of the item given back: what is left lies below the
-- lowered `nextpos`.
pub delete_item-read_b :
    {b : Board} (k k' : List ℕ) (m n : ℕ) {t : ℕ}
    → IsSound b
    → Blank index_size b.index
    → k ≢ []
    → k' ≢ []
    → k' ≢ k
    → Live index_size b.index k t
    → let (o, after) = delete_item b k in
      (o ≡ done tt)
      × (read_b after k m ≡ fail error_tag_not_exist)
      × (read_b after k' n ≡ read_b b k' n)
      × (read_type after k' ≡ read_type b k')
      × IsSound after
      × Blank index_size after.index
      × Frees b after (b.index t).fields
unfolding read_b read_type
delete_item-read_b {b} k k' m n {t} v d ne kne diff l =
    let d' = delete-Blank b k t v ne l d in
    let absent =
      locate_missing index_size-IsSize (b' b k t v ne l).index k d' (delete-absent b k t v ne l) in
    let same : (read_b (b' b k t v ne l) k' n ≡ read_b b k' n)
        × (read_type (b' b k t v ne l) k' ≡ read_type b k') =
      elim (Live-cases index_size-IsSize b.index k' v.placed kne) [
        | inl (u, l') ↦
            let off : u ≢ t = λ e. diff (sym l'.named ∙ ap (λ x. (b.index x).name) e ∙ l.named) in
            (
              delete-others b k t v ne l k' n kne l' off,
              delete-other_types b k t v ne l k' kne l' off,
            )
        | inr no_slot ↦ delete-missing b k t v ne l d k' n no_slot
      ] in
    rw (delete_found b k t v ne l) (
      refl,
      rw (absent, read_b) refl,
      same.0,
      same.1,
      delete-IsSound b k t v ne l,
      d',
      delete-Frees b k t v ne l,
    )
