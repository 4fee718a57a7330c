-- ===== src/Board/Layout.antt =====
-- Two boards with the same names in the same slots and the same places for the items' bytes.
use g_plat.Prelude.{ℕ, ◌≡◌, sym, ap₂, ◌∙◌, not, ◌&&◌, arith}
use g_plat.Hash.{index_size, is_blank}
use g_plat.Hash.Bury.{SameNames, same-WellPlaced}
use g_plat.Board.{Board}
use g_plat.Board.Inv.{IsSound, Holds}

pub record SameLayout (b b' : Board) : Type 0 where
  pub same_names : SameNames b.index b'.index
  pub starts : (j : ℕ) → (b'.index j).fields.start_pos ≡ (b.index j).fields.start_pos
  pub sizes : (j : ℕ) → (b'.index j).fields.item_size ≡ (b.index j).fields.item_size
  pub addrs : (j : ℕ) → (b'.index j).fields.type_addr ≡ (b.index j).fields.type_addr
  pub type_sizes : (j : ℕ) → (b'.index j).fields.type_size ≡ (b.index j).fields.type_size
  pub data_sizes : b'.data_size ≡ b.data_size
  pub nexts : b'.next_pos ≡ b.next_pos
  pub remains : b'.remain ≡ b.remain
  pub next_types : b'.next_type_pos ≡ b.next_type_pos
  pub type_remains : b'.type_remain ≡ b.type_remain

module _ (b b' : Board) (s : SameLayout b b') where
  same_layout-Holds : {j : ℕ} → Holds b' j → Holds b j
  same_layout-Holds {j} h = record {
    in_range = h.in_range;
    item =
        ap₂ (λ n e. not (is_blank n) && not e) (sym (s.same_names.names j))
          (sym (s.same_names.marks j))
        ∙ h.item;
  }

  pub same_layout-IsSound : IsSound b → IsSound b'
  same_layout-IsSound v = record {
    placed = same-WellPlaced index_size s.same_names v.placed;
    sums = omega (arith, v.sums, s.nexts, s.remains, s.data_sizes);
    inside = λ j h. rw (s.starts j, s.sizes j, s.nexts) (v.inside j (same_layout-Holds h));
    apart = λ j u h g ne.
        rw (s.starts j, s.sizes j, s.starts u, s.sizes u)
          (v.apart j u (same_layout-Holds h) (same_layout-Holds g) ne);
    type_sums = omega (arith, v.type_sums, s.next_types, s.type_remains);
    type_inside =
        λ j h. rw (s.addrs j, s.type_sizes j, s.next_types) (v.type_inside j (same_layout-Holds h));
    types_apart = λ j u h g ne.
        rw (s.addrs j, s.type_sizes j, s.addrs u, s.type_sizes u)
          (v.types_apart j u (same_layout-Holds h) (same_layout-Holds g) ne);
    type_addrs = λ j. rw (s.addrs j) (v.type_addrs j);
  }
