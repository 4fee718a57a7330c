-- ===== src/Board/Creation.antt =====
-- The board that CreateItem makes of a sound one.
use g_plat.Prelude.{
  ℕ, ◌+◌, ◌≤◌, ◌<◌, ◌≡◌, ◌≢◌, sym, ap, ◌∙◌, true, Bool, Option, List, [], arith, collect,
  collect-ext, copy_in, ℕ_discrete,
}
use g_plat.Hash.{index_size}
use g_plat.Hash.Probe.{index_size-IsSize}
use g_plat.Hash.Directory.{Live, WellPlaced}
use g_plat.Hash.Change.{
  Room, put-WellPlaced, update_self, update_ne, Live-put_self, Live-put_old, Live-ne-Room,
}
use g_plat.Board.{Board, Item, is_item}
use g_plat.Board.Add.{add_item, new_item, with_type, stores_type, type_text}
use g_plat.Board.Inv.{IsSound, Holds}
use g_plat.Board.Items.{copy_in-outside, collect-copy_in}
use g_plat.Board.Place.{Fits, length-type_text}

module _ (b : Board) (k : List ℕ) (item_size : ℕ) (typ : Option (List ℕ)) (type_size now t : ℕ)
    (v : IsSound b) (f : Fits b k item_size typ type_size) (lt : t < index_size)
    (room : Room index_size-IsSize b.index k t) where
  unfoldable pub after_create : Board
  unfolding add_item
  after_create = add_item b t k item_size typ type_size now

  abbrev pub stored : Bool
  stored = stores_type b typ type_size

  abbrev pub fresh : Item
  fresh = with_type b (new_item b (b.index t).fields item_size now) stored type_size

  pub create-WellPlaced : WellPlaced index_size after_create.index
  unfolding after_create
  create-WellPlaced =
      put-WellPlaced index_size-IsSize b.index k fresh v.placed f.name.some_bytes room f.absent
        f.name.no_grave

  pub create-Live_self : Live index_size after_create.index k t
  unfolding after_create
  create-Live_self =
      Live-put_self index_size-IsSize b.index k fresh v.placed f.name.some_bytes room f.absent

  pub create-fresh : (after_create.index t).fields ≡ fresh
  unfolding after_create
  create-fresh = ap (λ s. s.fields) (update_self b.index t _)

  pub create-same : (u : ℕ) → u ≢ t → after_create.index u ≡ b.index u
  unfolding after_create
  create-same u off = update_ne b.index t u _ off

  pub create-Live :
      (k' : List ℕ) {u : ℕ}
      → k' ≢ []
      → Live index_size b.index k' u
      → (u ≢ t) × Live index_size after_create.index k' u
  unfolding after_create
  create-Live k' {u} kne l = (
    Live-ne-Room index_size-IsSize b.index k k' kne room l,
    Live-put_old index_size-IsSize b.index k fresh v.placed f.name.some_bytes room f.absent k' u kne
        l,
  )

  -- A slot that held an item still holds it.
  create-Holds : {u : ℕ} → u ≢ t → Holds after_create u → Holds b u
  create-Holds {u} off h = record {
    in_range = h.in_range;
    item = ap is_item (sym (create-same u off)) ∙ h.item;
  }

  -- The bytes of the items before it, and of their types.
  pub create-bytes : (i : ℕ) → i < b.next_pos → after_create.mem i ≡ b.mem i
  unfolding after_create
  create-bytes i h = ground (
    arith,
    v.sums,
    copy_in-outside b.mem (b.data_size + b.next_type_pos) (type_text typ type_size) i,
  )

  pub create-type_bytes :
      (i : ℕ) → b.data_size ≤ i → i < b.data_size + b.next_type_pos → after_create.mem i ≡ b.mem i
  unfolding after_create
  create-type_bytes i lo hi = ground (
    arith,
    v.sums,
    f.room,
    copy_in-outside b.mem (b.data_size + b.next_type_pos) (type_text typ type_size) i,
  )

  pub create-new_type :
      stored ≡ true
      → collect after_create.mem (b.data_size + b.next_type_pos) type_size ≡ type_text typ type_size
  unfolding after_create
  create-new_type e =
      let text : List ℕ = type_text typ type_size in
      let copied : ℕ → ℕ = copy_in b.mem (b.data_size + b.next_type_pos) text in
      let same =
        collect-ext after_create.mem copied (b.data_size + b.next_type_pos) type_size
          (λ i lo hi. ground (arith, v.sums, f.room)) in
      same
      ∙ ap (collect copied (b.data_size + b.next_type_pos))
          (sym (length-type_text typ type_size b f.buffer e))
      ∙ collect-copy_in b.mem (b.data_size + b.next_type_pos) text

  pub create-zeros : (i : ℕ) → i < item_size → after_create.mem (b.next_pos + i) ≡ 0
  unfolding after_create
  create-zeros i h = ground arith

  pub create-IsSound : IsSound after_create
  unfolding after_create
  create-IsSound = record {
    placed = create-WellPlaced;
    sums = omega (arith, v.sums, f.room);
    inside = λ u h. elim (ℕ_discrete u t) [
      | yes e ↦ rw (e, create-fresh) (ground arith)
      | no off ↦ rw (create-same u off) (omega (arith, v.inside u (create-Holds off h)))
    ];
    apart = λ x y h g diff. elim (ℕ_discrete x t) [
      | yes e ↦ elim (ℕ_discrete y t) [
        | yes e' ↦ absurd (diff (e ∙ sym e'))
        | no off ↦
            rw (e, create-fresh, create-same y off)
              (ground (arith, v.inside y (create-Holds off g)))
      ]
      | no off ↦ elim (ℕ_discrete y t) [
        | yes e ↦
            rw (e, create-fresh, create-same x off)
              (ground (arith, v.inside x (create-Holds off h)))
        | no off' ↦
            rw (create-same x off, create-same y off')
              (v.apart x y (create-Holds off h) (create-Holds off' g) diff)
      ]
    ];
    type_sums = ground (arith, v.type_sums);
    type_inside = λ u h. elim (ℕ_discrete u t) [
      | yes e ↦ rw (e, create-fresh) (ground arith)
      | no off ↦ rw (create-same u off) (ground (arith, v.type_inside u (create-Holds off h)))
    ];
    types_apart = λ x y h g diff. elim (ℕ_discrete x t) [
      | yes e ↦ elim (ℕ_discrete y t) [
        | yes e' ↦ absurd (diff (e ∙ sym e'))
        | no off ↦
            rw (e, create-fresh, create-same y off)
              (ground (arith, v.type_inside y (create-Holds off g)))
      ]
      | no off ↦ elim (ℕ_discrete y t) [
        | yes e ↦
            rw (e, create-fresh, create-same x off)
              (ground (arith, v.type_inside x (create-Holds off h)))
        | no off' ↦
            rw (create-same x off, create-same y off')
              (v.types_apart x y (create-Holds off h) (create-Holds off' g) diff)
      ]
    ];
    type_addrs = λ u. elim (ℕ_discrete u t) [
      | yes e ↦ rw (e, create-fresh) (ground (arith, v.type_addrs t, v.type_sums))
      | no off ↦ rw (create-same u off) (v.type_addrs u)
    ];
  }
