-- ===== src/Board/NewItem.antt =====
-- CreateItem on a sound board, seen through ReadB and ReadType.
use g_plat.Prelude.{
  ℕ, suc, zero, ◌+◌, ◌<◌, ◌≡◌, ◌≢◌, refl, sym, ap, ◌∙◌, inl, inr, Option, List, [], ◌∷◌, arith,
  replicate, if◌then◌else◌, ◌==◌, collect, collect-ext, collect-align, Bool-cases,
}
use g_plat.Errors.{done, refuse}
use g_plat.Hash.{index_size}
use g_plat.Hash.Probe.{index_size-IsSize}
use g_plat.Hash.Directory.{Live}
use g_plat.Hash.Change.{Room}
use g_plat.Board.{Board, read_b, read_type}
use g_plat.Board.Add.{create_item, stores_type, type_text}
use g_plat.Board.Inv.{IsSound}
use g_plat.Board.Items.{Live-Holds}
use g_plat.Board.Rewrite.{read_item, read_b-found, type_item, read_type-found}
use g_plat.Board.Place.{Fits, create_found, stores_type-pos}
use g_plat.Board.Creation.{
  after_create, create-WellPlaced, create-Live_self, create-fresh, create-same, create-Live,
  create-bytes, create-type_bytes, create-new_type, create-zeros, create-IsSound,
}

collect-zeros : (i n : ℕ) → collect {A = ℕ} (λ _. 0) i n ≡ replicate n 0
unfolding collect
collect-zeros i zero = refl
collect-zeros i (suc n) = ap (λ x. 0 ∷ x) (collect-zeros (i + 1) n)

module _ (b : Board) (k : List ℕ) (item_size : ℕ) (typ : Option (List ℕ)) (type_size now t : ℕ)
    (v : IsSound b) (f : Fits b k item_size typ type_size) (lt : t < index_size)
    (room : Room index_size-IsSize b.index k t) where
  abbrev after : Board
  after = after_create b k item_size typ type_size now t v f lt room

  new_read : read_b after k item_size ≡ done (replicate item_size 0, now)
  new_read =
      read_b-found after k item_size
        (create-WellPlaced b k item_size typ type_size now t v f lt room) f.name.some_bytes
        (create-Live_self b k item_size typ type_size now t v f lt room)
      ∙ ap (λ x. read_item after x item_size)
          (create-fresh b k item_size typ type_size now t v f lt room)
      ∙ ground (
        arith,
        collect-zeros 0 item_size,
        collect-align after.mem (λ _. 0) b.next_pos 0 item_size
            (create-zeros b k item_size typ type_size now t v f lt room),
      )

  new_type :
      read_type after k
      ≡ (if stores_type b typ type_size then done (type_text typ type_size) else refuse)
  unfolding after_create
  new_type =
      read_type-found after k (create-WellPlaced b k item_size typ type_size now t v f lt room)
        f.name.some_bytes (create-Live_self b k item_size typ type_size now t v f lt room)
      ∙ ap (type_item after) (create-fresh b k item_size typ type_size now t v f lt room)
      ∙ elim (Bool-cases (stores_type b typ type_size)) [
        | inl e ↦ ground (
          arith,
          stores_type-pos typ type_size b e,
          create-new_type b k item_size typ type_size now t v f lt room e,
        )
        | inr e ↦ rw e refl
      ]

  old_read :
      (k' : List ℕ) (n : ℕ) {u : ℕ}
      → k' ≢ []
      → Live index_size b.index k' u
      → read_b after k' n ≡ read_b b k' n
  old_read k' n {u} kne l =
      let (off, l') = create-Live b k item_size typ type_size now t v f lt room k' kne l in
      let same =
        collect-ext after.mem b.mem (b.index u).fields.start_pos (b.index u).fields.item_size
          (λ i lo hi.
            create-bytes b k item_size typ type_size now t v f lt room i
              (omega (arith, hi, v.inside u (Live-Holds k' kne l)))) in
      read_b-found after k' n (create-WellPlaced b k item_size typ type_size now t v f lt room) kne
        l'
      ∙ ap (λ s. read_item after s.fields n)
          (create-same b k item_size typ type_size now t v f lt room u off)
      ∙ ground (arith, same)
      ∙ sym (read_b-found b k' n v.placed kne l)

  old_type :
      (k' : List ℕ) {u : ℕ}
      → k' ≢ []
      → Live index_size b.index k' u
      → read_type after k' ≡ read_type b k'
  unfolding after_create
  old_type k' {u} kne l =
      let (off, l') = create-Live b k item_size typ type_size now t v f lt room k' kne l in
      read_type-found after k' (create-WellPlaced b k item_size typ type_size now t v f lt room) kne
        l'
      ∙ ap (λ s. type_item after s.fields)
          (create-same b k item_size typ type_size now t v f lt room u off)
      ∙ elim (v.type_inside u (Live-Holds k' kne l)) [
        | inl e ↦ rw e refl
        | inr h ↦
            ap (λ x. if (b.index u).fields.type_size == 0 then refuse else done x)
              (collect-ext after.mem b.mem (b.data_size + (b.index u).fields.type_addr)
                (b.index u).fields.type_size
                (λ i lo hi.
                  create-type_bytes b k item_size typ type_size now t v f lt room i
                    (omega (arith, lo)) (omega (arith, hi, h))))
      ]
      ∙ sym (read_type-found b k' v.placed kne l)

-- CreateItem, on a sound board with a blank slot, for a new name `k` and with room for the item, in
-- the bytes and in the index: it succeeds; ReadB of `k` returns `item_size` zeros with the time of
-- the call; ReadType of `k` returns the type description where it is stored and refuses where it
-- is not; ReadB and ReadType of an item `k'` that was there return what they returned before; and
-- the board is sound again.
pub create_item-read_b :
    {b : Board} (k k' : List ℕ) (item_size : ℕ) (typ : Option (List ℕ)) (type_size now n : ℕ)
    {u : ℕ}
    → IsSound b
    → Fits b k item_size typ type_size
    → k' ≢ []
    → Live index_size b.index k' u
    → let (o, after) = create_item b k item_size typ type_size now in
      (o ≡ done tt)
      × (read_b after k item_size ≡ done (replicate item_size 0, now))
      × (read_type after k
          ≡ (if stores_type b typ type_size then done (type_text typ type_size) else refuse))
      × (read_b after k' n ≡ read_b b k' n)
      × (read_type after k' ≡ read_type b k')
      × IsSound after
unfolding after_create
create_item-read_b {b} k k' item_size typ type_size now n v f kne l =
    let (t, lt, room, e) = create_found b k item_size typ type_size now f in
    rw e (
      refl,
      new_read b k item_size typ type_size now t v f lt room,
      new_type b k item_size typ type_size now t v f lt room,
      old_read b k item_size typ type_size now t v f lt room k' n kne l,
      old_type b k item_size typ type_size now t v f lt room k' kne l,
      create-IsSound b k item_size typ type_size now t v f lt room,
    )
