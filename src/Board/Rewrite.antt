-- ===== src/Board/Rewrite.antt =====
-- A board in which one item is rewritten: its bytes, and fields of its entry that do not say where
-- the bytes are.
use g_plat.Prelude.{
  inl, inr, ℕ, ◌+◌, ◌≤◌, ◌<◌, ◌≡◌, ◌≢◌, ◌⊎◌, refl, sym, ap, ◌∙◌, List, [], arith, collect,
  collect-ext, not, if◌then◌else◌, ◌==◌,
}
use g_plat.Errors.{Outcome, done, fail, refuse, error_recordsize}
use g_plat.Hash.{index_size, Located, lost, missing, found, locate}
use g_plat.Hash.Lookup.{Live-cases}
use g_plat.Hash.Same.{locate-SameNames}
use g_plat.Hash.Probe.{index_size-IsSize}
use g_plat.Hash.Directory.{Live, WellPlaced, locate_found, locate-Live}
use g_plat.Hash.Change.{update_self, update_ne}
use g_plat.Hash.Bury.{SameNames, Live-same}
use g_plat.Board.{Board, Item, read_b, read_type}
use g_plat.Board.Store.{set_fields}
use g_plat.Board.Inv.{IsSound}
use g_plat.Board.Items.{Live-Holds}
use g_plat.Board.Layout.{SameLayout, same_layout-IsSound}

-- What ReadB makes of the entry that it finds.
abbrev pub read_item : Board → Item → ℕ → Outcome (List ℕ × ℕ)
read_item b item n =
    if not (item.item_size == n)
    then fail error_recordsize
    else done (collect b.mem item.start_pos n, item.timestamp)

pub read_b-found :
    (b : Board) (k : List ℕ) (n : ℕ) {t : ℕ}
    → WellPlaced index_size b.index
    → k ≢ []
    → Live index_size b.index k t
    → read_b b k n ≡ read_item b (b.index t).fields n
unfolding read_b
read_b-found b k n {t} w ne l = rw (locate_found index_size-IsSize b.index k t w ne l, read_b) refl

-- What ReadType makes of the entry that it finds.
abbrev pub type_item : Board → Item → Outcome (List ℕ)
type_item b item =
    if item.type_size == 0
    then refuse
    else done (collect b.mem (b.data_size + item.type_addr) item.type_size)

pub read_type-found :
    (b : Board) (k : List ℕ) {t : ℕ}
    → WellPlaced index_size b.index
    → k ≢ []
    → Live index_size b.index k t
    → read_type b k ≡ type_item b (b.index t).fields
unfolding read_type
read_type-found b k {t} w ne l =
    rw (locate_found index_size-IsSize b.index k t w ne l, read_type) refl

module _ (b : Board) (t : ℕ) (item : Item) (bytes : ℕ → ℕ)
    (start : item.start_pos ≡ (b.index t).fields.start_pos)
    (size : item.item_size ≡ (b.index t).fields.item_size)
    (addr : item.type_addr ≡ (b.index t).fields.type_addr)
    (type_size : item.type_size ≡ (b.index t).fields.type_size) where
  abbrev pub rewritten : Board
  rewritten = record b { mem = bytes; index = set_fields b t item }

  rewritten-SameNames : SameNames b.index rewritten.index
  rewritten-SameNames = record { names = λ j. ground arith; marks = λ j. ground arith }

  pub rewritten-Live :
      (k : List ℕ) {j : ℕ} → Live index_size b.index k j → Live index_size rewritten.index k j
  rewritten-Live k {j} l = (Live-same index_size rewritten-SameNames k j).1 l

  rewritten-SameLayout : SameLayout b rewritten
  rewritten-SameLayout = record {
    same_names = rewritten-SameNames;
    starts = λ j. ground (arith, start);
    sizes = λ j. ground (arith, size);
    addrs = λ j. ground (arith, addr);
    type_sizes = λ j. ground (arith, type_size);
    data_sizes = refl;
    nexts = refl;
    remains = refl;
    next_types = refl;
    type_remains = refl;
  }

  pub rewritten-IsSound : IsSound b → IsSound rewritten
  rewritten-IsSound v = same_layout-IsSound b rewritten rewritten-SameLayout v

  -- The item itself.
  pub rewritten-read :
      (k : List ℕ) (n : ℕ)
      → IsSound b
      → k ≢ []
      → Live index_size b.index k t
      → read_b rewritten k n ≡ read_item rewritten item n
  rewritten-read k n v ne l =
      read_b-found rewritten k n (rewritten-IsSound v).placed ne (rewritten-Live k l)
      ∙ ap (λ s. read_item rewritten s.fields n)
          (update_self b.index t (record (b.index t) { fields = item }))

  -- Another item, where the bytes differ at most within the first one.
  rewritten-item :
      (k k' : List ℕ) (n : ℕ) {u : ℕ}
      → IsSound b
      → k ≢ []
      → k' ≢ []
      → k' ≢ k
      → Live index_size b.index k t
      → Live index_size b.index k' u
      → ((i : ℕ) → (i < item.start_pos) ⊎ (item.start_pos + item.item_size ≤ i) → bytes i ≡ b.mem i)
      → read_b rewritten k' n ≡ read_b b k' n
  rewritten-item k k' n {u} v ne kne off l m h =
      let apart_slots : u ≢ t = λ e. off (sym m.named ∙ ap (λ x. (b.index x).name) e ∙ l.named) in
      let old : Item = (b.index u).fields in
      let same_bytes : collect bytes old.start_pos old.item_size
          ≡ collect b.mem old.start_pos old.item_size =
        collect-ext bytes b.mem old.start_pos old.item_size (λ i lo hi. h i (
          ground (
            arith,
            start,
            size,
            lo,
            hi,
            v.apart u t (Live-Holds k' kne m) (Live-Holds k ne l) apart_slots,
          ))) in
      read_b-found rewritten k' n (rewritten-IsSound v).placed kne (rewritten-Live k' m)
      ∙ ap (λ s. read_item rewritten s.fields n)
          (update_ne b.index t u (record (b.index t) { fields = item }) apart_slots)
      ∙ ground (arith, same_bytes)
      ∙ sym (read_b-found b k' n v.placed kne m)

  rewritten-missing :
      (k' : List ℕ) (n : ℕ)
      → ((u : ℕ) → ¬ Live index_size b.index k' u)
      → read_b rewritten k' n ≡ read_b b k' n
  unfolding read_b
  rewritten-missing k' n no_slot = go (locate index_size b.index k') refl
    where
      same : locate index_size rewritten.index k' ≡ locate index_size b.index k'
      same = locate-SameNames index_size k' rewritten-SameNames

      go : (o : Located) → locate index_size b.index k' ≡ o → read_b rewritten k' n ≡ read_b b k' n
      go lost e = rw (same ∙ e, e, read_b) refl
      go missing e = rw (same ∙ e, e, read_b) refl
      go (found u) e = absurd (no_slot u (locate-Live index_size-IsSize b.index k' e))

  -- Any other name, where the bytes differ at most within the first item.
  pub rewritten-others :
      (k k' : List ℕ) (n : ℕ)
      → IsSound b
      → k ≢ []
      → k' ≢ []
      → k' ≢ k
      → Live index_size b.index k t
      → ((i : ℕ) → (i < item.start_pos) ⊎ (item.start_pos + item.item_size ≤ i) → bytes i ≡ b.mem i)
      → read_b rewritten k' n ≡ read_b b k' n
  rewritten-others k k' n v ne kne off l h =
      elim (Live-cases index_size-IsSize b.index k' v.placed kne) [
        | inl (u, m) ↦ rewritten-item k k' n v ne kne off l m h
        | inr no_slot ↦ rewritten-missing k' n no_slot
      ]
