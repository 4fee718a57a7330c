-- ===== src/Database/Run.antt =====
-- Sequences of calls on the tables of a database, against the map from names to rows.
use g_plat.Prelude.{
  ℕ, ◌≡◌, ◌≢◌, inl, inr, refl, sym, ap, ap₂, ◌∙◌, Bool, true, false, ◌||◌, Option, none, some, List,
  [], ◌∷◌, same_text, ◌==◌, if◌then◌else◌,
}
use g_plat.Errors.{fault, Outcome, done, fail, refuse, error_table_not_exist}
use g_plat.Hash.{index_size, locate, found, missing}
use g_plat.Hash.Probe.{index_size-IsSize}
use g_plat.Hash.Directory.{Live, Blank, locate_found, locate_missing}
use g_plat.Hash.Lookup.{Live-cases}
use g_plat.Database.{
  Database, Selected, select_table, select_found, insert_table, update_table, refresh_table,
  clear_table,
}
use g_plat.Database.View.{IsIntact, Rows, rows_of, content, intact-WellPlaced}
use g_plat.Database.Alter.{content-Live, content-absent}
use g_plat.Database.Spec.{
  Request, insert, update_row, refresh, clear, target, serve, on_rows, Tables, spec_at, spec_serve,
}
use g_plat.Database.Refine.{Agree, insert-Agree, update-Agree, refresh-Agree, clear-Agree}

-- The rows of each table are those of the map.
abbrev pub Shows : Database → Tables → Type 0
Shows d m = (k : List ℕ) → k ≢ [] → content d k ≡ m k

abbrev pub serve_all : Database → List Request → List (Outcome (Unit {0})) × Database
serve_all d [] = ([], d)
serve_all d (r ∷ rs) = let (o, d') = serve d r in let (os, last) = serve_all d' rs in (o ∷ os, last)

abbrev pub spec_all : Tables → List Request → List (Outcome (Unit {0})) × Tables
spec_all m [] = ([], m)
spec_all m (r ∷ rs) =
    let (o, m') = spec_serve m r in let (os, last) = spec_all m' rs in (o ∷ os, last)

-- What SelectTable makes of the rows of a table.
abbrev pub select_rows : Bool → Option Rows → Outcome Selected
select_rows allocated none = fail error_table_not_exist
select_rows allocated (some r) =
    if r.count == 0
    then done (record { rows = none; count = 0; record_size = r.record_size; write_time = r.time })
    else if allocated
    then done (record {
      rows = some r.bytes;
      count = r.count;
      record_size = r.record_size;
      write_time = r.time;
    })
    else refuse

module _ (d : Database) (v : IsIntact d) (blank : Blank index_size d.index) where
  pub select_table-content :
      (allocated : Bool) (k : List ℕ)
      → k ≢ []
      → select_table allocated d k ≡ select_rows allocated (content d k)
  unfolding select_table select_found
  select_table-content allocated k ne =
      let w = intact-WellPlaced d v in
      elim (Live-cases index_size-IsSize d.index k w ne) [
        | inl (t, l) ↦
            rw
              (
                locate_found index_size-IsSize d.index k t w ne l,
                select_table,
                content-Live d k t w ne l,
              )
              refl
        | inr no_slot ↦
            rw
              (
                locate_missing index_size-IsSize d.index k blank no_slot,
                select_table,
                content-absent d k no_slot,
              )
              refl
      ]

  module _ (m : Tables) (shows : Shows d m) where
    -- What a call and the map's version of it have in common.
    pub record Follows (x : Outcome (Unit {0}) × Database) (y : Outcome (Unit {0}) × Tables)
        : Type 0 where
      pub answer : x.0 ≡ y.0
      pub tables : Shows x.1 y.1
      pub intact : IsIntact x.1
      pub has_blank : Blank index_size x.1.index

    stays : (o : Outcome (Unit {0})) → Follows (o, d) (o, m)
    stays o = record { answer = refl; tables = shows; intact = v; has_blank = blank }

    follow :
        (r : Request) (t : ℕ) (ne : target r ≢ []) (l : Live index_size d.index (target r) t)
        {x : Outcome (Unit {0}) × Database}
        → Agree d (target r) t v blank ne l x (on_rows (rows_of d.mem (d.index t).fields) r)
        → Follows x (spec_at m r (m (target r)))
    follow r t ne l {x} a =
        rw (sym (shows (target r) ne) ∙ content-Live d (target r) t (intact-WellPlaced d v) ne l)
          (record {
            answer = a.answer;
            tables = λ k kne.
                a.tables k kne
                ∙ ap
                    (λ x.
                      if same_text k (target r)
                      then some (on_rows (rows_of d.mem (d.index t).fields) r).1
                      else x)
                    (shows k kne);
            intact = a.intact;
            has_blank = a.has_blank;
          })

    Follows-if :
        (c : Bool) {x x' : Outcome (Unit {0}) × Database} {y y' : Outcome (Unit {0}) × Tables}
        → Follows x y
        → Follows x' y'
        → Follows (if c then x else x') (if c then y else y')
    Follows-if true f g = f
    Follows-if false f g = g

    no_table-Follows :
        (r : Request)
        → target r ≢ []
        → ((t : ℕ) → ¬ Live index_size d.index (target r) t)
        → Follows (fail error_table_not_exist, d) (spec_at m r (m (target r)))
    no_table-Follows r ne no_slot =
        rw (sym (shows (target r) ne) ∙ content-absent d (target r) no_slot)
          (stays (fail error_table_not_exist))

    pub serve-Follows : (r : Request) → target r ≢ [] → Follows (serve d r) (spec_serve m r)
    unfolding insert_table update_table refresh_table clear_table
    serve-Follows r ne =
        elim (Live-cases index_size-IsSize d.index (target r) (intact-WellPlaced d v) ne) [
          | inl (t, l) ↦
              serve_there r ne t l
                (locate_found index_size-IsSize d.index (target r) t (intact-WellPlaced d v) ne l)
          | inr no_slot ↦
              serve_missing r ne no_slot
                (locate_missing index_size-IsSize d.index (target r) blank no_slot)
        ]
      where
        serve_there :
            (r : Request) (ne : target r ≢ []) (t : ℕ) (l : Live index_size d.index (target r) t)
            → locate index_size d.index (target r) ≡ found t
            → Follows (serve d r) (spec_serve m r)
        serve_there (insert name count rs rows now) ne t l e =
            rw (e, insert_table)
              (Follows-if (count == 0 || rs == 0) (stays (done tt)) (
                follow (insert name count rs rows now) t ne l
                  (insert-Agree d name t v blank ne l count rs rows now)))
        serve_there (refresh name count rs rows now) ne t l e =
            rw (e, refresh_table)
              (Follows-if (count == 0 || rs == 0) (stays (done tt)) (
                follow (refresh name count rs rows now) t ne l
                  (refresh-Agree d name t v blank ne l count rs rows now)))
        serve_there (update_row name none rs row) ne t l e = stays (done tt)
        serve_there (update_row name (some rowid) rs row) ne t l e =
            rw (e, update_table)
              (Follows-if (rs == 0) (stays (done tt)) (
                follow (update_row name (some rowid) rs row) t ne l
                  (update-Agree d name t v blank ne l rowid rs row)))
        serve_there (clear name now) ne t l e =
            follow (clear name now) t ne l (clear-Agree d name t v blank ne l now)

        serve_missing :
            (r : Request)
            → target r ≢ []
            → ((t : ℕ) → ¬ Live index_size d.index (target r) t)
            → locate index_size d.index (target r) ≡ missing
            → Follows (serve d r) (spec_serve m r)
        serve_missing (insert name count rs rows now) ne no_slot e =
            rw (e, insert_table)
              (Follows-if (count == 0 || rs == 0) (stays (done tt))
                (no_table-Follows (insert name count rs rows now) ne no_slot))
        serve_missing (refresh name count rs rows now) ne no_slot e =
            rw (e, refresh_table)
              (Follows-if (count == 0 || rs == 0) (stays (done tt))
                (no_table-Follows (refresh name count rs rows now) ne no_slot))
        serve_missing (update_row name none rs row) ne no_slot e = stays (done tt)
        serve_missing (update_row name (some rowid) rs row) ne no_slot e =
            rw (e, update_table)
              (Follows-if (rs == 0) (stays (done tt))
                (no_table-Follows (update_row name (some rowid) rs row) ne no_slot))
        serve_missing (clear name now) ne no_slot e =
            rw (e, clear_table) (no_table-Follows (clear name now) ne no_slot)

abbrev pub AllNamed : List Request → Type 0
AllNamed [] = Unit {0}
AllNamed (r ∷ rs) = (target r ≢ []) × AllNamed rs

-- The map's version of no call is undefined: the buffers are as long as the rows that the call is to
-- read, and a number of rows that an `int` does not hold comes up nowhere.
abbrev pub AllDefined : Tables → List Request → Type 0
AllDefined m [] = Unit {0}
AllDefined m (r ∷ rs) = ((spec_serve m r).0 ≢ fault) × AllDefined (spec_serve m r).1 rs

-- Any sequence of InsertTable, UpdateTable, RefreshTable and ClearTable on named tables of an intact
-- database whose index has a slot that was never used, of which none is undefined, against the map
-- from names to rows that the tables show at the start: the answers are those of the map, and so is
-- what SelectTable then returns for a name `k`; the database is intact again.
pub serve_all_refines :
    (d : Database) (m : Tables) (rs : List Request) (allocated : Bool) (k : List ℕ)
    → IsIntact d
    → Blank index_size d.index
    → Shows d m
    → AllNamed rs
    → AllDefined m rs
    → k ≢ []
    → ((serve_all d rs).0 ≡ (spec_all m rs).0)
      × (select_table allocated (serve_all d rs).1 k ≡ select_rows allocated ((spec_all m rs).1 k))
      × IsIntact (serve_all d rs).1
serve_all_refines d m [] allocated k v blank shows named defined ne = (
  refl,
  select_table-content d v blank allocated k ne ∙ ap (select_rows allocated) (shows k ne),
  v,
)
serve_all_refines d m (r ∷ rs) allocated k v blank shows named defined ne =
    let f = serve-Follows d v blank m shows r named.0 in
    let (answers, selects, intact) =
      serve_all_refines (serve d r).1 (spec_serve m r).1 rs allocated k f.intact f.has_blank
        f.tables named.1 defined.1 ne in
    (ap₂ ◌∷◌ f.answer answers, selects, intact)
