-- ===== src/FileTable/Inv.antt =====
-- The invariant of the table of mapped files, under which its searches end.
use g_plat.Prelude.{
  ℕ, ◌+◌, ◌<◌, ◌≤◌, ◌≡◌, ◌≢◌, refl, sym, ap, ◌∙◌, inl, inr, true, false, not, none, some, List, [],
  ◌∷◌, arith,
}
use g_plat.Errors.{done, fail, error_record_not_exist}
use g_plat.Hash.{seek_room, has_room, table_size, is_blank, grave}
use g_plat.Hash.Probe.{table_size-IsSize}
use g_plat.Hash.Directory.{Live, WellPlaced, Blank, locate_found, locate_missing, scan_stops}
use g_plat.Hash.Change.{put, Room, put-WellPlaced}
use g_plat.Hash.Count.{
  used-update_same, used-update_blank, used-lt-Blank, count_below, count_below_none, in_use,
}
use g_plat.Hash.Lookup.{entry_of, entry_of-Live, entry_of-absent, Live-cases}
use g_plat.FileTable.{FileTable, TableMsg, init_table, fetch_tab}

-- The names are where the searches look for them, and fewer slots are in use than there are.
pub record IsWell (T : FileTable) : Type 0 where
  pub placed : WellPlaced table_size T.slots
  pub counted : count_below table_size (in_use T.slots) ≤ T.tab_counter
  pub spare : T.tab_counter < table_size

pub well-Blank : {T : FileTable} → IsWell T → Blank table_size T.slots
well-Blank {T} w = used-lt-Blank table_size T.slots (omega (arith, w.counted, w.spare))

-- fetchtab reads the table as a map.
pub fetch_tab-entry_of :
    {T : FileTable} (k : List ℕ)
    → IsWell T
    → k ≢ []
    → fetch_tab T k ≡ elim (entry_of table_size T.slots k) [
      | some f ↦ done f.handles
      | none ↦ fail error_record_not_exist
    ]
unfolding fetch_tab
fetch_tab-entry_of {T} k w ne = elim (Live-cases table_size-IsSize T.slots k w.placed ne) [
  | inl (t, l) ↦
      rw
        (
          locate_found table_size-IsSize T.slots k t w.placed ne l,
          fetch_tab,
          entry_of-Live table_size-IsSize T.slots k t w.placed ne l,
        )
        refl
  | inr no_slot ↦
      rw
        (
          locate_missing table_size-IsSize T.slots k (well-Blank w) no_slot,
          fetch_tab,
          entry_of-absent table_size-IsSize T.slots k no_slot,
        )
        refl
]

-- The room that inserttab finds, and whether it was blank.
pub Room-found :
    {T : FileTable} (k : List ℕ)
    → IsWell T
    → (t : ℕ) × (seek_room table_size T.slots k ≡ some t)
      × (t < table_size)
      × Room table_size-IsSize T.slots k t
unfolding seek_room
Room-found {T} k w =
    let b = well-Blank w in
    scan_stops table_size-IsSize T.slots has_room k b.slot b.in_range (rw b.blank refl)

-- A name is no blank.
pub is_blank_name : (k : List ℕ) → k ≢ [] → is_blank k ≡ false
is_blank_name [] ne = absurd (ne refl)
is_blank_name (_ ∷ _) ne = refl

module _ {T : FileTable} (k : List ℕ) (fields : TableMsg) {t : ℕ} (w : IsWell T) (ne : k ≢ [])
    (ng : k ≢ grave) (lt : t < table_size) (r : Room table_size-IsSize T.slots k t)
    (absent : (j : ℕ) → ¬ Live table_size T.slots k j) where
  -- A name put into a slot that was erased leaves the count of the slots in use.
  pub put_erased-IsWell :
      (T.slots t).erased ≡ true → IsWell (record T { slots = put T.slots t k fields })
  put_erased-IsWell e = record {
    placed = put-WellPlaced table_size-IsSize T.slots k fields w.placed ne r absent ng;
    counted = omega (
      arith,
      w.counted,
      used-update_same table_size T.slots t (record { name = k; erased = false; fields = fields })
          (ap (λ n. not (is_blank n)) (w.placed.graves t lt e) ∙ ap not (sym (is_blank_name k ne))),
    );
    spare = w.spare;
  }

  -- A name put into a blank slot takes one more slot, which the counter has to allow.
  pub put_blank-IsWell :
      is_blank (T.slots t).name ≡ true
      → T.tab_counter ≢ 276
      → IsWell (record { slots = put T.slots t k fields; tab_counter = T.tab_counter + 1 })
  put_blank-IsWell b room = record {
    placed = put-WellPlaced table_size-IsSize T.slots k fields w.placed ne r absent ng;
    counted = omega (
      arith,
      w.counted,
      used-update_blank table_size T.slots t (record { name = k; erased = false; fields = fields })
          lt b (is_blank_name k ne),
    );
    spare = omega (arith, w.spare);
  }

-- The empty table.
pub init_table-IsWell : IsWell init_table
init_table-IsWell = record {
  placed = record {
    placed = λ k t ne l. absurd (ne (sym l.named));
    graves = λ t lt e. cc;
    lives = λ t lt e g. cc;
  };
  counted = omega (arith, count_below_none table_size (in_use init_table.slots) (λ t _. refl));
  spare = omega arith;
}
