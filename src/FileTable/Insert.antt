-- ===== src/FileTable/Insert.antt =====
-- inserttab on the table of mapped files, seen as a map from names to handles.
use g_plat.Prelude.{
  ℕ, ◌+◌, ◌<◌, ◌≡◌, ◌≢◌, ◌⊎◌, refl, inl, inr, true, false, some, List, [], arith, if◌then◌else◌,
  same_text, length, Bool-cases, ℕ_discrete,
}
use g_plat.Errors.{done, fail, error_record_not_exist, error_table_overflow}
use g_plat.Hash.{seek_room, table_size, is_blank, grave}
use g_plat.Hash.Probe.{table_size-IsSize}
use g_plat.Hash.Directory.{Live, locate_found}
use g_plat.Hash.Change.{put, Room, room-not_live}
use g_plat.Hash.Lookup.{entry_of-put}
use g_plat.FileTable.{FileTable, TableMsg, insert_tab, fetch_tab, store, entered}
use g_plat.FileTable.Inv.{
  IsWell, fetch_tab-entry_of, Room-found, put_erased-IsWell, put_blank-IsWell,
}

-- A name that no slot has to the exclusion of others: neither empty nor the mark of a deletion, and
-- short enough for `dqname`.
pub record IsName (k : List ℕ) : Type 0 where
  pub some_bytes : k ≢ []
  pub no_grave : k ≢ grave
  pub short : length k < 40

absent_of_fetch :
    {T : FileTable} (k : List ℕ)
    → IsWell T
    → k ≢ []
    → fetch_tab T k ≡ fail error_record_not_exist
    → (j : ℕ) → ¬ Live table_size T.slots k j
unfolding fetch_tab
absent_of_fetch {T} k w ne e j l =
    let there : fetch_tab T k ≡ done (T.slots j).fields.handles =
      rw (locate_found table_size-IsSize T.slots k j w.placed ne l, fetch_tab) refl in
    cc

fetch-put :
    {T : FileTable} (T' : FileTable) (k : List ℕ) (f : TableMsg) {t : ℕ}
    → T'.slots ≡ put T.slots t k f
    → IsWell T
    → IsWell T'
    → k ≢ []
    → k ≢ grave
    → Room table_size-IsSize T.slots k t
    → ((j : ℕ) → ¬ Live table_size T.slots k j)
    → (k' : List ℕ) → k' ≢ []
    → fetch_tab T' k' ≡ (if same_text k' k then done f.handles else fetch_tab T k')
fetch-put {T} T' k f {t} e w w' ne ng r absent k' kne =
    rw
      (
        fetch_tab-entry_of k' w' kne,
        fetch_tab-entry_of k' w kne,
        e,
        entry_of-put table_size-IsSize T.slots k f t w.placed ne r absent ng k' kne,
      )
      (ground arith)

-- The three ways of inserttab.
module _ (T : FileTable) (k : List ℕ) (m : TableMsg) {t : ℕ}
    (s : seek_room table_size T.slots k ≡ some t) (short : length k < 40) where
  insert_erased :
      (T.slots t).erased ≡ true → insert_tab T k m ≡ (done tt, store T t k m T.tab_counter)
  unfolding insert_tab
  insert_erased e = rw (s, insert_tab) (ground arith)

  insert_full :
      (T.slots t).erased ≡ false
      → T.tab_counter ≡ 276
      → insert_tab T k m ≡ (fail error_table_overflow, T)
  unfolding insert_tab
  insert_full e full = rw (s, insert_tab) (ground arith)

  insert_blank :
      (T.slots t).erased ≡ false
      → T.tab_counter ≢ 276
      → insert_tab T k m ≡ (done tt, store T t k m (T.tab_counter + 1))
  unfolding insert_tab
  insert_blank e room = rw (s, insert_tab) (ground arith)

-- inserttab, for a name `k` that fetchtab does not find, either enters it, so that fetchtab returns
-- the handles given for that name and what it returned before for any other name `k'`, or reports
-- the overflow with all but one slot counted and leaves the table alone. The invariant holds again.
pub insert_tab_lem :
    {T : FileTable} (k k' : List ℕ) (m : TableMsg)
    → IsWell T
    → IsName k
    → k' ≢ []
    → fetch_tab T k ≡ fail error_record_not_exist
    → let (o, T') = insert_tab T k m in
      IsWell T'
      × (((o ≡ done tt)
            × (fetch_tab T' k' ≡ (if same_text k' k then done m.handles else fetch_tab T k')))
          ⊎ ((o ≡ fail error_table_overflow) × (T.tab_counter ≡ 276) × (T' ≡ T)))
unfolding store
insert_tab_lem {T} k k' m w n kne e =
    let absent = absent_of_fetch k w n.some_bytes e in
    let (t, s, lt, r) = Room-found k w in
    elim (Bool-cases (T.slots t).erased) [
      | inl e ↦
          let f = entered (T.slots t).fields m in
          let w' = put_erased-IsWell k f w n.some_bytes n.no_grave lt r absent e in
          rw (insert_erased T k m s n.short e)
            (w', inl (refl, fetch-put _ k f refl w w' n.some_bytes n.no_grave r absent k' kne))
      | inr e ↦ elim (ℕ_discrete T.tab_counter 276) [
        | yes full ↦ rw (insert_full T k m s n.short e full) (w, inr (refl, full, refl))
        | no room ↦
            let f = entered (T.slots t).fields m in
            let b = room-not_live (is_blank (T.slots t).name) (T.slots t).erased r.stops e in
            let w' = put_blank-IsWell k f w n.some_bytes n.no_grave lt r absent b room in
            rw (insert_blank T k m s n.short e room)
              (w', inl (refl, fetch-put _ k f refl w w' n.some_bytes n.no_grave r absent k' kne))
      ]
    ]
