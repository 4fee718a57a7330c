-- ===== src/FileTable/Delete.antt =====
-- fetchtab1 and deletetab on the table of mapped files, seen as a map from names to handles.
use g_plat.Prelude.{
  ℕ, ◌+◌, ◌-◌, ◌<◌, ◌≤◌, ◌≡◌, ◌≢◌, ◌⊎◌, refl, ap, ◌∙◌, inl, inr, true, List, [], arith,
  if◌then◌else◌, same_text, not, dec_lt,
}
use g_plat.Errors.{done, fail, refuse, error_record_not_exist}
use g_plat.Hash.{table_size, is_blank, grave}
use g_plat.Hash.Probe.{table_size-IsSize}
use g_plat.Hash.Directory.{Live, locate_found}
use g_plat.Hash.Change.{bury}
use g_plat.Hash.Bury.{SameNames, Live-same, same-WellPlaced, bury-WellPlaced}
use g_plat.Hash.Count.{used-update_same}
use g_plat.Hash.Lookup.{entry_of-bury, entry_of-Live, entry_of-absent, Live-cases}
use g_plat.FileTable.{FileTable, fetch_tab, fetch_tab1, delete_tab, with_count}
use g_plat.FileTable.Inv.{IsWell, fetch_tab-entry_of, is_blank_name}

-- A new count in an entry is nothing that fetchtab reads.
module _ (T : FileTable) (t n : ℕ) (w : IsWell T) where
  with_count-SameNames : SameNames T.slots (with_count T t n).slots
  with_count-SameNames = record { names = λ j. ground arith; marks = λ j. ground arith }

  with_count-IsWell : IsWell (with_count T t n)
  with_count-IsWell = record {
    placed = same-WellPlaced table_size with_count-SameNames w.placed;
    counted = omega (
      arith,
      w.counted,
      used-update_same table_size T.slots t
          (record (T.slots t) { fields = record (T.slots t).fields { count = n } }) refl,
    );
    spare = w.spare;
  }

  with_count-fetch : (k : List ℕ) → k ≢ [] → fetch_tab (with_count T t n) k ≡ fetch_tab T k
  with_count-fetch k ne = elim (Live-cases table_size-IsSize T.slots k w.placed ne) [
    | inl (j, l) ↦
        rw
          (
            fetch_tab-entry_of k with_count-IsWell ne,
            fetch_tab-entry_of k w ne,
            entry_of-Live table_size-IsSize T.slots k j w.placed ne l,
            entry_of-Live table_size-IsSize (with_count T t n).slots k j
                (same-WellPlaced table_size with_count-SameNames w.placed) ne
                ((Live-same table_size with_count-SameNames k j).1 l),
          )
          (ground arith)
    | inr no_slot ↦
        rw
          (
            fetch_tab-entry_of k with_count-IsWell ne,
            fetch_tab-entry_of k w ne,
            entry_of-absent table_size-IsSize T.slots k no_slot,
            entry_of-absent table_size-IsSize (with_count T t n).slots k
                (λ j l. no_slot j ((Live-same table_size with_count-SameNames k j).0 l)),
          )
          refl
  ]

-- fetchtab1 and the ways of deletetab, for a name that stands in the slot `t`.
module _ {T : FileTable} (k : List ℕ) (t : ℕ) (w : IsWell T) (ne : k ≢ [])
    (l : Live table_size T.slots k t) where
  fetch1_counts : fetch_tab1 T k ≡ (fetch_tab T k, with_count T t ((T.slots t).fields.count + 1))
  unfolding fetch_tab1 fetch_tab
  fetch1_counts =
      rw (locate_found table_size-IsSize T.slots k t w.placed ne l, fetch_tab1, fetch_tab) refl

  abbrev buried : FileTable
  buried = record T { slots = bury T.slots t (record (T.slots t).fields { count = 0 }) }

  delete_last :
      (T.slots t).fields.count ≤ 1 → delete_tab T k ≡ (done (T.slots t).fields.handles, buried)
  unfolding delete_tab
  delete_last h =
      rw (locate_found table_size-IsSize T.slots k t w.placed ne l, delete_tab) (ground arith)

  delete_counts :
      1 < (T.slots t).fields.count
      → delete_tab T k ≡ (refuse, with_count T t ((T.slots t).fields.count - 1))
  unfolding delete_tab
  delete_counts h =
      rw (locate_found table_size-IsSize T.slots k t w.placed ne l, delete_tab) (ground arith)

  buried-IsWell : IsWell buried
  buried-IsWell = record {
    placed = bury-WellPlaced table_size T.slots _ t w.placed;
    counted = omega (
      arith,
      w.counted,
      used-update_same table_size T.slots t
          (record { name = grave; erased = true; fields = record (T.slots t).fields { count = 0 } })
          (ap (λ n. not (is_blank n)) l.named ∙ ap not (is_blank_name k ne)),
    );
    spare = w.spare;
  }

  buried-fetch :
      (k' : List ℕ)
      → k' ≢ []
      → fetch_tab buried k'
        ≡ (if same_text k' k then fail error_record_not_exist else fetch_tab T k')
  buried-fetch k' kne =
      rw
        (
          fetch_tab-entry_of k' buried-IsWell kne,
          fetch_tab-entry_of k' w kne,
          entry_of-bury table_size-IsSize T.slots k (record (T.slots t).fields { count = 0 }) t
              w.placed ne l k' kne,
        )
        (ground arith)

-- What fetchtab1 does beside fetchtab, for a loaded name, is count the user: fetchtab returns the
-- same for every name `k'` afterwards, and the invariant holds again.
pub fetch_tab1_lem :
    {T : FileTable} (k k' : List ℕ) {t : ℕ}
    → IsWell T
    → k ≢ []
    → k' ≢ []
    → Live table_size T.slots k t
    → let (o, T') = fetch_tab1 T k in
      (o ≡ fetch_tab T k)
      × ((T'.slots t).fields.count ≡ (T.slots t).fields.count + 1)
      × IsWell T'
      × (fetch_tab T' k' ≡ fetch_tab T k')
fetch_tab1_lem {T} k k' {t} w ne kne l =
    let n = (T.slots t).fields.count + 1 in
    rw (fetch1_counts k t w ne l)
      (refl, ground arith, with_count-IsWell T t n w, with_count-fetch T t n w k' kne)

-- deletetab, for a loaded name `k`. Its last user takes the entry away: the handles are returned,
-- and fetchtab no longer finds the name and returns what it did before for any other name `k'`.
-- With more users the count goes down by one, the call returns false without an error code, and
-- fetchtab returns the same for all names. The invariant holds again either way.
pub delete_tab_lem :
    {T : FileTable} (k k' : List ℕ) {t : ℕ}
    → IsWell T
    → k ≢ []
    → k' ≢ []
    → Live table_size T.slots k t
    → let (o, T') = delete_tab T k in
      IsWell T'
      × ((((T.slots t).fields.count ≤ 1)
            × (o ≡ done (T.slots t).fields.handles)
            × (fetch_tab T' k'
                ≡ (if same_text k' k then fail error_record_not_exist else fetch_tab T k')))
          ⊎ ((1 < (T.slots t).fields.count)
              × (o ≡ refuse)
              × ((T'.slots t).fields.count + 1 ≡ (T.slots t).fields.count)
              × (fetch_tab T' k' ≡ fetch_tab T k')))
delete_tab_lem {T} k k' {t} w ne kne l = elim (dec_lt 1 (T.slots t).fields.count) [
  | no last ↦
      rw (delete_last k t w ne l (omega arith))
        (buried-IsWell k t w ne l, inl (omega arith, refl, buried-fetch k t w ne l k' kne))
  | yes more ↦
      let n = (T.slots t).fields.count - 1 in
      rw (delete_counts k t w ne l more)
        (with_count-IsWell T t n w, inr (more, refl, ground arith, with_count-fetch T t n w k' kne))
]
