-- ===== src/FileTable/Flush.antt =====
-- The calls of msync that FlushQFile makes after LoadQ, UnloadQ and UnloadAll.
use g_plat.Prelude.{
  ℕ, zero, suc, ◌+◌, ◌≡◌, refl, inl, inr, not, ◌&&◌, Option, none, some, List, [], ◌∷◌, arith, ◌==◌,
  Bool-cases, Option-cases,
}
use g_plat.Hash.{Located, lost, missing, found, locate, seek_room, table_size}
use g_plat.FileTable.{
  FileTable, TableMsg, Opened, opened_msg, init_table, in_table, insert_tab, store, delete_tab,
  load_q, load_new, unload_q, unload_all, flush_from, flush_q_file,
}

-- A call that changes the table. What the operating system answers comes with the call.
pub data Call : Type 0 where
  load : Option Opened → List ℕ → List ℕ → Call
  unload : List ℕ → Call
  unload_everything : Call

pub step : FileTable → Call → FileTable
step T (load os path dqname) = (load_q os path T dqname).1
step T (unload dqname) = (unload_q T dqname).1
step T unload_everything = unload_all T

pub run : FileTable → List Call → FileTable
run T [] = T
run T (c ∷ cs) = run (step T c) cs

-- No entry has a size.
record IsUnsized (T : FileTable) : Type 0 where
  sizes : (t : ℕ) → (T.slots t).fields.file_size ≡ 0

insert_tab-IsUnsized :
    {T : FileTable} (k : List ℕ) (m : TableMsg) → IsUnsized T → IsUnsized (insert_tab T k m).1
unfolding insert_tab store
insert_tab-IsUnsized {T} k m u = elim (Option-cases (seek_room table_size T.slots k)) [
  | inl e ↦ rw (e, insert_tab) (record { sizes = λ t. ground (arith, u.sizes t) })
  | inr (loc, e) ↦
      rw (e, insert_tab) (record { sizes = λ t. ground (arith, u.sizes t, u.sizes loc) })
]

delete_tab-IsUnsized : {T : FileTable} (k : List ℕ) → IsUnsized T → IsUnsized (delete_tab T k).1
unfolding delete_tab
delete_tab-IsUnsized {T} k u = go (locate table_size T.slots k) refl
  where
    go : (l : Located) → locate table_size T.slots k ≡ l → IsUnsized (delete_tab T k).1
    go lost e = rw (e, delete_tab) u
    go missing e = rw (e, delete_tab) u
    go (found loc) e =
        rw (e, delete_tab) (record { sizes = λ t. ground (arith, u.sizes t, u.sizes loc) })

load_new-IsUnsized :
    (os : Option Opened) (path : List ℕ) {T : FileTable} (k : List ℕ)
    → IsUnsized T
    → IsUnsized (load_new os path T k).1
unfolding load_new
load_new-IsUnsized none path {T} k u = record { sizes = λ t. ground (arith, u.sizes t) }
load_new-IsUnsized (some o) path {T} k u =
    let v = insert_tab-IsUnsized k (opened_msg o) u in
    record { sizes = λ t. ground (arith, u.sizes t, v.sizes t) }

load_q-IsUnsized :
    (os : Option Opened) (path : List ℕ) {T : FileTable} (k : List ℕ)
    → IsUnsized T
    → IsUnsized (load_q os path T k).1
unfolding load_q
load_q-IsUnsized os path {T} k u =
    let v = load_new-IsUnsized os path k u in
    record { sizes = λ t. ground (arith, u.sizes t, v.sizes t) }

step-IsUnsized : {T : FileTable} (c : Call) → IsUnsized T → IsUnsized (step T c)
unfolding step unload_q unload_all
step-IsUnsized (load os path k) u = load_q-IsUnsized os path k u
step-IsUnsized (unload k) u = delete_tab-IsUnsized k u
step-IsUnsized unload_everything u = record { sizes = λ t. ground (arith, u.sizes t) }

run-IsUnsized : (cs : List Call) {T : FileTable} → IsUnsized T → IsUnsized (run T cs)
unfolding run
run-IsUnsized [] u = u
run-IsUnsized (c ∷ cs) u = run-IsUnsized cs (step-IsUnsized c u)

-- Every call of msync in a list is for no bytes.
abbrev pub AllEmpty : List (ℕ × ℕ) → Type 0
AllEmpty [] = Unit {0}
AllEmpty (c ∷ cs) = (c.1 ≡ 0) × AllEmpty cs

flush_from-AllEmpty : (t n : ℕ) {T : FileTable} → IsUnsized T → AllEmpty (flush_from T t n)
unfolding flush_from
flush_from-AllEmpty t zero u = tt
flush_from-AllEmpty t (suc n) {T} u =
    elim (Bool-cases (in_table T t && not ((T.slots t).fields.handles.map_address == 0))) [
      | inl hit ↦ rw hit (u.sizes t, flush_from-AllEmpty (t + 1) n u)
      | inr miss ↦ rw miss (flush_from-AllEmpty (t + 1) n u)
    ]

-- Whatever files are loaded and unloaded, in whatever order, each msync of FlushQFile is for a
-- range of length 0, so that it writes nothing back.
pub flush_writes_nothing : (cs : List Call) → AllEmpty (flush_q_file (run init_table cs))
unfolding flush_q_file
flush_writes_nothing cs =
    flush_from-AllEmpty 0 table_size (run-IsUnsized cs (record { sizes = λ t. refl }))
