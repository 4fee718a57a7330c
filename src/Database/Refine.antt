-- ===== src/Database/Refine.antt =====
-- InsertTable, UpdateTable, RefreshTable and ClearTable on a table that is there, against the map
-- from names to rows.
use g_plat.Prelude.{
  ◌^◌, ℕ, ◌+◌, ◌*◌, ◌≤◌, ◌<◌, ◌≡◌, ◌≢◌, ◌⊎◌, inl, inr, refl, sym, ap, subst, ap₂, fun_ext, ◌∙◌,
  Bool, true, false, some, List, [], ◌++◌, arith, length, take, drop, length-take, collect,
  collect-ext, length-collect, take-all, collect-append, take-collect, copy_in, same_text,
  same_text→eq, not, ltb, leb, ◌==◌, if◌then◌else◌, Bool-cases,
}
use g_plat.Errors.{Outcome, done, fail, fault, error_recordsize, error_no_space, error_table_rowid}
use g_plat.Hash.{index_size}
use g_plat.Hash.Probe.{index_size-IsSize}
use g_plat.Hash.Directory.{Live, Blank, locate_found}
use g_plat.Board.Items.{copy_in-outside, collect-copy_in}
use g_plat.Board.WritePart.{collect-copy_in_part}
use g_plat.Database.{
  Database, Table, insert_found, update_found, refresh_found, put_rows, clear_table,
}
use g_plat.Database.View.{IsIntact, Rows, rows_of, content, intact-WellPlaced}
use g_plat.Database.Alter.{altered, altered-IsIntact, altered-Blank, altered-content, content-Live}
use g_plat.Database.Spec.{set_rows, on_rows, insert, update_row, refresh, clear}
use native.Mathlib.Nat.{mul-le-mul_left, mul-add, mul-suc, mul-zero, zero-add}

ltb-false : (a b : ℕ) → ltb a b ≡ false → b ≤ a
ltb-false a b h = ground arith

same_product : {a b : ℕ} → a ≡ b → (n : ℕ) → b * n ≤ a * n
same_product e n = rw e (omega arith)

module _ (d : Database) (k : List ℕ) (t : ℕ) (v : IsIntact d) (blank : Blank index_size d.index)
    (ne : k ≢ []) (l : Live index_size d.index k t) where
  abbrev table : Table
  table = (d.index t).fields

  abbrev pub was : Rows
  was = rows_of d.mem (d.index t).fields

  -- The answers are the same, and after them the tables are.
  pub record Simulates (o : Outcome (Unit {0})) (d' : Database) (o' : Outcome (Unit {0})) (r : Rows)
      : Type 0 where
    pub answer : o ≡ o'
    pub tables : (k' : List ℕ) → k' ≢ [] → content d' k' ≡ set_rows (content d) k r k'
    pub intact : IsIntact d'
    pub has_blank : Blank index_size d'.index

  abbrev pub Agree : Outcome (Unit {0}) × Database → Outcome (Unit {0}) × Rows → Type 0
  Agree x y = Simulates x.0 x.1 y.0 y.1

  Agree-if :
      (c : Bool) {x y : Outcome (Unit {0}) × Database} {x' y' : Outcome (Unit {0}) × Rows}
      → (c ≡ true → Agree x x')
      → (c ≡ false → Agree y y')
      → Agree (if c then x else y) (if c then x' else y')
  Agree-if true h g = h refl
  Agree-if false h g = g refl

  pub unchanged : (o : Outcome (Unit {0})) → Agree (o, d) (o, was)
  unchanged o = record {
    answer = refl;
    tables = λ k' kne. elim (Bool-cases (same_text k' k)) [
      | inl same ↦
          rw (same, same_text→eq k' k same) (content-Live d k t (intact-WellPlaced d v) ne l)
      | inr other ↦ rw other refl
    ];
    intact = v;
    has_blank = blank;
  }

  alters :
      (o : Outcome (Unit {0})) (new : Table) (bytes : ℕ → ℕ) (count : ℕ) (r : Rows)
      (start : new.start_pos ≡ table.start_pos) (size : new.record_size ≡ table.record_size)
      (room : new.max_count ≡ table.max_count) (addr : new.type_addr ≡ table.type_addr)
      (type_size : new.type_size ≡ table.type_size) (most : new.curr_count ≤ new.max_count)
      → ((i : ℕ)
          → (i < new.start_pos) ⊎ (new.start_pos + new.record_size * new.max_count ≤ i)
          → bytes i ≡ d.mem i)
      → rows_of bytes new ≡ r
      → Agree (o, altered d t new bytes count start size room addr type_size most) (o, r)
  alters o new bytes count r start size room addr type_size most h e = record {
    answer = refl;
    tables = λ k' kne.
        altered-content d t new bytes count start size room addr type_size most k k' v ne kne l h
        ∙ ap (λ x. set_rows (content d) k x k') e;
    intact = altered-IsIntact d t new bytes count start size room addr type_size most v;
    has_blank = altered-Blank d t new bytes count start size room addr type_size most blank;
  }

  Agree-to :
      {x : Outcome (Unit {0}) × Database} {o : Outcome (Unit {0})} {r r' : Rows}
      → r ≡ r'
      → Agree x (o, r)
      → Agree x (o, r')
  Agree-to {x} {o} e s = subst (λ r. Agree x (o, r)) e s

  abbrev with_bytes : ℕ → ℕ → List ℕ → Rows
  with_bytes count now bytes = record {
    record_size = table.record_size;
    max_count = table.max_count;
    count = count;
    bytes = bytes;
    time = now;
  }

  no_bytes : collect d.mem table.start_pos (table.record_size * 0) ≡ []
  unfolding collect
  no_bytes = ap (collect d.mem table.start_pos) (mul-zero table.record_size)

  pub clear-Agree : (now : ℕ) → Agree (clear_table d k now) (on_rows was (clear k now))
  unfolding clear_table
  clear-Agree now =
      rw (locate_found index_size-IsSize d.index k t (intact-WellPlaced d v) ne l, clear_table)
        (alters (done tt) (record table { curr_count = 0; timestamp = now }) d.mem (d.counter + 1)
          (with_bytes 0 now []) refl refl refl refl refl (omega arith) (λ i h. refl)
          (ap (with_bytes 0 now) no_bytes))

  sized : (x : List ℕ) (n : ℕ) → ltb (length x) n ≡ false → length (take n x) ≡ n
  sized x n h = omega (arith, length-take n x, ltb-false (length x) n h)

  put-Agree :
      (from count rs : ℕ) (rows : List ℕ) (now : ℕ)
      → rs ≡ table.record_size
      → from ≤ table.curr_count
      → from + count ≤ table.max_count
      → length (take (rs * count) rows) ≡ rs * count
      → Agree
          (done tt, put_rows d t from count rs rows now)
          (
            done tt,
            record was {
              count = from + count;
              bytes = take (rs * from) was.bytes ++ take (rs * count) rows;
              time = now;
            },
          )
  put-Agree from count rs rows now e before fits enough =
      let text : List ℕ = take (rs * count) rows in
      let start : ℕ = table.start_pos in
      let size : rs ≡ table.record_size = e in
      let whole : table.record_size * (from + count) ≡ rs * from + rs * count =
        rw (sym e) (mul-add rs from count) in
      let inside : rs * from + rs * count ≤ table.record_size * table.max_count =
        rw (← mul-add rs from count, e) (mul-le-mul_left table.record_size fits) in
      let earlier : rs * from ≤ table.record_size * table.curr_count =
        rw e (mul-le-mul_left table.record_size before) in
      alters (done tt) (record table { curr_count = from + count; timestamp = now })
        (copy_in d.mem (start + rs * from) text) (d.counter + 1) _ refl refl refl refl refl fits
        (λ i h. copy_in-outside d.mem (start + rs * from) text i (omega (arith, h, inside, enough)))
        (ap
          (λ x. record {
            record_size = table.record_size;
            max_count = table.max_count;
            count = from + count;
            bytes = x;
            time = now;
          })
          (ap (collect (copy_in d.mem (start + rs * from) text) start) whole
            ∙ collect-append (copy_in d.mem (start + rs * from) text) start (rs * from) (rs * count)
            ∙ ap₂ ◌++◌
                (collect-ext _ d.mem start (rs * from) (λ i lo hi.
                    copy_in-outside d.mem (start + rs * from) text i (omega (arith, hi)))
                  ∙ ap (collect d.mem start) (omega (arith, earlier))
                  ∙ sym
                      (take-collect d.mem start (table.record_size * table.curr_count) (rs * from)))
                (ap (collect (copy_in d.mem (start + rs * from) text) (start + rs * from))
                    (sym enough)
                  ∙ collect-copy_in d.mem (start + rs * from) text)))

  pub insert-Agree :
      (count rs : ℕ) (rows : List ℕ) (now : ℕ)
      → Agree (insert_found d t count rs rows now) (on_rows was (insert k count rs rows now))
  unfolding insert_found
  insert-Agree count rs rows now =
      Agree-if (not (rs == table.record_size)) (λ _. unchanged (fail error_recordsize))
        (λ same.
          Agree-if (leb (2 ^ 31) (table.curr_count + count)) (λ _. unchanged fault)
            (λ _.
              Agree-if (ltb table.max_count (table.curr_count + count))
                (λ _. unchanged (fail error_no_space))
                (λ fits.
                  Agree-if (ltb (length rows) (rs * count)) (λ _. unchanged fault)
                    (λ enough.
                      Agree-to
                        (ap
                          (λ x.
                            with_bytes (table.curr_count + count) now (x ++ take (rs * count) rows))
                          (take-all (rs * table.curr_count) was.bytes (
                            rw
                              (length-collect d.mem table.start_pos
                                (table.record_size * table.curr_count))
                              (same_product (ground arith) table.curr_count))))
                        (put-Agree table.curr_count count rs rows now (ground arith) (omega arith)
                          (ground arith) (sized rows (rs * count) enough))))))

  pub refresh-Agree :
      (count rs : ℕ) (rows : List ℕ) (now : ℕ)
      → Agree (refresh_found d t count rs rows now) (on_rows was (refresh k count rs rows now))
  unfolding refresh_found
  refresh-Agree count rs rows now =
      Agree-if (not (rs == table.record_size)) (λ _. unchanged (fail error_recordsize))
        (λ same. rw (zero-add count) (
          Agree-if (ltb table.max_count count)
            (λ _.
              alters (fail error_no_space) (record table { curr_count = 0 }) d.mem d.counter
                (with_bytes 0 table.timestamp []) refl refl refl refl refl (omega arith)
                (λ i h. refl) (ap (with_bytes 0 table.timestamp) no_bytes))
            (λ fits.
              Agree-if (ltb (length rows) (rs * count)) (λ _. unchanged fault)
                (λ enough.
                  Agree-to
                    (ap (λ x. with_bytes count now (x ++ take (rs * count) rows))
                      (ap (λ n. take n was.bytes) (mul-zero rs)))
                    (rw (zero-add count) at (
                      put-Agree 0 count rs rows now (ground arith) (omega arith) (ground arith)
                        (sized rows (rs * count) enough)))))))

  -- A row in place of the row `rowid`.
  row-Agree :
      (rowid rs : ℕ) (row : List ℕ)
      → rs ≡ table.record_size
      → rowid < table.curr_count
      → length (take rs row) ≡ rs
      → Agree
          (
            done tt,
            record d {
              mem = copy_in d.mem (table.start_pos + rs * rowid) (take rs row);
              counter = d.counter + 1;
            },
          )
          (
            done tt,
            record was {
              bytes =
                  take (rs * rowid) was.bytes ++ (take rs row ++ drop (rs * rowid + rs) was.bytes);
            },
          )
  row-Agree rowid rs row e before enough =
      let text : List ℕ = take rs row in
      let start : ℕ = table.start_pos in
      let inside : rs * rowid + rs ≤ table.record_size * table.curr_count =
        rw (← mul-suc rs rowid, e) (mul-le-mul_left table.record_size before) in
      let whole : table.record_size * table.curr_count ≤ table.record_size * table.max_count =
        mul-le-mul_left table.record_size (v.counts t) in
      let bytes : ℕ → ℕ = copy_in d.mem (start + rs * rowid) text in
      subst
        (λ x.
          Agree (done tt, record d { mem = bytes; index = x; counter = d.counter + 1 })
            (
              done tt,
              record was {
                bytes = take (rs * rowid) was.bytes ++ (text ++ drop (rs * rowid + rs) was.bytes);
              },
            ))
        (fun_ext (λ j. ground arith))
        (alters (done tt) table bytes (d.counter + 1) _ refl refl refl refl refl (v.counts t)
          (λ i h.
            copy_in-outside d.mem (start + rs * rowid) text i
              (omega (arith, h, inside, whole, enough)))
          (ap (with_bytes table.curr_count table.timestamp) (
            collect-copy_in_part d.mem start (rs * rowid) (table.record_size * table.curr_count)
              text (omega (arith, inside, enough))
            ∙ ap (λ n. take (rs * rowid) was.bytes ++ (text ++ drop (rs * rowid + n) was.bytes))
                enough)))

  pub update-Agree :
      (rowid rs : ℕ) (row : List ℕ)
      → Agree (update_found d t rowid rs row) (on_rows was (update_row k (some rowid) rs row))
  unfolding update_found
  update-Agree rowid rs row =
      Agree-if (not (rs == table.record_size)) (λ _. unchanged (fail error_recordsize))
        (λ same.
          Agree-if (leb table.curr_count rowid) (λ _. unchanged (fail error_table_rowid))
            (λ there.
              Agree-if (ltb (length row) rs) (λ _. unchanged fault)
                (λ enough.
                  row-Agree rowid rs row (ground arith) (ground arith) (sized row rs enough))))
