-- ===== src/Queue/Contents.antt =====
-- The records that a normal queue holds, and what a write and a read do to them.
use native.Mathlib.Nat.{zero-add, add-zero}
use g_plat.Prelude.{
  ℕ, suc, ◌+◌, ◌-◌, ◌%◌, ◌<◌, ◌≡◌, ◌≢◌, sym, ap, ap₂, ◌∙◌, List, [], ◌∷◌, ◌++◌, Option, arith,
  length, take, drop, collect, collect-ext, collect-snoc, collect-cons, length-collect, take-all,
  drop-all, append-nil,
}
use g_plat.Errors.{done, fail, refuse, error_dq_empty, error_dq_full, error_recordsize}
use g_plat.Queue.{Queue, Read, binary_type, read_at, read_q, pop_just_record_from_queue, clear_q}
use g_plat.Queue.Put.{ip_of, put_record, write_q, write_size, write_sized, stamp}
use g_plat.Queue.Inv.{
  IsNormal, used_between, used-lt, slot_after_used, slot_in_use-ne, used_after_write,
  used_after_read, empty_iff_used, slot_after_next,
}

-- A normal queue of binary records whose slots hold `size` bytes each.
pub record IsBinary (q : Queue) : Type 0 where
  pub normal : IsNormal q
  pub binary : q.data_type ≡ binary_type
  pub bodies : (i : ℕ) → length (q.records i).body ≡ q.size

abbrev pub entry : Queue → ℕ → Read
entry q i = read_at q ((q.read_point + 1 + i) % q.num)

abbrev pub used : Queue → ℕ
used q = used_between q.write_point q.read_point q.num

-- The records from the one after the read pointer to the write pointer, oldest first.
abbrev pub contents : Queue → List Read
contents q = collect (entry q) 0 (used q)

pub length-contents : (q : Queue) → length (contents q) ≡ used q
length-contents q = length-collect (entry q) 0 (used q)

-- A record of the slot's size replaces what the slot held.
pub stored_body :
    (new old : List ℕ)
    → length new ≡ length old
    → take (length new) new ++ drop (length new) old ≡ new
stored_body new old e =
    rw (take-all (length new) new (omega arith), drop-all (length new) old (omega arith))
      (append-nil new)

module _ {q : Queue} (bytes ip now : List ℕ) (v : IsBinary q) (e : length bytes ≡ q.size)
    (ne : (q.write_point + 1) % q.num ≢ q.read_point) where
  abbrev pub q' : Queue
  q' = put_record q bytes (length bytes) ip now

  pub put_keeps : (q'.read_point ≡ q.read_point) × (q'.num ≡ q.num) × (q'.size ≡ q.size)
  unfolding put_record
  put_keeps = ground (arith, v.normal.mode)

  pub used-put_record : used q' ≡ suc (used q)
  unfolding put_record
  used-put_record = rw (put_keeps.0) (used_after_write v.normal.read_in v.normal.write_in ne)

  entry-put_record_old : (i : ℕ) → i < used q → entry q' i ≡ entry q i
  unfolding put_record
  entry-put_record_old i lt =
      ground (arith, v.normal.mode, slot_in_use-ne v.normal.read_in v.normal.write_in i lt ne)

  entry-put_record_new : entry q' (used q) ≡ (bytes, ip)
  unfolding put_record
  entry-put_record_new = ground (
    arith,
    v.normal.mode,
    slot_after_used v.normal.read_in v.normal.write_in,
    stored_body bytes (q.records ((q.write_point + 1) % q.num)).body
        (e ∙ sym (v.bodies ((q.write_point + 1) % q.num))),
  )

  -- A write below the capacity appends the record.
  pub contents-put_record : contents q' ≡ contents q ++ (bytes, ip) ∷ []
  contents-put_record =
      rw (used-put_record, collect-snoc (entry q') 0 (used q))
        (ap₂ ◌++◌
          (collect-ext (entry q') (entry q) 0 (used q)
            (λ i _ hi. entry-put_record_old i (omega arith)))
          (ap (λ x. x ∷ []) (ap (entry q') (zero-add (used q)) ∙ entry-put_record_new)))

  pub put_record-IsBinary : IsBinary q'
  unfolding put_record stamp
  put_record-IsBinary = record {
    normal = ground (arith, v.normal);
    binary = v.binary;
    bodies = λ i. ground (
      arith,
      v.bodies i,
      ap length (
          stored_body bytes (q.records ((q.write_point + 1) % q.num)).body
            (e ∙ sym (v.bodies ((q.write_point + 1) % q.num)))),
    );
  }

-- A read from a queue that is not empty takes the first record off.
module _ {q : Queue} (v : IsBinary q) (ne : q.read_point ≢ q.write_point) where
  abbrev pub after_read : Queue
  after_read = record q { read_point = (q.read_point + 1) % q.num }

  pub contents-after_read : contents q ≡ entry q 0 ∷ contents after_read
  contents-after_read =
      rw
        (
          ← used_after_read v.normal.read_in v.normal.write_in (λ e. ne (sym e)),
          collect-cons (entry q) 0 (used after_read),
        )
        (ap (λ t. entry q 0 ∷ t)
          (collect-ext (λ k. entry q (k + 1)) (entry after_read) 0 (used after_read)
            (λ i _ hi. ap (read_at q) (
              sym (
                slot_after_next i v.normal.read_in (
                  omega (
                    arith,
                    hi,
                    used-lt v.normal.read_in v.normal.write_in,
                    used_after_read v.normal.read_in v.normal.write_in (λ e. ne (sym e)),
                  )))))))

  pub after_read-IsBinary : IsBinary after_read
  after_read-IsBinary = record {
    normal = ground (arith, v.normal);
    binary = v.binary;
    bodies = v.bodies;
  }

  pub contents-ne-nil : read_at q ((q.read_point + 1) % q.num) ∷ contents after_read ≡ contents q
  contents-ne-nil =
      ap (λ k. read_at q (k % q.num) ∷ contents after_read) (sym (add-zero (q.read_point + 1)))
      ∙ sym contents-after_read

pub contents-eq-nil : {q : Queue} → IsBinary q → q.read_point ≡ q.write_point → contents q ≡ []
unfolding collect
contents-eq-nil {q} v e =
    ap (collect (entry q) 0) ((empty_iff_used v.normal.read_in v.normal.write_in).0 e)

module _ {q : Queue} (bytes : List ℕ) (ip : Option (List ℕ)) (now : List ℕ) (v : IsBinary q) where
  pub write_wrong_size :
      length bytes ≢ q.size → write_q q bytes (length bytes) ip now ≡ (fail error_recordsize, q)
  unfolding write_q write_size write_sized
  write_wrong_size ne = ground (arith, v.binary)

  pub write_full :
      length bytes ≡ q.size
      → (q.write_point + 1) % q.num ≡ q.read_point
      → write_q q bytes (length bytes) ip now ≡ (fail error_dq_full, q)
  unfolding write_q write_size write_sized
  write_full e full = ground (arith, v.binary, v.normal)

  pub write_puts :
      length bytes ≡ q.size
      → (q.write_point + 1) % q.num ≢ q.read_point
      → length (ip_of ip) < 16
      → write_q q bytes (length bytes) ip now
        ≡ (done tt, put_record q bytes (length bytes) (ip_of ip) now)
  unfolding write_q write_size write_sized
  write_puts e ne fits = ground (arith, v.binary, v.normal)

module _ {q : Queue} (n : ℕ) (v : IsBinary q) where
  pub read_wrong_size : n ≢ q.size → read_q q n ≡ (fail error_recordsize, q)
  unfolding read_q
  read_wrong_size ne = ground (arith, v.binary)

  pub read_empty : n ≡ q.size → q.read_point ≡ q.write_point → read_q q n ≡ (fail error_dq_empty, q)
  unfolding read_q
  read_empty e empty = ground (arith, v.binary, v.normal)

  pub read_takes :
      n ≡ q.size
      → (ne : q.read_point ≢ q.write_point)
      → read_q q n ≡ (done (read_at q ((q.read_point + 1) % q.num)), after_read v ne)
  unfolding read_q
  read_takes e ne = ground (arith, v.binary, v.normal)

-- PopJustRecordFromQueue and ClearQ
module _ {q : Queue} (v : IsBinary q) where
  pub pop_empty :
      q.read_point ≡ q.write_point → pop_just_record_from_queue q ≡ (fail error_dq_empty, q)
  unfolding pop_just_record_from_queue
  pop_empty e = ground (arith, v.normal)

  pub pop_drops :
      (ne : q.read_point ≢ q.write_point)
      → pop_just_record_from_queue q ≡ (done tt, after_read v ne)
  unfolding pop_just_record_from_queue
  pop_drops ne = ground (arith, v.normal)

  abbrev pub cleared_queue : Queue
  cleared_queue = record q { read_point = q.num - 1; write_point = q.num - 1 }

  pub clear_resets : clear_q q ≡ (refuse, cleared_queue)
  unfolding clear_q
  clear_resets = ground (arith, v.normal)

  pub cleared_queue-IsBinary : IsBinary cleared_queue
  cleared_queue-IsBinary = record {
    normal = ground (arith, v.normal);
    binary = v.binary;
    bodies = v.bodies;
  }
