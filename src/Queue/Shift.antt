-- ===== src/Queue/Shift.antt =====
-- WriteQ, ReadQ and MulReadQ on a shift queue, seen as the records counted back from the newest.
use g_plat.Prelude.{
  ◌≤◌, ◌^◌, ℕ, suc, ◌+◌, ◌-◌, ◌%◌, ◌<◌, ◌≡◌, refl, sym, ap, ap₂, ◌∙◌, List, [], ◌∷◌, Option, map,
  arith, min, length, take, drop, collect, collect-cons, collect-align, take-all, length-map,
  take-collect, drop-collect, length-collect, rev_append, take-rev_append-take, map-take, mod_once,
}
use g_plat.Errors.{done}
use g_plat.Queue.{Queue, Record, read_q, mul_read_q}
use g_plat.Queue.Put.{ip_of, write_q}
use g_plat.Queue.History.{
  IsHistory, back, history, written, write_puts, put_keeps, put_size, put-IsHistory, history-put,
}

-- A write of a record of the queue's size succeeds on a shift queue, full or not. The record
-- comes first in the history with its time, its address and its slot's label, unacknowledged;
-- of the records before it the oldest is dropped and the others keep their order. The flag
-- says that there is something to read, and the invariant holds again.
pub write_q-history :
    {q : Queue} (bytes : List ℕ) (ip : Option (List ℕ)) (now : List ℕ)
    → IsHistory q
    → length bytes ≡ q.size
    → length (ip_of ip) < 16
    → let (o, q') = write_q q bytes (length bytes) ip now in
      (o ≡ done tt)
      × (history q'
          ≡ written bytes (ip_of ip) now ((q.write_point + 1) % q.num)
            ∷ take (q.num - 1) (history q))
      × (q'.read_point ≡ 1)
      × (q'.num ≡ q.num)
      × (q'.size ≡ q.size)
      × IsHistory q'
write_q-history {q} bytes ip now v e fits = rw (write_puts bytes ip now v e fits) (
  refl,
  history-put bytes ip now v e fits,
  (put_keeps bytes ip now v e fits).2,
  (put_keeps bytes ip now v e fits).0,
  put_size bytes ip now v e fits,
  put-IsHistory bytes ip now v e fits,
)

-- What ReadQ returns on a shift queue that has been written to is the newest record, and the
-- queue stays as it is.
pub read_q-history :
    {q : Queue} (n : ℕ)
    → IsHistory q
    → n ≡ q.size
    → q.read_point ≡ 1
    → (r : Record) × (rest : List Record) × (history q ≡ r ∷ rest)
      × (read_q q n ≡ (done (r.body, r.remote_ip), q))
unfolding read_q
read_q-history {q} n v e flag = (
  back q 0,
  collect (λ k. back q (k + 1)) 0 (q.num - 1),
  (let m : q.num ≡ suc (q.num - 1) = omega (arith, v.shift) in
      ap (collect (back q) 0) m ∙ collect-cons (back q) 0 (q.num - 1)),
  ground (
    arith,
    v.binary,
    v.shift,
    mod_once (q.write_point + q.num - 0) q.num (omega (arith, v.shift)),
  ),
)

-- Counting back from the `start`-th newest slot is counting back from the newest.
back_from :
    {w n : ℕ} (start k : ℕ)
    → w < n
    → start + k < n
    → ((w + n - start) % n + n - (0 + k)) % n ≡ (w + n - (0 + start + k)) % n
back_from {w} {n} start k h lt = omega (
  arith,
  mod_once (w + n - start) n (omega arith),
  mod_once ((w + n - start) % n + n - (0 + k)) n (omega arith),
  mod_once (w + n - (0 + start + k)) n (omega arith),
)

abbrev read_back : Queue → ℕ → ℕ → Record
read_back q start i = q.records (((q.write_point + q.num - start) % q.num + q.num - i) % q.num)

mul_read_records :
    {q : Queue} (start count : ℕ)
    → IsHistory q
    → start < q.num
    → collect (read_back q start) 0 (min (q.num - start) count)
      ≡ take count (drop start (history q))
mul_read_records {q} start count v lt =
    let m : min (q.num - start) count ≡ min count (q.num - start) = omega arith in
    rw
      (drop-collect (back q) 0 q.num start, take-collect (back q) (0 + start) (q.num - start) count)
      (ap (collect (read_back q start) 0) m
        ∙ collect-align (read_back q start) (back q) 0 (0 + start) (min count (q.num - start))
            (λ k hk. ap q.records (back_from start k v.shift.write_in (omega arith))))

-- MulReadQ on a shift queue returns the records from the `start`-th newest on, `count` of them or
-- as many as there are, with the record size. Twice the number of slots fits an `int`.
pub mul_read_q-history :
    {q : Queue} (start count : ℕ)
    → IsHistory q
    → start < q.num
    → q.num ≤ 2 ^ 30
    → mul_read_q q start count ≡ done (take count (drop start (history q)), q.size)
unfolding mul_read_q
mul_read_q-history {q} start count v lt few =
    ground (arith, v.shift, v, few, mul_read_records start count v lt)

-- The arguments of a call of WriteQ that a queue of records of `size` bytes takes.
pub record Item : Type 0 where
  pub bytes : List ℕ
  pub ip : Option (List ℕ)
  pub now : List ℕ

abbrev pub ItemsFit : ℕ → List Item → Type 0
ItemsFit size [] = Unit {0}
ItemsFit size (x ∷ xs) = (length x.bytes ≡ size) × (length (ip_of x.ip) < 16) × ItemsFit size xs

-- One WriteQ after the other.
pub write_all : Queue → List Item → Queue
write_all q [] = q
write_all q (x ∷ xs) = write_all (write_q q x.bytes (length x.bytes) x.ip x.now).1 xs

-- What a reader sees of a record without its label: bytes, address, time.
abbrev pub Seen : Type 0
Seen = List ℕ × List ℕ × List ℕ

abbrev pub seen : Record → Seen
seen r = (r.body, r.remote_ip, r.create_date)

abbrev pub item_seen : Item → Seen
item_seen x = (x.bytes, ip_of x.ip, x.now)

-- After any writes that fit, a shift queue of `num` slots holds the last `num` records that were
-- written, newest first, followed by as many of the earlier ones as there is room for.
pub write_all-history :
    (xs : List Item) {q : Queue}
    → IsHistory q
    → ItemsFit q.size xs
    → map seen (history (write_all q xs))
      ≡ take q.num (rev_append (map item_seen xs) (map seen (history q)))
unfolding write_all rev_append
write_all-history [] {q} v fits = sym (
    take-all q.num (map seen (history q))
      (omega (arith, length-map (history q) seen, length-collect (back q) 0 q.num)))
write_all-history (x ∷ xs) {q} v fits =
    let (_, h, _, n, k, v') = write_q-history x.bytes x.ip x.now v fits.0 fits.1 in
    write_all-history xs v' (rw k fits.2)
    ∙ ap₂ (λ m l. take m (rev_append (map item_seen xs) l)) n
        (ap (map seen) h ∙ ap (λ t. item_seen x ∷ t) (map-take seen (q.num - 1) (history q)))
    ∙ take-rev_append-take q.num (suc (q.num - 1)) (map item_seen xs)
        (item_seen x ∷ map seen (history q)) (omega arith)
