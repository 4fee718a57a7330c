-- ===== src/Queue/Refine.antt =====
-- The calls on a normal queue of binary records, beside those on a bounded FIFO.
use g_plat.Prelude.{
  ℕ, ◌+◌, ◌-◌, ◌%◌, ◌<◌, ◌≡◌, ◌≢◌, refl, sym, ap, ◌∙◌, List, [], ◌∷◌, Option, arith, length,
  ℕ_discrete,
}
use g_plat.Errors.{done, refuse}
use g_plat.Queue.{Queue, read_q, peek_q, pop_just_record_from_queue, clear_q, is_empty_q, is_full_q}
use g_plat.Queue.Put.{ip_of, write_q}
use g_plat.Queue.Inv.{full_iff_used, empty_iff_used}
use g_plat.Queue.Contents.{
  IsBinary, contents, length-contents, contents-put_record, put_record-IsBinary, contents-eq-nil,
  contents-ne-nil, after_read-IsBinary, put_keeps, read_wrong_size, read_empty, read_takes,
  pop_empty, pop_drops, clear_resets, cleared_queue-IsBinary, write_wrong_size, write_full,
  write_puts,
}
use g_plat.Queue.Fifo
use g_plat.Queue.Fifo.{
  Op, Reply, OpFits, OpsFit, write, read, peek, pop, clear, ask_empty, ask_full, wrote, got, peeked,
  popped, cleared, told,
}

-- The operations of the client, composed over the state.
unfoldable pub step : Queue → Op → Reply × Queue
step q (write bytes ip now) = let (o, q') = write_q q bytes (length bytes) ip now in (wrote o, q')
step q (read n) = let (o, q') = read_q q n in (got o, q')
step q (peek n) = (peeked (peek_q q n), q)
step q pop = let (o, q') = pop_just_record_from_queue q in (popped o, q')
step q clear = let (o, q') = clear_q q in (cleared o, q')
step q ask_empty = (told (done (is_empty_q q)), q)
step q ask_full = (told (is_full_q q), q)

pub run : Queue → List Op → List Reply
run q [] = []
run q (op ∷ ops) = let (r, q') = step q op in r ∷ run q' ops

abbrev pub Simulates : Queue → Op → Type 0
Simulates q op =
    let (r, q') = step q op in
    ((r, contents q') ≡ Fifo.step (q.num - 1) q.size (contents q) op)
    × IsBinary q'
    × (q'.num ≡ q.num)
    × (q'.size ≡ q.size)

-- Whether the FIFO is full or empty shows in the pointers.
module _ {q : Queue} (v : IsBinary q) where
  length-full : (q.write_point + 1) % q.num ≡ q.read_point → length (contents q) ≡ q.num - 1
  length-full e = length-contents q ∙ (full_iff_used v.normal.read_in v.normal.write_in).0 e

  length-room : (q.write_point + 1) % q.num ≢ q.read_point → length (contents q) ≢ q.num - 1
  length-room ne e =
      ne ((full_iff_used v.normal.read_in v.normal.write_in).1 (sym (length-contents q) ∙ e))

  write-Simulates :
      (bytes : List ℕ) (ip : Option (List ℕ)) (now : List ℕ)
      → length (ip_of ip) < 16
      → Simulates q (write bytes ip now)
  unfolding step Fifo.step
  write-Simulates bytes ip now fits = elim (ℕ_discrete (length bytes) q.size) [
    | no ne ↦ rw (write_wrong_size bytes ip now v ne) (ground arith, v, refl, refl)
    | yes e ↦ elim (ℕ_discrete ((q.write_point + 1) % q.num) q.read_point) [
      | yes full ↦
          rw (write_full bytes ip now v e full) (ground (arith, length-full full), v, refl, refl)
      | no room ↦ rw (write_puts bytes ip now v e room fits) (
        ground (arith, length-room room, contents-put_record bytes (ip_of ip) now v e room),
        put_record-IsBinary bytes (ip_of ip) now v e room,
        (put_keeps bytes (ip_of ip) now v e room).1,
        (put_keeps bytes (ip_of ip) now v e room).2,
      )
    ]
  ]

  read-Simulates : (n : ℕ) → Simulates q (read n)
  unfolding step Fifo.step
  read-Simulates n = elim (ℕ_discrete n q.size) [
    | no ne ↦ rw (read_wrong_size n v ne) (ground arith, v, refl, refl)
    | yes e ↦ elim (ℕ_discrete q.read_point q.write_point) [
      | yes none_left ↦
          rw (read_empty n v e none_left)
            (ground (arith, contents-eq-nil v none_left), v, refl, refl)
      | no some_left ↦
          rw (read_takes n v e some_left) (
            ground (arith, contents-ne-nil v some_left),
            after_read-IsBinary v some_left,
            refl,
            refl,
          )
    ]
  ]

  peek-Simulates : (n : ℕ) → Simulates q (peek n)
  unfolding step Fifo.step peek_q
  peek-Simulates n = elim (ℕ_discrete q.read_point q.write_point) [
    | yes none_left ↦
        (ground (arith, v.binary, v.normal, contents-eq-nil v none_left), v, refl, refl)
    | no some_left ↦
        (ground (arith, v.binary, v.normal, contents-ne-nil v some_left), v, refl, refl)
  ]

  pop-Simulates : Simulates q pop
  unfolding step Fifo.step
  pop-Simulates = elim (ℕ_discrete q.read_point q.write_point) [
    | yes none_left ↦
        rw (pop_empty v none_left) (ground (arith, contents-eq-nil v none_left), v, refl, refl)
    | no some_left ↦
        rw (pop_drops v some_left)
          (ground (arith, contents-ne-nil v some_left), after_read-IsBinary v some_left, refl, refl)
  ]

  clear-Simulates : Simulates q clear
  unfolding step Fifo.step
  clear-Simulates = rw (clear_resets v) (
    ap (λ f. (cleared refuse, f)) (contents-eq-nil (cleared_queue-IsBinary v) refl),
    cleared_queue-IsBinary v,
    refl,
    refl,
  )

  ask_empty-Simulates : Simulates q ask_empty
  unfolding step Fifo.step is_empty_q
  ask_empty-Simulates = (
    ground (
      arith,
      v.normal,
      length-contents q,
      (empty_iff_used v.normal.read_in v.normal.write_in).0,
      (empty_iff_used v.normal.read_in v.normal.write_in).1,
    ),
    v,
    refl,
    refl,
  )

  ask_full-Simulates : Simulates q ask_full
  unfolding step Fifo.step is_full_q
  ask_full-Simulates = (
    ground (
      arith,
      v.normal,
      length-contents q,
      (full_iff_used v.normal.read_in v.normal.write_in).0,
      (full_iff_used v.normal.read_in v.normal.write_in).1,
    ),
    v,
    refl,
    refl,
  )

-- Each call on a normal queue of binary records keeps the invariant, the number of slots and the
-- record size, and replies and changes the contents as the FIFO does.
pub step-Simulates : {q : Queue} (op : Op) → IsBinary q → OpFits op → Simulates q op
step-Simulates (write bytes ip now) v fits = write-Simulates v bytes ip now fits
step-Simulates (read n) v fits = read-Simulates v n
step-Simulates (peek n) v fits = peek-Simulates v n
step-Simulates pop v fits = pop-Simulates v
step-Simulates clear v fits = clear-Simulates v
step-Simulates ask_empty v fits = ask_empty-Simulates v
step-Simulates ask_full v fits = ask_full-Simulates v

-- Whatever calls its clients make, in whatever order and with whatever sizes, a normal queue of
-- binary records replies to each as the FIFO of `num - 1` places that holds the queue's contents,
-- so long as the addresses that come with the writes fit their field.
pub run_refines :
    (ops : List Op) {q : Queue}
    → IsBinary q
    → OpsFit ops
    → run q ops ≡ Fifo.run (q.num - 1) q.size (contents q) ops
unfolding run Fifo.run
run_refines [] v fits = refl
run_refines (op ∷ ops) {q} v fits =
    let (e, v', n, k) = step-Simulates op v fits.0 in rw (run_refines ops v' fits.1, ← e, n, k)
