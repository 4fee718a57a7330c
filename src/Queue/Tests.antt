-- ===== src/Queue/Tests.antt =====
-- A normal queue and a shift queue, each of three slots for records of two bytes.
use g_plat.Prelude.{
  ◌-◌, ◌≡◌, ◌⊎◌, refl, true, none, List, [], ◌∷◌, arith, map, take, drop, rev_append,
}
use g_plat.Errors.{done, refuse}
use g_plat.Queue.{Queue, FileAnswers, binary_type, normal_mode, shift_mode, mul_read_q, is_empty_q}
use g_plat.Queue.Make.{init_queue, create_q}
use g_plat.Queue.Contents.{IsBinary, contents}
use g_plat.Queue.Create.{
  init_normal-IsBinary, init_shift-IsHistory, create_q_normal, create_q_shift,
}
use g_plat.Queue.{at, minus_one, set_ptr_q}
use g_plat.Queue.Inv.{IsNormal}
use g_plat.Queue.Pointers.{Accepts, set_ptr_q-IsNormal}
use g_plat.Queue.Fifo
use g_plat.Queue.Fifo.{Op, write, read, peek, pop, ask_full}
use g_plat.Queue.History.{IsHistory, history}
use g_plat.Queue.Refine.{run, run_refines}
use g_plat.Queue.Shift.{Item, seen, item_seen, write_all, mul_read_q-history, write_all-history}

abbrev normal_queue : Queue
normal_queue = init_queue 2 3 binary_type normal_mode [] []

normal_queue-IsBinary : IsBinary normal_queue
normal_queue-IsBinary = init_normal-IsBinary 2 3 [] [] (omega arith) (omega arith)

abbrev shift_queue : Queue
shift_queue = init_queue 2 3 binary_type shift_mode [] []

shift_queue-IsHistory : IsHistory shift_queue
shift_queue-IsHistory = init_shift-IsHistory 2 3 [] [] (omega arith) (omega arith)

abbrev calls : List Op
calls =
    write (1 ∷ 2 ∷ []) none []
    ∷ write (3 ∷ 4 ∷ []) none []
    ∷ ask_full
    ∷ peek 2
    ∷ read 2
    ∷ pop
    ∷ pop
    ∷ []

run_refines_example :
    run normal_queue calls
    ≡ Fifo.run (normal_queue.num - 1) normal_queue.size (contents normal_queue) calls
run_refines_example =
    run_refines calls normal_queue-IsBinary
      (omega arith, (omega arith, (tt, (tt, (tt, (tt, (tt, tt)))))))

mul_read_q_example : mul_read_q shift_queue 1 5 ≡ done (take 5 (drop 1 (history shift_queue)), 2)
mul_read_q_example = mul_read_q-history 1 5 shift_queue-IsHistory (omega arith) (omega arith)

abbrev items : List Item
items =
    record { bytes = 1 ∷ 2 ∷ []; ip = none; now = [] }
    ∷ record { bytes = 3 ∷ 4 ∷ []; ip = none; now = [] }
    ∷ record { bytes = 5 ∷ 6 ∷ []; ip = none; now = [] }
    ∷ record { bytes = 7 ∷ 8 ∷ []; ip = none; now = [] }
    ∷ []

write_all_example :
    map seen (history (write_all shift_queue items))
    ≡ take 3 (rev_append (map item_seen items) (map seen (history shift_queue)))
write_all_example =
    write_all-history items shift_queue-IsHistory
      (refl, omega arith, (refl, omega arith, (refl, omega arith, (refl, omega arith, tt))))

abbrev all_well : FileAnswers
all_well = record {
  exists = true;
  removed = true;
  parent_missing = true;
  parent_created = true;
  opened = true;
  truncated = true;
  mapped = true;
}

create_q_normal_example :
    (q : Queue) × (create_q all_well [] (97 ∷ []) 2 3 binary_type normal_mode none 0 [] ≡ done q)
    × IsBinary q
    × (contents q ≡ [])
    × (q.num ≡ 3)
    × (q.size ≡ 2)
create_q_normal_example =
    create_q_normal all_well [] (97 ∷ []) 2 3 none 0 [] (refl, refl, refl, refl, refl) (omega arith)
      (omega arith) (omega arith) (omega arith) tt (omega arith) (omega arith)

create_q_shift_example :
    (q : Queue) × (create_q all_well [] (97 ∷ []) 2 3 binary_type shift_mode none 0 [] ≡ done q)
    × IsHistory q
    × (is_empty_q q ≡ true)
    × (q.num ≡ 3)
    × (q.size ≡ 2)
create_q_shift_example =
    create_q_shift all_well [] (97 ∷ []) 2 3 none 0 [] (refl, refl, refl, refl, refl) (omega arith)
      (omega arith) (omega arith) (omega arith) tt (omega arith) (omega arith)

set_ptr_q_example :
    let (o, q') = set_ptr_q normal_queue (at 1) minus_one in
    IsNormal q'
    × (((o ≡ done tt)
          × (q' ≡ record normal_queue { read_point = 1 })
          × Accepts normal_queue (at 1) minus_one)
        ⊎ ((o ≡ refuse) × (q' ≡ normal_queue) × (¬ Accepts normal_queue (at 1) minus_one)))
set_ptr_q_example = set_ptr_q-IsNormal (at 1) minus_one normal_queue-IsBinary.normal
