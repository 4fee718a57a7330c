-- ===== src/Network/Demand.antt =====
-- One request of writeq or readq on a queue, beside the step of the queue.
use mathlib.Core.List.{append_assoc}
use g_plat.Prelude.{
  false, ◌≤◌, ℕ, drop-length, ◌+◌, ◌<◌, ◌≡◌, refl, sym, ap, ◌∙◌, Option, none, some, List, [],
  arith, length, drop, ℕ_discrete, ◌%◌, collect, copy_in,
}
use g_plat.Errors.{Outcome, done, fail, error_recordsize, error_dq_full, error_dq_empty}
use g_plat.FileTable.{fetch_tab, Handles}
use g_plat.Queue.{Queue, Read, read_q}
use g_plat.Queue.Put.{write_q}
use g_plat.Queue.Contents.{
  IsBinary, write_wrong_size, write_full, write_puts, read_wrong_size, read_empty, read_takes,
}
use g_plat.Queue.Fifo.{Op, Reply, write, read, wrote, got}
use g_plat.Queue.Refine.{step}
use g_plat.Subscribe.{get_subscriber}
use g_plat.Server.Goes.{notify_subscriber-Goes}
use g_plat.Server.{msg_send, notify_subscriber}
use g_plat.Server.Sends.{notify_subscriber-Sends}
use g_plat.Library.{Library, queue_file, set_mapped}
use g_plat.Handlers.{
  Gplat, Env, finish_bare, finish_read, answer, in_buffer, event_body, handle_write_q,
  handle_read_q,
}
use g_plat.Handlers.Serve.{serve, unless_exited}
use g_plat.Handlers.Error.{first_answer, new_answer}
use g_plat.Handlers.Reach.{serve-reaches, goes_on}
use g_plat.Dispatch.{id_readq, id_writeq}
use g_plat.Library.Found.{on_queue-found, mapped-set_mapped}
use g_plat.Board.Items.{collect-copy_in}
use g_plat.Network.Answer.{copied-short}
use g_plat.Client.Requests.{copied, writeq_request, readq_request}

-- The request of writeq or of readq on the queue, from a connection.
pub data Demand : Type 0 where
  ask_write : ℕ → Env → List ℕ → Demand
  ask_read : ℕ → Env → ℕ → Demand

abbrev pub demand : List ℕ → Gplat → Demand → Option Gplat
demand name g (ask_write c env bytes) =
    serve g env c (g.server.conns c).sequence (writeq_request name (length bytes)) bytes
demand name g (ask_read c env n) =
    serve g env c (g.server.conns c).sequence (readq_request name n) []

abbrev pub op_of : Demand → Op
op_of (ask_write c env bytes) = write bytes none env.date
op_of (ask_read c env n) = read n

abbrev pub written : Outcome (Unit {0}) → ℕ × List ℕ
written (fail e) = (e, [])
written _ = (0, [])

abbrev pub taken : Outcome Read → ℕ × List ℕ
taken (done r) = (0, r.0)
taken (fail e) = (e, [])
taken _ = (0, [])

-- What the client is to hear of the FIFO's reply.
abbrev pub heard : Reply → ℕ × List ℕ
heard (wrote o) = written o
heard (got o) = taken o
heard _ = (0, [])

-- One request: the server goes on, the queue takes the step, and the answer is that of the step.
pub record Steps (name : List ℕ) (g : Gplat) (a : ℕ) (q : Queue) (d : Demand) : Type 0 where
  pub after : Gplat
  pub goes : demand name g d ≡ some after
  pub table : after.library.table ≡ g.library.table
  pub mapped : after.library.mapped a ≡ queue_file (step q (op_of d)).1
  pub running : after.server.exited ≡ false
  pub subscriptions : after.server.subscriptions ≡ g.server.subscriptions
  pub answer : new_answer g after ≡ heard (step q (op_of d)).0

module _ (name : List ℕ) (short : length name < 40) (g : Gplat) (c : ℕ) (env : Env) {hd : Handles}
    {q : Queue} (loaded : fetch_tab g.library.table name ≡ done hd)
    (mapped : g.library.mapped hd.map_address ≡ queue_file q) (running : g.server.exited ≡ false)
    (few : length (get_subscriber g.server.subscriptions name) ≤ 500) where
  abbrev stored : Queue → Library
  stored q' = set_mapped g.library hd.map_address (queue_file q')

  put-call :
      (bytes : List ℕ) {o : Outcome (Unit {0})} {q' : Queue}
      → write_q q bytes (length bytes) none env.date ≡ (o, q')
      → demand name g (ask_write c env bytes)
        ≡ unless_exited (
            finish_bare g env.thread c
              (writeq_request name (length bytes))
              (λ s.
                notify_subscriber s
                  (copied name)
                  (event_body (writeq_request name (length bytes)) bytes))
              (o, stored q'))
  unfolding handle_write_q
  put-call bytes w =
      serve-reaches g env c (writeq_request name (length bytes)) bytes id_writeq refl
      ∙ ap
          (λ r. unless_exited (
            finish_bare g env.thread c (writeq_request name (length bytes))
              (λ s.
                notify_subscriber s (copied name)
                  (event_body (writeq_request name (length bytes)) bytes))
              r))
          (on_queue-found g.library (copied name)
              (λ q. write_q q bytes (length bytes) none env.date)
              (ap (fetch_tab g.library.table) (copied-short name short) ∙ loaded) mapped
            ∙ ap (λ r. (r.0, set_mapped g.library hd.map_address (queue_file r.1))) w)

  fetch-call :
      (n : ℕ) {o : Outcome Read} {q' : Queue}
      → read_q q n ≡ (o, q')
      → demand name g (ask_read c env n)
        ≡ unless_exited (
            finish_read g env.thread c
              (readq_request name n)
              (λ (r : Read). answer g.server c (readq_request name n) 0 (in_buffer env n r.0))
              (o, stored q'))
  unfolding handle_read_q
  fetch-call n r =
      serve-reaches g env c (readq_request name n) [] id_readq refl
      ∙ ap
          (λ r. unless_exited (
            finish_read g env.thread c (readq_request name n)
              (λ (r : Read). answer g.server c (readq_request name n) 0 (in_buffer env n r.0)) r))
          (on_queue-found g.library (copied name) (λ q. read_q q n)
              (ap (fetch_tab g.library.table) (copied-short name short) ∙ loaded) mapped
            ∙ ap (λ r. (r.0, set_mapped g.library hd.map_address (queue_file r.1))) r)

  put-fails :
      (bytes : List ℕ) (e : ℕ) {q' : Queue}
      → write_q q bytes (length bytes) none env.date ≡ (fail e, q')
      → Steps name g hd.map_address q (ask_write c env bytes)
  unfolding step
  put-fails bytes e w = record {
    after = _;
    goes = put-call bytes w ∙ goes_on _ running;
    running = running;
    subscriptions = refl;
    table = refl;
    mapped = mapped-set_mapped g.library hd.map_address _ ∙ ap (λ r. queue_file r.1) (sym w);
    answer = ap first_answer (drop-length g.server.send_queue _) ∙ ap (λ r. written r.0) (sym w);
  }

  put-puts :
      (bytes : List ℕ) {q' : Queue}
      → write_q q bytes (length bytes) none env.date ≡ (done tt, q')
      → Steps name g hd.map_address q (ask_write c env bytes)
  unfolding step
  put-puts bytes w =
      let request = writeq_request name (length bytes) in
      let replied = msg_send g.server (answer g.server c request 0 []) in
      let sends = notify_subscriber-Sends replied (copied name) (event_body request bytes) in
      let quiet =
        notify_subscriber-Goes replied (copied name) (event_body request bytes)
          (rw (copied-short name short) few) in
      record {
        after = _;
        goes = put-call bytes w ∙ goes_on _ (quiet.exited ∙ running);
        running = quiet.exited ∙ running;
        subscriptions = quiet.subscriptions;
        table = refl;
        mapped = mapped-set_mapped g.library hd.map_address _ ∙ ap (λ r. queue_file r.1) (sym w);
        answer =
            ap (λ queue. first_answer (drop (length g.server.send_queue) queue))
              (sends.sent ∙ append_assoc g.server.send_queue _ sends.more)
            ∙ ap first_answer (drop-length g.server.send_queue _)
            ∙ ap (λ r. written r.0) (sym w);
      }

  fetch-fails :
      (n e : ℕ) {q' : Queue}
      → read_q q n ≡ (fail e, q')
      → Steps name g hd.map_address q (ask_read c env n)
  unfolding step
  fetch-fails n e w = record {
    after = _;
    goes = fetch-call n w ∙ goes_on _ running;
    running = running;
    subscriptions = refl;
    table = refl;
    mapped = mapped-set_mapped g.library hd.map_address _ ∙ ap (λ r. queue_file r.1) (sym w);
    answer = ap first_answer (drop-length g.server.send_queue _) ∙ ap (λ r. taken r.0) (sym w);
  }

  fetch-takes :
      (n : ℕ) {r : Read} {q' : Queue}
      → read_q q n ≡ (done r, q')
      → length r.0 ≡ n
      → Steps name g hd.map_address q (ask_read c env n)
  unfolding step
  fetch-takes n {r} w same = record {
    after = _;
    goes = fetch-call n w ∙ goes_on _ running;
    running = running;
    subscriptions = refl;
    table = refl;
    mapped = mapped-set_mapped g.library hd.map_address _ ∙ ap (λ r. queue_file r.1) (sym w);
    answer =
        ap first_answer (drop-length g.server.send_queue _)
        ∙ ap (λ body. (0, body)) (filled n r.0 same)
        ∙ ap (λ r. taken r.0) (sym w);
  }
    where
      filled : (n : ℕ) (bytes : List ℕ) → length bytes ≡ n → in_buffer env n bytes ≡ bytes
      filled n bytes e =
          ap (λ k. collect (copy_in env.memory 0 bytes) 0 k) (sym e)
          ∙ collect-copy_in env.memory 0 bytes

pub demand-Steps :
    (name : List ℕ) (g : Gplat) (d : Demand) {hd : Handles} {q : Queue}
    → length name < 40
    → fetch_tab g.library.table name ≡ done hd
    → g.library.mapped hd.map_address ≡ queue_file q
    → g.server.exited ≡ false
    → length (get_subscriber g.server.subscriptions name) ≤ 500
    → IsBinary q
    → Steps name g hd.map_address q d
demand-Steps name g (ask_write c env bytes) {hd} {q} short loaded mapped running few v =
    elim (ℕ_discrete (length bytes) q.size) [
      | no ne ↦
          put-fails name short g c env loaded mapped running few bytes error_recordsize
            (write_wrong_size bytes none env.date v ne)
      | yes e ↦ elim (ℕ_discrete ((q.write_point + 1) % q.num) q.read_point) [
        | yes full ↦
            put-fails name short g c env loaded mapped running few bytes error_dq_full
              (write_full bytes none env.date v e full)
        | no room ↦
            put-puts name short g c env loaded mapped running few bytes
              (write_puts bytes none env.date v e room (omega arith))
      ]
    ]
demand-Steps name g (ask_read c env n) {hd} {q} short loaded mapped running few v =
    elim (ℕ_discrete n q.size) [
      | no ne ↦
          fetch-fails name short g c env loaded mapped running few n error_recordsize
            (read_wrong_size n v ne)
      | yes e ↦ elim (ℕ_discrete q.read_point q.write_point) [
        | yes none_left ↦
            fetch-fails name short g c env loaded mapped running few n error_dq_empty
              (read_empty n v e none_left)
        | no some_left ↦
            fetch-takes name short g c env loaded mapped running few n (read_takes n v e some_left)
              (v.bodies _ ∙ sym e)
      ]
    ]
