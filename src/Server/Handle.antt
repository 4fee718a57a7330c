-- ===== src/Server/Handle.antt =====
-- The handlers of SUBSCRIBE, REGISTERPLCSERVER and POSTWAIT, timers that expire, and the end and the
-- reuse of a connection.
use g_plat.Prelude.{
  ℕ, ◌+◌, Bool, true, false, Option, none, some, List, [], ◌∷◌, ◌++◌, ◌==◌, if◌then◌else◌,
}
use g_plat.Errors.{error_wait_timeout}
use g_plat.Subscribe.{
  Tag, EventNode, Subscriptions, attach, detach, attach_plc_io_server, detach_plc_io_server,
}
use g_plat.Server.{
  time_out, hand_over, Message, subscribe_id, post_wait_id, register_plc_server_id, Task, Timer,
  Server, set_conn, msg_send, add_once, without_timer, end_timeout, deliver,
}

abbrev pub reply : Server → ℕ → ℕ → List ℕ → ℕ → Message
reply s c id itemname error = record {
  conn = c;
  sequence = (s.conns c).sequence;
  id = id;
  itemname = itemname;
  timestamp = 0;
  recsize = 0;
  error = error;
  body = [];
}

unfoldable pub handle_subscribe : Server → ℕ → Tag → List ℕ → ℕ → ℕ → Server
handle_subscribe s c tag eventname eventid eventarg =
    let conn = s.conns c in
    let s' = set_conn s c (record conn { list_tag = conn.list_tag ++ tag ∷ [] }) in
    let node : EventNode = record {
      subscriber = c;
      eventname = eventname;
      eventid = eventid;
      eventarg = eventarg;
    } in
    msg_send (record s' { subscriptions = attach s.subscriptions tag node })
      (reply s c subscribe_id tag 0)

unfoldable pub handle_register_plc_server : Server → ℕ → Tag → Server
handle_register_plc_server s c tag =
    let conn = s.conns c in
    let s' = set_conn s c (record conn { list_plc_tag = conn.list_plc_tag ++ tag ∷ [] }) in
    msg_send (record s' { subscriptions = attach_plc_io_server s.subscriptions tag c })
      (reply s c register_plc_server_id tag 0)

-- StartTimeoutTimer
abbrev pub start_timeout_timer : Server → ℕ → Server
start_timeout_timer s c =
    set_conn (add_once s (time_out c)) c (record (s.conns c) { timer_id = some s.next_id })

-- The case of an empty list in HandlePostWait; `none` is a timeout of -1.
abbrev pub start_waiting : Server → ℕ → Option ℕ → Server
start_waiting s c none =
    set_conn s c (record (s.conns c) { waiting_post = true; waiting_timeout = false })
start_waiting s c (some timeout) =
    if timeout == 0
    then msg_send
        (set_conn s c (record (s.conns c) { waiting_post = false; waiting_timeout = false }))
        (reply s c post_wait_id [] error_wait_timeout)
    else start_timeout_timer
        (set_conn s c (record (s.conns c) { waiting_post = true; waiting_timeout = true })) c

abbrev pub take_post : Server → ℕ → Option ℕ → List Message → Server
take_post s c timeout [] = start_waiting s c timeout
take_post s c timeout (m ∷ posts) =
    msg_send (set_conn s c (record (s.conns c) { waiting_post = false; list_post = posts })) m

unfoldable pub handle_post_wait : Server → ℕ → Option ℕ → Server
handle_post_wait s c timeout = take_post s c timeout (s.conns c).list_post

-- The callbacks of the two kinds of timers.
abbrev pub run_task : Server → Task → Server
run_task s (time_out c) =
    let conn = s.conns c in
    if conn.waiting_timeout
    then msg_send (set_conn s c (record conn { waiting_post = false; waiting_timeout = false }))
        (reply s c post_wait_id [] error_wait_timeout)
    else s
run_task s (hand_over m) = deliver s m

abbrev pub task_of : ℕ → List Timer → Option Task
task_of id [] = none
task_of id (timer ∷ timers) = if timer.id == id then some timer.task else task_of id timers

-- The timer `id` expires.
unfoldable pub expire : Server → ℕ → Server
expire s id = elim (task_of id s.timers) [
  | none ↦ s
  | some task ↦ run_task (record s { timers = without_timer id s.timers }) task
]

abbrev pub detach_tags : Subscriptions → ℕ → List Tag → Subscriptions
detach_tags s c [] = s
detach_tags s c (tag ∷ tags) = detach_tags (detach s tag c) c tags

abbrev pub detach_plc_tags : Subscriptions → ℕ → List Tag → Subscriptions
detach_plc_tags s c [] = s
detach_plc_tags s c (tag ∷ tags) = detach_plc_tags (detach_plc_io_server s tag c) c tags

unfoldable pub cancel_subscribe : Server → ℕ → Server
cancel_subscribe s c =
    let conn = s.conns c in
    let subscriptions =
      detach_plc_tags (detach_tags s.subscriptions c conn.list_tag) c conn.list_plc_tag in
    set_conn (record s { subscriptions = subscriptions }) c
      (record conn { list_tag = []; list_plc_tag = [] })

abbrev pub in_recy_connect_queue : Server → ℕ → Server
in_recy_connect_queue s c =
    set_conn s c (record (s.conns c) { sequence = (s.conns c).sequence + 1 })

-- What ngx_read_request_handler does when recv gives no bytes; `closed` unless it was EAGAIN or
-- EINTR.
unfoldable pub disconnect : Server → ℕ → Bool → Server
disconnect s c closed =
    end_timeout (cancel_subscribe (if closed then in_recy_connect_queue s c else s) c) c

-- The connection is used for another client: what is not assigned keeps its value.
unfoldable pub get_one_to_use : Server → ℕ → Server
get_one_to_use s c =
    let conn = s.conns c in
    set_conn s c (record conn {
      sequence = conn.sequence + 1;
      waiting_post = false;
      waiting_timeout = false;
      timer_id = none;
    })

unfoldable pub put_one_to_free : Server → ℕ → Server
put_one_to_free s c =
    let conn = s.conns c in
    set_conn s c (record conn { sequence = conn.sequence + 1; list_tag = []; list_plc_tag = [] })
