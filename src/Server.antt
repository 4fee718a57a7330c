-- ===== src/Server.antt =====
-- How the server tells its clients of events: the connections of gplat/ngx_c_socket.h, SUBSCRIBE and
-- POSTWAIT, the notifications and the time limit, from gplat/ngx_c_slogic.cxx and ngx_c_socket.cxx.
pub mod Handle
pub mod Deliver
pub mod Posts
pub mod Steps
pub mod Fifo
pub mod Run
pub mod Delivery
pub mod Sample
mod Tests
pub mod Leaving
pub mod Answers
pub mod Sends
pub mod Goes
pub mod Timers
pub mod Delays
pub mod Delayed
pub mod Waiting
use g_plat.Prelude.{
  ℕ, ◌+◌, ◌*◌, Bool, true, false, not, ◌&&◌, Option, none, some, List, [], ◌∷◌, ◌++◌, ltb, ◌==◌,
  if◌then◌else◌, length, take, update,
}
use g_plat.Errors.{error_wait_timeout}
use g_plat.Subscribe.{
  Tag, EventNode, Subscriptions, event_default, event_post_delay, attach, detach, get_subscriber,
  attach_plc_io_server, detach_plc_io_server, get_plc_io_server,
}

-- What a buffer for the sending thread carries: the connection and its sequence number, the body, and
-- of the MSGHEAD what a client reads: `bodysize` is the length of the body. The replies to SUBSCRIBE,
-- REGISTERPLCSERVER and POSTWAIT repeat `timestamp` and `recsize` of the request, which are 0.
pub record Message : Type 0 where
  pub conn : ℕ
  pub sequence : ℕ
  pub id : ℕ
  pub itemname : List ℕ
  pub timestamp : ℕ
  pub recsize : ℕ
  pub error : ℕ
  pub body : List ℕ

abbrev pub subscribe_id : ℕ
subscribe_id = 42

abbrev pub post_id : ℕ
post_id = 44

abbrev pub post_wait_id : ℕ
post_wait_id = 45

abbrev pub register_plc_server_id : ℕ
register_plc_server_id = 49

-- The part of `ngx_connection_s` that deals with events.
pub record Connection : Type 0 where
  pub sequence : ℕ
  pub waiting_post : Bool
  pub waiting_timeout : Bool
  pub timer_id : Option ℕ
  pub list_tag : List Tag
  pub list_plc_tag : List Tag
  pub list_post : List Message

-- What a timer of `g_tm` runs: the end of a POSTWAIT, or the delivery of a delayed event.
pub data Task : Type 0 where
  time_out : ℕ → Task
  hand_over : Message → Task

pub record Timer : Type 0 where
  pub id : ℕ
  pub task : Task

-- The connections, CSubscribe, the queue of the sending thread, and `timers_` and `next_id_` of
-- TimerManager. `exited` is the call of exit.
pub record Server : Type 0 where
  pub conns : ℕ → Connection
  pub subscriptions : Subscriptions
  pub send_queue : List Message
  pub timers : List Timer
  pub next_id : ℕ
  pub exited : Bool

abbrev pub set_conn : Server → ℕ → Connection → Server
set_conn s c conn = record s { conns = update s.conns c conn }

abbrev pub msg_send : Server → Message → Server
msg_send s m = record s { send_queue = s.send_queue ++ m ∷ [] }

-- TimerManager::add_once and cancel, without the heap: in which order timers expire is left open.
abbrev pub add_once : Server → Task → Server
add_once s task = record s {
  timers = s.timers ++ record { id = s.next_id; task = task } ∷ [];
  next_id = s.next_id + 1;
}

abbrev pub without_timer : ℕ → List Timer → List Timer
without_timer id [] = []
without_timer id (timer ∷ timers) =
    let rest = without_timer id timers in if timer.id == id then rest else timer ∷ rest

abbrev pub stop_timer : Server → Option ℕ → Server
stop_timer s none = s
stop_timer s (some id) = record s { timers = without_timer id s.timers }

-- `if (m_bWaitingTimeout) { m_bWaitingTimeout = false; StopTimeoutTimer(); }`
abbrev pub end_timeout : Server → ℕ → Server
end_timeout s c =
    let conn = s.conns c in
    if conn.waiting_timeout
    then stop_timer (set_conn s c (record conn { waiting_timeout = false })) conn.timer_id
    else s

-- The part that all notifications share: to the client if it waits, or behind the other events.
abbrev pub send_or_keep : Server → ℕ → Message → Server
send_or_keep s c m =
    let conn = s.conns c in
    if conn.waiting_post
    then msg_send (set_conn s c (record conn { waiting_post = false })) m
    else set_conn s c (record conn { list_post = conn.list_post ++ m ∷ [] })

pub deliver : Server → Message → Server
deliver s m = send_or_keep (end_timeout s m.conn) m.conn m

abbrev pub event : Server → ℕ → List ℕ → List ℕ → Message
event s c itemname body = record {
  conn = c;
  sequence = (s.conns c).sequence;
  id = post_id;
  itemname = itemname;
  timestamp = 0;
  recsize = 0;
  error = 0;
  body = body;
}

-- One round of the loop in NotifySubscriber.
abbrev pub notify_node : Server → Tag → List ℕ → EventNode → Server
notify_node s tag body node =
    if node.eventid == event_default
    then deliver s (event s node.subscriber tag body)
    else if node.eventid == event_post_delay
    then add_once s (hand_over (event s node.subscriber node.eventname body))
    else s

pub notify_nodes : Server → Tag → List ℕ → List EventNode → Server
notify_nodes s tag body [] = s
notify_nodes s tag body (node ∷ nodes) = notify_nodes (notify_node s tag body node) tag body nodes

pub notify_subscriber : Server → Tag → List ℕ → Server
notify_subscriber s tag body =
    let subscribers = get_subscriber s.subscriptions tag in
    if ltb 500 (length subscribers)
    then record s { exited = true }
    else notify_nodes s tag body subscribers

pub notify_timer_nodes : Server → List ℕ → List ℕ → List EventNode → Server
notify_timer_nodes s itemname body [] = s
notify_timer_nodes s itemname body (node ∷ nodes) =
    notify_timer_nodes (deliver s (event s node.subscriber itemname body)) itemname body nodes

-- `itemname` is cut to 39 bytes.
pub notify_timer_subscriber : Server → Tag → List ℕ → Server
notify_timer_subscriber s timer_name body =
    notify_timer_nodes s (take 39 timer_name) body (get_subscriber s.subscriptions timer_name)

pub notify_plc_io_server : Server → Tag → List ℕ → Server
notify_plc_io_server s tag body = elim (get_plc_io_server s.subscriptions tag) [
  | none ↦ s
  | some c ↦ deliver s (event s c tag body)
]
