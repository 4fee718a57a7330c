-- ===== src/Server/Steps.antt =====
-- The server as it runs: a sequence of messages of clients, expired timers and closed connections.
use g_plat.Prelude.{
  ℕ, Bool, Option, none, some, List, [], ◌∷◌, ◌++◌, ltb, ◌==◌, if◌then◌else◌, length, take,
}
use g_plat.Subscribe.{Tag, EventNode, event_default, get_subscriber, get_plc_io_server}
use g_plat.Server.{
  Server, Message, Task, time_out, hand_over, event, notify_subscriber, notify_timer_subscriber,
  notify_plc_io_server,
}
use g_plat.Server.Handle.{
  handle_subscribe, handle_register_plc_server, handle_post_wait, expire, task_of, disconnect,
  get_one_to_use, put_one_to_free,
}
use g_plat.Server.Posts.{only_to}

pub data Step : Type 0 where
  subscribe : ℕ → Tag → List ℕ → ℕ → ℕ → Step
  register_plc : ℕ → Tag → Step
  post_wait : ℕ → Option ℕ → Step
  notify : Tag → List ℕ → Step
  notify_timer : Tag → List ℕ → Step
  notify_plc : Tag → List ℕ → Step
  expired : ℕ → Step
  left : ℕ → Bool → Step
  reused : ℕ → Step
  freed : ℕ → Step

abbrev pub step : Server → Step → Server
step s (subscribe c tag eventname eventid eventarg) =
    handle_subscribe s c tag eventname eventid eventarg
step s (register_plc c tag) = handle_register_plc_server s c tag
step s (post_wait c timeout) = handle_post_wait s c timeout
step s (notify tag body) = notify_subscriber s tag body
step s (notify_timer tag body) = notify_timer_subscriber s tag body
step s (notify_plc tag body) = notify_plc_io_server s tag body
step s (expired id) = expire s id
step s (left c closed) = disconnect s c closed
step s (reused c) = get_one_to_use s c
step s (freed c) = put_one_to_free s c

-- After exit nothing more happens.
abbrev pub run : Server → List Step → Server
run s [] = s
run s (st ∷ steps) = if s.exited then s else run (step s st) steps

-- The events that a notification makes for `c`, from the subscriptions alone.
abbrev pub node_events : Server → ℕ → Tag → List ℕ → List EventNode → List Message
node_events s c tag body [] = []
node_events s c tag body (node ∷ nodes) =
    let rest = node_events s c tag body nodes in
    if node.eventid == event_default
    then only_to c (event s node.subscriber tag body) ++ rest
    else rest

abbrev pub timer_events : Server → ℕ → List ℕ → List ℕ → List EventNode → List Message
timer_events s c itemname body [] = []
timer_events s c itemname body (node ∷ nodes) =
    only_to c (event s node.subscriber itemname body) ++ timer_events s c itemname body nodes

abbrev pub plc_events : Server → ℕ → Tag → List ℕ → Option ℕ → List Message
plc_events s c tag body none = []
plc_events s c tag body (some server) = only_to c (event s server tag body)

abbrev pub task_events : ℕ → Option Task → List Message
task_events c none = []
task_events c (some (time_out _)) = []
task_events c (some (hand_over m)) = only_to c m

-- The events for `c` that a step brings about.
abbrev pub made : Server → Step → ℕ → List Message
made s (notify tag body) c =
    let subscribers = get_subscriber s.subscriptions tag in
    if ltb 500 (length subscribers) then [] else node_events s c tag body subscribers
made s (notify_timer tag body) c =
    timer_events s c (take 39 tag) body (get_subscriber s.subscriptions tag)
made s (notify_plc tag body) c = plc_events s c tag body (get_plc_io_server s.subscriptions tag)
made s (expired id) c = task_events c (task_of id s.timers)
made s (subscribe _ _ _ _ _) c = []
made s (register_plc _ _) c = []
made s (post_wait _ _) c = []
made s (left _ _) c = []
made s (reused _) c = []
made s (freed _) c = []

abbrev pub made_all : Server → List Step → ℕ → List Message
made_all s [] c = []
made_all s (st ∷ steps) c = if s.exited then [] else made s st c ++ made_all (step s st) steps c
