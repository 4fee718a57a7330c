-- ===== src/Server/Delayed.antt =====
-- The delayed events that a run of the server makes, and those whose timers expire.
use g_plat.Prelude.{
  ℕ, ◌+◌, Bool, Option, none, some, List, [], ◌∷◌, ltb, ◌==◌, if◌then◌else◌, length,
}
use g_plat.Subscribe.{EventNode, event_post_delay, get_subscriber}
use g_plat.Server.{Server, Message, Task, event}
use g_plat.Server.Handle.{task_of}
use g_plat.Server.Steps.{
  Step, step, subscribe, register_plc, post_wait, notify, notify_timer, notify_plc, expired, left,
  reused, freed,
}
use g_plat.Server.Timers.{one}

-- The delayed events that a notification makes, from the subscriptions alone.
abbrev pub delay_of : (Message → Bool) → Server → List ℕ → EventNode → ℕ
delay_of p s body node =
    if node.eventid == event_post_delay
    then (if p (event s node.subscriber node.eventname body) then 1 else 0)
    else 0

abbrev pub node_delays : (Message → Bool) → Server → List ℕ → List EventNode → ℕ
node_delays p s body [] = 0
node_delays p s body (node ∷ nodes) = delay_of p s body node + node_delays p s body nodes

-- How many of the delayed events that a step makes are among those that `p` picks out.
abbrev pub delayed : (Message → Bool) → Server → Step → ℕ
delayed p s (notify tag body) =
    let subscribers = get_subscriber s.subscriptions tag in
    if ltb 500 (length subscribers) then 0 else node_delays p s body subscribers
delayed p s (notify_timer _ _) = 0
delayed p s (notify_plc _ _) = 0
delayed p s (expired _) = 0
delayed p s (subscribe _ _ _ _ _) = 0
delayed p s (register_plc _ _) = 0
delayed p s (post_wait _ _) = 0
delayed p s (left _ _) = 0
delayed p s (reused _) = 0
delayed p s (freed _) = 0

abbrev pub one_of : (Message → Bool) → Option Task → ℕ
one_of p none = 0
one_of p (some task) = one p task

-- How many of them a step takes from their timers.
abbrev pub handed : (Message → Bool) → Server → Step → ℕ
handed p s (expired id) = one_of p (task_of id s.timers)
handed p s (notify _ _) = 0
handed p s (notify_timer _ _) = 0
handed p s (notify_plc _ _) = 0
handed p s (subscribe _ _ _ _ _) = 0
handed p s (register_plc _ _) = 0
handed p s (post_wait _ _) = 0
handed p s (left _ _) = 0
handed p s (reused _) = 0
handed p s (freed _) = 0

abbrev pub delayed_all : (Message → Bool) → Server → List Step → ℕ
delayed_all p s [] = 0
delayed_all p s (st ∷ steps) =
    if s.exited then 0 else delayed p s st + delayed_all p (step s st) steps

abbrev pub handed_all : (Message → Bool) → Server → List Step → ℕ
handed_all p s [] = 0
handed_all p s (st ∷ steps) = if s.exited then 0 else handed p s st + handed_all p (step s st) steps
