-- ===== src/Server/Goes.antt =====
-- A notification leaves the subscriptions alone, and ends the process only for too many subscribers.
use g_plat.Prelude.{
  ℕ, ◌≡◌, ◌≤◌, refl, ◌∙◌, Bool, true, false, List, [], ◌∷◌, arith, if◌then◌else◌, length, ◌==◌,
  Option, none, some,
}
use g_plat.Subscribe.{Tag, EventNode, event_default, event_post_delay, get_subscriber}
use g_plat.Server.{
  Server, Message, deliver, notify_node, notify_nodes, notify_subscriber, stop_timer, end_timeout,
}

pub record Goes (s s' : Server) : Type 0 where
  pub exited : s'.exited ≡ s.exited
  pub subscriptions : s'.subscriptions ≡ s.subscriptions

Goes-if : (b : Bool) (s x y : Server) → Goes s x → Goes s y → Goes s (if b then x else y)
Goes-if true s x y h k = h
Goes-if false s x y h k = k

Goes-then : {s s' s'' : Server} → Goes s s' → Goes s' s'' → Goes s s''
Goes-then x y = record {
  exited = y.exited ∙ x.exited;
  subscriptions = y.subscriptions ∙ x.subscriptions;
}

same-Goes : (s : Server) → Goes s s
same-Goes s = record { exited = refl; subscriptions = refl }

stop_timer-Goes : (s s' : Server) (o : Option ℕ) → Goes s s' → Goes s (stop_timer s' o)
stop_timer-Goes s s' none g = g
stop_timer-Goes s s' (some id) g = record { exited = g.exited; subscriptions = g.subscriptions }

deliver-Goes : (s : Server) (m : Message) → Goes s (deliver s m)
unfolding deliver
deliver-Goes s m =
    let s' = end_timeout s m.conn in
    Goes-then {s' = s'}
      (Goes-if (s.conns m.conn).waiting_timeout s _ s
        (stop_timer-Goes s _ (s.conns m.conn).timer_id
          (record { exited = refl; subscriptions = refl }))
        (same-Goes s))
      (Goes-if (s'.conns m.conn).waiting_post s' _ _
        (record { exited = refl; subscriptions = refl })
        (record { exited = refl; subscriptions = refl }))

notify_node-Goes :
    (s : Server) (tag : Tag) (body : List ℕ) (node : EventNode)
    → Goes s (notify_node s tag body node)
notify_node-Goes s tag body node =
    Goes-if (node.eventid == event_default) s _ _ (deliver-Goes s _) (
      Goes-if (node.eventid == event_post_delay) s _ s
        (record { exited = refl; subscriptions = refl }) (same-Goes s))

notify_nodes-Goes :
    (s : Server) (tag : Tag) (body : List ℕ) (nodes : List EventNode)
    → Goes s (notify_nodes s tag body nodes)
unfolding notify_nodes
notify_nodes-Goes s tag body [] = same-Goes s
notify_nodes-Goes s tag body (node ∷ nodes) =
    Goes-then (notify_node-Goes s tag body node)
      (notify_nodes-Goes (notify_node s tag body node) tag body nodes)

pub notify_subscriber-Goes :
    (s : Server) (tag : Tag) (body : List ℕ)
    → length (get_subscriber s.subscriptions tag) ≤ 500
    → Goes s (notify_subscriber s tag body)
unfolding notify_subscriber
notify_subscriber-Goes s tag body few =
    ground (arith, few, notify_nodes-Goes s tag body (get_subscriber s.subscriptions tag))
