-- ===== src/Server/Sends.antt =====
-- A notification puts its messages behind those that are there.
use g_plat.Prelude.{
  ℕ, ◌≡◌, refl, sym, ap, ◌∙◌, Bool, true, false, List, [], ◌∷◌, ◌++◌, append-nil, if◌then◌else◌,
  length, ltb, ◌==◌,
}
use mathlib.Core.List.{append_assoc}
use g_plat.Subscribe.{Tag, EventNode, event_default, event_post_delay, get_subscriber}
use g_plat.Server.{
  Server, Message, hand_over, add_once, deliver, event, notify_node, notify_nodes,
  notify_subscriber,
}
use g_plat.Server.Deliver.{deliver-send_queue}

-- The messages of `s'` are those of `s` and more.
pub record Sends (s s' : Server) : Type 0 where
  pub more : List Message
  pub sent : s'.send_queue ≡ s.send_queue ++ more

pub Sends-same : (s s' : Server) → s'.send_queue ≡ s.send_queue → Sends s s'
Sends-same s s' e = record { more = []; sent = e ∙ sym (append-nil s.send_queue) }

Sends-then : (s s' s'' : Server) → Sends s s' → Sends s' s'' → Sends s s''
Sends-then s s' s'' x y = record {
  more = x.more ++ y.more;
  sent = y.sent ∙ ap (λ q. q ++ y.more) x.sent ∙ append_assoc s.send_queue x.more y.more;
}

if-sends :
    (b : Bool) (queue : List Message) (m : Message)
    → (more : List Message) × ((if b then queue ++ m ∷ [] else queue) ≡ queue ++ more)
if-sends true queue m = (m ∷ [], refl)
if-sends false queue m = ([], sym (append-nil queue))

deliver-Sends : (s : Server) (m : Message) → Sends s (deliver s m)
deliver-Sends s m =
    let (more, e) = if-sends (s.conns m.conn).waiting_post s.send_queue m in
    record { more = more; sent = deliver-send_queue s m ∙ e }

pub Sends-if : (b : Bool) (s x y : Server) → Sends s x → Sends s y → Sends s (if b then x else y)
Sends-if true s x y h k = h
Sends-if false s x y h k = k

notify_node-Sends :
    (s : Server) (tag : Tag) (body : List ℕ) (node : EventNode)
    → Sends s (notify_node s tag body node)
notify_node-Sends s tag body node =
    let delayed = add_once s (hand_over (event s node.subscriber node.eventname body)) in
    let now = event s node.subscriber tag body in
    Sends-if (node.eventid == event_default) s (deliver s now)
      (if node.eventid == event_post_delay then delayed else s) (deliver-Sends s now)
      (Sends-if (node.eventid == event_post_delay) s delayed s (Sends-same s delayed refl)
        (Sends-same s s refl))

notify_nodes-Sends :
    (s : Server) (tag : Tag) (body : List ℕ) (nodes : List EventNode)
    → Sends s (notify_nodes s tag body nodes)
unfolding notify_nodes
notify_nodes-Sends s tag body [] = Sends-same s s refl
notify_nodes-Sends s tag body (node ∷ nodes) =
    Sends-then s (notify_node s tag body node) _ (notify_node-Sends s tag body node)
      (notify_nodes-Sends (notify_node s tag body node) tag body nodes)

pub notify_subscriber-Sends :
    (s : Server) (tag : Tag) (body : List ℕ) → Sends s (notify_subscriber s tag body)
unfolding notify_subscriber
notify_subscriber-Sends s tag body =
    let nodes = get_subscriber s.subscriptions tag in
    let stopped : Server = record s { exited = true } in
    Sends-if (ltb 500 (length nodes)) s stopped (notify_nodes s tag body nodes)
      (Sends-same s stopped refl) (notify_nodes-Sends s tag body nodes)
