-- ===== src/Server/Fifo.antt =====
-- No event is lost, sent twice or overtaken, on any run of the server.
use g_plat.Prelude.{
  ℕ, ◌≡◌, refl, sym, ap, ap₂, ◌∙◌, Bool, true, false, List, [], ◌∷◌, ◌++◌, append-nil, ◌==◌,
  if◌then◌else◌, Bool-cases, inl, inr,
}
use mathlib.Core.List.{append_assoc}
use g_plat.Subscribe.{Tag, EventNode, event_default, event_post_delay}
use g_plat.Server.{
  Server, Message, Timer, Task, hand_over, post_id, deliver, event, add_once, notify_node,
  notify_nodes, notify_timer_nodes,
}
use g_plat.Server.Deliver.{deliver-sequence}
use g_plat.Server.Posts.{
  events_for, only_to, AllHand, Hands, IsOrderly, deliver-IsOrderly, deliver-events,
}
use g_plat.Server.Steps.{node_events, timer_events}

-- What is known of a server behind another one, when events have been made.
pub record Follows (s s' : Server) (new : ℕ → List Message) : Type 0 where
  pub orderly : IsOrderly s'
  pub events : (c : ℕ) → events_for s' c ≡ events_for s c ++ new c
  pub sequences : (c : ℕ) → (s'.conns c).sequence ≡ (s.conns c).sequence

pub deliver-Follows :
    (s : Server) (m : Message)
    → IsOrderly s
    → m.id ≡ post_id
    → Follows s (deliver s m) (λ c. only_to c m)
deliver-Follows s m v post = record {
  orderly = deliver-IsOrderly s m v post;
  events = deliver-events s m v post;
  sequences = deliver-sequence s m;
}

pub Follows-same : (s : Server) → IsOrderly s → Follows s s (λ c. [])
Follows-same s v = record {
  orderly = v;
  events = λ c. sym (append-nil (events_for s c));
  sequences = λ c. refl;
}

pub append-AllHand : (xs ys : List Timer) → AllHand xs → AllHand ys → AllHand (xs ++ ys)
append-AllHand [] ys a b = b
append-AllHand (x ∷ xs) ys a b = (a.0, append-AllHand xs ys a.1 b)

add_once-Follows :
    (s : Server) (task : Task) → IsOrderly s → Hands task → Follows s (add_once s task) (λ c. [])
add_once-Follows s task v h = record {
  orderly = record {
    own = v.own;
    waiting = v.waiting;
    limited = v.limited;
    hands = append-AllHand s.timers _ v.hands (h, tt);
  };
  events = λ c. sym (append-nil (events_for s c));
  sequences = λ c. refl;
}

Follows-then :
    {s s' s'' : Server} {x y : ℕ → List Message}
    → Follows s s' x
    → Follows s' s'' y
    → Follows s s'' (λ c. x c ++ y c)
Follows-then {s} {s'} {s''} {x} {y} f g = record {
  orderly = g.orderly;
  events =
      λ c. g.events c ∙ ap (λ e. e ++ y c) (f.events c) ∙ append_assoc (events_for s c) (x c) (y c);
  sequences = λ c. g.sequences c ∙ f.sequences c;
}

-- The message of an event depends on the sequence number of its connection only.
pub event-same :
    (s s' : Server) (c : ℕ) (itemname body : List ℕ)
    → (s'.conns c).sequence ≡ (s.conns c).sequence
    → event s' c itemname body ≡ event s c itemname body
event-same s s' c itemname body e =
    ap
      (λ n. record {
        conn = c;
        sequence = n;
        id = post_id;
        itemname = itemname;
        timestamp = 0;
        recsize = 0;
        error = 0;
        body = body;
      })
      e

pub Follows-new :
    {s s' : Server} (x y : ℕ → List Message)
    → ((c : ℕ) → x c ≡ y c)
    → Follows s s' x
    → Follows s s' y
Follows-new {s} x y h f = record {
  orderly = f.orderly;
  events = λ c. f.events c ∙ ap (λ e. events_for s c ++ e) (h c);
  sequences = f.sequences;
}

node_events-same :
    (s s' : Server) (c : ℕ) (tag : Tag) (body : List ℕ) (nodes : List EventNode)
    → ((i : ℕ) → (s'.conns i).sequence ≡ (s.conns i).sequence)
    → node_events s' c tag body nodes ≡ node_events s c tag body nodes
node_events-same s s' c tag body [] h = refl
node_events-same s s' c tag body (node ∷ nodes) h =
    ap₂ (λ e rest. if node.eventid == event_default then only_to c e ++ rest else rest)
      (event-same s s' node.subscriber tag body (h node.subscriber))
      (node_events-same s s' c tag body nodes h)

timer_events-same :
    (s s' : Server) (c : ℕ) (itemname body : List ℕ) (nodes : List EventNode)
    → ((i : ℕ) → (s'.conns i).sequence ≡ (s.conns i).sequence)
    → timer_events s' c itemname body nodes ≡ timer_events s c itemname body nodes
timer_events-same s s' c itemname body [] h = refl
timer_events-same s s' c itemname body (node ∷ nodes) h =
    ap₂ (λ e rest. only_to c e ++ rest)
      (event-same s s' node.subscriber itemname body (h node.subscriber))
      (timer_events-same s s' c itemname body nodes h)

notify_node-Follows :
    (s : Server) (tag : Tag) (body : List ℕ) (node : EventNode)
    → IsOrderly s
    → Follows s (notify_node s tag body node) (λ c.
      if node.eventid == event_default then only_to c (event s node.subscriber tag body) else [])
notify_node-Follows s tag body node v = elim (Bool-cases (node.eventid == event_default)) [
  | inl e ↦ rw e (deliver-Follows s (event s node.subscriber tag body) v refl)
  | inr e ↦ rw e (elim (Bool-cases (node.eventid == event_post_delay)) [
    | inl d ↦
        rw d (add_once-Follows s (hand_over (event s node.subscriber node.eventname body)) v refl)
    | inr d ↦ rw d (Follows-same s v)
  ])
]

if-append :
    (b : Bool) (xs ys : List Message) → (if b then xs else []) ++ ys ≡ (if b then xs ++ ys else ys)
if-append true xs ys = refl
if-append false xs ys = refl

pub notify_nodes-Follows :
    (s : Server) (tag : Tag) (body : List ℕ) (nodes : List EventNode)
    → IsOrderly s
    → Follows s (notify_nodes s tag body nodes) (λ c. node_events s c tag body nodes)
unfolding notify_nodes
notify_nodes-Follows s tag body [] v = Follows-same s v
notify_nodes-Follows s tag body (node ∷ nodes) v =
    let f = notify_node-Follows s tag body node v in
    let s' : Server = notify_node s tag body node in
    Follows-new _ _
      (λ c.
        if-append (node.eventid == event_default) (only_to c (event s node.subscriber tag body))
          (node_events s' c tag body nodes)
        ∙ ap
            (λ rest.
              if node.eventid == event_default
              then only_to c (event s node.subscriber tag body) ++ rest
              else rest)
            (node_events-same s s' c tag body nodes f.sequences))
      (Follows-then f (notify_nodes-Follows s' tag body nodes f.orderly))

pub notify_timer_nodes-Follows :
    (s : Server) (itemname body : List ℕ) (nodes : List EventNode)
    → IsOrderly s
    → Follows s
        (notify_timer_nodes s itemname body nodes)
        (λ c. timer_events s c itemname body nodes)
unfolding notify_timer_nodes
notify_timer_nodes-Follows s itemname body [] v = Follows-same s v
notify_timer_nodes-Follows s itemname body (node ∷ nodes) v =
    let f = deliver-Follows s (event s node.subscriber itemname body) v refl in
    let s' : Server = deliver s (event s node.subscriber itemname body) in
    Follows-new _ _
      (λ c.
        ap (λ rest. only_to c (event s node.subscriber itemname body) ++ rest)
          (timer_events-same s s' c itemname body nodes f.sequences))
      (Follows-then f (notify_timer_nodes-Follows s' itemname body nodes f.orderly))
