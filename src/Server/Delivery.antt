-- ===== src/Server/Delivery.antt =====
-- Any run of the server: every event reaches its client once and in order, or is still kept for it.
use g_plat.Prelude.{
  ℕ, ◌+◌, ◌≡◌, refl, sym, ap, subst, ◌∙◌, Bool, true, false, Option, none, some, List, [], ◌∷◌,
  ◌++◌, append-nil, arith, ltb, ◌==◌, if◌then◌else◌, Bool-cases, inl, inr, length, take,
}
use mathlib.Core.List.{append_assoc}
use g_plat.Subscribe.{Tag, get_subscriber, get_plc_io_server}
use g_plat.Server.{
  Server, Message, Timer, Task, time_out, hand_over, event, notify_subscriber,
  notify_timer_subscriber, notify_plc_io_server, without_timer,
}
use g_plat.Server.Handle.{handle_post_wait, expire, run_task, task_of}
use g_plat.Server.Posts.{events_for, AllHand, Hands, IsOrderly, without_timer-AllHand}
use g_plat.Server.Steps.{
  Step, step, run, node_events, plc_events, task_events, made, made_all, subscribe, register_plc,
  post_wait, notify, notify_timer, notify_plc, expired, left, reused, freed,
}
use g_plat.Server.Timers.{pending}
use g_plat.Server.Delays.{IsTimed}
use g_plat.Server.Delayed.{delayed_all, handed_all}
use g_plat.Server.Waiting.{run-Delays}
use g_plat.Server.Fifo.{
  Follows-same, deliver-Follows, notify_nodes-Follows, notify_timer_nodes-Follows,
}
use g_plat.Server.Run.{
  Grows, grown, quiet, subscribe-Grows, register-Grows, reused-Grows, freed-Grows, left-Grows,
  take-Grows, reply-events,
}

pub task_of-Hands :
    (id : ℕ) (timers : List Timer) (task : Task)
    → AllHand timers
    → task_of id timers ≡ some task
    → Hands task
task_of-Hands id [] task a e = absurd (cc e)
task_of-Hands id (timer ∷ timers) task a e = elim (Bool-cases (timer.id == id)) [
  | inl h ↦ subst Hands (cc (rw h at e)) a.0
  | inr h ↦ task_of-Hands id timers task a.1 (rw h at e)
]

Grows-new :
    {s s' : Server} (x y : ℕ → List Message) → ((c : ℕ) → x c ≡ y c) → Grows s s' x → Grows s s' y
Grows-new {s} x y h g = record {
  orderly = g.orderly;
  events = λ c. g.events c ∙ ap (λ e. events_for s c ++ e) (h c);
}

task-Grows :
    (s : Server) (task : Task)
    → IsOrderly s
    → Hands task
    → Grows s (run_task s task) (λ c. task_events c (some task))
task-Grows s (hand_over m) v h = grown (deliver-Follows s m v h)
task-Grows s (time_out c) v h = elim (Bool-cases (s.conns c).waiting_timeout) [
  | inl e ↦ rw e (
      quiet s _ c _ v (λ i. refl) refl (λ g. cc) (λ g. cc) v.hands
        (λ i. reply-events i s.send_queue _ (omega arith)))
  | inr e ↦ rw e (grown (Follows-same s v))
]

expire-Grows : (s : Server) (id : ℕ) → IsOrderly s → Grows s (expire s id) (made s (expired id))
unfolding expire
expire-Grows s id v = go (task_of id s.timers) refl
  where
    go : (o : Option Task) → task_of id s.timers ≡ o → Grows s (expire s id) (made s (expired id))
    go none e =
        Grows-new (λ c. []) (made s (expired id)) (λ c. ap (task_events c) (sym e))
          (rw (e, expire) (grown (Follows-same s v)))
    go (some task) e =
        let s' : Server = record s { timers = without_timer id s.timers } in
        let v' : IsOrderly s' = record {
          own = v.own;
          waiting = v.waiting;
          limited = v.limited;
          hands = without_timer-AllHand id s.timers v.hands;
        } in
        let g = task-Grows s' task v' (task_of-Hands id s.timers task v.hands e) in
        Grows-new (λ c. task_events c (some task)) (made s (expired id))
          (λ c. ap (task_events c) (sym e))
          (rw (e, expire) (record { orderly = g.orderly; events = g.events }))

notify-Grows :
    (s : Server) (tag : Tag) (body : List ℕ)
    → IsOrderly s
    → Grows s (notify_subscriber s tag body) (made s (notify tag body))
unfolding notify_subscriber
notify-Grows s tag body v =
    elim (Bool-cases (ltb 500 (length (get_subscriber s.subscriptions tag)))) [
      | inl e ↦
          Grows-new (λ c. []) (made s (notify tag body))
            (λ c.
              ap
                (λ b.
                  if b then [] else node_events s c tag body (get_subscriber s.subscriptions tag))
                (sym e))
            (rw e (record {
              orderly = record {
                own = v.own;
                waiting = v.waiting;
                limited = v.limited;
                hands = v.hands;
              };
              events = λ c. sym (append-nil (events_for s c));
            }))
      | inr e ↦
          Grows-new (λ c. node_events s c tag body (get_subscriber s.subscriptions tag))
            (made s (notify tag body))
            (λ c.
              ap
                (λ b.
                  if b then [] else node_events s c tag body (get_subscriber s.subscriptions tag))
                (sym e))
            (rw e (grown (notify_nodes-Follows s tag body (get_subscriber s.subscriptions tag) v)))
    ]

plc-Grows :
    (s : Server) (tag : Tag) (body : List ℕ)
    → IsOrderly s
    → Grows s (notify_plc_io_server s tag body) (made s (notify_plc tag body))
unfolding notify_plc_io_server
plc-Grows s tag body v = go (get_plc_io_server s.subscriptions tag) refl
  where
    go :
        (o : Option ℕ)
        → get_plc_io_server s.subscriptions tag ≡ o
        → Grows s (notify_plc_io_server s tag body) (made s (notify_plc tag body))
    go none e =
        Grows-new (λ c. []) (made s (notify_plc tag body))
          (λ c. ap (plc_events s c tag body) (sym e))
          (rw (e, notify_plc_io_server) (grown (Follows-same s v)))
    go (some c) e =
        Grows-new (λ i. plc_events s i tag body (some c)) (made s (notify_plc tag body))
          (λ i. ap (plc_events s i tag body) (sym e))
          (rw (e, notify_plc_io_server) (grown (deliver-Follows s (event s c tag body) v refl)))

pub step-Grows : (s : Server) (st : Step) → IsOrderly s → Grows s (step s st) (made s st)
unfolding notify_timer_subscriber handle_post_wait
step-Grows s (subscribe c tag eventname eventid eventarg) v =
    subscribe-Grows s c tag eventname eventid eventarg v
step-Grows s (register_plc c tag) v = register-Grows s c tag v
step-Grows s (post_wait c timeout) v = take-Grows s c timeout (s.conns c).list_post refl v
step-Grows s (notify tag body) v = notify-Grows s tag body v
step-Grows s (notify_timer tag body) v =
    grown (notify_timer_nodes-Follows s (take 39 tag) body (get_subscriber s.subscriptions tag) v)
step-Grows s (notify_plc tag body) v = plc-Grows s tag body v
step-Grows s (expired id) v = expire-Grows s id v
step-Grows s (left c closed) v = left-Grows s c closed v
step-Grows s (reused c) v = reused-Grows s c v
step-Grows s (freed c) v = freed-Grows s c v

both_if :
    (b : Bool) (P : Server → List Message → Type 0) {x y : Server} {xs ys : List Message}
    → P x xs
    → P y ys
    → P (if b then x else y) (if b then xs else ys)
both_if true P h g = h
both_if false P h g = g

run-Grows :
    (s : Server) (steps : List Step) (c : ℕ)
    → IsOrderly s
    → (events_for (run s steps) c ≡ events_for s c ++ made_all s steps c) × IsOrderly (run s steps)
run-Grows s [] c v = (sym (append-nil (events_for s c)), v)
run-Grows s (st ∷ steps) c v =
    let g = step-Grows s st v in
    let rest = run-Grows (step s st) steps c g.orderly in
    both_if s.exited (λ x xs. (events_for x c ≡ events_for s c ++ xs) × IsOrderly x)
      (sym (append-nil (events_for s c)), v)
      (
        rest.0
            ∙ ap (λ x. x ++ made_all (step s st) steps c) (g.events c)
            ∙ append_assoc (events_for s c) (made s st c) (made_all (step s st) steps c),
        rest.1,
      )

-- On any run from an orderly server, for every connection: the events handed to the sending thread,
-- followed by those that are kept for the connection, are those of the start followed by the events
-- that the steps make for it, each once and in the order in which they were made; and the server is
-- orderly again, so that a client that waits has no event kept. A delayed event is made for the
-- connection when its timer expires. If the timers of the start have numbers of their own, of which
-- no connection keeps a delayed event's, then the same holds at the end, and of the delayed events of
-- any kind, those that wait at the end and those whose timers expired are together those that waited
-- at the start and those that the notifications made.
pub run-events :
    (p : Message → Bool) (s : Server) (steps : List Step) (c : ℕ)
    → IsOrderly s
    → IsTimed s
    → (events_for (run s steps) c ≡ events_for s c ++ made_all s steps c)
      × IsOrderly (run s steps)
      × IsTimed (run s steps)
      × (pending p (run s steps).timers + handed_all p s steps
          ≡ pending p s.timers + delayed_all p s steps)
run-events p s steps c v timed =
    let (events, orderly) = run-Grows s steps c v in
    let d = run-Delays p s steps timed in (events, orderly, d.timed, d.count)
