-- ===== src/Server/Waiting.antt =====
-- Each step of the server, and any run of it: the delayed events that come to wait, and those whose
-- wait ends.
use g_plat.Prelude.{
  ℕ, ◌+◌, ◌<◌, ◌≡◌, refl, ap, ap₂, subst, Bool, true, false, Option, none, some, List, [], ◌∷◌,
  ◌++◌, arith, ltb, ◌==◌, if◌then◌else◌, Bool-cases, inl, inr, length, take, ℕ_discrete,
}
use g_plat.Subscribe.{
  Tag, EventNode, event_default, event_post_delay, get_subscriber, get_plc_io_server,
}
use g_plat.Server.{
  Server, Message, Timer, Task, time_out, hand_over, event, deliver, without_timer, notify_node,
  notify_nodes, notify_subscriber, notify_timer_nodes, notify_timer_subscriber,
  notify_plc_io_server,
}
use g_plat.Server.Handle.{
  handle_subscribe, handle_register_plc_server, handle_post_wait, take_post, expire, run_task,
  task_of, disconnect, cancel_subscribe, get_one_to_use, put_one_to_free,
}
use g_plat.Server.Deliver.{deliver-sequence}
use g_plat.Server.Fifo.{event-same}
use g_plat.Server.Steps.{
  run, Step, step, subscribe, register_plc, post_wait, notify, notify_timer, notify_plc, expired,
  left, reused, freed,
}
use g_plat.Server.Timers.{
  IsLimit, AllBelow-more, AllBelow-append, AllApart-append, IsLimit-new, IsLimit-time_out,
  pending-append, pending-task,
}
use g_plat.Server.Delays.{
  IsTimed, Delays, Delays-then, same-Delays, without-IsTimed, hand_over-Delays, ended-Delays,
  deliver-Delays,
}
use g_plat.Server.Delayed.{delay_of, node_delays, delayed, handed, delayed_all, handed_all}

node_delays-same :
    (p : Message → Bool) (s s' : Server) (body : List ℕ) (nodes : List EventNode)
    → ((i : ℕ) → (s'.conns i).sequence ≡ (s.conns i).sequence)
    → node_delays p s' body nodes ≡ node_delays p s body nodes
node_delays-same p s s' body [] h = refl
node_delays-same p s s' body (node ∷ nodes) h =
    ap₂ ◌+◌
      (ap (λ m. if node.eventid == event_post_delay then (if p m then 1 else 0) else 0)
        (event-same s s' node.subscriber node.eventname body (h node.subscriber)))
      (node_delays-same p s s' body nodes h)

notify_node-sequence :
    (s : Server) (tag : Tag) (body : List ℕ) (node : EventNode) (i : ℕ)
    → ((notify_node s tag body node).conns i).sequence ≡ (s.conns i).sequence
notify_node-sequence s tag body node i = elim (Bool-cases (node.eventid == event_default)) [
  | inl e ↦ rw e (deliver-sequence s (event s node.subscriber tag body) i)
  | inr e ↦ rw e (elim (Bool-cases (node.eventid == event_post_delay)) [
    | inl d ↦ rw d refl
    | inr d ↦ rw d refl
  ])
]

either_if :
    (b : Bool) (P : Server → ℕ → ℕ → Type 0) {x y : Server} {n m : ℕ}
    → P x 0 0
    → P y n m
    → P (if b then x else y) (if b then 0 else n) (if b then 0 else m)
either_if true P h g = h
either_if false P h g = g

module _ (p : Message → Bool) where
  kept : (s : Server) → IsTimed s → Delays p s s 0 0
  kept s v = same-Delays p s v s refl refl (λ c id e. e)

  notify_node-Delays :
      (s : Server) (tag : Tag) (body : List ℕ) (node : EventNode)
      → IsTimed s
      → Delays p s (notify_node s tag body node) (delay_of p s body node) 0
  notify_node-Delays s tag body node v = elim (Bool-cases (node.eventid == event_default)) [
    | inl e ↦
        let off : (node.eventid == event_post_delay) ≡ false = ground (arith, e) in
        rw (e, off) (deliver-Delays p s (event s node.subscriber tag body) v)
    | inr e ↦ rw e (elim (Bool-cases (node.eventid == event_post_delay)) [
      | inl d ↦ rw d (hand_over-Delays p s v (event s node.subscriber node.eventname body))
      | inr d ↦ rw d (kept s v)
    ])
  ]

  notify_nodes-Delays :
      (s : Server) (tag : Tag) (body : List ℕ) (nodes : List EventNode)
      → IsTimed s
      → Delays p s (notify_nodes s tag body nodes) (node_delays p s body nodes) 0
  unfolding notify_nodes
  notify_nodes-Delays s tag body [] v = kept s v
  notify_nodes-Delays s tag body (node ∷ nodes) v =
      let s' : Server = notify_node s tag body node in
      let d = notify_node-Delays s tag body node v in
      subst (λ n. Delays p s (notify_nodes s' tag body nodes) (delay_of p s body node + n) 0)
        (node_delays-same p s s' body nodes (notify_node-sequence s tag body node))
        (Delays-then d (notify_nodes-Delays s' tag body nodes d.timed))

  notify-Delays :
      (s : Server) (tag : Tag) (body : List ℕ)
      → IsTimed s
      → Delays p s (notify_subscriber s tag body) (delayed p s (notify tag body)) 0
  unfolding notify_subscriber
  notify-Delays s tag body v =
      elim (Bool-cases (ltb 500 (length (get_subscriber s.subscriptions tag)))) [
        | inl e ↦ rw e (same-Delays p s v _ refl refl (λ c id k. k))
        | inr e ↦ rw e (notify_nodes-Delays s tag body (get_subscriber s.subscriptions tag) v)
      ]

  notify_timer_nodes-Delays :
      (s : Server) (itemname body : List ℕ) (nodes : List EventNode)
      → IsTimed s
      → Delays p s (notify_timer_nodes s itemname body nodes) 0 0
  unfolding notify_timer_nodes
  notify_timer_nodes-Delays s itemname body [] v = kept s v
  notify_timer_nodes-Delays s itemname body (node ∷ nodes) v =
      let m : Message = event s node.subscriber itemname body in
      let d = deliver-Delays p s m v in
      Delays-then d (notify_timer_nodes-Delays (deliver s m) itemname body nodes d.timed)

  plc-Delays :
      (s : Server) (tag : Tag) (body : List ℕ)
      → IsTimed s
      → Delays p s (notify_plc_io_server s tag body) 0 0
  unfolding notify_plc_io_server
  plc-Delays s tag body v = go (get_plc_io_server s.subscriptions tag) refl
    where
      go :
          (o : Option ℕ)
          → get_plc_io_server s.subscriptions tag ≡ o
          → Delays p s (notify_plc_io_server s tag body) 0 0
      go none e = rw (e, notify_plc_io_server) (kept s v)
      go (some c) e = rw (e, notify_plc_io_server) (deliver-Delays p s (event s c tag body) v)

  take-Delays :
      (s : Server) (c : ℕ) (timeout : Option ℕ) (posts : List Message)
      → IsTimed s
      → Delays p s (take_post s c timeout posts) 0 0
  take-Delays s c timeout (m ∷ posts) v =
      same-Delays p s v _ refl refl (λ i id e. ground (arith, e))
  take-Delays s c none [] v = same-Delays p s v _ refl refl (λ i id e. ground (arith, e))
  take-Delays s c (some timeout) [] v = elim (Bool-cases (timeout == 0)) [
    | inl z ↦ rw z (same-Delays p s v _ refl refl (λ i id e. ground (arith, e)))
    | inr z ↦ rw z (
        let t : Timer = record { id = s.next_id; task = time_out c } in
        record {
          timed = record {
            below =
                AllBelow-append (s.next_id + 1) s.timers t
                  (AllBelow-more s.next_id s.timers v.below) (omega arith);
            apart = AllApart-append s.timers t v.apart v.below;
            limits = λ i id e. elim (ℕ_discrete i c) [
              | yes same ↦
                  let eq : s.next_id ≡ id = ground (arith, same, e) in
                  subst
                    (λ n.
                      (n < s.next_id + 1)
                      × IsLimit n (s.timers ++ record { id = s.next_id; task = time_out c } ∷ []))
                    eq (omega arith, IsLimit-time_out s.next_id s.timers c v.below)
              | no off ↦
                  let (lt, limit) = v.limits i id (ground (arith, off, e)) in
                  (omega (arith, lt), IsLimit-new id s.timers t limit lt)
            ];
          };
          count = omega (arith, pending-append p s.timers t);
        })
  ]

  expire-Delays :
      (s : Server) (id : ℕ) → IsTimed s → Delays p s (expire s id) 0 (handed p s (expired id))
  unfolding expire
  expire-Delays s id v = go (task_of id s.timers) refl
    where
      s' : Server
      s' = record s { timers = without_timer id s.timers }

      ran : (task : Task) → Delays p s' (run_task s' task) 0 0
      ran (hand_over m) = deliver-Delays p s' m (without-IsTimed p s v id)
      ran (time_out c) =
          same-Delays p s' (without-IsTimed p s v id) _ (ground arith) (ground arith)
            (λ i k e. ground (arith, e))

      go :
          (o : Option Task)
          → task_of id s.timers ≡ o
          → Delays p s (expire s id) 0 (handed p s (expired id))
      go none e = rw (e, expire) (kept s v)
      go (some task) e =
          rw (e, expire)
            (record {
              timed = (ran task).timed;
              count = omega (arith, (ran task).count, pending-task id p s.timers task v.apart e);
            })

  left-Delays :
      (s : Server) (c : ℕ) (closed : Bool) → IsTimed s → Delays p s (disconnect s c closed) 0 0
  unfolding disconnect cancel_subscribe
  left-Delays s c true v =
      ended-Delays p s _ c (s.conns c).waiting_timeout v (ground arith) (ground arith)
        (λ i id e. ground (arith, e))
  left-Delays s c false v =
      ended-Delays p s _ c (s.conns c).waiting_timeout v (ground arith) (ground arith)
        (λ i id e. ground (arith, e))

  step-Delays :
      (s : Server) (st : Step) → IsTimed s → Delays p s (step s st) (delayed p s st) (handed p s st)
  unfolding notify_timer_subscriber handle_post_wait handle_subscribe handle_register_plc_server
      get_one_to_use put_one_to_free
  step-Delays s (subscribe c tag eventname eventid eventarg) v =
      same-Delays p s v _ refl refl (λ i id e. ground (arith, e))
  step-Delays s (register_plc c tag) v = same-Delays p s v _ refl refl (λ i id e. ground (arith, e))
  step-Delays s (post_wait c timeout) v = take-Delays s c timeout (s.conns c).list_post v
  step-Delays s (notify tag body) v = notify-Delays s tag body v
  step-Delays s (notify_timer tag body) v =
      notify_timer_nodes-Delays s (take 39 tag) body (get_subscriber s.subscriptions tag) v
  step-Delays s (notify_plc tag body) v = plc-Delays s tag body v
  step-Delays s (expired id) v = expire-Delays s id v
  step-Delays s (left c closed) v = left-Delays s c closed v
  step-Delays s (reused c) v = same-Delays p s v _ refl refl (λ i id e. ground (arith, e))
  step-Delays s (freed c) v = same-Delays p s v _ refl refl (λ i id e. ground (arith, e))

  pub run-Delays :
      (s : Server) (steps : List Step)
      → IsTimed s
      → Delays p s (run s steps) (delayed_all p s steps) (handed_all p s steps)
  run-Delays s [] v = kept s v
  run-Delays s (st ∷ steps) v =
      let d = step-Delays s st v in
      let rest = run-Delays (step s st) steps d.timed in
      either_if s.exited (Delays p s) (kept s v)
        (record { timed = rest.timed; count = omega (arith, d.count, rest.count) })
