-- ===== src/Server/Run.antt =====
-- Each step of the server, and any sequence of steps.
use g_plat.Prelude.{
  ℕ, ◌≤◌, ◌≡◌, ◌≢◌, refl, sym, ap, ap₂, ◌∙◌, Bool, true, false, Option, none, some, List, [], ◌∷◌,
  ◌++◌, append-nil, arith, ◌==◌, if◌then◌else◌, Bool-cases, inl, inr, length, ℕ_discrete,
}
use mathlib.Core.List.{append_assoc}
use g_plat.Subscribe.{Tag}
use g_plat.Server.{Server, Message, Connection, post_id, end_timeout, set_conn, stop_timer}
use g_plat.Server.Handle.{
  in_recy_connect_queue, handle_subscribe, handle_register_plc_server, take_post, disconnect,
  cancel_subscribe, get_one_to_use, put_one_to_free,
}
use g_plat.Server.Posts.{
  posts_to, is_post, events_for, AllHand, IsOrderly, stop_timer-AllHand, posts_to-append,
}
use g_plat.Server.Fifo.{Follows, Follows-same, append-AllHand}

pub record Grows (s s' : Server) (new : ℕ → List Message) : Type 0 where
  pub orderly : IsOrderly s'
  pub events : (c : ℕ) → events_for s' c ≡ events_for s c ++ new c

pub grown : {s s' : Server} {new : ℕ → List Message} → Follows s s' new → Grows s s' new
grown f = record { orderly = f.orderly; events = f.events }

-- A message to the sending thread that is no event.
pub reply-events :
    (c : ℕ) (queue : List Message) (m : Message)
    → m.id ≢ post_id
    → posts_to c (queue ++ m ∷ []) ≡ posts_to c queue
reply-events c queue m h =
    ground (arith, posts_to-append c queue (m ∷ []), append-nil (posts_to c queue))

-- The connection `c` is changed, but not in what is kept for it; what is sent is no event.
pub quiet :
    (s s' : Server) (c : ℕ) (conn : Connection)
    → IsOrderly s
    → ((i : ℕ) → s'.conns i ≡ (if i == c then conn else s.conns i))
    → conn.list_post ≡ (s.conns c).list_post
    → (conn.waiting_post ≡ true → conn.list_post ≡ [])
    → (conn.waiting_timeout ≡ true → conn.waiting_post ≡ true)
    → AllHand s'.timers
    → ((i : ℕ) → posts_to i s'.send_queue ≡ posts_to i s.send_queue)
    → Grows s s' (λ i. [])
quiet s s' c conn v conns kept wait limit hands sent =
    let same : (i : ℕ) → (s'.conns i).list_post ≡ (s.conns i).list_post =
      λ i. ground (arith, conns i, kept) in
    record {
      orderly = record {
        own = λ i. rw (same i) (v.own i);
        waiting = λ i e. ground (arith, conns i, wait, v.waiting i, e);
        limited = λ i e. ground (arith, conns i, limit, v.limited i, e);
        hands = hands;
      };
      events = λ i. ap₂ ◌++◌ (sent i) (same i) ∙ sym (append-nil (events_for s i));
    }

pub subscribe-Grows :
    (s : Server) (c : ℕ) (tag : Tag) (eventname : List ℕ) (eventid eventarg : ℕ)
    → IsOrderly s
    → Grows s (handle_subscribe s c tag eventname eventid eventarg) (λ i. [])
unfolding handle_subscribe
subscribe-Grows s c tag eventname eventid eventarg v =
    quiet s _ c (record (s.conns c) { list_tag = (s.conns c).list_tag ++ tag ∷ [] }) v (λ i. refl)
      refl (v.waiting c) (v.limited c) v.hands (λ i. reply-events i s.send_queue _ (omega arith))

pub register-Grows :
    (s : Server) (c : ℕ) (tag : Tag)
    → IsOrderly s
    → Grows s (handle_register_plc_server s c tag) (λ i. [])
unfolding handle_register_plc_server
register-Grows s c tag v =
    quiet s _ c (record (s.conns c) { list_plc_tag = (s.conns c).list_plc_tag ++ tag ∷ [] }) v
      (λ i. refl) refl (v.waiting c) (v.limited c) v.hands
      (λ i. reply-events i s.send_queue _ (omega arith))

pub reused-Grows : (s : Server) (c : ℕ) → IsOrderly s → Grows s (get_one_to_use s c) (λ i. [])
unfolding get_one_to_use
reused-Grows s c v = quiet s _ c _ v (λ i. refl) refl (λ e. cc) (λ e. e) v.hands (λ i. refl)

pub freed-Grows : (s : Server) (c : ℕ) → IsOrderly s → Grows s (put_one_to_free s c) (λ i. [])
unfolding put_one_to_free
freed-Grows s c v = quiet s _ c _ v (λ i. refl) refl (v.waiting c) (v.limited c) v.hands (λ i. refl)

pub quiet_then :
    {s s' s'' : Server} → Grows s s' (λ i. []) → Grows s' s'' (λ i. []) → Grows s s'' (λ i. [])
quiet_then {s} f g = record {
  orderly = g.orderly;
  events = λ i. g.events i ∙ ap (λ e. e ++ []) (f.events i) ∙ append-nil (events_for s i ++ []);
}

stop_timer-conns : (s : Server) (o : Option ℕ) → (stop_timer s o).conns ≡ s.conns
stop_timer-conns s none = refl
stop_timer-conns s (some id) = refl

stop_timer-send_queue : (s : Server) (o : Option ℕ) → (stop_timer s o).send_queue ≡ s.send_queue
stop_timer-send_queue s none = refl
stop_timer-send_queue s (some id) = refl

end_timeout-Grows : (s : Server) (c : ℕ) → IsOrderly s → Grows s (end_timeout s c) (λ i. [])
end_timeout-Grows s c v = elim (Bool-cases (s.conns c).waiting_timeout) [
  | inl e ↦
      let conn : Connection = record (s.conns c) { waiting_timeout = false } in
      rw e (
        quiet s (stop_timer (set_conn s c conn) conn.timer_id) c conn v
          (λ i. ap (λ f. f i) (stop_timer-conns (set_conn s c conn) conn.timer_id)) refl
          (v.waiting c) (λ h. cc) (stop_timer-AllHand (set_conn s c conn) conn.timer_id v.hands)
          (λ i. ap (posts_to i) (stop_timer-send_queue (set_conn s c conn) conn.timer_id)))
  | inr e ↦ rw e (grown (Follows-same s v))
]

cancel-Grows : (s : Server) (c : ℕ) → IsOrderly s → Grows s (cancel_subscribe s c) (λ i. [])
unfolding cancel_subscribe
cancel-Grows s c v =
    quiet s _ c _ v (λ i. refl) refl (v.waiting c) (v.limited c) v.hands (λ i. refl)

recy-Grows : (s : Server) (c : ℕ) → IsOrderly s → Grows s (in_recy_connect_queue s c) (λ i. [])
recy-Grows s c v = quiet s _ c _ v (λ i. refl) refl (v.waiting c) (v.limited c) v.hands (λ i. refl)

pub left-Grows :
    (s : Server) (c : ℕ) (closed : Bool) → IsOrderly s → Grows s (disconnect s c closed) (λ i. [])
unfolding disconnect
left-Grows s c true v =
    let f = recy-Grows s c v in
    let g = cancel-Grows (in_recy_connect_queue s c) c f.orderly in
    quiet_then f (
      quiet_then g (end_timeout-Grows (cancel_subscribe (in_recy_connect_queue s c) c) c g.orderly))
left-Grows s c false v =
    let g = cancel-Grows s c v in
    quiet_then g (end_timeout-Grows (cancel_subscribe s c) c g.orderly)

-- The first of the kept events is one of the connection's.
posts_to-length : (c : ℕ) (ms : List Message) → length (posts_to c ms) ≤ length ms
posts_to-length c [] = omega arith
posts_to-length c (m ∷ ms) = ground (arith, posts_to-length c ms)

pub own-head :
    (c : ℕ) (m : Message) (ms : List Message)
    → posts_to c (m ∷ ms) ≡ m ∷ ms
    → (is_post c m ≡ true) × (posts_to c ms ≡ ms)
own-head c m ms e = elim (Bool-cases (is_post c m)) [
  | inl is ↦ (is, cc (rw is at e))
  | inr other ↦ absurd (omega (arith, posts_to-length c ms, ap length (rw other at e)))
]

pub not_true : (b : Bool) → b ≢ true → b ≡ false
not_true true h = absurd (h refl)
not_true false h = refl

pub take-Grows :
    (s : Server) (c : ℕ) (timeout : Option ℕ) (posts : List Message)
    → (s.conns c).list_post ≡ posts
    → IsOrderly s
    → Grows s (take_post s c timeout posts) (λ i. [])
take-Grows s c timeout (m ∷ posts) e v =
    let (is, rest) = own-head c m posts (ap (posts_to c) (sym e) ∙ v.own c ∙ e) in
    let idle : (s.conns c).waiting_post ≢ true = λ w. cc (sym e ∙ v.waiting c w) in
    record {
      orderly = record {
        own = λ i. ground (arith, v.own i, rest);
        waiting = λ i g. ground (arith, v.waiting i, g);
        limited = λ i g. ground (arith, v.limited i, idle, g);
        hands = v.hands;
      };
      events = λ i. elim (ℕ_discrete i c) [
        | yes same ↦ rw same (
            ground (
              arith,
              posts_to-append c s.send_queue (m ∷ []),
              is,
              e,
              append_assoc (posts_to c s.send_queue) (m ∷ []) posts,
              append-nil (posts_to c s.send_queue ++ m ∷ posts),
            ))
        | no off ↦ ground (
          arith,
          off,
          posts_to-append i s.send_queue (m ∷ []),
          is,
          append-nil (posts_to i s.send_queue),
          append-nil (posts_to i s.send_queue ++ (s.conns i).list_post),
        )
      ];
    }
take-Grows s c none [] e v = quiet s _ c _ v (λ i. refl) refl (λ _. e) (λ h. cc) v.hands (λ i. refl)
take-Grows s c (some timeout) [] e v = elim (Bool-cases (timeout == 0)) [
  | inl z ↦ rw z (
      quiet s _ c _ v (λ i. refl) refl (λ h. cc) (λ h. cc) v.hands
        (λ i. reply-events i s.send_queue _ (omega arith)))
  | inr z ↦ rw z (
      quiet s _ c
        (record (s.conns c) {
          waiting_post = true;
          waiting_timeout = true;
          timer_id = some s.next_id;
        })
        v (λ i. ground arith) refl (λ _. e) (λ _. refl) (append-AllHand s.timers _ v.hands (tt, tt))
        (λ i. refl))
]
