-- ===== src/Server/Posts.antt =====
-- The events of each connection: those handed to the sending thread and those that are kept for it.
use g_plat.Prelude.{
  ℕ, ◌≡◌, refl, Bool, true, false, ◌&&◌, Option, none, some, List, [], ◌∷◌, ◌++◌, append-nil, arith,
  ◌==◌, if◌then◌else◌, Bool-cases, ℕ_discrete, inl, inr,
}
use mathlib.Core.List.{append_assoc}
use g_plat.Server.{
  Server, Message, Timer, Task, time_out, hand_over, post_id, deliver, without_timer, stop_timer,
}
use g_plat.Server.Deliver.{
  deliver-send_queue, deliver-list_post, deliver-waiting_post, deliver-waiting_timeout,
  deliver-timers,
}

abbrev pub is_post : ℕ → Message → Bool
is_post c m = m.conn == c && m.id == post_id

-- The events for `c` among some messages, in their order.
abbrev pub posts_to : ℕ → List Message → List Message
posts_to c [] = []
posts_to c (m ∷ ms) = let rest = posts_to c ms in if is_post c m then m ∷ rest else rest

-- All events for `c` that the server knows of, the oldest first.
abbrev pub events_for : Server → ℕ → List Message
events_for s c = posts_to c s.send_queue ++ (s.conns c).list_post

abbrev pub Hands : Task → Type 0
Hands (time_out c) = Unit {0}
Hands (hand_over m) = m.id ≡ post_id

abbrev pub AllHand : List Timer → Type 0
AllHand [] = Unit {0}
AllHand (timer ∷ timers) = Hands timer.task × AllHand timers

-- What is kept for a connection are its events; a client that waits has none kept, and the time limit
-- runs only while it waits; the timers hand over events.
pub record IsOrderly (s : Server) : Type 0 where
  pub own : (c : ℕ) → posts_to c (s.conns c).list_post ≡ (s.conns c).list_post
  pub waiting : (c : ℕ) → (s.conns c).waiting_post ≡ true → (s.conns c).list_post ≡ []
  pub limited : (c : ℕ) → (s.conns c).waiting_timeout ≡ true → (s.conns c).waiting_post ≡ true
  pub hands : AllHand s.timers

pub posts_to-append :
    (c : ℕ) (xs ys : List Message) → posts_to c (xs ++ ys) ≡ posts_to c xs ++ posts_to c ys
posts_to-append c [] ys = refl
posts_to-append c (m ∷ xs) ys = ground (arith, posts_to-append c xs ys)

pub without_timer-AllHand :
    (id : ℕ) (timers : List Timer) → AllHand timers → AllHand (without_timer id timers)
without_timer-AllHand id [] a = tt
without_timer-AllHand id (timer ∷ timers) a = elim (Bool-cases (timer.id == id)) [
  | inl e ↦ rw e (without_timer-AllHand id timers a.1)
  | inr e ↦ rw e (a.0, without_timer-AllHand id timers a.1)
]

pub stop_timer-AllHand :
    (s : Server) (o : Option ℕ) → AllHand s.timers → AllHand (stop_timer s o).timers
stop_timer-AllHand s none a = a
stop_timer-AllHand s (some id) a = without_timer-AllHand id s.timers a

AllHand-if : (c : Bool) (x y : List Timer) → AllHand x → AllHand y → AllHand (if c then x else y)
AllHand-if true x y a b = a
AllHand-if false x y a b = b

-- The event is the last one of its connection, and the other connections see nothing of it.
abbrev pub only_to : ℕ → Message → List Message
only_to c m = if m.conn == c then m ∷ [] else []

module _ (s : Server) (m : Message) (v : IsOrderly s) (post : m.id ≡ post_id) where
  pub deliver-IsOrderly : IsOrderly (deliver s m)
  deliver-IsOrderly = record {
    own = λ c. rw (deliver-list_post s m c) (
        ground (
          arith,
          v.own c,
          v.own m.conn,
          posts_to-append c (s.conns m.conn).list_post (m ∷ []),
          post,
        ));
    waiting =
        λ c e. ground (arith, deliver-waiting_post s m c, deliver-list_post s m c, v.waiting c, e);
    limited = λ c e.
        ground (arith, deliver-waiting_post s m c, deliver-waiting_timeout s m c, v.limited c, e);
    hands = rw (deliver-timers s m) (
        AllHand-if (s.conns m.conn).waiting_timeout _ _
          (stop_timer-AllHand s (s.conns m.conn).timer_id v.hands) v.hands);
  }

  pub deliver-events : (c : ℕ) → events_for (deliver s m) c ≡ events_for s c ++ only_to c m
  deliver-events c = elim (ℕ_discrete c m.conn) [
    | yes e ↦
        rw (deliver-send_queue s m, deliver-list_post s m c, e)
          (ground (
            arith,
            v.waiting m.conn,
            posts_to-append m.conn s.send_queue (m ∷ []),
            post,
            append_assoc (posts_to m.conn s.send_queue) (s.conns m.conn).list_post (m ∷ []),
            append-nil (posts_to m.conn s.send_queue),
            append-nil (posts_to m.conn s.send_queue ++ m ∷ []),
          ))
    | no off ↦
        rw (deliver-send_queue s m, deliver-list_post s m c)
          (ground (
            arith,
            off,
            posts_to-append c s.send_queue (m ∷ []),
            append-nil (posts_to c s.send_queue),
            append-nil (posts_to c s.send_queue ++ (s.conns c).list_post),
          ))
  ]
