-- ===== src/Server/Deliver.antt =====
-- What the delivery of an event does to each connection.
use g_plat.Prelude.{ℕ, ◌≡◌, false, not, ◌&&◌, [], ◌∷◌, ◌++◌, arith, ◌==◌, if◌then◌else◌}
use g_plat.Server.{Server, Message, deliver, stop_timer}

module _ (s : Server) (m : Message) where
  pub deliver-send_queue :
      (deliver s m).send_queue
      ≡ (if (s.conns m.conn).waiting_post then s.send_queue ++ m ∷ [] else s.send_queue)
  unfolding deliver
  deliver-send_queue = ground arith

  pub deliver-list_post :
      (c : ℕ)
      → ((deliver s m).conns c).list_post ≡ (
          if (c == m.conn) && not (s.conns m.conn).waiting_post
          then (s.conns m.conn).list_post ++ m ∷ []
          else (s.conns c).list_post)
  unfolding deliver
  deliver-list_post c = ground arith

  pub deliver-waiting_post :
      (c : ℕ)
      → ((deliver s m).conns c).waiting_post
        ≡ (if c == m.conn then false else (s.conns c).waiting_post)
  unfolding deliver
  deliver-waiting_post c = ground arith

  pub deliver-waiting_timeout :
      (c : ℕ)
      → ((deliver s m).conns c).waiting_timeout
        ≡ (if c == m.conn then false else (s.conns c).waiting_timeout)
  unfolding deliver
  deliver-waiting_timeout c = ground arith

  pub deliver-sequence : (c : ℕ) → ((deliver s m).conns c).sequence ≡ (s.conns c).sequence
  unfolding deliver
  deliver-sequence c = ground arith

  pub deliver-subscriptions : (deliver s m).subscriptions ≡ s.subscriptions
  unfolding deliver
  deliver-subscriptions = ground arith

  pub deliver-timers : (deliver s m).timers ≡ (
      if (s.conns m.conn).waiting_timeout
      then (stop_timer s (s.conns m.conn).timer_id).timers
      else s.timers)
  unfolding deliver
  deliver-timers = ground arith
