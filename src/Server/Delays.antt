-- ===== src/Server/Delays.antt =====
-- Delayed events: each one waits in a timer until the timer expires.
use g_plat.Prelude.{
  ℕ, ◌+◌, ◌<◌, ◌≡◌, refl, sym, ap, ◌∙◌, Bool, true, false, Option, none, some, arith, if◌then◌else◌,
}
use g_plat.Server.{Server, Message, Timer, hand_over, deliver, add_once, stop_timer, without_timer}
use g_plat.Server.Deliver.{deliver-timers}
use g_plat.Server.Timers.{
  one, pending, AllBelow, AllApart, IsLimit, AllBelow-more, AllBelow-append, AllApart-append,
  IsLimit-new, pending-append, AllBelow-without, AllApart-without, IsLimit-without, pending-limit,
}

abbrev pub limit_of : Server → ℕ → Option ℕ
limit_of s c = (s.conns c).timer_id

-- The numbers of the timers differ, next_id_ is above them, and the timer that a connection knows by
-- its number is no delayed event.
pub record IsTimed (s : Server) : Type 0 where
  pub below : AllBelow s.next_id s.timers
  pub apart : AllApart s.timers
  pub limits : (c id : ℕ) → limit_of s c ≡ some id → (id < s.next_id) × IsLimit id s.timers

-- Of the events that `p` picks out, `new` ones come to wait in a timer, and `gone` ones leave theirs.
pub record Delays (p : Message → Bool) (s s' : Server) (new gone : ℕ) : Type 0 where
  pub timed : IsTimed s'
  pub count : pending p s'.timers + gone ≡ pending p s.timers + new

pub Delays-then :
    {p : Message → Bool} {s s' s'' : Server} {n m : ℕ}
    → Delays p s s' n 0
    → Delays p s' s'' m 0
    → Delays p s s'' (n + m) 0
Delays-then x y = record { timed = y.timed; count = omega (arith, x.count, y.count) }

module _ (p : Message → Bool) (s : Server) (v : IsTimed s) where
  pub same-Delays :
      (s' : Server)
      → s'.timers ≡ s.timers
      → s'.next_id ≡ s.next_id
      → ((c id : ℕ) → limit_of s' c ≡ some id → limit_of s c ≡ some id)
      → Delays p s s' 0 0
  same-Delays s' t n k = record {
    timed = record {
      below = rw (t, n) v.below;
      apart = rw t v.apart;
      limits = λ c id e. rw (t, n) (v.limits c id (k c id e));
    };
    count = ap (λ ts. pending p ts + 0) t;
  }

  pub without-IsTimed : (id : ℕ) → IsTimed (record s { timers = without_timer id s.timers })
  without-IsTimed id = record {
    below = AllBelow-without id s.next_id s.timers v.below;
    apart = AllApart-without id s.timers v.apart;
    limits = λ c k e. let (lt, limit) = v.limits c k e in (lt, IsLimit-without id k s.timers limit);
  }

  stop_timer-Delays : (c : ℕ) → Delays p s (stop_timer s (limit_of s c)) 0 0
  stop_timer-Delays c = go (limit_of s c) refl
    where
      go : (o : Option ℕ) → limit_of s c ≡ o → Delays p s (stop_timer s o) 0 0
      go none e = record { timed = v; count = refl }
      go (some id) e = record {
        timed = without-IsTimed id;
        count = omega (arith, pending-limit id p s.timers (v.limits c id e).1);
      }

  pub hand_over-Delays :
      (m : Message) → Delays p s (add_once s (hand_over m)) (one p (hand_over m)) 0
  hand_over-Delays m =
      let t : Timer = record { id = s.next_id; task = hand_over m } in
      record {
        timed = record {
          below =
              AllBelow-append (s.next_id + 1) s.timers t (AllBelow-more s.next_id s.timers v.below)
                (omega arith);
          apart = AllApart-append s.timers t v.apart v.below;
          limits = λ c id e.
              let (lt, limit) = v.limits c id e in
              (omega (arith, lt), IsLimit-new id s.timers t limit lt);
        };
        count = omega (arith, pending-append p s.timers t);
      }

stop_timer-next_id : (s : Server) (o : Option ℕ) → (stop_timer s o).next_id ≡ s.next_id
stop_timer-next_id s none = refl
stop_timer-next_id s (some id) = refl

stop_timer-limit_of :
    (s : Server) (o : Option ℕ) (c : ℕ) → limit_of (stop_timer s o) c ≡ limit_of s c
stop_timer-limit_of s none c = refl
stop_timer-limit_of s (some id) c = refl

-- The timers of `s'` are those of `s`, or those without the time limit of `c`.
pub ended-Delays :
    (p : Message → Bool) (s s' : Server) (c : ℕ) (b : Bool)
    → IsTimed s
    → s'.timers ≡ (if b then (stop_timer s (limit_of s c)).timers else s.timers)
    → s'.next_id ≡ s.next_id
    → ((c id : ℕ) → limit_of s' c ≡ some id → limit_of s c ≡ some id)
    → Delays p s s' 0 0
ended-Delays p s s' c false v t n k = same-Delays p s v s' t n k
ended-Delays p s s' c true v t n k =
    let o = limit_of s c in
    let d = stop_timer-Delays p s v c in
    Delays-then d (
      same-Delays p (stop_timer s o) d.timed s' t (n ∙ sym (stop_timer-next_id s o))
        (λ i id e. stop_timer-limit_of s o i ∙ k i id e))

pub deliver-Delays :
    (p : Message → Bool) (s : Server) (m : Message) → IsTimed s → Delays p s (deliver s m) 0 0
unfolding deliver
deliver-Delays p s m v =
    ended-Delays p s (deliver s m) m.conn (s.conns m.conn).waiting_timeout v (deliver-timers s m)
      (ground arith) (λ c id e. ground (arith, e))
