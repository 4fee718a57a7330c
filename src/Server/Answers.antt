-- ===== src/Server/Answers.antt =====
-- Every POSTWAIT is answered once: by an event or by the end of its time.
use g_plat.Prelude.{
  ℕ, suc, ◌+◌, ◌≡◌, ◌≢◌, Bool, false, ◌&&◌, ◌||◌, List, [], ◌∷◌, ◌==◌, if◌then◌else◌,
}
use g_plat.Server.{Server, Message, post_id, post_wait_id}
use g_plat.Server.Steps.{
  Step, step, subscribe, register_plc, post_wait, notify, notify_timer, notify_plc, expired, left,
  reused, freed,
}

-- Events and the messages that a time has run out: what a client that waits gets.
abbrev pub is_answer : ℕ → Message → Bool
is_answer c m = m.conn == c && (m.id == post_id || m.id == post_wait_id)

abbrev pub answers : ℕ → List Message → ℕ
answers c [] = 0
answers c (m ∷ ms) = let rest = answers c ms in if is_answer c m then suc rest else rest

abbrev pub one_if : Bool → ℕ
one_if b = if b then 1 else 0

-- The answers that went to the sending thread, and one more if the client still waits for one.
abbrev pub balance : Server → ℕ → ℕ
balance s c = answers c s.send_queue + one_if (s.conns c).waiting_post

-- The calls of POSTWAIT in a step.
abbrev pub asks : Step → ℕ → ℕ
asks (subscribe _ _ _ _ _) c = 0
asks (register_plc _ _) c = 0
asks (post_wait i _) c = one_if (i == c)
asks (notify _ _) c = 0
asks (notify_timer _ _) c = 0
asks (notify_plc _ _) c = 0
asks (expired _) c = 0
asks (left _ _) c = 0
asks (reused _) c = 0
asks (freed _) c = 0

-- The client `c` asks only when it does not wait already, and its connection is not given to another.
abbrev pub Keeps : Server → Step → ℕ → Type 0
Keeps s (subscribe _ _ _ _ _) c = Unit {0}
Keeps s (register_plc _ _) c = Unit {0}
Keeps s (post_wait i _) c = i ≡ c → (s.conns c).waiting_post ≡ false
Keeps s (notify _ _) c = Unit {0}
Keeps s (notify_timer _ _) c = Unit {0}
Keeps s (notify_plc _ _) c = Unit {0}
Keeps s (expired _) c = Unit {0}
Keeps s (left _ _) c = Unit {0}
Keeps s (reused i) c = i ≢ c
Keeps s (freed _) c = Unit {0}

abbrev pub AllKeep : Server → List Step → ℕ → Type 0
AllKeep s [] c = Unit {0}
AllKeep s (st ∷ steps) c = Keeps s st c × AllKeep (step s st) steps c

abbrev pub asks_all : Server → List Step → ℕ → ℕ
asks_all s [] c = 0
asks_all s (st ∷ steps) c = if s.exited then 0 else asks st c + asks_all (step s st) steps c
