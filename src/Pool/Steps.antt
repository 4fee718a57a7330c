-- ===== src/Pool/Steps.antt =====
-- The connections that clients have, and what happens to the pool.
use g_plat.Prelude.{ℕ, ◌≡◌, Bool, true, false, List, [], ◌∷◌, update}
use g_plat.Server.{Server}
use g_plat.Pool.{
  Pool, init_connection, get_connection, free_connection, recycle_later, recycle_round,
}

-- `held` tells which connections a client has, and `handed` lists each connection that a client got
-- with its number at that time.
pub record World : Type 0 where
  pub pool : Pool
  pub held : ℕ → Bool
  pub handed : List (ℕ × ℕ)

abbrev pub number : Pool → ℕ → ℕ
number p c = (p.server.conns c).sequence

unfoldable pub accepted : World → World
unfolding get_connection
accepted w =
    let (c, p) = get_connection w.pool in
    record { pool = p; held = update w.held c true; handed = (c, number p c) ∷ w.handed }

-- ngx_event_accept that fails after it got a connection, a client that leaves, and a round of the
-- thread.
pub data Step (w : World) : World → Type 0 where
  accept : Step w (accepted w)
  close :
      (c : ℕ)
      → w.held c ≡ true
      → Step w (record w { pool = free_connection w.pool c; held = update w.held c false })
  leave :
      (c now : ℕ)
      → w.held c ≡ true
      → Step w (record w { pool = recycle_later w.pool c now; held = update w.held c false })
  round :
      (now wait : ℕ) (stopping : Bool)
      → Step w (record w { pool = recycle_round w.pool now wait stopping })

abbrev pub started : ℕ → Server → World
started n s = record { pool = init_connection n s; held = λ c. false; handed = [] }

-- What comes of `n` connections.
pub data Reached (n : ℕ) (s : Server) : World → Type 0 where
  new_pool : Reached n s (started n s)
  step : {w w' : World} → Reached n s w → Step w w' → Reached n s w'
