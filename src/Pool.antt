-- ===== src/Pool.antt =====
-- The pool of connections of gplat/ngx_c_socket_conn.cxx: the free ones, and those that wait for the
-- thread that gives them back.
pub mod Steps
pub mod Owners
pub mod Numbers
mod Tests
use g_plat.Prelude.{
  ℕ, zero, suc, ◌+◌, ◌-◌, Bool, true, false, not, ◌&&◌, List, [], ◌∷◌, ◌++◌, ltb, if◌then◌else◌,
  length,
}
use g_plat.Server.{Server}
use g_plat.Server.Handle.{get_one_to_use, put_one_to_free, in_recy_connect_queue}

-- The connections of m_connectionList are numbered from 0 to `total - 1`. `recycled` has the time of
-- each connection's arrival there.
pub record Pool : Type 0 where
  pub total : ℕ
  pub free : List ℕ
  pub free_count : ℕ
  pub recycled : List (ℕ × ℕ)
  pub recycled_count : ℕ
  pub server : Server

abbrev pub first_numbers : ℕ → List ℕ
first_numbers zero = []
first_numbers (suc n) = first_numbers n ++ n ∷ []

abbrev pub use_each : ℕ → Server → Server
use_each zero s = s
use_each (suc n) s = get_one_to_use (use_each n s) n

-- initconnection
unfoldable pub init_connection : ℕ → Server → Pool
init_connection n s = record {
  total = n;
  free = first_numbers n;
  free_count = n;
  recycled = [];
  recycled_count = 0;
  server = use_each n s;
}

-- ngx_get_connection
unfoldable pub get_connection : Pool → ℕ × Pool
get_connection p = elim p.free [
  | [] ↦ (p.total, record p { total = p.total + 1; server = get_one_to_use p.server p.total })
  | c ∷ rest ↦ (
    c,
    record p { free = rest; free_count = p.free_count - 1; server = get_one_to_use p.server c },
  )
]

-- ngx_free_connection, and ngx_close_connection, which also closes the socket.
unfoldable pub free_connection : Pool → ℕ → Pool
free_connection p c = record p {
  free = p.free ++ c ∷ [];
  free_count = p.free_count + 1;
  server = put_one_to_free p.server c;
}

-- inRecyConnectQueue
unfoldable pub recycle_later : Pool → ℕ → ℕ → Pool
recycle_later p c now = record p {
  recycled = p.recycled ++ (c, now) ∷ [];
  recycled_count = p.recycled_count + 1;
  server = in_recy_connect_queue p.server c;
}

-- `inRecyTime + m_RecyConnectionWaitTime > currtime`, and the process does not stop.
abbrev pub waits : ℕ → ℕ → Bool → ℕ → Bool
waits now wait stopping since = ltb now (since + wait) && not stopping

-- The loop of ServerRecyConnectionThread over the list: it starts anew after each connection that it
-- gives back, when those before it are not due.
unfoldable pub recycle : ℕ → ℕ → Bool → List (ℕ × ℕ) → Pool → Pool
unfolding free_connection
recycle now wait stopping [] p = record p { recycled = [] }
recycle now wait stopping ((c, since) ∷ rest) p = elim (waits now wait stopping since) [
  | true ↦
      let kept = recycle now wait stopping rest p in
      record kept { recycled = (c, since) ∷ kept.recycled }
  | false ↦
      recycle now wait stopping rest
        (free_connection (record p { recycled_count = p.recycled_count - 1 }) c)
]

unfoldable pub recycle_round : Pool → ℕ → ℕ → Bool → Pool
unfolding recycle
recycle_round p now wait stopping =
    if ltb 0 p.recycled_count then recycle now wait stopping p.recycled p else p
