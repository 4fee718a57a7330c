-- ===== src/Pool/Tests.antt =====
-- Two connections: a client comes and leaves, and the thread gives its connection back.
use g_plat.Prelude.{ℕ, ◌≡◌, ◌<◌, refl, false, true, update}
use g_plat.Server.Sample.{start}
use g_plat.Pool.{get_connection, init_connection, recycle_later, recycle_round}
use g_plat.Pool.Steps.{
  World, number, accepted, accept, leave, round, Reached, new_pool, step, started,
}
use g_plat.Pool.Owners.{times_there}
use g_plat.Pool.Numbers.{Was, get_connection-fresh}

came : Reached 2 start (accepted (started 2 start))
came = step new_pool accept

came-holds : (accepted (started 2 start)).held 0 ≡ true
unfolding accepted get_connection init_connection
came-holds = refl

abbrev left : World
left = record (accepted (started 2 start)) {
  pool = recycle_later (accepted (started 2 start)).pool 0 10;
  held = update (accepted (started 2 start)).held 0 false;
}

abbrev gone : World
gone = record left { pool = recycle_round left.pool 200 60 false }

gone-Reached : Reached 2 start gone
gone-Reached = step (step came (leave 0 10 came-holds)) (round 200 60 false)

get_connection-fresh_example :
    let (c, p) = get_connection gone.pool in
    (gone.held c ≡ false)
    × (times_there c gone.pool.recycled ≡ 0)
    × ((k : ℕ) → Was c k gone.handed → k < number p c)
get_connection-fresh_example = get_connection-fresh gone-Reached
