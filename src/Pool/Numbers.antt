-- ===== src/Pool/Numbers.antt =====
-- The number of a connection, by which the server knows the packets of a client that has left.
use g_plat.Prelude.{
  ℕ, ◌-◌, ◌≡◌, ◌≤◌, ◌<◌, ◌⊎◌, inl, inr, ap, Bool, true, false, List, [], ◌∷◌, arith,
}
use g_plat.Server.{Server}
use g_plat.Server.Handle.{get_one_to_use, put_one_to_free}
use g_plat.Pool.{
  Pool, get_connection, free_connection, recycle_later, recycle, recycle_round, waits,
}
use g_plat.Pool.Steps.{
  World, number, accepted, Step, accept, close, leave, round, Reached, new_pool, step,
}
use g_plat.Pool.Owners.{with_free, IsOwned, reached-IsOwned, times_there}

-- The connection was handed out under the number.
abbrev pub Was : ℕ → ℕ → List (ℕ × ℕ) → Type 0
Was c k [] = ⊥
Was c k (x ∷ xs) = ((x.0 ≡ c) × (x.1 ≡ k)) ⊎ Was c k xs

free-number :
    (p : Pool) (d c : ℕ)
    → number p c ≤ number (free_connection (record p { recycled_count = p.recycled_count - 1 }) d) c
unfolding free_connection put_one_to_free
free-number p d c = ground arith

recycle-number :
    (now wait : ℕ) (stopping : Bool) (there : List (ℕ × ℕ)) (p : Pool) (c : ℕ)
    → number p c ≤ number (recycle now wait stopping there p) c
unfolding recycle free_connection put_one_to_free
recycle-number now wait stopping [] p c = omega arith
recycle-number now wait stopping ((d, since) ∷ rest) p c =
    let given = free_connection (record p { recycled_count = p.recycled_count - 1 }) d in
    by_due (waits now wait stopping since) _ _ (recycle-number now wait stopping rest p c)
      (omega (arith, free-number p d c, recycle-number now wait stopping rest given c))
  where
    by_due :
        (b : Bool) (kept given : Pool)
        → number p c ≤ number kept c
        → number p c ≤ number given c
        → number p c
          ≤ number
              (elim b [
                | true ↦ record kept { recycled = (d, since) ∷ kept.recycled }
                | false ↦ given
              ])
              c
    by_due true kept given k g = k
    by_due false kept given k g = g

get_connection-number :
    (p : Pool) (f : List ℕ) (c : ℕ)
    → let (d, p') = get_connection (record p { free = f }) in
      (number p c ≤ number p' c) × (number p d < number p' d)
unfolding get_connection get_one_to_use
get_connection-number p [] c = (ground arith, ground arith)
get_connection-number p (d ∷ rest) c = (ground arith, ground arith)

given-unowned :
    (w : World) (f : List ℕ)
    → IsOwned (with_free w f)
    → let (c, p) = get_connection (record w.pool { free = f }) in
      (w.held c ≡ false) × (times_there c w.pool.recycled ≡ 0)
unfolding get_connection
given-unowned w [] v = (ground (arith, v.once w.pool.total), ground (arith, v.once w.pool.total))
given-unowned w (c ∷ rest) v = (ground (arith, v.once c), ground (arith, v.once c))

-- Numbers do not fall.
step-number : {w w' : World} → Step w w' → (c : ℕ) → number w.pool c ≤ number w'.pool c
unfolding accepted free_connection recycle_later recycle_round put_one_to_free
step-number {w} accept c = (get_connection-number w.pool w.pool.free c).0
step-number {w} (close d h) c = ground arith
step-number {w} (leave d now h) c = ground arith
step-number {w} (round now wait stopping) c =
    ground (arith, recycle-number now wait stopping w.pool.recycled w.pool c)

pub handed-number :
    {n : ℕ} {s : Server} {w : World}
    → Reached n s w
    → (c k : ℕ) → Was c k w.handed
    → k ≤ number w.pool c
unfolding accepted
handed-number new_pool c k h = absurd h
handed-number (step {w = w} r accept) c k h =
    handed_now (get_connection-number w.pool w.pool.free c) (λ old. handed-number r c k old) h
  where
    handed_now :
        let (d, p') = get_connection w.pool in
        (number w.pool c ≤ number p' c) × (number w.pool d < number p' d)
        → (Was c k w.handed → k ≤ number w.pool c)
        → ((d ≡ c) × (number p' d ≡ k)) ⊎ Was c k w.handed
        → k ≤ number p' c
    handed_now m before (inl (e, f)) = omega (arith, f, ap (number (get_connection w.pool).1) e)
    handed_now (m, _) before (inr old) = omega (arith, before old, m)
handed-number (step {w = w} r (close d e)) c k h =
    omega (arith, handed-number r c k h, step-number {w = w} (close d e) c)
handed-number (step {w = w} r (leave d now e)) c k h =
    omega (arith, handed-number r c k h, step-number {w = w} (leave d now e) c)
handed-number (step {w = w} r (round now wait stopping)) c k h =
    omega (arith, handed-number r c k h, step-number {w = w} (round now wait stopping) c)

-- After any run from a new pool, ngx_get_connection gives a connection that no client has and that
-- does not wait for the thread that gives connections back, and its number is above those under
-- which it was handed out before.
pub get_connection-fresh :
    {n : ℕ} {s : Server} {w : World}
    → Reached n s w
    → let (c, p) = get_connection w.pool in
      (w.held c ≡ false)
      × (times_there c w.pool.recycled ≡ 0)
      × ((k : ℕ) → Was c k w.handed → k < number p c)
get_connection-fresh {w = w} r =
    let (c, p) = get_connection w.pool in
    let v = reached-IsOwned r in
    let (own, apart) = given-unowned w w.pool.free v in
    (
      own,
      apart,
      λ k h. omega (arith, handed-number r c k h, (get_connection-number w.pool w.pool.free c).1),
    )
