-- ===== src/Pool/Owners.antt =====
-- Every connection is in one place.
use g_plat.Prelude.{
  ℕ, zero, suc, ◌+◌, ◌-◌, ◌≡◌, refl, sym, Bool, true, false, List, [], ◌∷◌, ◌++◌, arith, ltb, ◌==◌,
  if◌then◌else◌, length, length-append, update,
}
use g_plat.Server.{Server}
use g_plat.Pool.{
  Pool, first_numbers, init_connection, get_connection, free_connection, recycle_later, recycle,
  recycle_round, waits,
}
use g_plat.Pool.Steps.{
  World, accepted, Step, accept, close, leave, round, started, Reached, new_pool, step,
}

abbrev pub times : ℕ → List ℕ → ℕ
times c [] = 0
times c (x ∷ xs) = (if x == c then 1 else 0) + times c xs

abbrev pub times_there : ℕ → List (ℕ × ℕ) → ℕ
times_there c [] = 0
times_there c (x ∷ xs) = (if x.0 == c then 1 else 0) + times_there c xs

abbrev pub one_if : Bool → ℕ
one_if b = if b then 1 else 0

times-append : (c : ℕ) (xs ys : List ℕ) → times c (xs ++ ys) ≡ times c xs + times c ys
times-append c [] ys = omega arith
times-append c (x ∷ xs) ys = omega (arith, times-append c xs ys)

times_there-append :
    (c : ℕ) (xs ys : List (ℕ × ℕ)) → times_there c (xs ++ ys) ≡ times_there c xs + times_there c ys
times_there-append c [] ys = omega arith
times_there-append c (x ∷ xs) ys = omega (arith, times_there-append c xs ys)

length-there : (xs : List (ℕ × ℕ)) (x : ℕ × ℕ) → length (xs ++ x ∷ []) ≡ length xs + 1
length-there xs x = length-append xs (x ∷ [])

pub record IsOwned (w : World) : Type 0 where
  pub once :
      (c : ℕ)
      → times c w.pool.free + times_there c w.pool.recycled + one_if (w.held c)
        ≡ one_if (ltb c w.pool.total)
  pub free : w.pool.free_count ≡ length w.pool.free
  pub recycled : w.pool.recycled_count ≡ length w.pool.recycled

times-first : (n c : ℕ) → times c (first_numbers n) ≡ one_if (ltb c n)
times-first zero c = ground arith
times-first (suc n) c = ground (arith, times-append c (first_numbers n) (n ∷ []), times-first n c)

length-first : (n : ℕ) → length (first_numbers n) ≡ n
length-first zero = refl
length-first (suc n) = omega (arith, length-append (first_numbers n) (n ∷ []), length-first n)

started-IsOwned : (n : ℕ) (s : Server) → IsOwned (started n s)
unfolding init_connection
started-IsOwned n s = record {
  once = λ c. omega (arith, times-first n c);
  free = sym (length-first n);
  recycled = refl;
}

abbrev pub with_free : World → List ℕ → World
with_free w f = record w { pool = record w.pool { free = f } }

accepted-IsOwned :
    (w : World) (f : List ℕ) → IsOwned (with_free w f) → IsOwned (accepted (with_free w f))
unfolding accepted get_connection
accepted-IsOwned w [] v = record {
  once = λ k. ground (arith, v.once k);
  free = v.free;
  recycled = v.recycled;
}
accepted-IsOwned w (c ∷ rest) v = record {
  once = λ k. ground (arith, v.once k);
  free = omega (arith, v.free);
  recycled = v.recycled;
}

close-IsOwned :
    (w : World) (c : ℕ)
    → w.held c ≡ true
    → IsOwned w
    → IsOwned (record w { pool = free_connection w.pool c; held = update w.held c false })
unfolding free_connection
close-IsOwned w c h v = record {
  once = λ k. ground (arith, times-append k w.pool.free (c ∷ []), v.once k);
  free = omega (arith, length-append w.pool.free (c ∷ []), v.free);
  recycled = v.recycled;
}

leave-IsOwned :
    (w : World) (c now : ℕ)
    → w.held c ≡ true
    → IsOwned w
    → IsOwned (record w { pool = recycle_later w.pool c now; held = update w.held c false })
unfolding recycle_later
leave-IsOwned w c now h v = record {
  once = λ k. ground (arith, times_there-append k w.pool.recycled ((c, now) ∷ []), v.once k);
  free = v.free;
  recycled = omega (arith, length-there w.pool.recycled (c, now), v.recycled);
}

-- What the thread makes of the connections `there` that it looks at.
record Recycles (there : List (ℕ × ℕ)) (p p' : Pool) : Type 0 where
  pub once :
      (c : ℕ) → times c p'.free + times_there c p'.recycled ≡ times c p.free + times_there c there
  pub total : p'.total ≡ p.total
  pub free : p.free_count ≡ length p.free → p'.free_count ≡ length p'.free
  pub recycled :
      (k : ℕ) → p.recycled_count ≡ k + length there → p'.recycled_count ≡ k + length p'.recycled

abbrev moved : Pool → ℕ → Pool
moved p c = free_connection (record p { recycled_count = p.recycled_count - 1 }) c

kept-Recycles :
    (c since : ℕ) (rest : List (ℕ × ℕ)) (p p' : Pool)
    → Recycles rest p p'
    → Recycles ((c, since) ∷ rest) p (record p' { recycled = (c, since) ∷ p'.recycled })
kept-Recycles c since rest p p' v = record {
  once = λ k. omega (arith, v.once k);
  total = v.total;
  free = v.free;
  recycled = λ k e. omega (arith, v.recycled (k + 1) (omega (arith, e)));
}

moved-Recycles :
    (c since : ℕ) (rest : List (ℕ × ℕ)) (p p' : Pool)
    → Recycles rest (moved p c) p'
    → Recycles ((c, since) ∷ rest) p p'
unfolding free_connection
moved-Recycles c since rest p p' v = record {
  once = λ k. omega (arith, v.once k, times-append k p.free (c ∷ []));
  total = v.total;
  free = λ e. v.free (omega (arith, e, length-append p.free (c ∷ [])));
  recycled = λ k e. v.recycled k (omega (arith, e));
}

recycle-Recycles :
    (now wait : ℕ) (stopping : Bool) (there : List (ℕ × ℕ)) (p : Pool)
    → Recycles there p (recycle now wait stopping there p)
unfolding recycle free_connection
recycle-Recycles now wait stopping [] p = record {
  once = λ c. refl;
  total = refl;
  free = λ e. e;
  recycled = λ k e. e;
}
recycle-Recycles now wait stopping ((c, since) ∷ rest) p =
    by_due (waits now wait stopping since) (recycle-Recycles now wait stopping rest p)
      (recycle-Recycles now wait stopping rest (moved p c))
  where
    by_due :
        (b : Bool) {kept given : Pool}
        → Recycles rest p kept
        → Recycles rest (moved p c) given
        → Recycles ((c, since) ∷ rest) p (elim b [
          | true ↦ record kept { recycled = (c, since) ∷ kept.recycled }
          | false ↦ given
        ])
    by_due true k g = kept-Recycles c since rest p _ k
    by_due false k g = moved-Recycles c since rest p _ g

round-IsOwned :
    (w : World) (now wait : ℕ) (stopping : Bool)
    → IsOwned w
    → IsOwned (record w { pool = recycle_round w.pool now wait stopping })
unfolding recycle_round
round-IsOwned w now wait stopping v = by_some (ltb 0 w.pool.recycled_count)
  where
    by_some :
        (b : Bool)
        → IsOwned (record w {
          pool = if b then recycle now wait stopping w.pool.recycled w.pool else w.pool;
        })
    by_some false = v
    by_some true =
        let k = recycle-Recycles now wait stopping w.pool.recycled w.pool in
        record {
          once = λ c. rw k.total (omega (arith, k.once c, v.once c));
          free = k.free v.free;
          recycled = omega (arith, k.recycled 0 (omega (arith, v.recycled)));
        }

step-IsOwned : {w w' : World} → Step w w' → IsOwned w → IsOwned w'
step-IsOwned {w} accept v = accepted-IsOwned w w.pool.free v
step-IsOwned {w} (close c h) v = close-IsOwned w c h v
step-IsOwned {w} (leave c now h) v = leave-IsOwned w c now h v
step-IsOwned {w} (round now wait stopping) v = round-IsOwned w now wait stopping v

pub reached-IsOwned : {n : ℕ} {s : Server} {w : World} → Reached n s w → IsOwned w
reached-IsOwned {n} {s} new_pool = started-IsOwned n s
reached-IsOwned (step r x) = step-IsOwned x (reached-IsOwned r)
