-- ===== src/Network/Queue.antt =====
-- Clients that write and read a queue over the network, beside a bounded FIFO.
use g_plat.Prelude.{
  subst, sym, false, ◌≤◌, ℕ, ◌-◌, ◌<◌, ◌≡◌, refl, ap, ap₂, ◌∙◌, Option, none, some, List, [], ◌∷◌,
  arith, length, map,
}
use g_plat.Errors.{done}
use g_plat.FileTable.{fetch_tab, Handles}
use g_plat.Queue.{Queue}
use g_plat.Queue.Contents.{IsBinary, contents}
use g_plat.Queue.Fifo
use g_plat.Queue.Fifo.{Op, OpFits, Reply, write, read, wrote, got, peeked, popped, cleared, told}
use g_plat.Queue.Refine.{step, step-Simulates}
use g_plat.Subscribe.{get_subscriber}
use g_plat.Library.{queue_file}
use g_plat.Handlers.{Gplat}
use g_plat.Handlers.Error.{new_answer}
use g_plat.Network.Demand.{Demand, ask_write, ask_read, demand, op_of, heard, demand-Steps}

-- The answers to the requests, one after the other; `none` where the server does not go on.
pub serve_all : List ℕ → Gplat → List Demand → Option (List (ℕ × List ℕ))
serve_all name g [] = some []
serve_all name g (d ∷ ds) = elim (demand name g d) [
  | none ↦ none
  | some g' ↦ elim (serve_all name g' ds) [ none ↦ none | some rs ↦ some (new_answer g g' ∷ rs) ]
]

serve_all-cons :
    (name : List ℕ) (g g' : Gplat) (d : Demand) (ds : List Demand) (rs : List (ℕ × List ℕ))
    → demand name g d ≡ some g'
    → serve_all name g' ds ≡ some rs
    → serve_all name g (d ∷ ds) ≡ some (new_answer g g' ∷ rs)
unfolding serve_all
serve_all-cons name g g' d ds rs e f = rw (e, serve_all) (rw (f, serve_all) refl)

fits : (d : Demand) → OpFits (op_of d)
fits (ask_write c env bytes) = omega arith
fits (ask_read c env n) = tt

-- Any sequence of requests of writeq and readq, from any connections and with any sizes, on a normal
-- queue of binary records that is mapped under the name, to which at most 500 clients have
-- subscribed: a server that runs answers every one of them, and the errors and the records in the
-- answers are those of the FIFO of `num - 1` places that holds what the queue held at the start.
pub serve_all-fifo :
    (ds : List Demand) (name : List ℕ) (g : Gplat) {hd : Handles} {q : Queue}
    → length name < 40
    → fetch_tab g.library.table name ≡ done hd
    → g.library.mapped hd.map_address ≡ queue_file q
    → IsBinary q
    → g.server.exited ≡ false
    → length (get_subscriber g.server.subscriptions name) ≤ 500
    → serve_all name g ds
      ≡ some (map heard (Fifo.run (q.num - 1) q.size (contents q) (map op_of ds)))
unfolding serve_all Fifo.run
serve_all-fifo [] name g short loaded mapped v running few = refl
serve_all-fifo (d ∷ ds) name g {hd} {q} short loaded mapped v running few =
    let s = demand-Steps name g d short loaded mapped running few v in
    let (e, v', n, k) = step-Simulates (op_of d) v (fits d) in
    let q' = (step q (op_of d)).1 in
    serve_all-cons name g s.after d ds _ s.goes (
      serve_all-fifo ds name s.after short (ap (λ t. fetch_tab t name) s.table ∙ loaded) s.mapped v'
        s.running (subst (λ x. length (get_subscriber x name) ≤ 500) (sym s.subscriptions) few))
    ∙ ap (λ x. some (x ∷ map heard (Fifo.run (q'.num - 1) q'.size (contents q') (map op_of ds))))
        s.answer
    ∙ ap₂
        (λ a b. some (
          heard (step q (op_of d)).0 ∷ map heard (Fifo.run (a - 1) b (contents q') (map op_of ds))))
        n k
    ∙ ap (λ p. some (heard p.0 ∷ map heard (Fifo.run (q.num - 1) q.size p.1 (map op_of ds)))) e
