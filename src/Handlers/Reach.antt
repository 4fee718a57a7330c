-- ===== src/Handlers/Reach.antt =====
-- A packet of a connection that is still the client's reaches its handler.
use g_plat.Prelude.{false, none, some, if◌then◌else◌, ℕ, ◌≡◌, refl, ap, ◌∙◌, List}
use g_plat.Message.{Head}
use g_plat.Dispatch.{MsgId, msg_id, thread_recv_proc_func}
use g_plat.Dispatch.Table.{handler_of, thread_recv-same}
use g_plat.Handlers.{Gplat, Env}
use g_plat.Handlers.Serve.{serve, call_handler, unless_exited}

pub serve-reaches :
    (g : Gplat) (env : Env) (c : ℕ) (h : Head) (body : List ℕ) (m : MsgId)
    → h.id ≡ msg_id m
    → serve g env c (g.server.conns c).sequence h body
      ≡ unless_exited (call_handler (handler_of m) g env c h body)
unfolding serve
serve-reaches g env c h body m e =
    let now = (g.server.conns c).sequence in
    rw (ap (thread_recv_proc_func now now) e ∙ thread_recv-same now m, serve) refl

pub goes_on : (g : Gplat) → g.server.exited ≡ false → unless_exited (some g) ≡ some g
goes_on g running = ap (λ b. if b then none else some g) running

-- The same where the handler does not call exit.
pub serve-goes :
    (g : Gplat) (env : Env) (c : ℕ) (h : Head) (body : List ℕ) (m : MsgId) {g' : Gplat}
    → h.id ≡ msg_id m
    → call_handler (handler_of m) g env c h body ≡ some g'
    → g'.server.exited ≡ false
    → serve g env c (g.server.conns c).sequence h body ≡ some g'
serve-goes g env c h body m {g'} e goes running =
    serve-reaches g env c h body m e ∙ ap unless_exited goes ∙ goes_on g' running
