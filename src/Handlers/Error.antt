-- ===== src/Handlers/Error.antt =====
-- An answer with an error, and the files.
use g_plat.Prelude.{
  ℕ, ◌≡◌, ◌≢◌, refl, sym, ap, ◌∙◌, Bool, true, false, some, List, [], ◌∷◌, ◌++◌, ◌==◌,
  if◌then◌else◌, length, drop, drop-length,
}
use mathlib.Core.List.{append_assoc}
use g_plat.Errors.{Outcome, done, fail, refuse, fault, hang, error_recordsize}
use g_plat.Message.{Head}
use g_plat.Server.{Server, Message, msg_send, notify_subscriber}
use g_plat.Server.Sends.{Sends, Sends-same, Sends-if, notify_subscriber-Sends}
use g_plat.Library.{Library, on_board}
use g_plat.Board.{read_board_info}
use g_plat.Handlers.{
  Gplat, Env, answer, finish, finish_bare, finish_read, publish, event_body, info_bytes,
}
use g_plat.Handlers.Keeps.{Keeps, on_board-Keeps}

-- The error and the body of the first message.
abbrev pub first_answer : List Message → ℕ × List ℕ
first_answer [] = (0, [])
first_answer (m ∷ _) = (m.error, m.body)

-- That of the messages that came to those for the sending thread.
abbrev pub new_answer : Gplat → Gplat → ℕ × List ℕ
new_answer g g' = first_answer (drop (length g.server.send_queue) g'.server.send_queue)

sent_first :
    (old : List Message) (m : Message) (s s' : Server)
    → s.send_queue ≡ old
    → Sends (msg_send s m) s'
    → first_answer (drop (length old) s'.send_queue) ≡ (m.error, m.body)
sent_first old m s s' e x =
    ap (λ queue. first_answer (drop (length old) queue))
      (x.sent ∙ ap (λ q. (q ++ m ∷ []) ++ x.more) e ∙ append_assoc old (m ∷ []) x.more)
    ∙ ap first_answer (drop-length old (m ∷ x.more))

pub mapped_of : {x y : Gplat} → some x ≡ some y → x.library.mapped ≡ y.library.mapped
mapped_of {x} {y} e = let same : x ≡ y = cc e in ap (λ g. g.library.mapped) same

-- A handler that ends in `finish`, where the message of success has no error.
pub finish-error :
    {A : Type 0} (g g' : Gplat) (t : ℕ) (failed : ℕ → Message) (sent : A → Message)
    (after : A → Server → Server) (r : Outcome A × Library)
    → ((x : A) → (sent x).error ≡ 0)
    → ((x : A) (s : Server) → Sends s (after x s))
    → Keeps r g.library
    → finish g t failed sent after r ≡ some g'
    → (new_answer g g').0 ≢ 0
    → g'.library.mapped ≡ g.library.mapped
finish-error g g' t failed sent after (done x, L) no_error sends k e bad =
    let is : record { library = L; server = after x (msg_send g.server (sent x)) } ≡ g' = cc e in
    absurd (
      bad (
        ap (λ g'. (new_answer g g').0) (sym is)
        ∙ ap (λ p. p.0)
            (sent_first g.server.send_queue (sent x) g.server _ refl
              (sends x (msg_send g.server (sent x))))
        ∙ no_error x))
finish-error g g' t failed sent after (fail n, L) no_error sends k e bad =
    sym (mapped_of e) ∙ ap (λ l. l.mapped) (k refl)
finish-error g g' t failed sent after (refuse, L) no_error sends k e bad =
    sym (mapped_of e) ∙ ap (λ l. l.mapped) (k refl)
finish-error g g' t failed sent after (fault, L) no_error sends k e bad = cc e
finish-error g g' t failed sent after (hang, L) no_error sends k e bad = cc e

pub bare-error :
    {A : Type 0} (g g' : Gplat) (t c : ℕ) (h : Head) (after : Server → Server)
    (r : Outcome A × Library)
    → ((s : Server) → Sends s (after s))
    → Keeps r g.library
    → finish_bare g t c h after r ≡ some g'
    → (new_answer g g').0 ≢ 0
    → g'.library.mapped ≡ g.library.mapped
bare-error g g' t c h after r sends =
    finish-error g g' t (λ e. answer g.server c h e []) (λ _. answer g.server c h 0 []) (λ _. after)
      r (λ x. refl) (λ x. sends)

pub read-error :
    {A : Type 0} (g g' : Gplat) (t c : ℕ) (h : Head) (sent : A → Message) (r : Outcome A × Library)
    → ((x : A) → (sent x).error ≡ 0)
    → Keeps r g.library
    → finish_read g t c h sent r ≡ some g'
    → (new_answer g g').0 ≢ 0
    → g'.library.mapped ≡ g.library.mapped
read-error g g' t c h sent r no_error =
    finish-error g g' t (λ e. answer g.server c h e []) sent (λ _ s. s) r no_error
      (λ x s. Sends-same s s refl)

pub publish-Sends : (h : Head) (body : List ℕ) (s : Server) → Sends s (publish h body s)
publish-Sends h body s =
    Sends-if (h.start == 1) s (notify_subscriber s h.itemname (event_body h body)) s
      (notify_subscriber-Sends s h.itemname (event_body h body)) (Sends-same s s refl)

pub nothing_more : (s : Server) → Sends s s
nothing_more s = Sends-same s s refl

-- HandleReadBoardInfo, on either side of its test.
pub info-error :
    (g g' : Gplat) (env : Env) (c : ℕ) (h : Head) (b : Bool)
    → (if b
        then finish_read g env.thread c h
            (λ info. answer g.server c h 0 (info_bytes info))
            (on_board g.library h.qname (λ b. (done (read_board_info b), b)))
        else some
            (record g { server = msg_send g.server (answer g.server c h error_recordsize []) }))
      ≡ some g'
    → (new_answer g g').0 ≢ 0
    → g'.library.mapped ≡ g.library.mapped
info-error g g' env c h true e bad =
    read-error g g' env.thread c h (λ info. answer g.server c h 0 (info_bytes info))
      (on_board g.library h.qname (λ b. (done (read_board_info b), b))) (λ x. refl)
      (on_board-Keeps g.library h.qname _ (λ b d. refl)) e bad
info-error g g' env c h false e bad = sym (mapped_of e)
