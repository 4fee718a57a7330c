-- ===== src/Handlers/Failure.antt =====
-- A request that is answered with an error leaves the files alone.
use g_plat.Prelude.{
  true, false, ltb, ◌%◌, ◌^◌, ◌∙◌, if◌then◌else◌, Bool, ℕ, ◌≡◌, ◌≢◌, refl, sym, ap, Option, none,
  some, List, [], ◌==◌, length,
}
use g_plat.Errors.{Outcome}
use g_plat.Message.{Head}
use g_plat.Server.{notify_subscriber}
use g_plat.Server.Sends.{notify_subscriber-Sends}
use g_plat.Library.{
  Library, on_queue, on_board, fits, clear_b_named, create_item_named, read_type_named,
}
use g_plat.Queue.{Read, read_q, binary_type, max_msg_len}
use g_plat.Queue.Put.{write_q}
use g_plat.Queue.Make.{create_q}
use g_plat.Board.{read_b, read_b_string2}
use g_plat.Board.Store.{write_b, write_b_string}
use g_plat.Board.Erase.{delete_item}
use g_plat.Dispatch.{
  Handler, thread_recv_proc_func, noop, clear_q_handler, read_q_handler, write_q_handler,
  read_b_handler, read_b_string_handler, write_b_handler, read_type_handler, create_item_handler,
  delete_item_handler, write_b_string_handler, subscribe_handler, post_wait_handler,
  clear_b_handler, register_plc_server_handler, write_b_plc_handler, write_b_string_plc_handler,
  read_board_info_handler, create_queue_handler,
}
use g_plat.Handlers.{
  Gplat, Env, answer, publish, in_buffer, event_body, handle_read_q, handle_write_q, handle_read_b,
  handle_write_b, handle_read_b_string, handle_write_b_string, handle_clear_b, handle_read_type,
  handle_create_item, handle_delete_item, handle_write_b_plc, handle_read_board_info,
  handle_create_queue,
}
use g_plat.Handlers.Serve.{serve, call_handler, unless_exited}
use g_plat.Handlers.Keeps.{
  on_queue-Keeps, on_board-Keeps, read_q-Keeps, write_q-Keeps, write_b-Keeps, write_b_string-Keeps,
  delete_item-Keeps, create_item_named-Keeps, clear_b_named-Keeps, read_type_named-Keeps,
  fits-Keeps,
}
use g_plat.Handlers.Error.{
  new_answer, mapped_of, finish-error, bare-error, read-error, publish-Sends, nothing_more,
  info-error,
}

plc-mapped :
    (g x g' : Gplat) (short : Bool)
    → x.library.mapped ≡ g.library.mapped
    → (if short then none else some x) ≡ some g'
    → g'.library.mapped ≡ g.library.mapped
plc-mapped g x g' true h e = cc e
plc-mapped g x g' false h e = sym (mapped_of e) ∙ h

handler-error :
    (g g' : Gplat) (env : Env) (c : ℕ) (h : Head) (body : List ℕ) (handler : Handler)
    → handler ≢ clear_q_handler
    → call_handler handler g env c h body ≡ some g'
    → (new_answer g g').0 ≢ 0
    → g'.library.mapped ≡ g.library.mapped
unfolding handle_read_q handle_write_q handle_read_b handle_write_b handle_read_b_string
    handle_write_b_string handle_clear_b handle_read_type handle_create_item handle_delete_item
    handle_write_b_plc handle_read_board_info handle_create_queue
handler-error g g' env c h body noop ne e bad = sym (mapped_of e)
handler-error g g' env c h body clear_q_handler ne e bad = absurd (ne refl)
handler-error g g' env c h body read_q_handler ne e bad =
    read-error g g' env.thread c h
      (λ (r : Read). answer g.server c h 0 (in_buffer env h.datasize r.0))
      (on_queue g.library h.qname (λ q. read_q q h.datasize)) (λ x. refl)
      (on_queue-Keeps g.library h.qname _ (read_q-Keeps h.datasize)) e bad
handler-error g g' env c h body write_q_handler ne e bad =
    bare-error g g' env.thread c h (λ s. notify_subscriber s h.qname (event_body h body))
      (on_queue g.library h.qname (λ q. write_q q body h.datasize none env.date))
      (λ s. notify_subscriber-Sends s h.qname (event_body h body))
      (on_queue-Keeps g.library h.qname _ (write_q-Keeps body h.datasize none env.date)) e bad
handler-error g g' env c h body read_b_handler ne e bad =
    read-error g g' env.thread c h
      (λ (r : List ℕ × ℕ). record (answer g.server c h 0 r.0) { timestamp = r.1 })
      (on_board g.library h.qname (λ b. (read_b b h.itemname h.datasize, b))) (λ x. refl)
      (on_board-Keeps g.library h.qname _ (λ b d. refl)) e bad
handler-error g g' env c h body read_b_string_handler ne e bad =
    let r : Outcome (List ℕ × ℕ) × Library =
      on_board g.library h.qname (λ b. (read_b_string2 b h.itemname h.datasize, b)) in
    read-error g g' env.thread c h
      (λ (r : List ℕ × ℕ). record (answer g.server c h 0 r.0) { timestamp = r.1 })
      (fits max_msg_len (λ r. r.0) r) (λ x. refl)
      (fits-Keeps max_msg_len (λ r. r.0) r g.library
        (on_board-Keeps g.library h.qname _ (λ b d. refl)))
      e bad
handler-error g g' env c h body write_b_handler ne e bad =
    bare-error g g' env.thread c h (publish h body)
      (on_board g.library h.qname (λ b. write_b b h.itemname body h.datasize none env.now))
      (publish-Sends h body)
      (on_board-Keeps g.library h.qname _ (write_b-Keeps h.itemname body h.datasize env.now)) e bad
handler-error g g' env c h body write_b_string_handler ne e bad =
    bare-error g g' env.thread c h (publish h body)
      (on_board g.library h.qname (λ b. write_b_string b h.itemname body h.datasize none env.now))
      (publish-Sends h body)
      (on_board-Keeps g.library h.qname _ (write_b_string-Keeps h.itemname body h.datasize env.now))
      e bad
handler-error g g' env c h body clear_b_handler ne e bad =
    bare-error g g' env.thread c h (λ s. s) (clear_b_named g.library h.qname) nothing_more
      (clear_b_named-Keeps g.library h.qname) e bad
handler-error g g' env c h body read_type_handler ne e bad =
    finish-error g g' env.thread (λ e. record (answer g.server c h e []) { recsize = 0 })
      (λ typ. record (answer g.server c h 0 typ) { recsize = length typ }) (λ _ s. s)
      (read_type_named g.library h.qname h.itemname h.datasize) (λ x. refl) (λ x. nothing_more)
      (read_type_named-Keeps g.library h.qname h.itemname h.datasize) e bad
handler-error g g' env c h body create_item_handler ne e bad =
    bare-error g g' env.thread c h (λ s. s)
      (create_item_named g.library h.qname h.itemname h.recsize (some body) h.bodysize env.now)
      nothing_more
      (create_item_named-Keeps g.library h.qname h.itemname h.recsize (some body) h.bodysize
        env.now)
      e bad
handler-error g g' env c h body delete_item_handler ne e bad =
    bare-error g g' env.thread c h (λ s. s)
      (on_board g.library h.qname (λ b. delete_item b h.itemname)) nothing_more
      (on_board-Keeps g.library h.qname _ (delete_item-Keeps h.itemname)) e bad
handler-error g g' env c h body subscribe_handler ne e bad = sym (mapped_of e)
handler-error g g' env c h body post_wait_handler ne e bad = sym (mapped_of e)
handler-error g g' env c h body register_plc_server_handler ne e bad = sym (mapped_of e)
handler-error g g' env c h body write_b_plc_handler ne e bad =
    plc-mapped g _ g' (ltb (length body) (h.datasize % 2 ^ 16)) refl e
handler-error g g' env c h body write_b_string_plc_handler ne e bad =
    plc-mapped g _ g' (ltb (length body) (h.datasize % 2 ^ 16)) refl e
handler-error g g' env c h body read_board_info_handler ne e bad =
    info-error g g' env c h (h.datasize == 16) e bad
handler-error g g' env c h body create_queue_handler ne e bad =
    bare-error g g' env.thread c h (λ s. s)
      (
        create_q env.os env.path h.qname h.recsize h.count binary_type h.start (some body)
            h.bodysize env.date,
        g.library,
      )
      nothing_more (λ d. refl) e bad

not_none : (b : Bool) (g g' : Gplat) → (if b then none else some g) ≡ some g' → some g ≡ some g'
not_none true g g' e = cc e
not_none false g g' e = e

running : (o : Option Gplat) (g' : Gplat) → unless_exited o ≡ some g' → o ≡ some g'
running none g' e = cc e
running (some g) g' e = not_none g.server.exited g g' e

-- A packet that is not for HandleClearQ, and whose first answer carries an error: every mapped file is
-- as it was.
pub serve-error :
    (g g' : Gplat) (env : Env) (c sequence : ℕ) (h : Head) (body : List ℕ)
    → thread_recv_proc_func (g.server.conns c).sequence sequence h.id ≢ some clear_q_handler
    → serve g env c sequence h body ≡ some g'
    → (new_answer g g').0 ≢ 0
    → g'.library.mapped ≡ g.library.mapped
unfolding serve
serve-error g g' env c sequence h body =
    by_handler (thread_recv_proc_func (g.server.conns c).sequence sequence h.id)
  where
    by_handler :
        (o : Option Handler)
        → o ≢ some clear_q_handler
        → elim o [
          | none ↦ unless_exited (some g)
          | some handler ↦ unless_exited (call_handler handler g env c h body)
        ]
          ≡ some g'
        → (new_answer g g').0 ≢ 0
        → g'.library.mapped ≡ g.library.mapped
    by_handler none ne e bad = sym (mapped_of (running (some g) g' e))
    by_handler (some handler) ne e bad =
        handler-error g g' env c h body handler (λ same. ne (ap some same))
          (running (call_handler handler g env c h body) g' e) bad
