-- ===== src/Handlers/Serve.antt =====
-- threadRecvProcFunc of gplat/ngx_c_slogic.cxx with the call of the handler.
use g_plat.Prelude.{ℕ, ◌-◌, ◌^◌, Option, none, some, List, ◌==◌, if◌then◌else◌}
use g_plat.Message.{Head}
use g_plat.Server.Handle.{handle_subscribe, handle_register_plc_server, handle_post_wait}
use g_plat.Dispatch.{
  Handler, thread_recv_proc_func, noop, clear_q_handler, read_q_handler, write_q_handler,
  read_b_handler, read_b_string_handler, write_b_handler, read_type_handler, create_item_handler,
  delete_item_handler, write_b_string_handler, subscribe_handler, post_wait_handler,
  clear_b_handler, register_plc_server_handler, write_b_plc_handler, write_b_string_plc_handler,
  read_board_info_handler, create_queue_handler,
}
use g_plat.Handlers.{
  Gplat, Env, handle_read_q, handle_write_q, handle_clear_q, handle_read_b, handle_write_b,
  handle_read_b_string, handle_write_b_string, handle_clear_b, handle_read_type, handle_create_item,
  handle_delete_item, handle_write_b_plc, handle_read_board_info, handle_create_queue,
}

-- `dwWaitingTime`, with `none` for -1.
abbrev pub timeout_of : Head → Option ℕ
timeout_of h = if h.timeout == 2 ^ 32 - 1 then none else some h.timeout

-- `(this->*statusHandler[imsgCode])(...)`
abbrev pub call_handler : Handler → Gplat → Env → ℕ → Head → List ℕ → Option Gplat
call_handler noop g env c h body = some g
call_handler clear_q_handler g env c h body = handle_clear_q g env c h
call_handler read_q_handler g env c h body = handle_read_q g env c h
call_handler write_q_handler g env c h body = handle_write_q g env c h body
call_handler read_b_handler g env c h body = handle_read_b g env c h
call_handler read_b_string_handler g env c h body = handle_read_b_string g env c h
call_handler write_b_handler g env c h body = handle_write_b g env c h body
call_handler read_type_handler g env c h body = handle_read_type g env c h
call_handler create_item_handler g env c h body = handle_create_item g env c h body
call_handler delete_item_handler g env c h body = handle_delete_item g env c h
call_handler write_b_string_handler g env c h body = handle_write_b_string g env c h body
call_handler subscribe_handler g env c h body =
    some (record g { server = handle_subscribe g.server c h.itemname h.qname h.eventid h.eventarg })
call_handler post_wait_handler g env c h body =
    some (record g { server = handle_post_wait g.server c (timeout_of h) })
call_handler clear_b_handler g env c h body = handle_clear_b g env c h
call_handler register_plc_server_handler g env c h body =
    some (record g { server = handle_register_plc_server g.server c h.itemname })
call_handler write_b_plc_handler g env c h body = handle_write_b_plc g c h body
call_handler write_b_string_plc_handler g env c h body = handle_write_b_plc g c h body
call_handler read_board_info_handler g env c h body = handle_read_board_info g env c h
call_handler create_queue_handler g env c h body = handle_create_queue g env c h body

-- exit(1) in a handler ends the process.
abbrev pub unless_exited : Option Gplat → Option Gplat
unless_exited none = none
unless_exited (some g) = if g.server.exited then none else some g

-- A packet of the connection `c` that came under the number `sequence`.
unfoldable pub serve : Gplat → Env → ℕ → ℕ → Head → List ℕ → Option Gplat
unfolding thread_recv_proc_func
serve g env c sequence h body =
    elim (thread_recv_proc_func (g.server.conns c).sequence sequence h.id) [
      | none ↦ unless_exited (some g)
      | some handler ↦ unless_exited (call_handler handler g env c h body)
    ]
