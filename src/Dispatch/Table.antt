-- ===== src/Dispatch/Table.antt =====
-- The table of handlers against the numbers of MSGID.
use g_plat.Prelude.{
  ℕ, zero, suc, ◌+◌, ◌*◌, ◌<◌, ◌≤◌, ◌⊎◌, inl, inr, not, if◌then◌else◌, ◌%◌, ◌^◌, ◌≡◌, ◌∙◌, refl,
  Option, none, some, arith, leb, ◌==◌, length, Bool, true, false,
}
use g_plat.Dispatch.{
  MsgId, msg_id, Handler, status_handler, handler_at, thread_recv_proc_func, id_succeed, id_fail,
  id_connect, id_reconnect, id_disconnect, id_open, id_openq, id_closeq, id_clearq, id_isemptyq,
  id_isfullq, id_readq, id_peekq, id_writeq, id_readb, id_readbstring, id_writeb, id_qdata,
  id_readhead, id_mulreadq, id_setptrq, id_watchdog, id_selecttb, id_cleartb, id_inserttb,
  id_refreshtb, id_readtype, id_createitem, id_createtable, id_deleteitem, id_deletetable,
  id_readheadb, id_readheaddb, id_ack, id_poparecordq, id_writebstring, id_writetol1, id_subscribe,
  id_cancelsubscribe, id_post, id_postwait, id_passtoserver, id_clearb, id_cleardb,
  id_registerplcserver, id_writebplc, id_writebstringplc, id_readboardinfo, id_createqueue, noop,
  clear_q_handler, read_q_handler, write_q_handler, read_b_handler, read_b_string_handler,
  write_b_handler, read_type_handler, create_item_handler, delete_item_handler,
  write_b_string_handler, subscribe_handler, post_wait_handler, clear_b_handler,
  register_plc_server_handler, write_b_plc_handler, write_b_string_plc_handler,
  read_board_info_handler, create_queue_handler,
}

-- The handler that belongs to a message by its name.
abbrev pub handler_of : MsgId → Handler
handler_of id_succeed = noop
handler_of id_fail = noop
handler_of id_connect = noop
handler_of id_reconnect = noop
handler_of id_disconnect = noop
handler_of id_open = noop
handler_of id_openq = noop
handler_of id_closeq = noop
handler_of id_clearq = clear_q_handler
handler_of id_isemptyq = noop
handler_of id_isfullq = noop
handler_of id_readq = read_q_handler
handler_of id_peekq = noop
handler_of id_writeq = write_q_handler
handler_of id_readb = read_b_handler
handler_of id_readbstring = read_b_string_handler
handler_of id_writeb = write_b_handler
handler_of id_qdata = noop
handler_of id_readhead = noop
handler_of id_mulreadq = noop
handler_of id_setptrq = noop
handler_of id_watchdog = noop
handler_of id_selecttb = noop
handler_of id_cleartb = noop
handler_of id_inserttb = noop
handler_of id_refreshtb = noop
handler_of id_readtype = read_type_handler
handler_of id_createitem = create_item_handler
handler_of id_createtable = noop
handler_of id_deleteitem = delete_item_handler
handler_of id_deletetable = noop
handler_of id_readheadb = noop
handler_of id_readheaddb = noop
handler_of id_ack = noop
handler_of id_poparecordq = noop
handler_of id_writebstring = write_b_string_handler
handler_of id_writetol1 = noop
handler_of id_subscribe = subscribe_handler
handler_of id_cancelsubscribe = noop
handler_of id_post = noop
handler_of id_postwait = post_wait_handler
handler_of id_passtoserver = noop
handler_of id_clearb = clear_b_handler
handler_of id_cleardb = noop
handler_of id_registerplcserver = register_plc_server_handler
handler_of id_writebplc = write_b_plc_handler
handler_of id_writebstringplc = write_b_string_plc_handler
handler_of id_readboardinfo = read_board_info_handler
handler_of id_createqueue = create_queue_handler

handler_at-reserved : (i : ℕ) → i < 5 → handler_at status_handler i ≡ none
handler_at-reserved zero h = refl
handler_at-reserved (suc zero) h = refl
handler_at-reserved (suc (suc zero)) h = refl
handler_at-reserved (suc (suc (suc zero))) h = refl
handler_at-reserved (suc (suc (suc (suc zero)))) h = refl
handler_at-reserved (suc (suc (suc (suc (suc i))))) h = ground (arith, h)

msg_id-small : (m : MsgId) → msg_id m < 54
msg_id-small id_succeed = omega arith
msg_id-small id_fail = omega arith
msg_id-small id_connect = omega arith
msg_id-small id_reconnect = omega arith
msg_id-small id_disconnect = omega arith
msg_id-small id_open = omega arith
msg_id-small id_openq = omega arith
msg_id-small id_closeq = omega arith
msg_id-small id_clearq = omega arith
msg_id-small id_isemptyq = omega arith
msg_id-small id_isfullq = omega arith
msg_id-small id_readq = omega arith
msg_id-small id_peekq = omega arith
msg_id-small id_writeq = omega arith
msg_id-small id_readb = omega arith
msg_id-small id_readbstring = omega arith
msg_id-small id_writeb = omega arith
msg_id-small id_qdata = omega arith
msg_id-small id_readhead = omega arith
msg_id-small id_mulreadq = omega arith
msg_id-small id_setptrq = omega arith
msg_id-small id_watchdog = omega arith
msg_id-small id_selecttb = omega arith
msg_id-small id_cleartb = omega arith
msg_id-small id_inserttb = omega arith
msg_id-small id_refreshtb = omega arith
msg_id-small id_readtype = omega arith
msg_id-small id_createitem = omega arith
msg_id-small id_createtable = omega arith
msg_id-small id_deleteitem = omega arith
msg_id-small id_deletetable = omega arith
msg_id-small id_readheadb = omega arith
msg_id-small id_readheaddb = omega arith
msg_id-small id_ack = omega arith
msg_id-small id_poparecordq = omega arith
msg_id-small id_writebstring = omega arith
msg_id-small id_writetol1 = omega arith
msg_id-small id_subscribe = omega arith
msg_id-small id_cancelsubscribe = omega arith
msg_id-small id_post = omega arith
msg_id-small id_postwait = omega arith
msg_id-small id_passtoserver = omega arith
msg_id-small id_clearb = omega arith
msg_id-small id_cleardb = omega arith
msg_id-small id_registerplcserver = omega arith
msg_id-small id_writebplc = omega arith
msg_id-small id_writebstringplc = omega arith
msg_id-small id_readboardinfo = omega arith
msg_id-small id_createqueue = omega arith

handler_at-msg_id : (m : MsgId) → handler_at status_handler (msg_id m) ≡ some (handler_of m)
handler_at-msg_id id_succeed = refl
handler_at-msg_id id_fail = refl
handler_at-msg_id id_connect = refl
handler_at-msg_id id_reconnect = refl
handler_at-msg_id id_disconnect = refl
handler_at-msg_id id_open = refl
handler_at-msg_id id_openq = refl
handler_at-msg_id id_closeq = refl
handler_at-msg_id id_clearq = refl
handler_at-msg_id id_isemptyq = refl
handler_at-msg_id id_isfullq = refl
handler_at-msg_id id_readq = refl
handler_at-msg_id id_peekq = refl
handler_at-msg_id id_writeq = refl
handler_at-msg_id id_readb = refl
handler_at-msg_id id_readbstring = refl
handler_at-msg_id id_writeb = refl
handler_at-msg_id id_qdata = refl
handler_at-msg_id id_readhead = refl
handler_at-msg_id id_mulreadq = refl
handler_at-msg_id id_setptrq = refl
handler_at-msg_id id_watchdog = refl
handler_at-msg_id id_selecttb = refl
handler_at-msg_id id_cleartb = refl
handler_at-msg_id id_inserttb = refl
handler_at-msg_id id_refreshtb = refl
handler_at-msg_id id_readtype = refl
handler_at-msg_id id_createitem = refl
handler_at-msg_id id_createtable = refl
handler_at-msg_id id_deleteitem = refl
handler_at-msg_id id_deletetable = refl
handler_at-msg_id id_readheadb = refl
handler_at-msg_id id_readheaddb = refl
handler_at-msg_id id_ack = refl
handler_at-msg_id id_poparecordq = refl
handler_at-msg_id id_writebstring = refl
handler_at-msg_id id_writetol1 = refl
handler_at-msg_id id_subscribe = refl
handler_at-msg_id id_cancelsubscribe = refl
handler_at-msg_id id_post = refl
handler_at-msg_id id_postwait = refl
handler_at-msg_id id_passtoserver = refl
handler_at-msg_id id_clearb = refl
handler_at-msg_id id_cleardb = refl
handler_at-msg_id id_registerplcserver = refl
handler_at-msg_id id_writebplc = refl
handler_at-msg_id id_writebstringplc = refl
handler_at-msg_id id_readboardinfo = refl
handler_at-msg_id id_createqueue = refl

abbrev chosen : Bool → ℕ → Option Handler
chosen b code =
    if not b
    then none
    else if leb (length status_handler) code
    then none
    else handler_at status_handler code

chosen-same :
    (b : Bool) (code c : ℕ) (h : Handler)
    → code ≡ c
    → c < 54
    → handler_at status_handler c ≡ some h
    → chosen b code ≡ (if b then some h else none)
chosen-same true code c h e small at = rw (e) (ground (arith, small, at))
chosen-same false code c h e small at = refl

chosen-far : (b : Bool) (code : ℕ) → (code < 5) ⊎ (54 ≤ code) → chosen b code ≡ none
chosen-far true code (inl h) = ground (arith, handler_at-reserved code h)
chosen-far true code (inr h) = ground (arith, h)
chosen-far false code h = refl

-- A packet with the number of a message, or one that differs from it by a multiple of 65536, reaches
-- the handler of that message if the connection still belongs to the client, and none otherwise. A
-- packet whose number, cut to 16 bits, is below 5 or not below 54 reaches none.
pub thread_recv-MsgId :
    (current sequence k id : ℕ) (m : MsgId)
    → (id % 2 ^ 16 < 5) ⊎ (54 ≤ id % 2 ^ 16)
    → (thread_recv_proc_func current sequence (msg_id m + 2 ^ 16 * k)
        ≡ (if current == sequence then some (handler_of m) else none))
      × (thread_recv_proc_func current sequence id ≡ none)
unfolding thread_recv_proc_func
thread_recv-MsgId current sequence k id m far = (
  chosen-same (current == sequence) ((msg_id m + 2 ^ 16 * k) % 2 ^ 16) (msg_id m) (handler_of m)
      (omega (arith, msg_id-small m)) (msg_id-small m) (handler_at-msg_id m),
  chosen-far (current == sequence) (id % 2 ^ 16) far,
)

pub thread_recv-same :
    (sequence : ℕ) (m : MsgId)
    → thread_recv_proc_func sequence sequence (msg_id m) ≡ some (handler_of m)
unfolding thread_recv_proc_func
thread_recv-same sequence m =
    chosen-same (sequence == sequence) (msg_id m % 2 ^ 16) (msg_id m) (handler_of m)
      (omega (arith, msg_id-small m)) (msg_id-small m) (handler_at-msg_id m)
    ∙ ground arith
