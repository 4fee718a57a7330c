-- ===== src/Dispatch.antt =====
-- Which handler a packet reaches: MSGID of include/msg.h, statusHandler and threadRecvProcFunc of
-- gplat/ngx_c_slogic.cxx.
pub mod Table
mod Tests
use g_plat.Prelude.{
  ℕ, zero, suc, ◌%◌, ◌^◌, not, Option, none, some, List, [], ◌∷◌, leb, ◌==◌, if◌then◌else◌, length,
}

-- `MSGID`
pub data MsgId : Type 0 where
  id_succeed : MsgId
  id_fail : MsgId
  id_connect : MsgId
  id_reconnect : MsgId
  id_disconnect : MsgId
  id_open : MsgId
  id_openq : MsgId
  id_closeq : MsgId
  id_clearq : MsgId
  id_isemptyq : MsgId
  id_isfullq : MsgId
  id_readq : MsgId
  id_peekq : MsgId
  id_writeq : MsgId
  id_readb : MsgId
  id_readbstring : MsgId
  id_writeb : MsgId
  id_qdata : MsgId
  id_readhead : MsgId
  id_mulreadq : MsgId
  id_setptrq : MsgId
  id_watchdog : MsgId
  id_selecttb : MsgId
  id_cleartb : MsgId
  id_inserttb : MsgId
  id_refreshtb : MsgId
  id_readtype : MsgId
  id_createitem : MsgId
  id_createtable : MsgId
  id_deleteitem : MsgId
  id_deletetable : MsgId
  id_readheadb : MsgId
  id_readheaddb : MsgId
  id_ack : MsgId
  id_poparecordq : MsgId
  id_writebstring : MsgId
  id_writetol1 : MsgId
  id_subscribe : MsgId
  id_cancelsubscribe : MsgId
  id_post : MsgId
  id_postwait : MsgId
  id_passtoserver : MsgId
  id_clearb : MsgId
  id_cleardb : MsgId
  id_registerplcserver : MsgId
  id_writebplc : MsgId
  id_writebstringplc : MsgId
  id_readboardinfo : MsgId
  id_createqueue : MsgId

abbrev pub msg_id : MsgId → ℕ
msg_id id_succeed = 5
msg_id id_fail = 6
msg_id id_connect = 7
msg_id id_reconnect = 8
msg_id id_disconnect = 9
msg_id id_open = 10
msg_id id_openq = 11
msg_id id_closeq = 12
msg_id id_clearq = 13
msg_id id_isemptyq = 14
msg_id id_isfullq = 15
msg_id id_readq = 16
msg_id id_peekq = 17
msg_id id_writeq = 18
msg_id id_readb = 19
msg_id id_readbstring = 20
msg_id id_writeb = 21
msg_id id_qdata = 22
msg_id id_readhead = 23
msg_id id_mulreadq = 24
msg_id id_setptrq = 25
msg_id id_watchdog = 26
msg_id id_selecttb = 27
msg_id id_cleartb = 28
msg_id id_inserttb = 29
msg_id id_refreshtb = 30
msg_id id_readtype = 31
msg_id id_createitem = 32
msg_id id_createtable = 33
msg_id id_deleteitem = 34
msg_id id_deletetable = 35
msg_id id_readheadb = 36
msg_id id_readheaddb = 37
msg_id id_ack = 38
msg_id id_poparecordq = 39
msg_id id_writebstring = 40
msg_id id_writetol1 = 41
msg_id id_subscribe = 42
msg_id id_cancelsubscribe = 43
msg_id id_post = 44
msg_id id_postwait = 45
msg_id id_passtoserver = 46
msg_id id_clearb = 47
msg_id id_cleardb = 48
msg_id id_registerplcserver = 49
msg_id id_writebplc = 50
msg_id id_writebstringplc = 51
msg_id id_readboardinfo = 52
msg_id id_createqueue = 53

-- The member functions that the table points to.
pub data Handler : Type 0 where
  noop : Handler
  clear_q_handler : Handler
  read_q_handler : Handler
  write_q_handler : Handler
  read_b_handler : Handler
  read_b_string_handler : Handler
  write_b_handler : Handler
  read_type_handler : Handler
  create_item_handler : Handler
  delete_item_handler : Handler
  write_b_string_handler : Handler
  subscribe_handler : Handler
  post_wait_handler : Handler
  clear_b_handler : Handler
  register_plc_server_handler : Handler
  write_b_plc_handler : Handler
  write_b_string_plc_handler : Handler
  read_board_info_handler : Handler
  create_queue_handler : Handler

abbrev pub status_handler : List (Option Handler)
status_handler =
    none
    ∷ none
    ∷ none
    ∷ none
    ∷ none
    ∷ some noop
    ∷ some noop
    ∷ some noop
    ∷ some noop
    ∷ some noop
    ∷ some noop
    ∷ some noop
    ∷ some noop
    ∷ some clear_q_handler
    ∷ some noop
    ∷ some noop
    ∷ some read_q_handler
    ∷ some noop
    ∷ some write_q_handler
    ∷ some read_b_handler
    ∷ some read_b_string_handler
    ∷ some write_b_handler
    ∷ some noop
    ∷ some noop
    ∷ some noop
    ∷ some noop
    ∷ some noop
    ∷ some noop
    ∷ some noop
    ∷ some noop
    ∷ some noop
    ∷ some read_type_handler
    ∷ some create_item_handler
    ∷ some noop
    ∷ some delete_item_handler
    ∷ some noop
    ∷ some noop
    ∷ some noop
    ∷ some noop
    ∷ some noop
    ∷ some write_b_string_handler
    ∷ some noop
    ∷ some subscribe_handler
    ∷ some noop
    ∷ some noop
    ∷ some post_wait_handler
    ∷ some noop
    ∷ some clear_b_handler
    ∷ some noop
    ∷ some register_plc_server_handler
    ∷ some write_b_plc_handler
    ∷ some write_b_string_plc_handler
    ∷ some read_board_info_handler
    ∷ some create_queue_handler
    ∷ []

abbrev pub handler_at : List (Option Handler) → ℕ → Option Handler
handler_at [] i = none
handler_at (h ∷ hs) zero = h
handler_at (h ∷ hs) (suc i) = handler_at hs i

-- threadRecvProcFunc: the sequence numbers are those of the connection and of the packet. The code is
-- the `id` of the packet, cut to an unsigned short.
unfoldable pub thread_recv_proc_func : ℕ → ℕ → ℕ → Option Handler
thread_recv_proc_func current sequence id =
    let code = id % 2 ^ 16 in
    if not (current == sequence)
    then none
    else if leb (length status_handler) code
    then none
    else handler_at status_handler code
