-- ===== src/Dispatch/Tests.antt =====
-- Packets and their handlers.
use g_plat.Prelude.{◌+◌, ◌*◌, ◌^◌, ◌==◌, ◌≡◌, none, some, inr, if◌then◌else◌, arith}
use g_plat.Dispatch.{id_readq, msg_id, thread_recv_proc_func}
use g_plat.Dispatch.Table.{handler_of, thread_recv-MsgId}

thread_recv_example :
    (thread_recv_proc_func 7 7 (msg_id id_readq + 2 ^ 16 * 1)
      ≡ (if 7 == 7 then some (handler_of id_readq) else none))
    × (thread_recv_proc_func 7 7 60 ≡ none)
thread_recv_example = thread_recv-MsgId 7 7 1 60 id_readq (inr (omega arith))
