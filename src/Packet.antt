-- ===== src/Packet.antt =====
-- The assembly of packets from the bytes of a connection in gplat/ngx_c_socket_request.cxx:
-- ngx_read_request_handler, recvproc, ngx_wait_request_handler_proc_p1 and _plast, with MSGHEAD of
-- include/msg.h.
pub mod Inv
pub mod States
pub mod Stream
pub mod Assembly
pub mod Sample
mod Tests
use g_plat.Prelude.{
  ℕ, ◌+◌, ◌-◌, ◌*◌, ◌%◌, ◌^◌, Bool, true, false, List, [], ◌∷◌, ◌++◌, ltb, ◌==◌, if◌then◌else◌,
  length, collect, copy_in,
}
use g_plat.Queue.{max_msg_len}

-- `sizeof(MSGHEAD)`, packed: int, char[40] twice, three ints, timespec, four ints, of which the last
-- is `bodysize`, six more, char[16] and four ints.
abbrev pub header_size : ℕ
header_size = 180

abbrev pub bodysize_offset : ℕ
bodysize_offset = 124

-- `curStat`
pub data Stat : Type 0 where
  hd_init : Stat
  hd_recving : Stat
  bd_init : Stat
  bd_recving : Stat

-- The buffer that `precvbuf` points into: `dataHeadInfo`, or the memory of a packet.
pub data Area : Type 0 where
  in_head : Area
  in_packet : Area

-- A connection as far as it receives. `recv_pos` is the place of `precvbuf` in its buffer, the
-- packet's counted from its MSGHEAD on; `inbox` is the message queue, the oldest packet first.
pub record Receiver : Type 0 where
  pub cur_stat : Stat
  pub area : Area
  pub recv_pos : ℕ
  pub recv_len : ℕ
  pub head : ℕ → ℕ
  pub packet : ℕ → ℕ
  pub inbox : List (List ℕ)
  pub closed : Bool
  pub cancelled : Bool

-- `e_pkgLen`: the int `bodysize` of the header, cut to an unsigned short.
abbrev pub body_size : (ℕ → ℕ) → ℕ
body_size head =
    (head bodysize_offset
      + 256 * head (bodysize_offset + 1)
      + 65536 * head (bodysize_offset + 2)
      + 16777216 * head (bodysize_offset + 3))
    % 2 ^ 16

abbrev pub expect_header : Receiver → Receiver
expect_header r = record r {
  cur_stat = hd_init;
  area = in_head;
  recv_pos = 0;
  recv_len = header_size;
}

-- ngx_wait_request_handler_proc_plast. The queue gets a pointer; whoever takes the packet reads as
-- many bytes as its header says.
unfoldable pub proc_plast : Receiver → Receiver
proc_plast r =
    expect_header
      (record r { inbox = r.inbox ++ collect r.packet 0 (header_size + body_size r.packet) ∷ [] })

-- ngx_wait_request_handler_proc_p1. The bytes of the new memory are those of the last one: any.
unfoldable pub proc_p1 : Receiver → Receiver
unfolding proc_plast
proc_p1 r =
    let size = body_size r.head in
    let filled = record r { packet = copy_in r.packet 0 (collect r.head 0 header_size) } in
    if ltb max_msg_len size
    then expect_header r
    else if size == 0
    then proc_plast filled
    else record filled {
      cur_stat = bd_init;
      area = in_packet;
      recv_pos = header_size;
      recv_len = size;
    }

-- What recv does with its buffer.
abbrev pub received : Receiver → List ℕ → Receiver
received r bytes = elim r.area [
  | in_head ↦ record r { head = copy_in r.head r.recv_pos bytes }
  | in_packet ↦ record r { packet = copy_in r.packet r.recv_pos bytes }
]

abbrev pub advance : Receiver → ℕ → Stat → Receiver
advance r n s = record r { cur_stat = s; recv_pos = r.recv_pos + n; recv_len = r.recv_len - n }

-- What recv answers: bytes, at least one; the end of the stream, EAGAIN or EINTR, another error.
pub data RecvResult : Type 0 where
  got : List ℕ → RecvResult
  ended : RecvResult
  again : RecvResult
  broken : RecvResult

-- The end of ngx_read_request_handler, for `reco` bytes that stand in the buffer.
unfoldable pub dispatch : Stat → Receiver → ℕ → Receiver
unfolding proc_p1 proc_plast
dispatch hd_init r reco = if reco == header_size then proc_p1 r else advance r reco hd_recving
dispatch hd_recving r reco = if r.recv_len == reco then proc_p1 r else advance r reco hd_recving
dispatch bd_init r reco = if reco == r.recv_len then proc_plast r else advance r reco bd_recving
dispatch bd_recving r reco = if r.recv_len == reco then proc_plast r else advance r reco bd_recving

-- ngx_read_request_handler, with recvproc in it. After EAGAIN and EINTR the socket stays open.
unfoldable pub read_request : Receiver → RecvResult → Receiver
unfolding dispatch
read_request r (got bytes) = dispatch r.cur_stat (received r bytes) (length bytes)
read_request r ended = record r { closed = true; cancelled = true }
read_request r again = record r { cancelled = true }
read_request r broken = record r { closed = true; cancelled = true }
