-- ===== src/Packet/Sample.antt =====
-- A connection that waits for its first packet, for the tests.
use g_plat.Prelude.{false, []}
use g_plat.Packet.{Receiver, hd_init, in_head, header_size}

abbrev pub idle : Receiver
idle = record {
  cur_stat = hd_init;
  area = in_head;
  recv_pos = 0;
  recv_len = header_size;
  head = λ i. 0;
  packet = λ i. 0;
  inbox = [];
  closed = false;
  cancelled = false;
}
