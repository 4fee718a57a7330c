-- ===== src/Server/Sample.antt =====
-- A server at its start, for the tests.
use g_plat.Prelude.{false, none, []}
use g_plat.Server.{Server}

abbrev pub start : Server
start = record {
  conns = λ c. record {
    sequence = 1;
    waiting_post = false;
    waiting_timeout = false;
    timer_id = none;
    list_tag = [];
    list_plc_tag = [];
    list_post = [];
  };
  subscriptions = record { subjects = λ tag. []; plc_servers = λ tag. none };
  send_queue = [];
  timers = [];
  next_id = 1;
  exited = false;
}
