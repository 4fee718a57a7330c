-- ===== src/Handlers.antt =====
-- The handlers of gplat/ngx_c_slogic.cxx that call higplat for queues and boards.
pub mod Serve
pub mod Reach
pub mod Keeps
pub mod Error
pub mod Failure
use g_plat.Prelude.{
  ℕ, ◌+◌, ◌*◌, ◌%◌, ◌/◌, ◌^◌, Bool, true, false, Option, none, some, List, [], ◌∷◌, ◌++◌, ◌==◌,
  if◌then◌else◌, length, take, update, collect, copy_in, ltb,
}
use g_plat.Errors.{Outcome, done, fail, refuse, fault, hang, error_recordsize}
use g_plat.Message.{Head}
use g_plat.Queue.{Read, FileAnswers, binary_type, max_msg_len, read_q, clear_q}
use g_plat.Queue.Make.{create_q}
use g_plat.Queue.Put.{write_q}
use g_plat.Board.{BoardInfo, read_b, read_b_string2, read_board_info}
use g_plat.Board.Store.{write_b, write_b_string}
use g_plat.Board.Erase.{delete_item}
use g_plat.Server.{Server, Message, msg_send, notify_subscriber, notify_plc_io_server}
use g_plat.Library.{
  Library, fits, on_queue, on_board, clear_b_named, create_item_named, read_type_named,
}

pub record Gplat : Type 0 where
  pub library : Library
  pub server : Server

-- What a handler gets from elsewhere: its thread, the clock as a board and as a queue keep it, the
-- bytes that stand in new memory, the file system and the directory of the files.
pub record Env : Type 0 where
  pub thread : ℕ
  pub now : ℕ
  pub date : List ℕ
  pub memory : ℕ → ℕ
  pub os : FileAnswers
  pub path : List ℕ

-- The request's head and its connection, with what the handlers assign.
abbrev pub answer : Server → ℕ → Head → ℕ → List ℕ → Message
answer s c h error body = record {
  conn = c;
  sequence = (s.conns c).sequence;
  id = h.id;
  itemname = h.itemname;
  timestamp = h.timestamp;
  recsize = h.recsize;
  error = error;
  body = body;
}

-- The answer is sent; `after` is what the handler does then. `none`: the call faults or hangs.
abbrev pub finish :
    {A : Type 0}
    → Gplat
    → ℕ
    → (ℕ → Message)
    → (A → Message)
    → (A → Server → Server)
    → Outcome A × Library
    → Option Gplat
finish g t failed sent after (done x, L) =
    some (record { library = L; server = after x (msg_send g.server (sent x)) })
finish g t failed sent after (fail e, L) = some (record {
  library = record L { error_code = update L.error_code t e };
  server = msg_send g.server (failed e);
})
finish g t failed sent after (refuse, L) =
    some (record { library = L; server = msg_send g.server (failed (L.error_code t)) })
finish g t failed sent after (fault, L) = none
finish g t failed sent after (hang, L) = none

-- The handlers with an answer without a body.
abbrev pub finish_bare :
    {A : Type 0} → Gplat → ℕ → ℕ → Head → (Server → Server) → Outcome A × Library → Option Gplat
finish_bare g t c h after =
    finish g t (λ e. answer g.server c h e []) (λ _. answer g.server c h 0 []) (λ _. after)

abbrev pub finish_read :
    {A : Type 0} → Gplat → ℕ → ℕ → Head → (A → Message) → Outcome A × Library → Option Gplat
finish_read g t c h sent = finish g t (λ e. answer g.server c h e []) sent (λ _ s. s)

-- The bytes behind the head, as many as `datasize` cut to an unsigned short.
abbrev pub event_body : Head → List ℕ → List ℕ
event_body h body = take (h.datasize % 2 ^ 16) body

-- A buffer of `n` bytes in new memory, with `bytes` at its start.
abbrev pub in_buffer : Env → ℕ → List ℕ → List ℕ
in_buffer env n bytes = collect (copy_in env.memory 0 bytes) 0 n

unfoldable pub handle_read_q : Gplat → Env → ℕ → Head → Option Gplat
unfolding on_queue
handle_read_q g env c h =
    finish_read g env.thread c h
      (λ (r : Read). answer g.server c h 0 (in_buffer env h.datasize r.0))
      (on_queue g.library h.qname (λ q. read_q q h.datasize))

unfoldable pub handle_write_q : Gplat → Env → ℕ → Head → List ℕ → Option Gplat
unfolding on_queue
handle_write_q g env c h body =
    finish_bare g env.thread c h (λ s. notify_subscriber s h.qname (event_body h body))
      (on_queue g.library h.qname (λ q. write_q q body h.datasize none env.date))

unfoldable pub handle_clear_q : Gplat → Env → ℕ → Head → Option Gplat
unfolding on_queue
handle_clear_q g env c h =
    finish_bare g env.thread c h (λ s. s) (on_queue g.library h.qname clear_q)

unfoldable pub handle_read_b : Gplat → Env → ℕ → Head → Option Gplat
unfolding on_board
handle_read_b g env c h =
    finish_read g env.thread c h
      (λ (r : List ℕ × ℕ). record (answer g.server c h 0 r.0) { timestamp = r.1 })
      (on_board g.library h.qname (λ b. (read_b b h.itemname h.datasize, b)))

-- 1 is to publish.
abbrev pub publish : Head → List ℕ → Server → Server
publish h body s = if h.start == 1 then notify_subscriber s h.itemname (event_body h body) else s

unfoldable pub handle_write_b : Gplat → Env → ℕ → Head → List ℕ → Option Gplat
unfolding on_board
handle_write_b g env c h body =
    finish_bare g env.thread c h (publish h body)
      (on_board g.library h.qname (λ b. write_b b h.itemname body h.datasize none env.now))

-- `g_buffer` has MAXMSGLEN bytes.
unfoldable pub handle_read_b_string : Gplat → Env → ℕ → Head → Option Gplat
unfolding on_board
handle_read_b_string g env c h =
    finish_read g env.thread c h
      (λ (r : List ℕ × ℕ). record (answer g.server c h 0 r.0) { timestamp = r.1 })
      (fits max_msg_len (λ r. r.0)
        (on_board g.library h.qname (λ b. (read_b_string2 b h.itemname h.datasize, b))))

unfoldable pub handle_write_b_string : Gplat → Env → ℕ → Head → List ℕ → Option Gplat
unfolding on_board
handle_write_b_string g env c h body =
    finish_bare g env.thread c h (publish h body)
      (on_board g.library h.qname (λ b. write_b_string b h.itemname body h.datasize none env.now))

unfoldable pub handle_clear_b : Gplat → Env → ℕ → Head → Option Gplat
unfolding clear_b_named
handle_clear_b g env c h = finish_bare g env.thread c h (λ s. s) (clear_b_named g.library h.qname)

unfoldable pub handle_read_type : Gplat → Env → ℕ → Head → Option Gplat
unfolding read_type_named
handle_read_type g env c h =
    finish g env.thread (λ e. record (answer g.server c h e []) { recsize = 0 })
      (λ typ. record (answer g.server c h 0 typ) { recsize = length typ }) (λ _ s. s)
      (read_type_named g.library h.qname h.itemname h.datasize)

unfoldable pub handle_create_item : Gplat → Env → ℕ → Head → List ℕ → Option Gplat
unfolding create_item_named
handle_create_item g env c h body =
    finish_bare g env.thread c h (λ s. s)
      (create_item_named g.library h.qname h.itemname h.recsize (some body) h.bodysize env.now)

unfoldable pub handle_delete_item : Gplat → Env → ℕ → Head → Option Gplat
unfolding on_board
handle_delete_item g env c h =
    finish_bare g env.thread c h (λ s. s)
      (on_board g.library h.qname (λ b. delete_item b h.itemname))

-- HandleWriteBPlc and HandleWriteBStringPlc: the board is not written. `none` is a read behind the
-- body.
unfoldable pub handle_write_b_plc : Gplat → ℕ → Head → List ℕ → Option Gplat
handle_write_b_plc g c h body =
    if ltb (length body) (h.datasize % 2 ^ 16)
    then none
    else some (record g {
      server =
          notify_plc_io_server (msg_send g.server (answer g.server c h 0 [])) h.itemname
            (event_body h body);
    })

-- An int, little-endian.
abbrev pub int_bytes : ℕ → List ℕ
int_bytes n = n % 256 ∷ n / 256 % 256 ∷ n / 65536 % 256 ∷ n / 16777216 % 256 ∷ []

-- BOARD_INFO as its bytes.
abbrev pub info_bytes : BoardInfo → List ℕ
info_bytes i =
    int_bytes i.total_size
    ++ (int_bytes i.remain_size ++ (int_bytes i.tagcount_head ++ int_bytes i.tagcount_act))

-- `sizeof(BOARD_INFO)` is 16.
unfoldable pub handle_read_board_info : Gplat → Env → ℕ → Head → Option Gplat
unfolding on_board
handle_read_board_info g env c h =
    if h.datasize == 16
    then finish_read g env.thread c h (λ info. answer g.server c h 0 (info_bytes info))
        (on_board g.library h.qname (λ b. (done (read_board_info b), b)))
    else some (record g { server = msg_send g.server (answer g.server c h error_recordsize []) })

-- CreateQ makes a file, and does not load it.
unfoldable pub handle_create_queue : Gplat → Env → ℕ → Head → List ℕ → Option Gplat
handle_create_queue g env c h body =
    finish_bare g env.thread c h (λ s. s)
      (
        create_q env.os env.path h.qname h.recsize h.count binary_type h.start (some body)
            h.bodysize env.date,
        g.library,
      )
