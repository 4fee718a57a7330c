-- ===== src/Network/Tests.antt =====
-- A board with a tag "a" of four bytes and a queue "a", and requests for them.
use g_plat.Prelude.{
  ap, ◌∙◌, sym, update, inl, collect, copy_in, ℕ, ◌-◌, ◌≡◌, ◌≢◌, refl, none, false, true, some,
  List, [], ◌∷◌, ◌++◌, arith, length, take, drop, map,
}
use g_plat.Errors.{error_recordsize, done}
use g_plat.Hash.{grave}
use g_plat.Hash.Sample.{name_a, a-ne-nil, a-ne-grave, hash1-a, hash1-board}
use g_plat.FileTable.{fetch_tab}
use g_plat.FileTable.Sample.{table_of, fetch_tab-table_of, one_entry}
use g_plat.Message.{Head, encode, to_le, pad}
use g_plat.Board.Sample.{board1, board1-IsSound, board1-a}
use g_plat.Board.Creation.{after_create}
use g_plat.Board.Store.{write_b}
use g_plat.Queue.{Read, read_q, Queue, binary_type, normal_mode}
use g_plat.Queue.Make.{init_queue}
use g_plat.Queue.Create.{init_normal-IsBinary}
use g_plat.Queue.Contents.{IsBinary, contents, read_wrong_size, IsBinary, contents}
use g_plat.Queue.Fifo
use g_plat.Server.{Message, msg_send}
use g_plat.Server.Sample.{start}
use g_plat.Library.{board_file, set_mapped, queue_file}
use g_plat.Handlers.{in_buffer, finish_read, handle_read_q, Gplat, Env, answer, publish}
use g_plat.Handlers.Serve.{serve}
use g_plat.Client.{got, success, readn}
use g_plat.Client.Calls.{writeb, readb}
use g_plat.Client.Requests.{readq_request, board_name, writeb_request, readb_request}
use g_plat.Handlers.Reach.{serve-goes}
use g_plat.Handlers.Failure.{serve-error}
use g_plat.Library.Found.{on_queue-found}
use g_plat.Dispatch.{id_readq, clear_q_handler, read_q_handler, thread_recv_proc_func}
use g_plat.Queue.Fifo.{run}
use g_plat.Dispatch.Table.{thread_recv-same}
use g_plat.Network.{Carries, head_of}
use g_plat.Network.Demand.{Demand, ask_write, ask_read, op_of, heard}
use g_plat.Network.Queue.{serve_all, serve_all-fifo}
use g_plat.Packet.{read_request, dispatch, proc_p1, proc_plast}
use g_plat.Packet.Inv.{Awaits, awaits_header}
use g_plat.Packet.Assembly.{concat, Accepts, read_all}
use g_plat.Packet.Sample.{idle}
use g_plat.Network.Arrive.{IsRequest, Request, wire, seen, requests-arrive}
use g_plat.Network.Board.{writeb-readb}

abbrev env : Env
env = record {
  thread = 0;
  now = 9;
  date = [];
  memory = λ i. 0;
  os = record {
    exists = false;
    removed = false;
    parent_missing = false;
    parent_created = false;
    opened = true;
    truncated = true;
    mapped = true;
  };
  path = [];
}

abbrev queue : Queue
queue = init_queue 2 3 binary_type normal_mode [] []

abbrev with_queue : Gplat
with_queue = record {
  library = record {
    table = table_of name_a 97;
    mapped = λ a. queue_file queue;
    error_code = λ t. 0;
  };
  server = start;
}

named-a : fetch_tab with_queue.library.table name_a ≡ done one_entry.handles
named-a = fetch_tab-table_of name_a 97 a-ne-nil a-ne-grave hash1-a (omega arith)

queue-IsBinary : IsBinary queue
queue-IsBinary = init_normal-IsBinary 2 3 [] [] (omega arith) (omega arith)

abbrev demands : List Demand
demands =
    ask_write 7 env (1 ∷ 2 ∷ [])
    ∷ ask_write 7 env (1 ∷ [])
    ∷ ask_read 8 env 2
    ∷ ask_read 8 env 2
    ∷ []

serve_all-fifo_example :
    serve_all name_a with_queue demands
    ≡ some (map heard (Fifo.run (queue.num - 1) queue.size (contents queue) (map op_of demands)))
serve_all-fifo_example =
    serve_all-fifo demands name_a with_queue (omega arith) named-a refl queue-IsBinary refl
      (omega arith)

abbrev with_board : Gplat
with_board = record {
  library = record {
    table = table_of board_name 83;
    mapped = λ a. board_file board1;
    error_code = λ t. 0;
  };
  server = start;
}

board-ne-nil : board_name ≢ []
board-ne-nil e = cc

board-ne-grave : board_name ≢ grave
board-ne-grave e = cc

abbrev four_bytes : List ℕ
four_bytes = 4 ∷ 3 ∷ 2 ∷ 1 ∷ []

abbrev to_write : Message
to_write = answer start 7 (writeb_request name_a 4 1) 0 []

abbrev to_read : Message
to_read = record (answer start 8 (readb_request name_a 4) 0 four_bytes) { timestamp = 9 }

written-carried : Carries (got (encode (head_of to_write)) ∷ []) to_write
unfolding readn encode to_le pad
written-carried = record { rest = []; head = refl; body = refl }

read-carried : Carries (got (encode (head_of to_read)) ∷ got four_bytes ∷ []) to_read
unfolding readn encode to_le pad
read-carried = record { rest = got four_bytes ∷ []; head = refl; body = refl }

board1-size : length four_bytes ≡ (board1.index 97).fields.item_size
unfolding board1 after_create
board1-size = refl

writeb-readb_example :
    let written = writeb_request name_a 4 1 in
    let asked = readb_request name_a 4 in
    let (o, b') = write_b board1 name_a four_bytes 4 none 9 in
    let library' = set_mapped with_board.library 4096 (board_file b') in
    (serve with_board env 7 1 written four_bytes
      ≡ some (record {
        library = library';
        server = publish written four_bytes (msg_send start (answer start 7 written 0 []));
      }))
    × (writeb none name_a 4 1 (got (encode (head_of to_write)) ∷ []) ≡ some (success tt, []))
    × (serve (record { library = library'; server = start }) env 8 1 asked []
        ≡ some (record {
          library = library';
          server = msg_send start (record (answer start 8 asked 0 four_bytes) { timestamp = 9 });
        }))
    × (readb none name_a 4 (got (encode (head_of to_read)) ∷ got four_bytes ∷ [])
        ≡ some (success (four_bytes, 9), []))
writeb-readb_example =
    writeb-readb with_board env env 7 8 start name_a four_bytes 1 97
      (got (encode (head_of to_write)) ∷ []) (got (encode (head_of to_read)) ∷ got four_bytes ∷ [])
      (fetch_tab-table_of board_name 83 board-ne-nil board-ne-grave hash1-board (omega arith)) refl
      refl refl (λ e. omega arith) board1-IsSound a-ne-nil ((λ e. omega (arith, e)), tt)
      (omega arith) board1-a board1-size (omega arith) (omega arith) (omega arith) written-carried
      read-carried

idle-Awaits : Awaits idle []
unfolding collect
idle-Awaits = awaits_header refl (inl (refl, refl)) (omega arith) (omega arith) refl

abbrev request : Request
request = (writeb_request name_a 2 1, 5 ∷ 6 ∷ [])

abbrev cut : List (List ℕ)
cut = take 100 (encode request.0) ∷ drop 100 (encode request.0) ∷ (5 ∷ []) ∷ (6 ∷ []) ∷ []

cut-Accepts : Accepts idle cut
unfolding read_request dispatch proc_p1 proc_plast collect copy_in encode to_le pad
cut-Accepts = (
  omega arith,
  (
    omega arith,
    (omega arith, (omega arith, (omega arith, (omega arith, (omega arith, (omega arith, tt)))))),
  ),
)

request-IsRequest : IsRequest request
request-IsRequest = record {
  head = record {
    id = omega arith;
    qbdtype = omega arith;
    datasize = omega arith;
    datatype = omega arith;
    start = omega arith;
    count = omega arith;
    recsize = omega arith;
    bodysize = omega arith;
    readptr = omega arith;
    writeptr = omega arith;
    error = omega arith;
    subsize = omega arith;
    offset = omega arith;
    arraysize = omega arith;
    eventid = omega arith;
    eventarg = omega arith;
    timeout = omega arith;
    timestamp = omega arith;
    qname = (
      (λ e. omega (arith, e)),
      (
        (λ e. omega (arith, e)),
        ((λ e. omega (arith, e)), ((λ e. omega (arith, e)), ((λ e. omega (arith, e)), tt))),
      ),
    );
    itemname = ((λ e. omega (arith, e)), tt);
    ip = tt;
    qname_length = omega arith;
    itemname_length = omega arith;
    ip_length = omega arith;
  };
  announced = refl;
  few = omega arith;
}

cut-together : concat cut ≡ concat (map wire (request ∷ []))
unfolding encode to_le pad
cut-together = refl

requests-arrive_example :
    (map seen (read_all idle cut).inbox ≡ map seen idle.inbox ++ (request ∷ []))
    × Awaits (read_all idle cut) []
requests-arrive_example =
    requests-arrive idle cut (request ∷ []) idle-Awaits cut-Accepts (request-IsRequest, tt)
      cut-together

-- A read of five bytes from the queue whose records have two.
abbrev too_long : Head
too_long = readq_request name_a 5

abbrev after_read : Gplat
after_read = record {
  library = record (set_mapped with_queue.library 4096 (queue_file queue)) {
    error_code = update with_queue.library.error_code 0 error_recordsize;
  };
  server = msg_send start (answer start 8 too_long error_recordsize []);
}

serve-too_long : serve with_queue env 8 1 too_long [] ≡ some after_read
unfolding handle_read_q
serve-too_long =
    serve-goes with_queue env 8 too_long [] id_readq refl
      (ap
        (finish_read with_queue 0 8 too_long
          (λ (r : Read). answer start 8 too_long 0 (in_buffer env 5 r.0)))
        (on_queue-found with_queue.library name_a (λ q. read_q q 5) named-a refl
          ∙ ap (λ r. (r.0, set_mapped with_queue.library 4096 (queue_file r.1)))
              (read_wrong_size 5 queue-IsBinary (λ e. omega (arith, e)))))
      refl

too_long-reads : thread_recv_proc_func 1 1 too_long.id ≢ some clear_q_handler
too_long-reads e =
    let same : some read_q_handler ≡ some clear_q_handler = sym (thread_recv-same 1 id_readq) ∙ e in
    cc same

serve-error_example : after_read.library.mapped ≡ with_queue.library.mapped
serve-error_example =
    serve-error with_queue after_read env 8 1 too_long [] too_long-reads serve-too_long
      (λ e. omega (arith, e))
