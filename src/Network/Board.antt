-- ===== src/Network/Board.antt =====
-- A tag that one client writes and another reads.
use g_plat.Prelude.{
  Bool-cases, inl, inr, ==_iff, false, ℕ, ◌==◌, ltb, ◌^◌, ◌<◌, ◌≤◌, ◌≡◌, ◌≢◌, refl, sym, ap, ap₂,
  subst, ◌∙◌, none, some, List, [], arith, length,
}
use g_plat.Errors.{done, error_invalid_parameter, error_parameter_size}
use g_plat.FileTable.{fetch_tab, Handles}
use g_plat.Hash.{index_size}
use g_plat.Hash.Directory.{Live}
use g_plat.Message.{Head}
use g_plat.Message.Bytes.{IsText}
use g_plat.Queue.{max_msg_len}
use g_plat.Board.{Board, read_b}
use g_plat.Board.Store.{write_b}
use g_plat.Board.Inv.{IsSound}
use g_plat.Board.Write.{after_write, write_b-found, after_write-read}
use g_plat.Subscribe.{get_subscriber}
use g_plat.Server.Goes.{notify_subscriber-Goes}
use g_plat.Server.{Server, Message, msg_send}
use g_plat.Dispatch.{id_readb, id_writeb}
use g_plat.Library.{board_file, set_mapped}
use g_plat.Library.Found.{on_board-found, mapped-set_mapped, set_mapped-same}
use g_plat.Handlers.{
  event_body, Gplat, Env, answer, publish, finish_bare, finish_read, handle_write_b, handle_read_b,
}
use g_plat.Handlers.Serve.{serve}
use g_plat.Handlers.Reach.{serve-goes}
use g_plat.Client.{Io, ◌>>=◌, ◌>>◌, return, fail_if, Reading, success, exchange}
use g_plat.Client.Requests.{board_name, copied, writeb_request, readb_request}
use g_plat.Client.Calls.{writeb, readb, no_body, check_error, body_within}
use g_plat.Network.{Carries, IsSendable}
use g_plat.Network.Answer.{copied-short, ask-written, ask-read, fail_if-pass}

-- writeb of a message without error and body.
writeb-accepted :
    (tagname : List ℕ) (n post : ℕ) (rs : List Reading) (m : Message)
    → 0 < n
    → n ≤ max_msg_len
    → m.error ≡ 0
    → m.body ≡ []
    → IsSendable m
    → Carries rs m
    → writeb none tagname n post rs ≡ some (success tt, [])
unfolding writeb
writeb-accepted tagname n post rs m some_bytes few no_error empty v k =
    let ask : Io (Unit {0}) = exchange none (writeb_request tagname n post) >>= no_body in
    fail_if-pass (n == 0) error_invalid_parameter
      (fail_if (ltb max_msg_len n) error_parameter_size >> ask) rs (ground arith)
    ∙ fail_if-pass (ltb max_msg_len n) error_parameter_size ask rs (ground arith)
    ∙ ask-written (writeb_request tagname n post) rs m no_error empty v k

readb-accepted :
    (tagname : List ℕ) (n : ℕ) (rs : List Reading) (m : Message)
    → 0 < n
    → m.error ≡ 0
    → length m.body ≡ n
    → IsSendable m
    → Carries rs m
    → readb none tagname n rs ≡ some (success (m.body, m.timestamp), [])
unfolding readb
readb-accepted tagname n rs m some_bytes no_error same v k =
    let f : Head → List ℕ → Io (List ℕ × ℕ) = λ head value. return (value, head.timestamp) in
    fail_if-pass (n == 0) error_invalid_parameter
      (exchange none (readb_request tagname n) >>= λ head.
        check_error head >> (body_within n head >>= f head))
      rs (ground arith)
    ∙ ask-read (readb_request tagname n) n f rs m no_error (omega (arith, same)) v k

publish-exited :
    (h : Head) (body : List ℕ) (s : Server)
    → (h.start ≡ 1 → length (get_subscriber s.subscriptions h.itemname) ≤ 500)
    → (publish h body s).exited ≡ s.exited
publish-exited h body s few = elim (Bool-cases (h.start == 1)) [
  | inl e ↦ rw e (
      (notify_subscriber-Goes s h.itemname (event_body h body)
        (few ((==_iff h.start 1).0 e))).exited)
  | inr e ↦ rw e refl
]

-- What the server does with the two requests, on a board whose call is known to succeed.
module _ (g : Gplat) (env : Env) (c : ℕ) (tagname : List ℕ) (short : length tagname < 40)
    {hd : Handles} {b : Board} (loaded : fetch_tab g.library.table board_name ≡ done hd)
    (mapped : g.library.mapped hd.map_address ≡ board_file b)
    (running : g.server.exited ≡ false) where
  serve-writeb :
      (bytes : List ℕ) (post : ℕ) {b' : Board}
      → write_b b tagname bytes (length bytes) none env.now ≡ (done tt, b')
      → (post ≡ 1 → length (get_subscriber g.server.subscriptions tagname) ≤ 500)
      → let request = writeb_request tagname (length bytes) post in
        serve g env c (g.server.conns c).sequence request bytes
        ≡ some (record {
          library = set_mapped g.library hd.map_address (board_file b');
          server = publish request bytes (msg_send g.server (answer g.server c request 0 []));
        })
  unfolding handle_write_b
  serve-writeb bytes post w few =
      serve-goes g env c (writeb_request tagname (length bytes) post) bytes id_writeb refl
        (ap
          (finish_bare g env.thread c (writeb_request tagname (length bytes) post)
            (publish (writeb_request tagname (length bytes) post) bytes))
          (on_board-found g.library board_name
              (λ b. write_b b (copied tagname) bytes (length bytes) none env.now) loaded mapped
            ∙ ap (λ r. (r.0, set_mapped g.library hd.map_address (board_file r.1)))
                (ap (λ name. write_b b name bytes (length bytes) none env.now)
                    (copied-short tagname short)
                  ∙ w)))
        (publish-exited (writeb_request tagname (length bytes) post) bytes
            (msg_send g.server
              (answer g.server c (writeb_request tagname (length bytes) post) 0 []))
            (λ e. rw (copied-short tagname short) (few e))
          ∙ running)

  serve-readb :
      (n : ℕ) {bytes : List ℕ} {time : ℕ}
      → read_b b tagname n ≡ done (bytes, time)
      → let request = readb_request tagname n in
        serve g env c (g.server.conns c).sequence request []
        ≡ some (record g {
          server =
              msg_send g.server (record (answer g.server c request 0 bytes) { timestamp = time });
        })
  unfolding handle_read_b
  serve-readb n r =
      serve-goes g env c (readb_request tagname n) [] id_readb refl
        (ap
          (finish_read g env.thread c (readb_request tagname n) (λ (r : List ℕ × ℕ).
            record (answer g.server c (readb_request tagname n) 0 r.0) { timestamp = r.1 }))
          (on_board-found g.library board_name (λ b. (read_b b (copied tagname) n, b)) loaded mapped
            ∙ ap₂ (λ o L. (o, L)) (ap (λ name. read_b b name n) (copied-short tagname short) ∙ r)
                (set_mapped-same g.library hd.map_address (board_file b) mapped)))
        running

answered :
    (m : Message) (tagname : List ℕ)
    → IsText tagname
    → length tagname < 40
    → m.itemname ≡ copied tagname
    → m.id < 2 ^ 32
    → m.error ≡ 0
    → m.recsize ≡ 0
    → m.timestamp < 2 ^ 128
    → length m.body ≤ max_msg_len
    → IsSendable m
answered m tagname text short name id error recsize time body = record {
  id = id;
  itemname = subst IsText (sym (name ∙ copied-short tagname short)) text;
  itemname_length = omega (arith, ap length (name ∙ copied-short tagname short), short);
  timestamp = time;
  recsize = omega (arith, recsize);
  error = omega (arith, error);
  body = body;
}

-- A client sends the request of writeb for a tag of the sound board that is mapped under the name
-- BOARD, with as many bytes as the tag has; where the write is to be published, at most 500 clients
-- have subscribed to the tag, and the process runs. The server answers it, with the bytes on its
-- board, and writeb succeeds when the answer has come. Later, whatever the server did meanwhile with
-- its connections and events while it runs, a client sends the request of readb for the tag. The
-- server answers it and leaves its files alone, and readb gives the bytes and the time of the write.
pub writeb-readb :
    (g : Gplat) (env env' : Env) (c c' : ℕ) (server' : Server) (tagname bytes : List ℕ) (post t : ℕ)
    {hd : Handles} {b : Board} (rs rs' : List Reading)
    → fetch_tab g.library.table board_name ≡ done hd
    → g.library.mapped hd.map_address ≡ board_file b
    → g.server.exited ≡ false
    → server'.exited ≡ false
    → (post ≡ 1 → length (get_subscriber g.server.subscriptions tagname) ≤ 500)
    → IsSound b
    → tagname ≢ []
    → IsText tagname
    → length tagname < 40
    → Live index_size b.index tagname t
    → length bytes ≡ (b.index t).fields.item_size
    → 0 < length bytes
    → length bytes ≤ max_msg_len
    → env.now < 2 ^ 128
    → Carries rs (answer g.server c (writeb_request tagname (length bytes) post) 0 [])
    → Carries rs' (record (answer server' c' (readb_request tagname (length bytes)) 0 bytes) {
      timestamp = env.now;
    })
    → let written = writeb_request tagname (length bytes) post in
      let asked = readb_request tagname (length bytes) in
      let (o, b') = write_b b tagname bytes (length bytes) none env.now in
      let library' = set_mapped g.library hd.map_address (board_file b') in
      (serve g env c (g.server.conns c).sequence written bytes
        ≡ some (record {
          library = library';
          server = publish written bytes (msg_send g.server (answer g.server c written 0 []));
        }))
      × (writeb none tagname (length bytes) post rs ≡ some (success tt, []))
      × (serve
            (record { library = library'; server = server' })
            env'
            c'
            (server'.conns c').sequence
            asked
            []
          ≡ some (record {
            library = library';
            server =
                msg_send server' (record (answer server' c' asked 0 bytes) { timestamp = env.now });
          }))
      × (readb none tagname (length bytes) rs' ≡ some (success (bytes, env.now), []))
writeb-readb g env env' c c' server' tagname bytes post t {hd} {b} rs rs' loaded mapped running
      running' few_subscribers v ne text short l e some_bytes few now k k' =
    let found = write_b-found b tagname bytes env.now t v ne l e in
    rw found (
      serve-writeb g env c tagname short loaded mapped running bytes post found few_subscribers,
      writeb-accepted tagname (length bytes) post rs _ some_bytes few refl refl
          (answered _ tagname text short refl (omega arith) refl refl (omega arith) (omega arith))
          k,
      serve-readb
          (record {
            library =
                set_mapped g.library hd.map_address
                  (board_file (after_write b tagname bytes env.now t v ne l e));
            server = server';
          })
          env' c' tagname short loaded (mapped-set_mapped g.library hd.map_address _) running'
          (length bytes) (after_write-read b tagname bytes env.now t v ne l e),
      readb-accepted tagname (length bytes) rs' _ some_bytes refl refl
          (answered _ tagname text short refl (omega arith) refl refl (omega (arith, now))
            (omega (arith, few)))
          k',
    )
