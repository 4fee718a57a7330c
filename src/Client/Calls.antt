-- ===== src/Client/Calls.antt =====
-- The client's calls in higplat/higplat.cpp, with the server's response as what read answers. Pointers
-- are not null and sizes not negative; `sent` is the errno of a send_all that fails.
use g_plat.Prelude.{
  ℕ, ◌-◌, not, ◌&&◌, ◌||◌, Option, none, List, [], ◌∷◌, ◌++◌, ltb, ◌==◌, if◌then◌else◌, length,
  take,
}
use g_plat.Errors.{
  error_socket_not_connected, error_parameter_size, error_invalid_parameter, error_invalid_response,
  error_buffer_too_small, error_wait_timeout,
}
use g_plat.Message.{Head, text_of}
use g_plat.Queue.{max_msg_len}
use g_plat.Server.{subscribe_id, post_id, post_wait_id, register_plc_server_id}
use g_plat.Client.{
  Io, ◌>>=◌, ◌>>◌, return, fail_if, close_if, read_bytes, send, exchange, exchange_whole,
}
use g_plat.Client.Requests

-- `*error = msg.head.error; if (*error != 0) return false;`
abbrev pub check_error : Head → Io (Unit {0})
check_error head = fail_if (not (head.error == 0)) head.error

-- The end of the calls that read.
abbrev pub body_within : ℕ → Head → Io (List ℕ)
body_within n head = do
  close_if (ltb n head.bodysize) error_buffer_too_small
  read_bytes head.bodysize

-- The end of the calls that write.
abbrev pub no_body : Head → Io (Unit {0})
no_body head = do close_if (ltb 0 head.bodysize) error_invalid_response; check_error head

unfoldable pub readq : Option ℕ → List ℕ → ℕ → Io (List ℕ)
readq sent qname actsize = do
  fail_if (actsize == 0) error_invalid_parameter
  head ← exchange sent (Requests.readq_request qname actsize)
  check_error head
  body_within actsize head

unfoldable pub writeq : Option ℕ → List ℕ → ℕ → Io (Unit {0})
writeq sent qname actsize = do
  fail_if (actsize == 0) error_invalid_parameter
  fail_if (ltb max_msg_len actsize) error_parameter_size
  head ← exchange sent (Requests.writeq_request qname actsize)
  no_body head

unfoldable pub clearq : Option ℕ → List ℕ → Io (Unit {0})
clearq sent qname = do head ← exchange sent (Requests.clearq_request qname); check_error head

-- The bytes and the time.
unfoldable pub readb : Option ℕ → List ℕ → ℕ → Io (List ℕ × ℕ)
readb sent tagname actsize = do
  fail_if (actsize == 0) error_invalid_parameter
  head ← exchange sent (Requests.readb_request tagname actsize)
  check_error head
  value ← body_within actsize head
  return (value, head.timestamp)

-- writeb_, with 1 from writeb and 0 from writeb_notpost for `postornot`.
unfoldable pub writeb : Option ℕ → List ℕ → ℕ → ℕ → Io (Unit {0})
writeb sent tagname actsize postornot = do
  fail_if (actsize == 0) error_invalid_parameter
  fail_if (ltb max_msg_len actsize) error_parameter_size
  head ← exchange sent (Requests.writeb_request tagname actsize postornot)
  no_body head

-- The string in the caller's buffer: the zero goes over the last byte of one that fills the buffer.
unfoldable pub readb_string : Option ℕ → List ℕ → ℕ → Io (List ℕ × ℕ)
readb_string sent tagname buffersize = do
  fail_if (buffersize == 0) error_invalid_parameter
  head ← exchange sent (Requests.readb_string_request tagname buffersize)
  check_error head
  value ← body_within buffersize head
  return
      (if ltb head.bodysize buffersize then value else take (buffersize - 1) value, head.timestamp)

-- A string of MAXMSGLEN bytes has its last one set to zero.
unfoldable pub readb_string2 : Option ℕ → List ℕ → Io (List ℕ × ℕ)
readb_string2 sent tagname = do
  head ← exchange sent (Requests.readb_string_request tagname max_msg_len)
  check_error head
  value ← body_within max_msg_len head
  return (
    if ltb head.bodysize max_msg_len then value else take (max_msg_len - 1) value ++ 0 ∷ [],
    head.timestamp,
  )

-- writeb_string_, with 1 from writeb_string and 0 from writeb_string_notpost.
unfoldable pub writeb_string : Option ℕ → List ℕ → List ℕ → ℕ → Io (Unit {0})
writeb_string sent tagname value postornot = do
  fail_if (ltb max_msg_len (length value)) error_parameter_size
  head ← exchange sent (Requests.writeb_string_request tagname (length value) postornot)
  no_body head

unfoldable pub writeb_string2 : Option ℕ → List ℕ → List ℕ → Io (Unit {0})
unfolding writeb_string text_of
writeb_string2 sent tagname value = do
  fail_if (not (ltb (length value) max_msg_len)) error_parameter_size
  writeb_string sent tagname (text_of value) 1

-- The end of subscribe and registertag.
abbrev pub accepted : Head → ℕ → Io (Unit {0})
accepted head id = do
  close_if (not (head.id == id) || not (head.bodysize == 0)) error_invalid_response
  close_if (not (head.error == 0)) head.error

unfoldable pub subscribe : Option ℕ → List ℕ → Io (Unit {0})
subscribe sent tagname = do
  head ← exchange_whole sent (Requests.subscribe_request tagname) error_socket_not_connected
  accepted head subscribe_id

unfoldable pub registertag : Option ℕ → List ℕ → Io (Unit {0})
registertag sent tagname = do
  head ← exchange_whole sent (Requests.registertag_request tagname) error_socket_not_connected
  accepted head register_plc_server_id

unfoldable pub subscribedelaypost : Option ℕ → List ℕ → List ℕ → ℕ → Io (Unit {0})
subscribedelaypost sent tagname eventname delaytime = do
  head ← exchange sent (Requests.subscribedelaypost_request tagname eventname delaytime)
  no_body head

unfoldable pub clearb : Option ℕ → Io (Unit {0})
clearb sent = do head ← exchange sent Requests.clearb_request; no_body head

unfoldable pub readboardinfo : Option ℕ → ℕ → Io (List ℕ)
readboardinfo sent infosize = do
  fail_if (infosize == 0) error_invalid_parameter
  head ← exchange sent (Requests.readboardinfo_request infosize)
  check_error head
  body_within infosize head

-- send_all of no bytes returns 0, which counts as a failure; `errno` is what it is then.
unfoldable pub createtag : Option ℕ → ℕ → List ℕ → ℕ → ℕ → Io (Unit {0})
createtag sent errno tagname tagsize typesize = do
  fail_if (ltb 100 typesize) error_parameter_size
  send sent
  close_if (typesize == 0) errno
  head ← exchange none (Requests.createtag_request tagname tagsize typesize)
  no_body head

unfoldable pub deletetag : Option ℕ → List ℕ → Io (Unit {0})
deletetag sent tagname = do head ← exchange sent (Requests.deletetag_request tagname); no_body head

unfoldable pub createqueue : Option ℕ → List ℕ → ℕ → ℕ → ℕ → ℕ → Io (Unit {0})
createqueue sent queuename recordsize recordnum operatemode typesize = do
  fail_if (recordsize == 0 || recordnum == 0 || typesize == 0) error_invalid_parameter
  fail_if (ltb 2048 recordsize || ltb 100 typesize) error_parameter_size
  head ←
      exchange sent
        (Requests.createqueue_request queuename recordsize recordnum operatemode typesize)
  no_body head

-- An empty type counts as a failure, with the error 0.
unfoldable pub readtype : Option ℕ → List ℕ → List ℕ → ℕ → Io (List ℕ)
readtype sent qbdname tagname buffsize = do
  fail_if (buffsize == 0) error_invalid_parameter
  head ← exchange sent (Requests.readtype_request qbdname tagname buffsize)
  fail_if (not (head.error == 0) || head.bodysize == 0) head.error
  body_within buffsize head

unfoldable pub writeb_plc : Option ℕ → List ℕ → ℕ → Io (Unit {0})
writeb_plc sent tagname actsize = do
  fail_if (actsize == 0) error_invalid_parameter
  fail_if (ltb max_msg_len actsize) error_parameter_size
  head ← exchange sent (Requests.writeb_plc_request tagname actsize)
  no_body head

unfoldable pub writeb_string_plc : Option ℕ → List ℕ → List ℕ → Io (Unit {0})
writeb_string_plc sent tagname value = do
  fail_if (ltb max_msg_len (length value)) error_parameter_size
  head ← exchange sent (Requests.writeb_string_plc_request tagname (length value))
  no_body head

-- "WAIT_TIMEOUT"
abbrev pub wait_timeout_name : List ℕ
wait_timeout_name = 87 ∷ 65 ∷ 73 ∷ 84 ∷ 95 ∷ 84 ∷ 73 ∷ 77 ∷ 69 ∷ 79 ∷ 85 ∷ 84 ∷ []

-- The end of waitpostdata: the name of the tag and the bytes.
abbrev pub posted : Head → List ℕ → Io (List ℕ × List ℕ)
posted head value =
    if head.error == 0
    then return (take 39 head.itemname, value)
    else if head.error == error_wait_timeout
    then return (wait_timeout_name, value)
    else (do close_if (not (head.error == 0)) head.error; return ([], []))

-- `timeout` is the bit pattern of an int that is -1 or not negative.
unfoldable pub waitpostdata : Option ℕ → ℕ → ℕ → Io (List ℕ × List ℕ)
waitpostdata sent buffersize timeout = do
  fail_if (buffersize == 0) error_invalid_parameter
  head ← exchange_whole sent (Requests.waitpostdata_request timeout) error_socket_not_connected
  close_if (not (head.id == post_id) && not (head.id == post_wait_id)) error_invalid_response
  close_if (ltb buffersize head.bodysize) error_buffer_too_small
  value ← read_bytes head.bodysize
  close_if (ltb (length value) head.bodysize) error_socket_not_connected
  posted head value
