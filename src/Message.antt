-- ===== src/Message.antt =====
-- MSGHEAD of include/msg.h: the head of every packet between a client and the server.
pub mod Bytes
pub mod Layout
use g_plat.Prelude.{
  ℕ, zero, suc, ◌+◌, ◌*◌, ◌/◌, ◌%◌, List, [], ◌∷◌, ◌++◌, ◌==◌, if◌then◌else◌, take, drop,
}

-- A number stands as its 32-bit pattern, `timestamp` as one of 128 bits, a text without the closing
-- zero.
pub record Head : Type 0 where
  pub id : ℕ
  pub qname : List ℕ
  pub itemname : List ℕ
  pub qbdtype : ℕ
  pub datasize : ℕ
  pub datatype : ℕ
  pub timestamp : ℕ
  pub start : ℕ
  pub count : ℕ
  pub recsize : ℕ
  pub bodysize : ℕ
  pub readptr : ℕ
  pub writeptr : ℕ
  pub error : ℕ
  pub subsize : ℕ
  pub offset : ℕ
  pub ip : List ℕ
  pub arraysize : ℕ
  pub eventid : ℕ
  pub eventarg : ℕ
  pub timeout : ℕ

-- `MSGSTRUCT msg{}`
abbrev pub zero_head : Head
zero_head = record {
  id = 0;
  qname = [];
  itemname = [];
  qbdtype = 0;
  datasize = 0;
  datatype = 0;
  timestamp = 0;
  start = 0;
  count = 0;
  recsize = 0;
  bodysize = 0;
  readptr = 0;
  writeptr = 0;
  error = 0;
  subsize = 0;
  offset = 0;
  ip = [];
  arraysize = 0;
  eventid = 0;
  eventarg = 0;
  timeout = 0;
}

-- `x` in `n` bytes, the lowest first.
unfoldable pub to_le : ℕ → ℕ → List ℕ
to_le zero x = []
to_le (suc n) x = x % 256 ∷ to_le n (x / 256)

unfoldable pub of_le : List ℕ → ℕ
of_le [] = 0
of_le (b ∷ bytes) = b + 256 * of_le bytes

-- `char[n]` with the text in it, zero behind it.
unfoldable pub pad : ℕ → List ℕ → List ℕ
pad zero t = []
pad (suc n) [] = 0 ∷ pad n []
pad (suc n) (b ∷ t) = b ∷ pad n t

-- The bytes before the first zero.
unfoldable pub text_of : List ℕ → List ℕ
text_of [] = []
text_of (b ∷ bytes) = let rest = text_of bytes in if b == 0 then [] else b ∷ rest

-- The 180 bytes of the struct, which is packed.
unfoldable pub encode : Head → List ℕ
encode h =
    to_le 4 h.id
    ++ (pad 40 h.qname
        ++ (pad 40 h.itemname
            ++ (to_le 4 h.qbdtype
                ++ (to_le 4 h.datasize
                    ++ (to_le 4 h.datatype
                        ++ (to_le 16 h.timestamp
                            ++ (to_le 4 h.start
                                ++ (to_le 4 h.count
                                    ++ (to_le 4 h.recsize
                                        ++ (to_le 4 h.bodysize
                                            ++ (to_le 4 h.readptr
                                                ++ (to_le 4 h.writeptr
                                                    ++ (to_le 4 h.error
                                                        ++ (to_le 4 h.subsize
                                                            ++ (to_le 4 h.offset
                                                            ++ (pad 16 h.ip
                                                            ++ (to_le 4 h.arraysize
                                                            ++ (to_le 4 h.eventid
                                                            ++ (to_le 4 h.eventarg
                                                            ++ (to_le 4
                                                            h.timeout))))))))))))))))))))

-- The struct that stands in 180 bytes, read field after field.
unfoldable pub decode : List ℕ → Head
decode bytes =
    let after_id = drop 4 bytes in
    let after_qname = drop 40 after_id in
    let after_itemname = drop 40 after_qname in
    let after_qbdtype = drop 4 after_itemname in
    let after_datasize = drop 4 after_qbdtype in
    let after_datatype = drop 4 after_datasize in
    let after_timestamp = drop 16 after_datatype in
    let after_start = drop 4 after_timestamp in
    let after_count = drop 4 after_start in
    let after_recsize = drop 4 after_count in
    let after_bodysize = drop 4 after_recsize in
    let after_readptr = drop 4 after_bodysize in
    let after_writeptr = drop 4 after_readptr in
    let after_error = drop 4 after_writeptr in
    let after_subsize = drop 4 after_error in
    let after_offset = drop 4 after_subsize in
    let after_ip = drop 16 after_offset in
    let after_arraysize = drop 4 after_ip in
    let after_eventid = drop 4 after_arraysize in
    let after_eventarg = drop 4 after_eventid in
    record {
      id = of_le (take 4 bytes);
      qname = text_of (take 40 after_id);
      itemname = text_of (take 40 after_qname);
      qbdtype = of_le (take 4 after_itemname);
      datasize = of_le (take 4 after_qbdtype);
      datatype = of_le (take 4 after_datasize);
      timestamp = of_le (take 16 after_datatype);
      start = of_le (take 4 after_timestamp);
      count = of_le (take 4 after_start);
      recsize = of_le (take 4 after_count);
      bodysize = of_le (take 4 after_recsize);
      readptr = of_le (take 4 after_bodysize);
      writeptr = of_le (take 4 after_readptr);
      error = of_le (take 4 after_writeptr);
      subsize = of_le (take 4 after_error);
      offset = of_le (take 4 after_subsize);
      ip = text_of (take 16 after_offset);
      arraysize = of_le (take 4 after_ip);
      eventid = of_le (take 4 after_arraysize);
      eventarg = of_le (take 4 after_eventid);
      timeout = of_le (take 4 after_eventarg);
    }
