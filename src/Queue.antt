-- ===== src/Queue.antt =====
-- The record queues of higplat/higplat.cpp (CreateQ to IsFullQ), on the queue that the file maps.
-- A byte is a number; the bytes of a C string stand without the closing zero.
pub mod Inv
pub mod Fifo
pub mod Contents
pub mod Refine
pub mod History
pub mod Shift
pub mod Create
pub mod Make
pub mod Put
pub mod Pointers
mod Tests
use g_plat.Prelude.{
  ℕ, zero, suc, ◌+◌, ◌-◌, ◌%◌, ◌^◌, min, Bool, true, false, not, ◌&&◌, ◌||◌, Option, none, some,
  List, [], ◌∷◌, ◌++◌, ltb, leb, ◌==◌, if◌then◌else◌, length, take, drop, replicate, update,
  collect,
}
use g_plat.Errors.{
  Outcome, done, fail, refuse, fault, hang, error_dq_empty, error_dq_full, error_filename_too_long,
  error_file_in_use, error_file_create_failsure, error_recordsize, error_startposition,
  error_operate_prohibit, error_parameter_size,
}

abbrev pub normal_mode : ℕ
normal_mode = 0

abbrev pub shift_mode : ℕ
shift_mode = 1

abbrev pub binary_type : ℕ
binary_type = 0

abbrev pub ascii_type : ℕ
ascii_type = 1

abbrev pub max_dq_name_lenth : ℕ
max_dq_name_lenth = 40

abbrev pub type_max_size : ℕ
type_max_size = 2048

abbrev pub max_msg_len : ℕ
max_msg_len = 16384

-- `RECORD_HEAD` with the record's bytes behind it
pub record Record : Type 0 where
  pub create_date : List ℕ
  pub remote_ip : List ℕ
  pub ack : ℕ
  pub index : ℕ
  pub body : List ℕ

-- `QUEUE_HEAD`, the records behind it, and the type description at the end of the file
pub record Queue : Type 0 where
  pub data_type : ℕ
  pub operate_mode : ℕ
  pub num : ℕ
  pub size : ℕ
  pub read_point : ℕ
  pub write_point : ℕ
  pub create_date : List ℕ
  pub type_size : ℕ
  pub type_area : List ℕ
  pub records : ℕ → Record

-- `num - 1` as the bit pattern of an `int`
abbrev pub last_point : ℕ → ℕ
last_point num = (num + 2 ^ 32 - 1) % 2 ^ 32

-- What the file system and the operating system answer to CreateQ or CreateB, call by call.
pub record FileAnswers : Type 0 where
  pub exists : Bool
  pub removed : Bool
  pub parent_missing : Bool
  pub parent_created : Bool
  pub opened : Bool
  pub truncated : Bool
  pub mapped : Bool

-- The file steps that CreateQ and CreateB share, up to the mapping.
pub open_file : FileAnswers → List ℕ → List ℕ → Outcome (Unit {0})
open_file os path name =
    if ltb max_dq_name_lenth (length name)
    then fail error_filename_too_long
    else if leb 100 (length path + length name)
    then fault
    else if os.exists && not os.removed
    then fail error_file_in_use
    else if os.parent_missing && not os.parent_created
    then fail error_file_create_failsure
    else if os.opened && os.truncated && os.mapped
    then done tt
    else refuse

-- The slots as the closing loop of CreateQ leaves them.
abbrev pub fresh_record : ℕ → ℕ → Record
fresh_record size i = record {
  create_date = [];
  remote_ip = [];
  ack = 0;
  index = i;
  body = replicate size 0;
}

-- The record length that ReadQ and PeekQ refuse.
abbrev pub read_size_wrong : Queue → ℕ → Bool
read_size_wrong q act_size =
    (q.data_type == ascii_type && ltb act_size q.size)
    || (q.data_type == binary_type && not (act_size == q.size))

-- The bytes and the address that go out; `remoteIp` is copied only where the caller wants it.
abbrev pub Read : Type 0
Read = List ℕ × List ℕ

abbrev pub read_at : Queue → ℕ → Read
read_at q i = ((q.records i).body, (q.records i).remote_ip)

-- `act_size` is also the size of the caller's buffer, which takes `size` bytes.
unfoldable pub read_q : Queue → ℕ → Outcome Read × Queue
read_q q act_size =
    if read_size_wrong q act_size
    then (fail error_recordsize, q)
    else if ltb act_size q.size
    then (fault, q)
    else if q.operate_mode == normal_mode
    then if q.read_point == q.write_point
      then (fail error_dq_empty, q)
      else if q.num == 0
      then (fault, q)
      else (let r = (q.read_point + 1) % q.num in (done (read_at q r), record q { read_point = r }))
    else if q.read_point == 0
    then (fail error_dq_empty, q)
    else (done (read_at q q.write_point), q)

-- `errorCode = 0; return false` where the queue is no normal one.
pub pop_just_record_from_queue : Queue → Outcome (Unit {0}) × Queue
pop_just_record_from_queue q =
    if q.operate_mode == normal_mode
    then if q.read_point == q.write_point
      then (fail error_dq_empty, q)
      else if q.num == 0
      then (fault, q)
      else (done tt, record q { read_point = (q.read_point + 1) % q.num })
    else (fail 0, q)

-- A sum of two `int`s that an `int` does not hold.
abbrev pub overflows : ℕ → Bool
overflows n = leb (2 ^ 31) n

-- Both modes of MulReadQ: `start` counts from slot 0, or back from the newest record.
pub mul_read_q : Queue → ℕ → ℕ → Outcome (List Record × ℕ)
mul_read_q q start count =
    if leb q.num start
    then fail error_startposition
    else if q.operate_mode == normal_mode
    then (let n = min q.num count in
        if overflows (start + (n - 1))
        then fault
        else done (collect (λ i. q.records ((start + i) % q.num)) 0 n, q.size))
    else (let n = min (q.num - start) count in
        let act_start = (q.write_point + q.num - start) % q.num in
        if overflows (q.write_point + q.num) || (ltb 0 n && overflows (act_start + q.num))
        then fault
        else done (collect (λ i. q.records ((act_start + q.num - i) % q.num)) 0 n, q.size))

-- MulReadQ2 allocates the buffer for the records itself.
pub mul_read_q2 : Bool → Queue → ℕ → ℕ → Outcome (List Record × ℕ)
mul_read_q2 allocated q start count =
    if leb q.num start
    then fail error_startposition
    else if allocated
    then mul_read_q q start count
    else refuse

-- ClearQ ends by `return false`, on the path that clears too.
pub clear_q : Queue → Outcome (Unit {0}) × Queue
clear_q q =
    if q.operate_mode == normal_mode
    then (refuse, record q { read_point = last_point q.num; write_point = last_point q.num })
    else (refuse, record q { read_point = 0 })

-- An `int` argument: SetPtrQ tells -1 from the other negative ones.
pub data Ptr : Type 0 where
  at : ℕ → Ptr
  minus_one : Ptr
  other_negative : Ptr

-- `0 <= ptr && ptr < num`
abbrev in_range : Queue → ℕ → Bool
in_range q i = ltb i q.num

pub set_ptr_q : Queue → Ptr → Ptr → Outcome (Unit {0}) × Queue
set_ptr_q q (at r) (at w) =
    if in_range q r && in_range q w
    then (done tt, record q { read_point = r; write_point = w })
    else (refuse, q)
set_ptr_q q (at r) minus_one =
    if in_range q r then (done tt, record q { read_point = r }) else (refuse, q)
set_ptr_q q minus_one (at w) =
    if in_range q w then (done tt, record q { write_point = w }) else (refuse, q)
set_ptr_q q _ _ = (refuse, q)

pub peek_q : Queue → ℕ → Outcome (List ℕ)
peek_q q act_size =
    if read_size_wrong q act_size
    then fail error_recordsize
    else if q.operate_mode == shift_mode
    then fail error_operate_prohibit
    else if q.read_point == q.write_point
    then fail error_dq_empty
    else if q.num == 0 || ltb act_size q.size
    then fault
    else done (q.records ((q.read_point + 1) % q.num)).body

pub is_empty_q : Queue → Bool
is_empty_q q =
    if q.operate_mode == normal_mode then q.read_point == q.write_point else q.read_point == 0

pub is_full_q : Queue → Outcome Bool
is_full_q q =
    if q.operate_mode == normal_mode
    then if q.num == 0 then fault else done ((q.write_point + 1) % q.num == q.read_point)
    else done false
