-- ===== src/Queue/Make.antt =====
-- CreateQ of higplat/higplat.cpp.
use g_plat.Prelude.{
  ℕ, Bool, false, not, ◌&&◌, ◌||◌, Option, none, some, List, [], ltb, ◌==◌, if◌then◌else◌, length,
  take,
}
use g_plat.Errors.{Outcome, done, fail, refuse, fault, hang, error_parameter_size}
use g_plat.Queue.{
  FileAnswers, Queue, fresh_record, last_point, max_msg_len, normal_mode, open_file, type_max_size,
}

-- `pType != 0 && typeSize != 0 && typeSize < TYPEMAXSIZE`; the bytes are what `pType` points to.
unfoldable pub keeps_type : Option (List ℕ) → ℕ → Bool
keeps_type none type_size = false
keeps_type (some bytes) type_size = not (type_size == 0) && ltb type_size type_max_size

unfoldable pub type_bytes : Option (List ℕ) → ℕ → List ℕ
type_bytes none type_size = []
type_bytes (some bytes) type_size = take type_size bytes

abbrev pub init_queue : ℕ → ℕ → ℕ → ℕ → List ℕ → List ℕ → Queue
init_queue record_size record_num data_type operate_mode now typ = record {
  data_type = data_type;
  operate_mode = operate_mode;
  num = record_num;
  size = record_size;
  read_point = if operate_mode == normal_mode then last_point record_num else 0;
  write_point = last_point record_num;
  create_date = now;
  type_size = length typ;
  type_area = typ;
  records = fresh_record record_size;
}

unfoldable pub create_q :
    FileAnswers → List ℕ → List ℕ → ℕ → ℕ → ℕ → ℕ → Option (List ℕ) → ℕ → List ℕ → Outcome Queue
unfolding open_file keeps_type type_bytes
create_q os path name record_size record_num data_type operate_mode typ type_size now =
    if ltb max_msg_len record_size || ltb type_max_size type_size
    then fail error_parameter_size
    else elim (open_file os path name) [
      | done _ ↦
          if keeps_type typ type_size
          then if ltb (length (type_bytes typ type_size)) type_size
            then fault
            else done (
                init_queue record_size record_num data_type operate_mode now
                  (type_bytes typ type_size))
          else done (init_queue record_size record_num data_type operate_mode now [])
      | fail e ↦ fail e
      | refuse ↦ refuse
      | fault ↦ fault
      | hang ↦ hang
    ]
