-- ===== src/Errors.antt =====
-- Error codes of higplat/qbd.h, and how a function of the library returns.
use g_plat.Prelude.{ℕ, ◌+◌}

-- `done` is `return true` with what goes out through the pointers; `fail` is `return false` with
-- errorCode set; `refuse` is `return false` with errorCode left alone; `fault` is undefined
-- behaviour (an access outside a buffer, a division by zero); `hang` is a loop that does not end.
pub data Outcome {ℓ} (A : Type ℓ) : Type ℓ where
  done : A → Outcome A
  fail : ℕ → Outcome A
  refuse : Outcome A
  fault : Outcome A
  hang : Outcome A

abbrev pub my_err_offset : ℕ
my_err_offset = 1000

abbrev pub error_dq_empty : ℕ
error_dq_empty = my_err_offset + 3

abbrev pub error_dq_full : ℕ
error_dq_full = my_err_offset + 4

abbrev pub error_filename_too_long : ℕ
error_filename_too_long = my_err_offset + 5

abbrev pub error_file_in_use : ℕ
error_file_in_use = my_err_offset + 6

abbrev pub error_file_create_failsure : ℕ
error_file_create_failsure = my_err_offset + 7

abbrev pub error_recordsize : ℕ
error_recordsize = my_err_offset + 14

abbrev pub error_startposition : ℕ
error_startposition = my_err_offset + 15

abbrev pub error_table_overflow : ℕ
error_table_overflow = my_err_offset + 17

abbrev pub error_record_not_exist : ℕ
error_record_not_exist = my_err_offset + 18

abbrev pub error_operate_prohibit : ℕ
error_operate_prohibit = my_err_offset + 19

abbrev pub error_no_space : ℕ
error_no_space = my_err_offset + 24

abbrev pub error_item_not_exist : ℕ
error_item_not_exist = my_err_offset + 28

abbrev pub error_item_already_exist : ℕ
error_item_already_exist = my_err_offset + 29

abbrev pub error_item_overflow : ℕ
error_item_overflow = my_err_offset + 30

abbrev pub error_parameter_size : ℕ
error_parameter_size = my_err_offset + 34

abbrev pub string_too_long : ℕ
string_too_long = my_err_offset + 37

abbrev pub buffer_too_small : ℕ
buffer_too_small = my_err_offset + 38

abbrev pub error_tag_not_exist : ℕ
error_tag_not_exist = my_err_offset + 42

abbrev pub error_already_load : ℕ
error_already_load = my_err_offset + 22

abbrev pub error_table_not_exist : ℕ
error_table_not_exist = my_err_offset + 25

abbrev pub error_table_already_exist : ℕ
error_table_already_exist = my_err_offset + 26

abbrev pub error_table_rowid : ℕ
error_table_rowid = my_err_offset + 27

abbrev pub error_wait_timeout : ℕ
error_wait_timeout = my_err_offset + 43

abbrev pub error_socket_not_connected : ℕ
error_socket_not_connected = my_err_offset + 31

abbrev pub error_invalid_parameter : ℕ
error_invalid_parameter = my_err_offset + 39

abbrev pub error_invalid_response : ℕ
error_invalid_response = my_err_offset + 40

abbrev pub error_buffer_too_small : ℕ
error_buffer_too_small = my_err_offset + 41
