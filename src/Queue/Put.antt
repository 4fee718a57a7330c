-- ===== src/Queue/Put.antt =====
-- WriteQ of higplat/higplat.cpp.
use g_plat.Prelude.{
  ℕ, zero, suc, ◌+◌, ◌%◌, Bool, not, ◌&&◌, ◌||◌, Option, none, some, List, [], ◌∷◌, ◌++◌, ltb, leb,
  ◌==◌, if◌then◌else◌, length, take, drop, update,
}
use g_plat.Errors.{Outcome, done, fail, fault, error_dq_full, error_recordsize}
use g_plat.Queue.{Queue, Record, ascii_type, binary_type, normal_mode, shift_mode}

-- The bytes before the first zero, or `none` where the buffer holds no zero.
pub strlen : List ℕ → Option ℕ
strlen [] = none
strlen (zero ∷ s) = some 0
strlen (suc _ ∷ s) = elim (strlen s) [ none ↦ none | some n ↦ some (suc n) ]

-- `actSize` as WriteQ goes on with it.
unfoldable pub write_size : Queue → List ℕ → ℕ → Option ℕ
write_size q bytes act_size =
    if q.data_type == ascii_type && act_size == 0
    then elim (strlen bytes) [ none ↦ none | some n ↦ some (suc n) ]
    else some act_size

abbrev write_size_wrong : Queue → ℕ → Bool
write_size_wrong q act_size =
    (q.data_type == ascii_type && ltb q.size act_size)
    || (q.data_type == binary_type && not (act_size == q.size))

-- "127.0.0.1"
abbrev pub local_ip : List ℕ
local_ip = 49 ∷ 50 ∷ 55 ∷ 46 ∷ 48 ∷ 46 ∷ 48 ∷ 46 ∷ 49 ∷ []

abbrev pub ip_of : Option (List ℕ) → List ℕ
ip_of none = local_ip
ip_of (some ip) = ip

-- The slot as WriteQ leaves it: a shorter record keeps the tail of the one before.
unfoldable pub stamp : Record → List ℕ → ℕ → List ℕ → List ℕ → Record
stamp old bytes act_size ip now = record {
  create_date = now;
  remote_ip = ip;
  ack = 0;
  index = old.index;
  body = take act_size bytes ++ drop act_size old.body;
}

unfoldable pub put_record : Queue → List ℕ → ℕ → List ℕ → List ℕ → Queue
unfolding stamp
put_record q bytes act_size ip now =
    let w = (q.write_point + 1) % q.num in
    record q {
      write_point = w;
      records = update q.records w (stamp (q.records w) bytes act_size ip now);
      read_point = if q.operate_mode == shift_mode then 1 else q.read_point;
    }

-- What the copies of WriteQ may not overrun: the caller's buffer, the slot, `char remoteIp[16]`.
abbrev write_overruns : Queue → List ℕ → ℕ → List ℕ → Bool
write_overruns q bytes act_size ip =
    ltb (length bytes) act_size || ltb q.size act_size || leb 16 (length ip)

unfoldable pub write_sized : Queue → List ℕ → ℕ → List ℕ → List ℕ → Outcome (Unit {0}) × Queue
write_sized q bytes act_size ip now =
    if write_size_wrong q act_size
    then (fail error_recordsize, q)
    else if q.num == 0
    then (fault, q)
    else if q.operate_mode == normal_mode && (q.write_point + 1) % q.num == q.read_point
    then (fail error_dq_full, q)
    else if write_overruns q bytes act_size ip
    then (fault, q)
    else (done tt, put_record q bytes act_size ip now)

unfoldable pub write_q : Queue → List ℕ → ℕ → Option (List ℕ) → List ℕ → Outcome (Unit {0}) × Queue
unfolding write_size write_sized
write_q q bytes act_size remote_ip now = elim (write_size q bytes act_size) [
  | none ↦ (fault, q)
  | some n ↦ write_sized q bytes n (ip_of remote_ip) now
]
