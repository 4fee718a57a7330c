-- ===== src/Queue/Create.antt =====
-- CreateQ in the two modes, with file steps that succeed.
use g_plat.Prelude.{
  ℕ, ◌+◌, ◌^◌, ◌<◌, ◌≤◌, ◌≡◌, refl, List, [], Option, none, some, true, if◌then◌else◌, arith,
  length, length-replicate, length-take,
}
use g_plat.Errors.{done}
use g_plat.Queue.{
  Queue, FileAnswers, open_file, binary_type, normal_mode, shift_mode, type_max_size, max_msg_len,
  is_empty_q,
}
use g_plat.Queue.Make.{init_queue, create_q, keeps_type, type_bytes}
use g_plat.Queue.Contents.{IsBinary, contents, contents-eq-nil}
use g_plat.Queue.History.{IsHistory}

-- No step of the file system or the operating system fails.
abbrev pub AllWell : FileAnswers → Type 0
AllWell os =
    (os.removed ≡ true)
    × (os.parent_created ≡ true)
    × (os.opened ≡ true)
    × (os.truncated ≡ true)
    × (os.mapped ≡ true)

-- The type description that the queue keeps.
kept : Option (List ℕ) → ℕ → List ℕ
unfolding keeps_type type_bytes
kept typ type_size = if keeps_type typ type_size then type_bytes typ type_size else []

-- The caller's buffer holds the bytes that it announces.
abbrev pub TypeFits : Option (List ℕ) → ℕ → Type 0
TypeFits none type_size = Unit {0}
TypeFits (some bytes) type_size = type_size ≤ length bytes

pub open_file-done :
    (os : FileAnswers) (path name : List ℕ)
    → AllWell os
    → length name ≤ 40
    → length path + length name < 100
    → open_file os path name ≡ done tt
unfolding open_file
open_file-done os path name w a b = ground arith

create_q_makes :
    (os : FileAnswers) (path name : List ℕ) (size num data_type mode : ℕ) (typ : Option (List ℕ))
    (type_size : ℕ) (now : List ℕ)
    → AllWell os
    → length name ≤ 40
    → length path + length name < 100
    → size ≤ max_msg_len
    → type_size ≤ type_max_size
    → TypeFits typ type_size
    → create_q os path name size num data_type mode typ type_size now
      ≡ done (init_queue size num data_type mode now (kept typ type_size))
unfolding create_q kept
create_q_makes os path name size num data_type mode none type_size now w a b c d f = ground arith
create_q_makes os path name size num data_type mode (some t) type_size now w a b c d f =
    ground (arith, length-take type_size t)

-- The queue in memory after CreateQ, in the two modes.
module _ (size num : ℕ) (now typ : List ℕ) (pos : 0 < num) (small : num < 2 ^ 31) where
  pub init_normal-IsBinary : IsBinary (init_queue size num binary_type normal_mode now typ)
  init_normal-IsBinary = record {
    normal = omega arith;
    binary = refl;
    bodies = λ i. length-replicate size 0;
  }

  pub init_shift-IsHistory : IsHistory (init_queue size num binary_type shift_mode now typ)
  init_shift-IsHistory = record {
    shift = omega arith;
    binary = refl;
    bodies = λ i. length-replicate size 0;
    labels = λ i. refl;
  }

-- Given file steps that succeed, a name of at most 40 bytes and sizes within their bounds, CreateQ
-- makes a normal binary queue of `num` slots that meets the invariant, is empty and takes records of
-- `size` bytes.
pub create_q_normal :
    (os : FileAnswers) (path name : List ℕ) (size num : ℕ) (typ : Option (List ℕ)) (type_size : ℕ)
    (now : List ℕ)
    → AllWell os
    → length name ≤ 40
    → length path + length name < 100
    → size ≤ max_msg_len
    → type_size ≤ type_max_size
    → TypeFits typ type_size
    → 0 < num
    → num < 2 ^ 31
    → (q : Queue) × (create_q os path name size num binary_type normal_mode typ type_size now
        ≡ done q)
      × IsBinary q
      × (contents q ≡ [])
      × (q.num ≡ num)
      × (q.size ≡ size)
create_q_normal os path name size num typ type_size now w a b c d f pos small = (
  init_queue size num binary_type normal_mode now (kept typ type_size),
  create_q_makes os path name size num binary_type normal_mode typ type_size now w a b c d f,
  init_normal-IsBinary size num now (kept typ type_size) pos small,
  contents-eq-nil (init_normal-IsBinary size num now (kept typ type_size) pos small) refl,
  refl,
  refl,
)

-- Under the same conditions CreateQ makes a shift queue that meets the invariant of its mode and
-- that IsEmptyQ calls empty.
pub create_q_shift :
    (os : FileAnswers) (path name : List ℕ) (size num : ℕ) (typ : Option (List ℕ)) (type_size : ℕ)
    (now : List ℕ)
    → AllWell os
    → length name ≤ 40
    → length path + length name < 100
    → size ≤ max_msg_len
    → type_size ≤ type_max_size
    → TypeFits typ type_size
    → 0 < num
    → num < 2 ^ 31
    → (q : Queue) × (create_q os path name size num binary_type shift_mode typ type_size now
        ≡ done q)
      × IsHistory q
      × (is_empty_q q ≡ true)
      × (q.num ≡ num)
      × (q.size ≡ size)
unfolding is_empty_q
create_q_shift os path name size num typ type_size now w a b c d f pos small = (
  init_queue size num binary_type shift_mode now (kept typ type_size),
  create_q_makes os path name size num binary_type shift_mode typ type_size now w a b c d f,
  init_shift-IsHistory size num now (kept typ type_size) pos small,
  refl,
  refl,
  refl,
)
