-- ===== src/Queue/Fifo.antt =====
-- What a normal queue promises its clients: a first-in first-out list of at most `cap` records of
-- `size` bytes each, every record with the address that wrote it.
use g_plat.Prelude.{ℕ, ◌<◌, Bool, Option, List, [], ◌∷◌, ◌++◌, ◌==◌, if◌then◌else◌, length}
use g_plat.Errors.{Outcome, done, fail, refuse, error_dq_empty, error_dq_full, error_recordsize}
use g_plat.Queue.{Read}
use g_plat.Queue.Put.{ip_of}

-- A client's call. `write` passes as many bytes as it says, `read` and `peek` their buffer's size.
pub data Op : Type 0 where
  write : List ℕ → Option (List ℕ) → List ℕ → Op
  read : ℕ → Op
  peek : ℕ → Op
  pop : Op
  clear : Op
  ask_empty : Op
  ask_full : Op

pub data Reply : Type 0 where
  wrote : Outcome (Unit {0}) → Reply
  got : Outcome Read → Reply
  peeked : Outcome (List ℕ) → Reply
  popped : Outcome (Unit {0}) → Reply
  cleared : Outcome (Unit {0}) → Reply
  told : Outcome Bool → Reply

abbrev pub Fifo : Type 0
Fifo = List Read

-- The address of a write fits `char remoteIp[16]`.
abbrev pub OpFits : Op → Type 0
OpFits (write _ ip _) = length (ip_of ip) < 16
OpFits _ = Unit {0}

abbrev pub OpsFit : List Op → Type 0
OpsFit [] = Unit {0}
OpsFit (op ∷ ops) = OpFits op × OpsFit ops

abbrev pub first_body : Fifo → Outcome (List ℕ)
first_body [] = fail error_dq_empty
first_body (x ∷ _) = done x.0

abbrev pub take_first : Fifo → Outcome Read × Fifo
take_first [] = (fail error_dq_empty, [])
take_first (x ∷ f) = (done x, f)

abbrev pub drop_first : Fifo → Outcome (Unit {0}) × Fifo
drop_first [] = (fail error_dq_empty, [])
drop_first (x ∷ f) = (done tt, f)

abbrev pub push : ℕ → Fifo → Read → Outcome (Unit {0}) × Fifo
push cap f x = if length f == cap then (fail error_dq_full, f) else (done tt, f ++ x ∷ [])

module _ (cap size : ℕ) where
  unfoldable pub step : Fifo → Op → Reply × Fifo
  step f (write bytes ip now) =
      if length bytes == size
      then (let (o, f') = push cap f (bytes, ip_of ip) in (wrote o, f'))
      else (wrote (fail error_recordsize), f)
  step f (read n) =
      if n == size
      then (let (o, f') = take_first f in (got o, f'))
      else (got (fail error_recordsize), f)
  step f (peek n) = (peeked (if n == size then first_body f else fail error_recordsize), f)
  step f pop = let (o, f') = drop_first f in (popped o, f')
  step f clear = (cleared refuse, [])
  step f ask_empty = (told (done (length f == 0)), f)
  step f ask_full = (told (done (length f == cap)), f)

  unfoldable pub run : Fifo → List Op → List Reply
  run f [] = []
  run f (op ∷ ops) = let (r, f') = step f op in r ∷ run f' ops
