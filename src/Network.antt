-- ===== src/Network.antt =====
-- The client of higplat/higplat.cpp against the handlers of gplat/ngx_c_slogic.cxx: what a call
-- returns when the answer to its request arrives.
pub mod Answer
pub mod Board
pub mod Arrive
pub mod Demand
pub mod Queue
mod Tests
use g_plat.Prelude.{ℕ, ◌^◌, ◌<◌, ◌≤◌, ◌≡◌, List, length, some}
use g_plat.Message.{Head, zero_head, encode}
use g_plat.Message.Bytes.{IsText}
use g_plat.Queue.{max_msg_len}
use g_plat.Server.{Message}
use g_plat.Client.{Reading, bytes, readn}

-- The head of a message as far as a client reads it.
abbrev pub head_of : Message → Head
head_of m = record zero_head {
  id = m.id;
  itemname = m.itemname;
  timestamp = m.timestamp;
  recsize = m.recsize;
  bodysize = length m.body;
  error = m.error;
}

-- What a client reads is this message, head and body, and no more.
pub record Carries (rs : List Reading) (m : Message) : Type 0 where
  pub rest : List Reading
  pub head : readn 180 rs ≡ some (bytes (encode (head_of m)), rest)
  pub body : readn (length m.body) rest ≡ some (bytes m.body, List.[])

-- A message that has room in the fields of the head.
pub record IsSendable (m : Message) : Type 0 where
  pub id : m.id < 2 ^ 32
  pub itemname : IsText m.itemname
  pub itemname_length : length m.itemname < 40
  pub timestamp : m.timestamp < 2 ^ 128
  pub recsize : m.recsize < 2 ^ 32
  pub error : m.error < 2 ^ 32
  pub body : length m.body ≤ max_msg_len
