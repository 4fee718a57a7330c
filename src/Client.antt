-- ===== src/Client.antt =====
-- How a call of the client in higplat/higplat.cpp talks to the server: readn, and the part that the
-- calls share, from send_all to the head of the response.
pub mod Requests
pub mod Calls
pub mod Stream
mod Tests
use g_plat.Prelude.{
  ℕ, zero, suc, ◌-◌, ◌*◌, Bool, Option, none, some, List, [], ◌∷◌, ◌++◌, ltb, ◌==◌, if◌then◌else◌,
  length, take, drop,
}
use g_plat.Message.{Head, encode, decode}

-- What read answers, call by call: bytes, as many as fit or fewer; EINTR; the end of the stream; an
-- error with its errno.
pub data Reading : Type 0 where
  got : List ℕ → Reading
  interrupted : Reading
  ended : Reading
  broken : ℕ → Reading

-- What readn returns: bytes, fewer than wanted at the end of the stream, or -1 with errno.
pub data Read : Type 0 where
  bytes : List ℕ → Read
  error : ℕ → Read

abbrev pub behind : List ℕ → Read → Read
behind xs (bytes ys) = bytes (xs ++ ys)
behind xs (error e) = error e

abbrev pub behind_all : List ℕ → Option (Read × List Reading) → Option (Read × List Reading)
behind_all xs none = none
behind_all xs (some (r, rest)) = some (behind xs r, rest)

-- `none`: it waits for ever.
unfoldable pub readn : ℕ → List Reading → Option (Read × List Reading)
readn zero rs = some (bytes [], rs)
readn (suc n) [] = none
readn (suc n) (got xs ∷ rs) = behind_all xs (readn (suc n - length xs) rs)
readn (suc n) (interrupted ∷ rs) = readn (suc n) rs
readn (suc n) (ended ∷ rs) = some (bytes [], rs)
readn (suc n) (broken e ∷ rs) = some (error e, rs)

-- How a call ends: true with what it gives; false with `*error`; the same with the socket closed.
pub data Call (A : Type 0) : Type 0 where
  success : A → Call A
  failure : ℕ → Call A
  closed : ℕ → Call A

abbrev pub Io : Type 0 → Type 0
Io A = List Reading → Option (Call A × List Reading)

infixl 5 ◌>>=◌ ◌>>◌
abbrev pub ◌>>=◌ : {A B : Type 0} → Io A → (A → Io B) → Io B
◌>>=◌ m f rs = elim (m rs) [
  | none ↦ none
  | some (success x, rest) ↦ f x rest
  | some (failure e, rest) ↦ some (failure e, rest)
  | some (closed e, rest) ↦ some (closed e, rest)
]

abbrev pub ◌>>◌ : {B : Type 0} → Io (Unit {0}) → Io B → Io B
m >> k = m >>= λ _. k

abbrev pub return : {A : Type 0} → A → Io A
return x rs = some (success x, rs)

abbrev pub fail_if : Bool → ℕ → Io (Unit {0})
fail_if b e rs = if b then some (failure e, rs) else some (success tt, rs)

abbrev pub close_if : Bool → ℕ → Io (Unit {0})
close_if b e rs = if b then some (closed e, rs) else some (success tt, rs)

-- readn with `< 0` for the test: the end of the stream goes unnoticed.
abbrev pub read_bytes : ℕ → Io (List ℕ)
read_bytes n rs = elim (readn n rs) [
  | none ↦ none
  | some (bytes xs, rest) ↦ some (success xs, rest)
  | some (error e, rest) ↦ some (closed e, rest)
]

-- The response is read into the struct that the request was sent from.
abbrev pub over : Head → List ℕ → Head
over request xs = decode (xs ++ drop (length xs) (encode request))

-- `sent` is the errno of a send_all that fails.
abbrev pub send : Option ℕ → Io (Unit {0})
send none rs = some (success tt, rs)
send (some e) rs = some (closed e, rs)

unfoldable pub exchange : Option ℕ → Head → Io Head
exchange sent request = do send sent; xs ← read_bytes 180; return (over request xs)

-- The same where a response that is too short counts as an error.
unfoldable pub exchange_whole : Option ℕ → Head → ℕ → Io Head
exchange_whole sent request e = do
  send sent
  xs ← read_bytes 180
  close_if (ltb (length xs) 180) e
  return (over request xs)
