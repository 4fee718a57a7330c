-- ===== src/Network/Answer.antt =====
-- The steps of a client's call on the message that answers it.
use g_plat.Prelude.{
  ℕ, Bool, true, false, not, ◌==◌, ◌∷◌, ◌≤◌, ◌<◌, take-all, ◌≡◌, refl, ap, ◌∙◌, none, some, List,
  [], ltb, arith, length,
}
use g_plat.Message.{Head, encode}
use g_plat.Message.Layout.{IsHead, decode-encode, length-encode}
use g_plat.Server.{Message}
use g_plat.Client.{
  Reading, success, Io, readn, bytes, over, exchange, exchange_whole, read_bytes, fail_if, close_if,
  ◌>>=◌, ◌>>◌,
}
use g_plat.Client.Calls.{check_error, no_body, body_within}
use g_plat.Client.Requests.{copied}
use g_plat.Network.{head_of, Carries, IsSendable}

pub copied-short : (name : List ℕ) → length name < 40 → copied name ≡ name
copied-short name h = take-all 39 name (omega arith)

head_of-IsHead : (m : Message) → IsSendable m → IsHead (head_of m)
head_of-IsHead m v = record {
  id = v.id;
  qbdtype = omega (arith, v.body);
  datasize = omega (arith, v.body);
  datatype = omega (arith, v.body);
  start = omega (arith, v.body);
  count = omega (arith, v.body);
  recsize = v.recsize;
  bodysize = omega (arith, v.body);
  readptr = omega (arith, v.body);
  writeptr = omega (arith, v.body);
  error = v.error;
  subsize = omega (arith, v.body);
  offset = omega (arith, v.body);
  arraysize = omega (arith, v.body);
  eventid = omega (arith, v.body);
  eventarg = omega (arith, v.body);
  timeout = omega (arith, v.body);
  timestamp = v.timestamp;
  qname = tt;
  itemname = v.itemname;
  ip = tt;
  qname_length = omega arith;
  itemname_length = v.itemname_length;
  ip_length = omega arith;
}

over-head :
    (request : Head) (m : Message) → IsSendable m → over request (encode (head_of m)) ≡ head_of m
over-head request m v = decode-encode (head_of m) _ (head_of-IsHead m v)

pub bind-success :
    {A B : Type 0} (m : Io A) (f : A → Io B) {x : A} {rs rest : List Reading}
    → m rs ≡ some (success x, rest)
    → (m >>= f) rs ≡ f x rest
bind-success m f e = rw (e, ◌>>=◌) refl

read_bytes-readn :
    (n : ℕ) (rs : List Reading) {rest : List Reading} {xs : List ℕ}
    → readn n rs ≡ some (bytes xs, rest)
    → read_bytes n rs ≡ some (success xs, rest)
read_bytes-readn n rs e = rw (e, read_bytes) refl

module _ (request : Head) (rs : List Reading) (m : Message) (v : IsSendable m)
    (k : Carries rs m) where
  pub exchange-Carries : exchange none request rs ≡ some (success (head_of m), k.rest)
  unfolding exchange
  exchange-Carries =
      bind-success (read_bytes 180) _ (read_bytes-readn 180 rs k.head)
      ∙ ap (λ h. some (success h, k.rest)) (over-head request m v)

  long_enough :
      (e : ℕ)
      → close_if (ltb (length (encode (head_of m))) 180) e k.rest ≡ some (success tt, k.rest)
  long_enough e = ground (arith, length-encode (head_of m))

  pub exchange_whole-Carries :
      (e : ℕ) → exchange_whole none request e rs ≡ some (success (head_of m), k.rest)
  unfolding exchange_whole
  exchange_whole-Carries e =
      bind-success (read_bytes 180) _ (read_bytes-readn 180 rs k.head)
      ∙ bind-success (close_if (ltb (length (encode (head_of m))) 180) e) _ (long_enough e)
      ∙ ap (λ h. some (success h, k.rest)) (over-head request m v)

-- A test that does not hold lets the call go on.
pub fail_if-pass :
    {B : Type 0} (b : Bool) (e : ℕ) (next : Io B) (rs : List Reading)
    → b ≡ false
    → (fail_if b e >> next) rs ≡ next rs
fail_if-pass true e next rs h = cc h
fail_if-pass false e next rs h = refl

pub close_if-pass :
    {B : Type 0} (b : Bool) (e : ℕ) (next : Io B) (rs : List Reading)
    → b ≡ false
    → (close_if b e >> next) rs ≡ next rs
close_if-pass true e next rs h = cc h
close_if-pass false e next rs h = refl

no_body-accepts :
    (m : Message) (rs : List Reading)
    → m.error ≡ 0
    → m.body ≡ []
    → no_body (head_of m) rs ≡ some (success tt, rs)
no_body-accepts m rs no_error empty =
    close_if-pass _ _ (check_error (head_of m)) rs (ground (arith, empty))
    ∙ ground (arith, no_error)

rest-empty :
    (xs : List ℕ) (rs : List Reading)
    → xs ≡ []
    → readn (length xs) rs ≡ some (bytes xs, [])
    → rs ≡ []
unfolding readn
rest-empty [] rs e h = cc h
rest-empty (x ∷ xs) rs e h = cc e

body_within-gives :
    (n : ℕ) (rs : List Reading) (m : Message) (k : Carries rs m)
    → length m.body ≤ n
    → body_within n (head_of m) k.rest ≡ some (success m.body, [])
body_within-gives n rs m k h =
    close_if-pass _ _ (read_bytes (length m.body)) k.rest (ground (arith, h))
    ∙ read_bytes-readn (length m.body) k.rest k.body

-- A call that writes, on an answer without an error.
pub ask-written :
    (request : Head) (rs : List Reading) (m : Message)
    → m.error ≡ 0
    → m.body ≡ []
    → IsSendable m
    → Carries rs m
    → (exchange none request >>= no_body) rs ≡ some (success tt, [])
ask-written request rs m no_error empty v k =
    bind-success (exchange none request) no_body (exchange-Carries request rs m v k)
    ∙ no_body-accepts m k.rest no_error empty
    ∙ ap (λ r. some (success tt, r)) (rest-empty m.body k.rest empty k.body)

-- A call that reads, on an answer without an error.
pub ask-read :
    {B : Type 0} (request : Head) (n : ℕ) (f : Head → List ℕ → Io B) (rs : List Reading)
    (m : Message)
    → m.error ≡ 0
    → length m.body ≤ n
    → IsSendable m
    → Carries rs m
    → (exchange none request >>= λ head. check_error head >> (body_within n head >>= f head)) rs
      ≡ f (head_of m) m.body []
ask-read request n f rs m no_error fits v k =
    bind-success (exchange none request) _ (exchange-Carries request rs m v k)
    ∙ fail_if-pass (not (m.error == 0)) m.error (body_within n (head_of m) >>= f (head_of m)) k.rest
        (ground (arith, no_error))
    ∙ bind-success (body_within n (head_of m)) (f (head_of m)) (body_within-gives n rs m k fits)
