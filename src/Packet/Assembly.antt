-- ===== src/Packet/Assembly.antt =====
-- The packets that arrive, whatever the pieces that recv cuts the stream into.
use g_plat.Prelude.{
  ℕ, zero, suc, ◌+◌, ◌≤◌, ◌<◌, ◌≡◌, refl, sym, ap, ap₂, subst, ◌∙◌, inl, inr, List, [], ◌∷◌, ◌++◌,
  append-nil, ◌⊎◌, arith, length, length-append, length-collect, dec_lt,
}
use mathlib.Core.List.{append_assoc}
use g_plat.Queue.{max_msg_len}
use g_plat.Packet.{Receiver, in_head, in_packet, header_size, body_size, read_request, got}
use g_plat.Packet.Inv.{Awaits, awaits_header, awaits_body, byte, body_size-ext, body_size-collect}
use g_plat.Packet.Stream.{read_request-At}
use g_plat.Packet.States.{finish, finish_sized-short, finish_sized-whole, finish_sized-part, At}

abbrev pub concat : List (List ℕ) → List ℕ
concat [] = []
concat (x ∷ xs) = x ++ concat xs

-- The calls for the pieces that recv returns one after the other.
abbrev pub read_all : Receiver → List (List ℕ) → Receiver
read_all r [] = r
read_all r (c ∷ cs) = read_all (read_request r (got c)) cs

-- Every piece has some bytes, and no more than recv was asked for.
abbrev pub Accepts : Receiver → List (List ℕ) → Type 0
Accepts r [] = Unit {0}
Accepts r (c ∷ cs) =
    (0 < length c) × ((length c ≤ r.recv_len) × Accepts (read_request r (got c)) cs)

-- A header, with the size of the body in it, and the body.
pub record IsPacket (p : List ℕ) : Type 0 where
  pub long : length p ≡ header_size + body_size (byte p)
  pub small : body_size (byte p) ≤ max_msg_len

abbrev pub ArePackets : List (List ℕ) → Type 0
ArePackets [] = Unit {0}
ArePackets (p ∷ ps) = IsPacket p × ArePackets ps

byte-append : (xs ys : List ℕ) (i : ℕ) → i < length xs → byte (xs ++ ys) i ≡ byte xs i
byte-append [] ys i h = absurd (omega arith)
byte-append (x ∷ xs) ys zero h = refl
byte-append (x ∷ xs) ys (suc i) h = byte-append xs ys i (omega arith)

size-append :
    (xs ys : List ℕ) → header_size ≤ length xs → body_size (byte (xs ++ ys)) ≡ body_size (byte xs)
size-append xs ys h = body_size-ext _ _ (λ i lt. byte-append xs ys i (omega arith))

-- Of two lists that begin alike the shorter one is the start of the longer one.
split :
    (q t p w : List ℕ)
    → q ++ t ≡ p ++ w
    → length q ≤ length p
    → (s : List ℕ) × (p ≡ q ++ s) × (t ≡ s ++ w)
split [] t p w e h = (p, refl, e)
split (x ∷ q) t [] w e h = absurd (omega arith)
split (x ∷ q) t (y ∷ p) w e h =
    let (s, a, b) = split q t p w (cc e) (omega arith) in (s, ap₂ ◌∷◌ (cc e) a, b)

finish-whole :
    (packets : List (List ℕ)) (p : List ℕ) → IsPacket p → finish packets p ≡ (packets ++ p ∷ [], [])
finish-whole packets p is = finish_sized-whole packets p (body_size (byte p)) is.long is.small

finish-start :
    (packets : List (List ℕ)) (q : List ℕ) (x : ℕ) (s : List ℕ)
    → IsPacket (q ++ x ∷ s)
    → finish packets q ≡ (packets, q)
finish-start packets q x s is = elim (dec_lt (length q) header_size) [
  | yes lt ↦ finish_sized-short packets q (body_size (byte q)) lt
  | no past ↦
      let same = size-append q (x ∷ s) (omega arith) in
      finish_sized-part packets q (body_size (byte q)) (omega arith)
        (omega (arith, is.long, same, length-append q (x ∷ s))) (omega (arith, same, is.small))
]

-- The bytes of `pending` are the start of the first packet, and not all of it.
abbrev Begins : List ℕ → List (List ℕ) → Type 0
Begins pending [] = pending ≡ []
Begins pending (p ∷ ps) = length pending < length p

Begins-none : (ps : List (List ℕ)) → ArePackets ps → Begins [] ps
Begins-none [] are = refl
Begins-none (p ∷ ps) (is, are) = omega (arith, is.long)

-- What recv is asked for does not go beyond the first packet.
asks-within :
    (r : Receiver) (pending p t w : List ℕ) (n : ℕ)
    → Awaits r pending
    → IsPacket p
    → pending ++ t ≡ p ++ w
    → length pending < length p
    → n ≤ r.recv_len
    → length pending + n ≤ length p
asks-within r pending p t w n (awaits_header area stat some_room sum e) is eq lt le =
    omega (arith, is.long, sum, le, ap length (sym e) ∙ length-collect r.head 0 r.recv_pos)
asks-within r pending p t w n (awaits_body area stat some_room past sum small e) is eq lt le =
    let count : length pending ≡ r.recv_pos =
      ap length (sym e) ∙ length-collect r.packet 0 r.recv_pos in
    let (s, a, b) = split pending t p w eq (omega arith) in
    let same : body_size (byte p) ≡ body_size r.packet =
      ap (λ x. body_size (byte x)) a
      ∙ size-append pending s (omega (arith, past, count))
      ∙ ap (λ x. body_size (byte x)) (sym e)
      ∙ body_size-collect r.packet r.recv_pos past in
    omega (arith, is.long, sum, le, count, same)

At-next : {r : Receiver} {x y : List (List ℕ) × List ℕ} → x ≡ y → At r x → At r y
At-next {r} e a = subst (At r) e a

-- After a piece the first packet has arrived, or more of it has.
piece_from :
    (r r' : Receiver) (q t p w s : List ℕ)
    → IsPacket p
    → p ≡ q ++ s
    → t ≡ s ++ w
    → At r' (finish r.inbox q)
    → (At r' (r.inbox ++ p ∷ [], []) × (t ≡ w)) ⊎ (At r' (r.inbox, q) × (length q < length p))
piece_from r r' q t p w [] is start rest a =
    let same : p ≡ q = start ∙ append-nil q in
    inl (At-next (ap (finish r.inbox) (sym same) ∙ finish-whole r.inbox p is) a, rest)
piece_from r r' q t p w (x ∷ s) is start rest a = inr (
  At-next (finish-start r.inbox q x s (subst IsPacket start is)) a,
  omega (arith, ap length start, length-append q (x ∷ s)),
)

piece :
    (r r' : Receiver) (q t p w : List ℕ)
    → IsPacket p
    → q ++ t ≡ p ++ w
    → length q ≤ length p
    → At r' (finish r.inbox q)
    → (At r' (r.inbox ++ p ∷ [], []) × (t ≡ w)) ⊎ (At r' (r.inbox, q) × (length q < length p))
piece r r' q t p w is e le a =
    let (s, start, rest) = split q t p w e le in piece_from r r' q t p w s is start rest a

-- A connection behind the bytes `pending`, which gets the rest of the packets `ps` in any pieces.
gets-packets :
    (r : Receiver) (pending : List ℕ) (cs ps : List (List ℕ))
    → Awaits r pending
    → Begins pending ps
    → Accepts r cs
    → ArePackets ps
    → pending ++ concat cs ≡ concat ps
    → At (read_all r cs) (r.inbox ++ ps, [])
gets-packets r pending [] [] w b acc are e = record {
  packets = sym (append-nil r.inbox);
  waits = subst (Awaits r) b w;
}
gets-packets r pending [] (p ∷ ps) w b acc are e =
    absurd (omega (arith, b, ap length e, length-append pending [], length-append p (concat ps)))
gets-packets r pending (c ∷ cs) [] w b (some_bytes, (fits, acc)) are e = absurd (
    omega (
      arith,
      some_bytes,
      ap length e,
      length-append pending (c ++ concat cs),
      length-append c (concat cs),
    ))
gets-packets r pending (c ∷ cs) (p ∷ ps) w b (some_bytes, (fits, acc)) (is, are) e =
    let cut = asks-within r pending p (c ++ concat cs) (concat ps) (length c) w is e b fits in
    let assoc : (pending ++ c) ++ concat cs ≡ p ++ concat ps =
      append_assoc pending c (concat cs) ∙ e in
    elim (piece r (read_request r (got c)) (pending ++ c) (concat cs) p (concat ps) is assoc
      (omega (arith, cut, length-append pending c)) (read_request-At r pending c w fits)) [
        | inl (a, rest) ↦
            At-next
              (ap (λ x. (x, [])) (ap (λ x. x ++ ps) a.packets ∙ append_assoc r.inbox (p ∷ []) ps))
              (gets-packets (read_request r (got c)) [] cs ps a.waits (Begins-none ps are) acc are
                rest)
        | inr (a, short) ↦ At-next (ap (λ x. (x ++ p ∷ ps, [])) a.packets) (
            gets-packets (read_request r (got c)) (pending ++ c) cs (p ∷ ps) a.waits short acc
              (is, are) assoc)
      ]

-- A connection that waits for a packet gets the bytes of the packets `ps`, one after the other, cut
-- into any pieces of which none is empty or has more bytes than recv was asked for: after the calls
-- for the pieces the message queue has those packets behind what it had, in the order in which they
-- were sent, and the connection waits for a packet again.
pub read_all-packets :
    (r : Receiver) (cs ps : List (List ℕ))
    → Awaits r []
    → Accepts r cs
    → ArePackets ps
    → concat cs ≡ concat ps
    → ((read_all r cs).inbox ≡ r.inbox ++ ps) × Awaits (read_all r cs) []
read_all-packets r cs ps w acc are e =
    let a = gets-packets r [] cs ps w (Begins-none ps are) acc are e in (a.packets, a.waits)

-- A connection that waits behind any bytes, after any pieces of which none has more bytes than recv
-- was asked for, malformed headers included: recv is asked for some bytes, and they fit in the
-- buffer, which is that of a header or that of a packet with a body of at most MAXMSGLEN bytes.
pub read_all-bounds :
    (r : Receiver) (pending : List ℕ) (cs : List (List ℕ))
    → Awaits r pending
    → Accepts r cs
    → let r' = read_all r cs in
      (0 < r'.recv_len)
      × (((r'.area ≡ in_head) × (r'.recv_pos + r'.recv_len ≡ header_size))
          ⊎ ((r'.area ≡ in_packet)
              × (r'.recv_pos + r'.recv_len ≡ header_size + body_size r'.packet)
              × (body_size r'.packet ≤ max_msg_len)))
read_all-bounds r pending [] (awaits_header area stat some_room sum e) acc =
    (some_room, inl (area, sum))
read_all-bounds r pending [] (awaits_body area stat some_room past sum small e) acc =
    (some_room, inr (area, sum, small))
read_all-bounds r pending (c ∷ cs) w (some_bytes, (fits, acc)) =
    read_all-bounds (read_request r (got c)) _ cs (read_request-At r pending c w fits).waits acc
