-- ===== src/Message/Layout.antt =====
-- MSGHEAD as bytes, and back.
use mathlib.Core.List.{append_assoc}
use g_plat.Prelude.{
  ℕ, zero, suc, ap, [], ◌∷◌, ◌∙◌, ◌+◌, ◌*◌, ◌%◌, drop, length-append, ◌^◌, ◌<◌, ◌≤◌, ◌≡◌, refl,
  arith, length, take, List, ◌++◌,
}
use g_plat.Packet.{header_size, body_size}
use g_plat.Packet.Inv.{byte}
use g_plat.Packet.Assembly.{IsPacket}
use g_plat.Queue.{max_msg_len}
use g_plat.Message.{Head, encode, decode, to_le, of_le}
use g_plat.Message.Bytes.{
  IsText, of_le-to_le, text_of-pad, take-pad, drop-pad, take-to_le, drop-to_le, length-pad,
  length-to_le,
}

-- A head whose numbers and texts have room in their fields.
pub record IsHead (h : Head) : Type 0 where
  pub id : h.id < 2 ^ 32
  pub qbdtype : h.qbdtype < 2 ^ 32
  pub datasize : h.datasize < 2 ^ 32
  pub datatype : h.datatype < 2 ^ 32
  pub start : h.start < 2 ^ 32
  pub count : h.count < 2 ^ 32
  pub recsize : h.recsize < 2 ^ 32
  pub bodysize : h.bodysize < 2 ^ 32
  pub readptr : h.readptr < 2 ^ 32
  pub writeptr : h.writeptr < 2 ^ 32
  pub error : h.error < 2 ^ 32
  pub subsize : h.subsize < 2 ^ 32
  pub offset : h.offset < 2 ^ 32
  pub arraysize : h.arraysize < 2 ^ 32
  pub eventid : h.eventid < 2 ^ 32
  pub eventarg : h.eventarg < 2 ^ 32
  pub timeout : h.timeout < 2 ^ 32
  pub timestamp : h.timestamp < 2 ^ 128
  pub qname : IsText h.qname
  pub itemname : IsText h.itemname
  pub ip : IsText h.ip
  pub qname_length : length h.qname < 40
  pub itemname_length : length h.itemname < 40
  pub ip_length : length h.ip < 16

int : (x : ℕ) → x < 2 ^ 32 → of_le (to_le 4 x) ≡ x
int x h = of_le-to_le 4 x (omega (arith, h))

-- A head that has room in its fields, written to the bytes of the struct and read from them again,
-- whatever bytes `r` follow.
pub decode-encode : (h : Head) (r : List ℕ) → IsHead h → decode (encode h ++ r) ≡ h
unfolding decode encode
decode-encode h r v =
    simp (append_assoc, take-pad, drop-pad, take-to_le, drop-to_le)
      (ground (
        arith,
        text_of-pad 40 h.qname v.qname,
        text_of-pad 40 h.itemname v.itemname,
        text_of-pad 16 h.ip v.ip,
        int h.id v.id,
        int h.qbdtype v.qbdtype,
        int h.datasize v.datasize,
        int h.datatype v.datatype,
        int h.start v.start,
        int h.count v.count,
        int h.recsize v.recsize,
        int h.bodysize v.bodysize,
        int h.readptr v.readptr,
        int h.writeptr v.writeptr,
        int h.error v.error,
        int h.subsize v.subsize,
        int h.offset v.offset,
        int h.arraysize v.arraysize,
        int h.eventid v.eventid,
        int h.eventarg v.eventarg,
        int h.timeout v.timeout,
        of_le-to_le 16 h.timestamp (omega (arith, v.timestamp)),
      ))

pub length-encode : (h : Head) → length (encode h) ≡ header_size
unfolding encode
length-encode h = simp (length-append, length-pad, length-to_le)

byte-suc : (x : ℕ) (xs : List ℕ) (i j : ℕ) → suc i ≡ j → byte xs i ≡ byte (x ∷ xs) j
byte-suc x xs i j e = ap (byte (x ∷ xs)) e

byte-drop : (n : ℕ) (xs : List ℕ) (i : ℕ) → byte (drop n xs) i ≡ byte xs (n + i)
byte-drop zero xs i = ap (byte xs) (omega arith)
byte-drop (suc n) [] i = refl
byte-drop (suc n) (x ∷ xs) i = byte-drop n xs i ∙ byte-suc x xs (n + i) (suc n + i) (omega arith)

of_le-take :
    (ys : List ℕ)
    → of_le (take 4 ys) ≡ byte ys 0 + 256 * byte ys 1 + 65536 * byte ys 2 + 16777216 * byte ys 3
unfolding of_le
of_le-take [] = refl
of_le-take (a ∷ []) = omega arith
of_le-take (a ∷ b ∷ []) = omega arith
of_le-take (a ∷ b ∷ c ∷ []) = omega arith
of_le-take (a ∷ b ∷ c ∷ d ∷ ys) = omega arith

-- What the receiver takes for the size of the body is the field `bodysize`, cut to 16 bits.
pub body_size-decode : (bytes : List ℕ) → body_size (byte bytes) ≡ (decode bytes).bodysize % 2 ^ 16
unfolding decode
body_size-decode bytes = simp (of_le-take, byte-drop) (omega arith)

-- The packet of a head and the body that it announces.
pub encode-IsPacket :
    (h : Head) (body : List ℕ)
    → IsHead h
    → h.bodysize ≡ length body
    → length body ≤ max_msg_len
    → IsPacket (encode h ++ body)
encode-IsPacket h body v e small =
    let size : body_size (byte (encode h ++ body)) ≡ length body =
      body_size-decode (encode h ++ body)
      ∙ ap (λ x. x.bodysize % 2 ^ 16) (decode-encode h body v)
      ∙ omega (arith, e, small) in
    record {
      long = omega (arith, size, length-append (encode h) body, length-encode h);
      small = omega (arith, size, small);
    }
