-- ===== src/Network/Arrive.antt =====
-- The requests of a client, from the bytes that it sends to the packets that the handlers get.
use g_plat.Prelude.{
  ℕ, ◌≡◌, ◌≤◌, refl, sym, ap, ap₂, ◌∙◌, List, [], ◌∷◌, ◌++◌, length, drop, drop-length, map,
}
use mathlib.Core.List.{map-append}
use g_plat.Queue.{max_msg_len}
use g_plat.Message.{Head, encode, decode}
use g_plat.Message.Layout.{IsHead, decode-encode, encode-IsPacket, length-encode}
use g_plat.Packet.{Receiver, header_size}
use g_plat.Packet.Inv.{Awaits}
use g_plat.Packet.Assembly.{concat, read_all, Accepts, ArePackets, read_all-packets}

-- A head with the bytes of the body.
abbrev pub Request : Type 0
Request = Head × List ℕ

-- What send_all puts on the wire for it.
abbrev pub wire : Request → List ℕ
wire r = encode r.0 ++ r.1

-- What threadRecvProcFunc and the handlers see in a packet: the struct, and the bytes behind it.
abbrev pub seen : List ℕ → Request
seen packet = (decode packet, drop header_size packet)

pub record IsRequest (r : Request) : Type 0 where
  pub head : IsHead r.0
  pub announced : r.0.bodysize ≡ length r.1
  pub few : length r.1 ≤ max_msg_len

abbrev pub AreRequests : List Request → Type 0
AreRequests [] = Unit {0}
AreRequests (r ∷ rs) = IsRequest r × AreRequests rs

seen-wire : (r : Request) → IsRequest r → seen (wire r) ≡ r
seen-wire (h, body) v =
    ap₂ (λ a b. (a, b)) (decode-encode h body v.head)
      (ap (λ n. drop n (encode h ++ body)) (sym (length-encode h)) ∙ drop-length (encode h) body)

wire-ArePackets : (rs : List Request) → AreRequests rs → ArePackets (map wire rs)
wire-ArePackets [] v = tt
wire-ArePackets ((h, body) ∷ rs) (v, vs) =
    (encode-IsPacket h body v.head v.announced v.few, wire-ArePackets rs vs)

seen-wires : (rs : List Request) → AreRequests rs → map seen (map wire rs) ≡ rs
seen-wires [] v = refl
seen-wires (r ∷ rs) (v, vs) = ap₂ ◌∷◌ (seen-wire r v) (seen-wires rs vs)

-- A connection that waits for a packet gets the bytes of some requests, one after the other, cut into
-- any pieces of which none is empty or has more bytes than recv was asked for: behind the packets
-- that were there stand, read as head and body, those requests in the order in which they were sent,
-- and the connection waits for a packet again.
pub requests-arrive :
    (r : Receiver) (cs : List (List ℕ)) (requests : List Request)
    → Awaits r []
    → Accepts r cs
    → AreRequests requests
    → concat cs ≡ concat (map wire requests)
    → (map seen (read_all r cs).inbox ≡ map seen r.inbox ++ requests) × Awaits (read_all r cs) []
requests-arrive r cs requests w acc are e =
    let (packets, waits) =
      read_all-packets r cs (map wire requests) w acc (wire-ArePackets requests are) e in
    (
      ap (map seen) packets
          ∙ map-append seen r.inbox (map wire requests)
          ∙ ap (λ rest. map seen r.inbox ++ rest) (seen-wires requests are),
      waits,
    )
