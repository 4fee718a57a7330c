-- ===== src/Packet/Tests.antt =====
-- Two packets, one with a body of two bytes and one without, in pieces.
use g_plat.Prelude.{
  ℕ, ◌+◌, ◌≤◌, ◌<◌, ◌≡◌, ◌⊎◌, inl, refl, List, [], ◌∷◌, ◌++◌, arith, replicate, take, drop, collect,
  copy_in,
}
use g_plat.Queue.{max_msg_len}
use g_plat.Packet.{
  in_head, in_packet, header_size, body_size, read_request, dispatch, proc_p1, proc_plast,
}
use g_plat.Packet.Sample.{idle}
use g_plat.Packet.Inv.{Awaits, awaits_header}
use g_plat.Packet.Assembly.{ArePackets, Accepts, read_all, read_all-packets, read_all-bounds}

idle-Awaits : Awaits idle []
unfolding collect
idle-Awaits = awaits_header refl (inl (refl, refl)) (omega arith) (omega arith) refl

-- A header that announces `n` bytes.
abbrev header_of : ℕ → List ℕ
header_of n = replicate 124 7 ++ (n ∷ 0 ∷ 0 ∷ 0 ∷ replicate 52 0)

abbrev packets : List (List ℕ)
packets = (header_of 2 ++ (8 ∷ 9 ∷ [])) ∷ header_of 0 ∷ []

abbrev pieces : List (List ℕ)
pieces = take 100 (header_of 2) ∷ drop 100 (header_of 2) ∷ (8 ∷ []) ∷ (9 ∷ []) ∷ header_of 0 ∷ []

packets-ArePackets : ArePackets packets
packets-ArePackets =
    (record { long = refl; small = omega arith }, (record { long = refl; small = omega arith }, tt))

pieces-Accepts : Accepts idle pieces
unfolding read_request dispatch proc_p1 proc_plast collect copy_in
pieces-Accepts = (
  omega arith,
  (
    omega arith,
    (
      omega arith,
      (
        omega arith,
        (
          omega arith,
          (omega arith, (omega arith, (omega arith, (omega arith, (omega arith, tt))))),
        ),
      ),
    ),
  ),
)

read_all-packets_example :
    ((read_all idle pieces).inbox ≡ [] ++ packets) × Awaits (read_all idle pieces) []
read_all-packets_example =
    read_all-packets idle pieces packets idle-Awaits pieces-Accepts packets-ArePackets refl

read_all-bounds_example :
    let r' = read_all idle pieces in
    (0 < r'.recv_len)
    × (((r'.area ≡ in_head) × (r'.recv_pos + r'.recv_len ≡ header_size))
        ⊎ ((r'.area ≡ in_packet)
            × (r'.recv_pos + r'.recv_len ≡ header_size + body_size r'.packet)
            × (body_size r'.packet ≤ max_msg_len)))
read_all-bounds_example = read_all-bounds idle [] pieces idle-Awaits pieces-Accepts
