-- ===== src/Packet/Inv.antt =====
-- Where a connection puts the next bytes, and the bytes of the packet that it has so far.
use g_plat.Prelude.{
  ℕ, zero, suc, ◌+◌, ◌≤◌, ◌<◌, ◌≡◌, refl, ap, ap₂, ◌∙◌, ◌⊎◌, List, [], ◌∷◌, ◌++◌, arith, length,
  collect, collect-ext, collect-append, copy_in,
}
use g_plat.Queue.{max_msg_len}
use g_plat.Board.Items.{copy_in-outside, collect-copy_in}
use g_plat.Packet.{
  Receiver, hd_init, hd_recving, bd_init, bd_recving, in_head, in_packet, header_size, body_size,
}

-- The next bytes of a header go to `dataHeadInfo`, those of a body behind the header in the memory of
-- the packet; there is room for all that recv is asked for, which is never nothing; and the bytes in
-- front of that place are those of `pending`.
pub data Awaits (r : Receiver) (pending : List ℕ) : Type 0 where
  awaits_header :
      r.area ≡ in_head
      → ((r.cur_stat ≡ hd_init) × (r.recv_pos ≡ 0)) ⊎ (r.cur_stat ≡ hd_recving)
      → 0 < r.recv_len
      → r.recv_pos + r.recv_len ≡ header_size
      → collect r.head 0 r.recv_pos ≡ pending
      → Awaits r pending
  awaits_body :
      r.area ≡ in_packet
      → (r.cur_stat ≡ bd_init) ⊎ (r.cur_stat ≡ bd_recving)
      → 0 < r.recv_len
      → header_size ≤ r.recv_pos
      → r.recv_pos + r.recv_len ≡ header_size + body_size r.packet
      → body_size r.packet ≤ max_msg_len
      → collect r.packet 0 r.recv_pos ≡ pending
      → Awaits r pending

-- The byte at a place of a list, 0 behind its end.
abbrev pub byte : List ℕ → ℕ → ℕ
byte [] i = 0
byte (x ∷ xs) zero = x
byte (x ∷ xs) (suc i) = byte xs i

byte-collect-from : (f : ℕ → ℕ) (j n i : ℕ) → i < n → byte (collect f j n) i ≡ f (j + i)
unfolding collect
byte-collect-from f j zero i h = absurd (omega arith)
byte-collect-from f j (suc n) zero h = ap f (omega arith)
byte-collect-from f j (suc n) (suc i) h =
    byte-collect-from f (j + 1) n i (omega arith) ∙ ap f (omega arith)

pub byte-collect : (f : ℕ → ℕ) (n i : ℕ) → i < n → byte (collect f 0 n) i ≡ f i
byte-collect f n i h = byte-collect-from f 0 n i h ∙ ap f (omega arith)

-- Bytes appended to those that stand at the start of a buffer.
pub collect-copy_in_end :
    (f : ℕ → ℕ) (n : ℕ) (xs : List ℕ)
    → collect (copy_in f n xs) 0 (n + length xs) ≡ collect f 0 n ++ xs
collect-copy_in_end f n xs =
    collect-append (copy_in f n xs) 0 n (length xs)
    ∙ ap₂ ◌++◌ (collect-ext _ f 0 n (λ i lo hi. copy_in-outside f n xs i (omega (arith, hi))))
        (ap (λ k. collect (copy_in f n xs) k (length xs)) (omega arith) ∙ collect-copy_in f n xs)

-- The size of the body in a header depends on the header's bytes only.
pub body_size-ext :
    (f g : ℕ → ℕ) → ((i : ℕ) → i < header_size → f i ≡ g i) → body_size f ≡ body_size g
body_size-ext f g h =
    rw
      (
        h 124 (omega arith),
        h (124 + 1) (omega arith),
        h (124 + 2) (omega arith),
        h (124 + 3) (omega arith),
      )
      refl

pub body_size-collect :
    (f : ℕ → ℕ) (n : ℕ) → header_size ≤ n → body_size (byte (collect f 0 n)) ≡ body_size f
body_size-collect f n h = body_size-ext _ f (λ i lt. byte-collect f n i (omega arith))
