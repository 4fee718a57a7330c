-- ===== src/Packet/States.antt =====
-- The end of a header and of a body, against the list of the bytes so far.
use g_plat.Prelude.{
  ℕ, ◌+◌, ◌≤◌, ◌<◌, ◌≡◌, refl, sym, ap, subst, ◌∙◌, inl, Bool, true, false, List, [], ◌∷◌, ◌++◌,
  arith, ltb, ◌==◌, if◌then◌else◌, length, length-collect, collect, copy_in, ltb→lt, ==_iff,
}
use g_plat.Queue.{max_msg_len}
use g_plat.Board.Items.{collect-copy_in}
use g_plat.Packet.{
  Receiver, bd_init, in_packet, header_size, body_size, expect_header, proc_p1, proc_plast,
}
use g_plat.Packet.Inv.{Awaits, awaits_header, awaits_body, byte, body_size-collect}

-- The packets so far and the bytes behind them, when `bytes` follow the packets, of which the header
-- says `size`: a header that says too much is dropped, and a packet is complete when it has as many
-- bytes as its header says.
abbrev pub finish_sized : List (List ℕ) → List ℕ → ℕ → List (List ℕ) × List ℕ
finish_sized packets bytes size =
    if ltb (length bytes) header_size
    then (packets, bytes)
    else if ltb max_msg_len size
    then (packets, [])
    else if length bytes == header_size + size
    then (packets ++ bytes ∷ [], [])
    else (packets, bytes)

abbrev pub finish : List (List ℕ) → List ℕ → List (List ℕ) × List ℕ
finish packets bytes = finish_sized packets bytes (body_size (byte bytes))

module _ (packets : List (List ℕ)) (bytes : List ℕ) (size : ℕ) where
  pub finish_sized-short :
      length bytes < header_size → finish_sized packets bytes size ≡ (packets, bytes)
  finish_sized-short h = ground arith

  pub finish_sized-huge :
      header_size ≤ length bytes
      → max_msg_len < size
      → finish_sized packets bytes size ≡ (packets, [])
  finish_sized-huge h g = ground arith

  pub finish_sized-whole :
      length bytes ≡ header_size + size
      → size ≤ max_msg_len
      → finish_sized packets bytes size ≡ (packets ++ bytes ∷ [], [])
  finish_sized-whole h g = ground arith

  pub finish_sized-part :
      header_size ≤ length bytes
      → length bytes < header_size + size
      → size ≤ max_msg_len
      → finish_sized packets bytes size ≡ (packets, bytes)
  finish_sized-part h k g = ground arith

-- The receiver has those packets in the message queue and waits behind those bytes.
pub record At (r : Receiver) (x : List (List ℕ) × List ℕ) : Type 0 where
  pub packets : r.inbox ≡ x.0
  pub waits : Awaits r x.1

expect_header-Awaits : (r : Receiver) → Awaits (expect_header r) []
unfolding collect
expect_header-Awaits r = awaits_header refl (inl (refl, refl)) (omega arith) (omega arith) refl

pub At-if :
    (c : Bool) {x x' : Receiver} {y : List (List ℕ) × List ℕ}
    → (c ≡ true → At x y)
    → (c ≡ false → At x' y)
    → At (if c then x else x') y
At-if true h g = h refl
At-if false h g = g refl

nonzero : (n : ℕ) → (n == 0) ≡ false → 0 < n
nonzero n h = ground arith

pos_of : (n : ℕ) → (n == 0) ≡ false → header_size < header_size + n
pos_of n h = omega (arith, nonzero n h)

le_of : (n : ℕ) → ltb max_msg_len n ≡ false → n ≤ max_msg_len
le_of n h = ground arith

pub less_of : (n m : ℕ) → (n == m) ≡ false → m ≤ n → m < n
less_of n m h le = ground arith

pub ==_sym : (a b : ℕ) → (a == b) ≡ (b == a)
==_sym a b = ground arith

-- The end of a packet.
pub proc_plast-At :
    (r : Receiver) (bytes : List ℕ)
    → collect r.packet 0 (header_size + body_size r.packet) ≡ bytes
    → body_size r.packet ≤ max_msg_len
    → At (proc_plast r) (finish r.inbox bytes)
unfolding proc_plast
proc_plast-At r bytes e small =
    let size : body_size (byte bytes) ≡ body_size r.packet =
      ap (λ b. body_size (byte b)) (sym e)
      ∙ body_size-collect r.packet (header_size + body_size r.packet) (omega arith) in
    let long : length bytes ≡ header_size + body_size r.packet =
      ap length (sym e) ∙ length-collect r.packet 0 (header_size + body_size r.packet) in
    subst (At (proc_plast r))
      (sym (
        ap (finish_sized r.inbox bytes) size
        ∙ finish_sized-whole r.inbox bytes (body_size r.packet) long small))
      (record {
        packets = ap (λ b. r.inbox ++ b ∷ []) e;
        waits = expect_header-Awaits (record r {
          inbox = r.inbox ++ collect r.packet 0 (header_size + body_size r.packet) ∷ [];
        });
      })

-- The end of a header.
pub proc_p1-At :
    (r : Receiver) (bytes : List ℕ)
    → collect r.head 0 header_size ≡ bytes
    → At (proc_p1 r) (finish r.inbox bytes)
unfolding proc_p1
proc_p1-At r bytes e =
    let filled : Receiver = record r {
      packet = copy_in r.packet 0 (collect r.head 0 header_size);
    } in
    let there : collect filled.packet 0 header_size ≡ bytes =
      ap (collect filled.packet 0) (sym (length-collect r.head 0 header_size))
      ∙ collect-copy_in r.packet 0 (collect r.head 0 header_size)
      ∙ e in
    let size : body_size (byte bytes) ≡ body_size r.head =
      ap (λ b. body_size (byte b)) (sym e) ∙ body_size-collect r.head header_size (omega arith) in
    let same : body_size filled.packet ≡ body_size r.head =
      sym (body_size-collect filled.packet header_size (omega arith))
      ∙ ap (λ b. body_size (byte b)) there
      ∙ size in
    let long : length bytes ≡ header_size =
      ap length (sym e) ∙ length-collect r.head 0 header_size in
    At-if (ltb max_msg_len (body_size r.head))
      (λ huge.
        subst (At (expect_header r))
          (sym (
            ap (finish_sized r.inbox bytes) size
            ∙ finish_sized-huge r.inbox bytes (body_size r.head) (omega (arith, long))
                (ltb→lt max_msg_len (body_size r.head) huge)))
          (record { packets = refl; waits = expect_header-Awaits r }))
      (λ fits.
        At-if (body_size r.head == 0)
          (λ none.
            let no_body : body_size filled.packet ≡ 0 =
              same ∙ (==_iff (body_size r.head) 0).0 none in
            proc_plast-At filled bytes
              (ap (λ n. collect filled.packet 0 (header_size + n)) no_body ∙ there)
              (rw no_body (omega arith)))
          (λ some_body.
            subst
              (At (record filled {
                cur_stat = bd_init;
                area = in_packet;
                recv_pos = header_size;
                recv_len = body_size r.head;
              }))
              (sym (
                ap (finish_sized r.inbox bytes) size
                ∙ finish_sized-part r.inbox bytes (body_size r.head) (omega (arith, long))
                    (rw long (pos_of (body_size r.head) some_body))
                    (le_of (body_size r.head) fits)))
              (record {
                packets = refl;
                waits =
                    awaits_body refl (inl refl) (nonzero (body_size r.head) some_body) (omega arith)
                      (ap (λ n. header_size + n) (sym same))
                      (rw same (le_of (body_size r.head) fits)) there;
              })))
