-- ===== src/Packet/Stream.antt =====
-- One call of ngx_read_request_handler on bytes that have come, against the list of the bytes so far.
use g_plat.Prelude.{
  ℕ, ◌+◌, ◌≤◌, ◌<◌, ◌≡◌, refl, sym, ap, subst, ◌∙◌, ◌⊎◌, inl, inr, List, ◌++◌, arith, ◌==◌,
  if◌then◌else◌, length, length-collect, collect, copy_in, ==_iff,
}
use g_plat.Queue.{max_msg_len}
use g_plat.Board.Items.{copy_in-outside}
use g_plat.Packet.{
  Stat, Receiver, hd_init, hd_recving, bd_init, bd_recving, in_head, in_packet, header_size,
  body_size, received, dispatch, advance, proc_p1, proc_plast, read_request, got,
}
use g_plat.Packet.Inv.{
  Awaits, awaits_header, awaits_body, byte, collect-copy_in_end, body_size-ext, body_size-collect,
}
use g_plat.Packet.States.{
  finish_sized, finish, finish_sized-short, finish_sized-part, At, At-if, less_of, ==_sym,
  proc_plast-At, proc_p1-At,
}

-- The two states of each phase test for the same length.
dispatch-header :
    (s : Stat) (r : Receiver) (n : ℕ)
    → ((s ≡ hd_init) × (r.recv_len ≡ header_size)) ⊎ (s ≡ hd_recving)
    → dispatch s r n ≡ (if r.recv_len == n then proc_p1 r else advance r n hd_recving)
unfolding dispatch
dispatch-header s r n (inl (e, len)) =
    rw (e, dispatch)
      (ap (λ c. if c then proc_p1 r else advance r n hd_recving)
        (==_sym n header_size ∙ ap (λ m. m == n) (sym len)))
dispatch-header s r n (inr e) = rw (e, dispatch) refl

dispatch-body :
    (s : Stat) (r : Receiver) (n : ℕ)
    → (s ≡ bd_init) ⊎ (s ≡ bd_recving)
    → dispatch s r n ≡ (if r.recv_len == n then proc_plast r else advance r n bd_recving)
unfolding dispatch
dispatch-body s r n (inl e) =
    rw (e, dispatch)
      (ap (λ c. if c then proc_plast r else advance r n bd_recving) (==_sym n r.recv_len))
dispatch-body s r n (inr e) = rw (e, dispatch) refl

received-header :
    (r : Receiver) (bytes : List ℕ)
    → r.area ≡ in_head
    → received r bytes ≡ record r { head = copy_in r.head r.recv_pos bytes }
received-header r bytes e = rw e refl

received-packet :
    (r : Receiver) (bytes : List ℕ)
    → r.area ≡ in_packet
    → received r bytes ≡ record r { packet = copy_in r.packet r.recv_pos bytes }
received-packet r bytes e = rw e refl

header-At :
    (r : Receiver) (pending bytes : List ℕ) (s : Stat)
    → ((s ≡ hd_init) × (r.recv_len ≡ header_size)) ⊎ (s ≡ hd_recving)
    → r.area ≡ in_head
    → length bytes ≤ r.recv_len
    → r.recv_pos + r.recv_len ≡ header_size
    → collect r.head 0 r.recv_pos ≡ pending
    → At (dispatch s (received r bytes) (length bytes)) (finish r.inbox (pending ++ bytes))
header-At r pending bytes s stat area hi sum e =
    let r' : Receiver = record r { head = copy_in r.head r.recv_pos bytes } in
    let now : collect r'.head 0 (r.recv_pos + length bytes) ≡ pending ++ bytes =
      collect-copy_in_end r.head r.recv_pos bytes ∙ ap (λ x. x ++ bytes) e in
    let long : length (pending ++ bytes) ≡ r.recv_pos + length bytes =
      ap length (sym now) ∙ length-collect r'.head 0 (r.recv_pos + length bytes) in
    subst (λ x. At x (finish r.inbox (pending ++ bytes)))
      (sym (
        ap (λ x. dispatch s x (length bytes)) (received-header r bytes area)
        ∙ dispatch-header s r' (length bytes) stat))
      (At-if (r.recv_len == length bytes)
        (λ all. proc_p1-At r' (pending ++ bytes) (
          ap (collect r'.head 0) (omega (arith, sum, (==_iff r.recv_len (length bytes)).0 all))
          ∙ now))
        (λ part.
          let less : length bytes < r.recv_len = less_of r.recv_len (length bytes) part hi in
          subst (At (advance r' (length bytes) hd_recving))
            (sym (
              finish_sized-short r.inbox (pending ++ bytes) (body_size (byte (pending ++ bytes)))
                (omega (arith, long, less, sum))))
            (record {
              packets = refl;
              waits =
                  awaits_header area (inr refl) (omega (arith, less)) (omega (arith, less, sum))
                    now;
            })))

body-At :
    (r : Receiver) (pending bytes : List ℕ) (s : Stat)
    → (s ≡ bd_init) ⊎ (s ≡ bd_recving)
    → r.area ≡ in_packet
    → length bytes ≤ r.recv_len
    → header_size ≤ r.recv_pos
    → r.recv_pos + r.recv_len ≡ header_size + body_size r.packet
    → body_size r.packet ≤ max_msg_len
    → collect r.packet 0 r.recv_pos ≡ pending
    → At (dispatch s (received r bytes) (length bytes)) (finish r.inbox (pending ++ bytes))
body-At r pending bytes s stat area hi past sum small e =
    let r' : Receiver = record r { packet = copy_in r.packet r.recv_pos bytes } in
    let now : collect r'.packet 0 (r.recv_pos + length bytes) ≡ pending ++ bytes =
      collect-copy_in_end r.packet r.recv_pos bytes ∙ ap (λ x. x ++ bytes) e in
    let long : length (pending ++ bytes) ≡ r.recv_pos + length bytes =
      ap length (sym now) ∙ length-collect r'.packet 0 (r.recv_pos + length bytes) in
    let same : body_size r'.packet ≡ body_size r.packet =
      body_size-ext r'.packet r.packet
        (λ i lt. copy_in-outside r.packet r.recv_pos bytes i (inl (omega (arith, lt, past)))) in
    let says : body_size (byte (pending ++ bytes)) ≡ body_size r.packet =
      ap (λ b. body_size (byte b)) (sym now)
      ∙ body_size-collect r'.packet (r.recv_pos + length bytes) (omega (arith, past))
      ∙ same in
    subst (λ x. At x (finish r.inbox (pending ++ bytes)))
      (sym (
        ap (λ x. dispatch s x (length bytes)) (received-packet r bytes area)
        ∙ dispatch-body s r' (length bytes) stat))
      (At-if (r.recv_len == length bytes)
        (λ all.
          let whole : header_size + body_size r'.packet ≡ r.recv_pos + length bytes =
            ap (λ n. header_size + n) same
            ∙ sym sum
            ∙ ap (λ n. r.recv_pos + n) ((==_iff r.recv_len (length bytes)).0 all) in
          proc_plast-At r' (pending ++ bytes) (ap (collect r'.packet 0) whole ∙ now)
            (rw same small))
        (λ part.
          let less : length bytes < r.recv_len = less_of r.recv_len (length bytes) part hi in
          subst (At (advance r' (length bytes) bd_recving))
            (sym (
              ap (finish_sized r.inbox (pending ++ bytes)) says
              ∙ finish_sized-part r.inbox (pending ++ bytes) (body_size r.packet)
                  (omega (arith, long, past)) (rw (← sum) (omega (arith, long, less))) small))
            (record {
              packets = refl;
              waits =
                  awaits_body area (inr refl) (omega (arith, less)) (omega (arith, past))
                    (rw (same, ← sum) (omega (arith, less))) (rw same small) now;
            })))

-- One call on bytes that are as many as were asked for, or fewer, but some.
pub read_request-At :
    (r : Receiver) (pending bytes : List ℕ)
    → Awaits r pending
    → length bytes ≤ r.recv_len
    → At (read_request r (got bytes)) (finish r.inbox (pending ++ bytes))
unfolding read_request
read_request-At r pending bytes (awaits_header area (inl (stat, pos)) some_room sum e) hi =
    header-At r pending bytes r.cur_stat (inl (stat, omega (arith, sum, pos))) area hi sum e
read_request-At r pending bytes (awaits_header area (inr stat) some_room sum e) hi =
    header-At r pending bytes r.cur_stat (inr stat) area hi sum e
read_request-At r pending bytes (awaits_body area stat some_room past sum small e) hi =
    body-At r pending bytes r.cur_stat stat area hi past sum small e
