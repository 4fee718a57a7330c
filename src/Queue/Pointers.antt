-- ===== src/Queue/Pointers.antt =====
-- SetPtrQ on a normal queue.
use g_plat.Prelude.{ℕ, ◌<◌, ◌≡◌, ◌⊎◌, refl, inl, inr, arith, dec_lt}
use g_plat.Errors.{Outcome, done, refuse}
use g_plat.Queue.{Queue, Ptr, at, minus_one, other_negative, set_ptr_q}
use g_plat.Queue.Inv.{IsNormal}

-- Each pointer that SetPtrQ is given, or leaves alone at -1, within the queue.
abbrev pub Accepts : Queue → Ptr → Ptr → Type 0
Accepts q (at r) (at w) = (r < q.num) × (w < q.num)
Accepts q (at r) minus_one = r < q.num
Accepts q minus_one (at w) = w < q.num
Accepts q _ _ = ⊥

-- A pointer after SetPtrQ: what it is given, or what it was.
abbrev pub moved : ℕ → Ptr → ℕ
moved old (at i) = i
moved old _ = old

set-IsNormal :
    {q : Queue} (r w : ℕ)
    → IsNormal q
    → r < q.num
    → w < q.num
    → IsNormal (record q { read_point = r; write_point = w })
set-IsNormal r w v hr hw = record {
  mode = v.mode;
  pos = v.pos;
  small = v.small;
  read_in = hr;
  write_in = hw;
}

set_both :
    (q : Queue) (r w : ℕ)
    → r < q.num
    → w < q.num
    → set_ptr_q q (at r) (at w) ≡ (done tt, record q { read_point = r; write_point = w })
unfolding set_ptr_q
set_both q r w hr hw = ground arith

set_off :
    (q : Queue) (r w : ℕ) → ¬ ((r < q.num) × (w < q.num)) → set_ptr_q q (at r) (at w) ≡ (refuse, q)
unfolding set_ptr_q
set_off q r w h = ground arith

set_read :
    (q : Queue) (r : ℕ)
    → r < q.num
    → set_ptr_q q (at r) minus_one ≡ (done tt, record q { read_point = r })
unfolding set_ptr_q
set_read q r h = ground arith

set_read_off : (q : Queue) (r : ℕ) → ¬ (r < q.num) → set_ptr_q q (at r) minus_one ≡ (refuse, q)
unfolding set_ptr_q
set_read_off q r h = ground arith

set_write :
    (q : Queue) (w : ℕ)
    → w < q.num
    → set_ptr_q q minus_one (at w) ≡ (done tt, record q { write_point = w })
unfolding set_ptr_q
set_write q w h = ground arith

set_write_off : (q : Queue) (w : ℕ) → ¬ (w < q.num) → set_ptr_q q minus_one (at w) ≡ (refuse, q)
unfolding set_ptr_q
set_write_off q w h = ground arith

-- What SetPtrQ shows of one call.
abbrev Shows : Queue → Ptr → Ptr → Outcome (Unit {0}) × Queue → Type 0
Shows q r w (o, q') =
    IsNormal q'
    × (((o ≡ done tt)
          × (q'
              ≡ record q { read_point = moved q.read_point r; write_point = moved q.write_point w })
          × Accepts q r w)
        ⊎ ((o ≡ refuse) × (q' ≡ q) × (¬ Accepts q r w)))

module _ {q : Queue} (v : IsNormal q) where
  Shows-both : (r w : ℕ) → Shows q (at r) (at w) (set_ptr_q q (at r) (at w))
  Shows-both r w = elim (dec_lt r q.num) [
    | yes hr ↦ elim (dec_lt w q.num) [
      | yes hw ↦ rw (set_both q r w hr hw) (set-IsNormal r w v hr hw, inl (refl, refl, (hr, hw)))
      | no nw ↦ rw (set_off q r w (λ h. nw h.1)) (v, inr (refl, refl, λ h. nw h.1))
    ]
    | no nr ↦ rw (set_off q r w (λ h. nr h.0)) (v, inr (refl, refl, λ h. nr h.0))
  ]

  Shows-read : (r : ℕ) → Shows q (at r) minus_one (set_ptr_q q (at r) minus_one)
  Shows-read r = elim (dec_lt r q.num) [
    | yes h ↦ rw (set_read q r h) (set-IsNormal r q.write_point v h v.write_in, inl (refl, refl, h))
    | no n ↦ rw (set_read_off q r n) (v, inr (refl, refl, n))
  ]

  Shows-write : (w : ℕ) → Shows q minus_one (at w) (set_ptr_q q minus_one (at w))
  Shows-write w = elim (dec_lt w q.num) [
    | yes h ↦ rw (set_write q w h) (set-IsNormal q.read_point w v v.read_in h, inl (refl, refl, h))
    | no n ↦ rw (set_write_off q w n) (v, inr (refl, refl, n))
  ]

-- SetPtrQ, with any two arguments, leaves a normal queue within its invariant. It succeeds where
-- each pointer that it is given is within the queue and at most one of them is left alone at -1:
-- then the pointers that it is given are set, and nothing else changes. It refuses otherwise,
-- leaving the queue as it is.
pub set_ptr_q-IsNormal :
    {q : Queue} (r w : Ptr)
    → IsNormal q
    → let (o, q') = set_ptr_q q r w in
      IsNormal q'
      × (((o ≡ done tt)
            × (q' ≡ record q {
              read_point = moved q.read_point r;
              write_point = moved q.write_point w;
            })
            × Accepts q r w)
          ⊎ ((o ≡ refuse) × (q' ≡ q) × (¬ Accepts q r w)))
unfolding set_ptr_q
set_ptr_q-IsNormal (at r) (at w) v = Shows-both v r w
set_ptr_q-IsNormal (at r) minus_one v = Shows-read v r
set_ptr_q-IsNormal minus_one (at w) v = Shows-write v w
set_ptr_q-IsNormal (at r) other_negative v = (v, inr (refl, refl, λ x. x))
set_ptr_q-IsNormal minus_one minus_one v = (v, inr (refl, refl, λ x. x))
set_ptr_q-IsNormal minus_one other_negative v = (v, inr (refl, refl, λ x. x))
set_ptr_q-IsNormal other_negative w v = (v, inr (refl, refl, λ x. x))
