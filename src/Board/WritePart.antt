-- ===== src/Board/WritePart.antt =====
-- WriteBOffSet on a sound board: a part of an item is written.
use g_plat.Prelude.{
  ℕ, ◌+◌, ◌-◌, ◌≤◌, ◌≡◌, ◌≢◌, refl, sym, ap, ap₂, ◌∙◌, List, [], ◌++◌, arith, length, take, drop,
  length-take, length-drop, collect, collect-ext, collect-append, take-collect, drop-collect,
  copy_in,
}
use g_plat.Errors.{done}
use g_plat.Hash.{index_size}
use g_plat.Hash.Probe.{index_size-IsSize}
use g_plat.Hash.Directory.{Live, locate_found}
use g_plat.Board.{Board, Item, read_b}
use g_plat.Board.Store.{write_b, write_b_off_set}
use g_plat.Board.Inv.{IsSound}
use g_plat.Board.Items.{copy_in-outside, collect-copy_in}
use g_plat.Board.Rewrite.{
  read_b-found, rewritten, rewritten-IsSound, rewritten-read, rewritten-others,
}

-- What stands at `p` after a copy into the middle.
pub collect-copy_in_part :
    (f : ℕ → ℕ) (p o n : ℕ) (xs : List ℕ)
    → o + length xs ≤ n
    → collect (copy_in f (p + o) xs) p n
      ≡ take o (collect f p n) ++ (xs ++ drop (o + length xs) (collect f p n))
collect-copy_in_part f p o n xs h =
    let g : ℕ → ℕ = copy_in f (p + o) xs in
    let rest : ℕ = n - (o + length xs) in
    ap (collect g p) (omega (arith, h))
    ∙ collect-append g p o (length xs + rest)
    ∙ ap₂ ◌++◌
        (collect-ext g f p o (λ i lo hi. copy_in-outside f (p + o) xs i (omega (arith, hi)))
          ∙ ap (collect f p) (omega (arith, h))
          ∙ sym (take-collect f p n o))
        (collect-append g (p + o) (length xs) rest
          ∙ ap₂ ◌++◌ (collect-copy_in f (p + o) xs) (
              collect-ext g f (p + o + length xs) rest
                (λ i lo hi. copy_in-outside f (p + o) xs i (omega (arith, lo)))
              ∙ ap (λ x. collect f x rest) (omega arith)
              ∙ sym (drop-collect f p n (o + length xs))))

module _ (b : Board) (k bytes : List ℕ) (off sub_size now t : ℕ) (v : IsSound b) (ne : k ≢ [])
    (l : Live index_size b.index k t) (e : length bytes ≡ (b.index t).fields.item_size)
    (fits : off + sub_size ≤ length bytes) where
  abbrev old : Item
  old = (b.index t).fields

  abbrev stamped : Item
  stamped = record (b.index t).fields { timestamp = now }

  abbrev part : List ℕ
  part = take sub_size (drop off bytes)

  abbrev after_part : Board
  after_part = rewritten b t stamped (copy_in b.mem (old.start_pos + off) part) refl refl refl refl

  length-part : length part ≡ sub_size
  length-part = omega (arith, length-take sub_size (drop off bytes), length-drop off bytes)

  write_part-found :
      write_b_off_set b k bytes (length bytes) off sub_size now ≡ (done tt, after_part)
  unfolding write_b_off_set write_b
  write_part-found =
      rw (locate_found index_size-IsSize b.index k t v.placed ne l, write_b_off_set, write_b)
        (ground arith)

  after_part-read :
      read_b after_part k (length bytes)
      ≡ done (
        take off (collect b.mem old.start_pos (length bytes))
            ++ (part ++ drop (off + sub_size) (collect b.mem old.start_pos (length bytes))),
        now,
      )
  after_part-read =
      rewritten-read b t stamped (copy_in b.mem (old.start_pos + off) part) refl refl refl refl k
        (length bytes) v ne l
      ∙ ground (
        arith,
        length-part,
        collect-copy_in_part b.mem old.start_pos off (length bytes) part
            (omega (arith, length-part)),
      )

-- WriteBOffSet of `sub_size` bytes at `off` of a buffer as long as the item, on a sound board: it
-- succeeds; where ReadB returned the bytes `was` before, it returns them with that range replaced
-- by the buffer's, and the time of the write; ReadB of any other name `k'` returns what it returned
-- before; and the board is sound again.
pub write_b_off_set-read_b :
    {b : Board} (k k' bytes was : List ℕ) (off sub_size now before n : ℕ) {t : ℕ}
    → IsSound b
    → k ≢ []
    → k' ≢ []
    → k' ≢ k
    → Live index_size b.index k t
    → length bytes ≡ (b.index t).fields.item_size
    → off + sub_size ≤ length bytes
    → read_b b k (length bytes) ≡ done (was, before)
    → let (o, b') = write_b_off_set b k bytes (length bytes) off sub_size now in
      (o ≡ done tt)
      × (read_b b' k (length bytes)
          ≡ done
              (take off was ++ (take sub_size (drop off bytes) ++ drop (off + sub_size) was), now))
      × (read_b b' k' n ≡ read_b b k' n)
      × IsSound b'
write_b_off_set-read_b {b} k k' bytes was off sub_size now before n {t} v ne kne diff l e fits r =
    let there : was ≡ collect b.mem (b.index t).fields.start_pos (length bytes) =
      ground (arith, read_b-found b k (length bytes) v.placed ne l) in
    rw (write_part-found b k bytes off sub_size now t v ne l e fits) (
      refl,
      rw there (after_part-read b k bytes off sub_size now t v ne l e fits),
      rewritten-others b t (stamped b k bytes off sub_size now t v ne l e fits) _ refl refl refl
          refl k k' n v ne kne diff l
          (λ i h.
            copy_in-outside b.mem ((b.index t).fields.start_pos + off)
              (take sub_size (drop off bytes)) i
              (omega (arith, h, length-part b k bytes off sub_size now t v ne l e fits))),
      rewritten-IsSound b t (stamped b k bytes off sub_size now t v ne l e fits) _ refl refl refl
          refl v,
    )
