-- ===== src/Board/Write.antt =====
-- WriteB on a sound board: what is read back, and what stays of the other items.
use g_plat.Prelude.{ℕ, ◌≡◌, ◌≢◌, refl, ◌∙◌, none, List, [], arith, length, take-all, copy_in}
use g_plat.Errors.{done}
use g_plat.Hash.{index_size}
use g_plat.Hash.Probe.{index_size-IsSize}
use g_plat.Hash.Directory.{Live, locate_found}
use g_plat.Board.{Board, Item, read_b}
use g_plat.Board.Store.{write_b}
use g_plat.Board.Inv.{IsSound}
use g_plat.Board.Items.{copy_in-outside, collect-copy_in}
use g_plat.Board.Rewrite.{rewritten, rewritten-IsSound, rewritten-read, rewritten-others}

-- WriteB where the name is found and the size is the item's.
module _ (b : Board) (k bytes : List ℕ) (now t : ℕ) (v : IsSound b) (ne : k ≢ [])
    (l : Live index_size b.index k t) (e : length bytes ≡ (b.index t).fields.item_size) where
  abbrev pub old : Item
  old = (b.index t).fields

  abbrev pub stamped : Item
  stamped = record (b.index t).fields { timestamp = now }

  abbrev pub after_write : Board
  after_write = rewritten b t stamped (copy_in b.mem old.start_pos bytes) refl refl refl refl

  pub write_b-found : write_b b k bytes (length bytes) none now ≡ (done tt, after_write)
  unfolding write_b
  write_b-found =
      rw (locate_found index_size-IsSize b.index k t v.placed ne l, write_b)
        (ground (arith, take-all (length bytes) bytes (omega arith)))

  pub after_write-read : read_b after_write k (length bytes) ≡ done (bytes, now)
  after_write-read =
      rewritten-read b t stamped (copy_in b.mem old.start_pos bytes) refl refl refl refl k
        (length bytes) v ne l
      ∙ ground (arith, collect-copy_in b.mem old.start_pos bytes)

-- WriteB of as many bytes as the item has, on a sound board: it succeeds; ReadB of the name with that
-- size then returns these bytes and the time of the write; ReadB of any other name `k'` returns what
-- it returned before, whatever size it asks for; and the board is sound again.
pub write_b-read_b :
    {b : Board} (k k' bytes : List ℕ) (now n : ℕ) {t : ℕ}
    → IsSound b
    → k ≢ []
    → k' ≢ []
    → k' ≢ k
    → Live index_size b.index k t
    → length bytes ≡ (b.index t).fields.item_size
    → let (o, b') = write_b b k bytes (length bytes) none now in
      (o ≡ done tt)
      × (read_b b' k (length bytes) ≡ done (bytes, now))
      × (read_b b' k' n ≡ read_b b k' n)
      × IsSound b'
write_b-read_b {b} k k' bytes now n {t} v ne kne off l e =
    rw (write_b-found b k bytes now t v ne l e) (
      refl,
      after_write-read b k bytes now t v ne l e,
      rewritten-others b t (stamped b k bytes now t v ne l e) _ refl refl refl refl k k' n v ne kne
          off l
          (λ i h. copy_in-outside b.mem (b.index t).fields.start_pos bytes i (omega (arith, h))),
      rewritten-IsSound b t (stamped b k bytes now t v ne l e) _ refl refl refl refl v,
    )
