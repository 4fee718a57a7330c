-- ===== src/Board/WriteString.antt =====
-- WriteB_String on a sound board, and the three ways to read a string.
use g_plat.Prelude.{
  ℕ, ◌-◌, ◌≤◌, ◌≡◌, ◌≢◌, refl, ◌∙◌, none, List, [], ◌++◌, arith, length, replicate, take-all,
  copy_in, fill,
}
use g_plat.Errors.{done}
use g_plat.Hash.{index_size, locate, found}
use g_plat.Hash.Probe.{index_size-IsSize}
use g_plat.Hash.Directory.{Live, locate_found}
use g_plat.Board.{Board, Item, read_b, read_b_string, read_b_string2, get_string_length}
use g_plat.Board.Store.{write_b_string}
use g_plat.Board.Inv.{IsSound}
use g_plat.Board.Items.{copy_in-outside, collect-copy_in}
use g_plat.Board.Rewrite.{rewritten, rewritten-Live, rewritten-IsSound, rewritten-others}

module _ (b : Board) (k bytes : List ℕ) (now t : ℕ) (v : IsSound b) (ne : k ≢ [])
    (l : Live index_size b.index k t) (e : length bytes ≤ (b.index t).fields.item_size) where
  abbrev old : Item
  old = (b.index t).fields

  abbrev labelled : Item
  labelled = record (b.index t).fields { str_lenth = length bytes; timestamp = now }

  abbrev new_bytes : ℕ → ℕ
  new_bytes = copy_in (fill b.mem old.start_pos old.item_size 0) old.start_pos bytes

  abbrev after_string : Board
  after_string = rewritten b t labelled new_bytes refl refl refl refl

  write_string-found : write_b_string b k bytes (length bytes) none now ≡ (done tt, after_string)
  unfolding write_b_string
  write_string-found =
      rw (locate_found index_size-IsSize b.index k t v.placed ne l, write_b_string)
        (ground (arith, take-all (length bytes) bytes (omega arith)))

  locate_string : locate index_size after_string.index k ≡ found t
  locate_string =
      locate_found index_size-IsSize after_string.index k t
        (rewritten-IsSound b t labelled new_bytes refl refl refl refl v).placed ne
        (rewritten-Live b t labelled new_bytes refl refl refl refl k l)

  string_length : get_string_length after_string k ≡ done (length bytes)
  unfolding get_string_length
  string_length = rw (locate_string, get_string_length) (ground arith)

  string_read2 : read_b_string2 after_string k (length bytes) ≡ done (bytes, now)
  unfolding read_b_string2
  string_read2 =
      rw (locate_string, read_b_string2)
        (ground
          (arith, collect-copy_in (fill b.mem old.start_pos old.item_size 0) old.start_pos bytes))

  string_read :
      (n : ℕ)
      → length bytes ≤ n
      → read_b_string after_string k n ≡ done (bytes ++ replicate (n - length bytes) 0, now)
  unfolding read_b_string
  string_read n h =
      rw (locate_string, read_b_string)
        (ground
          (arith, collect-copy_in (fill b.mem old.start_pos old.item_size 0) old.start_pos bytes))

-- WriteB_String of no more bytes than the item has, on a sound board: it succeeds; the length asked
-- for is that of the string, ReadB_String into a buffer of `m` bytes that is no shorter returns the
-- string with zeros behind it, and ReadB_String2 the string; ReadB of any other name `k'` returns what
-- it returned before; and the board is sound again.
pub write_b_string-read_b_string :
    {b : Board} (k k' bytes : List ℕ) (now m n : ℕ) {t : ℕ}
    → IsSound b
    → k ≢ []
    → k' ≢ []
    → k' ≢ k
    → Live index_size b.index k t
    → length bytes ≤ (b.index t).fields.item_size
    → length bytes ≤ m
    → let (o, b') = write_b_string b k bytes (length bytes) none now in
      (o ≡ done tt)
      × (get_string_length b' k ≡ done (length bytes))
      × (read_b_string b' k m ≡ done (bytes ++ replicate (m - length bytes) 0, now))
      × (read_b_string2 b' k (length bytes) ≡ done (bytes, now))
      × (read_b b' k' n ≡ read_b b k' n)
      × IsSound b'
write_b_string-read_b_string {b} k k' bytes now m n {t} v ne kne off l e h =
    rw (write_string-found b k bytes now t v ne l e) (
      refl,
      string_length b k bytes now t v ne l e,
      string_read b k bytes now t v ne l e m h,
      string_read2 b k bytes now t v ne l e,
      rewritten-others b t (labelled b k bytes now t v ne l e) _ refl refl refl refl k k' n v ne kne
          off l
          (λ i out.
            copy_in-outside _ (b.index t).fields.start_pos bytes i (omega (arith, out))
            ∙ ground (arith, out)),
      rewritten-IsSound b t (labelled b k bytes now t v ne l e) _ refl refl refl refl v,
    )
