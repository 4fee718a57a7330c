-- ===== src/Handlers/Keeps.antt =====
-- Calls of higplat that do not succeed leave the files alone.
use g_plat.Prelude.{
  ℕ, ◌≡◌, refl, ap, ◌∙◌, Bool, true, false, Option, none, List, if◌then◌else◌, arith,
}
use g_plat.Errors.{Outcome, done, fail, refuse, fault, hang}
use g_plat.FileTable.{fetch_tab, Handles}
use g_plat.Queue.{Queue, read_q}
use g_plat.Queue.Put.{write_q, write_sized, write_size}
use g_plat.Board.{Board}
use g_plat.Board.Store.{write_b, write_b_string}
use g_plat.Board.Erase.{delete_item}
use g_plat.Board.Add.{create_item, place_item}
use g_plat.Library.{
  Library, Mapped, queue_file, board_file, database_file, nothing, set_mapped, fetched, queue_at,
  board_at, on_queue, on_board, clear_b_named, create_item_named, read_type_named, clear_at,
  type_at, fits,
}
use g_plat.Library.Found.{set_mapped-same}

abbrev pub fails : {A : Type 0} → Outcome A → Bool
fails (fail e) = true
fails refuse = true
fails _ = false

-- A call that returns false leaves what there was.
abbrev pub Keeps : {A S : Type 0} → Outcome A × S → S → Type 0
Keeps r s = fails r.0 ≡ true → r.1 ≡ s

board_at-Keeps :
    {A : Type 0} (L : Library) (call : Board → Outcome A × Board) (a : ℕ) (file : Mapped)
    → L.mapped a ≡ file
    → ((b : Board) → Keeps (call b) b)
    → Keeps (board_at L call a file) L
board_at-Keeps L call a nothing e k d = refl
board_at-Keeps L call a (queue_file q) e k d = refl
board_at-Keeps L call a (database_file x) e k d = refl
board_at-Keeps L call a (board_file b) e k d =
    ap (λ b. set_mapped L a (board_file b)) (k b d) ∙ set_mapped-same L a (board_file b) e

queue_at-Keeps :
    {A : Type 0} (L : Library) (call : Queue → Outcome A × Queue) (a : ℕ) (file : Mapped)
    → L.mapped a ≡ file
    → ((q : Queue) → Keeps (call q) q)
    → Keeps (queue_at L call a file) L
queue_at-Keeps L call a nothing e k d = refl
queue_at-Keeps L call a (board_file b) e k d = refl
queue_at-Keeps L call a (database_file x) e k d = refl
queue_at-Keeps L call a (queue_file q) e k d =
    ap (λ q. set_mapped L a (queue_file q)) (k q d) ∙ set_mapped-same L a (queue_file q) e

pub fetched-Keeps :
    {A : Type 0} (L : Library) (name : List ℕ) (call : ℕ → Mapped → Outcome A × Library)
    → ((a : ℕ) → Keeps (call a (L.mapped a)) L)
    → Keeps (fetched L name call) L
unfolding fetched
fetched-Keeps {A} L name call k = by_answer (fetch_tab L.table name)
  where
    by_answer :
        (o : Outcome Handles)
        → Keeps {A = A} {S = Library}
            (elim o [
              | done h ↦ call h.map_address (L.mapped h.map_address)
              | fail e ↦ (fail e, L)
              | refuse ↦ (refuse, L)
              | fault ↦ (fault, L)
              | hang ↦ (hang, L)
            ])
            L
    by_answer (done h) d = k h.map_address d
    by_answer (fail e) d = refl
    by_answer refuse d = refl
    by_answer fault d = refl
    by_answer hang d = refl

pub on_board-Keeps :
    {A : Type 0} (L : Library) (name : List ℕ) (call : Board → Outcome A × Board)
    → ((b : Board) → Keeps (call b) b)
    → Keeps (on_board L name call) L
unfolding on_board
on_board-Keeps L name call k =
    fetched-Keeps L name (board_at L call) (λ a. board_at-Keeps L call a (L.mapped a) refl k)

pub on_queue-Keeps :
    {A : Type 0} (L : Library) (name : List ℕ) (call : Queue → Outcome A × Queue)
    → ((q : Queue) → Keeps (call q) q)
    → Keeps (on_queue L name call) L
unfolding on_queue
on_queue-Keeps L name call k =
    fetched-Keeps L name (queue_at L call) (λ a. queue_at-Keeps L call a (L.mapped a) refl k)

pub write_q-Keeps :
    (bytes : List ℕ) (n : ℕ) (ip : Option (List ℕ)) (date : List ℕ) (q : Queue)
    → Keeps (write_q q bytes n ip date) q
unfolding write_q write_sized write_size
write_q-Keeps bytes n ip date q d = ground arith

pub write_b-Keeps :
    (name bytes : List ℕ) (n now : ℕ) (b : Board) → Keeps (write_b b name bytes n none now) b
unfolding write_b
write_b-Keeps name bytes n now b d = ground arith

pub write_b_string-Keeps :
    (name bytes : List ℕ) (n now : ℕ) (b : Board) → Keeps (write_b_string b name bytes n none now) b
unfolding write_b_string
write_b_string-Keeps name bytes n now b d = ground arith

pub delete_item-Keeps : (name : List ℕ) (b : Board) → Keeps (delete_item b name) b
unfolding delete_item
delete_item-Keeps name b d = ground arith

pub create_item-Keeps :
    (name : List ℕ) (size : ℕ) (typ : Option (List ℕ)) (n now : ℕ) (b : Board)
    → Keeps (create_item b name size typ n now) b
unfolding create_item place_item
create_item-Keeps name size typ n now b d = ground arith

pub read_q-Keeps : (n : ℕ) (q : Queue) → Keeps (read_q q n) q
unfolding read_q
read_q-Keeps n q d = ground arith

clear_at-Keeps : (L : Library) (a : ℕ) (file : Mapped) → Keeps (clear_at L a file) L
clear_at-Keeps L a nothing d = refl
clear_at-Keeps L a (queue_file q) d = refl
clear_at-Keeps L a (board_file b) d = cc d
clear_at-Keeps L a (database_file x) d = refl

type_at-Keeps :
    (L : Library) (name : List ℕ) (a : ℕ) (file : Mapped) → Keeps (type_at L name a file) L
type_at-Keeps L name a nothing d = refl
type_at-Keeps L name a (queue_file q) d = refl
type_at-Keeps L name a (board_file b) d = refl
type_at-Keeps L name a (database_file x) d = refl

Keeps-if :
    {A S : Type 0} (b : Bool) (r r' : Outcome A × S) (s : S)
    → Keeps r s
    → Keeps r' s
    → Keeps (if b then r else r') s
Keeps-if true r r' s h k = h
Keeps-if false r r' s h k = k

pub clear_b_named-Keeps : (L : Library) (name : List ℕ) → Keeps (clear_b_named L name) L
unfolding clear_b_named
clear_b_named-Keeps L name =
    fetched-Keeps L name (clear_at L) (λ a d. clear_at-Keeps L a (L.mapped a) d)

pub create_item_named-Keeps :
    (L : Library) (board name : List ℕ) (size : ℕ) (typ : Option (List ℕ)) (n now : ℕ)
    → Keeps (create_item_named L board name size typ n now) L
unfolding create_item_named
create_item_named-Keeps L board name size typ n now =
    Keeps-if _ _ _ L (λ d. refl) (on_board-Keeps L board _ (create_item-Keeps name size typ n now))

pub fits-Keeps :
    {A : Type 0} (n : ℕ) (bytes : A → List ℕ) (r : Outcome A × Library) (L : Library)
    → Keeps r L
    → Keeps (fits n bytes r) L
fits-Keeps n bytes (done x, L') L k d = ground (arith, d)
fits-Keeps n bytes (fail e, L') L k d = k d
fits-Keeps n bytes (refuse, L') L k d = k d
fits-Keeps n bytes (fault, L') L k d = k d
fits-Keeps n bytes (hang, L') L k d = k d

pub read_type_named-Keeps :
    (L : Library) (file name : List ℕ) (n : ℕ) → Keeps (read_type_named L file name n) L
unfolding read_type_named
read_type_named-Keeps L file name n =
    fits-Keeps n (λ typ. typ) (fetched L file (type_at L name)) L
      (fetched-Keeps L file (type_at L name) (λ a d. type_at-Keeps L name a (L.mapped a) d))
