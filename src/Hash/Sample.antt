-- ===== src/Hash/Sample.antt =====
-- Two names, the places where their searches begin, and a table with both, for the tests.
use g_plat.Prelude.{ℕ, ◌≡◌, ◌≢◌, refl, sym, ap, ◌∙◌, true, false, List, [], ◌∷◌, arith, ℕ_discrete}
use g_plat.Hash.{Slot, has_room, hash1, hash2, char_sum, index_size, grave}
use g_plat.Hash.Probe.{probe, index_size-IsSize}
use g_plat.Hash.Search.{First}
use g_plat.Hash.Directory.{Live, Blank, WellPlaced}
use g_plat.Hash.Change.{put, Room, put-WellPlaced, Live-put_self, update_self, update_ne}

abbrev pub name_a : List ℕ
name_a = 97 ∷ []

abbrev pub name_b : List ℕ
name_b = 98 ∷ []

pub hash1-a : hash1 name_a ≡ 97
unfolding hash1 char_sum
hash1-a = refl

pub hash1-b : hash1 name_b ≡ 98
unfolding hash1 char_sum
hash1-b = refl

-- "BOARD".
pub hash1-board : hash1 (66 ∷ 79 ∷ 65 ∷ 82 ∷ 68 ∷ []) ≡ 83
unfolding hash1 char_sum
hash1-board = refl

pub a-ne-nil : name_a ≢ []
a-ne-nil e = cc

pub b-ne-nil : name_b ≢ []
b-ne-nil e = cc

pub b-ne-a : name_b ≢ name_a
b-ne-a e = ground arith

pub a-ne-grave : name_a ≢ grave
a-ne-grave e = cc

pub b-ne-grave : name_b ≢ grave
b-ne-grave e = cc

-- The search for room stops where it begins.
pub First-room {ℓ} :
    {A : Type ℓ} (size : ℕ) (slots : ℕ → Slot A) (key : List ℕ) (t : ℕ)
    → hash1 key ≡ t
    → has_room (slots t) ≡ true
    → First has_room slots size (hash2 key) (hash1 key) t
unfolding probe
First-room size slots key t e h = record {
  round = 0;
  there = e;
  stops = h;
  before = λ i lt. absurd (omega arith);
}

abbrev pub no_names : ℕ → Slot ℕ
no_names t = record { name = []; erased = false; fields = 0 }

-- "a" with the field 5.
abbrev pub one_name : ℕ → Slot ℕ
one_name = put no_names 97 name_a 5

pub no_names-absent : (k : List ℕ) → k ≢ [] → (j : ℕ) → ¬ Live index_size no_names k j
no_names-absent k ne j l = ne (sym l.named)

pub no_names-WellPlaced : WellPlaced index_size no_names
no_names-WellPlaced = record {
  placed = λ k t ne l. absurd (ne (sym l.named));
  graves = λ t lt e. cc;
  lives = λ t lt e g. cc;
}

pub Room-a : Room index_size-IsSize no_names name_a 97
Room-a = First-room index_size no_names name_a 97 hash1-a refl

pub one_name-WellPlaced : WellPlaced index_size one_name
one_name-WellPlaced =
    put-WellPlaced index_size-IsSize no_names name_a 5 no_names-WellPlaced a-ne-nil Room-a
      (no_names-absent name_a a-ne-nil) a-ne-grave

pub one_name-Live : Live index_size one_name name_a 97
one_name-Live =
    Live-put_self index_size-IsSize no_names name_a 5 no_names-WellPlaced a-ne-nil Room-a
      (no_names-absent name_a a-ne-nil)

-- A new "a" is no "b".
pub put_a-absent {ℓ} :
    {A : Type ℓ} (size : ℕ) (slots : ℕ → Slot A) (fields : A) (t : ℕ)
    → ((j : ℕ) → ¬ Live size slots name_b j)
    → (j : ℕ) → ¬ Live size (put slots t name_a fields) name_b j
put_a-absent size slots fields t absent j l = elim (ℕ_discrete j t) [
  | yes e ↦ b-ne-a (
      sym l.named
      ∙ ap (λ x. (put slots t name_a fields x).name) e
      ∙ ap (λ s. s.name) (update_self slots t _))
  | no off ↦ absent j (record {
    in_range = l.in_range;
    named = ap (λ s. s.name) (sym (update_ne slots t j _ off)) ∙ l.named;
    kept = ap (λ s. s.erased) (sym (update_ne slots t j _ off)) ∙ l.kept;
  })
]

pub one_name-absent : (j : ℕ) → ¬ Live index_size one_name name_b j
one_name-absent = put_a-absent index_size no_names 5 97 (no_names-absent name_b b-ne-nil)

pub one_name-Blank : Blank index_size one_name
one_name-Blank = record { slot = 98; in_range = omega arith; blank = refl }

pub Room-b : Room index_size-IsSize one_name name_b 98
Room-b = First-room index_size one_name name_b 98 hash1-b refl
