-- ===== src/Hash.antt =====
-- hash1 and hash2 of higplat/higplat.cpp, and the open addressing that all its tables share: the
-- loaded files, the items of a board and the tables of a database are found by the same loop.
-- Names are lists of `char` values from 1 to 127: for other bytes a signed `char` is negative.
pub mod Probe
pub mod Search
pub mod Directory
pub mod Change
pub mod Bury
pub mod Count
pub mod Lookup
pub mod Same
pub mod Rooms
pub mod Sample
mod Tests
use g_plat.Prelude.{
  ℕ, zero, suc, ◌+◌, ◌%◌, ◌<◌, Bool, true, false, ◌||◌, Option, none, some, List, [], ◌∷◌, ◌==◌,
  if◌then◌else◌, same_text,
}

abbrev pub table_size : ℕ
table_size = 277

abbrev pub index_size : ℕ
index_size = 7177

char_sum : List ℕ → ℕ
char_sum [] = 0
char_sum (c ∷ s) = c + char_sum s

pub hash1 : List ℕ → ℕ
unfolding char_sum
hash1 s = char_sum s % table_size

pub hash2 : List ℕ → ℕ
unfolding char_sum
hash2 s = let remain = char_sum s % 275 in if remain == 0 then 1 else remain

-- An entry of `TABLE_MSG table[]`, `BOARD_INDEX_STRUCT index[]` or `DB_INDEX_STRUCT index[]`: what
-- the search reads, and the other fields.
pub record Slot {ℓ} (A : Type ℓ) : Type ℓ where
  pub name : List ℕ
  pub erased : Bool
  pub fields : A

abbrev pub is_blank : List ℕ → Bool
is_blank [] = true
is_blank (_ ∷ _) = false

-- "CT0D9GG_~$59", which a deletion leaves in the slot
abbrev pub grave : List ℕ
grave = 67 ∷ 84 ∷ 48 ∷ 68 ∷ 57 ∷ 71 ∷ 71 ∷ 95 ∷ 126 ∷ 36 ∷ 53 ∷ 57 ∷ []

-- `lost`: the loop does not end.
pub data Located : Type 0 where
  lost : Located
  missing : Located
  found : ℕ → Located

module _ {ℓ} {A : Type ℓ} where
  -- `while (!stop(slots[loc])) loc = (loc + c) % size;` for at most `fuel` rounds
  unfoldable pub scan : (Slot A → Bool) → (ℕ → Slot A) → ℕ → ℕ → ℕ → ℕ → Option ℕ
  scan stop slots size c zero loc = none
  scan stop slots size c (suc fuel) loc = elim (stop (slots loc)) [
    | true ↦ some loc
    | false ↦ scan stop slots size c fuel ((loc + c) % size)
  ]

  -- The search for a name stops at the name and at a slot that was never used.
  abbrev pub stops_at : List ℕ → Slot A → Bool
  stops_at key s = is_blank s.name || same_text s.name key

  -- The search for room stops at a slot that was never used and at one that was erased.
  abbrev pub has_room : Slot A → Bool
  has_room s = is_blank s.name || s.erased

  -- `none` where the loop of the program does not end.
  unfoldable pub seek : ℕ → (ℕ → Slot A) → List ℕ → Option ℕ
  seek size slots key = scan (stops_at key) slots size (hash2 key) size (hash1 key)

  unfoldable pub seek_room : ℕ → (ℕ → Slot A) → List ℕ → Option ℕ
  seek_room size slots key = scan has_room slots size (hash2 key) size (hash1 key)

  -- What every search for a name makes of the place where its loop stopped:
  -- `if (!strcmp(slots[loc].name, "\0") || slots[loc].erased)` the name is not there.
  unfoldable pub locate : ℕ → (ℕ → Slot A) → List ℕ → Located
  unfolding seek
  locate size slots key = elim (seek size slots key) [
    | none ↦ lost
    | some loc ↦ if is_blank (slots loc).name || (slots loc).erased then missing else found loc
  ]
