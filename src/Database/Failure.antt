-- ===== src/Database/Failure.antt =====
-- What the calls on tables leave behind when they do not succeed.
use g_plat.Prelude.{
  ℕ, ◌≡◌, ◌≢◌, ◌⊎◌, refl, Bool, true, false, ltb, Option, none, some, List, arith, ◌||◌,
  if◌then◌else◌,
}
use g_plat.Errors.{fault, hang, error_table_not_exist, Outcome, done, fail, error_no_space}
use g_plat.Hash.{Located, lost, missing, found, locate, seek, seek_room, index_size}
use g_plat.Queue.{max_msg_len, type_max_size}
use g_plat.Database.{Database, set_table}
use g_plat.Database.Create.{create_table, place_table}
use g_plat.Database.Drop.{delete_table}

-- A call that makes or removes a table.
pub data Reshape : Type 0 where
  create : List ℕ → ℕ → ℕ → Option (List ℕ) → ℕ → ℕ → Reshape
  drop : List ℕ → Reshape

abbrev pub reshape : Database → Reshape → Outcome (Unit {0}) × Database
reshape d (create k record_size max_count typ type_size now) =
    create_table d k record_size max_count typ type_size now
reshape d (drop k) = delete_table d k

-- A database after a call that may have failed: it is the one before, unless the call succeeded.
abbrev Keeps : Database → Outcome (Unit {0}) × Database → Type 0
Keeps d x = x.0 ≢ done tt → x.1 ≡ d

Keeps-if :
    (d : Database) (c : Bool) {x y : Outcome (Unit {0}) × Database}
    → Keeps d x
    → Keeps d y
    → Keeps d (if c then x else y)
Keeps-if d true f g = f
Keeps-if d false f g = g

Keeps-at :
    (d : Database) (f : ℕ → Outcome (Unit {0}) × Database)
    → ((loc : ℕ) → Keeps d (f loc))
    → (l : Located)
    → Keeps d (elim l [
      | lost ↦ (hang, d)
      | missing ↦ (fail error_table_not_exist, d)
      | found loc ↦ f loc
    ])
Keeps-at d f h lost e = refl
Keeps-at d f h missing e = refl
Keeps-at d f h (found loc) e = h loc e

Keeps-some :
    (d : Database) (f : ℕ → Outcome (Unit {0}) × Database)
    → ((loc : ℕ) → Keeps d (f loc))
    → (o : Option ℕ) → Keeps d (elim o [ none ↦ (hang, d) | some loc ↦ f loc ])
Keeps-some d f h none e = refl
Keeps-some d f h (some loc) e = h loc e

-- RefreshTable for more rows than the table has place for, which empties it.
abbrev pub Emptied : Database → ℕ → Outcome (Unit {0}) × Database → Type 0
Emptied d t x =
    (x.0 ≡ fail error_no_space)
    × (x.1 ≡ record d { index = set_table d t (record (d.index t).fields { curr_count = 0 }) })

-- The exception, for `x` in place of the call.
abbrev Spares : Database → List ℕ → Outcome (Unit {0}) × Database → Type 0
Spares d name x =
    x.0 ≢ done tt
    → (x.1 ≡ d) ⊎ ((t : ℕ) × (locate index_size d.index name ≡ found t) × Emptied d t x)

place_table-Keeps :
    (d : Database) (k : List ℕ) (record_size max_count : ℕ) (typ : Option (List ℕ))
    (type_size now : ℕ)
    → Keeps d (place_table d k record_size max_count typ type_size now)
unfolding place_table
place_table-Keeps d k record_size max_count typ type_size now =
    Keeps-some d _ (λ loc h. ground (arith, h)) (seek_room index_size d.index k)

create_table-Keeps :
    (d : Database) (k : List ℕ) (record_size max_count : ℕ) (typ : Option (List ℕ))
    (type_size now : ℕ)
    → Keeps d (create_table d k record_size max_count typ type_size now)
unfolding create_table
create_table-Keeps d k record_size max_count typ type_size now =
    Keeps-if d (ltb max_msg_len record_size || ltb type_max_size type_size) (λ _. refl)
      (Keeps-some d _
        (λ loc h. ground (arith, h, place_table-Keeps d k record_size max_count typ type_size now))
        (seek index_size d.index k))

delete_table-Keeps : (d : Database) (k : List ℕ) → Keeps d (delete_table d k)
unfolding delete_table
delete_table-Keeps d k = Keeps-at d _ (λ loc h. ground (arith, h)) (locate index_size d.index k)

-- CreateTable and DeleteTable that do not succeed, and do not run into what C++ leaves undefined,
-- leave the database as it was.
pub reshape-fails :
    (d : Database) (c : Reshape)
    → (reshape d c).0 ≢ done tt
    → (reshape d c).0 ≢ fault
    → (reshape d c).1 ≡ d
reshape-fails d (create k record_size max_count typ type_size now) h _ =
    create_table-Keeps d k record_size max_count typ type_size now h
reshape-fails d (drop k) h _ = delete_table-Keeps d k h
