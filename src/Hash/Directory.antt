-- ===== src/Hash/Directory.antt =====
-- The names of a table and the places where the search finds them.
use g_plat.Prelude.{
  ℕ, ◌<◌, ◌≡◌, ◌≢◌, ◌↔◌, refl, sym, ap, subst, ◌∙◌, inl, inr, Bool, true, false, ◌||◌, some, List,
  [], ◌∷◌, arith, Bool-cases, Option-cases, same_text→eq, if◌then◌else◌,
}
use g_plat.Hash.{Slot, missing, found, scan, seek, locate, stops_at, is_blank, grave, hash1, hash2}
use g_plat.Hash.Probe.{IsSize, place, place-lt, place_covers}
use g_plat.Hash.Search.{First, First-unique, scan_sound, scan_total}

module _ {ℓ} {A : Type ℓ} (size : ℕ) (slots : ℕ → Slot A) where
  -- The name `key` stands in the slot `t` and is not erased.
  pub record Live (key : List ℕ) (t : ℕ) : Type 0 where
    pub in_range : t < size
    pub named : (slots t).name ≡ key
    pub kept : (slots t).erased ≡ false

  -- A slot that was never used, at which every search stops.
  pub record Blank : Type 0 where
    pub slot : ℕ
    pub in_range : slot < size
    pub blank : is_blank (slots slot).name ≡ true

  abbrev pub FirstFor : List ℕ → ℕ → Type 0
  FirstFor key t = First (stops_at key) slots size (hash2 key) (hash1 key) t

  -- Every name in the table is the first place at which the search for it stops; erased slots have
  -- the name that a deletion writes, and no other slot has it.
  pub record WellPlaced : Type 0 where
    pub placed : (key : List ℕ) (t : ℕ) → key ≢ [] → Live key t → FirstFor key t
    pub graves : (t : ℕ) → t < size → (slots t).erased ≡ true → (slots t).name ≡ grave
    pub lives : (t : ℕ) → t < size → (slots t).erased ≡ false → (slots t).name ≢ grave

is_blank_of_ne : (key : List ℕ) → key ≢ [] → (s : List ℕ) → s ≡ key → is_blank s ≡ false
is_blank_of_ne key ne [] e = absurd (ne (sym e))
is_blank_of_ne key ne (_ ∷ _) e = refl

-- What `found` says of the test behind the loop.
found_test :
    (b e : Bool) (loc t : ℕ)
    → (if b || e then missing else found loc) ≡ found t
    → (b ≡ false) × (e ≡ false) × (loc ≡ t)
found_test b e loc t h = ground arith

or_false : (a b : Bool) → (a || b) ≡ false → (a ≡ false) × (b ≡ false)
or_false a b h = ground arith

module _ {ℓ} {A : Type ℓ} {size : ℕ} (big : IsSize size) (slots : ℕ → Slot A) where
  -- A loop that can stop stops within `size` rounds, at its first place.
  pub scan-First :
      (stop : Slot A → Bool) (key : List ℕ) {t : ℕ}
      → First stop slots size (hash2 key) (hash1 key) t
      → scan stop slots size (hash2 key) size (hash1 key) ≡ some t
  unfolding place
  scan-First stop key {t} f =
      let lt : t < size = rw (← f.there) (place-lt big key f.round) in
      let (j, h, e) = place_covers big key t lt in
      let (t', r) =
        scan_total stop slots size (hash2 key) size (hash1 key) j h
          (ap (λ x. stop (slots x)) e ∙ f.stops) in
      r
      ∙ ap some (
          First-unique stop slots size (hash2 key)
            (scan_sound stop slots size (hash2 key) size (hash1 key) r) f)

  pub scan_stops :
      (stop : Slot A → Bool) (key : List ℕ) (t : ℕ)
      → t < size
      → stop (slots t) ≡ true
      → (t' : ℕ) × (scan stop slots size (hash2 key) size (hash1 key) ≡ some t')
        × (t' < size)
        × First stop slots size (hash2 key) (hash1 key) t'
  unfolding place
  scan_stops stop key t lt s =
      let (j, h, e) = place_covers big key t lt in
      let (t', r) =
        scan_total stop slots size (hash2 key) size (hash1 key) j h
          (ap (λ x. stop (slots x)) e ∙ s) in
      let f = scan_sound stop slots size (hash2 key) size (hash1 key) r in
      (t', r, rw (← f.there) (place-lt big key f.round), f)

  pub locate_found :
      (key : List ℕ) (t : ℕ)
      → WellPlaced size slots
      → key ≢ []
      → Live size slots key t
      → locate size slots key ≡ found t
  unfolding locate seek
  locate_found key t w ne l =
      rw (scan-First (stops_at key) key (w.placed key t ne l), locate, seek)
        (rw (is_blank_of_ne key ne (slots t).name l.named, l.kept) refl)

  stopped-Live :
      (key : List ℕ) (t : ℕ)
      → t < size
      → stops_at key (slots t) ≡ true
      → is_blank (slots t).name ≡ false
      → (slots t).erased ≡ false
      → Live size slots key t
  stopped-Live key t lt s b e = record {
    in_range = lt;
    named = same_text→eq (slots t).name key (rw b at s);
    kept = e;
  }

  pub locate-Live : (key : List ℕ) {t : ℕ} → locate size slots key ≡ found t → Live size slots key t
  unfolding locate seek place
  locate-Live key {t} e =
      elim (Option-cases (scan (stops_at key) slots size (hash2 key) size (hash1 key))) [
        | inl r ↦ cc (rw (r, locate, seek) at e)
        | inr (loc, r) ↦
            let f = scan_sound (stops_at key) slots size (hash2 key) size (hash1 key) r in
            let lt : loc < size = rw (← f.there) (place-lt big key f.round) in
            let (b, k, same) =
              found_test (is_blank (slots loc).name) (slots loc).erased loc t
                (rw (r, locate, seek) at e) in
            subst (Live size slots key) same (stopped-Live key loc lt f.stops b k)
      ]

  -- With a slot that was never used the search for a name that does not stand in the table ends
  -- within `size` rounds, by reporting it missing.
  pub locate_missing :
      (key : List ℕ)
      → Blank size slots
      → ((t : ℕ) → ¬ Live size slots key t)
      → locate size slots key ≡ missing
  unfolding locate seek
  locate_missing key b none_live =
      let (t, r, lt, f) = scan_stops (stops_at key) key b.slot b.in_range (rw b.blank refl) in
      rw (r, locate, seek)
        (elim (Bool-cases (is_blank (slots t).name || (slots t).erased)) [
          | inl gone ↦ rw gone refl
          | inr there ↦ absurd (
              none_live t
                (stopped-Live key t lt f.stops (or_false _ _ there).0 (or_false _ _ there).1))
        ])

  -- In a well placed table the search for a name finds a slot exactly where the name stands in it
  -- and is not erased.
  pub locate_iff :
      (key : List ℕ) (t : ℕ)
      → WellPlaced size slots
      → key ≢ []
      → (locate size slots key ≡ found t) ↔ Live size slots key t
  locate_iff key t w ne = (locate-Live key, locate_found key t w ne)

  -- A name stands in one slot at most.
  pub Live-unique :
      (key : List ℕ) {t t' : ℕ}
      → WellPlaced size slots
      → key ≢ []
      → Live size slots key t
      → Live size slots key t'
      → t ≡ t'
  Live-unique key {t} {t'} w ne l l' =
      First-unique (stops_at key) slots size (hash2 key) (w.placed key t ne l)
        (w.placed key t' ne l')
