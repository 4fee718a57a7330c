-- ===== src/Hash/Change.antt =====
-- An insertion into the place that the search for room finds, as inserttab and CreateItem make it,
-- and a deletion.
use g_plat.Prelude.{
  ℕ, ◌<◌, ◌≡◌, ◌≢◌, ◌⊎◌, refl, sym, ap, ◌∙◌, inl, inr, Bool, true, false, ◌||◌, List, [], ◌∷◌,
  arith, same_text→eq, same_text_refl, update, ℕ_discrete, Bool-cases,
}
use g_plat.Hash.{Slot, stops_at, has_room, is_blank, grave, hash1, hash2}
use g_plat.Hash.Probe.{IsSize, probe, place, place-lt}
use g_plat.Hash.Search.{First}
use g_plat.Hash.Directory.{Live, WellPlaced}

module _ {ℓ} {A : Type ℓ} where
  abbrev pub put : (ℕ → Slot A) → ℕ → List ℕ → A → ℕ → Slot A
  put slots t key fields = update slots t (record { name = key; erased = false; fields = fields })

  abbrev pub bury : (ℕ → Slot A) → ℕ → A → ℕ → Slot A
  bury slots t fields = update slots t (record { name = grave; erased = true; fields = fields })

  pub update_self : (slots : ℕ → Slot A) (t : ℕ) (s : Slot A) → update slots t s t ≡ s
  update_self slots t s = ground arith

  pub update_ne : (slots : ℕ → Slot A) (t j : ℕ) (s : Slot A) → j ≢ t → update slots t s j ≡ slots j
  update_ne slots t j s ne = ground arith

  pub stops_update :
      (slots : ℕ → Slot A) (k : List ℕ) (t p : ℕ) (s : Slot A)
      → (p ≡ t → stops_at k s ≡ false)
      → (p ≢ t → stops_at k (slots p) ≡ false)
      → stops_at k (update slots t s p) ≡ false
  stops_update slots k t p s here there = elim (ℕ_discrete p t) [
    | yes e ↦ rw e (ap (stops_at k) (update_self slots t s) ∙ here e)
    | no ne ↦ ap (stops_at k) (update_ne slots t p s ne) ∙ there ne
  ]

-- A first place stays the first where the slots before it do not come to stop the search.
pub First-congr {ℓ κ} :
    {A : Type ℓ} {B : Type κ} (stop : Slot A → Bool) (stop' : Slot B → Bool) (slots : ℕ → Slot A)
    (slots' : ℕ → Slot B) {size c loc t : ℕ} (f : First stop slots size c loc t)
    → stop' (slots' t) ≡ true
    → ((i : ℕ) → i < f.round → stop' (slots' (probe size c loc i)) ≡ false)
    → First stop' slots' size c loc t
First-congr stop stop' slots slots' f s h = record {
  round = f.round;
  there = f.there;
  stops = s;
  before = h;
}

-- A room is blank or erased, so that no name stands in it.
pub room-not_live : (b e : Bool) → (b || e) ≡ true → e ≡ false → b ≡ true
room-not_live b e h k = ground arith

pub blank-eq : (s : List ℕ) → is_blank s ≡ true → s ≡ []
blank-eq [] h = refl
blank-eq (_ ∷ _) h = cc

-- A slot that is no room has a name.
busy_name {ℓ} : {A : Type ℓ} (s : Slot A) → has_room s ≡ false → s.name ≢ []
busy_name s h e = cc (sym h ∙ ap (λ n. is_blank n || s.erased) e)

place_in_range :
    {size : ℕ} → IsSize size → (key : List ℕ) (j : ℕ) → probe size (hash2 key) (hash1 key) j < size
unfolding place
place_in_range big key j = place-lt big key j

pub stops_self {ℓ} : {A : Type ℓ} (s : Slot A) → stops_at s.name s ≡ true
stops_self s = ground (arith, same_text_refl s.name)

pub stops_off {ℓ} :
    {A : Type ℓ} (key : List ℕ) (s : Slot A) → s.name ≢ [] → s.name ≢ key → stops_at key s ≡ false
stops_off key s ne off = elim (Bool-cases (stops_at key s)) [
  | inr h ↦ h
  | inl h ↦ ground (arith, blank-eq s.name, same_text→eq s.name key)
]

module _ {ℓ} {A : Type ℓ} {size : ℕ} (big : IsSize size) (slots : ℕ → Slot A) where
  -- The room that the search finds for `key`.
  abbrev pub Room : List ℕ → ℕ → Type 0
  Room key t = First has_room slots size (hash2 key) (hash1 key) t

  -- A name that stands somewhere does not stand in a room.
  pub Live-ne-Room : (key k : List ℕ) {t j : ℕ} → k ≢ [] → Room key t → Live size slots k j → j ≢ t
  Live-ne-Room key k {t} {j} ne r l e = ne (
      sym l.named
      ∙ ap (λ x. (slots x).name) e
      ∙ blank-eq (slots t).name (
          room-not_live (is_blank (slots t).name) (slots t).erased r.stops
            (ap (λ x. (slots x).erased) (sym e) ∙ l.kept)))

module _ {ℓ} {A : Type ℓ} {size : ℕ} (big : IsSize size) (slots : ℕ → Slot A) (key : List ℕ)
    (fields : A) {t : ℕ} (w : WellPlaced size slots) (ne : key ≢ []) (r : Room big slots key t)
    (absent : (j : ℕ) → ¬ Live size slots key j) where
  abbrev after_put : ℕ → Slot A
  after_put = put slots t key fields

  room-lt : t < size
  unfolding place
  room-lt = rw (← r.there) (place-lt big key r.round)

  pub Live-put_self : Live size after_put key t
  Live-put_self = record {
    in_range = room-lt;
    named = ap (λ s. s.name) (update_self slots t _);
    kept = ap (λ s. s.erased) (update_self slots t _);
  }

  pub Live-put_old : (k : List ℕ) (j : ℕ) → k ≢ [] → Live size slots k j → Live size after_put k j
  Live-put_old k j kne l =
      let off : j ≢ t = Live-ne-Room big slots key k kne r l in
      record {
        in_range = l.in_range;
        named = ap (λ s. s.name) (update_ne slots t j _ off) ∙ l.named;
        kept = ap (λ s. s.erased) (update_ne slots t j _ off) ∙ l.kept;
      }

  -- What stands in the table after an insertion: the new name in its room, and what was there.
  pub Live-put :
      (k : List ℕ) (j : ℕ)
      → Live size after_put k j
      → ((k ≡ key) × (j ≡ t)) ⊎ (Live size slots k j × (j ≢ t))
  Live-put k j l = elim (ℕ_discrete j t) [
    | yes e ↦
        inl (
          sym l.named ∙ ap (λ x. (after_put x).name) e ∙ ap (λ s. s.name) (update_self slots t _),
          e,
        )
    | no off ↦ inr (
      record {
        in_range = l.in_range;
        named = ap (λ s. s.name) (sym (update_ne slots t j _ off)) ∙ l.named;
        kept = ap (λ s. s.erased) (sym (update_ne slots t j _ off)) ∙ l.kept;
      },
      off,
    )
  ]

  -- On the way to the room the search for the new name does not stop.
  passes_new :
      (i : ℕ)
      → i < r.round
      → stops_at key (after_put (probe size (hash2 key) (hash1 key) i)) ≡ false
  passes_new i lt =
      let p : ℕ = probe size (hash2 key) (hash1 key) i in
      let busy : has_room (slots p) ≡ false = r.before i lt in
      stops_update slots key t p (record { name = key; erased = false; fields = fields })
        (λ e. cc (sym busy ∙ ap (λ x. has_room (slots x)) e ∙ r.stops))
        (λ _. stops_off key (slots p) (busy_name (slots p) busy) (λ e.
          absent p (record {
            in_range = place_in_range big key i;
            named = e;
            kept = ground (arith, busy);
          })))

  -- On the way to another name the new one is no place to stop.
  passes_old :
      (k : List ℕ) {j : ℕ}
      → k ≢ []
      → (l : Live size slots k j) → (i : ℕ)
      → stops_at k (slots (probe size (hash2 k) (hash1 k) i)) ≡ false
      → stops_at k (after_put (probe size (hash2 k) (hash1 k) i)) ≡ false
  passes_old k {j} kne l i h =
      stops_update slots k t (probe size (hash2 k) (hash1 k) i)
        (record { name = key; erased = false; fields = fields })
        (λ _.
          stops_off k (record { name = key; erased = false; fields = fields }) ne
            (λ e.
              absent j (record { in_range = l.in_range; named = l.named ∙ sym e; kept = l.kept })))
        (λ _. h)

  pub put-WellPlaced : key ≢ grave → WellPlaced size after_put
  put-WellPlaced ng = record {
    placed = λ k j kne l. elim (Live-put k j l) [
      | inl (e, f) ↦
          rw (e, f)
            (First-congr has_room (stops_at key) slots after_put r
              (ap (stops_at key) (update_self slots t _)
                ∙ stops_self (record { name = key; erased = false; fields = fields }))
              passes_new)
      | inr (old, off) ↦
          let f = w.placed k j kne old in
          First-congr (stops_at k) (stops_at k) slots after_put f
            (ap (stops_at k) (update_ne slots t j _ off) ∙ f.stops)
            (λ i lt. passes_old k kne old i (f.before i lt))
    ];
    graves = λ j lt e. ground (arith, w.graves j lt);
    lives = λ j lt e. ground (arith, w.lives j lt, ng);
  }
