-- ===== src/Hash/Search.antt =====
-- What the loop of the search returns: the first place in its order at which it stops.
use g_plat.Prelude.{
  ℕ, zero, suc, ◌+◌, ◌%◌, ◌<◌, ◌≡◌, sym, ap, ◌∙◌, inl, inr, Bool, true, false, some, arith,
  Bool-cases,
}
use g_plat.Hash.{Slot, scan}
use g_plat.Hash.Probe.{probe}

module _ {ℓ} {A : Type ℓ} (stop : Slot A → Bool) (slots : ℕ → Slot A) (size c : ℕ) where
  pub record First (loc t : ℕ) : Type 0 where
    pub round : ℕ
    pub there : probe size c loc round ≡ t
    pub stops : stop (slots t) ≡ true
    pub before : (i : ℕ) → i < round → stop (slots (probe size c loc i)) ≡ false

  -- One round more in front.
  First-suc : (loc t : ℕ) → stop (slots loc) ≡ false → First ((loc + c) % size) t → First loc t
  unfolding probe
  First-suc loc t miss f = record {
    round = suc f.round;
    there = f.there;
    stops = f.stops;
    before = earlier;
  }
    where
      earlier : (i : ℕ) → i < suc f.round → stop (slots (probe size c loc i)) ≡ false
      earlier zero h = miss
      earlier (suc i) h = f.before i (omega arith)

  pub scan_sound : (fuel loc : ℕ) {t : ℕ} → scan stop slots size c fuel loc ≡ some t → First loc t
  unfolding scan probe
  scan_sound zero loc e = cc
  scan_sound (suc fuel) loc {t} e = elim (Bool-cases (stop (slots loc))) [
    | inl hit ↦ record {
      round = 0;
      there = ground arith;
      stops = ground arith;
      before = λ i h. absurd (omega arith);
    }
    | inr miss ↦ First-suc loc t miss (scan_sound fuel ((loc + c) % size) (rw (miss, scan) at e))
  ]

  pub scan_total :
      (fuel loc j : ℕ)
      → j < fuel
      → stop (slots (probe size c loc j)) ≡ true
      → (t : ℕ) × (scan stop slots size c fuel loc ≡ some t)
  unfolding scan probe
  scan_total zero loc j h s = absurd (omega arith)
  scan_total (suc fuel) loc zero h s = (loc, rw (s, scan))
  scan_total (suc fuel) loc (suc j) h s = elim (Bool-cases (stop (slots loc))) [
    | inl hit ↦ (loc, rw (hit, scan))
    | inr miss ↦ rw (miss, scan) (scan_total fuel ((loc + c) % size) j (omega arith) s)
  ]

  First-le : {loc t t' : ℕ} (f : First loc t) (g : First loc t') → ¬ (f.round < g.round)
  First-le {loc} f g h = cc (sym (g.before f.round h) ∙ ap (λ x. stop (slots x)) f.there ∙ f.stops)

  -- Two first places are one.
  pub First-unique : {loc t t' : ℕ} → First loc t → First loc t' → t ≡ t'
  First-unique {loc} f g =
      let same : f.round ≡ g.round = omega (arith, First-le f g, First-le g f) in
      sym f.there ∙ ap (probe size c loc) same ∙ g.there

  pub scan_complete :
      (fuel loc t : ℕ) (f : First loc t) → f.round < fuel → scan stop slots size c fuel loc ≡ some t
  scan_complete fuel loc t f h =
      let (t', e) = scan_total fuel loc f.round h (ap (λ x. stop (slots x)) f.there ∙ f.stops) in
      e ∙ ap some (First-unique (scan_sound fuel loc e) f)
