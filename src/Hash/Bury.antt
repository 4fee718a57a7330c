-- ===== src/Hash/Bury.antt =====
-- A deletion, as deletetab and DeleteItem make it, and a change of the other fields.
use g_plat.Prelude.{ℕ, ◌≡◌, ◌≢◌, ◌↔◌, sym, ap, ◌∙◌, true, ◌||◌, same_text, List, arith, ℕ_discrete}
use g_plat.Hash.{Slot, stops_at, is_blank, grave}
use g_plat.Hash.Directory.{Live, WellPlaced}
use g_plat.Hash.Change.{bury, update_self, update_ne, stops_update, stops_off, First-congr}

module _ {ℓ} {A : Type ℓ} (size : ℕ) (slots : ℕ → Slot A) (fields : A) (t : ℕ) where
  abbrev after_bury : ℕ → Slot A
  after_bury = bury slots t fields

  -- A deletion takes away what stands in its slot, and nothing else.
  pub Live-bury : (k : List ℕ) (j : ℕ) → Live size after_bury k j ↔ (Live size slots k j × (j ≢ t))
  Live-bury k j = (
    λ l. elim (ℕ_discrete j t) [
      | yes e ↦ absurd (
          cc (
            sym l.kept
            ∙ ap (λ x. (after_bury x).erased) e
            ∙ ap (λ s. s.erased) (update_self slots t _)))
      | no off ↦ (
        record {
          in_range = l.in_range;
          named = ap (λ s. s.name) (sym (update_ne slots t j _ off)) ∙ l.named;
          kept = ap (λ s. s.erased) (sym (update_ne slots t j _ off)) ∙ l.kept;
        },
        off,
      )
    ],
    λ h. record {
      in_range = h.0.in_range;
      named = ap (λ s. s.name) (update_ne slots t j _ h.1) ∙ h.0.named;
      kept = ap (λ s. s.erased) (update_ne slots t j _ h.1) ∙ h.0.kept;
    },
  )

  pub bury-WellPlaced : WellPlaced size slots → WellPlaced size after_bury
  bury-WellPlaced w = record {
    placed = λ k j kne l.
        let (old, off) = (Live-bury k j).0 l in
        let f = w.placed k j kne old in
        First-congr (stops_at k) (stops_at k) slots after_bury f
          (ap (stops_at k) (update_ne slots t j _ off) ∙ f.stops)
          (λ i lt.
            stops_update slots k t _ (record { name = grave; erased = true; fields = fields })
              (λ _.
                stops_off k (record { name = grave; erased = true; fields = fields }) (λ e. cc)
                  (λ e. w.lives j old.in_range old.kept (old.named ∙ sym e)))
              (λ _. f.before i lt));
    graves = λ j lt e. ground (arith, w.graves j lt);
    lives = λ j lt e. ground (arith, w.lives j lt);
  }

-- Two tables with the same names and marks.
pub record SameNames {ℓ κ} {A : Type ℓ} {B : Type κ} (slots : ℕ → Slot A) (slots' : ℕ → Slot B)
    : Type 0 where
  pub names : (t : ℕ) → (slots' t).name ≡ (slots t).name
  pub marks : (t : ℕ) → (slots' t).erased ≡ (slots t).erased

module _ {ℓ κ} {A : Type ℓ} {B : Type κ} (size : ℕ) {slots : ℕ → Slot A} {slots' : ℕ → Slot B}
    (same : SameNames slots slots') where
  pub Live-same : (k : List ℕ) (j : ℕ) → Live size slots' k j ↔ Live size slots k j
  Live-same k j = (
    λ l. record {
      in_range = l.in_range;
      named = sym (same.names j) ∙ l.named;
      kept = sym (same.marks j) ∙ l.kept;
    },
    λ l. record {
      in_range = l.in_range;
      named = same.names j ∙ l.named;
      kept = same.marks j ∙ l.kept;
    },
  )

  stops-same : (k : List ℕ) (j : ℕ) → stops_at k (slots' j) ≡ stops_at k (slots j)
  stops-same k j = ap (λ n. is_blank n || same_text n k) (same.names j)

  pub same-WellPlaced : WellPlaced size slots → WellPlaced size slots'
  same-WellPlaced w = record {
    placed = λ k j kne l.
        let f = w.placed k j kne ((Live-same k j).0 l) in
        First-congr (stops_at k) (stops_at k) slots slots' f (stops-same k j ∙ f.stops)
          (λ i lt. stops-same k _ ∙ f.before i lt);
    graves = λ j lt e. same.names j ∙ w.graves j lt (sym (same.marks j) ∙ e);
    lives = λ j lt e g. w.lives j lt (sym (same.marks j) ∙ e) (sym (same.names j) ∙ g);
  }
