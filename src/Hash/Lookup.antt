-- ===== src/Hash/Lookup.antt =====
-- A well placed table as a map from names to the other fields of their slots.
use g_plat.Prelude.{
  ℕ, ◌≡◌, ◌≢◌, ◌⊎◌, refl, sym, ap, ◌∙◌, inl, inr, false, Option, none, some, List, [], same_text,
  same_text→eq, same_text_refl, if◌then◌else◌, Bool-cases,
}
use g_plat.Hash.{Slot, Located, lost, missing, found, locate, grave}
use g_plat.Hash.Probe.{IsSize}
use g_plat.Hash.Directory.{Live, WellPlaced, locate-Live, locate_found, Live-unique}
use g_plat.Hash.Change.{
  put, bury, Room, Live-ne-Room, Live-put, Live-put_self, Live-put_old, put-WellPlaced, update_self,
  update_ne,
}
use g_plat.Hash.Bury.{Live-bury, bury-WellPlaced}

-- What the search for `k` leads to, if it leads to a slot.
unfoldable pub entry_of {ℓ} : {A : Type ℓ} → ℕ → (ℕ → Slot A) → List ℕ → Option A
entry_of size slots k = elim (locate size slots k) [ found t ↦ some (slots t).fields | _ ↦ none ]

Located-cases : (l : Located) → ((t : ℕ) × (l ≡ found t)) ⊎ ((t : ℕ) → l ≢ found t)
Located-cases lost = inr (λ t e. cc)
Located-cases missing = inr (λ t e. cc)
Located-cases (found t) = inl (t, refl)

module _ {ℓ} {A : Type ℓ} {size : ℕ} (big : IsSize size) (slots : ℕ → Slot A) where
  pub Live-cases :
      (k : List ℕ)
      → WellPlaced size slots
      → k ≢ []
      → ((t : ℕ) × Live size slots k t) ⊎ ((t : ℕ) → ¬ Live size slots k t)
  Live-cases k w ne = elim (Located-cases (locate size slots k)) [
    | inl (t, e) ↦ inl (t, locate-Live big slots k e)
    | inr no_slot ↦ inr (λ t l. no_slot t (locate_found big slots k t w ne l))
  ]

  pub entry_of-Live :
      (k : List ℕ) (t : ℕ)
      → WellPlaced size slots
      → k ≢ []
      → Live size slots k t
      → entry_of size slots k ≡ some (slots t).fields
  unfolding entry_of
  entry_of-Live k t w ne l = rw (locate_found big slots k t w ne l, entry_of) refl

  pub entry_of-absent :
      (k : List ℕ) → ((t : ℕ) → ¬ Live size slots k t) → entry_of size slots k ≡ none
  unfolding entry_of
  entry_of-absent k no_slot = go (locate size slots k) refl
    where
      go : (l : Located) → locate size slots k ≡ l → entry_of size slots k ≡ none
      go lost e = rw (e, entry_of) refl
      go missing e = rw (e, entry_of) refl
      go (found t) e = absurd (no_slot t (locate-Live big slots k e))

not_same : (k key : List ℕ) → same_text k key ≡ false → k ≢ key
not_same k key h e = cc (sym h ∙ ap (λ x. same_text x key) e ∙ same_text_refl key)

module _ {ℓ} {A : Type ℓ} {size : ℕ} (big : IsSize size) (slots : ℕ → Slot A) (key : List ℕ)
    (fields : A) (t : ℕ) (w : WellPlaced size slots) (ne : key ≢ []) where
  -- In a well placed table, a name that does not stand in it, is not empty and is not the mark of a
  -- deletion, put into the slot that the search for room finds, is looked up afterwards with the
  -- fields it was put with, and every other name with what it was looked up with before.
  pub entry_of-put :
      Room big slots key t
      → ((j : ℕ) → ¬ Live size slots key j)
      → key ≢ grave
      → (k : List ℕ) → k ≢ []
      → entry_of size (put slots t key fields) k
        ≡ (if same_text k key then some fields else entry_of size slots k)
  entry_of-put r absent ng k kne =
      let w' = put-WellPlaced big slots key fields w ne r absent ng in
      elim (Bool-cases (same_text k key)) [
        | inl same ↦
            rw (same, same_text→eq k key same)
              (entry_of-Live big (put slots t key fields) key t w' ne
                  (Live-put_self big slots key fields w ne r absent)
                ∙ ap (λ s. some s.fields) (update_self slots t _))
        | inr other ↦ rw other (elim (Live-cases big slots k w kne) [
          | inl (j, l) ↦
              entry_of-Live big (put slots t key fields) k j w' kne
                (Live-put_old big slots key fields w ne r absent k j kne l)
              ∙ ap (λ s. some s.fields)
                  (update_ne slots t j _ (Live-ne-Room big slots key k kne r l))
              ∙ sym (entry_of-Live big slots k j w kne l)
          | inr no_slot ↦
              entry_of-absent big (put slots t key fields) k (λ j l.
                elim (Live-put big slots key fields w ne r absent k j l) [
                  | inl (e, _) ↦ not_same k key other e
                  | inr (old, _) ↦ no_slot j old
                ])
              ∙ sym (entry_of-absent big slots k no_slot)
        ])
      ]

  -- In a well placed table, after the deletion of the name that stands in the slot `t`, that name
  -- leads to nothing, and every other name to what it led to before.
  pub entry_of-bury :
      Live size slots key t
      → (k : List ℕ) → k ≢ []
      → entry_of size (bury slots t fields) k
        ≡ (if same_text k key then none else entry_of size slots k)
  entry_of-bury l k kne =
      let w' = bury-WellPlaced size slots fields t w in
      elim (Bool-cases (same_text k key)) [
        | inl same ↦
            rw (same, same_text→eq k key same)
              (entry_of-absent big (bury slots t fields) key (λ j l'.
                let (old, off) = (Live-bury size slots fields t key j).0 l' in
                off (Live-unique big slots key w ne old l)))
        | inr other ↦ rw other (elim (Live-cases big slots k w kne) [
          | inl (j, l') ↦
              let off : j ≢ t =
                λ e. not_same k key other (sym l'.named ∙ ap (λ x. (slots x).name) e ∙ l.named) in
              entry_of-Live big (bury slots t fields) k j w' kne
                ((Live-bury size slots fields t k j).1 (l', off))
              ∙ ap (λ s. some s.fields) (update_ne slots t j _ off)
              ∙ sym (entry_of-Live big slots k j w kne l')
          | inr no_slot ↦
              entry_of-absent big (bury slots t fields) k
                (λ j l'. no_slot j ((Live-bury size slots fields t k j).0 l').0)
              ∙ sym (entry_of-absent big slots k no_slot)
        ])
      ]
