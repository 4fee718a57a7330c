-- ===== src/Hash/Same.antt =====
-- Two tables with the same names and marks in the same slots, whatever else the slots hold.
use g_plat.Prelude.{
  ℕ, zero, suc, ◌+◌, ◌%◌, ◌≡◌, refl, ap, ap₂, ◌∙◌, ◌||◌, Option, none, some, Bool, true, false,
  List, same_text, if◌then◌else◌,
}
use g_plat.Hash.{
  Slot, Located, lost, missing, found, scan, hash1, hash2, seek, locate, stops_at, is_blank,
}
use g_plat.Hash.Bury.{SameNames}

scan-SameNames {ℓ} :
    {A : Type ℓ} {slots slots' : ℕ → Slot A} (size c fuel loc : ℕ) (key : List ℕ)
    → SameNames slots slots'
    → scan (stops_at key) slots' size c fuel loc ≡ scan (stops_at key) slots size c fuel loc
unfolding scan
scan-SameNames size c zero loc key same = refl
scan-SameNames {slots = slots} {slots' = slots'} size c (suc fuel) loc key same =
    let there : stops_at key (slots' loc) ≡ stops_at key (slots loc) =
      ap (λ n. is_blank n || same_text n key) (same.names loc) in
    ap₂ (λ (b : Bool) (r : Option ℕ). elim b [ true ↦ some loc | false ↦ r ]) there
      (scan-SameNames size c fuel ((loc + c) % size) key same)

same_answer {ℓ} :
    {A : Type ℓ} {slots slots' : ℕ → Slot A} (o : Option ℕ)
    → SameNames slots slots'
    → elim o as (λ _. Located) [
      | none ↦ lost
      | some loc ↦ if is_blank (slots' loc).name || (slots' loc).erased then missing else found loc
    ]
      ≡ elim o as (λ _. Located) [
        | none ↦ lost
        | some loc ↦ if is_blank (slots loc).name || (slots loc).erased then missing else found loc
      ]
same_answer none same = refl
same_answer (some loc) same =
    ap₂ (λ n e. if is_blank n || e then missing else found loc) (same.names loc) (same.marks loc)

-- Tables with the same names in the same slots answer a search alike.
pub locate-SameNames {ℓ} :
    {A : Type ℓ} {slots slots' : ℕ → Slot A} (size : ℕ) (key : List ℕ)
    → SameNames slots slots'
    → locate size slots' key ≡ locate size slots key
unfolding locate seek
locate-SameNames {slots = slots} {slots' = slots'} size key same =
    same_answer (seek size slots' key) same
    ∙ ap
        (λ o. elim o as (λ _. Located) [
          | none ↦ lost
          | some loc ↦
              if is_blank (slots loc).name || (slots loc).erased then missing else found loc
        ])
        (scan-SameNames size (hash2 key) size (hash1 key) key same)
