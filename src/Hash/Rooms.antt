-- ===== src/Hash/Rooms.antt =====
-- The two searches of an insertion end: that for the name, and that for room.
use g_plat.Prelude.{
  ℕ, ◌<◌, ◌≡◌, refl, false, inl, inr, some, List, arith, not, ◌&&◌, same_text, same_text→eq,
  Bool-cases,
}
use g_plat.Hash.{Slot, index_size, seek, seek_room, stops_at, has_room}
use g_plat.Hash.Probe.{index_size-IsSize}
use g_plat.Hash.Directory.{Live, Blank, scan_stops}
use g_plat.Hash.Change.{Room}

module _ {ℓ} {A : Type ℓ} (slots : ℕ → Slot A) (k : List ℕ) (d : Blank index_size slots) where
  -- The first does not end at an entry of that name.
  pub seek-absent :
      ((j : ℕ) → ¬ Live index_size slots k j)
      → (t : ℕ) × (seek index_size slots k ≡ some t)
        × ((same_text (slots t).name k && not (slots t).erased) ≡ false)
  unfolding seek
  seek-absent absent =
      let (t, r, lt, f) =
        scan_stops index_size-IsSize slots (stops_at k) k d.slot d.in_range (rw d.blank refl) in
      (
        t,
        r,
        elim (Bool-cases (same_text (slots t).name k && not (slots t).erased)) [
          | inr e ↦ e
          | inl e ↦ absurd (
              absent t (record {
                in_range = lt;
                named = same_text→eq (slots t).name k (ground arith);
                kept = ground arith;
              }))
        ],
      )

  pub seek_room-found :
      (t : ℕ) × (seek_room index_size slots k ≡ some t)
      × (t < index_size)
      × Room index_size-IsSize slots k t
  unfolding seek_room
  seek_room-found =
      scan_stops index_size-IsSize slots has_room k d.slot d.in_range (rw d.blank refl)
