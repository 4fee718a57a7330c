-- ===== src/Hash/Tests.antt =====
-- The search and the changes of a table at one small table.
use g_plat.Prelude.{ℕ, ◌<◌, ◌≡◌, ◌↔◌, arith}
use g_plat.Hash.{found, missing, locate, index_size}
use g_plat.Hash.Probe.{index_size-IsSize, place, place_covers}
use g_plat.Hash.Directory.{Live, locate_iff, locate_missing}
use g_plat.Hash.Sample.{
  name_a, name_b, a-ne-nil, one_name, one_name-WellPlaced, one_name-absent, one_name-Blank,
}

place_covers_example : (j : ℕ) × (j < index_size) × (place index_size name_a j ≡ 5000)
place_covers_example = place_covers index_size-IsSize name_a 5000 (omega arith)

locate_iff_example :
    (locate index_size one_name name_a ≡ found 97) ↔ Live index_size one_name name_a 97
locate_iff_example = locate_iff index_size-IsSize one_name name_a 97 one_name-WellPlaced a-ne-nil

locate_missing_example : locate index_size one_name name_b ≡ missing
locate_missing_example =
    locate_missing index_size-IsSize one_name name_b one_name-Blank one_name-absent
