-- ===== src/Listing/Tests.antt =====
-- The theorem on pages with three volumes and pages of two.
use nasty_csi.Common.{suc, String, ◌≡◌, refl, true, List, [], ◌∷◌, length}
use nasty_csi.Common.Int.{pos}
use nasty_csi.Common.Result.{ok}
use nasty_csi.Listing.{VolumeEntry}
use nasty_csi.Listing.Pages.{is_listed, are_proper, follow, follow_complete}

abbrev entry : String → VolumeEntry
entry id = record { volume_id = id; capacity_bytes = pos 0; volume_context = [] }

abbrev three_volumes : List VolumeEntry
three_volumes = entry "tank/a" ∷ entry "tank/b" ∷ entry "tank/c" ∷ []

proper : are_proper three_volumes ≡ true
unfolding are_proper is_listed
proper = refl

follow_complete_example :
    follow (suc (length three_volumes)) (pos 2) "" three_volumes ≡ ok three_volumes
follow_complete_example = follow_complete 1 three_volumes proper
