-- ===== src/Storage/Hygiene/Tests.antt =====
-- The fences on small texts.
use k_engram.Prelude.{ℕ, true, Option, none, ◌≡◌, ◌↔◌, ◌++◌}
use k_engram.Text.{Text, codes, to_ascii_uppercase}
use k_engram.Storage.Hygiene.{is_marker, text_trips_eval_contamination}
use k_engram.Storage.Hygiene.Marker.{text_trips_iff}

abbrev live : Option ℕ
live = none

text_trips_iff_example : (text_trips_eval_contamination (codes "see kgr042") ≡ true) ↔ (
    (front : Text) × (behind : Text) × (codes "see kgr042" ≡ front ++ behind)
    × (is_marker (to_ascii_uppercase behind) ≡ true))
text_trips_iff_example = text_trips_iff (codes "see kgr042")
