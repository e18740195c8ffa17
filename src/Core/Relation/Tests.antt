-- ===== src/Core/Relation/Tests.antt =====
-- The words and the columns of a few targets.
use k_engram.Prelude.{◌≡◌, refl, none, some, ok, err}
use k_engram.Text.{codes, text_eq}
use k_engram.Core.Relation.{refines, from_str, person}
use k_engram.Core.Relation.Columns.{link_target_from_row, invalid_link_target_shape}

from_str_refines : from_str (codes "refines") ≡ ok refines
unfolding from_str text_eq
from_str_refines = refl

person_row :
    link_target_from_row (codes "person") none none (some (codes "Ron")) none
    ≡ ok (person (codes "Ron"))
unfolding link_target_from_row text_eq
person_row = refl

row_without_url :
    link_target_from_row (codes "url") none (some (codes "pg")) none none
    ≡ err (invalid_link_target_shape (codes "url"))
unfolding link_target_from_row text_eq
row_without_url = refl
