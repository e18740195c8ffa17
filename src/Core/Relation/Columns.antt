-- ===== src/Core/Relation/Columns.antt =====
-- The five columns of `thought_links` that hold a target, and the reading of a row
-- (`link_target_from_row` of crates/kengram-storage/src/lib.rs).
use k_engram.Prelude.{◌≡◌, refl, Result, ok, err, Option, none, some, if◌then◌else◌, arith, ap, ℕ}
use k_engram.Text.{Text, text_eq, codes}
use k_engram.Text.Laws.{ne_of_text_eq}
use k_engram.Core.Relation.{
  ThoughtId, LinkTarget, thought, entity, person, url, kind_str, as_thought_id, as_entity,
  as_person, as_url, value_str, ExtractedTarget, x_entity, x_person, x_url, into_link_target,
  extracted_kind_str,
}

pub data InvalidLinkTargetShape : Type 0 where
  invalid_link_target_shape : Text → InvalidLinkTargetShape

-- `column.map(make).ok_or_else(…)`.
abbrev column {ℓ} :
    {A : Type ℓ} → Text → (A → LinkTarget) → Option A → Result InvalidLinkTargetShape LinkTarget
column to_kind make none = err (invalid_link_target_shape to_kind)
column to_kind make (some a) = ok (make a)

unfoldable pub link_target_from_row :
    Text
    → Option ThoughtId
    → Option Text
    → Option Text
    → Option Text
    → Result InvalidLinkTargetShape LinkTarget
link_target_from_row to_kind to_thought to_entity to_person to_url =
    if text_eq to_kind (codes "thought")
    then column to_kind thought to_thought
    else if text_eq to_kind (codes "entity")
    then column to_kind entity to_entity
    else if text_eq to_kind (codes "person")
    then column to_kind person to_person
    else if text_eq to_kind (codes "url")
    then column to_kind url to_url
    else err (invalid_link_target_shape to_kind)

-- A target that is written to its columns is read back.
pub link_target_from_row-columns :
    (t : LinkTarget)
    → link_target_from_row (kind_str t) (as_thought_id t) (as_entity t) (as_person t) (as_url t)
      ≡ ok t
unfolding link_target_from_row kind_str as_thought_id as_entity as_person as_url text_eq
link_target_from_row-columns (thought id) = refl
link_target_from_row-columns (entity name) = refl
link_target_from_row-columns (person name) = refl
link_target_from_row-columns (url u) = refl

module _ (print_uuid : ℕ → Text)
    (print_injective : (m n : ℕ) → print_uuid m ≡ print_uuid n → m ≡ n) where
  -- The pair of texts by which an edge is unique determines the target, if no two UUIDs are
  -- printed alike.
  pub target_of_kind_value :
      (s t : LinkTarget)
      → kind_str s ≡ kind_str t
      → value_str print_uuid s ≡ value_str print_uuid t
      → s ≡ t
  unfolding kind_str value_str text_eq
  target_of_kind_value (thought a) (thought b) k v = ground (arith, print_injective a.uuid b.uuid)
  target_of_kind_value (entity a) (entity b) k v = ap entity v
  target_of_kind_value (person a) (person b) k v = ap person v
  target_of_kind_value (url a) (url b) k v = ap url v
  target_of_kind_value (thought a) t k v =
      absurd (ne_of_text_eq (kind_str (thought a)) (kind_str t) refl k)
  target_of_kind_value (entity a) t k v =
      absurd (ne_of_text_eq (kind_str (entity a)) (kind_str t) refl k)
  target_of_kind_value (person a) t k v =
      absurd (ne_of_text_eq (kind_str (person a)) (kind_str t) refl k)
  target_of_kind_value (url a) t k v = absurd (ne_of_text_eq (kind_str (url a)) (kind_str t) refl k)

-- The conversion of an emitted target keeps its kind word and is one to one.
pub into_link_target-faithful :
    (s t : ExtractedTarget)
    → (kind_str (into_link_target s) ≡ extracted_kind_str s)
      × (into_link_target s ≡ into_link_target t → s ≡ t)
unfolding kind_str into_link_target extracted_kind_str
into_link_target-faithful (x_entity a) (x_entity b) = (refl, λ e. cc)
into_link_target-faithful (x_person a) (x_person b) = (refl, λ e. cc)
into_link_target-faithful (x_url a) (x_url b) = (refl, λ e. cc)
into_link_target-faithful (x_entity a) _ = (refl, λ e. cc)
into_link_target-faithful (x_person a) _ = (refl, λ e. cc)
into_link_target-faithful (x_url a) _ = (refl, λ e. cc)
