-- ===== src/Mcp/Filter.antt =====
-- The test of the tag filter at the end of crates/kengram-mcp/src/search.rs: `json_contains` and
-- `tags_match_filter`, with the serialization of `Tags` that serde derives.
pub mod Contained
pub mod Texts
pub mod Tests
use k_engram.Prelude.{Bool, true, false, ◌&&◌, ◌||◌, List, [], ◌∷◌, Option, none, some, ◌==◌}
use k_engram.Text.{Text, codes, text_eq}
use k_engram.Core.Json.{
  Value, Items, Fields, null, bool, number, string, array, object, nil, cons, end, field, get_field,
}
use k_engram.Core.Tags.{
  Tags, TagKind, observation, task, idea, reference, person_note, session, decision_record,
}

-- `a == b` where not both are arrays and not both are objects, and false on an array and an object.
unfoldable pub scalar_eq : Value → Value → Bool
scalar_eq null null = true
scalar_eq (bool true) (bool true) = true
scalar_eq (bool false) (bool false) = true
scalar_eq (number m) (number n) = text_eq m n
scalar_eq (string s) (string t) = text_eq s t
scalar_eq _ _ = false

-- `h.iter().any(test)`.
unfoldable pub any_item : (Value → Bool) → Items → Bool
any_item test nil = false
any_item test (cons v vs) = test v || any_item test vs

-- `is_some_and`.
abbrev pub is_some_and : Option Value → (Value → Bool) → Bool
is_some_and none test = false
is_some_and (some v) test = test v

unfoldable mutual
  pub json_contains : Value → Value → Bool
  json_contains (array h) (array n) = all_items h n
  json_contains (object h) (object n) = all_fields h n
  json_contains a b = scalar_eq a b

  -- `n.iter().all(…)` on the elements of an array.
  pub all_items : Items → Items → Bool
  all_items h nil = true
  all_items h (cons nv n) = any_item (λ hv. json_contains hv nv) h && all_items h n

  -- `n.iter().all(…)` on the entries of an object.
  pub all_fields : Fields → Fields → Bool
  all_fields h end = true
  all_fields h (field k v n) =
      is_some_and (get_field h k) (λ hv. json_contains hv v) && all_fields h n

abbrev pub kind_word : TagKind → Text
kind_word observation = codes "observation"
kind_word task = codes "task"
kind_word idea = codes "idea"
kind_word reference = codes "reference"
kind_word person_note = codes "person_note"
kind_word session = codes "session"
kind_word decision_record = codes "decision_record"

abbrev pub texts_value : List Text → Items
texts_value [] = nil
texts_value (t ∷ ts) = cons (string t) (texts_value ts)

abbrev pub text_value : Option Text → Value
text_value none = null
text_value (some t) = string t

abbrev pub kind_value : Option TagKind → Value
kind_value none = null
kind_value (some k) = string (kind_word k)

-- `serde_json::to_value(tags)`, which has no error on these types.
unfoldable pub tags_value : Tags → Value
tags_value t = object (
    field (codes "people") (array (texts_value t.people)) (
      field (codes "entities") (array (texts_value t.entities)) (
        field (codes "retrieval_aliases") (array (texts_value t.retrieval_aliases)) (
          field (codes "domain_scope") (text_value t.domain_scope) (
            field (codes "action_items") (array (texts_value t.action_items)) (
              field (codes "topics") (array (texts_value t.topics)) (
                field (codes "dates_mentioned") (array (texts_value t.dates_mentioned))
                  (field (codes "kind") (kind_value t.kind) end))))))))

unfoldable pub tags_match_filter : Tags → Value → Bool
tags_match_filter tags filter = json_contains (tags_value tags) filter
