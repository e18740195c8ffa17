-- ===== src/Mcp/Filter/Texts.antt =====
-- The tag filter of crates/kengram-mcp/src/search.rs on lists of texts.
use k_engram.Prelude.{
  Bool, true, ◌&&◌, ◌≡◌, refl, List, [], ◌∷◌, All, In, ◌↔◌, arith, and_true, true_and,
}
use k_engram.Text.{Text, codes, text_eq, elem}
use k_engram.Text.Laws.{elem_iff}
use k_engram.Core.Json.{Value, array, object, string, end, field, get_field}
use k_engram.Core.Tags.{Tags}
use k_engram.Mcp.Filter.{
  scalar_eq, any_item, json_contains, all_items, texts_value, tags_value, tags_match_filter,
}

-- The test of every element, as the test of membership.
abbrev all_elem : List Text → List Text → Bool
all_elem hs [] = true
all_elem hs (n ∷ ns) = elem n hs && all_elem hs ns

text_eq_sym : (s t : Text) → text_eq s t ≡ text_eq t s
unfolding text_eq
text_eq_sym [] [] = refl
text_eq_sym [] (d ∷ t) = refl
text_eq_sym (c ∷ s) [] = refl
text_eq_sym (c ∷ s) (d ∷ t) = ground (arith, text_eq_sym s t)

any_item-elem :
    (n : Text) (hs : List Text)
    → any_item (λ hv. json_contains hv (string n)) (texts_value hs) ≡ elem n hs
unfolding json_contains any_item scalar_eq elem
any_item-elem n [] = refl
any_item-elem n (h ∷ hs) = rw (any_item-elem n hs, text_eq_sym h n) refl

all_items-elem : (hs ns : List Text) → all_items (texts_value hs) (texts_value ns) ≡ all_elem hs ns
unfolding json_contains
all_items-elem hs [] = refl
all_items-elem hs (n ∷ ns) = rw (any_item-elem n hs, all_items-elem hs ns) refl

all_elem_iff : (hs ns : List Text) → (all_elem hs ns ≡ true) ↔ All (λ n. In n hs) ns
all_elem_iff hs [] = (λ e. tt, λ a. refl)
all_elem_iff hs (n ∷ ns) = (
  λ e. (
    (elem_iff n hs).0 (and_true (elem n hs) (all_elem hs ns) e).0,
    (all_elem_iff hs ns).0 (and_true (elem n hs) (all_elem hs ns) e).1,
  ),
  λ a. true_and (elem n hs) (all_elem hs ns) ((elem_iff n hs).1 a.0) ((all_elem_iff hs ns).1 a.1),
)

abbrev pub people_and_topics : List Text → List Text → Value
people_and_topics people topics = object (
    field (codes "people") (array (texts_value people))
      (field (codes "topics") (array (texts_value topics)) end))

-- A filter of people and topics lets through exactly the tags that have every person and every
-- topic of it, in any order.
pub tags_match_filter_iff :
    (tags : Tags) (people topics : List Text)
    → (tags_match_filter tags (people_and_topics people topics) ≡ true)
      ↔ (All (λ p. In p tags.people) people × All (λ t. In t tags.topics) topics)
unfolding tags_match_filter tags_value json_contains get_field text_eq
tags_match_filter_iff tags people topics =
    rw (all_items-elem tags.people people, all_items-elem tags.topics topics)
      (
        λ e.
            let (a, b) =
              and_true (all_elem tags.people people) (all_elem tags.topics topics && true) e in
            (
              (all_elem_iff tags.people people).0 a,
              (all_elem_iff tags.topics topics).0 (and_true (all_elem tags.topics topics) true b).0,
            ),
        λ a.
            true_and (all_elem tags.people people) (all_elem tags.topics topics && true)
              ((all_elem_iff tags.people people).1 a.0)
              (true_and (all_elem tags.topics topics) true ((all_elem_iff tags.topics topics).1 a.1)
                refl),
      )
