-- ===== src/Tagger/Names.antt =====
-- crates/kengram-tagger-deterministic/src/ner.rs, with the dates of dates.rs: what becomes of the
-- spans that the model finds and of the matches of the date patterns.
pub mod People
use k_engram.Prelude.{
  ℕ, Bool, true, false, ◌&&◌, ◌||◌, not, List, [], ◌∷◌, ◌++◌, map, Option, none, some, ◌==◌,
  if◌then◌else◌, unwrap_or, map_some, any, retain, filter_map,
}
use k_engram.Text.{
  Text, codes, text_eq, is_ascii_digit, is_whitespace, trim, trim_end_matches, drop_empty, contains,
}
use k_engram.Unicode.{Unicode}
use k_engram.Dedupe.{dedupe}

pub record NerOutput : Type 0 where
  pub people : List Text
  pub action_items : List Text

-- A span: its class and its text.
abbrev pub Span : Type 0
Span = Text × Text

abbrev pub texts_of : List Text → List Span → List Text
texts_of classes [] = []
texts_of classes ((class_of, text) ∷ spans) =
    let rest = texts_of classes spans in
    if any (λ c. text_eq class_of c) classes then text ∷ rest else rest

-- A blank and four digits, which begin with 1 or 2 and go on with 9 or 0.
unfoldable pub is_year : Text → Bool
is_year (sp ∷ a ∷ b ∷ c ∷ d ∷ []) =
    sp == b' '
    && is_ascii_digit a
    && is_ascii_digit b
    && is_ascii_digit c
    && is_ascii_digit d
    && (a == b'1' || a == b'2')
    && (b == b'9' || b == b'0')
is_year _ = false

-- The text before such a year at its end. These bytes are ASCII, so they are the last five characters.
unfoldable pub before_year : Text → Option Text
before_year [] = none
before_year (c ∷ s) =
    let rest = before_year s in
    if is_year (c ∷ s) then some [] else map_some (λ front. c ∷ front) rest

unfoldable pub strip_trailing_year : Text → Text
strip_trailing_year p = unwrap_or (before_year (trim_end_matches is_whitespace p)) p

module _ (u : Unicode) where
  -- Whether a product or an organization has the person in its name.
  unfoldable pub is_compound : List Text → Text → Bool
  is_compound product_or_org_texts person =
      any
        (λ po.
          not (text_eq (u.to_lowercase po) (u.to_lowercase person))
          && contains (u.to_lowercase person) (u.to_lowercase po))
        product_or_org_texts

  unfoldable pub filter_person_in_product : List Text → List Text → List Text
  filter_person_in_product people product_or_org_texts =
      dedupe u.to_lowercase (λ n. false)
        (retain (λ person. not (is_compound product_or_org_texts person)) people)

  -- `extract_ner` behind the inference.
  unfoldable pub ner_output : List Span → NerOutput
  ner_output spans =
      let people = map strip_trailing_year (texts_of (codes "person" ∷ []) spans) in
      let products = texts_of (codes "product" ∷ codes "organization" ∷ []) spans in
      record {
        people = filter_person_in_product people products;
        action_items =
            dedupe (λ t. t) (λ n. false)
              (texts_of (codes "action item" ∷ codes "task to do" ∷ []) spans);
      }

-- `extract_dates` behind the search, which gives the matches of each pattern in turn.
abbrev pub all_matches : List (List Text) → List Text
all_matches [] = []
all_matches (ms ∷ mss) = ms ++ all_matches mss

unfoldable pub dates_of : List (List Text) → List Text
dates_of matches = dedupe (λ t. t) (λ n. false) (drop_empty (map trim (all_matches matches)))
