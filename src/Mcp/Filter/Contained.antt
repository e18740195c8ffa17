-- ===== src/Mcp/Filter/Contained.antt =====
-- Containment of JSON documents, the filter of crates/kengram-mcp/src/search.rs, as an order.
use k_engram.Prelude.{
  Bool, true, false, ◌||◌, ◌≡◌, refl, sym, ap, subst, Option, none, some, Bool-cases, and_true,
  true_and, ◌⊎◌, inl, inr,
}
use k_engram.Text.{Text, text_eq}
use k_engram.Text.Laws.{eq_of_text_eq}
use k_engram.Core.Json.{
  Value, Items, Fields, null, bool, number, string, array, object, nil, cons, end, field, get_field,
}
use k_engram.Core.Tags.{Tags}
use k_engram.Mcp.Filter.{
  scalar_eq, any_item, is_some_and, json_contains, all_items, all_fields, tags_value,
  tags_match_filter,
}

or_right : (a : Bool) → (a || true) ≡ true
or_right true = refl
or_right false = refl

or_true : (a b : Bool) → (a || b) ≡ true → (a ≡ true) ⊎ (b ≡ true)
or_true true b e = inl refl
or_true false b e = inr e

-- Neither an array nor an object.
abbrev IsScalar : Value → Type 0
IsScalar (array h) = ⊥
IsScalar (object h) = ⊥
IsScalar _ = Unit

scalar_eq_sound : (b c : Value) → scalar_eq b c ≡ true → b ≡ c
unfolding scalar_eq
scalar_eq_sound null null e = refl
scalar_eq_sound (bool true) (bool true) e = refl
scalar_eq_sound (bool false) (bool false) e = refl
scalar_eq_sound (number m) (number n) e = ap number (eq_of_text_eq m n e)
scalar_eq_sound (string m) (string n) e = ap string (eq_of_text_eq m n e)
scalar_eq_sound _ _ e = absurd (cc e)

contains-scalar : (b c : Value) → IsScalar c → json_contains b c ≡ true → b ≡ c
unfolding json_contains
contains-scalar (array m) (array n) s e = absurd s
contains-scalar (object m) (object n) s e = absurd s
contains-scalar b c s e = scalar_eq_sound b c e

contains-array :
    (b : Value) (n : Items)
    → json_contains b (array n) ≡ true
    → (m : Items) × (b ≡ array m) × (all_items m n ≡ true)
unfolding json_contains scalar_eq
contains-array (array m) n e = (m, refl, e)
contains-array (bool true) n e = absurd (cc e)
contains-array (bool false) n e = absurd (cc e)
contains-array _ n e = absurd (cc e)

contains-object :
    (b : Value) (n : Fields)
    → json_contains b (object n) ≡ true
    → (m : Fields) × (b ≡ object m) × (all_fields m n ≡ true)
unfolding json_contains scalar_eq
contains-object (object m) n e = (m, refl, e)
contains-object (bool true) n e = absurd (cc e)
contains-object (bool false) n e = absurd (cc e)
contains-object _ n e = absurd (cc e)

any_item_mono :
    (p q : Value → Bool) (h : Items)
    → ((v : Value) → p v ≡ true → q v ≡ true)
    → any_item p h ≡ true
    → any_item q h ≡ true
unfolding any_item
any_item_mono p q nil f e = cc
any_item_mono p q (cons v vs) f e = elim (or_true (p v) (any_item p vs) e) [
  | inl first ↦ rw (f v first) refl
  | inr later ↦ rw (any_item_mono p q vs f later) (or_right (q v))
]

is_some_and_mono :
    (o : Option Value) (p q : Value → Bool)
    → ((v : Value) → p v ≡ true → q v ≡ true)
    → is_some_and o p ≡ true
    → is_some_and o q ≡ true
is_some_and_mono none p q f e = cc
is_some_and_mono (some v) p q f e = f v e

-- An element found in `m` that passes has one above it in an `h` that contains `m`.
any_through :
    (p q : Value → Bool) (h m : Items)
    → ((hv mv : Value) → json_contains hv mv ≡ true → p mv ≡ true → q hv ≡ true)
    → all_items h m ≡ true
    → any_item p m ≡ true
    → any_item q h ≡ true
unfolding json_contains any_item
any_through p q h nil f inside found = cc
any_through p q h (cons mv m) f inside found =
    let (first, others) =
      and_true (any_item (λ hv. json_contains hv mv) h) (all_items h m) inside in
    elim (or_true (p mv) (any_item p m) found) [
      | inl here ↦ any_item_mono (λ hv. json_contains hv mv) q h (λ hv c. f hv mv c here) first
      | inr later ↦ any_through p q h m f others later
    ]

field_through :
    (p q : Value → Bool) (key : Text) (h m : Fields)
    → ((hv mv : Value) → json_contains hv mv ≡ true → p mv ≡ true → q hv ≡ true)
    → all_fields h m ≡ true
    → is_some_and (get_field m key) p ≡ true
    → is_some_and (get_field h key) q ≡ true
unfolding json_contains get_field
field_through p q key h end f inside found = cc
field_through p q key h (field k mv m) f inside found =
    let (first, others) =
      and_true (is_some_and (get_field h k) (λ hv. json_contains hv mv)) (all_fields h m) inside in
    elim (Bool-cases (text_eq k key)) [
      | inl same ↦
          subst (λ key. is_some_and (get_field h key) q ≡ true) (eq_of_text_eq k key same)
            (is_some_and_mono (get_field h k) (λ hv. json_contains hv mv) q
              (λ hv c. f hv mv c (rw same at found)) first)
      | inr other ↦ field_through p q key h m f others (rw other at found)
    ]

mutual
  unfolding json_contains

  contains_trans :
      (c b a : Value)
      → json_contains a b ≡ true
      → json_contains b c ≡ true
      → json_contains a c ≡ true
  contains_trans null b a p q =
      subst (λ b. json_contains a b ≡ true) (contains-scalar b null tt q) p
  contains_trans (bool x) b a p q =
      subst (λ b. json_contains a b ≡ true) (contains-scalar b (bool x) tt q) p
  contains_trans (number x) b a p q =
      subst (λ b. json_contains a b ≡ true) (contains-scalar b (number x) tt q) p
  contains_trans (string x) b a p q =
      subst (λ b. json_contains a b ≡ true) (contains-scalar b (string x) tt q) p
  contains_trans (array n) b a p q =
      let (m, eb, q') = contains-array b n q in
      let (h, ea, p') = contains-array a m (subst (λ b. json_contains a b ≡ true) eb p) in
      subst (λ a. json_contains a (array n) ≡ true) (sym ea) (items_trans n m h p' q')
  contains_trans (object n) b a p q =
      let (m, eb, q') = contains-object b n q in
      let (h, ea, p') = contains-object a m (subst (λ b. json_contains a b ≡ true) eb p) in
      subst (λ a. json_contains a (object n) ≡ true) (sym ea) (fields_trans n m h p' q')

  items_trans : (n m h : Items) → all_items h m ≡ true → all_items m n ≡ true → all_items h n ≡ true
  items_trans nil m h p q = refl
  items_trans (cons nv n) m h p q =
      let (first, others) = and_true (any_item (λ mv. json_contains mv nv) m) (all_items m n) q in
      true_and (any_item (λ hv. json_contains hv nv) h) (all_items h n)
        (any_through (λ mv. json_contains mv nv) (λ hv. json_contains hv nv) h m
          (λ hv mv. contains_trans nv mv hv) p first)
        (items_trans n m h p others)

  fields_trans :
      (n m h : Fields) → all_fields h m ≡ true → all_fields m n ≡ true → all_fields h n ≡ true
  fields_trans end m h p q = refl
  fields_trans (field k v n) m h p q =
      let (first, others) =
        and_true (is_some_and (get_field m k) (λ mv. json_contains mv v)) (all_fields m n) q in
      true_and (is_some_and (get_field h k) (λ hv. json_contains hv v)) (all_fields h n)
        (field_through (λ mv. json_contains mv v) (λ hv. json_contains hv v) k h m
          (λ hv mv. contains_trans v mv hv) p first)
        (fields_trans n m h p others)

-- Widening a filter loses no thought: if a filter contains another, tags that match the first match
-- the second.
pub tags_match_filter_mono :
    (tags : Tags) (narrow wide : Value)
    → json_contains narrow wide ≡ true
    → tags_match_filter tags narrow ≡ true
    → tags_match_filter tags wide ≡ true
unfolding tags_match_filter
tags_match_filter_mono tags narrow wide inside match =
    contains_trans wide narrow (tags_value tags) match inside
