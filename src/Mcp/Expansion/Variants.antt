-- ===== src/Mcp/Expansion/Variants.antt =====
-- The rewrites that `normalize_variant_list` of crates/kengram-mcp/src/query_expansion.rs keeps.
use k_engram.Prelude.{
  if_none-some, ℕ, ◌≤◌, ◌<◌, true, false, ◌||◌, List, [], ◌∷◌, ◌++◌, map, some, ◌≡◌, subst, inl,
  inr, arith, ◌==◌, Bool-cases, is_empty, length, All, In, filter_map, filter_map-All,
  In-filter_map,
}
use mathlib.Core.List.{map-append, append_assoc}
use k_engram.Text.{
  Text, elem, trim, contains, to_ascii_lower, to_ascii_lowercase, eq_ignore_ascii_case,
}
use k_engram.Text.Laws.{contains-append, contains_behind}
use k_engram.Unicode.{Unicode}
use k_engram.Dedupe.{Unique, dedupe-Unique, dedupe-All, dedupe-never_full, length-dedupe}
use k_engram.Mcp.Expansion.{
  truncate_chars, push_one, push_missing, preserve_identifiers, identifier_terms,
  contains_unknown_identifier, variant_of, normalize_variant_list, dedupe_lowercase_limited,
}

-- A text names an identifier, up to ASCII case.
abbrev pub Names : Text → Text → Type 0
Names text ident = contains (to_ascii_lowercase ident) (to_ascii_lowercase text) ≡ true

Names-append : (text more ident : Text) → Names text ident → Names (text ++ more) ident
unfolding to_ascii_lowercase
Names-append text more ident h = rw map-append (
    contains-append (to_ascii_lowercase ident) (to_ascii_lowercase text) (map to_ascii_lower more)
      h)

Names-behind : (text ident : Text) → Names (text ++ (b' ' ∷ ident)) ident
unfolding to_ascii_lowercase
Names-behind text ident = rw map-append (
    rw append_assoc at (
      contains_behind (to_ascii_lowercase ident)
        (map to_ascii_lower text ++ to_ascii_lower b' ' ∷ [])))

push_missing_keeps :
    (lower candidate ident : Text) (idents : List Text)
    → Names candidate ident
    → Names (push_missing lower candidate idents) ident
unfolding push_missing
push_missing_keeps lower candidate ident [] h = h
push_missing_keeps lower candidate ident (i ∷ is) h =
    push_missing_keeps lower (push_one lower candidate i) ident is
      (elim (Bool-cases (contains (to_ascii_lowercase i) lower)) [
        | inl e ↦ rw e h
        | inr e ↦ rw e (Names-append candidate (b' ' ∷ i) ident h)
      ])

push_missing-Names :
    (original candidate ident : Text) (idents : List Text)
    → ((i : Text) → Names original i → Names candidate i)
    → In ident idents
    → Names (push_missing (to_ascii_lowercase original) candidate idents) ident
unfolding push_missing
push_missing-Names original candidate ident (i ∷ is) grown (inl same) =
    push_missing_keeps (to_ascii_lowercase original)
      (push_one (to_ascii_lowercase original) candidate i) ident is
      (elim (Bool-cases (contains (to_ascii_lowercase i) (to_ascii_lowercase original))) [
        | inl e ↦ rw (e, same) (grown i e)
        | inr e ↦ rw (e, same) (Names-behind candidate i)
      ])
push_missing-Names original candidate ident (i ∷ is) grown (inr later) =
    push_missing-Names original (push_one (to_ascii_lowercase original) candidate i) ident is
      (λ j h. elim (Bool-cases (contains (to_ascii_lowercase i) (to_ascii_lowercase original))) [
        | inl e ↦ rw e (grown j h)
        | inr e ↦ rw e (Names-append candidate (b' ' ∷ i) j (grown j h))
      ])
      later
push_missing-Names original candidate ident [] grown m = absurd m

-- Every identifier is named by the text with the missing ones pushed behind.
pub preserve_identifiers-Names :
    (candidate ident : Text) (idents : List Text)
    → In ident idents
    → Names (preserve_identifiers candidate idents) ident
unfolding preserve_identifiers
preserve_identifiers-Names candidate ident idents m =
    push_missing-Names candidate candidate ident idents (λ i h. h) m

module _ (u : Unicode) (query : Text) (allowed : List Text) where
  -- What a kept rewrite is: it names every identifier of the query, and is not the query itself.
  abbrev pub IsVariant : Text → Type 0
  IsVariant w =
      ((ident : Text) → In ident (identifier_terms u query) → Names w ident)
      × (eq_ignore_ascii_case w query ≡ false)

  variant_of-IsVariant : (value w : Text) → variant_of u query allowed value ≡ some w → IsVariant w
  unfolding variant_of
  variant_of-IsVariant value w e =
      let cut = truncate_chars (trim value) 180 in
      let full = preserve_identifiers cut (identifier_terms u query) in
      let (passed, same) =
        if_none-some
          (is_empty (trim value)
            || contains_unknown_identifier u cut allowed
            || eq_ignore_ascii_case full query)
          full w e in
      (
        λ ident m.
            subst (λ t. Names t ident) same
              (preserve_identifiers-Names cut ident (identifier_terms u query) m),
        subst (λ t. eq_ignore_ascii_case t query ≡ false) same (ground arith),
      )

  -- The kept rewrites are at most as many as asked for, if any are; no two are equal up to ASCII
  -- case; none is the query; and each names every identifier of the query, which the model may not
  -- lose.
  pub normalize_variant_list_lem :
      (values : List Text) (max_variants : ℕ)
      → 0 < max_variants
      → (length (normalize_variant_list u query values max_variants allowed) ≤ max_variants)
        × Unique
            (map to_ascii_lowercase (normalize_variant_list u query values max_variants allowed))
        × All IsVariant (normalize_variant_list u query values max_variants allowed)
  unfolding normalize_variant_list dedupe_lowercase_limited
  normalize_variant_list_lem values max_variants some_wanted =
      let made = filter_map (variant_of u query allowed) values in
      (
        length-dedupe to_ascii_lowercase (λ n. n == max_variants) max_variants made (ground arith)
            some_wanted,
        dedupe-Unique to_ascii_lowercase (λ n. n == max_variants) made,
        dedupe-All to_ascii_lowercase (λ n. n == max_variants) IsVariant made
            (All-map_of made (filter_map-All (variant_of u query allowed) values)),
      )
    where
      All-map_of :
          (ws : List Text)
          → All (λ w. (raw : Text) × In raw values × (variant_of u query allowed raw ≡ some w)) ws
          → All IsVariant ws
      All-map_of [] h = tt
      All-map_of (w ∷ ws) h =
          let (raw, m, e) = h.0 in (variant_of-IsVariant raw w e, All-map_of ws h.1)

  -- With a limit of zero the loop never stops early: the key of every rewrite that passes is kept,
  -- however many there are.
  pub normalize_variant_list-zero :
      (values : List Text) (value w : Text)
      → In value values
      → variant_of u query allowed value ≡ some w
      → elem
          (to_ascii_lowercase w)
          (map to_ascii_lowercase (normalize_variant_list u query values 0 allowed))
        ≡ true
  unfolding normalize_variant_list dedupe_lowercase_limited
  normalize_variant_list-zero values value w m e =
      dedupe-never_full to_ascii_lowercase (λ n. n == 0) (λ n. ground arith) w
        (filter_map (variant_of u query allowed) values)
        (In-filter_map (variant_of u query allowed) values value w m e)
