-- ===== src/Mcp/Expansion/Hyde.antt =====
-- The route and the hypothetical passage of `normalize_expansion_output` in
-- crates/kengram-mcp/src/query_expansion.rs.
use k_engram.Prelude.{
  if_none-some, ℕ, ◌≤◌, Bool, true, false, ◌||◌, not, List, [], ◌∷◌, Option, none, some, ◌≡◌, refl,
  sym, ◌∙◌, ap, subst, inl, inr, arith, Bool-cases, is_empty, length, length-take, any, In,
}
use k_engram.Text.{Text, codes, elem, trim, to_ascii_lowercase}
use k_engram.Text.Laws.{In-of_elem}
use k_engram.Unicode.{Unicode}
use k_engram.Mcp.Expansion.{
  QueryExpansionOutput, known_routes, normalize_route, truncate_chars, identifier_terms,
  contains_unknown_identifier, normalize_hyde, allowed_identifiers, normalize_expansion_output,
}

length-truncate_chars : (value : Text) (n : ℕ) → length (truncate_chars value n) ≤ n
unfolding truncate_chars
length-truncate_chars value n = ground (arith, length-take n value)

any-false :
    {A : Type 0} (p : A → Bool) (a : A) (xs : List A) → any p xs ≡ false → In a xs → p a ≡ false
any-false p a [] h m = absurd m
any-false p a (x ∷ xs) h (inl e) = ap p e ∙ ground arith
any-false p a (x ∷ xs) h (inr m) = any-false p a xs (ground arith) m

-- A text that brings in no identifier that the query does not have.
abbrev pub NoNews : Unicode → Text → Text → Type 0
NoNews u query text =
    (ident : Text)
    → In ident (identifier_terms u text)
    → elem (to_ascii_lowercase ident) (allowed_identifiers u query) ≡ true

normalize_hyde_lem :
    (u : Unicode) (query : Text) (hyde : Option Text) (max_chars : ℕ) (w : Text)
    → normalize_hyde u hyde max_chars (allowed_identifiers u query) ≡ some w
    → (length w ≤ max_chars) × NoNews u query w
unfolding normalize_hyde contains_unknown_identifier
normalize_hyde_lem u query none max_chars w e = cc
normalize_hyde_lem u query (some value) max_chars w e =
    let cut = truncate_chars (trim value) max_chars in
    let allowed = allowed_identifiers u query in
    let (passed, same) =
      if_none-some (is_empty (trim value) || contains_unknown_identifier u cut allowed) cut w e in
    (
      subst (λ t. length t ≤ max_chars) same (length-truncate_chars (trim value) max_chars),
      λ ident m.
          let known : not (elem (to_ascii_lowercase ident) allowed) ≡ false =
            any-false (λ i. not (elem (to_ascii_lowercase i) allowed)) ident
              (identifier_terms u cut) (ground arith)
              (subst (λ t. In ident (identifier_terms u t)) (sym same) m) in
          ground arith,
    )

normalize_route_known : (route : Option Text) → In (normalize_route route) known_routes
unfolding normalize_route elem
normalize_route_known none = In-of_elem (codes "broad") known_routes refl
normalize_route_known (some route) =
    elim (Bool-cases (elem (to_ascii_lowercase (trim route)) known_routes)) [
      | inl e ↦ rw e (In-of_elem (to_ascii_lowercase (trim route)) known_routes e)
      | inr e ↦ rw e (In-of_elem (codes "broad") known_routes refl)
    ]

-- A hypothetical passage is only there if it is enabled; it has at most the configured number of
-- characters, and brings in no identifier that the query does not have. The route is one of the
-- seven known ones.
pub normalize_expansion_output_lem :
    (u : Unicode) (query : Text) (raw : QueryExpansionOutput) (max_variants max_chars : ℕ)
    (enabled : Bool)
    → In
        (normalize_expansion_output u query raw max_variants enabled max_chars).normal_route
        known_routes
      × ((w : Text)
          → (normalize_expansion_output u query raw max_variants enabled max_chars).normal_hyde
            ≡ some w
          → (enabled ≡ true) × (length w ≤ max_chars) × NoNews u query w)
unfolding normalize_expansion_output
normalize_expansion_output_lem u query raw max_variants max_chars true = (
  normalize_route_known raw.route,
  λ w e.
      let (short, known) = normalize_hyde_lem u query raw.hyde max_chars w e in
      (refl, short, known),
)
normalize_expansion_output_lem u query raw max_variants max_chars false =
    (normalize_route_known raw.route, λ w e. cc)
