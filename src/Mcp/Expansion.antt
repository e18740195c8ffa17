-- ===== src/Mcp/Expansion.antt =====
-- crates/kengram-mcp/src/query_expansion.rs: the cleaning of a language model's rewrites of a query.
-- The calls of the model itself are not part of it.
pub mod Variants
pub mod Hyde
pub mod Tests
use k_engram.Prelude.{
  ℕ, suc, Bool, true, false, ◌&&◌, ◌||◌, not, List, [], ◌∷◌, ◌++◌, map, Option, none, some, ◌==◌,
  ltb, leb, if◌then◌else◌, is_empty, length, any, all, take, filter_map,
}
use k_engram.Text.{
  Text, codes, elem, byte_len, trim, trim_matches, trim_start_matches, split, drop_empty, ends_with,
  contains, strip_prefix, starts_with, to_ascii_lowercase, eq_ignore_ascii_case, is_ascii_digit,
  is_ascii_alphabetic, is_ascii_hexdigit,
}
use k_engram.Unicode.{Unicode}
use k_engram.Dedupe.{dedupe}

pub record QueryExpansionOutput : Type 0 where
  pub route : Option Text
  pub queries : List Text
  pub hyde : Option Text
  pub decomposition : List Text

pub record NormalizedQueryExpansion : Type 0 where
  pub normal_route : Text
  pub normal_queries : List Text
  pub normal_hyde : Option Text
  pub normal_decomposition : List Text

abbrev quotes_and_brackets : Text
quotes_and_brackets = codes "'\"`()[]{}<>.,;!?"

unfoldable pub clean_token : Text → Text
clean_token token = trim_matches (λ ch. any (λ c. c == ch) quotes_and_brackets) (trim token)

unfoldable pub looks_like_hash : Text → Bool
looks_like_hash value =
    leb 7 (byte_len value) && leb (byte_len value) 40 && all is_ascii_hexdigit value

abbrev path_suffixes : List Text
path_suffixes =
    codes ".md"
    ∷ codes ".json"
    ∷ codes ".toml"
    ∷ codes ".rs"
    ∷ codes ".ts"
    ∷ codes ".tsx"
    ∷ codes ".py"
    ∷ codes ".sql"
    ∷ codes ".yaml"
    ∷ codes ".yml"
    ∷ codes ".sh"
    ∷ []

unfoldable pub looks_like_file_path : Text → Bool
looks_like_file_path value =
    any (λ suffix. ends_with suffix (to_ascii_lowercase value)) path_suffixes
    || ltb 1 (length (drop_empty (split (λ c. c == b'/') value)))

unfoldable pub is_strong_identifier : Text → Bool
is_strong_identifier value =
    if ltb (byte_len value) 3
    then false
    else (any is_ascii_alphabetic value && any is_ascii_digit value)
      || looks_like_hash value
      || looks_like_file_path value

-- The second half of both copies of `dedupe_lowercase_limited` and of `normalize_variant_list`.
unfoldable pub dedupe_lowercase_limited : List Text → ℕ → List Text
dedupe_lowercase_limited values limit = dedupe to_ascii_lowercase (λ n. n == limit) values

unfoldable pub truncate_chars : Text → ℕ → Text
truncate_chars value max_chars =
    if leb (length value) max_chars then value else take max_chars value

-- The loop of `preserve_identifiers` over the identifiers; `lower` is made before it.
abbrev pub push_one : Text → Text → Text → Text
push_one lower candidate ident =
    if contains (to_ascii_lowercase ident) lower then candidate else candidate ++ (b' ' ∷ ident)

unfoldable pub push_missing : Text → Text → List Text → Text
push_missing lower candidate [] = candidate
push_missing lower candidate (ident ∷ idents) =
    push_missing lower (push_one lower candidate ident) idents

unfoldable pub preserve_identifiers : Text → List Text → Text
preserve_identifiers candidate identifiers =
    push_missing (to_ascii_lowercase candidate) candidate identifiers

abbrev pub known_routes : List Text
known_routes =
    codes "exact"
    ∷ codes "semantic"
    ∷ codes "domain"
    ∷ codes "recency"
    ∷ codes "multi_hop"
    ∷ codes "contextual"
    ∷ codes "broad"
    ∷ []

unfoldable pub normalize_route : Option Text → Text
normalize_route none = codes "broad"
normalize_route (some route) =
    if elem (to_ascii_lowercase (trim route)) known_routes
    then to_ascii_lowercase (trim route)
    else codes "broad"

-- `rest.strip_suffix("```").unwrap_or(rest)`.
unfoldable pub without_suffix : Text → Text → Text
without_suffix suffix [] = []
without_suffix suffix (c ∷ s) =
    let rest = without_suffix suffix s in
    if ends_with suffix (c ∷ s) && length suffix == length (c ∷ s) then [] else c ∷ rest

abbrev fence : Text
fence = codes "```"

-- The text behind the first of two prefixes that it has.
abbrev unfenced : Text → Option Text → Option Text → Text
unfenced trimmed (some rest) bare = trim (without_suffix fence rest)
unfenced trimmed none (some rest) = trim (without_suffix fence rest)
unfenced trimmed none none = trimmed

unfoldable pub strip_json_code_fence : Text → Text
strip_json_code_fence s =
    unfenced (trim s) (strip_prefix (codes "```json") (trim s)) (strip_prefix fence (trim s))

module _ (u : Unicode) where
  open u use {is_alphanumeric}

  abbrev pub starts_token : ℕ → Bool
  starts_token ch = is_alphanumeric ch || ch == b'_' || ch == b'#'

  abbrev pub continues_token : ℕ → Bool
  continues_token ch = is_alphanumeric ch || any (λ c. c == ch) (codes "_.:/#-")

  -- The token that the loop of `raw_tokens` holds behind a character.
  abbrev next_current : Text → ℕ → Text
  next_current [] ch = if starts_token ch then ch ∷ [] else []
  next_current (c ∷ cs) ch = if continues_token ch then (c ∷ cs) ++ ch ∷ [] else []

  unfoldable pub tokens_from : Text → Text → List Text
  tokens_from current [] = if is_empty current then [] else current ∷ []
  tokens_from current (ch ∷ s) =
      let rest = tokens_from (next_current current ch) s in
      if not (is_empty current) && not (continues_token ch) then current ∷ rest else rest

  unfoldable pub raw_tokens : Text → List Text
  raw_tokens query = tokens_from [] query

  -- `PR {next}` behind the token `pr`, if the next token is a number.
  abbrev pub pull_request : Text → List Text → List Text
  pull_request token [] = []
  pull_request token (raw ∷ raws) =
      if eq_ignore_ascii_case token (codes "pr")
        && all is_ascii_digit (trim_start_matches (λ c. c == b'#') (clean_token raw))
      then (codes "PR " ++ clean_token raw) ∷ []
      else []

  unfoldable pub identifier_loop : List Text → List Text
  identifier_loop [] = []
  identifier_loop (raw ∷ raws) =
      let rest = identifier_loop raws in
      let token = clean_token raw in
      if is_empty token
      then rest
      else pull_request token raws
        ++ ((if is_strong_identifier token then token ∷ [] else []) ++ rest)

  unfoldable pub identifier_terms : Text → List Text
  identifier_terms query = dedupe_lowercase_limited (identifier_loop (raw_tokens query)) 16

  unfoldable pub contains_unknown_identifier : Text → List Text → Bool
  contains_unknown_identifier value allowed =
      any (λ ident. not (elem (to_ascii_lowercase ident) allowed)) (identifier_terms value)

  -- One round of the loop of `normalize_variant_list` up to its `seen`; none is a `continue`.
  unfoldable pub variant_of : Text → List Text → Text → Option Text
  variant_of original_query allowed value =
      let cut = truncate_chars (trim value) 180 in
      let full = preserve_identifiers cut (identifier_terms original_query) in
      if is_empty (trim value)
        || contains_unknown_identifier cut allowed
        || eq_ignore_ascii_case full original_query
      then none
      else some full

  unfoldable pub normalize_variant_list : Text → List Text → ℕ → List Text → List Text
  normalize_variant_list original_query values max_variants allowed =
      dedupe_lowercase_limited (filter_map (variant_of original_query allowed) values) max_variants

  unfoldable pub normalize_hyde : Option Text → ℕ → List Text → Option Text
  normalize_hyde none max_hyde_chars allowed = none
  normalize_hyde (some value) max_hyde_chars allowed =
      let cut = truncate_chars (trim value) max_hyde_chars in
      if is_empty (trim value) || contains_unknown_identifier cut allowed then none else some cut

  unfoldable pub allowed_identifiers : Text → List Text
  allowed_identifiers query = map to_ascii_lowercase (identifier_terms query)

  unfoldable pub normalize_expansion_output :
      Text → QueryExpansionOutput → ℕ → Bool → ℕ → NormalizedQueryExpansion
  normalize_expansion_output original_query raw max_variants hyde_enabled max_hyde_chars =
      let allowed = allowed_identifiers original_query in
      record {
        normal_route = normalize_route raw.route;
        normal_queries = normalize_variant_list original_query raw.queries max_variants allowed;
        normal_hyde = if hyde_enabled then normalize_hyde raw.hyde max_hyde_chars allowed else none;
        normal_decomposition =
            normalize_variant_list original_query raw.decomposition max_variants allowed;
      }
