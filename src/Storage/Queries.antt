-- ===== src/Storage/Queries.antt =====
-- The making of query texts in crates/kengram-storage/src/lib.rs: literals, identifiers, and the text
-- of a full-text query.
pub mod Quoting
pub mod Tests
use k_engram.Prelude.{
  ℕ, Bool, true, false, ◌&&◌, ◌||◌, List, [], ◌∷◌, ◌++◌, map, Option, none, some, ◌==◌,
  if◌then◌else◌, is_empty, all,
}
use k_engram.Text.{Text, trim, is_control, is_whitespace, is_ascii_punctuation}

-- `value.replace(q, qq)` for one character.
unfoldable pub double : ℕ → Text → Text
double q [] = []
double q (c ∷ s) = let rest = double q s in if c == q then q ∷ q ∷ rest else c ∷ rest

unfoldable pub sql_literal : Text → Text
sql_literal value = b'\'' ∷ (double b'\'' value ++ b'\'' ∷ [])

unfoldable pub sql_identifier : Text → Text
sql_identifier value = b'"' ∷ (double b'"' value ++ b'"' ∷ [])

unfoldable pub normalize_fts_query : Text → Option Text
normalize_fts_query query =
    let trimmed = trim (map (λ c. if is_control c then b' ' else c) query) in
    if is_empty trimmed
    then none
    else if all (λ c. is_ascii_punctuation c || is_whitespace c) trimmed
    then none
    else some trimmed
