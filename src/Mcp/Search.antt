-- ===== src/Mcp/Search.antt =====
-- Dates, aliases, common words and pairs among the tokens of a query in
-- crates/kengram-mcp/src/search.rs.
pub mod Terms
pub mod Words
pub mod Dates
pub mod Tests
use k_engram.Prelude.{
  ℕ, zero, suc, ◌+◌, ◌-◌, Bool, true, false, ◌&&◌, List, [], ◌∷◌, ◌++◌, map, Option, none, some,
  ◌==◌, ltb, leb, if◌then◌else◌, all,
}
use k_engram.Text.{
  Text, codes, elem, text_eq, byte_len, len_utf8, eq_ignore_ascii_case, is_ascii_digit,
}

abbrev pub pairwise_max_subqueries : ℕ
pairwise_max_subqueries = 8

abbrev pub put_before : ℕ → Option (Text × Text) → Option (Text × Text)
put_before c none = none
put_before c (some (before, behind)) = some (c ∷ before, behind)

-- The texts before and behind the byte `n`; none where `n` is within a character or behind the end.
unfoldable pub split_at_byte : ℕ → Text → Option (Text × Text)
unfolding len_utf8
split_at_byte n [] = if n == 0 then some ([], []) else none
split_at_byte n (c ∷ s) =
    let rest = split_at_byte (n - len_utf8 c) s in
    if n == 0 then some ([], c ∷ s) else if ltb n (len_utf8 c) then none else put_before c rest

abbrev pub front_of : Option (Text × Text) → Option Text
front_of none = none
front_of (some (front, behind)) = some front

abbrev pub cut_behind : Option (Text × Text) → ℕ → Option Text
cut_behind none n = none
cut_behind (some (before, behind)) n = front_of (split_at_byte n behind)

-- `value.get(from..to)`, and `&value[from..to]`, which panics where this is none.
unfoldable pub byte_slice : ℕ → ℕ → Text → Option Text
byte_slice from to value = cut_behind (split_at_byte from value) (to - from)

abbrev pub is_dash : Option Text → Bool
is_dash none = false
is_dash (some slice) = text_eq slice (codes "-")

-- A Boolean that may panic, which none stands for; `&&` looks at the second only after a true first.
abbrev pub and_panic : Option Bool → Option Bool → Option Bool
and_panic none second = none
and_panic (some true) second = second
and_panic (some false) second = some false

abbrev pub digits_of : Option Text → Option Bool
digits_of none = none
digits_of (some slice) = some (all is_ascii_digit slice)

unfoldable pub looks_like_date : Text → Option Bool
looks_like_date value =
    if leb 10 (byte_len value) && is_dash (byte_slice 4 5 value) && is_dash (byte_slice 7 8 value)
    then and_panic (digits_of (byte_slice 0 4 value))
        (and_panic (digits_of (byte_slice 5 7 value)) (digits_of (byte_slice 8 10 value)))
    else some false

unfoldable pub pairwise_aliases : Text → List Text
pairwise_aliases value =
    if text_eq value (codes "a2a")
    then codes "agent comms" ∷ codes "agent communication" ∷ codes "AGENT_COMMS" ∷ []
    else if text_eq value (codes "fts")
    then codes "full text search" ∷ codes "lexical search" ∷ codes "lexical" ∷ []
    else if text_eq value (codes "kengram")
    then codes "kEngram" ∷ codes "memory" ∷ codes "search_thoughts" ∷ []
    else if text_eq value (codes "mcp")
    then codes "tools call" ∷ codes "tools list" ∷ codes "model context protocol" ∷ []
    else if text_eq value (codes "pr")
    then codes "pull request" ∷ []
    else if text_eq value (codes "reranker")
    then codes "cross encoder" ∷ codes "cross-encoder" ∷ codes "TEI" ∷ []
    else if text_eq value (codes "smith")
    then codes "agents/smith" ∷ []
    else []

abbrev stopwords : List Text
stopwords =
    codes "a"
    ∷ codes "about"
    ∷ codes "after"
    ∷ codes "all"
    ∷ codes "an"
    ∷ codes "and"
    ∷ codes "are"
    ∷ codes "as"
    ∷ codes "ask"
    ∷ codes "asked"
    ∷ codes "at"
    ∷ codes "be"
    ∷ codes "before"
    ∷ codes "by"
    ∷ codes "can"
    ∷ codes "could"
    ∷ codes "current"
    ∷ codes "did"
    ∷ codes "do"
    ∷ codes "does"
    ∷ codes "for"
    ∷ codes "from"
    ∷ codes "had"
    ∷ codes "has"
    ∷ codes "have"
    ∷ codes "how"
    ∷ codes "in"
    ∷ codes "into"
    ∷ codes "is"
    ∷ codes "it"
    ∷ codes "its"
    ∷ codes "me"
    ∷ codes "of"
    ∷ codes "on"
    ∷ codes "or"
    ∷ codes "right"
    ∷ codes "should"
    ∷ codes "so"
    ∷ codes "that"
    ∷ codes "the"
    ∷ codes "their"
    ∷ codes "there"
    ∷ codes "this"
    ∷ codes "to"
    ∷ codes "use"
    ∷ codes "used"
    ∷ codes "was"
    ∷ codes "were"
    ∷ codes "what"
    ∷ codes "when"
    ∷ codes "where"
    ∷ codes "which"
    ∷ codes "who"
    ∷ codes "why"
    ∷ codes "with"
    ∷ []

unfoldable pub is_pairwise_stopword : Text → Bool
is_pairwise_stopword lower = elem lower stopwords

unfoldable pub windows : List Text → List (Text × Text)
windows [] = []
windows (a ∷ []) = []
windows (a ∷ b ∷ ts) = (a, b) ∷ windows (b ∷ ts)

-- Two terms with a space between them, unless they are one.
abbrev pub pair_of : Text × Text → Option Text
pair_of (a, b) = if eq_ignore_ascii_case a b then none else some (a ++ (b' ' ∷ b))

abbrev with_each : Text → List Text → List (Text × Text)
with_each ident terms = map (λ term. (ident, term)) terms

unfoldable pub all_pairs : List Text → List Text → List (Text × Text)
all_pairs [] terms = []
all_pairs (ident ∷ idents) terms = with_each ident terms ++ all_pairs idents terms
