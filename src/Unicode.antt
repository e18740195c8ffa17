-- ===== src/Unicode.antt =====
-- What Rust's `char` and `str` take from the Unicode tables, as an interface: the tables are no
-- part of the repository. A component that needs them takes a value of `Unicode`.
use k_engram.Prelude.{ℕ, Bool, map}
use k_engram.Text.{Text, to_ascii_lower, is_ascii_upper, is_ascii_lower, is_ascii_alphanumeric}

pub record Unicode : Type 0 where
  -- `str::to_lowercase`, on a whole text: one rule of it looks at the neighbours.
  pub to_lowercase : Text → Text
  pub is_alphanumeric : ℕ → Bool
  pub is_uppercase : ℕ → Bool
  pub is_lowercase : ℕ → Bool

-- The tables cut down to ASCII: the instance of the tests.
abbrev pub ascii : Unicode
ascii = record {
  to_lowercase = map to_ascii_lower;
  is_alphanumeric = is_ascii_alphanumeric;
  is_uppercase = is_ascii_upper;
  is_lowercase = is_ascii_lower;
}
