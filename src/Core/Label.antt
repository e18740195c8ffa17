-- ===== src/Core/Label.antt =====
-- crates/kengram-core/src/scope.rs and crates/kengram-core/src/source.rs: the two labels of a
-- thought, each a text with a bound on its length in bytes.
pub mod Bounds
pub mod Tests
use k_engram.Prelude.{ℕ, ltb, if◌then◌else◌, is_empty, Result, ok, err}
use k_engram.Text.{Text, codes, byte_len}

pub record Scope : Type 0 where
  pub text : Text

pub data ScopeError : Type 0 where
  empty : ScopeError
  too_long : ℕ → ScopeError

-- `Scope::MAX_LEN`.
abbrev pub scope_max_len : ℕ
scope_max_len = 256

-- `Scope::new`.
unfoldable pub new_scope : Text → Result ScopeError Scope
new_scope s =
    if is_empty s
    then err empty
    else if ltb scope_max_len (byte_len s)
    then err (too_long (byte_len s))
    else ok (record { text = s })

-- `Scope::global`, the default.
unfoldable pub global : Scope
global = record { text = codes "global" }

pub record Source : Type 0 where
  pub text : Text

pub data SourceError : Type 0 where
  source_empty : SourceError
  source_too_long : ℕ → SourceError

abbrev pub source_max_len : ℕ
source_max_len = 128

-- `Source::new`.
unfoldable pub new_source : Text → Result SourceError Source
new_source s =
    if is_empty s
    then err source_empty
    else if ltb source_max_len (byte_len s)
    then err (source_too_long (byte_len s))
    else ok (record { text = s })
