-- ===== src/Storage/Queries/Quoting.antt =====
-- A quoted text against the rule by which PostgreSQL reads a quoted string or identifier.
use k_engram.Prelude.{
  ℕ, [], ◌∷◌, ◌++◌, Option, none, some, ◌≡◌, ◌≢◌, refl, sym, ◌∙◌, ap, inl, inr, arith, ◌==◌, ==_iff,
  if◌then◌else◌, Bool-cases,
}
use mathlib.Core.List.{append_assoc}
use k_engram.Text.{Text}
use k_engram.Storage.Queries.{double, sql_literal, sql_identifier}

abbrev pub put_first : ℕ → Option (Text × Text) → Option (Text × Text)
put_first c none = none
put_first c (some (value, rest)) = some (c ∷ value, rest)

-- The reader behind an opening quote: two quotes stand for one, and one alone ends the text. It
-- gives the text and what follows.
pub read_quoted : ℕ → Text → Option (Text × Text)
read_quoted q [] = none
read_quoted q (c ∷ []) = if c == q then some ([], []) else none
read_quoted q (c ∷ d ∷ s) =
    let doubled = put_first q (read_quoted q s) in
    let plain = put_first c (read_quoted q (d ∷ s)) in
    if c == q then (if d == q then doubled else some ([], d ∷ s)) else plain

-- What follows a quoted text may not be a quote.
abbrev pub NoQuote : ℕ → Text → Type 0
NoQuote q [] = Unit
NoQuote q (c ∷ s) = c ≢ q

read_quoted_end :
    (q : ℕ) (rest : Text) → NoQuote q rest → read_quoted q (q ∷ rest) ≡ some ([], rest)
unfolding read_quoted
read_quoted_end q [] h = ground arith
read_quoted_end q (c ∷ s) h = ground (arith, h)

read_quoted_plain :
    (q c : ℕ) (s : Text) (r : Text × Text)
    → c ≢ q
    → read_quoted q s ≡ some r
    → read_quoted q (c ∷ s) ≡ some (c ∷ r.0, r.1)
unfolding read_quoted
read_quoted_plain q c [] r n e = cc
read_quoted_plain q c (d ∷ s) r n e = elim (Bool-cases (c == q)) [
  | inl same ↦ absurd (n ((==_iff c q).0 same))
  | inr other ↦ rw (other, e) refl
]

read_quoted_double :
    (q : ℕ) (s : Text) (r : Text × Text)
    → read_quoted q s ≡ some r
    → read_quoted q (q ∷ q ∷ s) ≡ some (q ∷ r.0, r.1)
unfolding read_quoted
read_quoted_double q s r e = rw ((==_iff q q).1 refl, e) refl

-- A quoted text is read back as it was, up to its end: no value can end its quotation early, for a
-- literal or an identifier, whatever other text follows.
pub read_quoted-double :
    (q : ℕ) (value rest : Text)
    → NoQuote q rest
    → read_quoted q (double q value ++ (q ∷ rest)) ≡ some (value, rest)
unfolding double
read_quoted-double q [] rest h = read_quoted_end q rest h
read_quoted-double q (c ∷ value) rest h = elim (Bool-cases (c == q)) [
  | inl same ↦ rw same (
      read_quoted_double q (double q value ++ (q ∷ rest)) (value, rest)
        (read_quoted-double q value rest h)
      ∙ ap (λ d. some (d ∷ value, rest)) (sym ((==_iff c q).0 same)))
  | inr other ↦ rw other (
      read_quoted_plain q c (double q value ++ (q ∷ rest)) (value, rest) (ground arith)
        (read_quoted-double q value rest h))
]

-- The statement text of a literal and of an identifier, read as the database reads it.
pub sql_quoting_lem :
    (value rest : Text)
    → NoQuote b'\'' rest
    → NoQuote b'"' rest
    → ((body : Text) × (sql_literal value ++ rest ≡ b'\'' ∷ body)
        × (read_quoted b'\'' body ≡ some (value, rest)))
      × ((body : Text) × (sql_identifier value ++ rest ≡ b'"' ∷ body)
          × (read_quoted b'"' body ≡ some (value, rest)))
unfolding sql_literal sql_identifier
sql_quoting_lem value rest h k = (
  (
    double b'\'' value ++ (b'\'' ∷ rest),
    ap (λ s. b'\'' ∷ s) (append_assoc (double b'\'' value) (b'\'' ∷ []) rest),
    read_quoted-double b'\'' value rest h,
  ),
  (
    double b'"' value ++ (b'"' ∷ rest),
    ap (λ s. b'"' ∷ s) (append_assoc (double b'"' value) (b'"' ∷ []) rest),
    read_quoted-double b'"' value rest k,
  ),
)
