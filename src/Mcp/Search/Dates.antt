-- ===== src/Mcp/Search/Dates.antt =====
-- The test for a date in crates/kengram-mcp/src/search.rs, which slices a text at fixed bytes.
use k_engram.Prelude.{
  ℕ, ◌+◌, ◌-◌, ◌≤◌, ◌<◌, true, false, [], ◌∷◌, ◌++◌, none, some, ◌≡◌, refl, ◌∙◌, ap, arith, ltb,
  leb, ◌==◌, All, All-append, length, subst,
}
use k_engram.Text.{Text, codes, byte_len, len_utf8, is_ascii_digit, text_eq}
use k_engram.Text.Laws.{length-le-byte_len}
use k_engram.Mcp.Search.{put_before, split_at_byte, front_of, byte_slice, looks_like_date}

digit_width : (c : ℕ) → is_ascii_digit c ≡ true → len_utf8 c ≡ 1
unfolding is_ascii_digit len_utf8
digit_width c h = ground arith

dash_width : len_utf8 b'-' ≡ 1
unfolding len_utf8
dash_width = refl

-- A year, a month, and a day of one digit, behind which a character of several bytes stands.
abbrev pub cut_date : ℕ → ℕ → ℕ → ℕ → ℕ → ℕ → ℕ → ℕ → Text → Text
cut_date y₁ y₂ y₃ y₄ m₁ m₂ d c rest = y₁ ∷ y₂ ∷ y₃ ∷ y₄ ∷ b'-' ∷ m₁ ∷ m₂ ∷ b'-' ∷ d ∷ c ∷ rest

split_at_zero : (s : Text) → split_at_byte 0 s ≡ some ([], s)
unfolding split_at_byte
split_at_zero [] = refl
split_at_zero (c ∷ s) = refl

split_narrow :
    (c n : ℕ) (s : Text)
    → len_utf8 c ≡ 1
    → split_at_byte (n + 1) (c ∷ s) ≡ put_before c (split_at_byte n s)
unfolding split_at_byte
split_narrow c n s w =
    let shorter : n + 1 - len_utf8 c ≡ n = omega (arith, w) in
    let positive : (n + 1 == 0) ≡ false = ground arith in
    let whole : ltb (n + 1) (len_utf8 c) ≡ false = ground (arith, w) in
    rw (positive, whole, shorter) refl

split_wide : (c n : ℕ) (s : Text) → 0 < n → n < len_utf8 c → split_at_byte n (c ∷ s) ≡ none
unfolding split_at_byte
split_wide c n s h k = ground arith

abbrev IsNarrow : ℕ → Type 0
IsNarrow c = len_utf8 c ≡ 1

split_behind :
    (front behind : Text)
    → All IsNarrow front
    → split_at_byte (length front) (front ++ behind) ≡ some (front, behind)
split_behind [] behind h = split_at_zero behind
split_behind (c ∷ front) behind h =
    subst (λ n. split_at_byte n (c ∷ (front ++ behind)) ≡ some (c ∷ front, behind)) (omega arith)
      (split_narrow c (length front) (front ++ behind) h.0
        ∙ ap (put_before c) (split_behind front behind h.1))

byte_slice_narrow :
    (before slice behind : Text) (to : ℕ)
    → All IsNarrow before
    → All IsNarrow slice
    → to ≡ length before + length slice
    → byte_slice (length before) to (before ++ (slice ++ behind)) ≡ some slice
unfolding byte_slice
byte_slice_narrow before slice behind to h k e =
    let width : to - length before ≡ length slice = omega (arith, e) in
    rw (split_behind before (slice ++ behind) h, width) (ap front_of (split_behind slice behind k))

byte_slice_cut :
    (before : Text) (d c : ℕ) (rest : Text) (to : ℕ)
    → All IsNarrow before
    → IsNarrow d
    → 2 ≤ len_utf8 c
    → to ≡ length before + 2
    → byte_slice (length before) to (before ++ (d ∷ c ∷ rest)) ≡ none
unfolding byte_slice
byte_slice_cut before d c rest to h w wide e =
    let width : to - length before ≡ 1 + 1 = omega (arith, e) in
    rw (split_behind before (d ∷ c ∷ rest) h, width)
      (ap front_of (
        split_narrow d 1 (c ∷ rest) w
        ∙ ap (put_before d) (split_wide c 1 rest (omega arith) (omega (arith, wide)))))

-- The test panics on a date whose day has one digit, if a character of more than one byte stands
-- behind it: the length and both dashes are as in a date, and the slice for the day ends inside
-- that character.
pub looks_like_date_panics :
    (y₁ y₂ y₃ y₄ m₁ m₂ d c : ℕ) (rest : Text)
    → All (λ x. is_ascii_digit x ≡ true) (y₁ ∷ y₂ ∷ y₃ ∷ y₄ ∷ m₁ ∷ m₂ ∷ d ∷ [])
    → 2 ≤ len_utf8 c
    → looks_like_date (cut_date y₁ y₂ y₃ y₄ m₁ m₂ d c rest) ≡ none
unfolding looks_like_date text_eq
looks_like_date_panics y₁ y₂ y₃ y₄ m₁ m₂ d c rest (h₁, (h₂, (h₃, (h₄, (h₅, (h₆, (h₇, _))))))) wide =
    let year : Text = y₁ ∷ y₂ ∷ y₃ ∷ y₄ ∷ [] in
    let month : Text = m₁ ∷ m₂ ∷ [] in
    let value = cut_date y₁ y₂ y₃ y₄ m₁ m₂ d c rest in
    let year_width : All IsNarrow year =
      (digit_width y₁ h₁, (digit_width y₂ h₂, (digit_width y₃ h₃, (digit_width y₄ h₄, tt)))) in
    let month_width : All IsNarrow month = (digit_width m₁ h₅, (digit_width m₂ h₆, tt)) in
    let upto_month : All IsNarrow (year ++ (b'-' ∷ month)) =
      All-append IsNarrow year (b'-' ∷ month) year_width (dash_width, month_width) in
    let long : leb 10 (byte_len value) ≡ true = ground (arith, length-le-byte_len value) in
    let first : byte_slice 4 5 value ≡ some (codes "-") =
      byte_slice_narrow year (b'-' ∷ []) (m₁ ∷ m₂ ∷ b'-' ∷ d ∷ c ∷ rest) 5 year_width
        (dash_width, tt) refl in
    let second : byte_slice 7 8 value ≡ some (codes "-") =
      byte_slice_narrow (year ++ (b'-' ∷ month)) (b'-' ∷ []) (d ∷ c ∷ rest) 8 upto_month
        (dash_width, tt) refl in
    let years : byte_slice 0 4 value ≡ some year =
      byte_slice_narrow [] year (b'-' ∷ m₁ ∷ m₂ ∷ b'-' ∷ d ∷ c ∷ rest) 4 tt year_width refl in
    let months : byte_slice 5 7 value ≡ some month =
      byte_slice_narrow (year ++ (b'-' ∷ [])) month (b'-' ∷ d ∷ c ∷ rest) 7
        (All-append IsNarrow year (b'-' ∷ []) year_width (dash_width, tt)) month_width refl in
    let days : byte_slice 8 10 value ≡ none =
      byte_slice_cut (year ++ (b'-' ∷ (month ++ (b'-' ∷ [])))) d c rest 10
        (All-append IsNarrow year (b'-' ∷ (month ++ (b'-' ∷ []))) year_width
          (dash_width, (month_width.0, (month_width.1.0, (dash_width, tt)))))
        (digit_width d h₇) wide refl in
    rw (long, first, second, years, months, days, h₁, h₂, h₃, h₄, h₅, h₆) refl
