-- ===== src/Core/Tags/Slug.antt =====
-- The slugs of `slugify_domain_part`.
use k_engram.Prelude.{
  ℕ, Bool, true, false, ◌&&◌, ◌||◌, not, [], ◌∷◌, ◌++◌, some, ◌≡◌, ◌≢◌, refl, ◌∙◌, ◌⊎◌, inl, inr,
  arith, if◌then◌else◌, is_empty, Bool-cases, ◌==◌, some_injective, subst,
}
use mathlib.Core.List.{append_assoc, append-nil}
use k_engram.Text.{Text, is_ascii_alphanumeric, trim_end_matches, put_front, trim}
use k_engram.Unicode.{Unicode}
use k_engram.Core.Tags.{slug_loop, is_separator, non_empty, slugify_domain_part}

-- What the loop pushes, from whether the slug is empty and whether it ends in a dash.
emit : Bool → Bool → Text → Text
emit e d [] = []
emit e d (ch ∷ rest) =
    let pushed = ch ∷ emit false false rest in
    let dashed = b'-' ∷ emit false true rest in
    let skipped = emit e d rest in
    if is_ascii_alphanumeric ch
    then pushed
    else if is_separator ch && not e && not d
    then dashed
    else skipped

is_empty-concat : (s : Text) (c : ℕ) → is_empty (s ++ c ∷ []) ≡ false
is_empty-concat [] c = refl
is_empty-concat (x ∷ s) c = refl

slug_loop-eq-emit :
    (slug : Text) (d : Bool) (s : Text) → slug_loop slug d s ≡ slug ++ emit (is_empty slug) d s
unfolding slug_loop emit
slug_loop-eq-emit slug d [] = rw append-nil
slug_loop-eq-emit slug d (ch ∷ rest) = elim (Bool-cases (is_ascii_alphanumeric ch)) [
  | inl a ↦
      rw a (
        slug_loop-eq-emit (slug ++ ch ∷ []) false rest ∙ rw (is_empty-concat slug ch, append_assoc))
  | inr n ↦ rw n (elim (Bool-cases (is_separator ch && not (is_empty slug) && not d)) [
    | inl b ↦ rw b (
        slug_loop-eq-emit (slug ++ b'-' ∷ []) true rest
        ∙ rw (is_empty-concat slug b'-', append_assoc))
    | inr m ↦ rw m (slug_loop-eq-emit slug d rest)
  ])
]

-- Letters and digits with single dashes between them; `prev` tells whether a dash may not come.
abbrev pub Dashed : Bool → Text → Type 0
Dashed prev [] = Unit
Dashed prev (c ∷ s) =
    ((is_ascii_alphanumeric c ≡ true) × Dashed false s)
    ⊎ ((c ≡ b'-') × (prev ≡ false) × Dashed true s)

emit-Dashed : (e d : Bool) (s : Text) → Dashed (e || d) (emit e d s)
unfolding emit
emit-Dashed e d [] = tt
emit-Dashed e d (ch ∷ rest) = elim (Bool-cases (is_ascii_alphanumeric ch)) [
  | inl a ↦ rw a (inl (a, emit-Dashed false false rest))
  | inr n ↦ rw n (elim (Bool-cases (is_separator ch && not e && not d)) [
    | inl b ↦ rw b (inr (refl, ground arith, emit-Dashed false true rest))
    | inr m ↦ rw m (emit-Dashed e d rest)
  ])
]

-- The last character of a text that is not empty.
abbrev pub EndsPlain : Text → Type 0
EndsPlain [] = Unit
EndsPlain (c ∷ []) = c ≢ b'-'
EndsPlain (c ∷ d ∷ s) = EndsPlain (d ∷ s)

trim_dashes-EndsPlain : (s : Text) → EndsPlain (trim_end_matches (λ c. c == b'-') s)
unfolding trim_end_matches
trim_dashes-EndsPlain [] = tt
trim_dashes-EndsPlain (c ∷ s) =
    put_front-EndsPlain c (trim_end_matches (λ c. c == b'-') s) (trim_dashes-EndsPlain s)
  where
    put_front-EndsPlain :
        (c : ℕ) (t : Text) → EndsPlain t → EndsPlain (put_front (λ c. c == b'-') c t)
    put_front-EndsPlain c [] h = ground arith
    put_front-EndsPlain c (d ∷ t) h = h

put_front-Dashed :
    (prev : Bool) (c : ℕ) (t : Text)
    → Dashed prev (c ∷ t)
    → Dashed prev (put_front (λ c. c == b'-') c t)
put_front-Dashed prev c [] h = elim (Bool-cases (c == b'-')) [ inl e ↦ rw e tt | inr n ↦ rw n h ]
put_front-Dashed prev c (d ∷ t) h = h

trim_dashes-Dashed :
    (prev : Bool) (s : Text) → Dashed prev s → Dashed prev (trim_end_matches (λ c. c == b'-') s)
unfolding trim_end_matches
trim_dashes-Dashed prev [] h = tt
trim_dashes-Dashed prev (c ∷ s) (inl h) =
    put_front-Dashed prev c (trim_end_matches (λ c. c == b'-') s)
      (inl (h.0, trim_dashes-Dashed false s h.1))
trim_dashes-Dashed prev (c ∷ s) (inr h) =
    put_front-Dashed prev c (trim_end_matches (λ c. c == b'-') s)
      (inr (h.0, h.1, trim_dashes-Dashed true s h.2))

non_empty-some : (s t : Text) → non_empty s ≡ some t → (s ≡ t) × (t ≢ [])
non_empty-some [] t e = cc
non_empty-some (c ∷ s) t e = (some_injective e, λ none_left. cc)

-- A slug is not empty and made of ASCII letters, ASCII digits and dashes; it does not start or end
-- with a dash, and no two dashes stand side by side.
pub slugify_domain_part_lem :
    (u : Unicode) (raw slug : Text)
    → slugify_domain_part u raw ≡ some slug
    → (slug ≢ []) × Dashed true slug × EndsPlain slug
unfolding slugify_domain_part
slugify_domain_part_lem u raw slug e =
    let lowered = u.to_lowercase (trim raw) in
    let (same, more) =
      non_empty-some (trim_end_matches (λ c. c == b'-') (slug_loop [] false lowered)) slug e in
    let dashed : Dashed true (slug_loop [] false lowered) =
      rw (slug_loop-eq-emit [] false lowered) (emit-Dashed true false lowered) in
    (
      more,
      subst (Dashed true) same (trim_dashes-Dashed true (slug_loop [] false lowered) dashed),
      subst EndsPlain same (trim_dashes-EndsPlain (slug_loop [] false lowered)),
    )
