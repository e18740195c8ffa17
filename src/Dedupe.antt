-- ===== src/Dedupe.antt =====
-- The loop that many parts of the source share: walk over values, keep the first of each key, and
-- stop when enough are kept. The set `seen` of the source holds the keys of `out`.
use k_engram.Prelude.{
  ℕ, zero, suc, ◌+◌, ◌≤◌, ◌<◌, Bool, true, false, ◌||◌, List, [], ◌∷◌, ◌++◌, map, ◌≡◌, refl, sym,
  ◌∙◌, ap, ◌⊎◌, inl, inr, arith, if◌then◌else◌, length, length-append, All, All-append, Bool-cases,
  In,
}
use mathlib.Core.List.{map-append}
use native.Mathlib.Decide.{dec_lt}
use k_engram.Text.{Text, elem}
use k_engram.Text.Laws.{elem-append, text_eq_iff}

-- No text stands twice.
abbrev pub Unique : List Text → Type 0
Unique [] = Unit
Unique (t ∷ ts) = (elem t ts ≡ false) × Unique ts

Unique-concat : (ts : List Text) (t : Text) → Unique ts → elem t ts ≡ false → Unique (ts ++ t ∷ [])
unfolding elem
Unique-concat [] t u h = (refl, tt)
Unique-concat (s ∷ ts) t u h = (
  ground (arith, u.0, elem-append s ts (t ∷ []), text_eq_iff s t, text_eq_iff t s),
  Unique-concat ts t u.1 (ground arith),
)

module _ {A : Type 0} (key : A → Text) (full : ℕ → Bool) where
  -- `if seen.insert(key(v)) { out.push(v) }`.
  unfoldable pub keep : List A → A → List A
  keep out v = if elem (key v) (map key out) then out else out ++ v ∷ []

  unfoldable pub dedupe_from : List A → List A → List A
  unfolding keep
  dedupe_from out [] = out
  dedupe_from out (v ∷ vs) =
      let rest = dedupe_from (keep out v) vs in
      if full (length (keep out v)) then keep out v else rest

  unfoldable pub dedupe : List A → List A
  unfolding dedupe_from
  dedupe values = dedupe_from [] values

  keep-Unique : (out : List A) (v : A) → Unique (map key out) → Unique (map key (keep out v))
  unfolding keep
  keep-Unique out v u = elim (Bool-cases (elem (key v) (map key out))) [
    | inl e ↦ rw e u
    | inr e ↦ rw (e, map-append) (Unique-concat (map key out) (key v) u e)
  ]

  pub dedupe_from-Unique :
      (out values : List A) → Unique (map key out) → Unique (map key (dedupe_from out values))
  unfolding dedupe_from
  dedupe_from-Unique out [] u = u
  dedupe_from-Unique out (v ∷ vs) u = elim (Bool-cases (full (length (keep out v)))) [
    | inl e ↦ rw e (keep-Unique out v u)
    | inr e ↦ rw e (dedupe_from-Unique (keep out v) vs (keep-Unique out v u))
  ]

  -- No key is kept twice.
  pub dedupe-Unique : (values : List A) → Unique (map key (dedupe values))
  unfolding dedupe
  dedupe-Unique values = dedupe_from-Unique [] values tt

  keep-All {κ} : (P : A → Type κ) (out : List A) (v : A) → All P out → P v → All P (keep out v)
  unfolding keep
  keep-All P out v h p = elim (Bool-cases (elem (key v) (map key out))) [
    | inl e ↦ rw e h
    | inr e ↦ rw e (All-append P out (v ∷ []) h (p, tt))
  ]

  dedupe_from-All {κ} :
      (P : A → Type κ) (out values : List A)
      → All P out
      → All P values
      → All P (dedupe_from out values)
  unfolding dedupe_from
  dedupe_from-All P out [] h k = h
  dedupe_from-All P out (v ∷ vs) h k = elim (Bool-cases (full (length (keep out v)))) [
    | inl e ↦ rw e (keep-All P out v h k.0)
    | inr e ↦ rw e (dedupe_from-All P (keep out v) vs (keep-All P out v h k.0) k.1)
  ]

  -- What holds of every value holds of every kept one.
  pub dedupe-All {κ} : (P : A → Type κ) (values : List A) → All P values → All P (dedupe values)
  unfolding dedupe
  dedupe-All P values h = dedupe_from-All P [] values tt h

  keep_key : (out : List A) (v : A) → elem (key v) (map key (keep out v)) ≡ true
  unfolding keep elem
  keep_key out v = elim (Bool-cases (elem (key v) (map key out))) [
    | inl e ↦ rw e e
    | inr e ↦
        rw (e, map-append)
          (elem-append (key v) (map key out) (key v ∷ [])
            ∙ ground (arith, text_eq_iff (key v) (key v)))
  ]

  keep_mono :
      (t : Text) (out : List A) (v : A)
      → elem t (map key out) ≡ true
      → elem t (map key (keep out v)) ≡ true
  unfolding keep
  keep_mono t out v h = elim (Bool-cases (elem (key v) (map key out))) [
    | inl e ↦ rw e h
    | inr e ↦
        rw (e, map-append)
          (elem-append t (map key out) (key v ∷ []) ∙ ap (λ b. b || elem t (key v ∷ [])) h)
  ]

  dedupe_from_mono :
      (t : Text) (out values : List A)
      → elem t (map key out) ≡ true
      → elem t (map key (dedupe_from out values)) ≡ true
  unfolding dedupe_from
  dedupe_from_mono t out [] h = h
  dedupe_from_mono t out (v ∷ vs) h = elim (Bool-cases (full (length (keep out v)))) [
    | inl e ↦ rw e (keep_mono t out v h)
    | inr e ↦ rw e (dedupe_from_mono t (keep out v) vs (keep_mono t out v h))
  ]

  dedupe_from_complete :
      (w : A) (out values : List A)
      → In w values
      → (elem (key w) (map key (dedupe_from out values)) ≡ true)
        ⊎ (full (length (dedupe_from out values)) ≡ true)
  unfolding dedupe_from
  dedupe_from_complete w out [] m = absurd m
  dedupe_from_complete w out (v ∷ vs) m = elim (Bool-cases (full (length (keep out v)))) [
    | inl e ↦ inr (rw e e)
    | inr e ↦ rw e (elim m [
      | inl same ↦ inl (dedupe_from_mono (key w) (keep out v) vs (rw same (keep_key out v)))
      | inr later ↦ dedupe_from_complete w (keep out v) vs later
    ])
  ]

  -- The key of every value is kept, unless enough were.
  pub dedupe_complete :
      (w : A) (values : List A)
      → In w values
      → (elem (key w) (map key (dedupe values)) ≡ true) ⊎ (full (length (dedupe values)) ≡ true)
  unfolding dedupe
  dedupe_complete w values m = dedupe_from_complete w [] values m

  length-keep :
      (out : List A) (v : A)
      → (length out ≤ length (keep out v)) × (length (keep out v) ≤ length out + 1)
  unfolding keep
  length-keep out v = ground (arith, length-append out (v ∷ []))

  length-dedupe_from :
      (limit : ℕ) (out values : List A)
      → full limit ≡ true
      → length out < limit
      → length (dedupe_from out values) ≤ limit
  unfolding dedupe_from
  length-dedupe_from limit out [] stops h = omega arith
  length-dedupe_from limit out (v ∷ vs) stops h = elim (Bool-cases (full (length (keep out v)))) [
    | inl e ↦ rw e (omega (arith, length-keep out v))
    | inr e ↦ rw e (
        length-dedupe_from limit (keep out v) vs stops (elim (dec_lt (length (keep out v)) limit) [
          | yes below ↦ below
          | no above ↦
              let exact : length (keep out v) ≡ limit = omega (arith, length-keep out v) in
              absurd (cc (sym e ∙ ap full exact ∙ stops))
        ]))
  ]

  -- At most `limit` values are kept, if `full` stops there.
  pub length-dedupe :
      (limit : ℕ) (values : List A) → full limit ≡ true → 0 < limit → length (dedupe values) ≤ limit
  unfolding dedupe
  length-dedupe limit values stops h = length-dedupe_from limit [] values stops h

  elem-length : (t : Text) (out : List A) → elem t (map key out) ≡ true → 0 < length out
  unfolding elem
  elem-length t [] h = cc
  elem-length t (v ∷ out) h = omega arith

  dedupe_from-never_full :
      ((n : ℕ) → full (suc n) ≡ false)
      → (w : A) (out values : List A) → In w values
      → elem (key w) (map key (dedupe_from out values)) ≡ true
  unfolding dedupe_from
  dedupe_from-never_full never w out [] m = absurd m
  dedupe_from-never_full never w out (v ∷ vs) m =
      rw (not_full (length (keep out v)) (elem-length (key v) (keep out v) (keep_key out v)))
        (elim m [
          | inl same ↦ dedupe_from_mono (key w) (keep out v) vs (rw same (keep_key out v))
          | inr later ↦ dedupe_from-never_full never w (keep out v) vs later
        ])
    where
      not_full : (n : ℕ) → 0 < n → full n ≡ false
      not_full zero h = absurd (omega arith)
      not_full (suc n) h = never n

  -- A test that no positive number passes stops nothing.
  pub dedupe-never_full :
      ((n : ℕ) → full (suc n) ≡ false)
      → (w : A) (values : List A) → In w values
      → elem (key w) (map key (dedupe values)) ≡ true
  unfolding dedupe
  dedupe-never_full never w values m = dedupe_from-never_full never w [] values m
