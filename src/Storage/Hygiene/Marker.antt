-- ===== src/Storage/Hygiene/Marker.antt =====
-- The marker of evaluation material that `text_trips_eval_contamination` looks for.
use k_engram.Prelude.{
  ◌≤◌, true, [], ◌∷◌, ◌++◌, map, ◌≡◌, refl, sym, ◌∙◌, ap, ◌↔◌, inl, inr, arith, Bool-cases, length,
}
use k_engram.Text.{Text, to_ascii_upper, to_ascii_uppercase}
use k_engram.Text.Laws.{length-le-byte_len}
use k_engram.Storage.Hygiene.{is_marker, any_marker, text_trips_eval_contamination}

marker-length : (s : Text) → is_marker s ≡ true → 6 ≤ length s
unfolding is_marker
marker-length (k ∷ g ∷ r ∷ a ∷ b ∷ c ∷ rest) h = omega arith
marker-length [] h = cc
marker-length (k ∷ []) h = cc
marker-length (k ∷ g ∷ []) h = cc
marker-length (k ∷ g ∷ r ∷ []) h = cc
marker-length (k ∷ g ∷ r ∷ a ∷ []) h = cc
marker-length (k ∷ g ∷ r ∷ a ∷ b ∷ []) h = cc

any_marker-length : (s : Text) → any_marker s ≡ true → 6 ≤ length s
unfolding any_marker
any_marker-length [] h = cc
any_marker-length (c ∷ s) h = elim (Bool-cases (is_marker (c ∷ s))) [
  | inl e ↦ marker-length (c ∷ s) e
  | inr e ↦ omega (arith, any_marker-length s (ground arith))
]

-- The guard on short texts changes nothing.
trips-any_marker : (s : Text) → text_trips_eval_contamination s ≡ any_marker (to_ascii_uppercase s)
unfolding text_trips_eval_contamination
trips-any_marker s = elim (Bool-cases (any_marker (to_ascii_uppercase s))) [
  | inl e ↦
      let long = any_marker-length (to_ascii_uppercase s) e in
      ground (arith, length-le-byte_len (to_ascii_uppercase s), long)
  | inr e ↦ ground (arith, e)
]

any_marker_parts :
    (s : Text)
    → any_marker (to_ascii_uppercase s) ≡ true
    → (front : Text) × (behind : Text) × (s ≡ front ++ behind)
      × (is_marker (to_ascii_uppercase behind) ≡ true)
unfolding any_marker to_ascii_uppercase
any_marker_parts [] h = cc
any_marker_parts (c ∷ s) h = elim (Bool-cases (is_marker (map to_ascii_upper (c ∷ s)))) [
  | inl e ↦ ([], c ∷ s, refl, e)
  | inr e ↦
      let (front, behind, same, marker) = any_marker_parts s (ground arith) in
      (c ∷ front, behind, ap (λ t. c ∷ t) same, marker)
]

no_marker : is_marker [] ≡ true → ⊥
unfolding is_marker
no_marker h = cc

any_marker_whole :
    (front behind : Text)
    → is_marker (to_ascii_uppercase behind) ≡ true
    → any_marker (to_ascii_uppercase (front ++ behind)) ≡ true
unfolding any_marker to_ascii_uppercase
any_marker_whole [] [] h = absurd (no_marker h)
any_marker_whole [] (c ∷ s) h = ground (arith, h)
any_marker_whole (c ∷ front) behind h = ground (arith, any_marker_whole front behind h)

-- A text trips exactly if somewhere in it, in any case of the letters, `KGR` and three digits
-- stand; the guard on texts of less than six bytes excludes none of them.
pub text_trips_iff :
    (s : Text)
    → (text_trips_eval_contamination s ≡ true) ↔ (
        (front : Text) × (behind : Text) × (s ≡ front ++ behind)
        × (is_marker (to_ascii_uppercase behind) ≡ true))
text_trips_iff s = (
  λ h. any_marker_parts s (sym (trips-any_marker s) ∙ h),
  λ (front, behind, same, marker).
      trips-any_marker s
      ∙ ap (λ t. any_marker (to_ascii_uppercase t)) same
      ∙ any_marker_whole front behind marker,
)
