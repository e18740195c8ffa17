-- ===== src/Text/Laws.antt =====
-- The laws of the operations on texts.
use k_engram.Prelude.{
  ◌≤◌, ◌+◌, true, false, ◌||◌, List, [], ◌∷◌, ◌++◌, ◌≡◌, refl, ◌↔◌, inl, inr, arith, Bool-cases, In,
  length,
}
use mathlib.Core.List.{append-nil}
use k_engram.Text.{Text, text_eq, elem, byte_len, starts_with, contains}
use k_engram.Prelude.{subst}

pub eq_of_text_eq : (s t : Text) → text_eq s t ≡ true → s ≡ t
unfolding text_eq
eq_of_text_eq [] [] h = refl
eq_of_text_eq [] (d ∷ t) h = cc
eq_of_text_eq (c ∷ s) [] h = cc
eq_of_text_eq (c ∷ s) (d ∷ t) h = ground (arith, eq_of_text_eq s t)

pub text_eq_refl : (s : Text) → text_eq s s ≡ true
unfolding text_eq
text_eq_refl [] = refl
text_eq_refl (c ∷ s) = ground (arith, text_eq_refl s)

pub text_eq_iff : (s t : Text) → (text_eq s t ≡ true) ↔ (s ≡ t)
text_eq_iff s t = (eq_of_text_eq s t, λ e. rw e (text_eq_refl t))

-- The Boolean membership is the one by positions.
pub In-of_elem : (s : Text) (ts : List Text) → elem s ts ≡ true → In s ts
unfolding elem
In-of_elem s [] h = cc
In-of_elem s (t ∷ ts) h = elim (Bool-cases (text_eq s t)) [
  | inl e ↦ inl (eq_of_text_eq s t e)
  | inr n ↦ inr (In-of_elem s ts (ground arith))
]

pub elem_of_In : (s : Text) (ts : List Text) → In s ts → elem s ts ≡ true
unfolding elem
elem_of_In s [] m = absurd m
elem_of_In s (t ∷ ts) (inl e) = ground (arith, text_eq_iff s t)
elem_of_In s (t ∷ ts) (inr m) = ground (arith, elem_of_In s ts m)

pub elem_iff : (s : Text) (ts : List Text) → (elem s ts ≡ true) ↔ In s ts
elem_iff s ts = (In-of_elem s ts, elem_of_In s ts)

pub elem-append : (s : Text) (ts us : List Text) → elem s (ts ++ us) ≡ (elem s ts || elem s us)
unfolding elem
elem-append s [] us = refl
elem-append s (t ∷ ts) us = ground (arith, elem-append s ts us)

-- A text has at least as many bytes as characters.
pub length-le-byte_len : (s : Text) → length s ≤ byte_len s
unfolding byte_len
length-le-byte_len [] = omega arith
length-le-byte_len (c ∷ s) = ground (arith, length-le-byte_len s)

pub byte_len-append : (s t : Text) → byte_len (s ++ t) ≡ byte_len s + byte_len t
unfolding byte_len
byte_len-append [] t = omega arith
byte_len-append (c ∷ s) t = omega (arith, byte_len-append s t)

pub starts_with-append : (p s : Text) → starts_with p (p ++ s) ≡ true
unfolding starts_with
starts_with-append [] s = refl
starts_with-append (c ∷ p) s = ground (arith, starts_with-append p s)

-- Which texts start with `p`.
pub append_of_starts_with : (p s : Text) → starts_with p s ≡ true → (t : Text) × (s ≡ p ++ t)
unfolding starts_with
append_of_starts_with [] s h = (s, refl)
append_of_starts_with (c ∷ p) [] h = cc
append_of_starts_with (c ∷ p) (d ∷ s) h =
    let (t, e) = append_of_starts_with p s (ground arith) in (t, ground (arith, e))

-- Two texts that the test tells apart are not equal.
pub ne_of_text_eq : (s t : Text) → text_eq s t ≡ false → s ≡ t → ⊥
ne_of_text_eq s t h e = ground (arith, text_eq_iff s t)

starts_with-append_right : (p s t : Text) → starts_with p s ≡ true → starts_with p (s ++ t) ≡ true
unfolding starts_with
starts_with-append_right [] s t h = refl
starts_with-append_right (c ∷ p) [] t h = cc
starts_with-append_right (c ∷ p) (d ∷ s) t h = ground (arith, starts_with-append_right p s t)

contains_of_starts_with : (p s : Text) → starts_with p s ≡ true → contains p s ≡ true
unfolding contains
contains_of_starts_with p [] h = h
contains_of_starts_with p (c ∷ s) h = ground (arith, h)

-- What a text contains is contained in every longer one.
pub contains-append : (p s t : Text) → contains p s ≡ true → contains p (s ++ t) ≡ true
unfolding contains
contains-append p [] t h = contains_of_starts_with p t (starts_with-append_right p [] t h)
contains-append p (c ∷ s) t h =
    ground (arith, starts_with-append_right p (c ∷ s) t, contains-append p s t)

pub contains_behind : (p s : Text) → contains p (s ++ p) ≡ true
unfolding contains
contains_behind p [] =
    contains_of_starts_with p p
      (subst (λ t. starts_with p t ≡ true) (append-nil p) (starts_with-append p []))
contains_behind p (c ∷ s) = ground (arith, contains_behind p s)
