-- ===== src/Mcp/Relate/Preview.antt =====
-- The preview of a content in crates/kengram-mcp/src/relate.rs.
use k_engram.Prelude.{
  ℕ, zero, suc, ◌+◌, ◌-◌, ◌≤◌, ◌<◌, true, false, ◌≡◌, refl, sym, ap, ◌∙◌, arith, ◌⊎◌, inl, inr, [],
  ◌∷◌, ◌++◌, some, ◌==◌, ltb, leb, Bool-cases, ==_iff,
}
use mathlib.Core.List.{append-nil}
use k_engram.Text.{Text, len_utf8, byte_len}
use k_engram.Mcp.Relate.{
  related_content_preview_len, is_char_boundary, back_to_boundary, prefix_bytes, preview_of,
}

len_utf8_bounds : (c : ℕ) → (1 ≤ len_utf8 c) × (len_utf8 c ≤ 4)
unfolding len_utf8
len_utf8_bounds c = ground arith

-- At a boundary the text splits there.
prefix_at_boundary :
    (n : ℕ) (s : Text)
    → is_char_boundary s n ≡ true
    → (front : Text) × (back : Text) × (prefix_bytes n s ≡ some front)
      × (s ≡ front ++ back)
      × (byte_len front ≡ n)
unfolding is_char_boundary prefix_bytes byte_len
prefix_at_boundary n [] h = elim (Bool-cases (n == 0)) [
  | inl z ↦ ([], [], rw z refl, refl, ground (arith, z))
  | inr p ↦ absurd (cc (sym h ∙ p))
]
prefix_at_boundary n (c ∷ s) h = elim (Bool-cases (n == 0)) [
  | inl z ↦ ([], c ∷ s, rw z refl, refl, ground (arith, z))
  | inr p ↦ elim (Bool-cases (leb (len_utf8 c) n)) [
    | inl fits ↦
        let (front, back, cut, split, size) =
          prefix_at_boundary (n - len_utf8 c) s (rw (p, fits) at h) in
        (c ∷ front, back, rw (p, fits, cut) refl, ap (λ t. c ∷ t) split, ground (arith, fits, size))
    | inr wide ↦ absurd (cc (rw (p, wide) at h))
  ]
]

zero_boundary : (s : Text) → is_char_boundary s 0 ≡ true
unfolding is_char_boundary
zero_boundary [] = refl
zero_boundary (c ∷ s) = refl

below :
    (s : Text) (m n : ℕ)
    → is_char_boundary s (suc n) ≡ false
    → is_char_boundary s m ≡ true
    → m ≤ suc n
    → m ≤ n
below s m n inside h k = elim (Bool-cases (m == suc n)) [
  | inl same ↦ absurd (cc (sym h ∙ ap (is_char_boundary s) ((==_iff m (suc n)).0 same) ∙ inside))
  | inr less ↦ ground (arith, less)
]

behind :
    (c : ℕ) (s : Text) (m : ℕ)
    → is_char_boundary s m ≡ true
    → is_char_boundary (c ∷ s) (m + len_utf8 c) ≡ true
unfolding is_char_boundary
behind c s m stop =
    let back : m + len_utf8 c - len_utf8 c ≡ m = omega arith in
    ground (arith, ap (is_char_boundary s) back, stop, len_utf8_bounds c)

-- A character has at most four bytes, so there is a boundary at most three bytes before any place.
boundary_near :
    (s : Text) (n : ℕ)
    → n ≤ byte_len s
    → (m : ℕ) × (is_char_boundary s m ≡ true) × (m ≤ n) × (n ≤ m + 3)
unfolding byte_len
boundary_near [] n h = (0, zero_boundary [], omega arith, omega arith)
boundary_near (c ∷ s) n h = elim (Bool-cases (leb (len_utf8 c) n)) [
  | inr short ↦ (0, zero_boundary (c ∷ s), omega arith, ground (arith, short, len_utf8_bounds c))
  | inl fits ↦
      let (m, stop, low, near) = boundary_near s (n - len_utf8 c) (ground (arith, fits)) in
      (m + len_utf8 c, behind c s m stop, ground (arith, fits, low), ground (arith, fits, near))
]

-- The loop stops at a boundary at most `n`, and every greater one lies behind `n`.
back_to_boundary_lem :
    (s : Text) (n : ℕ)
    → (is_char_boundary s (back_to_boundary s n) ≡ true)
      × (back_to_boundary s n ≤ n)
      × ((m : ℕ) → is_char_boundary s m ≡ true → m ≤ n → m ≤ back_to_boundary s n)
unfolding back_to_boundary
back_to_boundary_lem s zero = (zero_boundary s, omega arith, λ m h k. k)
back_to_boundary_lem s (suc n) =
    let (stop, low, most) = back_to_boundary_lem s n in
    elim (Bool-cases (is_char_boundary s (suc n))) [
      | inl at_end ↦ rw at_end (at_end, omega arith, λ m h k. k)
      | inr inside ↦
          rw inside (stop, omega (arith, low), λ m h k. most m h (below s m n inside h k))
    ]

-- The preview never panics. It is a front part of the content of at most 400 bytes, the whole
-- content unless that is longer, and else misses the 400 bytes by less than a character; the flag
-- says whether the content is longer.
pub preview_of_lem :
    (content : Text)
    → (front : Text) × (back : Text) × (preview_of (some content)
        ≡ some (some front, some (ltb related_content_preview_len (byte_len content))))
      × (content ≡ front ++ back)
      × (byte_len front ≤ related_content_preview_len)
      × (((byte_len content ≤ related_content_preview_len) × (back ≡ []))
          ⊎ ((related_content_preview_len < byte_len content)
              × (related_content_preview_len ≤ byte_len front + 3)))
unfolding preview_of
preview_of_lem content = elim (Bool-cases (ltb related_content_preview_len (byte_len content))) [
  | inr short ↦ (
    content,
    [],
    rw short refl,
    sym (append-nil content),
    ground (arith, short),
    inl (ground (arith, short), refl),
  )
  | inl long ↦
      let (stop, low, most) = back_to_boundary_lem content related_content_preview_len in
      let (front, back, cut, split, size) =
        prefix_at_boundary (back_to_boundary content related_content_preview_len) content stop in
      let (m, at_m, m_low, near) =
        boundary_near content related_content_preview_len (ground (arith, long)) in
      (
        front,
        back,
        rw (long, cut) refl,
        split,
        omega (arith, size, low),
        inr (ground (arith, long), omega (arith, size, near, most m at_m m_low)),
      )
]
