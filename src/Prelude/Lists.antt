-- ===== src/Prelude/Lists.antt =====
-- Lists measured and indexed by native numbers, under the library's names, and predicates on
-- lists by recursion.
use Prim.Native.Nat.{ℕ, zero, suc, ◌+◌, ◌≤◌, min}
use mathlib.Core.Path.{◌≡◌, refl, ap, sym, subst, ◌∙◌}
use mathlib.Core.Logic.{◌⊎◌, inl, inr}
use mathlib.Core.Bool.{Bool, true, false, ◌&&◌, ◌||◌}
use mathlib.Core.List.{List, [], ◌∷◌, ◌++◌, map}
use mathlib.Core.Option.{Option, none, some}
use native.Mathlib.Omega.{arith}
use k_engram.Prelude.Tests.{if◌then◌else◌, Bool-cases}

module _ {ℓ} {A : Type ℓ} where
  abbrev pub length : List A → ℕ
  length [] = 0
  length (x ∷ xs) = suc (length xs)

  abbrev pub get_elem? : List A → ℕ → Option A
  get_elem? [] i = none
  get_elem? (x ∷ xs) zero = some x
  get_elem? (x ∷ xs) (suc i) = get_elem? xs i

  abbrev pub take : ℕ → List A → List A
  take zero xs = []
  take (suc n) [] = []
  take (suc n) (x ∷ xs) = x ∷ take n xs

  abbrev pub drop : ℕ → List A → List A
  drop zero xs = xs
  drop (suc n) [] = []
  drop (suc n) (x ∷ xs) = drop n xs

  abbrev pub is_empty : List A → Bool
  is_empty [] = true
  is_empty (x ∷ xs) = false

  -- `retain` and `filter` of the source, over a Boolean test.
  abbrev pub retain : (A → Bool) → List A → List A
  retain p [] = []
  retain p (x ∷ xs) = let rest = retain p xs in if p x then x ∷ rest else rest

  abbrev pub any : (A → Bool) → List A → Bool
  any p [] = false
  any p (x ∷ xs) = p x || any p xs

  abbrev pub all : (A → Bool) → List A → Bool
  all p [] = true
  all p (x ∷ xs) = p x && all p xs

  pub length-append : (xs ys : List A) → length (xs ++ ys) ≡ length xs + length ys
  length-append [] ys = omega arith
  length-append (x ∷ xs) ys = omega (arith, length-append xs ys)

  pub length-take : (n : ℕ) (xs : List A) → length (take n xs) ≡ min n (length xs)
  length-take zero xs = omega arith
  length-take (suc n) [] = omega arith
  length-take (suc n) (x ∷ xs) = omega (arith, length-take n xs)

  pub length-retain : (p : A → Bool) (xs : List A) → length (retain p xs) ≤ length xs
  length-retain p [] = omega arith
  length-retain p (x ∷ xs) = ground (arith, length-retain p xs)

  -- A value that passes the test is found by a search for it.
  pub any-append : (p : A → Bool) (xs ys : List A) → any p (xs ++ ys) ≡ (any p xs || any p ys)
  any-append p [] ys = refl
  any-append p (x ∷ xs) ys = ground (arith, any-append p xs ys)

module _ {ℓ κ} {A : Type ℓ} where
  -- `P` holds of every element.
  abbrev pub All : (A → Type κ) → List A → Type κ
  All P [] = Unit
  All P (x ∷ xs) = P x × All P xs

  pub All-append : (P : A → Type κ) (xs ys : List A) → All P xs → All P ys → All P (xs ++ ys)
  All-append P [] ys h k = k
  All-append P (x ∷ xs) ys h k = (h.0, All-append P xs ys h.1 k)

  pub All-take : (P : A → Type κ) (n : ℕ) (xs : List A) → All P xs → All P (take n xs)
  All-take P zero xs h = tt
  All-take P (suc n) [] h = tt
  All-take P (suc n) (x ∷ xs) h = (h.0, All-take P n xs h.1)

-- `a` stands in the list; a witness is a position.
abbrev pub In : {A : Type 0} → A → List A → Type 0
In a [] = ⊥
In a (x ∷ xs) = (a ≡ x) ⊎ In a xs

module _ {A : Type 0} where
  pub In-append_left : (a : A) (xs ys : List A) → In a xs → In a (xs ++ ys)
  In-append_left a [] ys h = absurd h
  In-append_left a (x ∷ xs) ys (inl e) = inl e
  In-append_left a (x ∷ xs) ys (inr h) = inr (In-append_left a xs ys h)

  pub In-append_right : (a : A) (xs ys : List A) → In a ys → In a (xs ++ ys)
  In-append_right a [] ys h = h
  In-append_right a (x ∷ xs) ys h = inr (In-append_right a xs ys h)

  pub In-append : (a : A) (xs ys : List A) → In a (xs ++ ys) → In a xs ⊎ In a ys
  In-append a [] ys h = inr h
  In-append a (x ∷ xs) ys (inl e) = inl (inl e)
  In-append a (x ∷ xs) ys (inr h) = elim (In-append a xs ys h) [
    | inl l ↦ inl (inr l)
    | inr r ↦ inr r
  ]

  -- A kept element stands in the list and passes the test.
  pub In-retain : (p : A → Bool) (a : A) (xs : List A) → In a (retain p xs) → In a xs × (p a ≡ true)
  In-retain p a [] m = absurd m
  In-retain p a (x ∷ xs) m = elim (Bool-cases (p x)) [
    | inl e ↦
        let kept : In a (x ∷ retain p xs) =
          subst (λ b. In a (if b then x ∷ retain p xs else retain p xs)) e m in
        elim kept [
          | inl same ↦ (inl same, ap p same ∙ e)
          | inr later ↦ let (there, h) = In-retain p a xs later in (inr there, h)
        ]
    | inr n ↦
        let kept : In a (retain p xs) =
          subst (λ b. In a (if b then x ∷ retain p xs else retain p xs)) n m in
        let (there, h) = In-retain p a xs kept in (inr there, h)
  ]

  pub In-of_retain :
      (p : A → Bool) (a : A) (xs : List A) → In a xs → p a ≡ true → In a (retain p xs)
  In-of_retain p a [] m h = absurd m
  In-of_retain p a (x ∷ xs) m h = elim (Bool-cases (p x)) [
    | inl e ↦ rw e (elim m [ inl same ↦ inl same | inr later ↦ inr (In-of_retain p a xs later h) ])
    | inr n ↦ rw n (elim m [
      | inl same ↦ absurd (cc (sym h ∙ ap p same ∙ n))
      | inr later ↦ In-of_retain p a xs later h
    ])
  ]

  pub In-map : {B : Type 0} → (f : A → B) (a : A) (xs : List A) → In a xs → In (f a) (map f xs)
  In-map f a [] m = absurd m
  In-map f a (x ∷ xs) (inl e) = inl (ap f e)
  In-map f a (x ∷ xs) (inr m) = inr (In-map f a xs m)

  pub In-map_back :
      {B : Type 0} (f : A → B) (b : B) (xs : List A)
      → In b (map f xs)
      → (a : A) × In a xs × (b ≡ f a)
  In-map_back f b [] m = absurd m
  In-map_back f b (x ∷ xs) (inl e) = (x, inl refl, e)
  In-map_back f b (x ∷ xs) (inr m) = let (a, there, e) = In-map_back f b xs m in (a, inr there, e)

  -- What holds of every element holds of one.
  pub All-In {κ} : (P : A → Type κ) (a : A) (xs : List A) → All P xs → In a xs → P a
  All-In P a [] h m = absurd m
  All-In P a (x ∷ xs) h (inl e) = subst P (sym e) h.0
  All-In P a (x ∷ xs) h (inr m) = All-In P a xs h.1 m

  pub All-of_In {κ} : (P : A → Type κ) (xs : List A) → ((a : A) → In a xs → P a) → All P xs
  All-of_In P [] f = tt
  All-of_In P (x ∷ xs) f = (f x (inl refl), All-of_In P xs (λ a m. f a (inr m)))

-- `filter_map` of the source: the values that `f` makes, without the refused elements.
abbrev put_some : {B : Type 0} → Option B → List B → List B
put_some none rest = rest
put_some (some b) rest = b ∷ rest

module _ {A B : Type 0} (f : A → Option B) where
  abbrev pub filter_map : List A → List B
  filter_map [] = []
  filter_map (a ∷ as') = put_some (f a) (filter_map as')

  All-put_some {κ} :
      (P : B → Type κ) (o : Option B) (bs : List B)
      → ((b : B) → o ≡ some b → P b)
      → All P bs
      → All P (put_some o bs)
  All-put_some P none bs h k = k
  All-put_some P (some b) bs h k = (h b refl, k)

  filter_map-All-In {κ} :
      (P : B → Type κ) (xs : List A)
      → ((a : A) (b : B) → In a xs → f a ≡ some b → P b)
      → All P (filter_map xs)
  filter_map-All-In P [] h = tt
  filter_map-All-In P (a ∷ as') h =
      All-put_some P (f a) (filter_map as') (λ b e. h a b (inl refl) e)
        (filter_map-All-In P as' (λ c b m e. h c b (inr m) e))

  -- Every made value comes from an element.
  pub filter_map-All : (xs : List A) → All (λ b. (a : A) × In a xs × (f a ≡ some b)) (filter_map xs)
  filter_map-All xs =
      filter_map-All-In (λ b. (a : A) × In a xs × (f a ≡ some b)) xs (λ a b m e. (a, m, e))

  In-put_some : (b : B) (o : Option B) (bs : List B) → In b bs → In b (put_some o bs)
  In-put_some b none bs m = m
  In-put_some b (some c) bs m = inr m

  -- Every made value is kept.
  pub In-filter_map : (xs : List A) (a : A) (b : B) → In a xs → f a ≡ some b → In b (filter_map xs)
  In-filter_map [] a b m e = absurd m
  In-filter_map (x ∷ xs) a b (inl same) e =
      subst (λ o. In b (put_some o (filter_map xs))) (sym e ∙ ap f same) (inl refl)
  In-filter_map (x ∷ xs) a b (inr m) e =
      In-put_some b (f x) (filter_map xs) (In-filter_map xs a b m e)
