-- ===== src/Sorting/Stable.antt =====
-- The sort is stable: what a test keeps of the sorted list is the sorted rest, and a list in order
-- is left as it is.
use k_engram.Prelude.{
  Bool, true, false, List, [], ◌∷◌, ◌≡◌, refl, sym, ap, ◌∙◌, inl, inr, Bool-cases, All, retain,
}
use k_engram.Sorting.{insert, sort, IsSorted, sort-IsSorted, All-before}

module _ {A : Type 0} (before : A → A → Bool) where
  insert-front :
      (x : A) (xs : List A) → All (λ y. before y x ≡ false) xs → insert before x xs ≡ x ∷ xs
  unfolding insert
  insert-front x [] h = refl
  insert-front x (y ∷ ys) h = rw h.0 refl

  pub sort_sorted : (xs : List A) → IsSorted before xs → sort before xs ≡ xs
  unfolding sort
  sort_sorted [] h = refl
  sort_sorted (x ∷ xs) h = ap (insert before x) (sort_sorted xs h.1) ∙ insert-front x xs h.0

  pub All-retain {κ} :
      (P : A → Type κ) (p : A → Bool) (xs : List A) → All P xs → All P (retain p xs)
  All-retain P p [] h = tt
  All-retain P p (x ∷ xs) h = elim (Bool-cases (p x)) [
    | inl e ↦ rw e (h.0, All-retain P p xs h.1)
    | inr e ↦ rw e (All-retain P p xs h.1)
  ]

  module _ (asym : (x y : A) → before x y ≡ true → before y x ≡ false)
      (trans : (x y z : A) → before y x ≡ false → before z y ≡ false → before z x ≡ false) where
    retain-insert_dropped :
        (p : A → Bool) (x : A) (xs : List A)
        → p x ≡ false
        → retain p (insert before x xs) ≡ retain p xs
    unfolding insert
    retain-insert_dropped p x [] n = rw n refl
    retain-insert_dropped p x (y ∷ ys) n = elim (Bool-cases (before y x)) [
      | inr stop ↦ rw (stop, n) refl
      | inl go ↦ elim (Bool-cases (p y)) [
        | inl k ↦ rw (go, k) (ap (λ l. y ∷ l) (retain-insert_dropped p x ys n))
        | inr m ↦ rw (go, m) (retain-insert_dropped p x ys n)
      ]
    ]

    retain-insert_kept :
        (p : A → Bool) (x : A) (xs : List A)
        → p x ≡ true
        → IsSorted before xs
        → retain p (insert before x xs) ≡ insert before x (retain p xs)
    unfolding insert
    retain-insert_kept p x [] k h = rw k refl
    retain-insert_kept p x (y ∷ ys) k h = elim (Bool-cases (before y x)) [
      | inr stop ↦
          rw (stop, k)
            (sym (
              insert-front x (retain p (y ∷ ys)) (
                All-retain (λ z. before z x ≡ false) p (y ∷ ys)
                  (stop, All-before before asym trans x y ys stop h.0))))
      | inl go ↦ elim (Bool-cases (p y)) [
        | inl m ↦ rw (go, m, go) (ap (λ l. y ∷ l) (retain-insert_kept p x ys k h.1))
        | inr m ↦ rw (go, m) (retain-insert_kept p x ys k h.1)
      ]
    ]

    pub retain-sort :
        (p : A → Bool) (xs : List A) → retain p (sort before xs) ≡ sort before (retain p xs)
    unfolding sort
    retain-sort p [] = refl
    retain-sort p (x ∷ xs) = elim (Bool-cases (p x)) [
      | inl k ↦ rw k (
          retain-insert_kept p x (sort before xs) k (sort-IsSorted before asym trans xs)
          ∙ ap (insert before x) (retain-sort p xs))
      | inr n ↦ rw n (retain-insert_dropped p x (sort before xs) n ∙ retain-sort p xs)
    ]
