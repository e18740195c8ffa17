-- ===== src/Mcp/Normalize/Levenshtein.antt =====
-- The row by row computation of the edit distance against the scripts of single edits.
use k_engram.Prelude.{
  ℕ, suc, ◌+◌, ◌≤◌, List, [], ◌∷◌, ◌++◌, ◌≡◌, refl, sym, ◌∙◌, ap, subst, ◌⊎◌, inl, inr, Bool-cases,
  ◌==◌, if◌then◌else◌, length, min, arith, ==_iff,
}
use mathlib.Core.List.{append-nil}
use k_engram.Text.{Text}
use k_engram.Mcp.Normalize.{count_from, next_cells, rows, cell_at, levenshtein}

-- A script that turns the first text into the second, and its number of edits.
pub data Edits : Text → Text → ℕ → Type 0 where
  done : Edits [] [] 0
  match_char : (c : ℕ) (a b : Text) (n : ℕ) → Edits a b n → Edits (c ∷ a) (c ∷ b) n
  replace : (c d : ℕ) (a b : Text) (n : ℕ) → Edits a b n → Edits (c ∷ a) (d ∷ b) (suc n)
  insert : (d : ℕ) (a b : Text) (n : ℕ) → Edits a b n → Edits a (d ∷ b) (suc n)
  delete : (c : ℕ) (a b : Text) (n : ℕ) → Edits a b n → Edits (c ∷ a) b (suc n)

-- The distance by recursion on both texts.
lev : Text → Text → ℕ
lev [] b = length b
lev (x ∷ a) [] = length (x ∷ a)
lev (x ∷ a) (y ∷ b) =
    min (min (lev a (y ∷ b) + 1) (lev (x ∷ a) b + 1)) (lev a b + (if x == y then 0 else 1))

rest_of_row : Text → Text → Text → List ℕ
rest_of_row ra rb [] = []
rest_of_row ra rb (c ∷ bs) = lev ra (c ∷ rb) ∷ rest_of_row ra (c ∷ rb) bs

-- The row of a prefix of the first text: its distances to the prefixes of the second. Prefixes are
-- reversed, so that they grow at the front.
row : Text → Text → Text → List ℕ
unfolding rest_of_row
row ra rb bs = lev ra rb ∷ rest_of_row ra rb bs

next_cells-rest_of_row :
    (ca : ℕ) (ra rb bs : Text)
    → next_cells ca (lev (ca ∷ ra) rb) (row ra rb bs) bs ≡ rest_of_row (ca ∷ ra) rb bs
unfolding next_cells row rest_of_row lev
next_cells-rest_of_row ca ra rb [] = refl
next_cells-rest_of_row ca ra rb (c ∷ bs) =
    ap (λ cells. lev (ca ∷ ra) (c ∷ rb) ∷ cells) (next_cells-rest_of_row ca ra (c ∷ rb) bs)

lev-nil : (ra : Text) → lev ra [] ≡ length ra
unfolding lev
lev-nil [] = refl
lev-nil (c ∷ ra) = refl

-- The first text in reverse, in front of the second.
onto : Text → Text → Text
onto [] acc = acc
onto (c ∷ s) acc = onto s (c ∷ acc)

rows-row : (b ra s : Text) → rows (length ra) b (row ra [] b) s ≡ row (onto s ra) [] b
unfolding rows onto row lev
rows-row b ra [] = refl
rows-row b ra (c ∷ s) =
    ap (λ r. rows (suc (length ra)) b r s)
      (ap (λ cells. suc (length ra) ∷ cells) (next_cells-rest_of_row c ra [] b))
    ∙ rows-row b (c ∷ ra) s

count_from-row : (rb bs : Text) → count_from (length rb) bs ≡ row [] rb bs
unfolding count_from row rest_of_row lev
count_from-row rb [] = refl
count_from-row rb (c ∷ bs) = ap (λ cells. length rb ∷ cells) (count_from-row (c ∷ rb) bs)

cell_at-row : (ra rb bs : Text) → cell_at (row ra rb bs) (length bs) ≡ lev ra (onto bs rb)
unfolding cell_at row rest_of_row onto
cell_at-row ra rb [] = refl
cell_at-row ra rb (c ∷ bs) = cell_at-row ra (c ∷ rb) bs

levenshtein_cells :
    (a b : Text) → cell_at (rows 0 b (count_from 0 b) a) (length b) ≡ lev (onto a []) (onto b [])
levenshtein_cells a b = rw (count_from-row [] b, rows-row b [] a) (cell_at-row (onto a []) [] b)

min_cases : (i j : ℕ) → (min i j ≡ i) ⊎ (min i j ≡ j)
min_cases i j = omega arith

min_of_three : (P : ℕ → Type 0) (i j k : ℕ) → P i → P j → P k → P (min (min i j) k)
min_of_three P i j k p q r = elim (min_cases (min i j) k) [
  | inr e ↦ subst P (sym e) r
  | inl e ↦
      subst P (sym e)
        (elim (min_cases i j) [ inl f ↦ subst P (sym f) p | inr f ↦ subst P (sym f) q ])
]

same_or_replaced :
    (x y : ℕ) (a b : Text) (n : ℕ)
    → Edits a b n
    → Edits (x ∷ a) (y ∷ b) (n + (if x == y then 0 else 1))
same_or_replaced x y a b n script = elim (Bool-cases (x == y)) [
  | inl e ↦ rw e (
      subst (λ z. Edits (x ∷ a) (z ∷ b) (n + 0)) ((==_iff x y).0 e)
        (subst (Edits (x ∷ a) (x ∷ b)) (omega arith) (match_char x a b n script)))
  | inr m ↦ rw m (subst (Edits (x ∷ a) (y ∷ b)) (omega arith) (replace x y a b n script))
]

lev_sound : (a b : Text) → Edits a b (lev a b)
unfolding lev
lev_sound [] [] = done
lev_sound [] (y ∷ b) = insert y [] b (length b) (lev_sound [] b)
lev_sound (x ∷ a) [] = delete x a [] (length a) (subst (Edits a []) (lev-nil a) (lev_sound a []))
lev_sound (x ∷ a) (y ∷ b) =
    min_of_three (Edits (x ∷ a) (y ∷ b)) (lev a (y ∷ b) + 1) (lev (x ∷ a) b + 1)
      (lev a b + (if x == y then 0 else 1))
      (subst (Edits (x ∷ a) (y ∷ b)) (omega arith)
        (delete x a (y ∷ b) (lev a (y ∷ b)) (lev_sound a (y ∷ b))))
      (subst (Edits (x ∷ a) (y ∷ b)) (omega arith)
        (insert y (x ∷ a) b (lev (x ∷ a) b) (lev_sound (x ∷ a) b)))
      (same_or_replaced x y a b (lev a b) (lev_sound a b))

lev_insert : (a b : Text) (y : ℕ) → lev a (y ∷ b) ≤ lev a b + 1
unfolding lev
lev_insert [] b y = omega arith
lev_insert (x ∷ a) b y = omega arith

lev_delete : (a b : Text) (x : ℕ) → lev (x ∷ a) b ≤ lev a b + 1
unfolding lev
lev_delete a [] x = omega (arith, lev-nil a)
lev_delete a (y ∷ b) x = omega arith

lev_least : (a b : Text) (n : ℕ) → Edits a b n → lev a b ≤ n
unfolding lev
lev_least _ _ _ done = omega arith
lev_least _ _ _ (match_char c a b n script) = ground (arith, lev_least a b n script)
lev_least _ _ _ (replace c d a b n script) = ground (arith, lev_least a b n script)
lev_least _ _ _ (insert d a b n script) = omega (arith, lev_least a b n script, lev_insert a b d)
lev_least _ _ _ (delete c a b n script) = omega (arith, lev_least a b n script, lev_delete a b c)

Edits-onto :
    (a b a' b' : Text) (n m : ℕ)
    → Edits a b n
    → Edits a' b' m
    → Edits (onto a a') (onto b b') (n + m)
unfolding onto
Edits-onto _ _ a' b' _ m done after = subst (Edits a' b') (omega arith) after
Edits-onto _ _ a' b' _ m (match_char c a b n script) after =
    Edits-onto a b (c ∷ a') (c ∷ b') n m script (match_char c a' b' m after)
Edits-onto _ _ a' b' _ m (replace c d a b n script) after =
    subst (Edits (onto a (c ∷ a')) (onto b (d ∷ b'))) (omega arith)
      (Edits-onto a b (c ∷ a') (d ∷ b') n (suc m) script (replace c d a' b' m after))
Edits-onto _ _ a' b' _ m (insert d a b n script) after =
    subst (Edits (onto a a') (onto b (d ∷ b'))) (omega arith)
      (Edits-onto a b a' (d ∷ b') n (suc m) script (insert d a' b' m after))
Edits-onto _ _ a' b' _ m (delete c a b n script) after =
    subst (Edits (onto a (c ∷ a')) (onto b b')) (omega arith)
      (Edits-onto a b (c ∷ a') b' n (suc m) script (delete c a' b' m after))

onto-onto : (a x y : Text) → onto (onto a x) y ≡ onto x (a ++ y)
unfolding onto
onto-onto [] x y = refl
onto-onto (c ∷ a) x y = onto-onto a (c ∷ x) y

onto_twice : (a : Text) → onto (onto a []) [] ≡ a
unfolding onto
onto_twice a = onto-onto a [] [] ∙ append-nil a

Edits-forth : (a b : Text) (n : ℕ) → Edits a b n → Edits (onto a []) (onto b []) n
Edits-forth a b n script =
    subst (Edits (onto a []) (onto b [])) (omega arith) (Edits-onto a b [] [] n 0 script done)

length-onto : (b acc : Text) → length (onto b acc) ≡ length b + length acc
unfolding onto
length-onto [] acc = omega arith
length-onto (c ∷ b) acc = omega (arith, length-onto b (c ∷ acc))

levenshtein-lev : (a b : Text) → levenshtein a b ≡ lev (onto a []) (onto b [])
unfolding levenshtein onto lev
levenshtein-lev [] b = omega (arith, length-onto b [])
levenshtein-lev (x ∷ a) [] = omega (arith, lev-nil (onto (x ∷ a) []), length-onto (x ∷ a) [])
levenshtein-lev (x ∷ a) (y ∷ b) = levenshtein_cells (x ∷ a) (y ∷ b)

-- The computed number of edits is enough to turn one text into the other, and no script of single
-- insertions, deletions and replacements has fewer.
pub levenshtein_lem :
    (a b : Text) → Edits a b (levenshtein a b) × ((n : ℕ) → Edits a b n → levenshtein a b ≤ n)
levenshtein_lem a b = rw (levenshtein-lev a b) (
  subst (λ s. Edits s b (lev (onto a []) (onto b []))) (onto_twice a)
      (subst (λ t. Edits (onto (onto a []) []) t (lev (onto a []) (onto b []))) (onto_twice b)
        (Edits-forth (onto a []) (onto b []) (lev (onto a []) (onto b []))
          (lev_sound (onto a []) (onto b [])))),
  λ n script. lev_least (onto a []) (onto b []) n (Edits-forth a b n script),
)
