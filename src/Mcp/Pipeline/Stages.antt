-- ===== src/Mcp/Pipeline/Stages.antt =====
-- What the tag filter, the rerank stage and the limit of a search keep of the fused hits, in
-- crates/kengram-mcp/src/search.rs.
use mathlib.Core.List.{Nodup, Nodup-nil, Nodup-cons, Mem, mem-cons, not-mem-nil}
use mathlib.Core.List.Perm
use mathlib.Core.Logic.Or
use mathlib.Core.Logic.{∨₁_prop}
use k_engram.Prelude.{
  ℕ, zero, suc, Bool, true, false, List, [], ◌∷◌, map, Option, none, some, ◌≡◌, refl, ap, sym,
  subst, inl, inr, Bool-cases, length, retain, take, min, All, All-take, if◌then◌else◌,
}
use k_engram.Text.{Text}
use k_engram.Unicode.{Unicode}
use k_engram.Float.{Float}
use k_engram.Sorting.Stable.{All-retain}
use k_engram.Core.Json.{Value}
use k_engram.Core.Fusion.{Hit, Thought, scores_before}
use k_engram.Core.Fusion.Only.{Only, All-perm}
use k_engram.Core.Fusion.Order.{ids}
use k_engram.Mcp.Filter.{tags_match_filter}
use k_engram.Mcp.Gates.{is_empty_filter}
use k_engram.Mcp.Rerank.{Reranker, apply_rerank_to_thought_hits}
use k_engram.Mcp.Rerank.Pool.{thoughts, apply_rerank_to_thought_hits_lem}
use k_engram.Mcp.Pipeline.{apply_tag_filter, rerank_stage}

module _ (fl : Float) where
  Mem-retain :
      (q : Hit fl → Bool) (x : ℕ) (hits : List (Hit fl))
      → Mem x (ids fl (retain q hits))
      → Mem x (ids fl hits)
  Mem-retain q x [] m = m
  Mem-retain q x (h ∷ hits) m = elim (Bool-cases (q h)) [
    | inl e ↦
        let kept : Mem x (h.thought.id.uuid ∷ ids fl (retain q hits)) =
          subst (λ b. Mem x (ids fl (if b then h ∷ retain q hits else retain q hits))) e m in
        mem-cons.1 (
          Or.elim ∨₁_prop (mem-cons.0 kept) (λ s. Or.inl s)
            (λ later. Or.inr (Mem-retain q x hits later)))
    | inr n ↦
        let kept : Mem x (ids fl (retain q hits)) =
          subst (λ b. Mem x (ids fl (if b then h ∷ retain q hits else retain q hits))) n m in
        mem-cons.1 (Or.inr (Mem-retain q x hits kept))
  ]

  Nodup-retain :
      (q : Hit fl → Bool) (hits : List (Hit fl))
      → Nodup (ids fl hits)
      → Nodup (ids fl (retain q hits))
  Nodup-retain q [] d = d
  Nodup-retain q (h ∷ hits) d =
      let (new, rest) = Nodup-cons.0 d in
      elim (Bool-cases (q h)) [
        | inl e ↦ rw e (
            Nodup-cons.1
              (λ m. new (Mem-retain q h.thought.id.uuid hits m), Nodup-retain q hits rest))
        | inr n ↦ rw n (Nodup-retain q hits rest)
      ]

  Mem-take : (n x : ℕ) (hits : List (Hit fl)) → Mem x (ids fl (take n hits)) → Mem x (ids fl hits)
  Mem-take zero x hits m = absurd (not-mem-nil m)
  Mem-take (suc n) x [] m = m
  Mem-take (suc n) x (h ∷ hits) m =
      mem-cons.1
        (Or.elim ∨₁_prop (mem-cons.0 m) (λ s. Or.inl s) (λ later. Or.inr (Mem-take n x hits later)))

  pub Nodup-take :
      (n : ℕ) (hits : List (Hit fl)) → Nodup (ids fl hits) → Nodup (ids fl (take n hits))
  Nodup-take zero hits d = Nodup-nil
  Nodup-take (suc n) [] d = d
  Nodup-take (suc n) (h ∷ hits) d =
      let (new, rest) = Nodup-cons.0 d in
      Nodup-cons.1 ((λ m. new (Mem-take n h.thought.id.uuid hits m)), Nodup-take n hits rest)

  abbrev uuid_of : Thought → ℕ
  uuid_of t = t.id.uuid

  ids-thoughts : (hits : List (Hit fl)) → map uuid_of (thoughts fl hits) ≡ ids fl hits
  ids-thoughts [] = refl
  ids-thoughts (h ∷ hits) = ap (λ ns. h.thought.id.uuid ∷ ns) (ids-thoughts hits)

  All-thoughts :
      (p : Thought → Bool) (hits : List (Hit fl))
      → Only fl p hits
      → All (λ t. p t ≡ true) (thoughts fl hits)
  All-thoughts p [] h = tt
  All-thoughts p (g ∷ hits) h = (h.0, All-thoughts p hits h.1)

  Only-of_thoughts :
      (p : Thought → Bool) (hits : List (Hit fl))
      → All (λ t. p t ≡ true) (thoughts fl hits)
      → Only fl p hits
  Only-of_thoughts p [] h = tt
  Only-of_thoughts p (g ∷ hits) h = (h.0, Only-of_thoughts p hits h.1)

  abbrev Passes : Value → List (Hit fl) → Type 0
  Passes filter = Only fl (λ t. tags_match_filter t.tags filter)

  module _ (u : Unicode) (Vector StorageError EmbedderError ExpansionError : Type 0) where
    pub Only-apply_tag_filter :
        (p : Thought → Bool) (filter : Option Value) (hits : List (Hit fl))
        → Only fl p hits
        → Only fl p
            (apply_tag_filter fl u Vector StorageError EmbedderError ExpansionError filter hits)
    Only-apply_tag_filter p none hits h = h
    Only-apply_tag_filter p (some filter) hits h = elim (Bool-cases (is_empty_filter filter)) [
      | inl e ↦ rw e h
      | inr n ↦ rw n (
          All-retain (scores_before fl) (λ g. p g.thought ≡ true)
            (λ g. tags_match_filter g.thought.tags filter) hits h)
    ]

    pub Nodup-apply_tag_filter :
        (filter : Option Value) (hits : List (Hit fl))
        → Nodup (ids fl hits)
        → Nodup (
            ids fl
              (apply_tag_filter fl u Vector StorageError EmbedderError ExpansionError filter hits))
    Nodup-apply_tag_filter none hits d = d
    Nodup-apply_tag_filter (some filter) hits d = elim (Bool-cases (is_empty_filter filter)) [
      | inl e ↦ rw e d
      | inr n ↦ rw n (Nodup-retain (λ g. tags_match_filter g.thought.tags filter) hits d)
    ]

    all_pass : (q : Hit fl → Bool) (hits : List (Hit fl)) → All (λ h. q h ≡ true) (retain q hits)
    all_pass q [] = tt
    all_pass q (h ∷ hits) = elim (Bool-cases (q h)) [
      | inl e ↦ rw e (e, all_pass q hits)
      | inr n ↦ rw n (all_pass q hits)
    ]

    pub apply_tag_filter-Passes :
        (filter : Value) (hits : List (Hit fl))
        → is_empty_filter filter ≡ false
        → Passes filter (
            apply_tag_filter fl u Vector StorageError EmbedderError ExpansionError
              (some filter)
              hits)
    apply_tag_filter-Passes filter hits e =
        rw e (all_pass (λ g. tags_match_filter g.thought.tags filter) hits)

    -- A rerank stage that is on.
    Only-rerank :
        (p : Thought → Bool) (reranker : Reranker fl) (query : Text) (hits : List (Hit fl))
        (pool : ℕ) (boosting : Bool)
        → Only fl p hits
        → Only fl p (apply_rerank_to_thought_hits fl u reranker query hits pool boosting).0
    Only-rerank p reranker query hits pool boosting h =
        let r = apply_rerank_to_thought_hits fl u reranker query hits pool boosting in
        let cases = apply_rerank_to_thought_hits_lem fl u reranker query hits pool boosting in
        let front = take (min pool (length hits)) hits in
        elim (Bool-cases r.1) [
          | inl used ↦ Only-of_thoughts p r.0 (
              All-perm p (thoughts fl r.0) (thoughts fl front) (cases.1 used) (
                All-thoughts p front
                  (All-take (λ g. p g.thought ≡ true) (min pool (length hits)) hits h)))
          | inr unused ↦ subst (Only fl p) (sym (cases.0 unused)) h
        ]

    Nodup-rerank :
        (reranker : Reranker fl) (query : Text) (hits : List (Hit fl)) (pool : ℕ) (boosting : Bool)
        → Nodup (ids fl hits)
        → Nodup (ids fl (apply_rerank_to_thought_hits fl u reranker query hits pool boosting).0)
    Nodup-rerank reranker query hits pool boosting d =
        let r = apply_rerank_to_thought_hits fl u reranker query hits pool boosting in
        let cases = apply_rerank_to_thought_hits_lem fl u reranker query hits pool boosting in
        let front = take (min pool (length hits)) hits in
        elim (Bool-cases r.1) [
          | inl used ↦
              subst (λ ns. Nodup ns) (ids-thoughts r.0)
                (Perm.nodup (Perm.symm (Perm.map uuid_of (cases.1 used))) (
                  subst (λ ns. Nodup ns) (sym (ids-thoughts front))
                    (Nodup-take (min pool (length hits)) hits d)))
          | inr unused ↦ subst (λ hs. Nodup (ids fl hs)) (sym (cases.0 unused)) d
        ]

    pub Only-rerank_stage :
        (p : Thought → Bool) (enabled : Bool) (reranker : Option (Reranker fl)) (query : Text)
        (hits : List (Hit fl)) (pool : ℕ) (boosting : Bool)
        → Only fl p hits
        → Only fl p
            (rerank_stage fl u Vector StorageError EmbedderError ExpansionError enabled reranker
              query hits pool boosting).0
    Only-rerank_stage p true (some reranker) query hits pool boosting h =
        Only-rerank p reranker query hits pool boosting h
    Only-rerank_stage p true none query hits pool boosting h = h
    Only-rerank_stage p false (some reranker) query hits pool boosting h = h
    Only-rerank_stage p false none query hits pool boosting h = h

    pub Nodup-rerank_stage :
        (enabled : Bool) (reranker : Option (Reranker fl)) (query : Text) (hits : List (Hit fl))
        (pool : ℕ) (boosting : Bool)
        → Nodup (ids fl hits)
        → Nodup (
            ids fl
              (rerank_stage fl u Vector StorageError EmbedderError ExpansionError enabled reranker
                query hits pool boosting).0)
    Nodup-rerank_stage true (some reranker) query hits pool boosting d =
        Nodup-rerank reranker query hits pool boosting d
    Nodup-rerank_stage true none query hits pool boosting d = d
    Nodup-rerank_stage false (some reranker) query hits pool boosting d = d
    Nodup-rerank_stage false none query hits pool boosting d = d
