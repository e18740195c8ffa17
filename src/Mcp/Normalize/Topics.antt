-- ===== src/Mcp/Normalize/Topics.antt =====
-- The topics after `normalize_topics` of crates/kengram-mcp/src/normalize.rs.
use k_engram.Prelude.{
  true, false, List, [], ◌∷◌, map, Option, none, some, ◌≡◌, ◌≢◌, refl, sym, ap, subst, ◌⊎◌, inl,
  inr, Bool-cases, All, All-of_In, In, In-map, In-map_back,
}
use k_engram.Text.{Text}
use k_engram.Text.Laws.{In-of_elem}
use k_engram.Unicode.{Unicode}
use k_engram.Float.{Float, le?}
use k_engram.Dedupe.{Unique, dedupe, dedupe-Unique, dedupe-All, dedupe_complete}
use k_engram.Mcp.Normalize.{
  threshold, similarity, better, best_term, canonical_or, normalize_one, normalize_topics,
}

map-id : (ts : List Text) → map (λ t. t) ts ≡ ts
map-id [] = refl
map-id (t ∷ ts) = ap (λ us. t ∷ us) (map-id ts)

module _ (fl : Float) (u : Unicode) where
  open fl use {F, lt}
  open u use {to_lowercase}

  -- The search state: a term of the vocabulary with its own score, at least the threshold.
  abbrev Scored : Text → List Text → Option (Text × F) → Type 0
  Scored lowered vocab none = Unit
  Scored lowered vocab (some (w, score)) =
      In w vocab
      × (score ≡ similarity fl u lowered (to_lowercase w))
      × (le? fl (threshold fl u) score ≡ true)

  better-Scored :
      (lowered v : Text) (vocab : List Text) (best : Option (Text × F))
      → In v vocab
      → le? fl (threshold fl u) (similarity fl u lowered (to_lowercase v)) ≡ true
      → Scored lowered vocab best
      → Scored lowered vocab (better fl u v (similarity fl u lowered (to_lowercase v)) best)
  better-Scored lowered v vocab none m h s = (m, refl, h)
  better-Scored lowered v vocab (some (w, best)) m h s =
      elim (Bool-cases (lt (similarity fl u lowered (to_lowercase v)) best)) [
        | inl e ↦ rw e s
        | inr e ↦ rw e (m, refl, h)
      ]

  best_term-Scored :
      (lowered : Text) (vocab : List Text) (best : Option (Text × F)) (rest : List Text)
      → ((v : Text) → In v rest → In v vocab)
      → Scored lowered vocab best
      → Scored lowered vocab (best_term fl u lowered best rest)
  unfolding best_term
  best_term-Scored lowered vocab best [] within s = s
  best_term-Scored lowered vocab best (v ∷ rest) within s =
      elim (Bool-cases (le? fl (threshold fl u) (similarity fl u lowered (to_lowercase v)))) [
        | inl e ↦ rw e (
            best_term-Scored lowered vocab
              (better fl u v (similarity fl u lowered (to_lowercase v)) best) rest
              (λ w m. within w (inr m))
              (better-Scored lowered v vocab best (within v (inl refl)) e s))
        | inr e ↦ rw e (best_term-Scored lowered vocab best rest (λ w m. within w (inr m)) s)
      ]

  -- What a topic becomes: itself, or a term of the vocabulary that is similar enough.
  abbrev pub Snapped : List Text → Text → Text → Type 0
  Snapped vocab emitted topic =
      (topic ≡ emitted)
      ⊎ (In topic vocab
          × (le? fl (threshold fl u) (similarity fl u (to_lowercase emitted) (to_lowercase topic))
              ≡ true))

  normalize_one-Snapped :
      (emitted : Text) (vocab : List Text)
      → Snapped vocab emitted (normalize_one fl u emitted vocab)
  unfolding normalize_one
  normalize_one-Snapped emitted vocab =
      canonical_or-Snapped (best_term fl u (to_lowercase emitted) none vocab)
        (best_term-Scored (to_lowercase emitted) vocab none vocab (λ v m. m) tt)
    where
      canonical_or-Snapped :
          (best : Option (Text × F))
          → Scored (to_lowercase emitted) vocab best
          → Snapped vocab emitted (canonical_or fl u emitted best)
      canonical_or-Snapped none s = inl refl
      canonical_or-Snapped (some (w, score)) s =
          inr (s.0, subst (λ x. le? fl (threshold fl u) x ≡ true) s.1 s.2)

  -- Against a vocabulary that is not empty, no topic stands twice, each is an emitted one or a term
  -- of the vocabulary whose similarity to an emitted one reaches the threshold, and the normal form
  -- of each emitted one is kept.
  pub normalize_topics_lem :
      (emitted vocab : List Text)
      → vocab ≢ []
      → Unique (normalize_topics fl u emitted vocab)
        × All
            (λ topic. (t : Text) × In t emitted × Snapped vocab t topic)
            (normalize_topics fl u emitted vocab)
        × ((t : Text)
            → In t emitted
            → In (normalize_one fl u t vocab) (normalize_topics fl u emitted vocab))
  unfolding normalize_topics
  normalize_topics_lem emitted [] some_term = absurd (some_term refl)
  normalize_topics_lem emitted (v ∷ vs) some_term =
      let one : Text → Text = λ t. normalize_one fl u t (v ∷ vs) in
      let normal = map one emitted in
      let kept = dedupe (λ t. t) (λ n. false) normal in
      (
        subst Unique (map-id kept) (dedupe-Unique (λ t. t) (λ n. false) normal),
        dedupe-All (λ t. t) (λ n. false)
            (λ topic. (t : Text) × In t emitted × Snapped (v ∷ vs) t topic) normal
            (All-of_In (λ topic. (t : Text) × In t emitted × Snapped (v ∷ vs) t topic) normal
              (λ topic m.
                let (t, from, e) = In-map_back one topic emitted m in
                (t, from, subst (Snapped (v ∷ vs) t) (sym e) (normalize_one-Snapped t (v ∷ vs))))),
        λ t m.
            elim (dedupe_complete (λ t. t) (λ n. false) (one t) normal (In-map one t emitted m)) [
              | inl there ↦
                  subst (In (one t)) (map-id kept) (In-of_elem (one t) (map (λ t. t) kept) there)
              | inr full ↦ absurd (cc full)
            ],
      )
