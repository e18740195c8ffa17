-- ===== src/Mcp/Finalize/Kept.antt =====
-- What stands in the tags after `finalize_tags` of crates/kengram-mcp/src/finalize.rs.
use k_engram.Prelude.{
  ◌≤◌, false, ◌||◌, List, [], ◌∷◌, map, Option, some, ◌≡◌, ◌≢◌, refl, sym, ◌∙◌, ap, subst, inl, inr,
  if◌then◌else◌, Bool-cases, is_empty, In, In-map, length,
}
use k_engram.Text.{Text, elem}
use k_engram.Text.Laws.{elem_of_In}
use k_engram.Unicode.{Unicode}
use k_engram.Float.{Float}
use k_engram.Dedupe.{Unique}
use k_engram.Core.Json.{Value}
use k_engram.Core.Label.{Scope}
use k_engram.Core.Tags.{Tags, ScopeVocab, max_retrieval_aliases}
use k_engram.Core.Tags.Aliases.{normalize_retrieval_aliases_lem}
use k_engram.Core.Tags.Domain.{IsDomain}
use k_engram.Mcp.Finalize.{
  relationship_nouns, without, scope_set, enforce_people_entities_disjoint, strip_scope_identifiers,
  strip_relationship_nouns, apply_decision_type_override, normalize_against, finalize_tags,
}
use k_engram.Mcp.Finalize.Steps.{
  In-without, normalize_against-people, normalize_against-entities, decision_type-people,
  decision_type-entities, routing_people, routing_entities, routing_aliases, routing-IsDomain,
}

apart_from :
    (u : Unicode) (ps es : List Text) (e : Text)
    → In e (if is_empty ps || is_empty es then es else without u (map u.to_lowercase ps) es)
    → In e es × ((p : Text) → In p ps → u.to_lowercase e ≢ u.to_lowercase p)
apart_from u [] es e m = (m, λ p n. absurd n)
apart_from u (q ∷ ps) [] e m = absurd m
apart_from u (q ∷ ps) (d ∷ es) e m =
    let (there, h) = In-without u (map u.to_lowercase (q ∷ ps)) e (d ∷ es) m in
    (
      there,
      λ p n same. absurd (
          cc (
            sym h
            ∙ ap (λ x. elem x (map u.to_lowercase (q ∷ ps))) same
            ∙ elem_of_In (u.to_lowercase p) (map u.to_lowercase (q ∷ ps))
                (In-map u.to_lowercase p (q ∷ ps) n))),
    )

enforce_entities :
    (u : Unicode) (t : Tags)
    → (enforce_people_entities_disjoint u t).entities ≡ (
        if is_empty t.people || is_empty t.entities
        then t.entities
        else without u (map u.to_lowercase t.people) t.entities)
unfolding enforce_people_entities_disjoint
enforce_entities u t = elim (Bool-cases (is_empty t.people || is_empty t.entities)) [
  | inl e ↦ rw e refl
  | inr e ↦ rw e refl
]

-- An entity that stays is none of the people, up to case.
disjoint_entities :
    (u : Unicode) (t : Tags) (e : Text)
    → In e (enforce_people_entities_disjoint u t).entities
    → In e t.entities × ((p : Text) → In p t.people → u.to_lowercase e ≢ u.to_lowercase p)
disjoint_entities u t e m =
    apart_from u t.people t.entities e (subst (In e) (enforce_entities u t) m)

disjoint_people :
    (u : Unicode) (t : Tags) → (enforce_people_entities_disjoint u t).people ≡ t.people
unfolding enforce_people_entities_disjoint
disjoint_people u t = elim (Bool-cases (is_empty t.people || is_empty t.entities)) [
  | inl e ↦ rw e refl
  | inr e ↦ rw e refl
]

module _ (fl : Float) (u : Unicode) (tags : Tags) (metadata : Value) (own_scope : Scope)
    (vocab : Option ScopeVocab) (known_scopes : List Text) where
  open u use {to_lowercase}

  abbrev scopes : List Text
  scopes = scope_set u own_scope known_scopes

  abbrev final : Tags
  final = finalize_tags fl u tags metadata own_scope vocab known_scopes

  abbrev disjoint : Tags
  disjoint = enforce_people_entities_disjoint u (normalize_against fl u vocab tags)

  final-people : final.people ≡ without u relationship_nouns (without u scopes tags.people)
  unfolding finalize_tags strip_scope_identifiers strip_relationship_nouns
  final-people =
      routing_people u
        (apply_decision_type_override
          (strip_relationship_nouns u (strip_scope_identifiers u disjoint own_scope known_scopes))
          metadata)
        metadata
      ∙ decision_type-people
          (strip_relationship_nouns u (strip_scope_identifiers u disjoint own_scope known_scopes))
          metadata
      ∙ ap (λ ps. without u relationship_nouns (without u scopes ps))
          (disjoint_people u (normalize_against fl u vocab tags)
            ∙ normalize_against-people fl u vocab tags)

  final-entities : final.entities ≡ without u scopes disjoint.entities
  unfolding finalize_tags strip_scope_identifiers strip_relationship_nouns
  final-entities =
      routing_entities u
        (apply_decision_type_override
          (strip_relationship_nouns u (strip_scope_identifiers u disjoint own_scope known_scopes))
          metadata)
        metadata
      ∙ decision_type-entities
          (strip_relationship_nouns u (strip_scope_identifiers u disjoint own_scope known_scopes))
          metadata

  -- A person after the pipeline was given, is no scope and no relationship noun, up to case.
  pub finalize_tags-people :
      (p : Text)
      → In p final.people
      → In p tags.people
        × (elem (to_lowercase p) scopes ≡ false)
        × (elem (to_lowercase p) relationship_nouns ≡ false)
  finalize_tags-people p m =
      let (within, noun) =
        In-without u relationship_nouns p (without u scopes tags.people)
          (subst (In p) final-people m) in
      let (given, scope) = In-without u scopes p tags.people within in (given, scope, noun)

  -- An entity after the pipeline was given, is no scope, and is none of the people after the
  -- pipeline, up to case.
  pub finalize_tags-entities :
      (e : Text)
      → In e final.entities
      → In e tags.entities
        × (elem (to_lowercase e) scopes ≡ false)
        × ((p : Text) → In p final.people → to_lowercase e ≢ to_lowercase p)
  finalize_tags-entities e m =
      let (within, scope) =
        In-without u scopes e disjoint.entities (subst (In e) final-entities m) in
      let (given, apart) = disjoint_entities u (normalize_against fl u vocab tags) e within in
      (
        subst (In e) (normalize_against-entities fl u vocab tags) given,
        scope,
        λ p n. apart p (
            subst (In p) (sym (normalize_against-people fl u vocab tags))
              (finalize_tags-people p n).0),
      )

  -- After the pipeline the domain is one of the closed vocabulary, whether a model chose it or the
  -- metadata did; the aliases are at most six and differ up to case.
  pub finalize_tags-routing :
      ((d : Text) → final.domain_scope ≡ some d → IsDomain d)
      × (length final.retrieval_aliases ≤ max_retrieval_aliases)
      × Unique (map to_lowercase final.retrieval_aliases)
  unfolding finalize_tags
  finalize_tags-routing =
      let before =
        apply_decision_type_override
          (strip_relationship_nouns u (strip_scope_identifiers u disjoint own_scope known_scopes))
          metadata in
      let same = routing_aliases u before metadata in
      let cleaned = normalize_retrieval_aliases_lem u before.retrieval_aliases in
      (routing-IsDomain u before metadata, rw same cleaned.0, rw same cleaned.1)
