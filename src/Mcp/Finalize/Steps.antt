-- ===== src/Mcp/Finalize/Steps.antt =====
-- What single steps of `finalize_tags` of crates/kengram-mcp/src/finalize.rs keep or leave alone.
use k_engram.Prelude.{
  true, false, not, List, Option, none, some, ◌≡◌, refl, sym, ◌∙◌, ap, subst, ◌⊎◌, inl, inr, arith,
  Bool-cases, is_empty, In, In-retain, some_injective, ◌++◌,
}
use k_engram.Text.{Text, codes, elem, starts_with}
use k_engram.Text.Laws.{starts_with-append}
use k_engram.Unicode.{Unicode}
use k_engram.Float.{Float}
use k_engram.Core.Json.{Value, get, str_of}
use k_engram.Core.Tags.{
  Tags, ScopeVocab, normalize_retrieval_aliases, normalize_routing_fields,
  apply_metadata_domain_override, and_then_domain, first_slug, slug_of, overridden, metadata_str,
  customer_keys,
}
use k_engram.Core.Tags.Domain.{IsDomain, normalize_domain_scope-IsDomain}
use k_engram.Mcp.Finalize.{without, apply_decision_type_override, normalize_against, is_filled}

pub In-without :
    (u : Unicode) (set : List Text) (t : Text) (ts : List Text)
    → In t (without u set ts)
    → In t ts × (elem (u.to_lowercase t) set ≡ false)
In-without u set t ts m =
    let (there, h) = In-retain (λ s. not (elem (u.to_lowercase s) set)) t ts m in
    (there, ground arith)

-- The steps that leave a field alone.
pub normalize_against-people :
    (fl : Float) (u : Unicode) (v : Option ScopeVocab) (t : Tags)
    → (normalize_against fl u v t).people ≡ t.people
unfolding normalize_against
normalize_against-people fl u none t = refl
normalize_against-people fl u (some v) t = elim (Bool-cases (is_empty v.topics)) [
  | inl e ↦ rw e refl
  | inr e ↦ rw e refl
]

pub normalize_against-entities :
    (fl : Float) (u : Unicode) (v : Option ScopeVocab) (t : Tags)
    → (normalize_against fl u v t).entities ≡ t.entities
unfolding normalize_against
normalize_against-entities fl u none t = refl
normalize_against-entities fl u (some v) t = elim (Bool-cases (is_empty v.topics)) [
  | inl e ↦ rw e refl
  | inr e ↦ rw e refl
]

pub decision_type-people :
    (t : Tags) (m : Value) → (apply_decision_type_override t m).people ≡ t.people
unfolding apply_decision_type_override
decision_type-people t m = elim (Bool-cases (is_filled (str_of (get m (codes "decision_type"))))) [
  | inl e ↦ rw e refl
  | inr e ↦ rw e refl
]

pub decision_type-entities :
    (t : Tags) (m : Value) → (apply_decision_type_override t m).entities ≡ t.entities
unfolding apply_decision_type_override
decision_type-entities t m =
    elim (Bool-cases (is_filled (str_of (get m (codes "decision_type"))))) [
      | inl e ↦ rw e refl
      | inr e ↦ rw e refl
    ]

-- The metadata only ever sets the domain, to a customer's or a project's.
override_cases :
    (u : Unicode) (t : Tags) (m : Value)
    → (apply_metadata_domain_override u t m ≡ t)
      ⊎ ((d : Text) × ((starts_with (codes "customers/") d ≡ true)
            ⊎ (starts_with (codes "apps/") d ≡ true))
          × (apply_metadata_domain_override u t m ≡ record t { domain_scope = some d }))
unfolding apply_metadata_domain_override
override_cases u t m =
    overridden_cases (first_slug u m (customer_keys u))
      (slug_of u (metadata_str m (codes "project")))
  where
    overridden_cases :
        (c p : Option Text)
        → (overridden u t c p ≡ t)
          ⊎ ((d : Text) × ((starts_with (codes "customers/") d ≡ true)
                ⊎ (starts_with (codes "apps/") d ≡ true))
              × (overridden u t c p ≡ record t { domain_scope = some d }))
    overridden_cases none none = inl refl
    overridden_cases (some c) p =
        inr (codes "customers/" ++ c, inl (starts_with-append (codes "customers/") c), refl)
    overridden_cases none (some p) =
        inr (codes "apps/" ++ p, inr (starts_with-append (codes "apps/") p), refl)

-- The last two steps leave people and entities alone.
pub routing_people :
    (u : Unicode) (t : Tags) (m : Value)
    → (apply_metadata_domain_override u (normalize_routing_fields u t) m).people ≡ t.people
unfolding normalize_routing_fields
routing_people u t m = elim (override_cases u (normalize_routing_fields u t) m) [
  | inl e ↦ ap (λ x. x.people) e
  | inr (d, k, e) ↦ ap (λ x. x.people) e
]

pub routing_entities :
    (u : Unicode) (t : Tags) (m : Value)
    → (apply_metadata_domain_override u (normalize_routing_fields u t) m).entities ≡ t.entities
unfolding normalize_routing_fields
routing_entities u t m = elim (override_cases u (normalize_routing_fields u t) m) [
  | inl e ↦ ap (λ x. x.entities) e
  | inr (d, k, e) ↦ ap (λ x. x.entities) e
]

pub routing_aliases :
    (u : Unicode) (t : Tags) (m : Value)
    → (apply_metadata_domain_override u (normalize_routing_fields u t) m).retrieval_aliases
      ≡ normalize_retrieval_aliases u t.retrieval_aliases
unfolding normalize_routing_fields
routing_aliases u t m = elim (override_cases u (normalize_routing_fields u t) m) [
  | inl e ↦ ap (λ x. x.retrieval_aliases) e
  | inr (d, k, e) ↦ ap (λ x. x.retrieval_aliases) e
]

and_then_domain-IsDomain :
    (u : Unicode) (o : Option Text) (d : Text) → and_then_domain u o ≡ some d → IsDomain d
and_then_domain-IsDomain u none d e = cc
and_then_domain-IsDomain u (some raw) d e = normalize_domain_scope-IsDomain u raw d e

pub routing-IsDomain :
    (u : Unicode) (t : Tags) (m : Value) (d : Text)
    → (apply_metadata_domain_override u (normalize_routing_fields u t) m).domain_scope ≡ some d
    → IsDomain d
unfolding normalize_routing_fields
routing-IsDomain u t m d h = elim (override_cases u (normalize_routing_fields u t) m) [
  | inl e ↦ and_then_domain-IsDomain u t.domain_scope d (sym (ap (λ x. x.domain_scope) e) ∙ h)
  | inr (d', k, e) ↦
      let same : d' ≡ d = some_injective (sym (ap (λ x. x.domain_scope) e) ∙ h) in
      elim k [
        | inl c ↦ inr (inr (inr (subst (λ s. starts_with (codes "customers/") s ≡ true) same c)))
        | inr a ↦ inr (inr (inl (subst (λ s. starts_with (codes "apps/") s ≡ true) same a)))
      ]
]
