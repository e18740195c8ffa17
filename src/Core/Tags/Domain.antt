-- ===== src/Core/Tags/Domain.antt =====
-- The domains that `normalize_domain_scope` of crates/kengram-core/src/tags.rs lets through.
use k_engram.Prelude.{Bool, true, false, ◌||◌, some, ◌≡◌, refl, ◌⊎◌, inl, inr, arith}
use k_engram.Text.{Text, codes, starts_with}
use k_engram.Text.Laws.{text_eq_iff}
use k_engram.Unicode.{Unicode}
use k_engram.Core.Tags.{domain_text, normalize_domain_scope}

-- The closed vocabulary of domains.
abbrev pub IsDomain : Text → Type 0
IsDomain s =
    (s ≡ codes "infra")
    ⊎ (s ≡ codes "decisions")
    ⊎ (starts_with (codes "apps/") s ≡ true)
    ⊎ (starts_with (codes "customers/") s ≡ true)

or_false : (a b : Bool) → (a || b) ≡ true → (a ≡ true) ⊎ (b ≡ true)
or_false true b h = inl refl
or_false false b h = inr h

-- A domain that is let through is one of the closed vocabulary.
pub normalize_domain_scope-IsDomain :
    (u : Unicode) (raw s : Text) → normalize_domain_scope u raw ≡ some s → IsDomain s
unfolding normalize_domain_scope
normalize_domain_scope-IsDomain u raw s e =
    let n = domain_text u raw in
    grind (arith, text_eq_iff n (codes "decisions"), text_eq_iff n (codes "infra"))
