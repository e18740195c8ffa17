-- ===== src/Storage/Links/Selection.antt =====
-- Which edges the two statements of `fetch_related_thoughts` of crates/kengram-storage/src/lib.rs
-- select, by the meaning of their conditions.
use k_engram.Prelude.{
  ℕ, Bool, true, not, ◌&&◌, ◌==◌, ◌≡◌, ◌≢◌, refl, sym, ap, ◌∙◌, arith, ◌⊎◌, inl, inr, ◌↔◌, List, [],
  ◌∷◌, Option, none, some, some_injective, is_some, retain, Bool-cases, and_true, true_and, In,
}
use k_engram.Text.{Text, codes}
use k_engram.Text.Laws.{elem_iff}
use k_engram.Sorting.{IsSorted}
use mathlib.Core.List.{Perm}
use k_engram.Core.Relation.{ThoughtId, LinkDirection, outbound, inbound}
use k_engram.Storage.Links.{
  LinkRow, ThoughtRow, newer_row, find_thought_row, passes, is_thought, is_outbound, is_inbound,
}

-- An empty filter lets everything through.
abbrev pub Passes : List Text → Text → Type 0
Passes filter column = (filter ≡ []) ⊎ In column filter

-- A live edge from the thought, in a traversal that goes out.
abbrev pub IsOutboundEdge : ℕ → List Text → List Text → LinkDirection → LinkRow → Type 0
IsOutboundEdge id relations kinds dir row =
    (dir ≢ inbound)
    × (row.from_thought ≡ id)
    × (row.deleted_at ≡ none)
    × Passes relations row.relation
    × Passes kinds row.to_kind

-- A live edge to the thought from one in the table, in a traversal that comes in and asks for the
-- kind of a thought.
abbrev pub IsInboundEdge :
    List ThoughtRow → ℕ → List Text → List Text → LinkDirection → LinkRow → Type 0
IsInboundEdge thoughts id relations kinds dir row =
    (dir ≢ outbound)
    × Passes kinds (codes "thought")
    × (row.to_thought ≡ some (record { uuid = id }))
    × (row.deleted_at ≡ none)
    × Passes relations row.relation
    × ((t : ThoughtRow) × In t thoughts × (t.thought_id ≡ row.from_thought))

-- `rows` are the edges of the table for which `P` holds, each as often as there, the newest first.
abbrev pub IsSelection : List LinkRow → (LinkRow → Type 0) → List LinkRow → Type 0
IsSelection links P rows =
    (q : LinkRow → Bool) × ((row : LinkRow) → (q row ≡ true) ↔ P row)
    × Perm rows (retain q links)
    × IsSorted newer_row rows

pub passes_iff :
    (filter : List Text) (column : Text) → (passes filter column ≡ true) ↔ Passes filter column
passes_iff [] column = (λ e. inl refl, λ p. refl)
passes_iff (f ∷ fs) column = (
  λ e. inr ((elem_iff column (f ∷ fs)).0 e),
  λ p. elim p [ inl n ↦ absurd (cc n) | inr m ↦ (elem_iff column (f ∷ fs)).1 m ],
)

not-is_some_iff : (o : Option ℕ) → (not (is_some o) ≡ true) ↔ (o ≡ none)
not-is_some_iff none = (λ e. refl, λ e. refl)
not-is_some_iff (some n) = (λ e. absurd (cc e), λ e. absurd (cc e))

is_thought_iff :
    (o : Option ThoughtId) (id : ℕ) → (is_thought o id ≡ true) ↔ (o ≡ some (record { uuid = id }))
is_thought_iff none id = (λ e. absurd (cc e), λ e. absurd (cc e))
is_thought_iff (some t) id = (
  λ e. let same : t.uuid ≡ id = ground arith in ap (λ n. some (record { uuid = n })) same,
  λ e. let same : t.uuid ≡ id = ap (λ (u : ThoughtId). u.uuid) (some_injective e) in ground arith,
)

pub find_thought_row_iff :
    (thoughts : List ThoughtRow) (id : ℕ)
    → (is_some (find_thought_row thoughts id) ≡ true)
      ↔ ((t : ThoughtRow) × In t thoughts × (t.thought_id ≡ id))
unfolding find_thought_row
find_thought_row_iff [] id = (λ e. absurd (cc e), λ (t, m, e). absurd m)
find_thought_row_iff (t ∷ ts) id = elim (Bool-cases (t.thought_id == id)) [
  | inl hit ↦ (λ e. (t, inl refl, ground arith), λ h. rw hit refl)
  | inr miss ↦ (
    λ e. let (u, m, same) = (find_thought_row_iff ts id).0 (rw miss at e) in (u, inr m, same),
    λ (u, m, same). elim m [
      | inl here ↦ absurd (
          let same' : t.thought_id ≡ id = ap (λ (r : ThoughtRow). r.thought_id) (sym here) ∙ same in
          ground arith)
      | inr there ↦ rw miss ((find_thought_row_iff ts id).1 (u, there, same))
    ],
  )
]

pub is_outbound_iff :
    (id : ℕ) (relations kinds : List Text) (row : LinkRow)
    → (is_outbound id relations kinds row ≡ true) ↔ (
        (row.from_thought ≡ id)
        × (row.deleted_at ≡ none)
        × Passes relations row.relation
        × Passes kinds row.to_kind)
unfolding is_outbound
is_outbound_iff id relations kinds row = (
  λ e.
      let (a, b) = and_true _ (passes relations row.relation && passes kinds row.to_kind) e in
      let (from, live) = and_true (row.from_thought == id) _ a in
      let (rel, kind) = and_true (passes relations row.relation) _ b in
      (
        ground arith,
        (not-is_some_iff row.deleted_at).0 live,
        (passes_iff relations row.relation).0 rel,
        (passes_iff kinds row.to_kind).0 kind,
      ),
  λ (from, live, rel, kind).
      true_and _ _
        (true_and (row.from_thought == id) _ (ground arith)
          ((not-is_some_iff row.deleted_at).1 live))
        (true_and _ _ ((passes_iff relations row.relation).1 rel)
          ((passes_iff kinds row.to_kind).1 kind)),
)

pub is_inbound_iff :
    (thoughts : List ThoughtRow) (id : ℕ) (relations : List Text) (row : LinkRow)
    → (is_inbound thoughts id relations row ≡ true) ↔ (
        (row.to_thought ≡ some (record { uuid = id }))
        × (row.deleted_at ≡ none)
        × Passes relations row.relation
        × ((t : ThoughtRow) × In t thoughts × (t.thought_id ≡ row.from_thought)))
unfolding is_inbound
is_inbound_iff thoughts id relations row = (
  λ e.
      let (a, b) =
        and_true _
          (passes relations row.relation && is_some (find_thought_row thoughts row.from_thought))
          e in
      let (to, live) = and_true (is_thought row.to_thought id) _ a in
      let (rel, joined) = and_true (passes relations row.relation) _ b in
      (
        (is_thought_iff row.to_thought id).0 to,
        (not-is_some_iff row.deleted_at).0 live,
        (passes_iff relations row.relation).0 rel,
        (find_thought_row_iff thoughts row.from_thought).0 joined,
      ),
  λ (to, live, rel, joined).
      true_and _ _
        (true_and _ _ ((is_thought_iff row.to_thought id).1 to)
          ((not-is_some_iff row.deleted_at).1 live))
        (true_and _ _ ((passes_iff relations row.relation).1 rel)
          ((find_thought_row_iff thoughts row.from_thought).1 joined)),
)
