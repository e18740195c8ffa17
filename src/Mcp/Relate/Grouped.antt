-- ===== src/Mcp/Relate/Grouped.antt =====
-- The groups of a traversal in crates/kengram-mcp/src/relate.rs are the live edges of the thought.
use k_engram.Prelude.{
  Bool, true, false, ◌≡◌, ◌≢◌, refl, sym, ap, ◌∙◌, subst, inl, inr, List, [], ◌∷◌, map, Option,
  none, some, some_injective, is_some, unwrap_or, Bool-cases, retain, Result, ok, err, ok_injective,
  All, In,
}
use k_engram.Text.{Text, codes, text_eq}
use k_engram.Text.Laws.{eq_of_text_eq}
use k_engram.Core.Relation.{ThoughtId, as_str}
use k_engram.Storage.Links.{
  LinkRow, ThoughtRow, LinkReadError, RelatedTarget, find_thought_row, decode_outbound,
  decode_inbound, fetch_related_thoughts,
}
use k_engram.Storage.Links.Selection.{
  IsSelection, IsOutboundEdge, IsInboundEdge, find_thought_row_iff,
}
use k_engram.Storage.Links.Parts.{outbound_part-IsSelection, inbound_part-IsSelection}
use k_engram.Mcp.Relate.Entries.{
  Shows, OneByOne, IsOutboundEntry, IsInboundEntry, decode_outbound-IsEntry, decode_inbound-IsEntry,
  decode_all-OneByOne,
}
use k_engram.Storage.Links.Merge.{is_in, is_out, fetch_related_thoughts_split}
use k_engram.Mcp.Relate.{
  GetRelatedThoughtsRequest, GetRelatedThoughtsResponse, RelateError, is_target_kind, unknown_kind,
  unknown_kind_of, grouped, with_rows, checked_kinds, get_related_thoughts,
}
use k_engram.Mcp.Relate.Loop.{group_rows_lem}

grouped_total :
    (id : ThoughtId) (rows : List RelatedTarget)
    → (response : GetRelatedThoughtsResponse) × (with_rows id (ok rows) ≡ some (ok response))
      × (response.thought_id ≡ id)
      × Shows (retain is_out rows) response.outbound_hits
      × Shows (retain is_in rows) response.inbound_hits
grouped_total id rows =
    let (os, is, looped, shown_out, shown_in) = group_rows_lem rows [] [] in
    (
      record { thought_id = id; outbound_hits = os; inbound_hits = is },
      ap (grouped id) looped,
      refl,
      shown_out,
      shown_in,
    )

with_rows-ne-none :
    (id : ThoughtId) (rows : Result LinkReadError (List RelatedTarget)) → with_rows id rows ≢ none
with_rows-ne-none id (err e) n = cc
with_rows-ne-none id (ok rows) n = absurd (cc (sym (grouped_total id rows).1 ∙ n))

with_rows_ok :
    (id : ThoughtId) (rows : Result LinkReadError (List RelatedTarget))
    (response : GetRelatedThoughtsResponse)
    → with_rows id rows ≡ some (ok response)
    → (rs : List RelatedTarget) × (rows ≡ ok rs)
      × (response.thought_id ≡ id)
      × Shows (retain is_out rs) response.outbound_hits
      × Shows (retain is_in rs) response.inbound_hits
with_rows_ok id (err e) response made = absurd (cc made)
with_rows_ok id (ok rs) response made =
    let total = grouped_total id rs in
    let same : total.0 ≡ response = ok_injective (some_injective (sym total.1 ∙ made)) in
    (
      rs,
      refl,
      sym (ap (λ r. r.thought_id) same) ∙ total.2,
      subst (λ r. Shows (retain is_out rs) r.outbound_hits) same total.3,
      subst (λ r. Shows (retain is_in rs) r.inbound_hits) same total.4,
    )

checked-ne-none :
    (unknown : Option Text) (rest : Option (Result RelateError GetRelatedThoughtsResponse))
    → rest ≢ none
    → checked_kinds unknown rest ≢ none
checked-ne-none none rest some_rest e = some_rest e
checked-ne-none (some k) rest some_rest e = cc

checked_ok :
    (unknown : Option Text) (rest : Option (Result RelateError GetRelatedThoughtsResponse))
    (response : GetRelatedThoughtsResponse)
    → checked_kinds unknown rest ≡ some (ok response)
    → (unknown ≡ none) × (rest ≡ some (ok response))
checked_ok none rest response e = (refl, e)
checked_ok (some k) rest response e = absurd (cc e)

-- A traversal never panics.
pub get_related_thoughts_total :
    (links : List LinkRow) (thoughts : List ThoughtRow) (found : Bool) (reached : Bool × Bool)
    (request : GetRelatedThoughtsRequest)
    → get_related_thoughts links thoughts found reached request ≢ none
unfolding get_related_thoughts
get_related_thoughts_total links thoughts false reached request e = cc
get_related_thoughts_total links thoughts true reached request e =
    elim (Bool-cases (is_some (find_thought_row thoughts request.asked_id.uuid))) [
      | inr absent ↦ cc (rw absent at e)
      | inl there ↦
          checked-ne-none (unknown_kind_of request.target_kinds)
            (with_rows request.asked_id (
              fetch_related_thoughts links thoughts reached request.asked_id.uuid request.relations
                request.target_kinds request.asked_direction))
            (with_rows-ne-none request.asked_id (
              fetch_related_thoughts links thoughts reached request.asked_id.uuid request.relations
                request.target_kinds request.asked_direction))
            (rw there at e)
    ]

abbrev pub target_kinds_known : List Text
target_kinds_known = codes "thought" ∷ codes "entity" ∷ codes "person" ∷ codes "url" ∷ []

is_target_kind-In : (k : Text) → is_target_kind k ≡ true → In k target_kinds_known
unfolding is_target_kind
is_target_kind-In k e = elim (Bool-cases (text_eq k (codes "thought"))) [
  | inl is ↦ inl (eq_of_text_eq k (codes "thought") is)
  | inr n₁ ↦ elim (Bool-cases (text_eq k (codes "entity"))) [
    | inl is ↦ inr (inl (eq_of_text_eq k (codes "entity") is))
    | inr n₂ ↦ elim (Bool-cases (text_eq k (codes "person"))) [
      | inl is ↦ inr (inr (inl (eq_of_text_eq k (codes "person") is)))
      | inr n₃ ↦ inr (inr (inr (inl (eq_of_text_eq k (codes "url") (rw (n₁, n₂, n₃) at e)))))
    ]
  ]
]

unknown_kind-none :
    (ks : List Text) → unknown_kind ks ≡ none → All (λ k. In k target_kinds_known) ks
unfolding unknown_kind
unknown_kind-none [] e = tt
unknown_kind-none (k ∷ ks) e = elim (Bool-cases (is_target_kind k)) [
  | inl known ↦ (is_target_kind-In k known, unknown_kind-none ks (rw known at e))
  | inr other ↦ absurd (cc (rw other at e))
]

unknown_kind_of-none :
    (kinds : Option (List Text))
    → unknown_kind_of kinds ≡ none
    → All (λ k. In k target_kinds_known) (unwrap_or kinds [])
unknown_kind_of-none none e = tt
unknown_kind_of-none (some ks) e = unknown_kind-none ks e

-- The answer for the edges of a table and the thoughts of another.
abbrev pub Answers :
    List LinkRow → List ThoughtRow → GetRelatedThoughtsRequest → GetRelatedThoughtsResponse → Type 0
Answers links thoughts request response =
    let id = request.asked_id.uuid in
    let relations = map as_str (unwrap_or request.relations []) in
    let kinds = unwrap_or request.target_kinds [] in
    ((t : ThoughtRow) × In t thoughts × (t.thought_id ≡ id))
    × All (λ k. In k target_kinds_known) kinds
    × (response.thought_id ≡ request.asked_id)
    × ((rows : List LinkRow) × IsSelection links
          (IsOutboundEdge id relations kinds request.asked_direction) rows
        × OneByOne (IsOutboundEntry thoughts) rows response.outbound_hits)
    × ((rows : List LinkRow) × IsSelection links
          (IsInboundEdge thoughts id relations kinds request.asked_direction) rows
        × OneByOne (IsInboundEntry thoughts) rows response.inbound_hits)

-- The answer of a traversal is for a thought of the table and known kinds. The outbound hits stand,
-- the newest first, for exactly the edges from the thought that are not deleted and pass the two
-- filters, if the direction is not inbound; the inbound ones for exactly the edges to it that are not
-- deleted, come from a thought of the table and pass the filter of relations, if the direction is not
-- outbound and the filter of kinds is empty or has the kind of a thought. Each hit says what its edge
-- and the thought at the other end say.
pub get_related_thoughts_ok :
    (links : List LinkRow) (thoughts : List ThoughtRow) (reached : Bool × Bool)
    (request : GetRelatedThoughtsRequest) (response : GetRelatedThoughtsResponse)
    → get_related_thoughts links thoughts true reached request ≡ some (ok response)
    → Answers links thoughts request response
unfolding get_related_thoughts
get_related_thoughts_ok links thoughts reached request response e =
    elim (Bool-cases (is_some (find_thought_row thoughts request.asked_id.uuid))) [
      | inr absent ↦ absurd (cc (rw absent at e))
      | inl there ↦
          let id = request.asked_id.uuid in
          let relations = map as_str (unwrap_or request.relations []) in
          let kinds = unwrap_or request.target_kinds [] in
          let fetched =
            fetch_related_thoughts links thoughts reached id request.relations request.target_kinds
              request.asked_direction in
          let (known, answered) =
            checked_ok (unknown_kind_of request.target_kinds) (with_rows request.asked_id fetched)
              response (rw there at e) in
          let (rs, read, same, shown_out, shown_in) =
            with_rows_ok request.asked_id fetched response answered in
          let (out_part, in_part) =
            fetch_related_thoughts_split links thoughts reached id request.relations
              request.target_kinds request.asked_direction rs read in
          let (outs, outs_selected, outs_read) =
            outbound_part-IsSelection links thoughts reached.0 id relations kinds
              request.asked_direction (retain is_out rs) out_part in
          let (ins, ins_selected, ins_read) =
            inbound_part-IsSelection links thoughts reached.1 id relations kinds
              request.asked_direction (retain is_in rs) in_part in
          (
            (find_thought_row_iff thoughts id).0 there,
            unknown_kind_of-none request.target_kinds known,
            same,
            (
              outs,
              outs_selected,
              decode_all-OneByOne (decode_outbound thoughts) (IsOutboundEntry thoughts)
                  (decode_outbound-IsEntry thoughts) outs (retain is_out rs) response.outbound_hits
                  outs_read shown_out,
            ),
            (
              ins,
              ins_selected,
              decode_all-OneByOne (decode_inbound thoughts) (IsInboundEntry thoughts)
                  (decode_inbound-IsEntry thoughts) ins (retain is_in rs) response.inbound_hits
                  ins_read shown_in,
            ),
          )
    ]
