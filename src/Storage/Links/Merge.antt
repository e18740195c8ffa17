-- ===== src/Storage/Links/Merge.antt =====
-- The merge of both directions in `fetch_related_thoughts` of crates/kengram-storage/src/lib.rs.
use k_engram.Prelude.{
  ℕ, Bool, true, false, not, ◌&&◌, ◌||◌, ◌≡◌, refl, sym, ap, ◌∙◌, subst, arith, inl, inr, List, [],
  ◌∷◌, ◌++◌, map, Option, Result, ok, and_then, ok_injective, and_then_ok, is_empty, retain,
  Bool-cases, All, unwrap_or, retain-All, retain-none, retain-append, All-imp,
}
use mathlib.Core.List.{append-nil}
use k_engram.Text.{Text, codes, elem}
use k_engram.Sorting.{sort, IsSorted, sort-IsSorted}
use k_engram.Sorting.Stable.{sort_sorted, retain-sort}
use k_engram.Core.Relation.{RelationKind, as_str, LinkDirection, outbound, inbound, both}
use k_engram.Storage.Links.{
  LinkRow, ThoughtRow, LinkReadError, RelatedTarget, newer_row, newer, is_outbound, is_inbound,
  decode_outbound, decode_inbound, decode_all, comes_in, outbound_targets, inbound_targets,
  outbound_part, inbound_part, merged, fetch_related_thoughts,
}

-- The list to which the traversal of crates/kengram-mcp/src/relate.rs adds a row.
abbrev pub is_in : RelatedTarget → Bool
is_in r = elim r.direction [ inbound ↦ true | _ ↦ false ]

abbrev pub is_out : RelatedTarget → Bool
is_out r = not (is_in r)

-- A decoded row keeps its time, and has the direction of its statement.
abbrev pub Decodes : (LinkRow → Result LinkReadError RelatedTarget) → LinkDirection → Type 0
Decodes decode dir =
    (row : LinkRow) (r : RelatedTarget)
    → decode row ≡ ok r
    → (r.direction ≡ dir) × (r.link_created_at ≡ row.created_at) × (r.related_link ≡ row.link_id)

decode_outbound-Decodes : (thoughts : List ThoughtRow) → Decodes (decode_outbound thoughts) outbound
unfolding decode_outbound
decode_outbound-Decodes thoughts row r e = ground arith

decode_inbound-Decodes : (thoughts : List ThoughtRow) → Decodes (decode_inbound thoughts) inbound
unfolding decode_inbound
decode_inbound-Decodes thoughts row r e = ground arith

module _ (decode : LinkRow → Result LinkReadError RelatedTarget) (dir : LinkDirection)
    (decodes : Decodes decode dir) where
  -- The decoded rows stand for the rows one by one.
  decode_all-ids :
      (rows : List LinkRow) (rs : List RelatedTarget)
      → decode_all decode rows ≡ ok rs
      → (map (λ r. r.related_link) rs ≡ map (λ row. row.link_id) rows)
        × All (λ r. r.direction ≡ dir) rs
  unfolding decode_all
  decode_all-ids [] rs e =
      let same = ok_injective e in
      (sym (ap (map (λ r. r.related_link)) same), subst (All (λ r. r.direction ≡ dir)) same tt)
  decode_all-ids (row ∷ rows) rs e =
      let (r, r_ok, e₁) =
        and_then_ok (decode row) (λ r. and_then (decode_all decode rows) (λ rs. ok (r ∷ rs))) rs
          e in
      let (rest, rest_ok, e₂) = and_then_ok (decode_all decode rows) (λ rs. ok (r ∷ rs)) rs e₁ in
      let (d, c, l) = decodes row r r_ok in
      let (ids, dirs) = decode_all-ids rows rest rest_ok in
      let same = ok_injective e₂ in
      (
        subst (λ l. map (λ r. r.related_link) l ≡ map (λ row. row.link_id) (row ∷ rows)) same
            (rw (l, ids) refl),
        subst (All (λ r. r.direction ≡ dir)) same (d, dirs),
      )

  decode_all-newer :
      (first : LinkRow) (f : RelatedTarget) (rows : List LinkRow) (rs : List RelatedTarget)
      → f.link_created_at ≡ first.created_at
      → decode_all decode rows ≡ ok rs
      → All (λ row. newer_row row first ≡ false) rows
      → All (λ r. newer r f ≡ false) rs
  unfolding decode_all
  decode_all-newer first f [] rs c e h = subst (All (λ r. newer r f ≡ false)) (ok_injective e) tt
  decode_all-newer first f (row ∷ rows) rs c e h =
      let (r, r_ok, e₁) =
        and_then_ok (decode row) (λ r. and_then (decode_all decode rows) (λ rs. ok (r ∷ rs))) rs
          e in
      let (rest, rest_ok, e₂) = and_then_ok (decode_all decode rows) (λ rs. ok (r ∷ rs)) rs e₁ in
      subst (All (λ r. newer r f ≡ false)) (ok_injective e₂)
        (ground (arith, decodes row r r_ok, h.0), decode_all-newer first f rows rest c rest_ok h.1)

  decode_all-IsSorted :
      (rows : List LinkRow) (rs : List RelatedTarget)
      → decode_all decode rows ≡ ok rs
      → IsSorted newer_row rows
      → IsSorted newer rs
  unfolding decode_all
  decode_all-IsSorted [] rs e h = subst (IsSorted newer) (ok_injective e) tt
  decode_all-IsSorted (row ∷ rows) rs e h =
      let (r, r_ok, e₁) =
        and_then_ok (decode row) (λ r. and_then (decode_all decode rows) (λ rs. ok (r ∷ rs))) rs
          e in
      let (rest, rest_ok, e₂) = and_then_ok (decode_all decode rows) (λ rs. ok (r ∷ rs)) rs e₁ in
      subst (IsSorted newer) (ok_injective e₂) (
        decode_all-newer row r rows rest (decodes row r r_ok).1 rest_ok h.0,
        decode_all-IsSorted rows rest rest_ok h.1,
      )

newer_asym : (x y : RelatedTarget) → newer x y ≡ true → newer y x ≡ false
newer_asym x y h = ground arith

newer_trans : (x y z : RelatedTarget) → newer y x ≡ false → newer z y ≡ false → newer z x ≡ false
newer_trans x y z h k = ground arith

pub newer_row_asym : (x y : LinkRow) → newer_row x y ≡ true → newer_row y x ≡ false
newer_row_asym x y h = ground arith

pub newer_row_trans :
    (x y z : LinkRow) → newer_row y x ≡ false → newer_row z y ≡ false → newer_row z x ≡ false
newer_row_trans x y z h k = ground arith

-- A part of one direction, newest first.
abbrev IsPart : LinkDirection → List RelatedTarget → Type 0
IsPart dir rs = All (λ r. r.direction ≡ dir) rs × IsSorted newer rs

decoded-IsPart :
    (decode : LinkRow → Result LinkReadError RelatedTarget) (dir : LinkDirection)
    → Decodes decode dir
    → (rows : List LinkRow) (rs : List RelatedTarget)
    → decode_all decode (sort newer_row rows) ≡ ok rs
    → IsPart dir rs
decoded-IsPart decode dir decodes rows rs e = (
  (decode_all-ids decode dir decodes (sort newer_row rows) rs e).1,
  decode_all-IsSorted decode dir decodes (sort newer_row rows) rs e
      (sort-IsSorted newer_row newer_row_asym newer_row_trans rows),
)

empty-IsPart :
    (dir : LinkDirection) (rs : List RelatedTarget)
    → ◌≡◌ {A = Result LinkReadError (List RelatedTarget)} (ok []) (ok rs)
    → IsPart dir rs
empty-IsPart dir rs e = subst (IsPart dir) (ok_injective e) (tt, tt)

inbound_in : (r : RelatedTarget) → r.direction ≡ inbound → is_in r ≡ true
inbound_in r e = rw e refl

outbound_out : (r : RelatedTarget) → r.direction ≡ outbound → is_in r ≡ false
outbound_out r e = rw e refl

-- Behind each other the two parts are told apart by their directions.
split-append :
    (outs ins : List RelatedTarget)
    → IsPart outbound outs
    → IsPart inbound ins
    → (retain is_out (outs ++ ins) ≡ outs) × (retain is_in (outs ++ ins) ≡ ins)
split-append outs ins o i =
    let out_kept = retain-All is_out outs (All-imp outs (λ r e. ap not (outbound_out r e)) o.0) in
    let out_gone = retain-none is_in outs (All-imp outs outbound_out o.0) in
    let in_kept = retain-All is_in ins (All-imp ins inbound_in i.0) in
    let in_gone = retain-none is_out ins (All-imp ins (λ r e. ap not (inbound_in r e)) i.0) in
    (
      retain-append is_out outs ins
          ∙ ap (λ l. l ++ retain is_out ins) out_kept
          ∙ ap (λ l. outs ++ l) in_gone
          ∙ append-nil outs,
      retain-append is_in outs ins ∙ ap (λ l. l ++ retain is_in ins) out_gone ∙ in_kept,
    )

-- The merge of the two directions keeps both apart in their order.
split-merged :
    (dir : LinkDirection) (outs ins : List RelatedTarget)
    → IsPart outbound outs
    → IsPart inbound ins
    → (retain is_out (merged [] [] dir (outs ++ ins)) ≡ outs)
      × (retain is_in (merged [] [] dir (outs ++ ins)) ≡ ins)
split-merged outbound outs ins o i = split-append outs ins o i
split-merged inbound outs ins o i = split-append outs ins o i
split-merged both outs ins o i =
    let (so, si) = split-append outs ins o i in
    (
      retain-sort newer newer_asym newer_trans is_out (outs ++ ins)
          ∙ ap (sort newer) so
          ∙ sort_sorted newer outs o.1,
      retain-sort newer newer_asym newer_trans is_in (outs ++ ins)
          ∙ ap (sort newer) si
          ∙ sort_sorted newer ins i.1,
    )

module _ (links : List LinkRow) (thoughts : List ThoughtRow) where
  outbound_part-IsPart :
      (reached : Bool) (id : ℕ) (relations kinds : List Text) (dir : LinkDirection)
      (outs : List RelatedTarget)
      → outbound_part links thoughts reached id relations kinds dir ≡ ok outs
      → IsPart outbound outs
  unfolding outbound_targets
  outbound_part-IsPart reached id relations kinds inbound outs e = empty-IsPart outbound outs e
  outbound_part-IsPart true id relations kinds outbound outs e =
      decoded-IsPart (decode_outbound thoughts) outbound (decode_outbound-Decodes thoughts)
        (retain (is_outbound id relations kinds) links) outs e
  outbound_part-IsPart true id relations kinds both outs e =
      decoded-IsPart (decode_outbound thoughts) outbound (decode_outbound-Decodes thoughts)
        (retain (is_outbound id relations kinds) links) outs e
  outbound_part-IsPart false id relations kinds outbound outs e = absurd (cc e)
  outbound_part-IsPart false id relations kinds both outs e = absurd (cc e)

  inbound_part-IsPart :
      (reached : Bool) (id : ℕ) (relations kinds : List Text) (dir : LinkDirection)
      (ins : List RelatedTarget)
      → inbound_part links thoughts reached id relations kinds dir ≡ ok ins
      → IsPart inbound ins
  unfolding inbound_targets
  inbound_part-IsPart reached id relations kinds dir ins e =
      elim (Bool-cases (comes_in dir && (is_empty kinds || elem (codes "thought") kinds))) [
        | inr skipped ↦ empty-IsPart inbound ins (rw skipped at e)
        | inl asked ↦ elim (Bool-cases reached) [
          | inr lost ↦ absurd (cc (rw (asked, lost) at e))
          | inl read ↦
              decoded-IsPart (decode_inbound thoughts) inbound (decode_inbound-Decodes thoughts)
                (retain (is_inbound thoughts id relations) links) ins (rw (asked, read) at e)
        ]
      ]

  -- What is read is the two parts in one list, which still shows each of them in its order.
  pub fetch_related_thoughts_split :
      (reached : Bool × Bool) (id : ℕ) (relations : Option (List RelationKind))
      (kinds : Option (List Text)) (dir : LinkDirection) (rows : List RelatedTarget)
      → fetch_related_thoughts links thoughts reached id relations kinds dir ≡ ok rows
      → (outbound_part links thoughts reached.0 id
            (map as_str (unwrap_or relations []))
            (unwrap_or kinds [])
            dir
          ≡ ok (retain is_out rows))
        × (inbound_part links thoughts reached.1 id
              (map as_str (unwrap_or relations []))
              (unwrap_or kinds [])
              dir
            ≡ ok (retain is_in rows))
  unfolding fetch_related_thoughts
  fetch_related_thoughts_split reached id relations kinds dir rows e =
      let rel = map as_str (unwrap_or relations []) in
      let kin = unwrap_or kinds [] in
      let (outs, outs_ok, e₁) =
        and_then_ok (outbound_part links thoughts reached.0 id rel kin dir)
          (λ out.
            and_then (inbound_part links thoughts reached.1 id rel kin dir)
              (λ inb. ok (merged links thoughts dir (out ++ inb))))
          rows e in
      let (ins, ins_ok, e₂) =
        and_then_ok (inbound_part links thoughts reached.1 id rel kin dir)
          (λ inb. ok (merged links thoughts dir (outs ++ inb))) rows e₁ in
      let (so, si) =
        split-merged dir outs ins (outbound_part-IsPart reached.0 id rel kin dir outs outs_ok)
          (inbound_part-IsPart reached.1 id rel kin dir ins ins_ok) in
      let same = ok_injective e₂ in
      (
        outs_ok ∙ ap ok (sym so ∙ ap (retain is_out) same),
        ins_ok ∙ ap ok (sym si ∙ ap (retain is_in) same),
      )
