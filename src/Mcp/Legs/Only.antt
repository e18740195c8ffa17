-- ===== src/Mcp/Legs/Only.antt =====
-- What every statement of the database keeps to, all rankings of a search keep to, in
-- crates/kengram-mcp/src/search.rs.
use mathlib.Core.List.{Perm}
use k_engram.Prelude.{
  ℕ, Bool, List, [], ◌∷◌, ◌++◌, Option, none, some, ◌≡◌, inl, inr, subst, Bool-cases,
  some_injective, if◌then◌else◌, Result, ok, err, and_then_ok, ok_injective, All, All-append,
}
use k_engram.Text.{Text}
use k_engram.Unicode.{Unicode}
use k_engram.Float.{Float}
use k_engram.Core.Sparse.{SparseLexicalVector}
use k_engram.Core.Fusion.{Hit, Thought}
use k_engram.Core.Fusion.Only.{Only}
use k_engram.Mcp.Search.Terms.{pairwise_subqueries, domain_candidates, tag_facet_terms}
use k_engram.Mcp.Retrieval.{
  ExpansionPlan, Database, no_rankings, or_no_hits, default_top_k_per_leg, has_generated_inputs,
  collect_expansion_rankings, bounded_pairwise_artifact_chunk_fts_hits,
  bounded_artifact_chunk_fts_hits, bounded_artifact_chunk_context_fts_hits,
  bounded_domain_scope_hits, bounded_tag_facet_hits,
}
use k_engram.Mcp.Retrieval.Only.{
  OnlyOk, IsSound, OnlyRankings, All-if, Only-or_no_hits, Only-bounded, Only-fused_subqueries,
  Only-collect_expansion_rankings,
}
use k_engram.Mcp.Gates.{Gates}
use k_engram.Mcp.Legs.{
  VectorLegs, LexicalLegs, SparseLegs, Found, vector_legs, lexical_legs, sparse_legs, encoded,
  both_sparse, pairwise_leg, planned, rankings_of,
}

module _ (fl : Float) (u : Unicode) (Vector StorageError EmbedderError ExpansionError : Type 0)
    (keep : Thought → Bool) where
  abbrev pub OnlySparse : SparseLegs fl u Vector StorageError EmbedderError ExpansionError → Type 0
  OnlySparse s = Only fl keep s.sparse_thought_hits × Only fl keep s.sparse_chunk_hits

  abbrev pub OnlyVectors : VectorLegs fl u Vector StorageError EmbedderError ExpansionError → Type 0
  OnlyVectors v =
      Only fl keep v.vector_hits
      × Only fl keep v.chunk_vector_hits
      × Only fl keep v.contextual_chunk_vector_hits

  abbrev pub OnlyLexical :
      LexicalLegs fl u Vector StorageError EmbedderError ExpansionError → Type 0
  OnlyLexical l =
      Only fl keep l.lexical_hits
      × Only fl keep l.chunk_lexical_hits
      × Only fl keep l.contextual_chunk_lexical_hits
      × Only fl keep l.domain_scope_hits
      × Only fl keep l.tag_facet_hits

  module _ (db : Database fl Vector StorageError) (sound : IsSound fl Vector StorageError keep db)
      (gates : Gates) where
    pub Only-vector_legs :
        (v : Option Vector)
        → OnlyVectors (vector_legs fl u Vector StorageError EmbedderError ExpansionError db gates v)
    unfolding vector_legs
    Only-vector_legs none = (tt, tt, tt)
    Only-vector_legs (some v) =
        let chunks = db.search_artifact_chunks_vector_knn v default_top_k_per_leg in
        let contexts = db.search_artifact_chunk_contexts_vector_knn v default_top_k_per_leg in
        (
          Only-or_no_hits fl Vector StorageError keep (db.search_vector_knn v default_top_k_per_leg)
              (sound.vector v default_top_k_per_leg),
          All-if (Only fl keep) gates.chunk_serving (or_no_hits chunks) []
              (Only-or_no_hits fl Vector StorageError keep chunks
                (sound.chunk_vector v default_top_k_per_leg))
              tt,
          All-if (Only fl keep) gates.contextual_chunk_vector (or_no_hits contexts) []
              (Only-or_no_hits fl Vector StorageError keep contexts
                (sound.context_vector v default_top_k_per_leg))
              tt,
        )

    Only-both_sparse :
        (thoughts chunks : Result StorageError (List (Hit fl)))
        (s : SparseLegs fl u Vector StorageError EmbedderError ExpansionError)
        → OnlyOk fl Vector StorageError keep thoughts
        → OnlyOk fl Vector StorageError keep chunks
        → both_sparse fl u Vector StorageError EmbedderError ExpansionError db gates thoughts chunks
          ≡ ok s
        → OnlySparse s
    Only-both_sparse (ok a) (ok b) s h k e = subst OnlySparse (ok_injective e) (h, k)
    Only-both_sparse (ok a) (err x) s h k e = cc
    Only-both_sparse (err x) chunks s h k e = cc

    pub Only-sparse_legs :
        (encoder : Option (List Text → Result Text (List (SparseLexicalVector fl)))) (query : Text)
        (s : SparseLegs fl u Vector StorageError EmbedderError ExpansionError)
        → sparse_legs fl u Vector StorageError EmbedderError ExpansionError db gates encoder query
          ≡ ok s
        → OnlySparse s
    unfolding sparse_legs
    Only-sparse_legs encoder query s e = elim (Bool-cases gates.sparse_lexical) [
      | inl on ↦
          let thoughts = λ (v : SparseLexicalVector fl).
            db.search_thoughts_sparse_lexical v default_top_k_per_leg in
          let chunks = λ (v : SparseLexicalVector fl).
            db.search_artifact_chunks_sparse_lexical v default_top_k_per_leg in
          let (v, encoded_ok, both) =
            and_then_ok
              (encoded fl u Vector StorageError EmbedderError ExpansionError db gates encoder query)
              (λ v.
                both_sparse fl u Vector StorageError EmbedderError ExpansionError db gates
                  (thoughts v) (chunks v))
              s (rw on at e) in
          Only-both_sparse (thoughts v) (chunks v) s (sound.sparse v default_top_k_per_leg)
            (sound.chunk_sparse v default_top_k_per_leg) both
      | inr off ↦ subst OnlySparse (ok_injective (rw off at e)) (tt, tt)
    ]

    module _ (lexical_top_k lexical_timeout_ms : ℕ) where
      pub Only-lexical_legs :
          (query : Text)
          → OnlyLexical (
              lexical_legs fl u Vector StorageError EmbedderError ExpansionError db gates
                lexical_top_k lexical_timeout_ms query)
      unfolding lexical_legs
      Only-lexical_legs query =
          let bounded =
            Only-bounded fl Vector StorageError keep db sound lexical_top_k lexical_timeout_ms
              query in
          (
            (bounded [] lexical_top_k).0,
            All-if (Only fl keep) gates.chunk_serving
                (bounded_artifact_chunk_fts_hits fl Vector StorageError db lexical_top_k
                  lexical_timeout_ms lexical_top_k query)
                [] (bounded [] lexical_top_k).1 tt,
            All-if (Only fl keep) gates.contextual_chunk_fts
                (bounded_artifact_chunk_context_fts_hits fl Vector StorageError db lexical_top_k
                  lexical_timeout_ms query)
                [] (bounded [] lexical_top_k).2 tt,
            All-if (Only fl keep) gates.tag_domain_routing
                (bounded_domain_scope_hits fl Vector StorageError db lexical_top_k
                  lexical_timeout_ms (domain_candidates u query))
                [] (bounded (domain_candidates u query) lexical_top_k).3 tt,
            All-if (Only fl keep) gates.tag_domain_routing
                (bounded_tag_facet_hits fl Vector StorageError db lexical_top_k lexical_timeout_ms
                  (tag_facet_terms u query))
                [] (bounded (tag_facet_terms u query) lexical_top_k).4 tt,
          )

      pub Only-pairwise_leg :
          (into_values : List (Hit fl) → List (Hit fl))
          → ((l : List (Hit fl)) → Perm (into_values l) l)
          → (query : Text) (hits : List (Hit fl))
          → pairwise_leg fl u Vector StorageError EmbedderError ExpansionError db gates
              lexical_top_k lexical_timeout_ms into_values query
            ≡ some hits
          → Only fl keep hits
      unfolding pairwise_leg bounded_pairwise_artifact_chunk_fts_hits
      Only-pairwise_leg into_values permutes query hits e = elim (Bool-cases gates.chunk_serving) [
        | inl on ↦
            Only-fused_subqueries fl Vector StorageError keep db sound lexical_top_k
              lexical_timeout_ms into_values permutes (pairwise_subqueries u query) hits
              (rw on at e)
        | inr off ↦ subst (Only fl keep) (some_injective (rw off at e)) tt
      ]

      pub Only-planned :
          (embed : List Text → Result EmbedderError (List Vector)) (plan : Option ExpansionPlan)
          → OnlyRankings fl Vector StorageError keep (
              planned fl u Vector StorageError EmbedderError ExpansionError db gates lexical_top_k
                lexical_timeout_ms embed plan)
      Only-planned embed none = (tt, tt, tt, tt)
      Only-planned embed (some plan) =
          All-if (OnlyRankings fl Vector StorageError keep) (has_generated_inputs plan)
            (collect_expansion_rankings fl Vector StorageError db lexical_top_k lexical_timeout_ms
              embed plan gates.chunk_serving)
            (no_rankings fl Vector StorageError)
            (Only-collect_expansion_rankings fl Vector StorageError keep db sound lexical_top_k
              lexical_timeout_ms embed plan gates.chunk_serving)
            (tt, tt, tt, tt)

  joined :
      (xs ys : List (List (Hit fl)))
      → All (Only fl keep) xs
      → All (Only fl keep) ys
      → All (Only fl keep) (xs ++ ys)
  joined xs ys h k = All-append (Only fl keep) xs ys h k

  -- `if b { rankings.push(…) }`.
  abbrev pushed_if : Bool → List (List (Hit fl)) → List (List (Hit fl)) → List (List (Hit fl))
  pushed_if b xs rankings = rankings ++ (if b then xs else [])

  Only-pushed_if :
      (b : Bool) (xs rankings : List (List (Hit fl)))
      → All (Only fl keep) xs
      → All (Only fl keep) rankings
      → All (Only fl keep) (pushed_if b xs rankings)
  Only-pushed_if b xs rankings h k =
      joined rankings (if b then xs else []) k (All-if (All (Only fl keep)) b xs [] h tt)

  pub Only-rankings_of :
      (gates : Gates) (found : Found fl u Vector StorageError EmbedderError ExpansionError)
      → OnlyVectors found.vectors
      → OnlySparse found.sparse
      → OnlyLexical found.lexical
      → Only fl keep found.chunk_pairwise_lexical_hits
      → OnlyRankings fl Vector StorageError keep found.expansion
      → All
          (Only fl keep)
          (rankings_of fl u Vector StorageError EmbedderError ExpansionError gates found)
  unfolding rankings_of
  Only-rankings_of gates found v s l p e =
      let vs = found.vectors in
      let ss = found.sparse in
      let ls = found.lexical in
      let es = found.expansion in
      let sparse_rankings : List (List (Hit fl)) =
        ss.sparse_thought_hits ∷ ss.sparse_chunk_hits ∷ [] in
      let chunk_rankings : List (List (Hit fl)) =
        vs.chunk_vector_hits ∷ ls.chunk_lexical_hits ∷ found.chunk_pairwise_lexical_hits ∷ [] in
      let context_vector_rankings : List (List (Hit fl)) = vs.contextual_chunk_vector_hits ∷ [] in
      let context_rankings : List (List (Hit fl)) = ls.contextual_chunk_lexical_hits ∷ [] in
      let routed_rankings : List (List (Hit fl)) = ls.domain_scope_hits ∷ ls.tag_facet_hits ∷ [] in
      let r0 : List (List (Hit fl)) = vs.vector_hits ∷ ls.lexical_hits ∷ [] in
      let r1 = pushed_if gates.sparse_lexical sparse_rankings r0 in
      let r2 = pushed_if gates.chunk_serving chunk_rankings r1 in
      let r3 = pushed_if gates.contextual_chunk_vector context_vector_rankings r2 in
      let r4 = pushed_if gates.contextual_chunk_fts context_rankings r3 in
      let r5 = pushed_if gates.tag_domain_routing routed_rankings r4 in
      let h1 =
        Only-pushed_if gates.sparse_lexical sparse_rankings r0 (s.0, (s.1, tt)) (v.0, (l.0, tt)) in
      let h2 = Only-pushed_if gates.chunk_serving chunk_rankings r1 (v.1, (l.1, (p, tt))) h1 in
      let h3 =
        Only-pushed_if gates.contextual_chunk_vector context_vector_rankings r2 (v.2, tt) h2 in
      let h4 = Only-pushed_if gates.contextual_chunk_fts context_rankings r3 (l.2, tt) h3 in
      let h5 = Only-pushed_if gates.tag_domain_routing routed_rankings r4 (l.3, (l.4, tt)) h4 in
      Only-pushed_if gates.chunk_serving (es.chunk_vector_rankings ++ es.chunk_fts_rankings)
        (r5 ++ es.thought_vector_rankings ++ es.thought_fts_rankings)
        (joined es.chunk_vector_rankings es.chunk_fts_rankings e.1 e.3)
        (joined (r5 ++ es.thought_vector_rankings) es.thought_fts_rankings
          (joined r5 es.thought_vector_rankings h5 e.0) e.2)
