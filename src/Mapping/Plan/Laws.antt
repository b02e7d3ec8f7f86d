-- ===== src/Mapping/Plan/Laws.antt =====
-- What a whole plan promises.
use ztok.Common.{
  ℕ, ◌+◌, ◌≤◌, ◌<◌, ◌≡◌, refl, ◌≢◌, true, List, [], ◌∷◌, map, Option, ok, arith, All, All-mono,
  length, sum_by,
}
use ztok.Common.Floats.{Floats, in_unit}
use ztok.Mapping.{SpanNode, RelationEdge, DatasetMappingConfig, Embeddings, Identity}
use ztok.Mapping.Validate.{validate}
use ztok.Mapping.Validate.Laws.{validate-IsValidated}
use ztok.Mapping.Decision.{Entry, relation_signatures}
use ztok.Mapping.Decision.Signatures.{AreSignatures, relation_signatures_total}
use ztok.Mapping.Cluster.Steps.{total}
use ztok.Mapping.Cluster.Merge.{InRange}
use ztok.Mapping.Cluster.Laws.{cluster_spans-IsClustering}
use ztok.Mapping.Superbatch.Accounting.{divide_total}
use ztok.Mapping.Superbatch.Laws.{IsPacking, build_superbatches-IsPacking}
use ztok.Mapping.Plan.{Plan, retained_count, build_dataset_superposition_plan, plan_of}
use ztok.Mapping.Plan.Totals.{retained_count-add_aligned}
use ztok.Mapping.Plan.Pairs.{IsDecision, decide_pairs_total}
use ztok.Mapping.Plan.Clusters.{IsGrouped, payloads_total, clusters_inside}

module _ {R : Type 0} ⦃fl : Floats R⦄ (spans : List (SpanNode R)) (embeddings : Embeddings R)
    (config : DatasetMappingConfig R) (allowed : Option (List (ℕ × ℕ))) where
  -- What a plan promises, for the relation signatures of the spans.
  pub record IsPlanned (signatures : List (List Entry)) (plan : Plan R) : Type 0 where
    pub grouped : All (IsGrouped spans embeddings signatures config allowed) plan.clusters
    pub disjoint : (a : ℕ) → total a (map (λ c. c.member_span_indices) plan.clusters) ≤ 1
    pub packing : IsPacking spans config plan.superbatches
    pub all_spans : plan.span_count ≡ length spans
    pub conserved :
        plan.retained_output_unit_count
          + sum_by (λ s. length s.aligned_cluster_ids) plan.superbatches
        ≡ plan.span_count

  -- A plan for spans and edges that pass validation, under thresholds in [0, 1], is always built.
  -- Each of its clusters has at least two and at most the maximum number of spans, a weight for
  -- each, and any two of its spans fit together: they are compatible by their own signatures among
  -- the relation signatures of the spans, and by the similarity of their embeddings. The signatures
  -- hold, for each edge, an entry for its target at its source and one for its source at its
  -- target, and nothing else. No span is in two clusters. Its superbatches use each example at most
  -- once. The retained output units and the aligned clusters of the superbatches add up to all
  -- spans.
  pub build_dataset_superposition_plan-IsPlanned :
      (edges : List RelationEdge) {ids : List Identity}
      → in_unit config.cosine_threshold ≡ true
      → in_unit config.minimum_alignment_coverage ≡ true
      → validate spans edges embeddings ≡ ok ids
      → (signatures : List (List Entry)) × (plan : Plan R) × (relation_signatures spans edges ids
          ≡ ok signatures)
        × AreSignatures spans ids edges signatures
        × (build_dataset_superposition_plan spans edges embeddings config allowed ≡ ok plan)
        × IsPlanned signatures plan
  unfolding build_dataset_superposition_plan plan_of
  build_dataset_superposition_plan-IsPlanned edges {ids} cosine coverage valid =
      let v = validate-IsValidated spans edges embeddings valid in
      let (signatures, e₁, made) = relation_signatures_total spans ids edges v.known in
      let (ds, e₂, decided) =
        decide_pairs_total spans embeddings signatures config allowed made.0 in
      let (cs, e₃, clustering) = cluster_spans-IsClustering spans ds config (
        All-mono (IsDecision spans embeddings signatures config allowed) (InRange spans) ds
          (λ d k. k.in_range) decided) in
      let inside = clusters_inside spans embeddings signatures config allowed ds cs clustering in
      let (ps, e₄, same, grouped) =
        payloads_total spans embeddings signatures config allowed ds decided 0 cs clustering.fused
          inside in
      let (ss, e₅, packing) = build_superbatches-IsPacking spans config cs inside in
      let (ratio, e₆) =
        divide_total {R = R} (retained_count spans ss) (length spans)
          (some_length spans v.some_span) in
      (
        signatures,
        plan_of spans config allowed ds cs ps ss ratio,
        e₁,
        made,
        rw (cosine, coverage, valid, e₁, e₂, e₃, e₄, e₅, e₆) refl,
        record {
          grouped = grouped;
          disjoint = λ a. rw same (clustering.disjoint a);
          packing = packing;
          all_spans = refl;
          conserved = retained_count-add_aligned spans config ss packing;
        },
      )
    where
      some_length : (xs : List (SpanNode R)) → xs ≢ [] → 0 < length xs
      some_length [] h = absurd (h refl)
      some_length (x ∷ xs) h = omega arith
