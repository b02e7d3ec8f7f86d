-- ===== src/Mapping/Plan.antt =====
-- `build_dataset_superposition_plan` of dataset_mapping.py. The plan's dictionary is a record; its
-- constant entries ("schema", "fusion", the clusters' "reason") are left out.
mod Pairs
mod Totals
mod Clusters
pub mod Laws
use mathlib.Core.Option
use ztok.Common.{
  ℕ, suc, ◌+◌, Bool, true, false, not, ◌&&◌, ◌||◌, List, [], ◌∷◌, ◌++◌, map, Option, none, some,
  String, Result, ok, err, ◌>>=◌, ◌>>◌, raise_if, or_raise, value_error, key_error, index_error,
  zero_division, min, max, ltb, ◌==◌, if◌then◌else◌, map_result, get_elem?, length, filter, elem,
  flat_map, range, enumerate_from, sum_by,
}
use ztok.Common.Counting.{insert}
use ztok.Common.Dict.{group_from, get_list}
use ztok.Common.Floats.{Floats, of_nat, ◌⊘◌, ◌≺◌, in_unit, min_f, sum_f}
use ztok.Common.Sort.{sort}
use ztok.Mapping.{
  SpanNode, RelationEdge, DatasetMappingConfig, Embeddings, PairDecision, Identity, Reason,
}
use ztok.Mapping.Validate.{validate}
use ztok.Mapping.Decision.{relation_signatures, pair_decision}
use ztok.Mapping.Cluster.{cluster_spans}
use ztok.Mapping.Candidates.{pairs_of}
use ztok.Mapping.Superbatch.{Superbatch, build_superbatches, normalized_weights, divide}

pub record ClusterPayload (R : Type 0) : Type 0 where
  pub cluster_id : ℕ
  pub member_span_ids : List String
  pub member_example_ids : List ℕ
  pub member_span_indices : List ℕ
  pub weights : List R
  pub minimum_pair_similarity : R
  pub mean_pair_similarity : R

pub record Plan (R : Type 0) : Type 0 where
  pub example_count : ℕ
  pub span_count : ℕ
  pub clusters : List (ClusterPayload R)
  pub superbatches : List (Superbatch R)
  pub packed_example_ids : List ℕ
  pub ordinary_example_ids : List ℕ
  pub ordinary_span_count : ℕ
  pub retained_output_unit_count : ℕ
  pub dataset_compression_ratio : R
  pub unique_spans : List ℕ
  pub retrieval_pair_count : Option ℕ
  pub candidate_pair_count : ℕ
  pub accepted_pair_count : ℕ
  pub rejected_pairs : List (PairDecision R)

abbrev pub pair_before : ℕ × ℕ → ℕ × ℕ → Bool
pair_before (a, b) (c, d) = ltb a c || (a == c && ltb b d)

-- `{x for x in xs}`.
unfoldable pub set_of : List ℕ → List ℕ
set_of [] = []
set_of (x ∷ xs) = insert x (set_of xs)

module _ {R : Type 0} where
  -- The pairs of span indices that are decided on.
  unfoldable pub candidate_indices : List (SpanNode R) → Option (List (ℕ × ℕ)) → List (ℕ × ℕ)
  candidate_indices spans none = pairs_of (range (length spans))
  candidate_indices spans (some allowed) =
      let by_example = group_from (λ r. r.1.example_id) (λ r. r.0) [] (enumerate_from 0 spans) in
      flat_map
        (λ e.
          flat_map (λ left. map (λ right. (left, right)) (get_list e.1 by_example))
            (get_list e.0 by_example))
        (sort pair_before allowed)

  -- `decisions_by_pair[(left, right)]`, where a later decision replaces an earlier one.
  unfoldable pub decision_get : List (PairDecision R) → ℕ → ℕ → Option (PairDecision R)
  decision_get [] left right = none
  decision_get (d ∷ ds) left right = elim (decision_get ds left right) [
    | some found ↦ some found
    | none ↦ if d.left_span_index == left && d.right_span_index == right then some d else none
  ]

  -- The similarities of the pairs of a cluster.
  pub similarities_of : List (PairDecision R) → List ℕ → Result (List R)
  similarities_of decisions indices =
      map_result
        (λ p. or_raise (decision_get decisions (min p.0 p.1) (max p.0 p.1)) key_error >>= λ d.
          ok d.cosine_similarity)
        (pairs_of indices)

  -- A cluster's indices with their spans.
  pub members_of : List (SpanNode R) → List ℕ → Result (List (ℕ × SpanNode R))
  members_of spans indices =
      map_result
        (λ index. or_raise (get_elem? spans index) index_error >>= λ span. ok (index, span)) indices

  -- The superbatches' examples.
  unfoldable pub packed_ids : List (Superbatch R) → List ℕ
  packed_ids ss = set_of (flat_map (λ s. s.left_example ∷ s.right_example ∷ []) ss)

  unfoldable pub ordinary_ids : List (SpanNode R) → List (Superbatch R) → List ℕ
  unfolding packed_ids
  ordinary_ids spans ss =
      sort ltb (filter (λ e. not (elem e (packed_ids ss))) (set_of (map (λ s. s.example_id) spans)))

  unfoldable pub ordinary_count : List (SpanNode R) → List (Superbatch R) → ℕ
  unfolding ordinary_ids
  ordinary_count spans ss = length (filter (λ s. elem s.example_id (ordinary_ids spans ss)) spans)

  unfoldable pub retained_count : List (SpanNode R) → List (Superbatch R) → ℕ
  unfolding ordinary_count
  retained_count spans ss = ordinary_count spans ss + sum_by (λ s. s.output_unit_count) ss

module _ {R : Type 0} ⦃fl : Floats R⦄ where
  least : R → List R → R
  least best [] = best
  least best (w ∷ ws) = least (min_f best w) ws

  -- `min(values)`, which raises on an empty sequence.
  minimum : List R → Result R
  minimum [] = err (value_error "min() arg is an empty sequence")
  minimum (v ∷ vs) = ok (least v vs)

  mean : List R → Result R
  mean vs = if length vs == 0 then err zero_division else ok (sum_f vs ⊘ of_nat (length vs))

  pub cluster_payload :
      List (SpanNode R) → List (PairDecision R) → ℕ × List ℕ → Result (ClusterPayload R)
  cluster_payload spans decisions (cluster_id, indices) = do
    similarities ← similarities_of decisions indices
    members ← members_of spans indices
    weights ← normalized_weights members
    least ← minimum similarities
    average ← mean similarities
    ok (record {
      cluster_id = cluster_id;
      member_span_ids = map (λ m. m.1.span_id) members;
      member_example_ids = map (λ m. m.1.example_id) members;
      member_span_indices = indices;
      weights = weights;
      minimum_pair_similarity = least;
      mean_pair_similarity = average;
    })

  pub decide_pairs :
      List (SpanNode R)
      → Embeddings R
      → List (List (List String))
      → DatasetMappingConfig R
      → Option (List (ℕ × ℕ))
      → Result (List (PairDecision R))
  decide_pairs spans embeddings signatures config allowed =
      map_result
        (λ p. pair_decision (min p.0 p.1) (max p.0 p.1) spans embeddings signatures config allowed)
        (candidate_indices spans allowed)

  -- The dictionary that is returned.
  pub plan_of :
      List (SpanNode R)
      → DatasetMappingConfig R
      → Option (List (ℕ × ℕ))
      → List (PairDecision R)
      → List (List ℕ)
      → List (ClusterPayload R)
      → List (Superbatch R)
      → R
      → Plan R
  plan_of spans config allowed decisions clusters payload superbatches ratio =
      let clustered = flat_map (λ c. c) clusters in
      record {
        example_count = length (set_of (map (λ s. s.example_id) spans));
        span_count = length spans;
        clusters = payload;
        superbatches = superbatches;
        packed_example_ids = sort ltb (packed_ids superbatches);
        ordinary_example_ids = ordinary_ids spans superbatches;
        ordinary_span_count = ordinary_count spans superbatches;
        retained_output_unit_count = retained_count spans superbatches;
        dataset_compression_ratio = ratio;
        unique_spans = filter (λ i. not (elem i clustered)) (range (length spans));
        retrieval_pair_count = Option.map length allowed;
        candidate_pair_count = length decisions;
        accepted_pair_count = length (filter (λ d. d.accepted) decisions);
        rejected_pairs =
            if config.verbose_diagnostics then filter (λ d. not d.accepted) decisions else [];
      }

  pub build_dataset_superposition_plan :
      List (SpanNode R)
      → List RelationEdge
      → Embeddings R
      → DatasetMappingConfig R
      → Option (List (ℕ × ℕ))
      → Result (Plan R)
  build_dataset_superposition_plan spans edges embeddings config allowed = do
    raise_if (not (in_unit config.cosine_threshold))
        (value_error "cosine_threshold must be in [0, 1]")
    raise_if (not (in_unit config.minimum_alignment_coverage))
        (value_error "minimum_alignment_coverage must be in [0, 1]")
    identities ← validate spans edges embeddings
    signatures ← relation_signatures spans edges identities
    decisions ← decide_pairs spans embeddings signatures config allowed
    clusters ← cluster_spans spans decisions config
    payload ← map_result (cluster_payload spans decisions) (enumerate_from 0 clusters)
    superbatches ← build_superbatches spans clusters config
    ratio ← divide (retained_count spans superbatches) (length spans)
    ok (plan_of spans config allowed decisions clusters payload superbatches ratio)
