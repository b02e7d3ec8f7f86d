-- ===== src/Mapping/Cluster.antt =====
-- `_cluster_spans` of dataset_mapping.py. A set of span indices is a list without repetition;
-- `left_cluster is right_cluster` compares positions in the list of clusters.
pub mod Steps
pub mod Examples
pub mod Links
pub mod Merge
pub mod Laws
use ztok.Common.{
  ℕ, suc, Bool, true, false, not, ◌&&◌, ◌||◌, List, [], ◌∷◌, map, Option, none, some, Result, ok,
  err, ◌>>=◌, ◌>>◌, or_raise, index_error, stop_iteration, value_error, min, max, ltb, ◌==◌,
  if◌then◌else◌, fold_result, map_result, get_elem?, set, length, filter, all, elem, range,
}
use ztok.Common.Counting.{union, same_set, has_duplicate}
use ztok.Common.Floats.{Floats, neg, ◌≺◌, ◌≈◌}
use ztok.Common.Sort.{sort}
use ztok.Mapping.{SpanNode, DatasetMappingConfig, PairDecision}

-- The first cluster that holds an index, with its position; `next` raises if there is none.
unfoldable pub find_cluster : ℕ → List (List ℕ) → Result (ℕ × List ℕ)
find_cluster index [] = err stop_iteration
find_cluster index (cluster ∷ clusters) =
    if elem index cluster
    then ok (0, cluster)
    else (find_cluster index clusters >>= λ found. ok (suc found.0, found.1))

-- `clusters.remove(cluster)`: the first set that is equal goes.
unfoldable pub remove_cluster : List ℕ → List (List ℕ) → Result (List (List ℕ))
remove_cluster cluster [] = err (value_error "list.remove(x): x not in list")
remove_cluster cluster (c ∷ cs) =
    if same_set c cluster then ok cs else (remove_cluster cluster cs >>= λ rest. ok (c ∷ rest))

module _ {R : Type 0} where
  -- `accepted.get((left, right), False)`, where a later decision on a pair replaces an earlier one.
  unfoldable pub accepted_get : List (PairDecision R) → ℕ → ℕ → Option Bool
  accepted_get [] left right = none
  accepted_get (d ∷ ds) left right = elim (accepted_get ds left right) [
    | some b ↦ some b
    | none ↦
        if d.left_span_index == left && d.right_span_index == right then some d.accepted else none
  ]

  unfoldable pub pair_passes : List (PairDecision R) → ℕ → ℕ → Bool
  pair_passes decisions left right =
      elim (accepted_get decisions (min left right) (max left right)) [ some b ↦ b | none ↦ false ]

  -- `[spans[index].example_id for index in indices]`.
  unfoldable pub example_ids_of : List (SpanNode R) → List ℕ → Result (List ℕ)
  unfolding map_result
  example_ids_of spans indices =
      map_result
        (λ index. or_raise (get_elem? spans index) index_error >>= λ span. ok span.example_id)
        indices

  -- The body of the loop after `left_cluster is right_cluster`: the union takes the place of the
  -- left cluster unless it is too large, names an example twice or holds a pair that does not pass.
  pub try_merge :
      List (SpanNode R)
      → List (PairDecision R)
      → DatasetMappingConfig R
      → List (List ℕ)
      → ℕ
      → List ℕ
      → List ℕ
      → Result (List (List ℕ))
  try_merge spans decisions config clusters li left_cluster right_cluster =
      let proposed = union left_cluster right_cluster in
      if ltb config.maximum_cluster_size (length proposed)
      then ok clusters
      else (example_ids_of spans proposed >>= λ example_ids.
          if has_duplicate example_ids
          then ok clusters
          else if not (
              all (λ left. all (λ right. pair_passes decisions left right) right_cluster)
                left_cluster)
          then ok clusters
          else remove_cluster right_cluster (set clusters li proposed))

  -- The body of the loop over the accepted decisions.
  pub merge :
      List (SpanNode R)
      → List (PairDecision R)
      → DatasetMappingConfig R
      → List (List ℕ)
      → PairDecision R
      → Result (List (List ℕ))
  merge spans decisions config clusters decision =
      find_cluster decision.left_span_index clusters >>= λ left.
      find_cluster decision.right_span_index clusters >>= λ right.
      if left.0 == right.0
      then ok clusters
      else try_merge spans decisions config clusters left.0 left.1 right.1

  module _ ⦃fl : Floats R⦄ where
    -- `key=lambda item: (-item.cosine_similarity, item.left_span_index, item.right_span_index)`.
    abbrev pub merges_before : PairDecision R → PairDecision R → Bool
    merges_before a b =
        neg a.cosine_similarity ≺ neg b.cosine_similarity
        || (neg a.cosine_similarity ≈ neg b.cosine_similarity
            && (ltb a.left_span_index b.left_span_index
                || (a.left_span_index == b.left_span_index
                    && ltb a.right_span_index b.right_span_index)))

    pub merge_order : List (PairDecision R) → List (PairDecision R)
    merge_order decisions = sort merges_before (filter (λ d. d.accepted) decisions)

    pub cluster_spans :
        List (SpanNode R) → List (PairDecision R) → DatasetMappingConfig R → Result (List (List ℕ))
    cluster_spans spans decisions config = do
      clusters ←
          fold_result (merge spans decisions config)
            (map (λ index. index ∷ []) (range (length spans))) (merge_order decisions)
      ok (map (sort ltb) (filter (λ cluster. ltb 1 (length cluster)) clusters))
