-- ===== src/Mapping/Superbatch.antt =====
-- `_normalized_weights` and `_build_superbatches` of dataset_mapping.py, from the candidates on.
pub mod Orders
pub mod Rows
pub mod Accounting
pub mod Selection
pub mod Laws
use ztok.Common.{
  ℕ, suc, ◌+◌, Bool, true, false, not, ◌&&◌, ◌||◌, List, [], ◌∷◌, ◌++◌, map, Option, none, some,
  String, Result, ok, err, ◌>>=◌, ◌>>◌, or_raise, index_error, zero_division, min, max, ltb, ◌==◌,
  if◌then◌else◌, map_result, get_elem?, length, filter, filter_map, any, elem, enumerate_from,
  flat_map,
}
use ztok.Common.Dict.{group_from, get_list, keys}
use ztok.Common.Floats.{Floats, of_nat, neg, ◌≺◌, ◌≈◌, ◌≼◌, ◌⊘◌ as over, sum_f}
use ztok.Common.Sort.{sort}
use ztok.Mapping.{SpanNode, DatasetMappingConfig}
use ztok.Mapping.Validate.{starts_before}
use ztok.Mapping.Decision.{ids_eq}
use ztok.Mapping.Candidates.{
  Candidate, Cluster, Row, candidate_before, candidate_of, candidates_of, cluster_from, cluster_of,
  cluster_order, eligible_count, has_example, ids_of, in_aligned, is_content, pairs_of, row_before,
  rows_by_example, shared_cluster,
}

pub record Member (R : Type 0) : Type 0 where
  pub example_id : ℕ
  pub span_id : String
  pub span_index : ℕ
  pub weight : R

pub record Superbatch (R : Type 0) : Type 0 where
  pub superbatch_id : ℕ
  pub left_example : ℕ
  pub right_example : ℕ
  pub aligned_cluster_ids : List ℕ
  pub aligned_units : List (ℕ × List (Member R))
  pub left_unique_span_ids : List String
  pub right_unique_span_ids : List String
  pub alignment_coverage : R
  pub total_alignment_coverage : R
  pub left_eligible_count : ℕ
  pub right_eligible_count : ℕ
  pub original_span_count : ℕ
  pub output_unit_count : ℕ
  pub compression_ratio : R

module _ {R : Type 0} where
  -- `[spans[index] for index in cluster]`, of all clusters.
  pub resolve : List (SpanNode R) → List (List ℕ) → Result (List (List (Row R)))
  resolve spans clusters =
      map_result
        (λ cluster.
          map_result
            (λ index. or_raise (get_elem? spans index) index_error >>= λ span. ok (index, span))
            cluster)
        clusters

module _ {R : Type 0} ⦃fl : Floats R⦄ where
  -- The loop over the candidates: each example is used once.
  unfoldable pub select : List ℕ → List (Candidate R) → List (Candidate R)
  select used [] = []
  select used (c ∷ cs) = elim (elem c.left used || elem c.right used) [
    | true ↦ select used cs
    | false ↦ c ∷ select (c.left ∷ c.right ∷ used) cs
  ]

  -- `a / b` on integers.
  abbrev pub divide : ℕ → ℕ → Result R
  divide a b = if b == 0 then err zero_division else ok (over (of_nat a) (of_nat b))

  pub normalized_weights : List (Row R) → Result (List R)
  normalized_weights rows =
      let values = map (λ r. r.1.confidence) rows in
      let total = sum_f values in
      if total ≼ of_nat 0
      then (divide 1 (length values) >>= λ each. ok (map (λ _. each) values))
      else ok (map (λ v. over v total) values)

  zip_members : List (Row R) → List R → List (Member R)
  zip_members [] ws = []
  zip_members (r ∷ rs) [] = []
  zip_members (r ∷ rs) (w ∷ ws) =
      record { example_id = r.1.example_id; span_id = r.1.span_id; span_index = r.0; weight = w }
      ∷ zip_members rs ws

  pub aligned_unit : ℕ → ℕ → Cluster R → Result (ℕ × List (Member R))
  aligned_unit left right c =
      let members = filter (λ m. m.1.example_id == left || m.1.example_id == right) c.1 in
      normalized_weights members >>= λ weights. ok (c.0, zip_members members weights)

  pub superbatch_of : List (ℕ × List (Row R)) → ℕ × Candidate R → Result (Superbatch R)
  superbatch_of by_example (id, c) = do
    let left_rows = get_list c.left by_example
    let right_rows = get_list c.right by_example
    let original = length left_rows + length right_rows
    let output = length c.aligned + length c.left_unique + length c.right_unique
    total_coverage ← divide (length c.aligned) (max (length left_rows) (length right_rows))
    units ← map_result (aligned_unit c.left c.right) c.aligned
    ratio ← divide output original
    ok (record {
      superbatch_id = id;
      left_example = c.left;
      right_example = c.right;
      aligned_cluster_ids = ids_of c.aligned;
      aligned_units = units;
      left_unique_span_ids = map (λ r. r.1.span_id) c.left_unique;
      right_unique_span_ids = map (λ r. r.1.span_id) c.right_unique;
      alignment_coverage = c.coverage;
      total_alignment_coverage = total_coverage;
      left_eligible_count = c.left_eligible;
      right_eligible_count = c.right_eligible;
      original_span_count = original;
      output_unit_count = output;
      compression_ratio = ratio;
    })

  -- The candidates that the loop takes, best first.
  pub chosen :
      DatasetMappingConfig R → List (List (Row R)) → List (ℕ × List (Row R)) → List (Candidate R)
  chosen config clusters by_example =
      select [] (sort candidate_before (candidates_of config clusters by_example))

  pub build_superbatches :
      List (SpanNode R) → List (List ℕ) → DatasetMappingConfig R → Result (List (Superbatch R))
  build_superbatches spans clusters config = do
    members ← resolve spans clusters
    let by_example = rows_by_example spans
    map_result (superbatch_of by_example) (enumerate_from 0 (chosen config members by_example))
