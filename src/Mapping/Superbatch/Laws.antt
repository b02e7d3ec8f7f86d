-- ===== src/Mapping/Superbatch/Laws.antt =====
-- The superbatches of `_build_superbatches` as a whole.
use ztok.Common.{
  ℕ, suc, ◌+◌, ◌≤◌, ◌<◌, ◌≡◌, refl, ◌∙◌, sym, ap₂, false, List, [], ◌∷◌, some, ok, arith, All,
  All-mono, length, filter_map-All, map_result, map_result_total, or_raise, index_error, ltb,
  get_elem?, get_elem?_lt, enumerate_from, ◌>>=◌,
}
use ztok.Common.Counting.{Distinct, elem-count}
use ztok.Common.Dict.{keys}
use ztok.Common.Floats.{Floats, ◌≺◌}
use ztok.Common.Sort.{sort, count-sort, All-sort}
use ztok.Mapping.{SpanNode, DatasetMappingConfig}
use ztok.Mapping.Candidates.{
  Row, Candidate, rows_by_example, pairs_of, candidate_of, candidate_before, candidates_of,
}
use ztok.Mapping.Superbatch.{Superbatch, resolve, select, chosen, superbatch_of, build_superbatches}
use ztok.Mapping.Superbatch.Accounting.{IsAligned, candidate_of-IsAligned, superbatch_of_total}
use ztok.Mapping.Superbatch.Selection.{examples_of, All-select, IsPair, select-Distinct}
use ztok.Mapping.Superbatch.Rows.{
  example_size, length-rows, rows-Distinct, key-size_pos, PairIn, pairs_of-PairIn,
}

module _ {R : Type 0} where
  -- The examples that the superbatches pack.
  unfoldable pub packed : List (Superbatch R) → List ℕ
  packed [] = []
  packed (s ∷ ss) = s.left_example ∷ s.right_example ∷ packed ss

module _ {R : Type 0} ⦃fl : Floats R⦄ (spans : List (SpanNode R))
    (config : DatasetMappingConfig R) where
  -- What a superbatch packs: the spans of its two examples, with each aligned cluster saving one
  -- unit; as many aligned clusters and as much coverage as the configuration wants.
  pub record IsPacked (s : Superbatch R) : Type 0 where
    pub original :
        s.original_span_count
        ≡ example_size spans s.left_example + example_size spans s.right_example
    pub output : s.output_unit_count + length s.aligned_cluster_ids ≡ s.original_span_count
    pub enough : config.minimum_aligned_spans ≤ length s.aligned_cluster_ids
    pub covered : (s.alignment_coverage ≺ config.minimum_alignment_coverage) ≡ false

  pub record IsPacking (ss : List (Superbatch R)) : Type 0 where
    pub each : All IsPacked ss
    pub disjoint : Distinct (packed ss)

  resolve_total :
      (clusters : List (List ℕ))
      → All (All (λ i. i < length spans)) clusters
      → (rows : List (List (Row R))) × (resolve spans clusters ≡ ok rows) × All (λ _. Unit {0}) rows
  unfolding resolve
  resolve_total clusters h =
      map_result_total
        (λ cluster.
          map_result
            (λ index. or_raise (get_elem? spans index) index_error >>= λ span. ok (index, span))
            cluster)
        (All (λ i. i < length spans)) (λ _. Unit {0})
        (λ cluster inside.
          let (rows, e, _) =
            map_result_total
              (λ index. or_raise (get_elem? spans index) index_error >>= λ span. ok (index, span))
              (λ i. i < length spans) (λ _. Unit {0})
              (λ i lt. let (s, at) = get_elem?_lt spans i lt in ((i, s), rw at refl, tt)) cluster
              inside in
          (rows, e, tt))
        clusters h

  module _ (clusters : List (List (Row R))) where
    -- What every candidate is.
    pub record IsGood (c : Candidate R) : Type 0 where
      pub aligned : IsAligned config clusters (rows_by_example spans) c
      pub pair : IsPair c
      pub left_some : 0 < example_size spans c.left

    IsGood-of :
        (p : ℕ × ℕ) (c : Candidate R)
        → PairIn (sort ltb (keys (rows_by_example spans))) p
        → candidate_of config clusters (rows_by_example spans) p ≡ some c
        → IsGood c
    IsGood-of p c (differ, isin, other) e =
        let keys' = keys (rows_by_example spans) in
        let (al, el, er) =
          candidate_of-IsAligned config clusters (rows_by_example spans) p.0 p.1 c e in
        record {
          aligned = al;
          pair = λ same. differ (sym el ∙ same ∙ er);
          left_some = rw el (
              key-size_pos spans p.0 (
                ground (
                  arith,
                  elem-count p.0 keys',
                  elem-count p.0 (sort ltb keys'),
                  count-sort ltb p.0 keys',
                )));
        }

    candidates-IsGood : All IsGood (candidates_of config clusters (rows_by_example spans))
    unfolding candidates_of
    candidates-IsGood =
        let keys' = keys (rows_by_example spans) in
        filter_map-All (PairIn (sort ltb keys')) IsGood
          (candidate_of config clusters (rows_by_example spans)) (pairs_of (sort ltb keys'))
          IsGood-of
          (pairs_of-PairIn (sort ltb keys')
            (λ a. omega (arith, count-sort ltb a keys', rows-Distinct spans a)))

    superbatches_total :
        (k : ℕ) (cs : List (Candidate R))
        → All IsGood cs
        → (ss : List (Superbatch R)) × (map_result
              (superbatch_of (rows_by_example spans))
              (enumerate_from k cs)
            ≡ ok ss)
          × All IsPacked ss
          × (packed ss ≡ examples_of cs)
    unfolding map_result enumerate_from packed examples_of
    superbatches_total k [] h = ([], refl, tt, refl)
    superbatches_total k (c ∷ cs) h =
        let (s, e, el, er, acc) =
          superbatch_of_total config clusters (rows_by_example spans) k c h.0.aligned
            (rw (length-rows spans c.left) h.0.left_some) in
        let (ss, es, all_packed, examples) = superbatches_total (suc k) cs h.1 in
        (
          s ∷ ss,
          rw (e, es) refl,
          (
            record {
              original =
                  acc.original
                  ∙ ap₂ ◌+◌ (length-rows spans s.left_example) (length-rows spans s.right_example);
              output = acc.output;
              enough = acc.enough_ids;
              covered = acc.covered_ids;
            },
            all_packed,
          ),
          rw (el, er, examples) refl,
        )

  -- Packing clusters of spans that exist always succeeds. Every superbatch accounts for all spans
  -- of its two examples: its output units and its aligned clusters add up to them. It has at least
  -- the configured number of aligned clusters, and its coverage is not below the threshold. No
  -- example is packed twice.
  pub build_superbatches-IsPacking :
      (clusters : List (List ℕ))
      → All (All (λ i. i < length spans)) clusters
      → (ss : List (Superbatch R)) × (build_superbatches spans clusters config ≡ ok ss)
        × IsPacking ss
  unfolding build_superbatches chosen
  build_superbatches-IsPacking clusters h =
      let (rows, e, _) = resolve_total clusters h in
      let by_example = rows_by_example spans in
      let sorted = sort candidate_before (candidates_of config rows by_example) in
      let good = All-sort candidate_before (IsGood rows) _ (candidates-IsGood rows) in
      let (ss, e', each, examples) =
        superbatches_total rows 0 (select [] sorted) (All-select (IsGood rows) [] sorted good) in
      (
        ss,
        rw (e, e') refl,
        record {
          each = each;
          disjoint =
              rw examples (
                select-Distinct sorted (All-mono (IsGood rows) IsPair sorted (λ c g. g.pair) good));
        },
      )
