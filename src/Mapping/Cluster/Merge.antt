-- ===== src/Mapping/Cluster/Merge.antt =====
-- The loop body of `_cluster_spans` keeps the clusters a partition of the spans.
use ztok.Common.{
  ℕ, ◌+◌, ◌≤◌, ◌<◌, ◌≡◌, refl, ◌≢◌, ◌⊎◌, inl, inr, true, false, List, some, Result, ok, arith, elem,
  get_elem?, set, All, length, Bool-cases, ltb, ◌==◌, all, All-get, All-set, All-mono, ◌∙◌,
}
use ztok.Common.Counting.{
  count, Distinct, elem-count, union, union-Distinct, count-union, has_duplicate,
  has_duplicate-Distinct, bit,
}
use ztok.Mapping.{SpanNode, DatasetMappingConfig, PairDecision}
use ztok.Mapping.Cluster.{remove_cluster, pair_passes, example_ids_of, merge, try_merge}
use ztok.Mapping.Cluster.Examples.{HasOneEach, example_ids-HasOneEach, example_ids_of_total}
use ztok.Mapping.Cluster.Links.{IsLinked, union-IsLinked}
use ztok.Mapping.Cluster.Steps.{
  total, find_cluster-total, total-set, count-two_le_total, get_elem?-set_ne, remove_cluster-total,
}

module _ {R : Type 0} (spans : List (SpanNode R)) where
  -- A decision is on spans of the list.
  abbrev pub InRange : PairDecision R → Type 0
  InRange d = (d.left_span_index < length spans) × (d.right_span_index < length spans)

module _ {R : Type 0} (spans : List (SpanNode R)) (decisions : List (PairDecision R))
    (config : DatasetMappingConfig R) where
  -- A cluster of the loop: a set, of one index or of at most the maximum size, with one span of
  -- each example.
  pub record IsCluster (c : List ℕ) : Type 0 where
    pub distinct : Distinct c
    pub linked : IsLinked decisions c
    pub sized : (length c ≡ 1) ⊎ (length c ≤ config.maximum_cluster_size)
    pub one_each : HasOneEach spans c

  -- The clusters share out the indices of the spans.
  pub record IsPartition (cs : List (List ℕ)) : Type 0 where
    pub clusters : All IsCluster cs
    pub shared_out : (a : ℕ) → total a cs ≡ bit (ltb a (length spans))

  -- What a body of the loop does: it succeeds, and the clusters still share out the indices.
  abbrev pub KeepsPartition : Result (List (List ℕ)) → Type 0
  KeepsPartition r = (cs : List (List ℕ)) × (r ≡ ok cs) × IsPartition cs

  module _ (cs : List (List ℕ)) (inv : IsPartition cs) (li ri : ℕ) (xs ys : List ℕ)
      (at_l : get_elem? cs li ≡ some xs) (at_r : get_elem? cs ri ≡ some ys) (apart : li ≢ ri) where
    left_IsCluster : IsCluster xs
    left_IsCluster = All-get IsCluster cs li inv.clusters at_l

    right_IsCluster : IsCluster ys
    right_IsCluster = All-get IsCluster cs ri inv.clusters at_r

    counts_add : (a : ℕ) → count a (union xs ys) ≡ count a xs + count a ys
    counts_add a =
        count-union a xs ys left_IsCluster.distinct right_IsCluster.distinct
          (ground (arith, count-two_le_total a li ri cs xs ys at_l at_r apart, inv.shared_out a))

    members_lt : (a : ℕ) → elem a (union xs ys) ≡ true → a < length spans
    members_lt a m = ground (
      arith,
      elem-count a (union xs ys),
      counts_add a,
      count-two_le_total a li ri cs xs ys at_l at_r apart,
      inv.shared_out a,
    )

    union-IsCluster :
        (ids : List ℕ)
        → example_ids_of spans (union xs ys) ≡ ok ids
        → has_duplicate ids ≡ false
        → all (λ l. all (λ r. pair_passes decisions l r) ys) xs ≡ true
        → ltb config.maximum_cluster_size (length (union xs ys)) ≡ false
        → IsCluster (union xs ys)
    union-IsCluster ids e d across small = record {
      distinct = union-Distinct xs ys left_IsCluster.distinct;
      linked = union-IsLinked decisions xs ys left_IsCluster.linked right_IsCluster.linked across;
      sized = inr (ground arith);
      one_each = example_ids-HasOneEach spans (union xs ys) ids e (has_duplicate-Distinct ids d);
    }

    replaced :
        IsCluster (union xs ys) → KeepsPartition (remove_cluster ys (set cs li (union xs ys)))
    replaced c =
        let all_clusters = All-set IsCluster cs li (union xs ys) inv.clusters c in
        let (rest, e, clusters, counts) =
          remove_cluster-total IsCluster ys (set cs li (union xs ys)) ri
            (get_elem?-set_ne li ri cs (union xs ys) apart ∙ at_r)
            (All-mono IsCluster Distinct (set cs li (union xs ys)) (λ x k. k.distinct) all_clusters)
            all_clusters right_IsCluster.distinct in
        (
          rest,
          e,
          record {
            clusters = clusters;
            shared_out = λ a. omega (
              arith,
              counts a,
              total-set a li cs xs (union xs ys) at_l,
              counts_add a,
              inv.shared_out a,
            );
          },
        )

    try_merge_total : KeepsPartition (try_merge spans decisions config cs li xs ys)
    unfolding try_merge
    try_merge_total = elim (Bool-cases (ltb config.maximum_cluster_size (length (union xs ys)))) [
      | inl large ↦ (cs, rw large refl, inv)
      | inr small ↦
          let (ids, e) = example_ids_of_total spans (union xs ys) members_lt in
          elim (Bool-cases (has_duplicate ids)) [
            | inl twice ↦ (cs, rw (small, e, twice) refl, inv)
            | inr once ↦ elim (Bool-cases (all (λ l. all (λ r. pair_passes decisions l r) ys) xs)) [
              | inl across ↦
                  let (rest, done, inv') = replaced (union-IsCluster ids e once across small) in
                  (rest, rw (small, e, once, across) done, inv')
              | inr blocked ↦ (cs, rw (small, e, once, blocked) refl, inv)
            ]
          ]
    ]

  pub merge_total :
      (cs : List (List ℕ)) (d : PairDecision R)
      → IsPartition cs
      → InRange spans d
      → KeepsPartition (merge spans decisions config cs d)
  unfolding merge
  merge_total cs d inv (hl, hr) =
      let (left, e₁, at₁, m₁) =
        find_cluster-total d.left_span_index cs
          (ground (arith, inv.shared_out d.left_span_index)) in
      let (right, e₂, at₂, m₂) =
        find_cluster-total d.right_span_index cs
          (ground (arith, inv.shared_out d.right_span_index)) in
      elim (Bool-cases (left.0 == right.0)) [
        | inl same ↦ (cs, rw (e₁, e₂, same) refl, inv)
        | inr other ↦
            let (rest, e, inv') =
              try_merge_total cs inv left.0 right.0 left.1 right.1 at₁ at₂ (ground arith) in
            (rest, rw (e₁, e₂, other) e, inv')
      ]
