-- ===== src/Mapping/Cluster/Laws.antt =====
-- The clusters of `_cluster_spans`: what each of them is, and that no span is lost or doubled.
use ztok.Common.{
  ℕ, zero, suc, ◌+◌, ◌≤◌, ◌<◌, ◌≡◌, refl, inl, inr, Bool, true, List, [], ◌∷◌, map, ok, arith, elem,
  All, length, range, range_from, Bool-cases, ltb, filter, filter-All, fold_result_total,
}
use ztok.Common.Counting.{count, Distinct, elem-count, count-range_from}
use ztok.Common.Floats.{Floats}
use ztok.Common.Sort.{sort, count-sort, length-sort, All-sort}
use ztok.Mapping.{SpanNode, DatasetMappingConfig, PairDecision}
use ztok.Mapping.Cluster.{merge, merge_order, cluster_spans}
use ztok.Mapping.Cluster.Examples.{HasOneEach}
use ztok.Mapping.Cluster.Links.{IsLinked}
use ztok.Mapping.Cluster.Merge.{IsCluster, IsPartition, InRange, merge_total}
use ztok.Mapping.Cluster.Steps.{total}

module _ {R : Type 0} (spans : List (SpanNode R)) (decisions : List (PairDecision R))
    (config : DatasetMappingConfig R) where
  -- A cluster that is returned: at least two and at most the maximum number of spans, of different
  -- examples, and any two of them an accepted pair.
  pub record IsFused (c : List ℕ) : Type 0 where
    pub distinct : Distinct c
    pub linked : IsLinked decisions c
    pub one_each : HasOneEach spans c
    pub several : 1 < length c
    pub limited : length c ≤ config.maximum_cluster_size

  -- The clusters are such sets of spans, and no span is in two of them.
  pub record IsClustering (cs : List (List ℕ)) : Type 0 where
    pub fused : All IsFused cs
    pub disjoint : (a : ℕ) → total a cs ≤ 1
    pub in_range : (a : ℕ) → 0 < total a cs → a < length spans

  singleton-IsCluster : (a : ℕ) → a < length spans → IsCluster spans decisions config (a ∷ [])
  unfolding elem count
  singleton-IsCluster a h = record {
    distinct = λ b. ground arith;
    linked = λ l r ml mr n. ground arith;
    sized = inl refl;
    one_each = λ l r x y ml mr n. ground arith;
  }

  singletons :
      (start n : ℕ)
      → start + n ≤ length spans
      → All (IsCluster spans decisions config) (map (λ a. a ∷ []) (range_from start n))
  unfolding range_from
  singletons start zero h = tt
  singletons start (suc n) h =
      (singleton-IsCluster start (omega arith), singletons (suc start) n (omega arith))

  total-singletons : (a : ℕ) (xs : List ℕ) → total a (map (λ x. x ∷ []) xs) ≡ count a xs
  unfolding total count
  total-singletons a [] = refl
  total-singletons a (x ∷ xs) = omega (arith, total-singletons a xs)

  start-IsPartition : IsPartition spans decisions config (map (λ a. a ∷ []) (range (length spans)))
  unfolding range
  start-IsPartition = record {
    clusters = singletons 0 (length spans) (omega arith);
    shared_out = λ a. ground (
      arith,
      total-singletons a (range_from 0 (length spans)),
      count-range_from a 0 (length spans),
    );
  }

  sort-IsFused :
      (c : List ℕ) → IsCluster spans decisions config c → 1 < length c → IsFused (sort ltb c)
  sort-IsFused c k several = record {
    distinct = λ a. omega (arith, k.distinct a, count-sort ltb a c);
    linked = λ l r ml mr n. k.linked l r (unsorted l ml) (unsorted r mr) n;
    one_each = λ l r a b ml mr n. k.one_each l r a b (unsorted l ml) (unsorted r mr) n;
    several = omega (arith, length-sort ltb c);
    limited = omega (arith, length-sort ltb c, k.sized);
  }
    where
      unsorted : (a : ℕ) → elem a (sort ltb c) ≡ true → elem a c ≡ true
      unsorted a m = ground (arith, elem-count a c, elem-count a (sort ltb c), count-sort ltb a c)

  abbrev large : List ℕ → Bool
  large c = ltb 1 (length c)

  finish-IsFused :
      (cs : List (List ℕ))
      → All (IsCluster spans decisions config) cs
      → All IsFused (map (sort ltb) (filter large cs))
  unfolding filter
  finish-IsFused [] h = tt
  finish-IsFused (c ∷ cs) h = elim (Bool-cases (large c)) [
    | inl e ↦ rw e (sort-IsFused c h.0 (ground arith), finish-IsFused cs h.1)
    | inr e ↦ rw e (finish-IsFused cs h.1)
  ]

  finish-total :
      (a : ℕ) (cs : List (List ℕ)) → total a (map (sort ltb) (filter large cs)) ≤ total a cs
  unfolding total filter
  finish-total a [] = omega arith
  finish-total a (c ∷ cs) = ground (arith, finish-total a cs, count-sort ltb a c)

  module _ ⦃fl : Floats R⦄ where
    -- Clustering decisions about the given spans always succeeds: no lookup or removal fails. Each
    -- cluster has at least two and at most the maximum number of spans, all of different examples,
    -- and any two of them are an accepted pair. No span is in two clusters.
    pub cluster_spans-IsClustering :
        All (InRange spans) decisions
        → (cs : List (List ℕ)) × (cluster_spans spans decisions config ≡ ok cs) × IsClustering cs
    unfolding cluster_spans merge_order
    cluster_spans-IsClustering h =
        let (cs, e, inv) =
          fold_result_total (merge spans decisions config) (IsPartition spans decisions config)
            (InRange spans) (merge_total spans decisions config)
            (map (λ index. index ∷ []) (range (length spans))) (merge_order decisions)
            start-IsPartition
            (All-sort _ (InRange spans) (filter (λ d. d.accepted) decisions)
              (filter-All (InRange spans) (λ d. d.accepted) decisions h)) in
        (
          map (sort ltb) (filter large cs),
          rw e refl,
          record {
            fused = finish-IsFused cs inv.clusters;
            disjoint = λ a. ground (arith, finish-total a cs, inv.shared_out a);
            in_range = λ a p. ground (arith, finish-total a cs, inv.shared_out a);
          },
        )
