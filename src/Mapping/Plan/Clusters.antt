-- ===== src/Mapping/Plan/Clusters.antt =====
-- The clusters of a plan, with their similarities and weights.
use ztok.Common.{
  ℕ, suc, ◌≤◌, ◌<◌, ◌≡◌, refl, ◌≢◌, ◌∙◌, sym, ap, true, List, [], ◌∷◌, map, Option, some, ok, arith,
  All, All-of_get, All-of_elem, elem, ==_ne, length, enumerate_from, get_elem?, get_elem?_lt,
  map_result, map_result_total, length-map_result, min, max, or_raise, key_error, index_error,
  ◌>>=◌, subst,
}
use ztok.Common.Counting.{elem-count}
use ztok.Common.Floats.{Floats, sum_f, ◌⊘◌, of_nat}
use ztok.Mapping.{SpanNode, DatasetMappingConfig, Embeddings, PairDecision}
use ztok.Mapping.Decision.{Entry, pair_similarity}
use ztok.Mapping.Decision.Laws.{IsCompatible}
use ztok.Mapping.Cluster.{pair_passes}
use ztok.Mapping.Cluster.Steps.{count-le_total}
use ztok.Mapping.Cluster.Laws.{IsFused, IsClustering}
use ztok.Mapping.Candidates.{pairs_of}
use ztok.Mapping.Superbatch.Rows.{PairIn, pairs_of-PairIn}
use ztok.Mapping.Superbatch.Accounting.{normalized_weights_total}
use ztok.Mapping.Plan.{
  ClusterPayload, decision_get, minimum, mean, cluster_payload, similarities_of, members_of,
}
use ztok.Mapping.Plan.Pairs.{IsDecision, pair_passes-decision}

module _ {R : Type 0} ⦃fl : Floats R⦄ where
  minimum_total : (vs : List R) → 0 < length vs → (v : R) × (minimum vs ≡ ok v)
  unfolding minimum
  minimum_total [] h = absurd (omega arith)
  minimum_total (v ∷ vs) h = (_, refl)

  mean_total : (vs : List R) → 0 < length vs → (v : R) × (mean vs ≡ ok v)
  unfolding mean
  mean_total [] h = absurd (omega arith)
  mean_total (v ∷ vs) h =
      (sum_f (v ∷ vs) ⊘ of_nat (length (v ∷ vs)), rw (==_ne (length (v ∷ vs)) 0 (omega arith)) refl)

members_of_total :
    {R : Type 0} (spans : List (SpanNode R)) (c : List ℕ)
    → All (λ i. i < length spans) c
    → (ms : List (ℕ × SpanNode R)) × (members_of spans c ≡ ok ms) × (length ms ≡ length c)
unfolding members_of
members_of_total spans c inside =
    let (ms, e, _) =
      map_result_total
        (λ index. or_raise (get_elem? spans index) index_error >>= λ span. ok (index, span))
        (λ i. i < length spans) (λ _. Unit {0})
        (λ i lt. let (s, at) = get_elem?_lt spans i lt in ((i, s), rw at refl, tt)) c inside in
    (ms, e, length-map_result _ c e)

some_pair : (xs : List ℕ) → 1 < length xs → 0 < length (pairs_of xs)
unfolding pairs_of
some_pair [] h = omega arith
some_pair (x ∷ []) h = absurd (omega arith)
some_pair (x ∷ y ∷ xs) h = omega arith

module _ {R : Type 0} ⦃fl : Floats R⦄ (spans : List (SpanNode R)) (embeddings : Embeddings R)
    (signatures : List (List Entry)) (config : DatasetMappingConfig R)
    (allowed : Option (List (ℕ × ℕ))) where
  -- Two spans that fit to be fused, with the signatures at their indices and the similarity of
  -- their embeddings.
  pub record FitTogether (l r : ℕ) : Type 0 where
    pub left : SpanNode R
    pub right : SpanNode R
    pub ls : List Entry
    pub rs : List Entry
    pub left_at : get_elem? spans (min l r) ≡ some left
    pub right_at : get_elem? spans (max l r) ≡ some right
    pub ls_at : get_elem? signatures (min l r) ≡ some ls
    pub rs_at : get_elem? signatures (max l r) ≡ some rs
    pub fit : IsCompatible config allowed left right ls rs (pair_similarity embeddings left right)

  -- A cluster of a plan.
  pub record IsGrouped (c : ClusterPayload R) : Type 0 where
    pub several : 1 < length c.member_span_indices
    pub limited : length c.member_span_indices ≤ config.maximum_cluster_size
    pub weighted : length c.weights ≡ length c.member_span_indices
    pub fitting :
        (l r : ℕ)
        → elem l c.member_span_indices ≡ true
        → elem r c.member_span_indices ≡ true
        → l ≢ r
        → FitTogether l r

  module _ (ds : List (PairDecision R))
      (decided : All (IsDecision spans embeddings signatures config allowed) ds) where
    linked-FitTogether : (l r : ℕ) → pair_passes ds l r ≡ true → FitTogether l r
    linked-FitTogether l r h =
        let (d, _, acc, li, ri, dec) =
          pair_passes-decision (IsDecision spans embeddings signatures config allowed) ds l r
            decided h in
        let k = dec.decided in
        record {
          left = k.left;
          right = k.right;
          ls = k.ls;
          rs = k.rs;
          left_at = ap (get_elem? spans) (sym li ∙ k.left_index) ∙ k.left_at;
          right_at = ap (get_elem? spans) (sym ri ∙ k.right_index) ∙ k.right_at;
          ls_at = ap (get_elem? signatures) (sym li ∙ k.left_index) ∙ k.ls_at;
          rs_at = ap (get_elem? signatures) (sym ri ∙ k.right_index) ∙ k.rs_at;
          fit =
              subst (IsCompatible config allowed k.left k.right k.ls k.rs) k.similarity
                (k.accepts acc);
        }

    similarities_total :
        (c : List ℕ)
        → IsFused spans ds config c
        → (vs : List R) × (similarities_of ds c ≡ ok vs) × (length vs ≡ length (pairs_of c))
    unfolding similarities_of
    similarities_total c f =
        let (vs, e, _) =
          map_result_total
            (λ p. or_raise (decision_get ds (min p.0 p.1) (max p.0 p.1)) key_error >>= λ d.
              ok d.cosine_similarity)
            (PairIn c) (λ _. Unit {0})
            (λ p (differ, ml, mr).
              let (d, at, _, _, _, _) =
                pair_passes-decision (IsDecision spans embeddings signatures config allowed) ds p.0
                  p.1 decided (f.linked p.0 p.1 ml mr differ) in
              (d.cosine_similarity, rw at refl, tt))
            (pairs_of c) (pairs_of-PairIn c f.distinct) in
        (vs, e, length-map_result _ (pairs_of c) e)

    cluster_payload_total :
        (id : ℕ) (c : List ℕ)
        → IsFused spans ds config c
        → All (λ i. i < length spans) c
        → (p : ClusterPayload R) × (cluster_payload spans ds (id, c) ≡ ok p)
          × (p.member_span_indices ≡ c)
          × IsGrouped p
    unfolding cluster_payload
    cluster_payload_total id c f inside =
        let (similarities, e₁, n₁) = similarities_total c f in
        let (members, e₂, n₂) = members_of_total spans c inside in
        let (weights, e₃, n₃) = normalized_weights_total members (omega (arith, n₂, f.several)) in
        let (least, e₄) = minimum_total similarities (omega (arith, n₁, some_pair c f.several)) in
        let (average, e₅) = mean_total similarities (omega (arith, n₁, some_pair c f.several)) in
        let p : ClusterPayload R = record {
          cluster_id = id;
          member_span_ids = map (λ m. m.1.span_id) members;
          member_example_ids = map (λ m. m.1.example_id) members;
          member_span_indices = c;
          weights = weights;
          minimum_pair_similarity = least;
          mean_pair_similarity = average;
        } in
        (
          p,
          rw (e₁, e₂, e₃, e₄, e₅) refl,
          refl,
          record {
            several = f.several;
            limited = f.limited;
            weighted = n₃ ∙ n₂;
            fitting = λ l r ml mr n. linked-FitTogether l r (f.linked l r ml mr n);
          },
        )

    pub payloads_total :
        (k : ℕ) (cs : List (List ℕ))
        → All (IsFused spans ds config) cs
        → All (All (λ i. i < length spans)) cs
        → (ps : List (ClusterPayload R)) × (map_result
              (cluster_payload spans ds)
              (enumerate_from k cs)
            ≡ ok ps)
          × (map (λ (p : ClusterPayload R). p.member_span_indices) ps ≡ cs)
          × All IsGrouped ps
    unfolding map_result enumerate_from
    payloads_total k [] f h = ([], refl, refl, tt)
    payloads_total k (c ∷ cs) f h =
        let (p, e, m, g) = cluster_payload_total k c f.0 h.0 in
        let (ps, es, ms, gs) = payloads_total (suc k) cs f.1 h.1 in
        (p ∷ ps, rw (e, es) refl, rw (m, ms) refl, (g, gs))

  pub clusters_inside :
      (ds : List (PairDecision R)) (cs : List (List ℕ))
      → IsClustering spans ds config cs
      → All (All (λ i. i < length spans)) cs
  clusters_inside ds cs k = All-of_get (All (λ i. i < length spans)) cs (λ i c at.
      All-of_elem (λ a. a < length spans) c
        (λ a m. k.in_range a (ground (arith, elem-count a c, count-le_total a i cs c at))))
