-- ===== src/SafeCluster/Choice.antt =====
-- The cluster that is chosen is safe, and accepted only if it is heavy enough.
use ztok.Common.{
  ℕ, zero, suc, ◌≤◌, ◌<◌, ◌≡◌, refl, sym, ap, ◌∙◌, subst, Bool, true, false, not, ◌&&◌, List, [],
  ◌∷◌, map, Option, none, some, ok, length, ltb, ◌==◌, range, range_from, if◌then◌else◌, arith, All,
}
use ztok.Common.Floats.{Floats, ◌≼◌, in_unit}
use ztok.Common.Counting.{All-range_from}
use ztok.SafeCluster.{
  SparseCandidates, Vectors, ClusterConfig, ClusterDecision, Found, cluster_from, best_of,
  is_better, decide, select_safe_cluster,
}
use ztok.SafeCluster.Laws.{IsSafe, cluster_from-IsSafe}

module _ {R : Type 0} ⦃fl : Floats R⦄ (tensor_sum : List R → R) (candidates : SparseCandidates R)
    (semantic : Vectors R) (transition : Option (Vectors R)) (config : ClusterConfig R) where
  -- The cluster grew from some candidate.
  abbrev pub IsGrown : Found R → Type 0
  IsGrown b =
      (seed : ℕ) × (seed < candidates.size)
      × (b ≡ cluster_from tensor_sum candidates semantic transition config seed)

  best_of-IsGrown :
      (b : Found R) (seeds : List ℕ)
      → IsGrown b
      → All (λ i. i < candidates.size) seeds
      → (c : Found R) × (best_of tensor_sum candidates semantic transition config (some b) seeds
          ≡ some c)
        × IsGrown c
  unfolding best_of
  best_of-IsGrown b [] g a = (b, refl, g)
  best_of-IsGrown b (s ∷ ss) g a =
      let next = cluster_from tensor_sum candidates semantic transition config s in
      let better = is_better tensor_sum candidates semantic transition config next b in
      best_of-IsGrown (if better then next else b) ss (pick better) a.1
    where
      pick :
          (better : Bool)
          → IsGrown (
              if better then cluster_from tensor_sum candidates semantic transition config s else b)
      pick true = (s, a.0, refl)
      pick false = g

  best_of-range :
      (n : ℕ)
      → 1 ≤ n
      → All (λ i. i < candidates.size) (range_from 0 n)
      → (c : Found R) × (best_of tensor_sum candidates semantic transition config none
            (range_from 0 n)
          ≡ some c)
        × IsGrown c
  unfolding best_of range_from
  best_of-range zero h a = ground arith
  best_of-range (suc n) h a =
      best_of-IsGrown (cluster_from tensor_sum candidates semantic transition config 0)
        (range_from 1 n) (0, a.0, refl) a.1

  -- What a decision says about the cluster that it was made for.
  abbrev pub IsDecision : List ℕ → ClusterDecision R → Type 0
  IsDecision members d =
      (d.token_ids ≡ map candidates.token members)
      × (d.probabilities ≡ map candidates.probability members)
      × (d.mass ≡ tensor_sum (map candidates.probability members))
      × (d.accepted ≡ ((config.min_cluster_mass ≼ d.mass) && ltb 1 (length members)))

  -- For at least one candidate, with as many vectors as candidates and a threshold in the unit
  -- interval, `select_safe_cluster` returns a decision on candidates that are safe: each at most
  -- once, no two with protected tokens, and if they are two or more, no further apart than the
  -- limits; and it accepts exactly clusters of two or more whose mass reaches the threshold.
  pub select_safe_cluster-IsSafe :
      (semantic.rows ≡ candidates.size)
      → elim transition [ none ↦ false | some v ↦ not (v.rows == candidates.size) ] ≡ false
      → in_unit config.min_cluster_mass ≡ true
      → 1 ≤ candidates.size
      → (members : List ℕ) × (d : ClusterDecision R) × (select_safe_cluster tensor_sum candidates
            semantic transition config
          ≡ ok d)
        × IsSafe tensor_sum candidates semantic transition config members
        × IsDecision members d
  unfolding select_safe_cluster decide cluster_from range
  select_safe_cluster-IsSafe rows transition_rows unit one =
      let (b, is_b, (seed, below, grown)) =
        best_of-range candidates.size one
          (All-range_from 0 candidates.size candidates.size (omega arith)) in
      let safe = cluster_from-IsSafe tensor_sum candidates semantic transition config seed below in
      let same_rows : not (semantic.rows == candidates.size) ≡ false = ground arith in
      let in_range : not (in_unit config.min_cluster_mass) ≡ false = ground arith in
      let total : b.total ≡ tensor_sum (map candidates.probability b.members) =
        ap (λ f. f.total) grown
        ∙ sym (ap (λ f. tensor_sum (map candidates.probability f.members)) grown) in
      (
        b.members,
        decide tensor_sum candidates semantic transition config b,
        rw (same_rows, transition_rows, in_range, is_b) refl,
        subst (λ f. IsSafe tensor_sum candidates semantic transition config f.members) (sym grown)
            safe,
        (refl, refl, total, refl),
      )
