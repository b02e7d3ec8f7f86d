-- ===== src/SafeCluster/Examples.antt =====
-- Three candidates, of which the first and the last are close.
use ztok.Common.{ℕ, ◌≡◌, refl, List, [], ◌∷◌, none, ok, arith, elem, if◌then◌else◌}
use ztok.Common.Floats.{sum_f}
use ztok.Common.Milli.{Milli, milli, pos}
use ztok.SafeCluster.{
  SparseCandidates, Vectors, ClusterConfig, ClusterDecision, select_safe_cluster,
}
use ztok.SafeCluster.Laws.{IsSafe}
use ztok.SafeCluster.Choice.{IsDecision, select_safe_cluster-IsSafe}

abbrev candidates : SparseCandidates Milli
candidates = record { size = 3; token = λ i. i; probability = λ i. pos 300 }

abbrev vectors : Vectors Milli
vectors = record { rows = 3; distance = λ is. if elem 1 is then pos 900 else pos 10 }

abbrev config : ClusterConfig Milli
config = record {
  min_cluster_mass = pos 500;
  max_pair_cosine_distance = pos 80;
  max_transition_distance = none;
  protected_pairs = (0, 1) ∷ [];
}

select_safe_cluster-IsSafe_example :
    (members : List ℕ) × (d : ClusterDecision Milli) × (select_safe_cluster sum_f candidates vectors
        none config
      ≡ ok d)
    × IsSafe sum_f candidates vectors none config members
    × IsDecision sum_f candidates vectors none config members d
select_safe_cluster-IsSafe_example =
    select_safe_cluster-IsSafe sum_f candidates vectors none config refl refl refl (ground arith)
