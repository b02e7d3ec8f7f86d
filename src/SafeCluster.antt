-- ===== src/SafeCluster.antt =====
-- experiments/nanogpt_superposition/superposition/semantic_clusters.py: a cluster of next-token
-- candidates that is safe to fuse.
pub mod Laws
pub mod Choice
pub mod Examples
use ztok.Common.{
  ℕ, ◌<◌, Bool, true, false, not, ◌&&◌, ◌||◌, List, [], ◌∷◌, ◌++◌, map, Option, none, some, String,
  Result, ok, err, ◌>>=◌, ◌>>◌, raise_if, or_raise, value_error, assertion_error, length, filter,
  any, ltb, ◌==◌, range, if◌then◌else◌,
}
use ztok.Common.Floats.{Floats, of_nat, neg, ◌≺◌, ◌≼◌, ◌≈◌, in_unit}
use ztok.Common.Sort.{sort}

-- One-dimensional tensors, as a size and a function of the index.
pub record SparseCandidates (R : Type 0) : Type 0 where
  pub size : ℕ
  pub token : ℕ → ℕ
  pub probability : ℕ → R

-- Vectors: their number, and the largest cosine distance between some of them.
pub record Vectors (R : Type 0) : Type 0 where
  pub rows : ℕ
  pub distance : List ℕ → R

pub record ClusterConfig (R : Type 0) : Type 0 where
  pub min_cluster_mass : R
  pub max_pair_cosine_distance : R
  pub max_transition_distance : Option R
  pub protected_pairs : List (ℕ × ℕ)

pub record ClusterDecision (R : Type 0) : Type 0 where
  pub accepted : Bool
  pub token_ids : List ℕ
  pub probabilities : List R
  pub mass : R
  pub maximum_cosine_distance : R
  pub transition_dispersion : Option R
  pub reason : String

-- A cluster with its mass and distances.
pub record Found (R : Type 0) : Type 0 where
  pub members : List ℕ
  pub total : R
  pub spread : R
  pub transition_spread : Option R

unfoldable pub has_pair : ℕ → ℕ → List (ℕ × ℕ) → Bool
has_pair left right [] = false
has_pair left right (p ∷ ps) = (p.0 == left && p.1 == right) || has_pair left right ps

unfoldable pub is_protected : ℕ → ℕ → List (ℕ × ℕ) → Bool
is_protected left right pairs = has_pair left right pairs || has_pair right left pairs

-- `min(members)`, from a first member.
unfoldable pub least_from : ℕ → List ℕ → ℕ
least_from n [] = n
least_from n (m ∷ ms) = least_from (if ltb m n then m else n) ms

abbrev pub least : List ℕ → ℕ
least [] = 0
least (m ∷ ms) = least_from m ms

-- `tensor_sum` is the sum of a tensor.
module _ {R : Type 0} ⦃fl : Floats R⦄ (tensor_sum : List R → R) (candidates : SparseCandidates R)
    (semantic : Vectors R) (transition : Option (Vectors R)) (config : ClusterConfig R) where
  unfoldable pub maximum_distance : Vectors R → List ℕ → R
  maximum_distance vectors members =
      if ltb (length members) 2 then of_nat 0 else vectors.distance members

  -- `key=lambda index: (-probability, index)`.
  abbrev pub index_before : ℕ → ℕ → Bool
  index_before i j =
      if neg (candidates.probability i) ≈ neg (candidates.probability j)
      then ltb i j
      else neg (candidates.probability i) ≺ neg (candidates.probability j)

  abbrev pub order : ℕ → List ℕ
  order seed = sort index_before (filter (λ i. not (i == seed)) (range candidates.size))

  -- Whether the transition vectors are too far apart; both are optional.
  unfoldable pub transition_exceeds : List ℕ → Bool
  transition_exceeds proposed = elim transition [
    | none ↦ false
    | some vectors ↦ elim config.max_transition_distance [
      | none ↦ false
      | some limit ↦ limit ≺ maximum_distance vectors proposed
    ]
  ]

  -- Whether an index is passed over.
  unfoldable pub is_refused : List ℕ → ℕ → Bool
  is_refused members i =
      any (λ m. is_protected (candidates.token i) (candidates.token m) config.protected_pairs)
        members
      || (config.max_pair_cosine_distance ≺ maximum_distance semantic (members ++ i ∷ []))
      || transition_exceeds (members ++ i ∷ [])

  -- The loop over the order.
  unfoldable pub grow : List ℕ → List ℕ → List ℕ
  grow members [] = members
  grow members (i ∷ is) = grow (if is_refused members i then members else members ++ i ∷ []) is

  -- The body of the loop over the seeds.
  unfoldable pub cluster_from : ℕ → Found R
  cluster_from seed =
      let members = grow (seed ∷ []) (order seed) in
      record {
        members = members;
        total = tensor_sum (map candidates.probability members);
        spread = maximum_distance semantic members;
        transition_spread = elim transition [
          | none ↦ none
          | some vectors ↦ some (maximum_distance vectors members)
        ];
      }

  -- `key > best_key` on tuples.
  unfoldable pub is_better : Found R → Found R → Bool
  is_better a b =
      if a.total ≈ b.total
      then if neg a.spread ≈ neg b.spread
        then ltb (least a.members) (least b.members)
        else neg b.spread ≺ neg a.spread
      else b.total ≺ a.total

  unfoldable pub best_of : Option (Found R) → List ℕ → Option (Found R)
  best_of best [] = best
  best_of none (seed ∷ seeds) = best_of (some (cluster_from seed)) seeds
  best_of (some b) (seed ∷ seeds) =
      best_of (some (if is_better (cluster_from seed) b then cluster_from seed else b)) seeds

  unfoldable pub decide : Found R → ClusterDecision R
  decide found = record {
    accepted = (config.min_cluster_mass ≼ found.total) && ltb 1 (length found.members);
    token_ids = map candidates.token found.members;
    probabilities = map candidates.probability found.members;
    mass = found.total;
    maximum_cosine_distance = found.spread;
    transition_dispersion = found.transition_spread;
    reason =
        if length found.members == 1
        then "no_complete_link_partner"
        else if found.total ≺ config.min_cluster_mass
        then "cluster_mass_below_threshold"
        else "complete_link_safety_passed";
  }

  unfoldable pub select_safe_cluster : Result (ClusterDecision R)
  select_safe_cluster = do
    raise_if (not (semantic.rows == candidates.size))
        (value_error "semantic vector rows must match candidates")
    raise_if (elim transition [ none ↦ false | some v ↦ not (v.rows == candidates.size) ])
        (value_error "transition vector rows must match candidates")
    raise_if (not (in_unit config.min_cluster_mass))
        (value_error "min_cluster_mass must be in [0, 1]")
    best ← or_raise (best_of none (range candidates.size)) (assertion_error "")
    ok (decide best)
