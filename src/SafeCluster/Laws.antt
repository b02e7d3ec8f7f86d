-- ===== src/SafeCluster/Laws.antt =====
-- Growing a cluster keeps it safe.
use mathlib.Core.List.{append-nil, append_assoc}
use ztok.Common.{
  ℕ, ◌≤◌, ◌<◌, ◌≡◌, sym, subst, false, not, List, [], ◌∷◌, ◌++◌, Option, length, length-append,
  filter, any, ◌==◌, range, range_from, if◌then◌else◌, arith, All, All-append, filter-All,
  Bool-cases, inl, inr,
}
use ztok.Common.Floats.{Floats, ◌≺◌}
use ztok.Common.Counting.{count, count-append, Distinct, count-range_from, All-range_from}
use ztok.Common.Sort.{sort, All-sort, count-sort}
use ztok.SafeCluster.{
  SparseCandidates, Vectors, ClusterConfig, is_protected, maximum_distance, transition_exceeds,
  is_refused, grow, order, index_before, cluster_from,
}

module _ {R : Type 0} ⦃fl : Floats R⦄ (tensor_sum : List R → R) (candidates : SparseCandidates R)
    (semantic : Vectors R) (transition : Option (Vectors R)) (config : ClusterConfig R) where
  -- No two members have protected tokens.
  abbrev pub Apart : List ℕ → Type 0
  Apart [] = Unit
  Apart (m ∷ ms) =
      All
        (λ i. is_protected (candidates.token i) (candidates.token m) config.protected_pairs ≡ false)
        ms
      × Apart ms

  -- Two members or more are close enough to one another.
  abbrev pub Close : List ℕ → Type 0
  Close ms =
      2 ≤ length ms
      → ((config.max_pair_cosine_distance
            ≺ maximum_distance tensor_sum candidates semantic transition config semantic ms)
          ≡ false)
        × (transition_exceeds tensor_sum candidates semantic transition config ms ≡ false)

  -- A cluster that is safe: members of the candidates, once each, apart and close.
  abbrev pub IsSafe : List ℕ → Type 0
  IsSafe ms =
      Distinct ms × All (λ i. i < candidates.size) ms × Apart ms × Close ms × (1 ≤ length ms)

  Apart-snoc :
      (ms : List ℕ) (i : ℕ)
      → any (λ m. is_protected (candidates.token i) (candidates.token m) config.protected_pairs) ms
        ≡ false
      → Apart ms
      → Apart (ms ++ i ∷ [])
  unfolding any
  Apart-snoc [] i h a = (tt, tt)
  Apart-snoc (m ∷ ms) i h (a, b) =
      (All-append _ ms (i ∷ []) a (ground arith, tt), Apart-snoc ms i (ground arith) b)

  -- What holds of the members while the rest of the order is to come.
  abbrev Growing : List ℕ → List ℕ → Type 0
  Growing ms rest =
      Distinct (ms ++ rest)
      × All (λ i. i < candidates.size) ms
      × All (λ i. i < candidates.size) rest
      × Apart ms
      × Close ms
      × (1 ≤ length ms)

  Growing-refuse : (ms : List ℕ) (i : ℕ) (is : List ℕ) → Growing ms (i ∷ is) → Growing ms is
  unfolding count
  Growing-refuse ms i is (d, b, (_, c), a, e, l) =
      (λ k. omega (arith, d k, count-append k ms (i ∷ is), count-append k ms is), b, c, a, e, l)

  Growing-accept :
      (ms : List ℕ) (i : ℕ) (is : List ℕ)
      → is_refused tensor_sum candidates semantic transition config ms i ≡ false
      → Growing ms (i ∷ is)
      → Growing (ms ++ i ∷ []) is
  unfolding is_refused count
  Growing-accept ms i is h (d, b, (at, c), a, e, l) = (
    λ k. subst (λ xs. count k xs ≤ 1) (sym (append_assoc ms (i ∷ []) is)) (d k),
    All-append _ ms (i ∷ []) b (at, tt),
    c,
    Apart-snoc ms i (ground arith) a,
    (λ two. (ground arith, ground arith)),
    ground (arith, length-append ms (i ∷ [])),
  )

  grow-IsSafe :
      (ms rest : List ℕ)
      → Growing ms rest
      → IsSafe (grow tensor_sum candidates semantic transition config ms rest)
  unfolding grow
  grow-IsSafe ms [] (d, b, _, a, e, l) = (subst Distinct (append-nil ms) d, b, a, e, l)
  grow-IsSafe ms (i ∷ is) g =
      elim (Bool-cases (is_refused tensor_sum candidates semantic transition config ms i)) [
        | inl refused ↦ rw refused (grow-IsSafe ms is (Growing-refuse ms i is g))
        | inr taken ↦ rw taken (grow-IsSafe (ms ++ i ∷ []) is (Growing-accept ms i is taken g))
      ]

  count-other :
      (k seed : ℕ) (xs : List ℕ)
      → count k (filter (λ i. not (i == seed)) xs) ≡ (if k == seed then 0 else count k xs)
  unfolding count filter
  count-other k seed [] = ground arith
  count-other k seed (x ∷ xs) = ground (arith, count-other k seed xs)

  pub cluster_from-IsSafe :
      (seed : ℕ)
      → seed < candidates.size
      → IsSafe (cluster_from tensor_sum candidates semantic transition config seed).members
  unfolding cluster_from count range
  cluster_from-IsSafe seed h =
      grow-IsSafe (seed ∷ []) (order tensor_sum candidates semantic transition config seed)
        (distinct, (h, tt), below, (tt, tt), (λ two. ground arith), ground arith)
    where
      others : List ℕ
      others = filter (λ i. not (i == seed)) (range_from 0 candidates.size)

      distinct :
          Distinct
            (seed ∷ sort (index_before tensor_sum candidates semantic transition config) others)
      distinct k = ground (
        arith,
        count-sort (index_before tensor_sum candidates semantic transition config) k others,
        count-other k seed (range_from 0 candidates.size),
        count-range_from k 0 candidates.size,
      )

      below :
          All
            (λ i. i < candidates.size)
            (sort (index_before tensor_sum candidates semantic transition config) others)
      below =
          All-sort (index_before tensor_sum candidates semantic transition config)
            (λ i. i < candidates.size) others
            (filter-All (λ i. i < candidates.size) (λ i. not (i == seed))
              (range_from 0 candidates.size)
              (All-range_from 0 candidates.size candidates.size (omega arith)))
