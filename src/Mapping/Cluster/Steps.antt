-- ===== src/Mapping/Cluster/Steps.antt =====
-- What finding, replacing and removing a cluster do to how often a span index is clustered.
use mathlib.Core.Option.{some-injective}
use ztok.Common.{
  ℕ, zero, suc, ◌+◌, ◌≤◌, ◌<◌, ◌≡◌, refl, ◌≢◌, true, List, [], ◌∷◌, some, ok, arith, elem,
  get_elem?, set, All, Bool-cases, inl, inr,
}
use ztok.Common.Counting.{count, Distinct, elem-count, same_set, same_set_refl, same_set-count}
use ztok.Mapping.Cluster.{find_cluster, remove_cluster}

-- How often an index stands in the clusters together.
unfoldable pub total : ℕ → List (List ℕ) → ℕ
unfolding count
total a [] = 0
total a (c ∷ cs) = count a c + total a cs

pub find_cluster-total :
    (index : ℕ) (cs : List (List ℕ))
    → 0 < total index cs
    → (found : ℕ × List ℕ) × (find_cluster index cs ≡ ok found)
      × (get_elem? cs found.0 ≡ some found.1)
      × (elem index found.1 ≡ true)
unfolding find_cluster total
find_cluster-total index [] h = absurd (omega arith)
find_cluster-total index (c ∷ cs) h = elim (Bool-cases (elem index c)) [
  | inl here ↦ ((0, c), rw here refl, refl, here)
  | inr there ↦
      let (found, e, at, isin) = find_cluster-total index cs (ground (arith, elem-count index c)) in
      ((suc found.0, found.1), rw (there, e) refl, at, isin)
]

pub total-set :
    (a k : ℕ) (cs : List (List ℕ)) (old new : List ℕ)
    → get_elem? cs k ≡ some old
    → total a (set cs k new) + count a old ≡ total a cs + count a new
unfolding total
total-set a k [] old new h = cc
total-set a zero (c ∷ cs) old new h = ground arith
total-set a (suc k) (c ∷ cs) old new h = omega (arith, total-set a k cs old new h)

pub count-le_total :
    (a k : ℕ) (cs : List (List ℕ)) (c : List ℕ) → get_elem? cs k ≡ some c → count a c ≤ total a cs
unfolding total
count-le_total a k [] c h = cc
count-le_total a zero (x ∷ cs) c h = ground arith
count-le_total a (suc k) (x ∷ cs) c h = omega (arith, count-le_total a k cs c h)

-- Two positions count twice.
pub count-two_le_total :
    (a i j : ℕ) (cs : List (List ℕ)) (c d : List ℕ)
    → get_elem? cs i ≡ some c
    → get_elem? cs j ≡ some d
    → i ≢ j
    → count a c + count a d ≤ total a cs
unfolding total
count-two_le_total a i j [] c d h k n = cc
count-two_le_total a zero zero (x ∷ cs) c d h k n = absurd (n refl)
count-two_le_total a zero (suc j) (x ∷ cs) c d h k n = ground (arith, count-le_total a j cs d)
count-two_le_total a (suc i) zero (x ∷ cs) c d h k n = ground (arith, count-le_total a i cs c)
count-two_le_total a (suc i) (suc j) (x ∷ cs) c d h k n =
    omega (arith, count-two_le_total a i j cs c d h k (λ e. n (omega arith)))

pub get_elem?-set_ne :
    (i j : ℕ) (cs : List (List ℕ)) (v : List ℕ) → i ≢ j → get_elem? (set cs i v) j ≡ get_elem? cs j
get_elem?-set_ne i j [] v n = refl
get_elem?-set_ne zero zero (x ∷ cs) v n = absurd (n refl)
get_elem?-set_ne zero (suc j) (x ∷ cs) v n = refl
get_elem?-set_ne (suc i) zero (x ∷ cs) v n = refl
get_elem?-set_ne (suc i) (suc j) (x ∷ cs) v n = get_elem?-set_ne i j cs v (λ e. n (omega arith))

-- A set that is there is removed, and with it what it counts.
pub remove_cluster-total :
    (P : List ℕ → Type 0) (c : List ℕ) (cs : List (List ℕ)) (j : ℕ)
    → get_elem? cs j ≡ some c
    → All Distinct cs
    → All P cs
    → Distinct c
    → (rest : List (List ℕ)) × (remove_cluster c cs ≡ ok rest)
      × All P rest
      × ((a : ℕ) → total a rest + count a c ≡ total a cs)
unfolding remove_cluster total
remove_cluster-total P c [] j h d p dc = cc
remove_cluster-total P c (x ∷ cs) zero h d p dc =
    let e : x ≡ c = some-injective x c h in
    let same : same_set x c ≡ true = rw e (same_set_refl c) in
    (cs, rw same refl, p.1, λ a. omega (arith, same_set-count x c a d.0 dc same))
remove_cluster-total P c (x ∷ cs) (suc j) h d p dc = elim (Bool-cases (same_set x c)) [
  | inl same ↦ (cs, rw same refl, p.1, λ a. omega (arith, same_set-count x c a d.0 dc same))
  | inr other ↦
      let (rest, e, q, counts) = remove_cluster-total P c cs j h d.1 p.1 dc in
      (x ∷ rest, rw (other, e) refl, (p.0, q), λ a. omega (arith, counts a))
]
