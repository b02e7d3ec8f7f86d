-- ===== src/Mapping/Superbatch/Orders.antt =====
-- A row of an example is either in the alignment with the other example or unique, never both.
use mathlib.Core.Option.{some-injective}
use ztok.Common.{
  subst, ℕ, suc, ◌+◌, ◌≡◌, inl, inr, true, not, List, [], ◌∷◌, some, arith, length, get_elem?, All,
  All-mono, filter, filter_map, All-filter_map, elem, is_some, Bool-cases, Option-cases, ◌==◌, ◌∙◌,
  sym, ap,
}
use ztok.Mapping.Candidates.{
  Row, Cluster, cluster_from, cluster_of, has_example, shared_cluster, cluster_order, ids_of,
  in_aligned,
}

module _ {R : Type 0} (clusters : List (List (Row R))) where
  -- The pair holds an id of the list, with the members that stand there.
  cluster_from-at :
      (k : ℕ) (cs : List (List (Row R))) (index : ℕ) {c : Cluster R}
      → cluster_from k cs index ≡ some c
      → (j : ℕ) × (c.0 ≡ k + j) × (get_elem? cs j ≡ some c.1)
  unfolding cluster_from
  cluster_from-at k [] index e = cc
  cluster_from-at k (members ∷ cs) index {c} e =
      elim (Option-cases (cluster_from (suc k) cs index)) [
        | inl missing ↦ (0, ground arith, ground arith)
        | inr (found, e') ↦
            let (j, id, at) = cluster_from-at (suc k) cs index e' in
            let same : found ≡ c = ground arith in
            (suc j, ground arith, at ∙ ap (λ (x : Cluster R). some x.1) same)
      ]

  IsListed : Cluster R → Type 0
  IsListed c = get_elem? clusters c.0 ≡ some c.1

  cluster_of-IsListed :
      (index : ℕ) {c : Cluster R} → cluster_of clusters index ≡ some c → IsListed c
  unfolding cluster_of IsListed
  cluster_of-IsListed index {c} e =
      let (j, id, at) = cluster_from-at 0 clusters index e in
      let same : c.0 ≡ j = omega arith in rw same at

  module _ (other : ℕ) where
    -- A listed cluster with a member of the other example.
    IsShared : Cluster R → Type 0
    unfolding IsListed
    IsShared c = IsListed c × (has_example other c.1 ≡ true)

    shared_cluster-IsShared :
        (row : Row R) {c : Cluster R} → shared_cluster clusters other row ≡ some c → IsShared c
    unfolding shared_cluster IsShared
    shared_cluster-IsShared row {c} e = elim (Option-cases (cluster_of clusters row.0)) [
      | inl missing ↦ ground arith
      | inr (found, e') ↦
          let here : has_example other found.1 ≡ true = ground arith in
          let same : found ≡ c = ground arith in
          subst IsShared same (cluster_of-IsListed row.0 e', here)
    ]

    cluster_order-IsShared :
        (rows : List (Row R)) → All IsShared (cluster_order clusters other rows)
    cluster_order-IsShared rows =
        All-filter_map IsShared (shared_cluster clusters other) rows
          (λ row c e. shared_cluster-IsShared row e)

    -- An id of the order determines the members.
    order_members :
        (cs : List (Cluster R)) (c : Cluster R)
        → All IsShared cs
        → elem c.0 (ids_of cs) ≡ true
        → IsListed c
        → has_example other c.1 ≡ true
    unfolding elem IsShared IsListed
    order_members [] c h m l = cc
    order_members (d ∷ cs) c h m l = elim (Bool-cases (d.0 == c.0)) [
      | inl hit ↦
          let id : d.0 ≡ c.0 = ground arith in
          let same : d.1 ≡ c.1 =
            some-injective d.1 c.1 (sym h.0.0 ∙ ap (get_elem? clusters) id ∙ l) in
          rw (← same) h.0.1
      | inr miss ↦ order_members cs c h.1 (ground arith) l
    ]

    -- The test for the alignment is the test that built it.
    abbrev Agree : List ℕ → Row R → Type 0
    Agree ids row = in_aligned clusters ids row ≡ is_some (shared_cluster clusters other row)

    Agree-at :
        (cs : List (Cluster R)) (row : Row R)
        → All IsShared cs
        → ((c : Cluster R)
            → shared_cluster clusters other row ≡ some c
            → elem c.0 (ids_of cs) ≡ true)
        → Agree (ids_of cs) row
    unfolding in_aligned shared_cluster
    Agree-at cs row h listed = elim (Option-cases (cluster_of clusters row.0)) [
      | inl missing ↦ ground arith
      | inr (c, e) ↦ elim (Bool-cases (has_example other c.1)) [
        | inl here ↦ ground (arith, listed c (ground arith))
        | inr absent ↦ elim (Bool-cases (elem c.0 (ids_of cs))) [
          | inl m ↦ ground (arith, order_members cs c h m (cluster_of-IsListed row.0 e))
          | inr m ↦ ground arith
        ]
      ]
    ]

    Agree-All :
        (cs : List (Cluster R)) (rows : List (Row R))
        → All IsShared cs
        → ((a : ℕ)
            → elem a (ids_of (cluster_order clusters other rows)) ≡ true
            → elem a (ids_of cs) ≡ true)
        → All (Agree (ids_of cs)) rows
    unfolding filter_map elem
    Agree-All cs [] h sub = tt
    Agree-All cs (row ∷ rows) h sub = (
      Agree-at cs row h (λ c e. sub c.0 (ground arith)),
      Agree-All cs rows h (λ a m. sub a (ground arith)),
    )

    counted :
        (ids : List ℕ) (rows : List (Row R))
        → All (Agree ids) rows
        → length (filter (λ r. not (in_aligned clusters ids r)) rows)
            + length (cluster_order clusters other rows)
          ≡ length rows
    unfolding filter filter_map
    counted ids [] h = omega arith
    counted ids (row ∷ rows) h = ground (arith, counted ids rows h.1)

    -- The unique rows and the aligned clusters of an example add up to its rows.
    pub length-unique-aligned :
        (rows : List (Row R))
        → length (
              filter
                (λ r. not (in_aligned clusters (ids_of (cluster_order clusters other rows)) r))
                rows)
            + length (cluster_order clusters other rows)
          ≡ length rows
    length-unique-aligned rows = counted (ids_of (cluster_order clusters other rows)) rows (
        Agree-All (cluster_order clusters other rows) rows (cluster_order-IsShared rows) (λ a m. m))

    -- Every cluster of an order has a member of the other example.
    pub order-has_example :
        (rows : List (Row R))
        → All (λ c. has_example other c.1 ≡ true) (cluster_order clusters other rows)
    unfolding IsShared
    order-has_example rows =
        All-mono IsShared (λ c. has_example other c.1 ≡ true) (cluster_order clusters other rows)
          (λ c s. s.1) (cluster_order-IsShared rows)
