-- ===== src/Mapping/Candidates.antt =====
-- The rows of the examples and the candidates of `_build_superbatches` of dataset_mapping.py. A
-- span index is kept with its span, `spans[index]`, and a cluster id with its members,
-- `clusters[id]`.
use ztok.Common.{
  ℕ, suc, Bool, false, not, ◌&&◌, ◌||◌, List, [], ◌∷◌, ◌++◌, map, Option, none, some, max, ltb,
  ◌==◌, if◌then◌else◌, length, filter, filter_map, any, elem, enumerate_from,
}
use ztok.Common.Dict.{group_from, get_list, keys}
use ztok.Common.Floats.{Floats, of_nat, neg, ◌≺◌, ◌≈◌, ◌⊘◌ as over}
use ztok.Common.Sort.{sort}
use ztok.Mapping.{SpanNode, DatasetMappingConfig}
use ztok.Mapping.Validate.{starts_before}
use ztok.Mapping.Decision.{ids_eq}

abbrev pub Row : Type 0 → Type 0
Row R = ℕ × SpanNode R

-- A cluster id with the members of that cluster.
abbrev pub Cluster : Type 0 → Type 0
Cluster R = ℕ × List (Row R)

pub record Candidate (R : Type 0) : Type 0 where
  pub coverage : R
  pub left : ℕ
  pub right : ℕ
  pub aligned : List (Cluster R)
  pub left_unique : List (Row R)
  pub right_unique : List (Row R)
  pub left_eligible : ℕ
  pub right_eligible : ℕ

module _ {R : Type 0} where
  -- The rows of the examples, in the order of their tokens.
  abbrev pub row_before : Row R → Row R → Bool
  row_before a b = starts_before a.1 b.1

  unfoldable pub rows_by_example : List (SpanNode R) → List (ℕ × List (Row R))
  rows_by_example spans =
      map (λ e. (e.0, sort row_before e.1))
        (group_from (λ r. r.1.example_id) (λ r. r) [] (enumerate_from 0 spans))

  -- `span_to_cluster.get(index)`: in the comprehension a later cluster replaces an earlier one.
  unfoldable pub cluster_from : ℕ → List (List (Row R)) → ℕ → Option (Cluster R)
  cluster_from k [] index = none
  cluster_from k (members ∷ clusters) index = elim (cluster_from (suc k) clusters index) [
    | some found ↦ some found
    | none ↦ if any (λ m. m.0 == index) members then some (k, members) else none
  ]

  unfoldable pub cluster_of : List (List (Row R)) → ℕ → Option (Cluster R)
  cluster_of clusters index = cluster_from 0 clusters index

  abbrev pub has_example : ℕ → List (Row R) → Bool
  has_example example members = any (λ m. m.1.example_id == example) members

  -- The cluster of a row, if it has a member of the other example.
  unfoldable pub shared_cluster : List (List (Row R)) → ℕ → Row R → Option (Cluster R)
  shared_cluster clusters other row = elim (cluster_of clusters row.0) [
    | none ↦ none
    | some c ↦ if has_example other c.1 then some c else none
  ]

  -- `left_order` and `right_order`.
  abbrev pub cluster_order : List (List (Row R)) → ℕ → List (Row R) → List (Cluster R)
  cluster_order clusters other rows = filter_map (shared_cluster clusters other) rows

  abbrev pub ids_of : List (Cluster R) → List ℕ
  ids_of cs = map (λ c. c.0) cs

  -- `span_to_cluster.get(index) in aligned_set`.
  unfoldable pub in_aligned : List (List (Row R)) → List ℕ → Row R → Bool
  in_aligned clusters aligned row = elim (cluster_of clusters row.0) [
    | none ↦ false
    | some c ↦ elem c.0 aligned
  ]

  abbrev pub is_content : ℕ → ℕ → Cluster R → Bool
  is_content left right c =
      any (λ m. (m.1.example_id == left || m.1.example_id == right) && not m.1.protected) c.1

  abbrev pub eligible_count : List (Row R) → ℕ
  eligible_count rows = length (filter (λ r. not r.1.protected) rows)

-- `(left, right) for offset, left in enumerate(xs) for right in xs[offset + 1 :]`.
unfoldable pub pairs_of : List ℕ → List (ℕ × ℕ)
pairs_of [] = []
pairs_of (x ∷ xs) = map (λ y. (x, y)) xs ++ pairs_of xs

module _ {R : Type 0} ⦃fl : Floats R⦄ where
  -- The body of the loop over the pairs of examples; `continue` gives nothing.
  unfoldable pub candidate_of :
      DatasetMappingConfig R
      → List (List (Row R))
      → List (ℕ × List (Row R))
      → ℕ × ℕ
      → Option (Candidate R)
  candidate_of config clusters by_example (left, right) =
      let left_rows = get_list left by_example in
      let right_rows = get_list right by_example in
      let aligned = cluster_order clusters right left_rows in
      let right_order = cluster_order clusters left right_rows in
      let content = filter (is_content left right) aligned in
      let denominator = max (eligible_count left_rows) (eligible_count right_rows) in
      let coverage =
        if denominator == 0
        then of_nat 0
        else over (of_nat (length content)) (of_nat denominator) in
      if not (ids_eq (ids_of aligned) (ids_of right_order))
      then none
      else if ltb (length aligned) config.minimum_aligned_spans
          || coverage ≺ config.minimum_alignment_coverage
      then none
      else some (record {
        coverage = coverage;
        left = left;
        right = right;
        aligned = aligned;
        left_unique = filter (λ r. not (in_aligned clusters (ids_of aligned) r)) left_rows;
        right_unique = filter (λ r. not (in_aligned clusters (ids_of aligned) r)) right_rows;
        left_eligible = eligible_count left_rows;
        right_eligible = eligible_count right_rows;
      })

  -- `key=lambda item: (-item[0], -len(item[3]), item[1], item[2])`.
  abbrev pub candidate_before : Candidate R → Candidate R → Bool
  candidate_before a b =
      neg a.coverage ≺ neg b.coverage
      || (neg a.coverage ≈ neg b.coverage
          && (ltb (length b.aligned) (length a.aligned)
              || (length a.aligned == length b.aligned
                  && (ltb a.left b.left || (a.left == b.left && ltb a.right b.right)))))

  unfoldable pub candidates_of :
      DatasetMappingConfig R → List (List (Row R)) → List (ℕ × List (Row R)) → List (Candidate R)
  candidates_of config clusters by_example =
      filter_map (candidate_of config clusters by_example) (pairs_of (sort ltb (keys by_example)))
