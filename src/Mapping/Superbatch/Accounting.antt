-- ===== src/Mapping/Superbatch/Accounting.antt =====
-- Candidates and superbatches: what they count, and that building them never fails.
use ztok.Common.{
  ℕ, ◌+◌, ◌≤◌, ◌<◌, ◌≡◌, refl, ◌∙◌, sym, ap, subst, true, false, not, ◌||◌, List, [], ◌∷◌, map,
  some, ok, arith, All, Bool-cases, inl, inr, ◌==◌, ==_ne, length, length-map, filter, any,
  map_result_total, max,
}
use ztok.Common.Dict.{get_list}
use ztok.Common.Floats.{Floats, ◌≺◌, ◌≼◌, of_nat, sum_f}
use ztok.Mapping.{DatasetMappingConfig}
use ztok.Mapping.Decision.{ids_eq}
use ztok.Mapping.Decision.Laws.{ids_eq-eq}
use ztok.Mapping.Candidates.{
  Row, Cluster, Candidate, cluster_order, ids_of, in_aligned, candidate_of, has_example,
}
use ztok.Mapping.Superbatch.{
  Superbatch, Member, normalized_weights, aligned_unit, superbatch_of, zip_members, divide,
}
use ztok.Mapping.Superbatch.Orders.{length-unique-aligned, order-has_example}

module _ {R : Type 0} ⦃fl : Floats R⦄ (config : DatasetMappingConfig R)
    (clusters : List (List (Row R))) (by_example : List (ℕ × List (Row R))) where
  -- A candidate's unique rows and aligned clusters make up the rows of each of its examples, and
  -- the alignment is as long and covers as much as the configuration wants.
  pub record IsAligned (c : Candidate R) : Type 0 where
    pub left_rows : length c.left_unique + length c.aligned ≡ length (get_list c.left by_example)
    pub right_rows : length c.right_unique + length c.aligned ≡ length (get_list c.right by_example)
    pub enough : config.minimum_aligned_spans ≤ length c.aligned
    pub covered : (c.coverage ≺ config.minimum_alignment_coverage) ≡ false
    pub members : All (λ k. has_example c.right k.1 ≡ true) c.aligned

  module _ (left right : ℕ) where
    abbrev left_order : List (Cluster R)
    left_order = cluster_order clusters right (get_list left by_example)

    abbrev right_order : List (Cluster R)
    right_order = cluster_order clusters left (get_list right by_example)

    right_rows_of :
        ids_of left_order ≡ ids_of right_order
        → length (
              filter
                (λ r. not (in_aligned clusters (ids_of left_order) r))
                (get_list right by_example))
            + length left_order
          ≡ length (get_list right by_example)
    right_rows_of e =
        let same : length left_order ≡ length right_order =
          sym (length-map left_order (λ c. c.0))
          ∙ ap length e
          ∙ length-map right_order (λ c. c.0) in
        rw (e, same) (length-unique-aligned clusters left (get_list right by_example))

    pub candidate_of-IsAligned :
        (c : Candidate R)
        → candidate_of config clusters by_example (left, right) ≡ some c
        → IsAligned c × (c.left ≡ left) × (c.right ≡ right)
    unfolding candidate_of
    candidate_of-IsAligned c e =
        elim (Bool-cases (ids_eq (ids_of left_order) (ids_of right_order))) [
          | inr differ ↦ ground arith
          | inl same ↦
              let rows = right_rows_of (ids_eq-eq (ids_of left_order) (ids_of right_order) same) in
              let own = length-unique-aligned clusters right (get_list left by_example) in
              let held = order-has_example clusters right (get_list left by_example) in
              let at_c : left_order ≡ c.aligned = ground arith in
              let at_right : right ≡ c.right = ground arith in
              (
                record {
                  left_rows = ground (arith, own);
                  right_rows = ground (arith, rows);
                  enough = ground arith;
                  covered = ground arith;
                  members =
                      subst (λ a. All (λ k. has_example c.right k.1 ≡ true) a) at_c
                        (subst (λ r. All (λ k. has_example r k.1 ≡ true) left_order) at_right held);
                },
                ground arith,
                ground arith,
              )
        ]

  -- The rows of a superbatch: its original spans are its output units and once more its aligned
  -- clusters.
  pub record IsAccounted (s : Superbatch R) : Type 0 where
    pub original :
        s.original_span_count
        ≡ length (get_list s.left_example by_example) + length (get_list s.right_example by_example)
    pub output : s.output_unit_count + length s.aligned_cluster_ids ≡ s.original_span_count
    pub enough_ids : config.minimum_aligned_spans ≤ length s.aligned_cluster_ids
    pub covered_ids : (s.alignment_coverage ≺ config.minimum_alignment_coverage) ≡ false

module _ {R : Type 0} ⦃fl : Floats R⦄ where
  pub divide_total : (a b : ℕ) → 0 < b → (r : R) × (divide a b ≡ ok r)
  divide_total a b h = (fl.over (of_nat a) (of_nat b), rw (==_ne b 0 (omega arith)) refl)

  -- The weights of some rows are one for each row.
  pub normalized_weights_total :
      (rows : List (Row R))
      → 0 < length rows
      → (ws : List R) × (normalized_weights rows ≡ ok ws) × (length ws ≡ length rows)
  unfolding normalized_weights
  normalized_weights_total rows h =
      let values = map (λ (r : Row R). r.1.confidence) rows in
      let n = length-map rows (λ (r : Row R). r.1.confidence) in
      let total = sum_f values in
      elim (Bool-cases (total ≼ of_nat 0)) [
        | inl none_left ↦
            let (each, e) = divide_total 1 (length values) (omega (arith, n)) in
            (map (λ _. each) values, rw (none_left, e) refl, length-map values (λ _. each) ∙ n)
        | inr some_left ↦
            (map (λ v. fl.over v total) values, rw some_left refl, length-map values _ ∙ n)
      ]

  some_member :
      (left right : ℕ) (rows : List (Row R))
      → has_example right rows ≡ true
      → 0 < length (filter (λ m. m.1.example_id == left || m.1.example_id == right) rows)
  unfolding any filter
  some_member left right [] h = cc
  some_member left right (r ∷ rows) h = ground (arith, some_member left right rows)

  aligned_unit_total :
      (left right : ℕ) (k : Cluster R)
      → has_example right k.1 ≡ true
      → (u : ℕ × List (Member R)) × (aligned_unit left right k ≡ ok u) × Unit {0}
  unfolding aligned_unit
  aligned_unit_total left right k h =
      let members = filter (λ (m : Row R). m.1.example_id == left || m.1.example_id == right) k.1 in
      let (ws, e, n) = normalized_weights_total members (some_member left right k.1 h) in
      ((k.0, zip_members members ws), rw e refl, tt)

module _ {R : Type 0} ⦃fl : Floats R⦄ (config : DatasetMappingConfig R)
    (clusters : List (List (Row R))) (by_example : List (ℕ × List (Row R))) where
  pub superbatch_of_total :
      (id : ℕ) (c : Candidate R)
      → IsAligned config clusters by_example c
      → 0 < length (get_list c.left by_example)
      → (s : Superbatch R) × (superbatch_of by_example (id, c) ≡ ok s)
        × (s.left_example ≡ c.left)
        × (s.right_example ≡ c.right)
        × IsAccounted config clusters by_example s
  unfolding superbatch_of
  superbatch_of_total id c al some_row =
      let left_rows = get_list c.left by_example in
      let right_rows = get_list c.right by_example in
      let (total, e₁) =
        divide_total {R = R} (length c.aligned) (max (length left_rows) (length right_rows))
          (omega arith) in
      let (units, e₂, _) =
        map_result_total (aligned_unit c.left c.right) (λ k. has_example c.right k.1 ≡ true)
          (λ _. Unit {0}) (aligned_unit_total c.left c.right) c.aligned al.members in
      let output = length c.aligned + length c.left_unique + length c.right_unique in
      let (ratio, e₃) =
        divide_total {R = R} output (length left_rows + length right_rows) (omega arith) in
      let n = length-map c.aligned (λ (k : Cluster R). k.0) in
      let s : Superbatch R = record {
        superbatch_id = id;
        left_example = c.left;
        right_example = c.right;
        aligned_cluster_ids = ids_of c.aligned;
        aligned_units = units;
        left_unique_span_ids = map (λ r. r.1.span_id) c.left_unique;
        right_unique_span_ids = map (λ r. r.1.span_id) c.right_unique;
        alignment_coverage = c.coverage;
        total_alignment_coverage = total;
        left_eligible_count = c.left_eligible;
        right_eligible_count = c.right_eligible;
        original_span_count = length left_rows + length right_rows;
        output_unit_count = output;
        compression_ratio = ratio;
      } in
      (
        s,
        rw (e₁, e₂, e₃) refl,
        refl,
        refl,
        record {
          original = refl;
          output = omega (arith, al.left_rows, al.right_rows, n);
          enough_ids = omega (arith, al.enough, n);
          covered_ids = al.covered;
        },
      )
