-- ===== src/Mapping/Plan/Totals.antt =====
-- Every span of the data set is either in an ordinary example or in one packed example.
use ztok.Common.{
  ℕ, ◌+◌, ◌≡◌, refl, ◌∙◌, ap, true, false, not, ◌&&◌, List, [], ◌∷◌, map, arith, All, All-mono,
  All-filter_congr, elem, Bool-cases, inl, inr, ◌==◌, length, filter, length-filter-not, sum_by,
  flat_map, ltb,
}
use ztok.Common.Counting.{
  elem-filter, Distinct, elem-count, elem-insert, Distinct-head, Distinct-tail,
}
use ztok.Common.Sort.{sort, count-sort}
use ztok.Mapping.{SpanNode, DatasetMappingConfig}
use ztok.Common.Floats.{Floats}
use ztok.Mapping.Superbatch.{Superbatch}
use ztok.Mapping.Superbatch.Rows.{example_size}
use ztok.Mapping.Superbatch.Laws.{IsPacked, packed, IsPacking}
use ztok.Mapping.Plan.{set_of, packed_ids, ordinary_ids, ordinary_count, retained_count}

elem-set_of : (a : ℕ) (xs : List ℕ) → elem a (set_of xs) ≡ elem a xs
unfolding set_of elem
elem-set_of a [] = refl
elem-set_of a (x ∷ xs) = ground (arith, elem-insert a x (set_of xs), elem-set_of a xs)

module _ {R : Type 0} where
  -- The spans whose example is in a list.
  abbrev size_in : List (SpanNode R) → List ℕ → ℕ
  size_in spans es = length (filter (λ s. elem s.example_id es) spans)

  -- Over examples without repetition the sizes add up.
  size_in-cons :
      (spans : List (SpanNode R)) (e : ℕ) (es : List ℕ)
      → elem e es ≡ false
      → size_in spans (e ∷ es) ≡ example_size spans e + size_in spans es
  unfolding filter elem
  size_in-cons [] e es h = omega arith
  size_in-cons (s ∷ spans) e es h = elim (Bool-cases (e == s.example_id)) [
    | inl here ↦ ground (arith, size_in-cons spans e es h)
    | inr other ↦ ground (arith, size_in-cons spans e es h)
  ]

  size_in-nil : (spans : List (SpanNode R)) → size_in spans [] ≡ 0
  unfolding filter elem
  size_in-nil [] = refl
  size_in-nil (s ∷ spans) = size_in-nil spans

  size_in-sum :
      (spans : List (SpanNode R)) (es : List ℕ)
      → Distinct es
      → size_in spans es ≡ sum_by (example_size spans) es
  unfolding sum_by
  size_in-sum spans [] d = size_in-nil spans
  size_in-sum spans (e ∷ es) d = omega (
    arith,
    size_in-cons spans e es (Distinct-head e es d),
    size_in-sum spans es (Distinct-tail e es d),
  )

  -- An example id of the list is in the set of all example ids.
  own_ids :
      (es : List ℕ) (spans : List (SpanNode R))
      → ((a : ℕ) → elem a (map (λ (s : SpanNode R). s.example_id) spans) ≡ true → elem a es ≡ true)
      → All (λ s. elem s.example_id es ≡ true) spans
  unfolding elem
  own_ids es [] h = tt
  own_ids es (s ∷ spans) h =
      (h s.example_id (ground arith), own_ids es spans (λ a m. h a (ground arith)))

  packed-flat :
      (ss : List (Superbatch R))
      → flat_map (λ (s : Superbatch R). s.left_example ∷ s.right_example ∷ []) ss ≡ packed ss
  unfolding flat_map packed
  packed-flat [] = refl
  packed-flat (s ∷ ss) = rw (packed-flat ss) refl

  pub elem-packed_ids :
      (a : ℕ) (ss : List (Superbatch R)) → elem a (packed_ids ss) ≡ elem a (packed ss)
  unfolding packed_ids
  elem-packed_ids a ss = elem-set_of a _ ∙ ap (elem a) (packed-flat ss)

  elem-ordinary_ids :
      (spans : List (SpanNode R)) (ss : List (Superbatch R)) (a : ℕ)
      → elem a (ordinary_ids spans ss)
        ≡ (not (elem a (packed ss)) && elem a (map (λ s. s.example_id) spans))
  unfolding ordinary_ids
  elem-ordinary_ids spans ss a =
      let all_ids = set_of (map (λ (s : SpanNode R). s.example_id) spans) in
      let kept = filter (λ e. not (elem e (packed_ids ss))) all_ids in
      ground (
        arith,
        elem-count a (sort ltb kept),
        elem-count a kept,
        count-sort ltb a kept,
        elem-filter (λ e. not (elem e (packed_ids ss))) a all_ids,
        elem-packed_ids a ss,
        elem-set_of a (map (λ (s : SpanNode R). s.example_id) spans),
      )

  ordinary-rest :
      (spans : List (SpanNode R)) (ss : List (Superbatch R))
      → ordinary_count spans ss ≡ length (filter (λ s. not (elem s.example_id (packed ss))) spans)
  unfolding ordinary_count
  ordinary-rest spans ss =
      let own = own_ids (map (λ (s : SpanNode R). s.example_id) spans) spans (λ a m. m) in
      ap length (
        All-filter_congr (λ (s : SpanNode R). elem s.example_id (ordinary_ids spans ss))
          (λ (s : SpanNode R). not (elem s.example_id (packed ss))) spans
          (All-mono _ _ spans (λ s m. ground (arith, elem-ordinary_ids spans ss s.example_id)) own))

module _ {R : Type 0} ⦃fl : Floats R⦄ (spans : List (SpanNode R))
    (config : DatasetMappingConfig R) where
  packed-sizes :
      (ss : List (Superbatch R))
      → All (IsPacked spans config) ss
      → sum_by (λ s. s.output_unit_count) ss + sum_by (λ s. length s.aligned_cluster_ids) ss
        ≡ sum_by (example_size spans) (packed ss)
  unfolding sum_by packed
  packed-sizes [] h = omega arith
  packed-sizes (s ∷ ss) h = omega (arith, h.0.original, h.0.output, packed-sizes ss h.1)

  -- The units that the plan retains and the clusters that it aligned make up all spans.
  pub retained_count-add_aligned :
      (ss : List (Superbatch R))
      → IsPacking spans config ss
      → retained_count spans ss + sum_by (λ s. length s.aligned_cluster_ids) ss ≡ length spans
  unfolding retained_count
  retained_count-add_aligned ss p = omega (
    arith,
    ordinary-rest spans ss,
    packed-sizes ss p.each,
    size_in-sum spans (packed ss) p.disjoint,
    length-filter-not (λ (s : SpanNode R). elem s.example_id (packed ss)) spans,
  )
