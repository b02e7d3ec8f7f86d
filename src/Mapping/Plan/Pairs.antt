-- ===== src/Mapping/Plan/Pairs.antt =====
-- The pairs of spans that a plan decides on, and the decision behind a pair of a cluster.
use ztok.Common.{
  ℕ, zero, suc, ◌+◌, ◌<◌, ◌≡◌, refl, sym, subst, Bool, true, List, [], ◌∷◌, map, Option, none, some,
  ok, arith, All, All-mono, All-map, All-append, All-flat_map, All-enumerate, filter-All,
  Option-cases, inl, inr, ◌==◌, length, filter, flat_map, range, range_from, enumerate_from,
  get_elem?_bound, map_result_total, min, max, ◌&&◌, Bool-cases,
}
use ztok.Common.Dict.{group_from, get_list, get_list-group_from}
use ztok.Common.Floats.{Floats}
use ztok.Common.Sort.{sort}
use ztok.Mapping.{SpanNode, DatasetMappingConfig, Embeddings, PairDecision}
use ztok.Mapping.Decision.{Entry, pair_decision}
use ztok.Mapping.Decision.Laws.{Decided, pair_decision_total}
use ztok.Mapping.Cluster.{accepted_get, pair_passes}
use ztok.Mapping.Cluster.Merge.{InRange}
use ztok.Mapping.Candidates.{pairs_of}
use ztok.Mapping.Plan.{candidate_indices, pair_before, decision_get, decide_pairs}

All-pairs_of : (P : ℕ → Type 0) (xs : List ℕ) → All P xs → All (λ p. P p.0 × P p.1) (pairs_of xs)
unfolding pairs_of
All-pairs_of P [] h = tt
All-pairs_of P (x ∷ xs) h =
    All-append (λ p. P p.0 × P p.1) (map (λ y. (x, y)) xs) (pairs_of xs)
      (All-map (λ p. P p.0 × P p.1) (λ y. (x, y)) xs
        (All-mono P (λ y. P x × P y) xs (λ y q. (h.0, q)) h.1))
      (All-pairs_of P xs h.1)

All-range_from : (start n : ℕ) → All (λ i. i < start + n) (range_from start n)
unfolding range_from
All-range_from start zero = tt
All-range_from start (suc n) = (
  omega arith,
  All-mono _ (λ i. i < start + suc n) _ (λ i h. omega arith) (All-range_from (suc start) n),
)

module _ {R : Type 0} (spans : List (SpanNode R)) where
  abbrev pub BothIn : ℕ × ℕ → Type 0
  BothIn p = (p.0 < length spans) × (p.1 < length spans)

  abbrev index_rows : ℕ → List ℕ
  index_rows e =
      get_list e
        (group_from (λ (r : ℕ × SpanNode R). r.1.example_id) (λ r. r.0) [] (enumerate_from 0 spans))

  across :
      (rights lefts : List ℕ)
      → All (λ i. i < length spans) rights
      → All (λ i. i < length spans) lefts
      → All BothIn (flat_map (λ left. map (λ right. (left, right)) rights) lefts)
  unfolding flat_map
  across rights [] hr hl = tt
  across rights (l ∷ ls) hr hl =
      All-append BothIn (map (λ right. (l, right)) rights) _
        (All-map BothIn (λ right. (l, right)) rights
          (All-mono (λ i. i < length spans) (λ r. BothIn (l, r)) rights (λ r h. (hl.0, h)) hr))
        (across rights ls hr hl.1)

  example_rows : (e : ℕ) → All (λ i. i < length spans) (index_rows e)
  unfolding get_list
  example_rows e =
      let key = λ (r : ℕ × SpanNode R). r.1.example_id in
      let rows = filter (λ (r : ℕ × SpanNode R). r.1.example_id == e) (enumerate_from 0 spans) in
      subst (All (λ i. i < length spans))
        (sym (get_list-group_from key (λ (r : ℕ × SpanNode R). r.0) e [] (enumerate_from 0 spans)))
        (All-map (λ i. i < length spans) (λ (r : ℕ × SpanNode R). r.0) rows
          (filter-All (λ r. r.0 < length spans) (λ (r : ℕ × SpanNode R). r.1.example_id == e)
            (enumerate_from 0 spans)
            (All-enumerate (λ r. r.0 < length spans) spans (λ i x at. get_elem?_bound spans i at))))

  -- Every pair that is decided on is a pair of spans.
  candidate_indices-BothIn :
      (allowed : Option (List (ℕ × ℕ))) → All BothIn (candidate_indices spans allowed)
  unfolding candidate_indices range
  candidate_indices-BothIn none =
      All-pairs_of (λ i. i < length spans) (range_from 0 (length spans))
        (All-mono _ (λ i. i < length spans) _ (λ i h. omega arith)
          (All-range_from 0 (length spans)))
  candidate_indices-BothIn (some allowed) =
      All-flat_map BothIn _ (sort pair_before allowed)
        (λ e. across (index_rows e.1) (index_rows e.0) (example_rows e.1) (example_rows e.0))

module _ {R : Type 0} ⦃fl : Floats R⦄ (spans : List (SpanNode R)) (embeddings : Embeddings R)
    (signatures : List (List Entry)) (config : DatasetMappingConfig R)
    (allowed : Option (List (ℕ × ℕ))) where
  -- A decision on two spans of the list, the first of them earlier.
  pub record IsDecision (d : PairDecision R) : Type 0 where
    pub li : ℕ
    pub ri : ℕ
    pub decided : Decided spans embeddings signatures config allowed li ri d
    pub in_range : InRange spans d

  pub decide_pairs_total :
      length signatures ≡ length spans
      → (ds : List (PairDecision R)) × (decide_pairs spans embeddings signatures config allowed
          ≡ ok ds)
        × All IsDecision ds
  unfolding decide_pairs
  decide_pairs_total same =
      map_result_total
        (λ p. pair_decision (min p.0 p.1) (max p.0 p.1) spans embeddings signatures config allowed)
        (BothIn spans) IsDecision
        (λ p inside.
          let (d, e, decided) =
            pair_decision_total spans embeddings signatures config allowed (min p.0 p.1)
              (max p.0 p.1) (omega arith) (omega arith) same in
          (
            d,
            e,
            record {
              li = min p.0 p.1;
              ri = max p.0 p.1;
              decided = decided;
              in_range =
                  (rw decided.left_index (omega arith), rw decided.right_index (omega arith));
            },
          ))
        (candidate_indices spans allowed) (candidate_indices-BothIn spans allowed)

accepted-none :
    {R : Type 0} (ds : List (PairDecision R)) (l r : ℕ)
    → accepted_get ds l r ≡ none
    → decision_get ds l r ≡ none
unfolding accepted_get decision_get
accepted-none [] l r e = refl
accepted-none (d ∷ ds) l r e = elim (Option-cases (accepted_get ds l r)) [
  | inl missing ↦ ground (arith, accepted-none ds l r missing)
  | inr (b, e') ↦ ground arith
]

module _ {R : Type 0} (P : PairDecision R → Type 0) where
  -- The decision that the dictionary of accepted pairs reads is the one that is looked up.
  accepted-decision :
      (ds : List (PairDecision R)) (l r : ℕ) {b : Bool}
      → All P ds
      → accepted_get ds l r ≡ some b
      → (d : PairDecision R) × (decision_get ds l r ≡ some d)
        × (d.accepted ≡ b)
        × (d.left_span_index ≡ l)
        × (d.right_span_index ≡ r)
        × P d
  unfolding accepted_get decision_get
  accepted-decision [] l r p e = cc
  accepted-decision (d ∷ ds) l r {b} p e = elim (Option-cases (accepted_get ds l r)) [
    | inr (b', e') ↦
        let (found, at, acc, li, ri, q) = accepted-decision ds l r p.1 e' in
        (found, rw at refl, ground arith, li, ri, q)
    | inl missing ↦
        let gone = accepted-none ds l r missing in
        elim (Bool-cases (d.left_span_index == l && d.right_span_index == r)) [
          | inl hit ↦ (d, rw (gone, hit) refl, ground arith, ground arith, ground arith, p.0)
          | inr miss ↦ absurd (ground arith)
        ]
  ]

  -- A pair that passes was accepted by a decision.
  pub pair_passes-decision :
      (ds : List (PairDecision R)) (l r : ℕ)
      → All P ds
      → pair_passes ds l r ≡ true
      → (d : PairDecision R) × (decision_get ds (min l r) (max l r) ≡ some d)
        × (d.accepted ≡ true)
        × (d.left_span_index ≡ min l r)
        × (d.right_span_index ≡ max l r)
        × P d
  unfolding pair_passes
  pair_passes-decision ds l r p e = accepted-decision ds (min l r) (max l r) p (ground arith)
