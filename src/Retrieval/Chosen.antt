-- ===== src/Retrieval/Chosen.antt =====
-- About the pairs that `main` writes, for all inputs.
use ztok.Common.{
  ℕ, ◌+◌, ◌≤◌, ◌<◌, ◌≡◌, refl, List, [], some, get_elem?, length, max, arith, All, All-mono, subst,
}
use ztok.Common.Counting.{count}
use ztok.Common.Sort.{sort, All-sort, All-of_sort}
use ztok.Common.Floats.{Floats}
use ztok.Retrieval.{Example, Featured, Pair, candidate_pairs, featured, key_before, retrieve}
use ztok.Retrieval.Laws.{
  pair_members, Splits, Taken, take_pairs-count, take_pairs-length, take_pairs-All,
  take_pairs-maximal,
}
use ztok.Retrieval.Found.{IsSuitable, found_pair, candidate_pairs-All, of_candidate_pairs}

module _ {R : Type 0} ⦃fl : Floats R⦄ (max_pairs : ℕ) (minimum_score : R)
    (minimum_content_spans : ℕ) (examples : List Example) where
  -- A pair is the entry of two examples at different indices, in order, that are suitable.
  abbrev pub IsGood : Pair R → Type 0
  IsGood p =
      (l : Featured) × (r : Featured) × (get_elem? (featured examples) p.left ≡ some l)
      × (get_elem? (featured examples) p.right ≡ some r)
      × (p.left < p.right)
      × IsSuitable minimum_score minimum_content_spans l r
      × (p ≡ found_pair p.left l p.right r)

  -- The examples of the chosen pairs.
  abbrev pub chosen_members : List ℕ
  chosen_members = pair_members (retrieve max_pairs minimum_score minimum_content_spans examples)

  candidate_pairs-IsGood :
      All IsGood (candidate_pairs minimum_score minimum_content_spans 0 (featured examples))
  candidate_pairs-IsGood =
      candidate_pairs-All minimum_score minimum_content_spans IsGood 0 (featured examples)
        (λ i j a b l r e f lt g h u.
          let left : i ≡ a = omega (arith, e) in
          let right : j ≡ b = omega (arith, f) in
          (
            l,
            r,
            subst (λ x. get_elem? (featured examples) x ≡ some l) left g,
            subst (λ x. get_elem? (featured examples) x ≡ some r) right h,
            omega (arith, e, f, lt),
            u,
            refl,
          ))

  -- Whatever the examples: each chosen pair is the entry of two suitable examples, in order; no
  -- example stands in two chosen pairs; and there are at most `max_pairs` of them, or one when that
  -- is 0.
  pub retrieve-chosen_members :
      All IsGood (retrieve max_pairs minimum_score minimum_content_spans examples)
      × ((a : ℕ) → count a chosen_members ≤ 1)
      × (length (retrieve max_pairs minimum_score minimum_content_spans examples) ≤ max max_pairs 1)
  unfolding retrieve count
  retrieve-chosen_members =
      let cs = candidate_pairs minimum_score minimum_content_spans 0 (featured examples) in
      let sorted_good = All-sort key_before IsGood cs candidate_pairs-IsGood in
      (
        take_pairs-All IsGood max_pairs [] 0 _ sorted_good,
        λ a. omega (
          arith,
          take_pairs-count max_pairs [] 0 (sort key_before cs) (λ b. omega arith)
              (All-mono IsGood Splits _ (λ p (l, r, gl, gr, lt, suits, same). lt) sorted_good) a,
        ),
        omega (arith, take_pairs-length max_pairs [] 0 (sort key_before cs)),
      )

  -- If fewer than `max_pairs` pairs are chosen, then of any two suitable examples, at indices in
  -- order, one stands in a chosen pair.
  pub retrieve-maximal :
      length (retrieve max_pairs minimum_score minimum_content_spans examples) < max_pairs
      → (i j : ℕ) (l r : Featured) → i < j
      → get_elem? (featured examples) i ≡ some l
      → get_elem? (featured examples) j ≡ some r
      → IsSuitable minimum_score minimum_content_spans l r
      → 0 < count i chosen_members + count j chosen_members
  unfolding retrieve count
  retrieve-maximal few i j l r lt g h u =
      let cs = candidate_pairs minimum_score minimum_content_spans 0 (featured examples) in
      let taken =
        of_candidate_pairs minimum_score minimum_content_spans
          (Taken [] (retrieve max_pairs minimum_score minimum_content_spans examples)) 0
          (featured examples)
          (All-of_sort key_before _ cs
            (take_pairs-maximal max_pairs [] 0 (sort key_before cs) (omega (arith, few))))
          i j i j l r (omega arith) (omega arith) lt g h u in
      omega (arith, taken)
