-- ===== src/Mapping/Superbatch/Rows.antt =====
-- The rows of each example, and the pairs of examples that are compared.
use ztok.Common.{
  ℕ, suc, ◌<◌, ◌≡◌, refl, ◌≢◌, ◌∙◌, sym, ap, Bool, true, List, [], ◌∷◌, map, arith, All, All-mono,
  All-append, elem, ◌==◌, length, length-map, filter, enumerate_from,
}
use ztok.Common.Counting.{count, Distinct, elem-count}
use ztok.Common.Dict.{
  get_list, group_from, get_list-group_from, keys, group_from-Distinct, elem-keys-group_from,
}
use ztok.Common.Sort.{sort, length-sort}
use ztok.Mapping.{SpanNode}
use ztok.Mapping.Candidates.{Row, rows_by_example, row_before, pairs_of}

module _ {ℓ} {A : Type ℓ} where
  length-filter-enumerate :
      (p : A → Bool) (k : ℕ) (xs : List A)
      → length (filter (λ r. p r.1) (enumerate_from k xs)) ≡ length (filter p xs)
  unfolding filter enumerate_from
  length-filter-enumerate p k [] = refl
  length-filter-enumerate p k (x ∷ xs) = ground (arith, length-filter-enumerate p (suc k) xs)

  get_list-map :
      (f : List A → List A) (k : ℕ) (d : List (ℕ × List A))
      → f [] ≡ []
      → get_list k (map (λ e. (e.0, f e.1)) d) ≡ f (get_list k d)
  unfolding get_list
  get_list-map f k [] h = sym h
  get_list-map f k ((j, xs) ∷ d) h = ground (arith, get_list-map f k d h)

  keys-map :
      (f : List A → List A) (d : List (ℕ × List A)) → keys (map (λ e. (e.0, f e.1)) d) ≡ keys d
  keys-map f [] = refl
  keys-map f ((j, xs) ∷ d) = rw (keys-map f d) refl

module _ {R : Type 0} where
  -- How many spans an example has.
  abbrev pub example_size : List (SpanNode R) → ℕ → ℕ
  example_size spans e = length (filter (λ s. s.example_id == e) spans)

  pub length-rows :
      (spans : List (SpanNode R)) (e : ℕ)
      → length (get_list e (rows_by_example spans)) ≡ example_size spans e
  unfolding rows_by_example get_list sort
  length-rows spans e =
      let d = group_from (λ (r : Row R). r.1.example_id) (λ r. r) [] (enumerate_from 0 spans) in
      ap length (get_list-map (sort row_before) e d refl)
      ∙ length-sort row_before (get_list e d)
      ∙ ap length (
          get_list-group_from (λ (r : Row R). r.1.example_id) (λ r. r) e []
            (enumerate_from 0 spans))
      ∙ length-map (filter (λ (r : Row R). r.1.example_id == e) (enumerate_from 0 spans)) (λ r. r)
      ∙ length-filter-enumerate (λ (s : SpanNode R). s.example_id == e) 0 spans

  pub rows-Distinct : (spans : List (SpanNode R)) → Distinct (keys (rows_by_example spans))
  unfolding rows_by_example count
  rows-Distinct spans =
      let d = group_from (λ (r : Row R). r.1.example_id) (λ r. r) [] (enumerate_from 0 spans) in
      rw (keys-map (sort row_before) d) (
        group_from-Distinct (λ (r : Row R). r.1.example_id) (λ r. r) [] (enumerate_from 0 spans)
          (λ a. omega arith))

  size_pos :
      (spans : List (SpanNode R)) (k e : ℕ)
      → elem e (map (λ (r : Row R). r.1.example_id) (enumerate_from k spans)) ≡ true
      → 0 < example_size spans e
  unfolding elem filter enumerate_from
  size_pos [] k e h = cc
  size_pos (s ∷ spans) k e h = ground (arith, size_pos spans (suc k) e)

  pub key-size_pos :
      (spans : List (SpanNode R)) (e : ℕ)
      → elem e (keys (rows_by_example spans)) ≡ true
      → 0 < example_size spans e
  unfolding rows_by_example elem
  key-size_pos spans e h =
      let d = group_from (λ (r : Row R). r.1.example_id) (λ r. r) [] (enumerate_from 0 spans) in
      size_pos spans 0 e (
        sym (
          elem-keys-group_from (λ (r : Row R). r.1.example_id) (λ r. r) e []
            (enumerate_from 0 spans))
        ∙ ap (elem e) (sym (keys-map (sort row_before) d))
        ∙ h)

-- Pairs of different members of a list without repetition.
abbrev pub PairIn : List ℕ → ℕ × ℕ → Type 0
PairIn xs p = (p.0 ≢ p.1) × (elem p.0 xs ≡ true) × (elem p.1 xs ≡ true)

first_pairs :
    (x : ℕ) (ys zs : List ℕ)
    → ((a : ℕ) → elem a ys ≡ true → x ≢ a)
    → ((a : ℕ) → elem a ys ≡ true → elem a zs ≡ true)
    → elem x zs ≡ true
    → All (PairIn zs) (map (λ y. (x, y)) ys)
unfolding elem
first_pairs x [] zs h sub m = tt
first_pairs x (y ∷ ys) zs h sub m = (
  (h y (ground arith), m, sub y (ground arith)),
  first_pairs x ys zs (λ a e. h a (ground arith)) (λ a e. sub a (ground arith)) m,
)

pub pairs_of-PairIn : (xs : List ℕ) → Distinct xs → All (PairIn xs) (pairs_of xs)
unfolding pairs_of elem count
pairs_of-PairIn [] d = tt
pairs_of-PairIn (x ∷ xs) d =
    All-append (PairIn (x ∷ xs)) (map (λ y. (x, y)) xs) (pairs_of xs)
      (first_pairs x xs (x ∷ xs) (λ a m e. ground (arith, d x, elem-count a xs))
        (λ a m. ground arith) (ground arith))
      (All-mono (PairIn xs) (PairIn (x ∷ xs)) (pairs_of xs)
        (λ p h. (h.0, ground arith, ground arith)) (pairs_of-PairIn xs (λ a. omega (arith, d a))))
