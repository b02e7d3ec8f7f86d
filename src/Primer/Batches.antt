-- ===== src/Primer/Batches.antt =====
-- `statement_primer_batches` and `collate_statement_primer_batch` of statement_primer.py. The
-- shuffle is a parameter, with the states of its generator.
use ztok.Common.{
  ℕ, zero, suc, ◌-◌, max, not, List, [], ◌∷◌, ◌++◌, map, Result, ok, err, ◌>>=◌, ◌>>◌, raise_if,
  value_error, runtime_error, map_result, length, take, drop, ltb, any, ◌==◌, if◌then◌else◌, sum,
}
use ztok.Common.Floats.{Floats, of_nat}
use ztok.Common.Sort.{sort}
use ztok.Common.Dict.{group_from, get_list, keys}
use ztok.Primer.{StatementExpansion}

-- `[xs[start : start + size] for start in range(0, len(xs), size)]`, with one round more than
-- there are starts.
unfoldable pub chunks_fuel : {A : Type 0} → ℕ → ℕ → List A → List (List A)
chunks_fuel zero size xs = []
chunks_fuel (suc rounds) size [] = []
chunks_fuel (suc rounds) size (x ∷ xs) =
    take size (x ∷ xs) ∷ chunks_fuel rounds size (drop size (x ∷ xs))

unfoldable pub chunks : {A : Type 0} → ℕ → List A → List (List A)
chunks size xs = chunks_fuel (length xs) size xs

module _ {R : Type 0} where
  abbrev pub buckets_of : List (StatementExpansion R) → List (ℕ × List (StatementExpansion R))
  buckets_of expansions = group_from (λ e. length e.token_ids) (λ e. e) [] expansions

module _ {R G : Type 0} (shuffle : (A : Type 0) → G → List A → List A × G) where
  -- The loop over the lengths.
  unfoldable pub batches_from :
      ℕ
      → List (ℕ × List (StatementExpansion R))
      → G
      → List ℕ
      → List (List (StatementExpansion R)) × G
  batches_from size buckets g [] = ([], g)
  batches_from size buckets g (l ∷ ls) =
      let shuffled = shuffle (StatementExpansion R) g (get_list l buckets) in
      let rest = batches_from size buckets shuffled.1 ls in
      (chunks size shuffled.0 ++ rest.0, rest.1)

  unfoldable pub statement_primer_batches :
      List (StatementExpansion R) → ℕ → G → Result (List (List (StatementExpansion R)))
  statement_primer_batches expansions batch_size g = do
    raise_if (batch_size == 0) (value_error "batch_size must be positive")
    let buckets = buckets_of expansions
    let made = batches_from batch_size buckets g (sort ltb (keys buckets))
    ok (shuffle (List (StatementExpansion R)) made.1 made.0).0

-- A batch as rows of numbers; the tensors' padding is zero.
pub record StatementPrimerBatch (R : Type 0) : Type 0 where
  pub token_ids : List (List ℕ)
  pub expanded_token_indices : List ℕ
  pub alternative_token_ids : List (List ℕ)
  pub alternative_weights : List (List R)
  pub explicit_source_bytes : ℕ

abbrev pub largest_of : List ℕ → ℕ
largest_of [] = 0
largest_of (n ∷ ns) = max n (largest_of ns)

unfoldable pub zeros : {A : Type 0} → A → ℕ → List A
zeros z zero = []
zeros z (suc n) = z ∷ zeros z n

-- `row = zeros(width); row[:count] = values`, where PyTorch repeats a single value, and refuses
-- another wrong number of values.
unfoldable pub pad : {A : Type 0} → A → ℕ → ℕ → List A → Result (List A)
pad z width count (x ∷ []) = ok (zeros x count ++ zeros z (width - count))
pad z width count values =
    if length values == count
    then ok (values ++ zeros z (width - count))
    else err (runtime_error "shape mismatch")

module _ {R : Type 0} ⦃fl : Floats R⦄ where
  -- The rows of a record: its alternatives and their weights.
  unfoldable pub rows_of : ℕ → StatementExpansion R → Result (List ℕ × List R)
  rows_of width e = do
    ids ← pad 0 width (length e.alternative_token_ids) e.alternative_token_ids
    weights ← pad (of_nat 0) width (length e.alternative_token_ids) e.weights
    ok (ids, weights)

  unfoldable pub collate : List (StatementExpansion R) → Result (StatementPrimerBatch R)
  collate [] = err (value_error "cannot collate an empty primer batch")
  collate (first ∷ rest) = do
    let records = first ∷ rest
    raise_if (any (λ e. not (length e.token_ids == length first.token_ids)) records)
        (value_error "primer batches require equal sequence lengths")
    rows ←
        map_result (rows_of (largest_of (map (λ e. length e.alternative_token_ids) records)))
          records
    ok (record {
      token_ids = map (λ e. e.token_ids) records;
      expanded_token_indices = map (λ e. e.expanded_token_index) records;
      alternative_token_ids = map (λ r. r.0) rows;
      alternative_weights = map (λ r. r.1) rows;
      explicit_source_bytes = sum (map (λ e. e.explicit_source_bytes) records);
    })
