-- ===== src/Primer/Rows.antt =====
-- About batches that are collated.
use ztok.Common.{ℕ, ◌-◌, ◌≤◌, ◌≡◌, List, ◌++◌, length}
use ztok.Common.Floats.{Floats, of_nat}
use ztok.Primer.{StatementExpansion}
use ztok.Primer.Batches.{zeros}

-- The values of a row, filled up to a width.
abbrev pub filled : {A : Type 0} → A → ℕ → List A → List A
filled z width values = values ++ zeros z (width - length values)

module _ {R : Type 0} ⦃fl : Floats R⦄ where
  -- An expansion has a weight for each alternative.
  abbrev pub HasWeights : StatementExpansion R → Type 0
  HasWeights e = length e.weights ≡ length e.alternative_token_ids

  abbrev Fits : ℕ → StatementExpansion R → Type 0
  Fits width e = HasWeights e × (length e.alternative_token_ids ≤ width)

  -- The rows of an expansion: its alternatives and its weights, filled up.
  abbrev pub row_pair : ℕ → StatementExpansion R → List ℕ × List R
  row_pair width e = (filled 0 width e.alternative_token_ids, filled (of_nat 0) width e.weights)
