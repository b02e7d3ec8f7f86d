-- ===== src/Primer/Align.antt =====
-- `_aligned_expansion` of statement_primer.py. The tokenizer and the length of a text in UTF-8 are
-- parameters.
use ztok.Common.{
  ℕ, ◌-◌, not, ◌||◌, List, [], ◌∷◌, map, Option, none, some, String, Result, ok, ◌>>=◌, or_raise,
  map_result, index_error, key_error, length, get_elem?, ltb, leb, any, ◌==◌, if◌then◌else◌, filter,
  filter_map, range, sum,
}
use ztok.Common.Floats.{Floats, of_nat, ◌⊘◌, ◌≼◌, sum_f}
use ztok.Common.Counting.{has_duplicate, differ}
use ztok.Primer.{StatementExpansion, Alternative, Inventory}

-- The tokens of the branches at an index.
unfoldable pub column : List (List ℕ) → ℕ → List ℕ
column branches i = filter_map (λ b. get_elem? b i) branches

-- The indices at which the branches differ.
unfoldable pub differing : List ℕ → List (List ℕ) → List ℕ
differing first branches = filter (λ i. differ (column branches i)) (range (length first))

abbrev pub or_unknown : Option String → String
or_unknown none = "unknown"
or_unknown (some s) = s

-- The case of a single differing index.
abbrev pub single : List ℕ → Option ℕ
single (i ∷ []) = some i
single _ = none

module _ {R : Type 0} ⦃fl : Floats R⦄ (encode : String → List ℕ) (utf8_length : String → ℕ) where
  abbrev pub weight_of : Alternative R → R
  weight_of a = elim a.weight [ none ↦ of_nat 1 | some w ↦ w ]

  abbrev pub weights_of : Inventory R → List R
  weights_of record_ = map weight_of record_.alternatives

  -- What is made of branches that differ at one index only.
  unfoldable pub expansion_of :
      Inventory R
      → List String
      → List ℕ
      → List (List ℕ)
      → ℕ
      → Result (Option (StatementExpansion R))
  expansion_of record_ statements first branches index =
      if leb (length first - 1) index
        || has_duplicate (column branches index)
        || (sum_f (weights_of record_) ≼ of_nat 0)
      then ok none
      else (or_raise record_.expansion_id key_error >>= λ id. ok (
          some (record {
            expansion_id = id;
            token_ids = first;
            expanded_token_index = index;
            alternative_token_ids = column branches index;
            weights = map (λ w. w ⊘ sum_f (weights_of record_)) (weights_of record_);
            explicit_source_bytes = sum (map utf8_length statements);
            statement_kind = or_unknown record_.statement_kind;
            slot_kind = or_unknown record_.expanded_slot_kind;
          })))

  unfoldable pub align :
      Inventory R → List String → List (List ℕ) → Result (Option (StatementExpansion R))
  align record_ statements [] = ok none
  align record_ statements (first ∷ branches) =
      if any (λ b. not (length b == length first)) branches || ltb (length first) 2
      then ok none
      else elim (single (differing first (first ∷ branches))) [
        | none ↦ ok none
        | some index ↦ expansion_of record_ statements first (first ∷ branches) index
      ]

  unfoldable pub aligned_expansion : Inventory R → Result (Option (StatementExpansion R))
  aligned_expansion record_ =
      if ltb (length record_.alternatives) 2
      then ok none
      else (map_result (λ a. or_raise (get_elem? a.statements 0) index_error) record_.alternatives
          >>= λ statements. align record_ statements (map encode statements))
