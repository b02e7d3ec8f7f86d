-- ===== src/Primer/Examples.antt =====
-- Three expansions of two lengths.
use ztok.Common.{ℕ, ◌<◌, ◌≡◌, refl, List, [], ◌∷◌, map, ok, arith, All, length, sum_by, String}
use ztok.Common.Floats.{of_nat}
use ztok.Common.Milli.{Milli, milli}
use ztok.Primer.{StatementExpansion, Inventory}
use ztok.Primer.Align.{aligned_expansion, align, expansion_of, differing, column}
use ztok.Primer.Slot.{HasSlot, aligned_expansion-HasSlot}
use ztok.Common.{
  none, some, str_eq, if◌then◌else◌, any, range, range_from, filter, filter_map, map_result, sum,
  elem, or_raise, get_elem?, index_error,
}
use ztok.Common.Counting.{has_duplicate}
use ztok.Common.Floats.{sum_f, sum_f_from}
use ztok.Primer.Batches.{statement_primer_batches}
use ztok.Primer.Laws.{Shuffles, IsBatch, statement_primer_batches-IsBatch}

abbrev expansion : String → List ℕ → StatementExpansion Milli
expansion id tokens = record {
  expansion_id = id;
  token_ids = tokens;
  expanded_token_index = 0;
  alternative_token_ids = 1 ∷ 2 ∷ [];
  weights = of_nat 1 ∷ of_nat 1 ∷ [];
  explicit_source_bytes = 10;
  statement_kind = "fact";
  slot_kind = "subject";
}

abbrev expansions : List (StatementExpansion Milli)
expansions =
    expansion "a" (1 ∷ 2 ∷ 3 ∷ [])
    ∷ expansion "b" (1 ∷ 2 ∷ [])
    ∷ expansion "c" (4 ∷ 5 ∷ 6 ∷ [])
    ∷ []

-- A generator that leaves lists as they are.
abbrev unmixed : (A : Type 0) → ℕ → List A → List A × ℕ
unmixed A g xs = (xs, g)

unmixed-Shuffles : Shuffles unmixed
unmixed-Shuffles A g xs = ((λ f. refl), (λ P a. a))

statement_primer_batches-IsBatch_example :
    (batches : List (List (StatementExpansion Milli))) × (statement_primer_batches unmixed
        expansions 2 0
      ≡ ok batches)
    × ((f : StatementExpansion Milli → ℕ) → sum_by (sum_by f) batches ≡ sum_by f expansions)
    × All (IsBatch 2) batches
statement_primer_batches-IsBatch_example =
    statement_primer_batches-IsBatch unmixed unmixed-Shuffles expansions 2 0 (ground arith)

abbrev pair : List (StatementExpansion Milli)
pair = expansion "a" (1 ∷ 2 ∷ 3 ∷ []) ∷ expansion "c" (4 ∷ 5 ∷ 6 ∷ []) ∷ []

-- A tokenizer of two texts, which differ in the second of three tokens.
abbrev tokens_of : String → List ℕ
tokens_of s = if str_eq s "red" then 1 ∷ 2 ∷ 3 ∷ [] else 1 ∷ 4 ∷ 3 ∷ []

abbrev inventory : Inventory Milli
inventory = record {
  expansion_id = some "x";
  alternatives =
      record { statements = "red" ∷ []; weight = none }
      ∷ record { statements = "blue" ∷ []; weight = none }
      ∷ [];
  statement_kind = none;
  expanded_slot_kind = none;
}

aligned :
    (e : StatementExpansion Milli) × (aligned_expansion tokens_of (λ s. 4) inventory ≡ ok (some e))
unfolding aligned_expansion align expansion_of differing column any range range_from filter
    filter_map map_result sum sum_f sum_f_from has_duplicate elem
aligned = (_, refl)

aligned_expansion-HasSlot_example :
    (statements : List String) × (map_result
        (λ a. or_raise (get_elem? a.statements 0) index_error)
        inventory.alternatives
      ≡ ok statements)
    × (1 < length statements)
    × HasSlot (map tokens_of statements) aligned.0
aligned_expansion-HasSlot_example =
    aligned_expansion-HasSlot tokens_of (λ s. 4) inventory {e = aligned.0} aligned.1
