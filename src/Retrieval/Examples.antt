-- ===== src/Retrieval/Examples.antt =====
-- Three examples with the same features.
use ztok.Common.{
  ℕ, ◌+◌, ◌<◌, ◌≤◌, ◌≡◌, refl, List, [], ◌∷◌, none, some, false, String, length, max, All, arith,
}
use ztok.Common.Counting.{count}
use ztok.Common.Milli.{milli, pos}
use ztok.Retrieval.{Span, Example, retrieve, structural_features, weighted_jaccard, feature_count}
use ztok.Retrieval.Chosen.{IsGood, chosen_members, retrieve-chosen_members, retrieve-maximal}

abbrev span : String → String → Span
span id role = record {
  span_id = id;
  protected = false;
  grammatical_role = none;
  semantic_role = some role;
  entity_type = none;
  binding_type = none;
}

abbrev example : String → Example
example id = record {
  example_id = id;
  spans = span "s" "agent" ∷ span "t" "theme" ∷ span "p" "syntax" ∷ [];
  relations =
      record { source_span_id = "s"; relation = "sees"; target_span_id = "t" }
      ∷ record { source_span_id = "s"; relation = "ends"; target_span_id = "p" }
      ∷ [];
}

abbrev examples : List Example
examples = example "a" ∷ example "b" ∷ example "c" ∷ []

-- One pair is written, of the first two examples.
retrieved : chosen_members 2 (pos 550) 3 examples ≡ 0 ∷ 1 ∷ []
unfolding retrieve
retrieved = refl

retrieve-chosen_members_example :
    All (IsGood 2 (pos 550) 3 examples) (retrieve 2 (pos 550) 3 examples)
    × ((a : ℕ) → count a (chosen_members 2 (pos 550) 3 examples) ≤ 1)
    × (length (retrieve 2 (pos 550) 3 examples) ≤ max 2 1)
retrieve-chosen_members_example = retrieve-chosen_members 2 (pos 550) 3 examples

retrieve-maximal_example :
    0
    < count 1 (chosen_members 2 (pos 550) 3 examples)
      + count 2 (chosen_members 2 (pos 550) 3 examples)
unfolding retrieve structural_features weighted_jaccard feature_count count
retrieve-maximal_example =
    retrieve-maximal 2 (pos 550) 3 examples (omega arith) 1 2
      (example "b", structural_features (example "b"))
      (example "c", structural_features (example "c")) (omega arith) refl refl
      (omega arith, omega arith, refl)
