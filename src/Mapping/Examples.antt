-- ===== src/Mapping/Examples.antt =====
-- A data set of two examples with two spans each, and the program's results on it.
use ztok.Common.{
  ℕ, ◌≡◌, refl, true, false, List, [], ◌∷◌, none, some, String, ok, arith, for_each, fold_result,
  enumerate_from,
}
use ztok.Common.Milli.{Milli, milli, pos}
use ztok.Common.Dict.{group_from, append_to}
use ztok.Common.Sort.{sort}
use ztok.Mapping.{
  SpanNode, RelationEdge, DatasetMappingConfig, Embeddings, PairDecision, Identity, Reason,
}
use ztok.Mapping.Validate.{
  validate, register, check_example, check_edge, check_ordered, find_identity,
}
use ztok.Mapping.Validate.Laws.{IsValidated, validate-IsValidated}
use ztok.Mapping.Decision.{
  pair_decision, pair_reason, Entry, known_equal, is_protected_entity, protected_exact, same_source,
  pair_blocked, signature_eq, relation_signatures,
}
use ztok.Mapping.Decision.Laws.{FitPair, pair_decision-FitPair}
use ztok.Mapping.Cluster.{cluster_spans}
use ztok.Mapping.Cluster.Laws.{IsClustering, cluster_spans-IsClustering}
use ztok.Mapping.Superbatch.{build_superbatches}
use ztok.Mapping.Superbatch.Laws.{IsPacking, build_superbatches-IsPacking}
use ztok.Mapping.Decision.Signatures.{AreSignatures}
use ztok.Mapping.Plan.{Plan, build_dataset_superposition_plan}
use ztok.Mapping.Plan.Laws.{IsPlanned, build_dataset_superposition_plan-IsPlanned}

abbrev span : ℕ → String → ℕ → ℕ → ℕ → SpanNode Milli
span example id start end_ index = record {
  example_id = example;
  span_id = id;
  token_start = start;
  token_end = end_;
  embedding_index = index;
  grammatical_role = some "subject";
  semantic_role = some id;
  semantic_value = none;
  entity_type = none;
  binding_type = none;
  source_token_ids = none;
  confidence = pos 900;
  protected = false;
}

abbrev spans : List (SpanNode Milli)
spans =
    span 7 "agent" 0 2 0
    ∷ span 7 "patient" 2 4 1
    ∷ span 8 "agent" 0 1 2
    ∷ span 8 "patient" 3 5 3
    ∷ []

abbrev edges : List RelationEdge
edges =
    record {
      example_id = 7;
      source_span_id = "agent";
      relation = "acts";
      target_span_id = "patient";
    }
    ∷ record {
      example_id = 8;
      source_span_id = "agent";
      relation = "acts";
      target_span_id = "patient";
    }
    ∷ []

abbrev embeddings : Embeddings Milli
embeddings = record { ndim = 2; rows = 4; normalized_dot = λ i j. pos 950 }

abbrev config : DatasetMappingConfig Milli
config = record {
  cosine_threshold = pos 920;
  maximum_cluster_size = 8;
  minimum_aligned_spans = 2;
  minimum_alignment_coverage = pos 750;
  require_grammatical_role = true;
  require_semantic_role = true;
  require_relation_signature = true;
  verbose_diagnostics = false;
}

abbrev entry : ℕ → String → ℕ → Identity
entry example id i = record { example_id = example; span_id = id; index = i }

abbrev identities : List Identity
identities = entry 8 "patient" 3 ∷ entry 8 "agent" 2 ∷ entry 7 "patient" 1 ∷ entry 7 "agent" 0 ∷ []

validates : validate spans edges embeddings ≡ ok identities
unfolding validate register sort check_example check_edge check_ordered find_identity fold_result
    for_each enumerate_from group_from append_to
validates = refl

validate-IsValidated_example : IsValidated spans edges embeddings identities
validate-IsValidated_example = validate-IsValidated spans edges embeddings validates

plan_example :
    (signatures : List (List Entry)) × (plan : Plan Milli) × (relation_signatures spans edges
        identities
      ≡ ok signatures)
    × AreSignatures spans identities edges signatures
    × (build_dataset_superposition_plan spans edges embeddings config none ≡ ok plan)
    × IsPlanned spans embeddings config none signatures plan
plan_example =
    build_dataset_superposition_plan-IsPlanned spans embeddings config none edges refl refl
      validates

-- The first and third span.
abbrev decisions : List (PairDecision Milli)
decisions =
    record {
      left_span_index = 0;
      right_span_index = 2;
      cosine_similarity = pos 950;
      accepted = true;
      reason = Reason.compatible;
    }
    ∷ []

cluster_spans_example :
    (cs : List (List ℕ)) × (cluster_spans spans decisions config ≡ ok cs)
    × IsClustering spans decisions config cs
cluster_spans_example = cluster_spans-IsClustering spans decisions config (omega arith)

build_superbatches_example :
    (ss : List _) × (build_superbatches spans ((0 ∷ 2 ∷ []) ∷ (1 ∷ 3 ∷ []) ∷ []) config ≡ ok ss)
    × IsPacking spans config ss
build_superbatches_example =
    build_superbatches-IsPacking spans config ((0 ∷ 2 ∷ []) ∷ (1 ∷ 3 ∷ []) ∷ []) (omega arith)

abbrev signatures : List (List Entry)
signatures = [] ∷ [] ∷ [] ∷ [] ∷ []

abbrev decision : PairDecision Milli
decision = record {
  left_span_index = 0;
  right_span_index = 2;
  cosine_similarity = pos 950;
  accepted = true;
  reason = Reason.compatible;
}

decides : pair_decision 0 2 spans embeddings signatures config none ≡ ok decision
unfolding pair_decision pair_reason known_equal is_protected_entity protected_exact same_source
    pair_blocked signature_eq
decides = refl

pair_decision-FitPair_example : FitPair spans signatures config none 0 2 decision
pair_decision-FitPair_example =
    pair_decision-FitPair 0 2 spans embeddings signatures config none decides refl
