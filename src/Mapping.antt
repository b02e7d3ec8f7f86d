-- ===== src/Mapping.antt =====
-- The data of experiments/nanogpt_superposition/superposition/dataset_mapping.py. Identifiers,
-- offsets and token ids are natural numbers, so a test `0 <= x` on one holds by its type.
pub mod Validate
pub mod Decision
pub mod Cluster
pub mod Candidates
pub mod Superbatch
pub mod Plan
pub mod Examples
use ztok.Common.{ℕ, ◌<◌, Bool, true, false, List, Option, String}

-- `R` is the type of floats.
pub record SpanNode (R : Type 0) : Type 0 where
  pub example_id : ℕ
  pub span_id : String
  pub token_start : ℕ
  pub token_end : ℕ
  pub embedding_index : ℕ
  pub grammatical_role : Option String
  pub semantic_role : Option String
  pub semantic_value : Option String
  pub entity_type : Option String
  pub binding_type : Option String
  pub source_token_ids : Option (List ℕ)
  pub confidence : R
  pub protected : Bool

pub record RelationEdge : Type 0 where
  pub example_id : ℕ
  pub source_span_id : String
  pub relation : String
  pub target_span_id : String

pub record DatasetMappingConfig (R : Type 0) : Type 0 where
  pub cosine_threshold : R
  pub maximum_cluster_size : ℕ
  pub minimum_aligned_spans : ℕ
  pub minimum_alignment_coverage : R
  pub require_grammatical_role : Bool
  pub require_semantic_role : Bool
  pub require_relation_signature : Bool
  pub verbose_diagnostics : Bool

-- What the code reads of the embedding tensor: its shape, and the dot product of two rows of the
-- matrix that `F.normalize` returns, which torch computes.
pub record Embeddings (R : Type 0) : Type 0 where
  pub ndim : ℕ
  pub rows : ℕ
  pub normalized_dot : ℕ → ℕ → R

pub data Reason : Type 0 where
  compatible same_example retrieval_pair_blocked protected_span : Reason
  protected_entity_identity grammatical_role_mismatch semantic_role_mismatch : Reason
  semantic_value_mismatch entity_type_mismatch binding_type_mismatch : Reason
  relation_signature_mismatch cosine_below_threshold : Reason

pub record PairDecision (R : Type 0) : Type 0 where
  pub left_span_index : ℕ
  pub right_span_index : ℕ
  pub cosine_similarity : R
  pub accepted : Bool
  pub reason : Reason

-- `identities`: the index of each (example, span) name.
pub record Identity : Type 0 where
  pub example_id : ℕ
  pub span_id : String
  pub index : ℕ
