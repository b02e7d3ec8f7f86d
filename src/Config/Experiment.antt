-- ===== src/Config/Experiment.antt =====
-- `ExperimentConfig` of config.py and `ModelConfig` of models/common.py.
use ztok.Common.{
  ℕ, ◌%◌, ◌⊎◌, inl, inr, Bool, false, not, ◌&&◌, ◌||◌, [], ◌∷◌, String, Check, err, ◌>>=◌, ◌>>◌,
  raise_if, for_each, value_error, key_error, ltb, ◌==◌, str_eq, is_some,
}
use ztok.Common.Floats.{Floats}
use ztok.Config.{ShapeStage, TrainingConfig, is_true}
use ztok.Config.Training.{validate, one_of}
use ztok.Config.Schedule.{iterate, int_of}

pub record ModelConfig : Type 0 where
  pub vocab_size : ℕ
  pub width : ℕ
  pub layers : ℕ
  pub heads : ℕ
  pub max_sequence_length : ℕ
  pub tie_embeddings : Bool

pub record ExperimentConfig (R : Type 0) : Type 0 where
  pub schema : String
  pub architecture : String
  pub model : ModelConfig
  pub training : TrainingConfig R
  pub tokenizer_condition : String
  pub rwkv_backend : String
  pub rwkv_channel_activation : String

unfoldable pub validate_model : ModelConfig → Check
validate_model m = do
  raise_if (ltb m.vocab_size 2) (value_error "vocab_size must be at least 2")
  raise_if (m.width == 0 || m.layers == 0 || m.heads == 0)
      (value_error "width, layers, and heads must be positive")
  raise_if (not (m.width % m.heads == 0)) (value_error "width must be divisible by heads")
  raise_if (ltb m.max_sequence_length 2) (value_error "max_sequence_length must be at least 2")

module _ {R : Type 0} where
  -- The names that are known, and which of them go together.
  unfoldable pub check_names : ExperimentConfig R → Check
  check_names e = do
    raise_if (not (str_eq e.schema "ztok.nanogpt_superposition.config.v1"))
        (value_error "unsupported experiment config schema")
    raise_if (not (one_of ("transformer" ∷ "rwkv" ∷ []) e.architecture))
        (value_error "architecture must be transformer or rwkv")
    raise_if (not (one_of ("rwkv_lab" ∷ "reference" ∷ []) e.rwkv_backend))
        (value_error "rwkv_backend must be rwkv_lab or reference")
    raise_if
        (not (
          one_of ("relu_squared" ∷ "xielu" ∷ "xielu_cuda" ∷ "xielu_fused" ∷ [])
            e.rwkv_channel_activation))
        (value_error
          "rwkv_channel_activation must be relu_squared, xielu, xielu_cuda, or xielu_fused")
    raise_if
        (not (str_eq e.architecture "rwkv")
          && not (str_eq e.rwkv_channel_activation "relu_squared"))
        (value_error "RWKV channel activations require architecture=rwkv")
    raise_if
        (not (str_eq e.rwkv_backend "rwkv_lab")
          && not (str_eq e.rwkv_channel_activation "relu_squared"))
        (value_error "xIELU currently requires rwkv_backend=rwkv_lab")
    raise_if (not (one_of ("ordinary_bpe" ∷ "superbpe" ∷ "byte_debug" ∷ []) e.tokenizer_condition))
        (value_error "unsupported tokenizer_condition")

  unfoldable pub check_head_split : ExperimentConfig R → Check
  check_head_split e = do
    let split = is_some e.training.head_split_fraction
    raise_if (split && not e.model.tie_embeddings)
        (value_error "late head splitting requires tied embeddings")
    raise_if
        (split && (not (str_eq e.architecture "rwkv") || not (str_eq e.rwkv_backend "rwkv_lab")))
        (value_error "late head splitting requires the RWKV-Lab backend")
    raise_if (split && not (str_eq e.training.optimizer_kind "adamw"))
        (value_error "late head splitting currently requires AdamW")
    raise_if (split && is_true e.training.compile_model)
        (value_error "late head splitting is incompatible with static compilation")

module _ {R : Type 0} ⦃fl : Floats R⦄ (truncate : R → ℕ ⊎ ℕ) where
  -- The loop over the scheduled contexts.
  unfoldable pub check_stage_context : ℕ → ShapeStage R → Check
  check_stage_context longest ShapeStage.malformed = err key_error
  check_stage_context longest (ShapeStage.shape start size tokens) = do
    context ← int_of truncate tokens
    raise_if (elim context [ inl n ↦ ltb longest n | inr n ↦ false ])
        (value_error "scheduled context exceeds model max_sequence_length")

  unfoldable pub validate_experiment : ExperimentConfig R → Check
  validate_experiment e = do
    check_names e
    validate_model e.model
    validate e.training
    raise_if (ltb e.model.max_sequence_length e.training.context_tokens)
        (value_error "training context exceeds model max_sequence_length")
    stages ← iterate e.training.train_shape_schedule
    for_each (check_stage_context e.model.max_sequence_length) stages
    check_head_split e
