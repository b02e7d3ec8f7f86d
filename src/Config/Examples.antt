-- ===== src/Config/Examples.antt =====
-- A run on groups of two tokens whose context doubles at half of the budget.
use ztok.Common.{
  ℕ, suc, ◌≤◌, ◌≡◌, refl, ◌⊎◌, inl, inr, true, false, List, [], ◌∷◌, none, some, ok, ◌/◌, ◌-◌, ltb,
  if◌then◌else◌, for_each,
}
use ztok.Common.Milli.{Milli, milli, milli-IsOrdered, pos, negsuc}
use ztok.Common.Floats.{of_nat}
use ztok.Recovery.{percent}
use ztok.Config.{Scalar, Field, BatchStage, ShapeStage, TrainingConfig}
use ztok.Config.Training.{
  validate, check_kinds, check_multipliers, check_optimizer, check_controls, check_schedules,
  check_primer, check_batch_stages, check_shape_stages, fraction_of, size_of, context_of,
}
use ztok.Config.Schedule.{batch_size_at, training_shape_at, shape_of, select_shape, share}
use ztok.Config.Experiment.{
  ExperimentConfig, validate_experiment, check_names, validate_model, check_stage_context,
  check_head_split,
}
use ztok.Config.Stages.{in_force}
use ztok.Config.Reading.{batch_sizes, ShapeFits}
use ztok.Config.Laws.{batch_size_at-in_force}
use ztok.Config.Shapes.{training_shape_at-ShapeFits, training_shape_at-grows}
use ztok.Config.Bounds.{training_shape_at-bounded}

-- `int(x)` of a decimal with three places: towards zero.
abbrev whole : Milli → ℕ ⊎ ℕ
whole (pos n) = inl (n / 1000)
whole (negsuc n) = if ltb (suc n) 1000 then inl 0 else inr (suc n / 1000 - 1)

abbrev training : Field (BatchStage Milli) → Field (ShapeStage Milli) → TrainingConfig Milli
training batches stages = record {
  representation = "fixed";
  group_size = 2;
  target = "bag";
  batch_size = 16;
  batch_size_schedule = batches;
  train_shape_schedule = stages;
  context_tokens = 64;
  max_steps = 100;
  budget_kind = "steps";
  budget_value = none;
  lr_schedule_basis = "steps";
  lr_decay_kind = "cosine";
  cooldown_fraction = Scalar.float (percent 20);
  head_split_fraction = none;
  coarse_lr_multiplier = of_nat 1;
  ordinary_lr_multiplier = of_nat 1;
  coarse_superposed_source_gradient_multiplier = of_nat 1;
  mixed_superposed_source_gradient_multiplier = of_nat 1;
  optimizer_foreach = Scalar.bool false;
  optimizer_fused = Scalar.bool false;
  optimizer_kind = "adamw";
  spectral_muon = none;
  spectral_muon_apply_recovery_multiplier = Scalar.bool false;
  prefetch_batches = Scalar.pos 0;
  synchronize_each_step = Scalar.bool true;
  telemetry_interval = Scalar.pos 1;
  compile_model = Scalar.bool false;
  fused_linear_cross_entropy = Scalar.bool false;
  soft_token_rate = of_nat 0;
  primer_path = none;
  primer_epochs = inl 0;
  primer_batch_size = 256;
  primer_eval_interval = 100;
}

abbrev growing : TrainingConfig Milli
growing = training (Field.sequence []) (
    Field.sequence (
      ShapeStage.shape (Scalar.pos 0) (Scalar.pos 16) (Scalar.pos 32)
      ∷ ShapeStage.shape (Scalar.float (percent 50)) (Scalar.pos 8) (Scalar.pos 64)
      ∷ []))

abbrev halving : TrainingConfig Milli
halving =
    training
      (Field.sequence (
        BatchStage.stage (Scalar.pos 0) (Scalar.pos 16)
        ∷ BatchStage.stage (Scalar.float (percent 50)) (Scalar.pos 8)
        ∷ []))
      (Field.sequence [])

growing-validate : validate growing ≡ ok tt
unfolding validate check_kinds check_multipliers check_optimizer check_controls check_schedules
    check_primer check_batch_stages check_shape_stages fraction_of size_of context_of
growing-validate = refl

halving-validate : validate halving ≡ ok tt
unfolding validate check_kinds check_multipliers check_optimizer check_controls check_schedules
    check_primer check_batch_stages check_shape_stages fraction_of size_of context_of
halving-validate = refl

abbrev small : ExperimentConfig Milli
small = record {
  schema = "ztok.nanogpt_superposition.config.v1";
  architecture = "transformer";
  model = record {
    vocab_size = 256;
    width = 256;
    layers = 6;
    heads = 8;
    max_sequence_length = 64;
    tie_embeddings = true;
  };
  training = growing;
  tokenizer_condition = "ordinary_bpe";
  rwkv_backend = "rwkv_lab";
  rwkv_channel_activation = "relu_squared";
}

small-validate : validate_experiment whole small ≡ ok tt
unfolding validate_experiment check_names validate_model check_stage_context check_head_split
    validate check_kinds check_multipliers check_optimizer check_controls check_schedules
    check_primer check_batch_stages check_shape_stages fraction_of size_of context_of for_each
small-validate = refl

early : training_shape_at whole growing (of_nat 25) (of_nat 100) ≡ ok (inl 16, inl 32)
unfolding training_shape_at shape_of select_shape
early = refl

late : training_shape_at whole growing (of_nat 75) (of_nat 100) ≡ ok (inl 8, inl 64)
unfolding training_shape_at shape_of select_shape
late = refl

batch_size_at-in_force_example :
    (stages : List (BatchStage Milli)) × (n : ℕ) × (halving.batch_size_schedule
      ≡ Field.sequence stages)
    × (n ≡ in_force (share (of_nat 75) (of_nat 100)) 16 (batch_sizes stages))
    × (1 ≤ n)
    × (batch_size_at whole halving (of_nat 75) (of_nat 100) ≡ ok (inl n))
batch_size_at-in_force_example =
    batch_size_at-in_force milli-IsOrdered whole halving (of_nat 75) (of_nat 100) refl
      halving-validate

training_shape_at-ShapeFits_example :
    (p : ℕ × ℕ) × (training_shape_at whole growing (of_nat 75) (of_nat 100) ≡ ok (inl p.0, inl p.1))
    × ShapeFits {R = Milli} (some 2) (share (of_nat 75) (of_nat 100), p)
training_shape_at-ShapeFits_example =
    training_shape_at-ShapeFits milli-IsOrdered whole growing (of_nat 75) (of_nat 100) refl
      growing-validate

training_shape_at-grows_example : 32 ≤ 64
training_shape_at-grows_example =
    training_shape_at-grows milli-IsOrdered whole growing (of_nat 25) (of_nat 75) (of_nat 100)
      {n = 16} {m = 8} refl refl growing-validate early late

training_shape_at-bounded_example : 64 ≤ 64
training_shape_at-bounded_example =
    training_shape_at-bounded whole milli-IsOrdered small (of_nat 75) (of_nat 100) {n = 8} refl
      small-validate late
