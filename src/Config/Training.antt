-- ===== src/Config/Training.antt =====
-- `TrainingConfig.validate` of config.py.
use ztok.Common.{
  ℕ, ◌%◌, inl, inr, Bool, true, false, not, ◌&&◌, ◌||◌, List, [], ◌∷◌, Option, none, some, String,
  Result, Check, ok, err, ◌>>=◌, ◌>>◌, raise_if, value_error, type_error, ltb, leb, ◌==◌, str_eq,
  if◌then◌else◌, is_some,
}
use ztok.Common.Floats.{Floats, of_nat, neg, ◌≺◌, ◌≼◌, ◌≈◌, in_unit}
use ztok.Config.{
  Scalar, Field, is_truthy, BatchStage, ShapeStage, TrainingConfig, is_bool, is_true, int_between,
  number,
}

abbrev pub one_of : List String → String → Bool
one_of [] s = false
one_of (t ∷ ts) s = str_eq s t || one_of ts s

-- A field that has to be a list or tuple.
abbrev pub sequence_of : {A : Type 0} → Field A → String → Result (List A)
sequence_of (Field.sequence xs) message = ok xs
sequence_of (Field.scalar b) message = err (type_error message)

module _ {R : Type 0} ⦃fl : Floats R⦄ where
  -- `isinstance(x, (int, float))`, no Boolean, and `0.0 < float(x) <= 1.0`.
  abbrev pub in_open_closed : Scalar R → Bool
  in_open_closed s = elim (number s) [ none ↦ false | some x ↦ of_nat 0 ≺ x && x ≼ of_nat 1 ]

  abbrev pub in_open_open : Scalar R → Bool
  in_open_open s = elim (number s) [ none ↦ false | some x ↦ of_nat 0 ≺ x && x ≺ of_nat 1 ]

  -- `0.0 <= float(fraction) < 1.0`.
  abbrev pub is_fraction : R → Bool
  is_fraction x = of_nat 0 ≼ x && x ≺ of_nat 1

  -- A stage's fraction: a number in [0, 1).
  unfoldable pub fraction_of : Scalar R → String → Result R
  fraction_of s message = elim (number s) [
    | none ↦ err (value_error message)
    | some x ↦ if is_fraction x then ok x else err (value_error message)
  ]

  -- A stage's size: an integer between 1 and 512.
  unfoldable pub size_of : Scalar R → Result ℕ
  size_of (Scalar.pos n) =
      if leb 1 n && leb n 512
      then ok n
      else err (value_error "scheduled batch sizes must be between 1 and 512")
  size_of _ = err (value_error "scheduled batch sizes must be between 1 and 512")

  unfoldable pub context_of : Scalar R → Result ℕ
  context_of (Scalar.pos n) =
      if ltb n 2 then err (value_error "scheduled contexts must be at least two tokens") else ok n
  context_of _ = err (value_error "scheduled contexts must be at least two tokens")

  -- The loop over `batch_size_schedule`; `first` holds in the round of index zero.
  unfoldable pub check_batch_stages : ℕ → Bool → R → List (BatchStage R) → Check
  check_batch_stages base first previous [] = ok tt
  check_batch_stages base first previous (BatchStage.malformed ∷ stages) =
      err (value_error "batch_size_schedule stages require only start_fraction and batch_size")
  check_batch_stages base first previous (BatchStage.stage start size ∷ stages) = do
    fraction ← fraction_of start "batch schedule fractions must be in [0, 1)"
    batch_size ← size_of size
    raise_if (fraction ≼ previous)
        (value_error "batch schedule fractions must be strictly increasing")
    raise_if (first && not (fraction ≈ of_nat 0))
        (value_error "batch_size_schedule must start at fraction zero")
    raise_if (first && not (batch_size == base))
        (value_error "the first scheduled batch must equal batch_size")
    check_batch_stages base false fraction stages

  -- The loop over `train_shape_schedule`; `group` is the group size of a fixed representation.
  unfoldable pub check_shape_stages : Option ℕ → Bool → R → ℕ → List (ShapeStage R) → Check
  check_shape_stages group first previous context [] = ok tt
  check_shape_stages group first previous context (ShapeStage.malformed ∷ stages) = err (
      value_error
        "train_shape_schedule stages require only start_fraction, batch_size, and context_tokens")
  check_shape_stages group first previous context (ShapeStage.shape start size tokens ∷ stages) = do
    fraction ← fraction_of start "shape schedule fractions must be in [0, 1)"
    batch_size ← size_of size
    context_tokens ← context_of tokens
    raise_if (fraction ≼ previous)
        (value_error "shape schedule fractions must be strictly increasing")
    raise_if (first && not (fraction ≈ of_nat 0))
        (value_error "train_shape_schedule must start at fraction zero")
    raise_if (ltb context_tokens context) (value_error "scheduled contexts must be non-decreasing")
    raise_if (elim group [ none ↦ false | some g ↦ not (context_tokens % g == 0) ])
        (value_error "scheduled contexts must be divisible by fixed group_size")
    check_shape_stages group false fraction context_tokens stages

  unfoldable pub check_optimizer : TrainingConfig R → Check
  check_optimizer c = do
    raise_if (not (is_bool c.optimizer_foreach) || not (is_bool c.optimizer_fused))
        (type_error "optimizer foreach and fused controls must be boolean")
    raise_if (is_true c.optimizer_foreach && is_true c.optimizer_fused)
        (value_error "optimizer foreach and fused controls are exclusive")
    raise_if (not (one_of ("adamw" ∷ "spectral_muon" ∷ []) c.optimizer_kind))
        (value_error "optimizer_kind must be adamw or spectral_muon")
    let muon = str_eq c.optimizer_kind "spectral_muon"
    raise_if (muon && not (elim c.spectral_muon [ none ↦ false | some b ↦ b ]))
        (type_error "spectral_muon optimizer requires its resolved configuration")
    raise_if (muon && (is_true c.optimizer_foreach || is_true c.optimizer_fused))
        (value_error "SpectralMuon does not use AdamW foreach/fused controls")
    raise_if (not muon && is_some c.spectral_muon)
        (value_error "spectral_muon configuration requires optimizer_kind=spectral_muon")
    raise_if (not (is_bool c.spectral_muon_apply_recovery_multiplier))
        (type_error "spectral_muon_apply_recovery_multiplier must be boolean")

  unfoldable pub check_kinds : TrainingConfig R → Check
  check_kinds c = do
    raise_if (not (one_of ("ordinary" ∷ "fixed" ∷ []) c.representation))
        (value_error "representation must be ordinary or fixed")
    raise_if
        (str_eq c.representation "fixed"
          && not
              (c.group_size == 2 || c.group_size == 4 || c.group_size == 8 || c.group_size == 16))
        (value_error "fixed group_size must be 2, 4, 8, or 16")
    raise_if (str_eq c.representation "ordinary" && not (c.group_size == 1))
        (value_error "ordinary representation requires group_size=1")
    raise_if (not (one_of ("bag" ∷ "ordered" ∷ []) c.target))
        (value_error "target must be bag or ordered")
    raise_if (not (one_of ("steps" ∷ "source_bytes" ∷ "flops" ∷ "gpu_seconds" ∷ []) c.budget_kind))
        (value_error "unsupported budget_kind")
    raise_if
        (not (str_eq c.budget_kind "steps")
          && elim c.budget_value [ none ↦ true | some x ↦ x ≼ of_nat 0 ])
        (value_error "non-step budgets require a positive budget_value")
    raise_if (not (one_of ("steps" ∷ "budget" ∷ []) c.lr_schedule_basis))
        (value_error "lr_schedule_basis must be steps or budget")
    raise_if (not (one_of ("cosine" ∷ "late_linear" ∷ []) c.lr_decay_kind))
        (value_error "lr_decay_kind must be cosine or late_linear")
    raise_if (not (in_open_closed c.cooldown_fraction))
        (value_error "cooldown_fraction must be in (0, 1]")
    raise_if (str_eq c.lr_decay_kind "late_linear" && not (str_eq c.lr_schedule_basis "budget"))
        (value_error "late_linear decay requires lr_schedule_basis=budget")
    raise_if (elim c.head_split_fraction [ none ↦ false | some s ↦ not (in_open_open s) ])
        (value_error "head_split_fraction must be in (0, 1)")

  unfoldable pub check_multipliers : TrainingConfig R → Check
  check_multipliers c = do
    raise_if (c.coarse_lr_multiplier ≼ of_nat 0)
        (value_error "coarse_lr_multiplier must be positive")
    raise_if (c.ordinary_lr_multiplier ≼ of_nat 0)
        (value_error "ordinary_lr_multiplier must be positive")
    raise_if (c.coarse_superposed_source_gradient_multiplier ≼ of_nat 0)
        (value_error "coarse_superposed_source_gradient_multiplier must be positive")
    raise_if (c.mixed_superposed_source_gradient_multiplier ≼ of_nat 0)
        (value_error "mixed_superposed_source_gradient_multiplier must be positive")

  unfoldable pub check_controls : TrainingConfig R → Check
  check_controls c = do
    raise_if (not (int_between 0 1 c.prefetch_batches))
        (value_error "prefetch_batches must be zero or one")
    raise_if (not (is_bool c.synchronize_each_step))
        (type_error "synchronize_each_step must be boolean")
    raise_if (not (int_between 1 1024 c.telemetry_interval))
        (value_error "telemetry_interval must be between 1 and 1,024")
    raise_if (not (is_bool c.compile_model)) (type_error "compile_model must be boolean")
    raise_if (not (is_bool c.fused_linear_cross_entropy))
        (type_error "fused_linear_cross_entropy must be boolean")
    raise_if (c.max_steps == 0 || c.batch_size == 0 || ltb c.context_tokens 2)
        (value_error "batch, context, and max_steps must be positive")

  abbrev pub fixed_group : TrainingConfig R → Option ℕ
  fixed_group c = if str_eq c.representation "fixed" then some c.group_size else none

  unfoldable pub check_schedules : TrainingConfig R → Check
  check_schedules c = do
    batches ← sequence_of c.batch_size_schedule "batch_size_schedule must be a sequence of stages"
    check_batch_stages c.batch_size true (neg (of_nat 1)) batches
    raise_if (is_truthy c.batch_size_schedule && is_truthy c.train_shape_schedule)
        (value_error "batch_size_schedule and train_shape_schedule are mutually exclusive")
    shapes ← sequence_of c.train_shape_schedule "train_shape_schedule must be a sequence of stages"
    check_shape_stages (fixed_group c) true (neg (of_nat 1)) 0 shapes

  unfoldable pub check_primer : TrainingConfig R → Check
  check_primer c = do
    raise_if (elim (fixed_group c) [ none ↦ false | some g ↦ not (c.context_tokens % g == 0) ])
        (value_error "context_tokens must be divisible by group_size")
    raise_if (not (in_unit c.soft_token_rate)) (value_error "soft_token_rate must be in [0,1]")
    raise_if (elim c.primer_epochs [ inl n ↦ false | inr n ↦ true ])
        (value_error "primer_epochs must be non-negative")
    raise_if
        (not (elim c.primer_epochs [ inl n ↦ n == 0 | inr n ↦ false ])
          && elim c.primer_path [ none ↦ true | some p ↦ str_eq p "" ])
        (value_error "primer_path is required when primer_epochs is positive")
    raise_if (c.primer_batch_size == 0 || c.primer_eval_interval == 0)
        (value_error "primer batch size and eval interval must be positive")

  -- The guards in the order of the code.
  unfoldable pub validate : TrainingConfig R → Check
  validate c = do
    check_kinds c
    check_multipliers c
    check_optimizer c
    check_controls c
    check_schedules c
    check_primer c
