-- ===== src/Config.antt =====
-- experiments/nanogpt_superposition/config.py. A field whose type the code checks at run time is a
-- `Scalar`; sizes and steps are natural numbers, so `x <= 0` is `x == 0`.
pub mod Training
pub mod Schedule
pub mod Stages
pub mod Reading
pub mod Laws
pub mod Shapes
pub mod Bounds
pub mod Examples
pub mod Experiment
use ztok.Common.{
  ℕ, suc, ◌⊎◌, inl, inr, Bool, true, false, ◌&&◌, List, [], ◌∷◌, Option, none, some, String, leb,
}
use ztok.Common.Floats.{Floats, of_nat, neg}

-- A value of a configuration file. `negsuc n` is the integer -(n + 1).
pub data Scalar (R : Type 0) : Type 0 where
  pos : ℕ → Scalar R
  negsuc : ℕ → Scalar R
  float : R → Scalar R
  bool : Bool → Scalar R
  other : Scalar R

-- A stage: a dictionary with the keys that are wanted, or something else.
pub data BatchStage (R : Type 0) : Type 0 where
  stage : (start_fraction batch_size : Scalar R) → BatchStage R
  malformed : BatchStage R

pub data ShapeStage (R : Type 0) : Type 0 where
  shape : (start_fraction batch_size context_tokens : Scalar R) → ShapeStage R
  malformed : ShapeStage R

-- A list or tuple, or another value with its truth.
pub data Field (A : Type 0) : Type 0 where
  sequence : List A → Field A
  scalar : Bool → Field A

pub record TrainingConfig (R : Type 0) : Type 0 where
  pub representation : String
  pub group_size : ℕ
  pub target : String
  pub batch_size : ℕ
  pub batch_size_schedule : Field (BatchStage R)
  pub train_shape_schedule : Field (ShapeStage R)
  pub context_tokens : ℕ
  pub max_steps : ℕ
  pub budget_kind : String
  pub budget_value : Option R
  pub lr_schedule_basis : String
  pub lr_decay_kind : String
  pub cooldown_fraction : Scalar R
  pub head_split_fraction : Option (Scalar R)
  pub coarse_lr_multiplier : R
  pub ordinary_lr_multiplier : R
  pub coarse_superposed_source_gradient_multiplier : R
  pub mixed_superposed_source_gradient_multiplier : R
  pub optimizer_foreach : Scalar R
  pub optimizer_fused : Scalar R
  pub optimizer_kind : String
  -- `some true` for a dictionary, `some false` for another value.
  pub spectral_muon : Option Bool
  pub spectral_muon_apply_recovery_multiplier : Scalar R
  pub prefetch_batches : Scalar R
  pub synchronize_each_step : Scalar R
  pub telemetry_interval : Scalar R
  pub compile_model : Scalar R
  pub fused_linear_cross_entropy : Scalar R
  pub soft_token_rate : R
  pub primer_path : Option String
  -- `inr n` is the integer -(n + 1).
  pub primer_epochs : ℕ ⊎ ℕ
  pub primer_batch_size : ℕ
  pub primer_eval_interval : ℕ

module _ {R : Type 0} where
  abbrev pub is_bool : Scalar R → Bool
  is_bool (bool b) = true
  is_bool _ = false

  -- The truth of a Boolean field.
  abbrev pub is_true : Scalar R → Bool
  is_true (bool b) = b
  is_true _ = false

  -- An integer that is no Boolean, between two bounds.
  abbrev pub int_between : ℕ → ℕ → Scalar R → Bool
  int_between lo hi (pos n) = leb lo n && leb n hi
  int_between lo hi _ = false

  abbrev pub int_at_least : ℕ → Scalar R → Bool
  int_at_least lo (pos n) = leb lo n
  int_at_least lo _ = false

-- The truth of a field.
abbrev pub is_truthy : {A : Type 0} → Field A → Bool
is_truthy (Field.sequence []) = false
is_truthy (Field.sequence (x ∷ xs)) = true
is_truthy (Field.scalar b) = b

module _ {R : Type 0} ⦃fl : Floats R⦄ where
  -- `float(x)` of a number that is no Boolean.
  abbrev pub number : Scalar R → Option R
  number (Scalar.pos n) = some (of_nat n)
  number (Scalar.negsuc n) = some (neg (of_nat (suc n)))
  number (Scalar.float x) = some x
  number _ = none
