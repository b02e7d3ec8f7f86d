-- ===== src/Config/Schedule.antt =====
-- `batch_size_at` and `training_shape_at` of config.py.
use ztok.Common.{
  ℕ, suc, ◌⊎◌, inl, inr, true, false, List, [], ◌∷◌, Result, ok, err, ◌>>=◌, ◌>>◌, raise_if,
  value_error, type_error, key_error, if◌then◌else◌,
}
use ztok.Common.Floats.{Floats, of_nat, neg, ◌⊘◌, ◌≺◌, ◌≼◌, min_f, max_f}
use ztok.Config.{Scalar, Field, BatchStage, ShapeStage, TrainingConfig}

-- Iterating over a value that is no sequence raises.
abbrev pub iterate : {A : Type 0} → Field A → Result (List A)
iterate (Field.sequence xs) = ok xs
iterate (Field.scalar b) = err (type_error "object is not iterable")

module _ {R : Type 0} ⦃fl : Floats R⦄ where
  -- `min(max(float(progress) / float(total_budget), 0.0), 1.0)`.
  abbrev pub share : R → R → R
  share progress total = min_f (max_f (progress ⊘ total) (of_nat 0)) (of_nat 1)

-- `truncate x` is `int(x)`; `inr n` is the integer -(n + 1).
module _ {R : Type 0} ⦃fl : Floats R⦄ (truncate : R → ℕ ⊎ ℕ) where
  -- `float(x)`, where a value that is no number raises.
  abbrev pub float_of : Scalar R → Result R
  float_of (Scalar.pos n) = ok (of_nat n)
  float_of (Scalar.negsuc n) = ok (neg (of_nat (suc n)))
  float_of (Scalar.float x) = ok x
  float_of (Scalar.bool b) = ok (of_nat (if b then 1 else 0))
  float_of Scalar.other = err (type_error "float() argument must be a string or a real number")

  -- `int(x)`.
  abbrev pub int_of : Scalar R → Result (ℕ ⊎ ℕ)
  int_of (Scalar.pos n) = ok (inl n)
  int_of (Scalar.negsuc n) = ok (inr n)
  int_of (Scalar.float x) = ok (truncate x)
  int_of (Scalar.bool b) = ok (inl (if b then 1 else 0))
  int_of Scalar.other = err (type_error "int() argument must be a string or a real number")

  -- The loop of `batch_size_at`, which breaks at the first stage that has not begun.
  unfoldable pub select_batch : R → ℕ ⊎ ℕ → List (BatchStage R) → Result (ℕ ⊎ ℕ)
  select_batch fraction selected [] = ok selected
  select_batch fraction selected (BatchStage.malformed ∷ stages) = err key_error
  select_batch fraction selected (BatchStage.stage start size ∷ stages) =
      float_of start >>= λ begin.
      if fraction ≺ begin
      then ok selected
      else (int_of size >>= λ n. select_batch fraction n stages)

  unfoldable pub batch_size_at : TrainingConfig R → R → R → Result (ℕ ⊎ ℕ)
  batch_size_at c progress total = do
    raise_if (total ≼ of_nat 0) (value_error "batch schedule requires a positive total budget")
    stages ← iterate c.batch_size_schedule
    select_batch (share progress total) (inl c.batch_size) stages

  -- The loop of `training_shape_at`, which selects a stage.
  unfoldable pub select_shape : R → ShapeStage R → List (ShapeStage R) → Result (ShapeStage R)
  select_shape fraction selected [] = ok selected
  select_shape fraction selected (ShapeStage.malformed ∷ stages) = err key_error
  select_shape fraction selected (ShapeStage.shape start size tokens ∷ stages) =
      float_of start >>= λ begin.
      if fraction ≺ begin
      then ok selected
      else select_shape fraction (ShapeStage.shape start size tokens) stages

  -- `int(selected["batch_size"]), int(selected["context_tokens"])`.
  abbrev pub read_shape : ShapeStage R → Result ((ℕ ⊎ ℕ) × (ℕ ⊎ ℕ))
  read_shape ShapeStage.malformed = err key_error
  read_shape (ShapeStage.shape start size tokens) = do
    n ← int_of size
    context ← int_of tokens
    ok (n, context)

  -- `training_shape_at` after its first guard; an empty value falls back to the fixed context.
  unfoldable pub shape_of :
      TrainingConfig R → R → R → Field (ShapeStage R) → Result ((ℕ ⊎ ℕ) × (ℕ ⊎ ℕ))
  shape_of c progress total (Field.sequence []) = do
    n ← batch_size_at c progress total
    ok (n, inl c.context_tokens)
  shape_of c progress total (Field.scalar false) = do
    n ← batch_size_at c progress total
    ok (n, inl c.context_tokens)
  shape_of c progress total (Field.scalar true) = err (type_error "object is not subscriptable")
  shape_of c progress total (Field.sequence (stage ∷ stages)) = do
    selected ← select_shape (share progress total) stage (stage ∷ stages)
    read_shape selected

  unfoldable pub training_shape_at : TrainingConfig R → R → R → Result ((ℕ ⊎ ℕ) × (ℕ ⊎ ℕ))
  training_shape_at c progress total = do
    raise_if (total ≼ of_nat 0) (value_error "shape schedule requires a positive total budget")
    shape_of c progress total c.train_shape_schedule
