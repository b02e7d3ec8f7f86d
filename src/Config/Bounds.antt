-- ===== src/Config/Bounds.antt =====
-- An experiment that passes its checks never trains on a context longer than its model allows.
use ztok.Common.{
  ℕ, ◌≤◌, ◌≡◌, sym, ◌∙◌, ◌⊎◌, inl, Bool, true, false, List, [], ◌∷◌, Option, ok, for_each,
  for_each-All, All, arith, ltb, >>=-eq-ok, raise_if-eq-ok, subst,
}
use ztok.Common.Floats.{Floats, IsOrdered, of_nat, neg, ◌≼◌}
use ztok.Config.{Field, BatchStage, ShapeStage}
use ztok.Config.Training.{validate, fixed_group, check_shape_stages}
use ztok.Config.Schedule.{iterate, training_shape_at, share}
use ztok.Config.Stages.{in_force, check_shape_stages-head}
use ztok.Config.Reading.{shapes, batch_sizes, both-injective}
use ztok.Config.Laws.{validate-Checked, in_force-All}
use ztok.Config.Shapes.{shape, shape_in_force, training_shape_at-Checked}
use ztok.Config.Experiment.{
  ExperimentConfig, check_names, validate_model, check_stage_context, validate_experiment,
}

module _ {R : Type 0} ⦃fl : Floats R⦄ (truncate : R → ℕ ⊎ ℕ) where
  contexts_bounded :
      (longest : ℕ) (group : Option ℕ) (first : Bool) (previous : R) (context : ℕ)
      (stages : List (ShapeStage R))
      → check_shape_stages group first previous context stages ≡ ok tt
      → All (λ s. check_stage_context truncate longest s ≡ ok tt) stages
      → All (λ s. s.1.1 ≤ longest) (shapes stages)
  unfolding check_shape_stages check_stage_context
  contexts_bounded longest group first previous context [] h a = tt
  contexts_bounded longest group first previous context (ShapeStage.malformed ∷ stages) h a = cc
  contexts_bounded longest group first previous context
        (ShapeStage.shape start size tokens ∷ stages) h a =
      let (f, n, k, start_is, size_is, tokens_is, _, _, _, _, _, _, rest) =
        check_shape_stages-head group first previous context start size tokens stages h in
      let ih = contexts_bounded longest group false f k stages rest a.1 in
      let passed = a.0 in rw (size_is, tokens_is, start_is) (ground arith, ih)

  iterate-eq-ok :
      {A : Type 0} (field : Field A) {xs : List A}
      → iterate field ≡ ok xs
      → field ≡ Field.sequence xs
  iterate-eq-ok field h = ground arith

  sequence-injective :
      {A : Type 0} (xs ys : List A) → Field.sequence xs ≡ Field.sequence ys → xs ≡ ys
  sequence-injective xs ys h = cc

  -- On ordered floats and for a positive budget the context of an experiment that passes its checks is never longer than the model's
  -- longest sequence, whatever the progress.
  pub training_shape_at-bounded :
      (ordered : IsOrdered fl) (e : ExperimentConfig R) (progress total : R) {n k : ℕ}
      → (total ≼ of_nat 0) ≡ false
      → validate_experiment truncate e ≡ ok tt
      → training_shape_at truncate e.training progress total ≡ ok (inl n, inl k)
      → k ≤ e.model.max_sequence_length
  unfolding validate_experiment
  training_shape_at-bounded ordered e progress total {n} {k} positive valid at =
      let longest = e.model.max_sequence_length in
      let c = e.training in
      let (_, _, h₁) = >>=-eq-ok (check_names e) _ valid in
      let (_, _, h₂) = >>=-eq-ok (validate_model e.model) _ h₁ in
      let (_, trained, h₃) = >>=-eq-ok (validate c) _ h₂ in
      let (fits, h₄) = raise_if-eq-ok (ltb longest c.context_tokens) _ _ h₃ in
      let (looped, is_looped, h₅) = >>=-eq-ok (iterate c.train_shape_schedule) _ h₄ in
      let (_, passed, _) =
        >>=-eq-ok (for_each (check_stage_context truncate longest) looped) _ h₅ in
      let (batches, stages, checked) = validate-Checked c trained in
      let (_, is_stages, _, hs, _, _, _) = checked in
      let same =
        sequence-injective looped stages
          (sym (iterate-eq-ok c.train_shape_schedule is_looped) ∙ is_stages) in
      let all = for_each-All (check_stage_context truncate longest) looped passed in
      let bounds =
        contexts_bounded longest (fixed_group c) true (neg (of_nat 1)) 0 stages hs
          (subst (λ ss. All (λ s. check_stage_context truncate longest s ≡ ok tt) ss) same all) in
      let fraction = share progress total in
      let made =
        training_shape_at-Checked ordered truncate c progress total batches stages positive
          checked in
      let is_k = both-injective (shape c batches stages fraction) (n, k) (sym made ∙ at) in
      subst (λ x. x ≤ longest) is_k (go batches fraction (shapes stages) fits bounds)
    where
      go :
          (batches : List (BatchStage R)) (fraction : R) (ss : List (R × (ℕ × ℕ)))
          → ltb e.model.max_sequence_length e.training.context_tokens ≡ false
          → All (λ s. s.1.1 ≤ e.model.max_sequence_length) ss
          → (shape_in_force fraction
              (
                in_force fraction e.training.batch_size (batch_sizes batches),
                e.training.context_tokens,
              )
              ss).1
            ≤ e.model.max_sequence_length
      go batches fraction [] fits bounds = ground arith
      go batches fraction (s ∷ ss) fits bounds =
          in_force-All (λ p. p.1 ≤ e.model.max_sequence_length) fraction s.1 ss bounds.0 bounds.1
