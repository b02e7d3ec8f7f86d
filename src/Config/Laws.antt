-- ===== src/Config/Laws.antt =====
-- A configuration that passes `validate` has a batch size and a context at every share of its
-- budget.
use ztok.Common.{
  ℕ, ◌≤◌, ◌≡◌, refl, ◌⊎◌, inl, ◌∙◌, ap, true, false, List, [], ◌∷◌, String, ok, arith,
  if◌then◌else◌, >>=-eq-ok, raise_if-eq-ok, All, All-mono,
}
use ztok.Common.Floats.{Floats, IsOrdered, of_nat, neg, ◌≺◌, ◌≼◌}
use ztok.Config.{Field, BatchStage, ShapeStage, TrainingConfig}
use ztok.Config.Training.{
  validate, check_kinds, check_multipliers, check_optimizer, check_controls, check_schedules,
  check_primer, check_batch_stages, check_shape_stages, sequence_of, fixed_group,
}
use ztok.Config.Schedule.{batch_size_at, share}
use ztok.Config.Stages.{in_force, until-in_force, Divides, divides}
use ztok.Config.Reading.{batch_sizes, Growing, check_batch_stages-Increasing, select_batch-until}

sequence_of-eq-ok :
    {A : Type 0} (field : Field A) (m : String) {xs : List A}
    → sequence_of field m ≡ ok xs
    → field ≡ Field.sequence xs
sequence_of-eq-ok field m h = ground arith

module _ {R : Type 0} ⦃fl : Floats R⦄ where
  -- What `validate` says about the sizes and the schedules.
  abbrev pub Checked : TrainingConfig R → List (BatchStage R) → List (ShapeStage R) → Type 0
  Checked c batches stages =
      (c.batch_size_schedule ≡ Field.sequence batches)
      × (c.train_shape_schedule ≡ Field.sequence stages)
      × (check_batch_stages c.batch_size true (neg (of_nat 1)) batches ≡ ok tt)
      × (check_shape_stages (fixed_group c) true (neg (of_nat 1)) 0 stages ≡ ok tt)
      × (1 ≤ c.batch_size)
      × (2 ≤ c.context_tokens)
      × Divides (fixed_group c) c.context_tokens

  controls :
      (c : TrainingConfig R)
      → check_controls c ≡ ok tt
      → (1 ≤ c.batch_size) × (2 ≤ c.context_tokens)
  unfolding check_controls
  controls c h = (ground arith, ground arith)

  pub validate-Checked :
      (c : TrainingConfig R)
      → validate c ≡ ok tt
      → (batches : List (BatchStage R)) × (stages : List (ShapeStage R)) × Checked c batches stages
  unfolding validate check_schedules check_primer
  validate-Checked c h =
      let (_, _, h₁) = >>=-eq-ok (check_kinds c) _ h in
      let (_, _, h₂) = >>=-eq-ok (check_multipliers c) _ h₁ in
      let (_, _, h₃) = >>=-eq-ok (check_optimizer c) _ h₂ in
      let (_, e, h₄) = >>=-eq-ok (check_controls c) _ h₃ in
      let (_, s, h₅) = >>=-eq-ok (check_schedules c) _ h₄ in
      let (batches, b, s₁) = >>=-eq-ok (sequence_of c.batch_size_schedule _) _ s in
      let (_, cb, s₂) =
        >>=-eq-ok (check_batch_stages c.batch_size true (neg (of_nat 1)) batches) _ s₁ in
      let (_, s₃) = raise_if-eq-ok _ _ _ s₂ in
      let (stages, t, s₄) = >>=-eq-ok (sequence_of c.train_shape_schedule _) _ s₃ in
      let (d, _) = raise_if-eq-ok _ _ _ h₅ in
      (
        batches,
        stages,
        (
          sequence_of-eq-ok c.batch_size_schedule _ b,
          sequence_of-eq-ok c.train_shape_schedule _ t,
          cb,
          s₄,
          (controls c e).0,
          (controls c e).1,
          divides (fixed_group c) c.context_tokens d,
        ),
      )

  pub in_force-All :
      {A : Type 0} (P : A → Type 0) (fraction : R) (selected : A) (ss : List (R × A))
      → P selected
      → All (λ s. P s.1) ss
      → P (in_force fraction selected ss)
  in_force-All P fraction selected [] p a = p
  in_force-All P fraction selected (s ∷ ss) p a =
      in_force-All P fraction (if fraction ≺ s.0 then selected else s.1) ss (ground arith) a.1

  -- With a later share of the budget the context in force is no shorter.
  pub in_force-grows :
      (ordered : IsOrdered fl) (f g : R) (p q : ℕ × ℕ) (context : ℕ) (ss : List (R × (ℕ × ℕ)))
      → (g ≺ f) ≡ false
      → Growing context ss
      → p.1 ≤ q.1
      → q.1 ≤ context
      → (in_force f p ss).1 ≤ (in_force g q ss).1
  in_force-grows ordered f g p q context [] h grows le bound = le
  in_force-grows ordered f g p q context (s ∷ ss) h grows le bound =
      let cases = ordered.cotrans g f s.0 in
      in_force-grows ordered f g (if f ≺ s.0 then p else s.1) (if g ≺ s.0 then q else s.1) s.1.1 ss
        h grows.1 (ground (arith, cases)) (ground arith)

  pub batch_size_at-Checked :
      (ordered : IsOrdered fl) (truncate : R → ℕ ⊎ ℕ) (c : TrainingConfig R) (progress total : R)
      (batches : List (BatchStage R)) (stages : List (ShapeStage R))
      → (total ≼ of_nat 0) ≡ false
      → Checked c batches stages
      → batch_size_at truncate c progress total
        ≡ ok (inl (in_force (share progress total) c.batch_size (batch_sizes batches)))
  unfolding batch_size_at
  batch_size_at-Checked ordered truncate c progress total batches stages positive
        (is_batches, _, hb, _, _, _, _) =
      let (inc, _) = check_batch_stages-Increasing c.batch_size true (neg (of_nat 1)) batches hb in
      rw (positive, is_batches)
        (select_batch-until truncate c.batch_size true (neg (of_nat 1)) batches hb
            (share progress total) c.batch_size
          ∙ ap (λ n. ok (inl n))
              (until-in_force ordered (share progress total) (neg (of_nat 1)) c.batch_size
                (batch_sizes batches) inc))

  pub batch_in_force-positive :
      (c : TrainingConfig R) (fraction : R) (batches : List (BatchStage R))
      (stages : List (ShapeStage R))
      → Checked c batches stages
      → 1 ≤ in_force fraction c.batch_size (batch_sizes batches)
  batch_in_force-positive c fraction batches stages (_, _, hb, _, one, _, _) =
      let (_, bounds) =
        check_batch_stages-Increasing c.batch_size true (neg (of_nat 1)) batches hb in
      in_force-All (λ n. 1 ≤ n) fraction c.batch_size (batch_sizes batches) one
        (All-mono (λ s. (1 ≤ s.1) × (s.1 ≤ 512)) (λ s. 1 ≤ s.1) (batch_sizes batches) (λ s b. b.0)
          bounds)

  -- On ordered floats a checked batch schedule gives, for a positive budget, the size of the last stage that has
  -- begun at the used share, or `batch_size` if there is none; it is at least one.
  pub batch_size_at-in_force :
      (ordered : IsOrdered fl) (truncate : R → ℕ ⊎ ℕ) (c : TrainingConfig R) (progress total : R)
      → (total ≼ of_nat 0) ≡ false
      → validate c ≡ ok tt
      → (stages : List (BatchStage R)) × (n : ℕ) × (c.batch_size_schedule ≡ Field.sequence stages)
        × (n ≡ in_force (share progress total) c.batch_size (batch_sizes stages))
        × (1 ≤ n)
        × (batch_size_at truncate c progress total ≡ ok (inl n))
  batch_size_at-in_force ordered truncate c progress total positive valid =
      let (batches, stages, checked) = validate-Checked c valid in
      let n = in_force (share progress total) c.batch_size (batch_sizes batches) in
      (
        batches,
        n,
        checked.0,
        refl,
        batch_in_force-positive c (share progress total) batches stages checked,
        batch_size_at-Checked ordered truncate c progress total batches stages positive checked,
      )
