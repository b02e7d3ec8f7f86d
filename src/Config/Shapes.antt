-- ===== src/Config/Shapes.antt =====
-- The batch size and the context of a checked configuration, along the budget.
use ztok.Common.{
  ℕ, ◌≤◌, ◌≡◌, refl, ◌⊎◌, inl, inr, ◌∙◌, sym, ap, true, false, List, [], ◌∷◌, ok, arith, Bool-cases,
  All,
}
use ztok.Common.Floats.{Floats, IsOrdered, of_nat, neg, ◌≺◌, ◌≼◌, ◌⊘◌}
use ztok.Config.{Field, BatchStage, ShapeStage, TrainingConfig}
use ztok.Config.Training.{validate, check_shape_stages, fixed_group}
use ztok.Config.Schedule.{training_shape_at, shape_of, share, read_shape}
use ztok.Config.Stages.{in_force, until-in_force}
use ztok.Config.Reading.{
  batch_sizes, shapes, Growing, ShapeFits, check_shape_stages-Increasing, select_shape-until, both,
  both-injective,
}
use ztok.Config.Laws.{
  Checked, validate-Checked, in_force-All, in_force-grows, batch_size_at-Checked,
  batch_in_force-positive,
}
use ztok.Config.Stages.{check_shape_stages-head}
use ztok.Recovery.Laws.{clamped_mono}

module _ {R : Type 0} ⦃fl : Floats R⦄ where
  -- The shape of the last stage that has begun; the first one counts from the start.
  abbrev pub shape_in_force : R → ℕ × ℕ → List (R × (ℕ × ℕ)) → ℕ × ℕ
  shape_in_force fraction fallback [] = fallback
  shape_in_force fraction fallback (s ∷ ss) = in_force fraction s.1 ss

  -- The shape that a checked configuration gives at a share of the budget.
  abbrev pub shape : TrainingConfig R → List (BatchStage R) → List (ShapeStage R) → R → ℕ × ℕ
  shape c batches stages fraction =
      shape_in_force fraction
        (in_force fraction c.batch_size (batch_sizes batches), c.context_tokens) (shapes stages)

  in_force-same :
      (fraction f : R) (p : ℕ × ℕ) (ss : List (R × (ℕ × ℕ)))
      → in_force fraction p ((f, p) ∷ ss) ≡ in_force fraction p ss
  in_force-same fraction f p ss = elim (Bool-cases (fraction ≺ f)) [
    | inl h ↦ rw h refl
    | inr h ↦ rw h refl
  ]

  shape_of-Checked :
      (ordered : IsOrdered fl) (truncate : R → ℕ ⊎ ℕ) (c : TrainingConfig R) (progress total : R)
      (batches : List (BatchStage R)) (stages : List (ShapeStage R))
      → (total ≼ of_nat 0) ≡ false
      → Checked c batches stages
      → shape_of truncate c progress total (Field.sequence stages)
        ≡ both (shape c batches stages (share progress total))
  unfolding shape_of check_shape_stages
  shape_of-Checked ordered truncate c progress total batches [] positive checked =
      rw (batch_size_at-Checked ordered truncate c progress total batches [] positive checked) refl
  shape_of-Checked ordered truncate c progress total batches (ShapeStage.malformed ∷ rest) positive
        (_, _, _, hs, _, _, _) =
      cc
  shape_of-Checked ordered truncate c progress total batches
        (ShapeStage.shape start size tokens ∷ rest) positive (_, _, _, hs, _, _, _) =
      let fraction = share progress total in
      let stages = ShapeStage.shape start size tokens ∷ rest in
      let (f, n, k, start_is, size_is, tokens_is, _, _, _, _, _, _, _) =
        check_shape_stages-head (fixed_group c) true (neg (of_nat 1)) 0 start size tokens rest hs in
      let (inc, _, _) =
        check_shape_stages-Increasing (fixed_group c) true (neg (of_nat 1)) 0 stages hs in
      let reads : read_shape truncate (ShapeStage.shape start size tokens) ≡ both (n, k) =
        rw (size_is, tokens_is) refl in
      let shapes_is : shapes stages ≡ ((f, (n, k)) ∷ shapes rest) =
        rw (size_is, tokens_is, start_is) refl in
      select_shape-until truncate (fixed_group c) true (neg (of_nat 1)) 0 stages hs fraction
        (ShapeStage.shape start size tokens) (n, k) reads
      ∙ ap (both) (
          until-in_force ordered fraction (neg (of_nat 1)) (n, k) (shapes stages) inc
          ∙ ap (in_force fraction (n, k)) shapes_is
          ∙ in_force-same fraction f (n, k) (shapes rest)
          ∙ sym (
              ap
                (shape_in_force fraction
                  (in_force fraction c.batch_size (batch_sizes batches), c.context_tokens))
                shapes_is))

  pub training_shape_at-Checked :
      (ordered : IsOrdered fl) (truncate : R → ℕ ⊎ ℕ) (c : TrainingConfig R) (progress total : R)
      (batches : List (BatchStage R)) (stages : List (ShapeStage R))
      → (total ≼ of_nat 0) ≡ false
      → Checked c batches stages
      → training_shape_at truncate c progress total
        ≡ both (shape c batches stages (share progress total))
  unfolding training_shape_at
  training_shape_at-Checked ordered truncate c progress total batches stages positive checked =
      rw positive (
        ap (shape_of truncate c progress total) checked.1
        ∙ shape_of-Checked ordered truncate c progress total batches stages positive checked)

  -- What a checked configuration says of its shape at any share.
  shape-ShapeFits :
      (c : TrainingConfig R) (batches : List (BatchStage R)) (stages : List (ShapeStage R))
      (fraction : R)
      → Checked c batches stages
      → ShapeFits (fixed_group c) (fraction, shape c batches stages fraction)
  shape-ShapeFits c batches stages fraction checked =
      let (_, _, _, hs, one, two, div) = checked in
      let (_, _, fits) =
        check_shape_stages-Increasing (fixed_group c) true (neg (of_nat 1)) 0 stages hs in
      go (shapes stages) fits
    where
      go :
          (ss : List (R × (ℕ × ℕ)))
          → All (ShapeFits (fixed_group c)) ss
          → ShapeFits (fixed_group c) (
            fraction,
            shape_in_force fraction
                (in_force fraction c.batch_size (batch_sizes batches), c.context_tokens)
                ss,
          )
      go [] fits =
          let (_, _, _, _, _, two, div) = checked in
          (batch_in_force-positive c fraction batches stages checked, two, div)
      go (s ∷ ss) fits =
          in_force-All (λ p. ShapeFits (fixed_group c) (fraction, p)) fraction s.1 ss fits.0 fits.1

  -- On ordered floats a checked configuration has, for a positive budget and at every progress, a batch size of at
  -- least one and a context of at least two tokens, which the group size of a fixed
  -- representation divides: neither the call nor the reading of a stage raises.
  pub training_shape_at-ShapeFits :
      (ordered : IsOrdered fl) (truncate : R → ℕ ⊎ ℕ) (c : TrainingConfig R) (progress total : R)
      → (total ≼ of_nat 0) ≡ false
      → validate c ≡ ok tt
      → (p : ℕ × ℕ) × (training_shape_at truncate c progress total ≡ ok (inl p.0, inl p.1))
        × ShapeFits (fixed_group c) (share progress total, p)
  training_shape_at-ShapeFits ordered truncate c progress total positive valid =
      let (batches, stages, checked) = validate-Checked c valid in
      (
        shape c batches stages (share progress total),
        training_shape_at-Checked ordered truncate c progress total batches stages positive checked,
        shape-ShapeFits c batches stages (share progress total) checked,
      )

  shape-grows :
      (ordered : IsOrdered fl) (c : TrainingConfig R) (batches : List (BatchStage R))
      (stages : List (ShapeStage R)) (f g : R)
      → (g ≺ f) ≡ false
      → Checked c batches stages
      → (shape c batches stages f).1 ≤ (shape c batches stages g).1
  shape-grows ordered c batches stages f g h (_, _, _, hs, _, _, _) =
      let (_, grows, _) =
        check_shape_stages-Increasing (fixed_group c) true (neg (of_nat 1)) 0 stages hs in
      go (shapes stages) grows
    where
      go :
          (ss : List (R × (ℕ × ℕ)))
          → Growing 0 ss
          → (shape_in_force f
              (in_force f c.batch_size (batch_sizes batches), c.context_tokens)
              ss).1
            ≤ (shape_in_force g
                (in_force g c.batch_size (batch_sizes batches), c.context_tokens)
                ss).1
      go [] grows = ground arith
      go (s ∷ ss) grows =
          in_force-grows ordered f g s.1 s.1 s.1.1 ss h grows.1 (ground arith) (ground arith)

  -- On ordered floats and for a positive budget the context of a checked configuration never gets shorter: a later share
  -- of the budget has at least the context of an earlier one.
  pub training_shape_at-grows :
      (ordered : IsOrdered fl) (truncate : R → ℕ ⊎ ℕ) (c : TrainingConfig R)
      (progress later total : R) {n m k l : ℕ}
      → (later ⊘ total ≺ progress ⊘ total) ≡ false
      → (total ≼ of_nat 0) ≡ false
      → validate c ≡ ok tt
      → training_shape_at truncate c progress total ≡ ok (inl n, inl k)
      → training_shape_at truncate c later total ≡ ok (inl m, inl l)
      → k ≤ l
  training_shape_at-grows ordered truncate c progress later total {n} {m} {k} {l} forward positive
        valid at_first at_last =
      let (batches, stages, checked) = validate-Checked c valid in
      let p = shape c batches stages (share progress total) in
      let q = shape c batches stages (share later total) in
      let at_p =
        training_shape_at-Checked ordered truncate c progress total batches stages positive
          checked in
      let at_q =
        training_shape_at-Checked ordered truncate c later total batches stages positive checked in
      let first = both-injective p (n, k) (sym at_p ∙ at_first) in
      let last = both-injective q (m, l) (sym at_q ∙ at_last) in
      let grows =
        shape-grows ordered c batches stages (share progress total) (share later total)
          (clamped_mono ordered progress later total forward) checked in
      ground arith
