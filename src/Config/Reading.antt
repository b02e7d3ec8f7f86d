-- ===== src/Config/Reading.antt =====
-- What the loops over a checked schedule read from it.
use ztok.Common.{
  ℕ, ◌≤◌, ◌≡◌, refl, ◌⊎◌, inl, inr, Bool, false, List, [], ◌∷◌, Option, none, some, Result, ok,
  ◌>>=◌, arith, Bool-cases, All,
}
use ztok.Common.Floats.{Floats, ◌≺◌}
use ztok.Config.{Scalar, BatchStage, ShapeStage, number}
use ztok.Config.Training.{check_batch_stages, check_shape_stages}
use ztok.Config.Schedule.{select_batch, select_shape, float_of, read_shape}
use ztok.Config.Stages.{
  Increasing, until, check_batch_stages-head, check_shape_stages-head, Divides,
}

-- `read_shape` gives the two natural numbers of a pair.
abbrev pub both : ℕ × ℕ → Result ((ℕ ⊎ ℕ) × (ℕ ⊎ ℕ))
both p = ok (inl p.0, inl p.1)

pub both-injective : (p q : ℕ × ℕ) → both p ≡ both q → p.1 ≡ q.1
both-injective p q h = cc

module _ {R : Type 0} ⦃fl : Floats R⦄ where
  -- The starts and sizes of the stages that are well formed.
  abbrev pub batch_sizes : List (BatchStage R) → List (R × ℕ)
  batch_sizes [] = []
  batch_sizes (BatchStage.stage start (Scalar.pos n) ∷ stages) =
      let rest = batch_sizes stages in elim (number start) [ none ↦ rest | some f ↦ (f, n) ∷ rest ]
  batch_sizes (_ ∷ stages) = batch_sizes stages

  -- The starts of the shape stages, with their sizes and contexts.
  abbrev pub shapes : List (ShapeStage R) → List (R × (ℕ × ℕ))
  shapes [] = []
  shapes (ShapeStage.shape start (Scalar.pos n) (Scalar.pos context) ∷ stages) =
      let rest = shapes stages in
      elim (number start) [ none ↦ rest | some f ↦ (f, (n, context)) ∷ rest ]
  shapes (_ ∷ stages) = shapes stages

  -- Contexts do not shrink.
  abbrev pub Growing : ℕ → List (R × (ℕ × ℕ)) → Type 0
  Growing context [] = Unit
  Growing context (s ∷ ss) = (context ≤ s.1.1) × Growing s.1.1 ss

  abbrev pub ShapeFits : Option ℕ → R × (ℕ × ℕ) → Type 0
  ShapeFits group s = (1 ≤ s.1.0) × (2 ≤ s.1.1) × Divides group s.1.1

  pub check_batch_stages-Increasing :
      (base : ℕ) (first : Bool) (previous : R) (stages : List (BatchStage R))
      → check_batch_stages base first previous stages ≡ ok tt
      → Increasing previous (batch_sizes stages)
        × All (λ s. (1 ≤ s.1) × (s.1 ≤ 512)) (batch_sizes stages)
  unfolding check_batch_stages
  check_batch_stages-Increasing base first previous [] h = (tt, tt)
  check_batch_stages-Increasing base first previous (BatchStage.malformed ∷ stages) h = cc
  check_batch_stages-Increasing base first previous (BatchStage.stage start size ∷ stages) h =
      let (f, n, start_is, size_is, lo, hi, inc, rest) =
        check_batch_stages-head base first previous start size stages h in
      let (i, a) = check_batch_stages-Increasing base false f stages rest in
      rw (size_is, start_is) ((inc, i), ((lo, hi), a))

  pub check_shape_stages-Increasing :
      (group : Option ℕ) (first : Bool) (previous : R) (context : ℕ) (stages : List (ShapeStage R))
      → check_shape_stages group first previous context stages ≡ ok tt
      → Increasing previous (shapes stages)
        × Growing context (shapes stages)
        × All (ShapeFits group) (shapes stages)
  unfolding check_shape_stages
  check_shape_stages-Increasing group first previous context [] h = (tt, tt, tt)
  check_shape_stages-Increasing group first previous context (ShapeStage.malformed ∷ stages) h = cc
  check_shape_stages-Increasing group first previous context
        (ShapeStage.shape start size tokens ∷ stages) h =
      let (f, n, k, start_is, size_is, tokens_is, lo, hi, two, grows, div, inc, rest) =
        check_shape_stages-head group first previous context start size tokens stages h in
      let (i, g, a) = check_shape_stages-Increasing group false f k stages rest in
      rw (size_is, tokens_is, start_is) ((inc, i), (grows, g), ((lo, two, div), a))

module _ {R : Type 0} ⦃fl : Floats R⦄ (truncate : R → ℕ ⊎ ℕ) where
  number-float_of : (s : Scalar R) {f : R} → number s ≡ some f → float_of truncate s ≡ ok f
  number-float_of s h = ground arith

  pub select_batch-until :
      (base : ℕ) (first : Bool) (previous : R) (stages : List (BatchStage R))
      → check_batch_stages base first previous stages ≡ ok tt
      → (fraction : R) (selected : ℕ)
      → select_batch truncate fraction (inl selected) stages
        ≡ ok (inl (until fraction selected (batch_sizes stages)))
  unfolding select_batch check_batch_stages
  select_batch-until base first previous [] h fraction selected = refl
  select_batch-until base first previous (BatchStage.malformed ∷ stages) h fraction selected = cc
  select_batch-until base first previous (BatchStage.stage start size ∷ stages) h fraction
        selected =
      let (f, n, start_is, size_is, lo, hi, inc, rest) =
        check_batch_stages-head base first previous start size stages h in
      let ih = select_batch-until base false f stages rest fraction n in
      rw (size_is, start_is, number-float_of start start_is)
        (elim (Bool-cases (fraction ≺ f)) [ inl e ↦ rw e refl | inr e ↦ rw (e, ih) refl ])

  pub select_shape-until :
      (group : Option ℕ) (first : Bool) (previous : R) (context : ℕ) (stages : List (ShapeStage R))
      → check_shape_stages group first previous context stages ≡ ok tt
      → (fraction : R) (stage : ShapeStage R) (selected : ℕ × ℕ)
      → read_shape truncate stage ≡ both selected
      → (select_shape truncate fraction stage stages >>= read_shape truncate)
        ≡ both (until fraction selected (shapes stages))
  unfolding select_shape check_shape_stages
  select_shape-until group first previous context [] h fraction stage selected e = e
  select_shape-until group first previous context (ShapeStage.malformed ∷ stages) h fraction stage
        selected e =
      cc
  select_shape-until group first previous context (ShapeStage.shape start size tokens ∷ stages) h
        fraction stage selected e =
      let (f, n, k, start_is, size_is, tokens_is, lo, hi, two, grows, div, inc, rest) =
        check_shape_stages-head group first previous context start size tokens stages h in
      let ih =
        select_shape-until group false f k stages rest fraction
          (ShapeStage.shape start (Scalar.pos n) (Scalar.pos k)) (n, k) refl in
      rw (size_is, tokens_is, start_is, number-float_of start start_is)
        (elim (Bool-cases (fraction ≺ f)) [ inl q ↦ rw q e | inr q ↦ rw q ih ])
