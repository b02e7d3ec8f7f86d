-- ===== src/Recovery.antt =====
-- experiments/nanogpt_superposition/superposition/recovery.py: the coarse, mixed and ordinary
-- phases of a run.
pub mod Laws
pub mod Examples
use ztok.Common.{
  ℕ, Bool, true, false, not, ◌||◌, String, Result, ok, err, ◌>>=◌, ◌>>◌, raise_if, value_error,
  str_eq, if◌then◌else◌,
}
use ztok.Common.Floats.{
  Floats, of_nat, neg, ◌⊕◌, ◌⊖◌, ◌⊗◌, ◌⊘◌, ◌≺◌, ◌≼◌, ◌≈◌, min_f, max_f, in_unit,
}

pub record RecoverySchedule (R : Type 0) : Type 0 where
  pub coarse_fraction : R
  pub mixed_fraction : R
  pub ordinary_fraction : R
  pub mixed_superposition_probability : R

pub data Phase : Type 0 where
  coarse mixed ordinary : Phase

module _ {R : Type 0} ⦃fl : Floats R⦄ where
  -- A literal such as 0.25 is the correctly rounded quotient 25 / 100.
  abbrev pub percent : ℕ → R
  percent n = of_nat n ⊘ of_nat 100

  abbrev pub abs : R → R
  abs x = if x ≺ of_nat 0 then neg x else x

  unfoldable pub post_init : RecoverySchedule R → Result (RecoverySchedule R)
  post_init s = do
    raise_if
        (of_nat 1 ⊘ of_nat 1_000_000_000
          ≺ abs ((s.coarse_fraction ⊕ s.mixed_fraction ⊕ s.ordinary_fraction) ⊖ of_nat 1))
        (value_error "recovery fractions must sum to one")
    raise_if (not (in_unit s.mixed_superposition_probability))
        (value_error "mixed probability must be in [0, 1]")
    ok s

  -- `cls(coarse, mixed, ordinary)`, with the default probability 0.5.
  abbrev pub schedule : ℕ → ℕ → ℕ → Result (RecoverySchedule R)
  schedule c m o = post_init (record {
    coarse_fraction = percent c;
    mixed_fraction = percent m;
    ordinary_fraction = percent o;
    mixed_superposition_probability = percent 50;
  })

  unfoldable pub parse : String → Result (RecoverySchedule R)
  parse value =
      if str_eq value "50/25/25"
      then schedule 50 25 25
      else if str_eq value "50/0/50"
      then schedule 50 0 50
      else if str_eq value "75/15/10"
      then schedule 75 15 10
      else if str_eq value "30/30/40"
      then schedule 30 30 40
      else err (value_error "unsupported recovery schedule")

  -- `min(max(consumed_budget / total_budget, 0.0), 1.0)`.
  abbrev pub clamped : R → R → R
  clamped consumed total = min_f (max_f (consumed ⊘ total) (of_nat 0)) (of_nat 1)

  -- The phase at a share of the budget.
  abbrev pub phase_at : RecoverySchedule R → R → Phase
  phase_at s fraction =
      if fraction ≺ s.coarse_fraction
      then Phase.coarse
      else if fraction ≺ s.coarse_fraction ⊕ s.mixed_fraction
      then Phase.mixed
      else Phase.ordinary

  unfoldable pub phase : RecoverySchedule R → R → R → Result Phase
  phase s consumed total = do
    raise_if (total ≼ of_nat 0) (value_error "total budget must be positive")
    ok (phase_at s (clamped consumed total))

  unfoldable pub use_superposition : RecoverySchedule R → R → R → R → Result Bool
  use_superposition s consumed total random_value = do
    p ← phase s consumed total
    ok (elim p [
      | Phase.coarse ↦ true
      | Phase.ordinary ↦ false
      | Phase.mixed ↦ random_value ≺ s.mixed_superposition_probability
    ])

  unfoldable pub learning_rate_multiplier : RecoverySchedule R → R → R → R → R → Result R
  learning_rate_multiplier s consumed total coarse_multiplier ordinary_multiplier = do
    raise_if (total ≼ of_nat 0) (value_error "total budget must be positive")
    raise_if (coarse_multiplier ≼ of_nat 0) (value_error "coarse multiplier must be positive")
    raise_if (ordinary_multiplier ≼ of_nat 0) (value_error "ordinary multiplier must be positive")
    let fraction = clamped consumed total
    let mixed_start = s.coarse_fraction
    let mixed_end = mixed_start ⊕ s.mixed_fraction
    let mixed_progress = (fraction ⊖ mixed_start) ⊘ s.mixed_fraction
    ok (
        if fraction ≺ mixed_start
        then coarse_multiplier
        else if mixed_end ≼ fraction || s.mixed_fraction ≈ of_nat 0
        then ordinary_multiplier
        else coarse_multiplier ⊕ (ordinary_multiplier ⊖ coarse_multiplier) ⊗ mixed_progress)
