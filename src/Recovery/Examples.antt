-- ===== src/Recovery/Examples.antt =====
-- The schedule "50/25/25" at a quarter and at three quarters of the budget.
use ztok.Common.{◌≤◌, ◌≡◌, refl, ok, true}
use ztok.Common.Milli.{Milli, milli, milli-IsOrdered, pos}
use ztok.Common.Floats.{of_nat}
use ztok.Recovery.{RecoverySchedule, Phase, parse, post_init, phase, percent, use_superposition}
use ztok.Recovery.Laws.{phase_forward, use_superposition_mono}

abbrev half : RecoverySchedule Milli
half = record {
  coarse_fraction = percent 50;
  mixed_fraction = percent 25;
  ordinary_fraction = percent 25;
  mixed_superposition_probability = percent 50;
}

parses : parse "50/25/25" ≡ ok half
unfolding parse post_init
parses = refl

early : phase half (of_nat 25) (of_nat 100) ≡ ok Phase.coarse
unfolding phase
early = refl

between : phase half (of_nat 60) (of_nat 100) ≡ ok Phase.mixed
unfolding phase
between = refl

phase_forward_example : 0 ≤ 1
phase_forward_example =
    phase_forward milli-IsOrdered half (of_nat 25) (of_nat 60) (of_nat 100) {p = Phase.coarse}
      {q = Phase.mixed} refl early between

superposed_between : use_superposition half (of_nat 60) (of_nat 100) (pos 400) ≡ ok true
unfolding use_superposition phase
superposed_between = refl

use_superposition_mono_example : use_superposition half (of_nat 55) (of_nat 100) (pos 300) ≡ ok true
use_superposition_mono_example =
    use_superposition_mono milli-IsOrdered half (of_nat 55) (of_nat 60) (of_nat 100) (pos 300)
      (pos 400) refl refl superposed_between
