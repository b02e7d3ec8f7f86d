-- ===== src/Recovery/Laws.antt =====
-- About the phases of a run and its superposition over time.
use ztok.Common.{
  ℕ, ◌≤◌, ◌≡◌, refl, inl, inr, true, false, ok, arith, >>=-eq-ok, ap, Bool, raise_if-eq-ok,
  ok-injective, Bool-cases,
}
use ztok.Common.Floats.{Floats, IsOrdered, of_nat, ◌⊕◌, ◌⊘◌, ◌≺◌, ◌≼◌, min_f, max_f}
use ztok.Recovery.{RecoverySchedule, Phase, phase, phase_at, use_superposition, clamped}

abbrev pub rank : Phase → ℕ
rank Phase.coarse = 0
rank Phase.mixed = 1
rank Phase.ordinary = 2

-- Whether groups are superposed in a phase, by chance in the mixed one.
abbrev superposed : Phase → Bool → Bool
superposed p chance = elim p [ Phase.coarse ↦ true | Phase.ordinary ↦ false | Phase.mixed ↦ chance ]

superposed-earlier :
    (p q : Phase) (chance chance' : Bool)
    → rank p ≤ rank q
    → (chance ≡ true → chance' ≡ true)
    → superposed q chance ≡ true
    → superposed p chance' ≡ true
superposed-earlier Phase.coarse q b c l f h = refl
superposed-earlier Phase.mixed Phase.coarse b c l f h = absurd (omega arith)
superposed-earlier Phase.mixed Phase.mixed b c l f h = f h
superposed-earlier Phase.mixed Phase.ordinary b c l f h = cc
superposed-earlier Phase.ordinary Phase.coarse b c l f h = absurd (omega arith)
superposed-earlier Phase.ordinary Phase.mixed b c l f h = absurd (omega arith)
superposed-earlier Phase.ordinary Phase.ordinary b c l f h = cc

module _ {R : Type 0} ⦃fl : Floats R⦄ (ordered : IsOrdered fl) where
  -- What is not below is not below by less.
  not_lt_trans : (a b c : R) → (b ≺ a) ≡ false → (c ≺ b) ≡ false → (c ≺ a) ≡ false
  not_lt_trans a b c h k = elim (Bool-cases (c ≺ a)) [
    | inr e ↦ e
    | inl e ↦ ground (arith, ordered.cotrans c b a e)
  ]

  max_f_mono : (a b c : R) → (b ≺ a) ≡ false → (max_f b c ≺ max_f a c) ≡ false
  max_f_mono a b c h = ground (
    arith,
    not_lt_trans a b c,
    ordered.irrefl c,
    not_lt_trans a c b,
    not_lt_trans c a b,
    not_lt_trans c b a,
    ordered.trans a c b,
    ordered.trans b c a,
  )

  min_f_mono : (a b c : R) → (b ≺ a) ≡ false → (min_f b c ≺ min_f a c) ≡ false
  min_f_mono a b c h = ground (
    arith,
    not_lt_trans a b c,
    ordered.irrefl c,
    ordered.irrefl a,
    ordered.trans c b a,
    ordered.trans c a b,
    ordered.trans b c a,
    ordered.trans b a c,
  )

  pub clamped_mono :
      (consumed later total : R)
      → (later ⊘ total ≺ consumed ⊘ total) ≡ false
      → (clamped later total ≺ clamped consumed total) ≡ false
  clamped_mono consumed later total h =
      min_f_mono (max_f (consumed ⊘ total) (of_nat 0)) (max_f (later ⊘ total) (of_nat 0)) (of_nat 1)
        (max_f_mono (consumed ⊘ total) (later ⊘ total) (of_nat 0) h)

  phase_at_mono :
      (s : RecoverySchedule R) (f g : R)
      → (g ≺ f) ≡ false
      → rank (phase_at s f) ≤ rank (phase_at s g)
  phase_at_mono s f g h = ground (
    arith,
    not_lt_trans s.coarse_fraction f g,
    not_lt_trans (s.coarse_fraction ⊕ s.mixed_fraction) f g,
  )

  -- On ordered floats, as long as the used share of the budget does not fall, the phase never goes back: from coarse
  -- over mixed to ordinary.
  pub phase_forward :
      (s : RecoverySchedule R) (consumed later total : R) {p q : Phase}
      → (later ⊘ total ≺ consumed ⊘ total) ≡ false
      → phase s consumed total ≡ ok p
      → phase s later total ≡ ok q
      → rank p ≤ rank q
  unfolding phase
  phase_forward s consumed later total {p} {q} share hp hq =
      let (_, ep) = raise_if-eq-ok (total ≼ of_nat 0) _ _ hp in
      let (_, eq) = raise_if-eq-ok (total ≼ of_nat 0) _ _ hq in
      let first = ok-injective (phase_at s (clamped consumed total)) p ep in
      let second = ok-injective (phase_at s (clamped later total)) q eq in
      rw (← first, ← second)
        (phase_at_mono s (clamped consumed total) (clamped later total)
          (clamped_mono consumed later total share))

  -- On ordered floats: if groups are superposed for a random value, they are superposed as well
  -- for a random value that is not above it, at any time of the run at which the used share of the
  -- budget is not above either.
  pub use_superposition_mono :
      (s : RecoverySchedule R) (consumed later total lower random_value : R)
      → (later ⊘ total ≺ consumed ⊘ total) ≡ false
      → (random_value ≺ lower) ≡ false
      → use_superposition s later total random_value ≡ ok true
      → use_superposition s consumed total lower ≡ ok true
  unfolding use_superposition phase
  use_superposition_mono s consumed later total lower v share below h =
      let (q, is, on) = >>=-eq-ok (phase s later total) _ h in
      let (fine, e) = raise_if-eq-ok (total ≼ of_nat 0) _ _ is in
      let now = ok-injective (phase_at s (clamped later total)) q e in
      let forward =
        phase_at_mono s (clamped consumed total) (clamped later total)
          (clamped_mono consumed later total share) in
      let probability = s.mixed_superposition_probability in
      rw fine (
        ap ok (
          superposed-earlier (phase_at s (clamped consumed total)) q (v ≺ probability)
            (lower ≺ probability) (rw (← now) forward)
            (λ hit. ground (arith, ordered.cotrans v lower probability hit))
            (ok-injective (superposed q (v ≺ probability)) true on)))
