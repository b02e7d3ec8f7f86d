-- ===== src/Config/Stages.antt =====
-- The stages of a checked schedule, and the value in force at a share of the budget.
use ztok.Common.{
  ℕ, ◌≤◌, ◌≡◌, refl, inl, inr, sym, Bool, true, false, not, ◌&&◌, List, [], ◌∷◌, Option, none, some,
  String, ok, arith, if◌then◌else◌, ltb, ◌==◌, ◌%◌, Bool-cases, >>=-eq-ok, raise_if-eq-ok,
}
use ztok.Common.Floats.{Floats, IsOrdered, of_nat, ◌≺◌, ◌≼◌, ◌≈◌}
use ztok.Config.{Scalar, BatchStage, ShapeStage, number}
use ztok.Config.Training.{fraction_of, size_of, context_of, check_batch_stages, check_shape_stages}

-- The group size of a fixed representation divides a context.
abbrev pub Divides : Option ℕ → ℕ → Type 0
Divides none context = Unit
Divides (some g) context = context % g ≡ 0

pub divides :
    (group : Option ℕ) (context : ℕ)
    → elim group [ none ↦ false | some g ↦ not (context % g == 0) ] ≡ false
    → Divides group context
divides none context h = tt
divides (some g) context h = ground arith

module _ {R : Type 0} ⦃fl : Floats R⦄ where
  -- The starts of the stages increase from `previous` on.
  abbrev pub Increasing : {A : Type 0} → R → List (R × A) → Type 0
  Increasing previous [] = Unit
  Increasing previous (s ∷ ss) = ((s.0 ≼ previous) ≡ false) × Increasing s.0 ss

  -- The value of the last stage that has begun, or else `selected`.
  abbrev pub in_force : {A : Type 0} → R → A → List (R × A) → A
  in_force fraction selected [] = selected
  in_force fraction selected (s ∷ ss) =
      in_force fraction (if fraction ≺ s.0 then selected else s.1) ss

  -- The same, up to the first stage that has not begun.
  abbrev pub until : {A : Type 0} → R → A → List (R × A) → A
  until fraction selected [] = selected
  until fraction selected (s ∷ ss) =
      let rest = until fraction s.1 ss in if fraction ≺ s.0 then selected else rest

module _ {R : Type 0} ⦃fl : Floats R⦄ (ordered : IsOrdered fl) where
  lt_next : (fraction f g : R) → (fraction ≺ f) ≡ true → (g ≼ f) ≡ false → (fraction ≺ g) ≡ true
  lt_next fraction f g h k = ground (arith, ordered.le_lt g f, ordered.trans fraction f g)

  not_begun :
      {A : Type 0} (fraction f : R) (selected : A) (ss : List (R × A))
      → (fraction ≺ f) ≡ true
      → Increasing f ss
      → in_force fraction selected ss ≡ selected
  not_begun fraction f selected [] h i = refl
  not_begun fraction f selected (s ∷ ss) h i =
      let k = lt_next fraction f s.0 h i.0 in rw k (not_begun fraction s.0 selected ss k i.1)

  pub until-in_force :
      {A : Type 0} (fraction previous : R) (selected : A) (ss : List (R × A))
      → Increasing previous ss
      → until fraction selected ss ≡ in_force fraction selected ss
  until-in_force fraction previous selected [] i = refl
  until-in_force fraction previous selected (s ∷ ss) i = elim (Bool-cases (fraction ≺ s.0)) [
    | inl h ↦ rw h (sym (not_begun fraction s.0 selected ss h i.1))
    | inr h ↦ rw h (until-in_force fraction s.0 s.1 ss i.1)
  ]

module _ {R : Type 0} ⦃fl : Floats R⦄ where
  pub fraction_of-eq-ok :
      (s : Scalar R) (m : String) {f : R} → fraction_of s m ≡ ok f → number s ≡ some f
  unfolding fraction_of
  fraction_of-eq-ok s m h = ground arith

  pub size_of-eq-ok :
      (s : Scalar R) {n : ℕ} → size_of s ≡ ok n → (s ≡ Scalar.pos n) × (1 ≤ n) × (n ≤ 512)
  unfolding size_of
  size_of-eq-ok (Scalar.pos k) h = (ground arith, ground arith, ground arith)
  size_of-eq-ok (Scalar.negsuc k) h = cc
  size_of-eq-ok (Scalar.float x) h = cc
  size_of-eq-ok (Scalar.bool b) h = cc
  size_of-eq-ok Scalar.other h = cc

  pub context_of-eq-ok : (s : Scalar R) {n : ℕ} → context_of s ≡ ok n → (s ≡ Scalar.pos n) × (2 ≤ n)
  unfolding context_of
  context_of-eq-ok (Scalar.pos k) h = (ground arith, ground arith)
  context_of-eq-ok (Scalar.negsuc k) h = cc
  context_of-eq-ok (Scalar.float x) h = cc
  context_of-eq-ok (Scalar.bool b) h = cc
  context_of-eq-ok Scalar.other h = cc

  -- What a round of the loop over batch stages has checked.
  pub check_batch_stages-head :
      (base : ℕ) (first : Bool) (previous : R) (start size : Scalar R)
      (stages : List (BatchStage R))
      → check_batch_stages base first previous (BatchStage.stage start size ∷ stages) ≡ ok tt
      → (f : R) × (n : ℕ) × (number start ≡ some f)
        × (size ≡ Scalar.pos n)
        × (1 ≤ n)
        × (n ≤ 512)
        × ((f ≼ previous) ≡ false)
        × (check_batch_stages base false f stages ≡ ok tt)
  unfolding check_batch_stages
  check_batch_stages-head base first previous start size stages h =
      let (f, hf, h₁) = >>=-eq-ok (fraction_of start _) _ h in
      let (n, hn, h₂) = >>=-eq-ok (size_of size) _ h₁ in
      let (inc, h₃) = raise_if-eq-ok (f ≼ previous) _ _ h₂ in
      let (zero, h₄) = raise_if-eq-ok (first && not (f ≈ of_nat 0)) _ _ h₃ in
      let (_, h₅) = raise_if-eq-ok (first && not (n == base)) _ _ h₄ in
      let (size_is, lo, hi) = size_of-eq-ok size hn in
      (f, n, fraction_of-eq-ok start _ hf, size_is, lo, hi, inc, h₅)

  -- What a round of the loop over shape stages has checked.
  pub check_shape_stages-head :
      (group : Option ℕ) (first : Bool) (previous : R) (context : ℕ) (start size tokens : Scalar R)
      (stages : List (ShapeStage R))
      → check_shape_stages group first previous context
          (ShapeStage.shape start size tokens ∷ stages)
        ≡ ok tt
      → (f : R) × (n : ℕ) × (k : ℕ) × (number start ≡ some f)
        × (size ≡ Scalar.pos n)
        × (tokens ≡ Scalar.pos k)
        × (1 ≤ n)
        × (n ≤ 512)
        × (2 ≤ k)
        × (context ≤ k)
        × Divides group k
        × ((f ≼ previous) ≡ false)
        × (check_shape_stages group false f k stages ≡ ok tt)
  unfolding check_shape_stages
  check_shape_stages-head group first previous context start size tokens stages h =
      let (f, hf, h₁) = >>=-eq-ok (fraction_of start _) _ h in
      let (n, hn, h₂) = >>=-eq-ok (size_of size) _ h₁ in
      let (k, hk, h₃) = >>=-eq-ok (context_of tokens) _ h₂ in
      let (inc, h₄) = raise_if-eq-ok (f ≼ previous) _ _ h₃ in
      let (zero, h₅) = raise_if-eq-ok (first && not (f ≈ of_nat 0)) _ _ h₄ in
      let (grows, h₆) = raise_if-eq-ok (ltb k context) _ _ h₅ in
      let (div, h₇) =
        raise_if-eq-ok (elim group [ none ↦ false | some g ↦ not (k % g == 0) ]) _ _ h₆ in
      let (size_is, lo, hi) = size_of-eq-ok size hn in
      let (tokens_is, two) = context_of-eq-ok tokens hk in
      (
        f,
        n,
        k,
        fraction_of-eq-ok start _ hf,
        size_is,
        tokens_is,
        lo,
        hi,
        two,
        ground arith,
        divides group k div,
        inc,
        h₇,
      )
