-- ===== src/Common/Floats.antt =====
-- Python's `float` as an interface: the operations that the program uses, and the documented
-- behaviour of comparisons on values other than NaN.
use ztok.Common.{ℕ, ◌≡◌, ◌⊎◌, Bool, true, false, not, List, [], ◌∷◌, if◌then◌else◌, ◌&&◌}

pub record Floats (R : Type 0) : Type 0 where
  pub of_nat : ℕ → R
  pub plus : R → R → R
  pub minus : R → R → R
  pub times : R → R → R
  pub over : R → R → R
  pub neg : R → R
  pub lt : R → R → Bool
  pub le : R → R → Bool
  pub eq : R → R → Bool

module _ {R : Type 0} ⦃fl : Floats R⦄ where
  abbrev pub of_nat : ℕ → R
  of_nat n = fl.of_nat n

  infixl 65 ◌⊕◌ ◌⊖◌
  infixl 70 ◌⊗◌ ◌⊘◌
  infix 50 ◌≺◌ ◌≼◌ ◌≈◌
  abbrev pub ◌⊕◌ : R → R → R
  a ⊕ b = fl.plus a b

  abbrev pub ◌⊖◌ : R → R → R
  a ⊖ b = fl.minus a b

  abbrev pub ◌⊗◌ : R → R → R
  a ⊗ b = fl.times a b

  abbrev pub ◌⊘◌ : R → R → R
  a ⊘ b = fl.over a b

  abbrev pub neg : R → R
  neg a = fl.neg a

  abbrev pub ◌≺◌ : R → R → Bool
  a ≺ b = fl.lt a b

  abbrev pub ◌≼◌ : R → R → Bool
  a ≼ b = fl.le a b

  abbrev pub ◌≈◌ : R → R → Bool
  a ≈ b = fl.eq a b

  -- `min(a, b)` and `max(a, b)` keep the first argument unless the second is beyond it.
  abbrev pub min_f : R → R → R
  min_f a b = if b ≺ a then b else a

  abbrev pub max_f : R → R → R
  max_f a b = if a ≺ b then b else a

  -- `0.0 <= x <= 1.0`.
  abbrev pub in_unit : R → Bool
  in_unit x = of_nat 0 ≼ x && x ≼ of_nat 1

  -- `sum(xs)`, which starts from the integer zero.
  unfoldable pub sum_f_from : R → List R → R
  sum_f_from acc [] = acc
  sum_f_from acc (x ∷ xs) = sum_f_from (acc ⊕ x) xs

  unfoldable pub sum_f : List R → R
  unfolding sum_f_from
  sum_f xs = sum_f_from (of_nat 0) xs

-- Comparisons of floats that are not NaN: `<` is a strict order and `<=` is the negation of `>`.
pub record IsOrdered {R : Type 0} (fl : Floats R) : Type 0 where
  pub irrefl : (a : R) → fl.lt a a ≡ false
  pub trans : (a b c : R) → fl.lt a b ≡ true → fl.lt b c ≡ true → fl.lt a c ≡ true
  pub cotrans : (a b c : R) → fl.lt a c ≡ true → (fl.lt a b ≡ true) ⊎ (fl.lt b c ≡ true)
  pub le_lt : (a b : R) → fl.le a b ≡ not (fl.lt b a)
