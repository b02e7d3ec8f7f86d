-- ===== src/Binding/Sharing.antt =====
-- Lists that are made by a comprehension, and lists that are shared out by a number.
use ztok.Common.{
  ℕ, zero, suc, ◌+◌, ◌<◌, ◌≡◌, refl, sym, ap, ◌∙◌, subst, not, ◌&&◌, List, [], ◌∷◌, map, Result, ok,
  map_result, length, filter, ltb, ◌==◌, arith, range_from, sum_by, All, >>=-eq-ok, ok-injective,
}
use ztok.Common.Counting.{bit}

module _ {A B : Type 0} (f : A → Result B) where
  pub map_result-map :
      (g : B → A)
      → ((x : A) (y : B) → f x ≡ ok y → g y ≡ x)
      → (xs : List A) {ys : List B} → map_result f xs ≡ ok ys
      → map g ys ≡ xs
  unfolding map_result
  map_result-map g h [] {ys} e = ap (map g) (sym (ok-injective [] ys e))
  map_result-map g h (x ∷ xs) {ys} e =
      let (v, e₁, k) = >>=-eq-ok (f x) _ e in
      let (vs, e₂, done) = >>=-eq-ok (map_result f xs) _ k in
      ap (map g) (sym (ok-injective (v ∷ vs) ys done))
      ∙ ap (λ z. z ∷ map g vs) (h x v e₁)
      ∙ ap (λ zs. x ∷ zs) (map_result-map g h xs e₂)

  pub map_result-All :
      (P : B → Type 0)
      → ((x : A) (y : B) → f x ≡ ok y → P y)
      → (xs : List A) {ys : List B} → map_result f xs ≡ ok ys
      → All P ys
  unfolding map_result
  map_result-All P h [] {ys} e = subst (All P) (ok-injective [] ys e) tt
  map_result-All P h (x ∷ xs) {ys} e =
      let (v, e₁, k) = >>=-eq-ok (f x) _ e in
      let (vs, e₂, done) = >>=-eq-ok (map_result f xs) _ k in
      subst (All P) (ok-injective (v ∷ vs) ys done) (h x v e₁, map_result-All P h xs e₂)

-- The sum over a list of what only depends on a number of each element.
pub sum_by-key :
    {A : Type 0} (f : A → ℕ) (key : A → ℕ) (h : ℕ → ℕ) (xs : List A)
    → All (λ x. f x ≡ h (key x)) xs
    → sum_by f xs ≡ sum_by h (map key xs)
unfolding sum_by
sum_by-key f key h [] a = refl
sum_by-key f key h (x ∷ xs) a = ground (arith, a.0, sum_by-key f key h xs a.1)

sum_by-zero : (a n : ℕ) → sum_by (λ i. 0) (range_from a n) ≡ 0
unfolding sum_by range_from
sum_by-zero a zero = refl
sum_by-zero a (suc n) = omega (arith, sum_by-zero (suc a) n)

sum_by-bit :
    (k a n : ℕ) → sum_by (λ i. bit (k == i)) (range_from a n) ≡ bit (not (ltb k a) && ltb k (a + n))
unfolding sum_by range_from
sum_by-bit k a zero = ground arith
sum_by-bit k a (suc n) = ground (arith, sum_by-bit k (suc a) n)

sum_by-plus : (f g : ℕ → ℕ) (xs : List ℕ) → sum_by (λ i. f i + g i) xs ≡ sum_by f xs + sum_by g xs
unfolding sum_by
sum_by-plus f g [] = refl
sum_by-plus f g (x ∷ xs) = omega (arith, sum_by-plus f g xs)

sum_by_congr : (f g : ℕ → ℕ) (xs : List ℕ) → ((x : ℕ) → f x ≡ g x) → sum_by f xs ≡ sum_by g xs
unfolding sum_by
sum_by_congr f g [] h = refl
sum_by_congr f g (x ∷ xs) h = rw (h x, sum_by_congr f g xs h) refl

-- Sharing a list out by a key below `n` loses nothing.
pub shared_out :
    {A : Type 0} (key : A → ℕ) (n : ℕ) (xs : List A)
    → All (λ x. key x < n) xs
    → sum_by (λ i. length (filter (λ x. key x == i) xs)) (range_from 0 n) ≡ length xs
unfolding filter
shared_out key n [] a = sum_by-zero 0 n
shared_out key n (x ∷ xs) a =
    sum_by_congr _ (λ i. bit (key x == i) + length (filter (λ x. key x == i) xs)) (range_from 0 n)
      (λ i. ground arith)
    ∙ sum_by-plus (λ i. bit (key x == i)) (λ i. length (filter (λ x. key x == i) xs))
        (range_from 0 n)
    ∙ ground (arith, sum_by-bit (key x) 0 n, shared_out key n xs a.1)

pub map-id : {A : Type 0} (xs : List A) → map (λ x. x) xs ≡ xs
map-id [] = refl
map-id (x ∷ xs) = ap (λ ys. x ∷ ys) (map-id xs)

pub All-unmap :
    {A B : Type 0} (P : B → Type 0) (g : A → B) (xs : List A)
    → All P (map g xs)
    → All (λ x. P (g x)) xs
All-unmap P g [] a = tt
All-unmap P g (x ∷ xs) a = (a.0, All-unmap P g xs a.1)

pub All-both :
    {A : Type 0} (P Q S : A → Type 0) (xs : List A)
    → ((x : A) → P x → Q x → S x)
    → All P xs
    → All Q xs
    → All S xs
All-both P Q S [] f p q = tt
All-both P Q S (x ∷ xs) f p q = (f x p.0 q.0, All-both P Q S xs f p.1 q.1)
