-- ===== src/Common/Elements.antt =====
-- What holds of all elements of a list, or of the one at an index.
use Prim.Native.Nat.{ℕ, zero, suc, ◌+◌, ◌<◌}
use mathlib.Core.Path.{◌≡◌, refl, ap, subst, subst₂}
use mathlib.Core.Bool.{Bool, true}
use mathlib.Core.List.{List, [], ◌∷◌, map}
use mathlib.Core.Option.{Option, none, some, some-injective}
use native.Mathlib.Omega.{arith}
use ztok.Common.Lists.{
  length, get_elem?, set, All, filter, enumerate_from, flat_map, elem, All-append,
}

module _ {ℓ} {A : Type ℓ} where
  pub length-set : (xs : List A) (i : ℕ) (v : A) → length (set xs i v) ≡ length xs
  length-set [] i v = refl
  length-set (x ∷ xs) zero v = refl
  length-set (x ∷ xs) (suc i) v = ap suc (length-set xs i v)

  -- What holds of every numbered element holds of the one at an index, and back.
  pub All-enumerate_get {κ} :
      (P : ℕ × A → Type κ) (k : ℕ) (xs : List A) (i : ℕ) {x : A}
      → All P (enumerate_from k xs)
      → get_elem? xs i ≡ some x
      → P (k + i, x)
  unfolding enumerate_from
  All-enumerate_get P k [] i h e = cc
  All-enumerate_get P k (y ∷ xs) zero {x} h e =
      subst₂ (λ n a. P (n, a)) (omega arith) (some-injective y x e) h.0
  All-enumerate_get P k (y ∷ xs) (suc i) {x} h e =
      subst (λ n. P (n, x)) (omega arith) (All-enumerate_get P (suc k) xs i h.1 e)

  pub All-enumerate_of {κ} :
      (P : ℕ × A → Type κ) (k : ℕ) (xs : List A)
      → ((i : ℕ) (x : A) → get_elem? xs i ≡ some x → P (k + i, x))
      → All P (enumerate_from k xs)
  unfolding enumerate_from
  All-enumerate_of P k [] h = tt
  All-enumerate_of P k (y ∷ xs) h = (
    subst (λ n. P (n, y)) (omega arith) (h zero y refl),
    All-enumerate_of P (suc k) xs (λ i x e. subst (λ n. P (n, x)) (omega arith) (h (suc i) x e)),
  )

  pub get_elem?_bound : (xs : List A) (i : ℕ) {x : A} → get_elem? xs i ≡ some x → i < length xs
  get_elem?_bound [] i e = cc
  get_elem?_bound (y ∷ xs) zero e = omega arith
  get_elem?_bound (y ∷ xs) (suc i) e = omega (arith, get_elem?_bound xs i e)

  pub All-enumerated {κ} :
      (P : ℕ × A → Type κ) (xs : List A) (i : ℕ) {x : A}
      → All P (enumerate_from 0 xs)
      → get_elem? xs i ≡ some x
      → P (i, x)
  All-enumerated P xs i {x} h e =
      subst (λ n. P (n, x)) (omega arith) (All-enumerate_get P 0 xs i h e)

  pub All-enumerate {κ} :
      (P : ℕ × A → Type κ) (xs : List A)
      → ((i : ℕ) (x : A) → get_elem? xs i ≡ some x → P (i, x))
      → All P (enumerate_from 0 xs)
  All-enumerate P xs h =
      All-enumerate_of P 0 xs (λ i x e. subst (λ n. P (n, x)) (omega arith) (h i x e))

  pub All-of_get {κ} :
      (P : A → Type κ) (xs : List A) → ((i : ℕ) (x : A) → get_elem? xs i ≡ some x → P x) → All P xs
  All-of_get P [] h = tt
  All-of_get P (x ∷ xs) h = (h zero x refl, All-of_get P xs (λ i y e. h (suc i) y e))

  pub filter-All {κ} :
      (P : A → Type κ) (p : A → Bool) (xs : List A) → All P xs → All P (filter p xs)
  unfolding filter
  filter-All P p [] h = tt
  filter-All P p (x ∷ xs) h = ground (arith, filter-All P p xs h.1)

module _ {ℓ κ μ} {A : Type ℓ} {B : Type κ} (P : B → Type μ) (f : A → B) where
  pub All-map : (xs : List A) → All (λ x. P (f x)) xs → All P (map f xs)
  All-map [] h = tt
  All-map (x ∷ xs) h = (h.0, All-map xs h.1)

module _ {ℓ κ} {A : Type ℓ} where
  pub All-set : (P : A → Type κ) (xs : List A) (i : ℕ) (v : A) → All P xs → P v → All P (set xs i v)
  All-set P [] i v h p = tt
  All-set P (x ∷ xs) zero v h p = (p, h.1)
  All-set P (x ∷ xs) (suc i) v h p = (h.0, All-set P xs i v h.1 p)

module _ {ℓ μ} {B : Type ℓ} where
  All-prepend :
      (P : B → Type μ) (o : Option B) (rest : List B)
      → ((y : B) → o ≡ some y → P y)
      → All P rest
      → All P (elim o [ none ↦ rest | some y ↦ y ∷ rest ])
  All-prepend P none rest h p = p
  All-prepend P (some y) rest h p = (h y refl, p)

module _ {ℓ κ} {A : Type ℓ} {B : Type κ} where
  -- `[y for x in xs if (y := f(x)) is not None]`.
  unfoldable pub filter_map : (A → Option B) → List A → List B
  filter_map f [] = []
  filter_map f (x ∷ xs) = elim (f x) [ none ↦ filter_map f xs | some y ↦ y ∷ filter_map f xs ]

  pub All-filter_map {μ} :
      (P : B → Type μ) (f : A → Option B) (xs : List A)
      → ((x : A) (y : B) → f x ≡ some y → P y)
      → All P (filter_map f xs)
  unfolding filter_map
  All-filter_map P f [] h = tt
  All-filter_map P f (x ∷ xs) h =
      All-prepend P (f x) (filter_map f xs) (h x) (All-filter_map P f xs h)

module _ {ℓ κ} {A : Type ℓ} {B : Type κ} where
  pub filter_map-All {μ ν} :
      (Q : A → Type μ) (P : B → Type ν) (f : A → Option B) (xs : List A)
      → ((x : A) (y : B) → Q x → f x ≡ some y → P y)
      → All Q xs
      → All P (filter_map f xs)
  unfolding filter_map
  filter_map-All Q P f [] h q = tt
  filter_map-All Q P f (x ∷ xs) h q =
      All-prepend P (f x) (filter_map f xs) (λ y. h x y q.0) (filter_map-All Q P f xs h q.1)

module _ {ℓ} {A : Type ℓ} where
  pub All-filter_congr :
      (p q : A → Bool) (xs : List A) → All (λ x. p x ≡ q x) xs → filter p xs ≡ filter q xs
  unfolding filter
  All-filter_congr p q [] h = refl
  All-filter_congr p q (x ∷ xs) h = rw (h.0, All-filter_congr p q xs h.1) refl

module _ {ℓ κ μ} {A : Type ℓ} {B : Type κ} (P : B → Type μ) where
  pub All-flat_map :
      (f : A → List B) (xs : List A) → ((x : A) → All P (f x)) → All P (flat_map f xs)
  unfolding flat_map
  All-flat_map f [] h = tt
  All-flat_map f (x ∷ xs) h = All-append P (f x) (flat_map f xs) (h x) (All-flat_map f xs h)

pub All-of_elem {ℓ} : (P : ℕ → Type ℓ) (xs : List ℕ) → ((a : ℕ) → elem a xs ≡ true → P a) → All P xs
unfolding elem
All-of_elem P [] h = tt
All-of_elem P (x ∷ xs) h = (h x (ground arith), All-of_elem P xs (λ a m. h a (ground arith)))
