-- ===== src/Common/Sort.antt =====
-- `sorted(xs, key=…)`: a stable insertion sort by a strict order on the elements' keys.
use mathlib.Core.List.{Perm}
use mathlib.Core.List.Perm
use ztok.Common.{
  ℕ, ◌+◌, ◌≡◌, refl, Bool, true, false, List, [], ◌∷◌, arith, if◌then◌else◌, All, length, sum_by,
  Bool-cases, inl, inr,
}
use ztok.Common.Counting.{count}

module _ {ℓ} {A : Type ℓ} (before : A → A → Bool) where
  -- The new element comes from the left of the list, so it goes before its equals.
  unfoldable pub insert_sorted : A → List A → List A
  insert_sorted x [] = x ∷ []
  insert_sorted x (y ∷ ys) = if before y x then y ∷ insert_sorted x ys else x ∷ y ∷ ys

  unfoldable pub sort : List A → List A
  unfolding insert_sorted
  sort [] = []
  sort (x ∷ xs) = insert_sorted x (sort xs)

  insert_sorted-perm : (x : A) (xs : List A) → Perm (insert_sorted x xs) (x ∷ xs)
  unfolding insert_sorted
  insert_sorted-perm x [] = Perm.refl (x ∷ [])
  insert_sorted-perm x (y ∷ ys) = elim (Bool-cases (before y x)) [
    | inl later ↦ rw later (Perm.trans (Perm.cons y (insert_sorted-perm x ys)) (Perm.swap x y ys))
    | inr first ↦ rw first (Perm.refl (x ∷ y ∷ ys))
  ]

  pub sort-perm : (xs : List A) → Perm (sort xs) xs
  unfolding sort
  sort-perm [] = Perm.refl []
  sort-perm (x ∷ xs) = Perm.trans (insert_sorted-perm x (sort xs)) (Perm.cons x (sort-perm xs))

  All-insert_sorted {κ} :
      (P : A → Type κ) (x : A) (xs : List A) → P x → All P xs → All P (insert_sorted x xs)
  unfolding insert_sorted
  All-insert_sorted P x [] p h = (p, h)
  All-insert_sorted P x (y ∷ ys) p h = ground (arith, All-insert_sorted P x ys p h.1)

  pub All-sort {κ} : (P : A → Type κ) (xs : List A) → All P xs → All P (sort xs)
  unfolding sort
  All-sort P [] h = tt
  All-sort P (x ∷ xs) h = All-insert_sorted P x (sort xs) h.0 (All-sort P xs h.1)

  All-of_insert_sorted {κ} :
      (P : A → Type κ) (x : A) (xs : List A) → All P (insert_sorted x xs) → P x × All P xs
  unfolding insert_sorted
  All-of_insert_sorted P x [] h = h
  All-of_insert_sorted P x (y ∷ ys) h = go (before y x) (All-of_insert_sorted P x ys) h
    where
      go :
          (later : Bool)
          → (All P (insert_sorted x ys) → P x × All P ys)
          → All P (if later then y ∷ insert_sorted x ys else x ∷ y ∷ ys)
          → P x × (P y × All P ys)
      go true rest h = ((rest h.1).0, (h.0, (rest h.1).1))
      go false rest h = h

  pub All-of_sort {κ} : (P : A → Type κ) (xs : List A) → All P (sort xs) → All P xs
  unfolding sort
  All-of_sort P [] h = tt
  All-of_sort P (x ∷ xs) h =
      let found = All-of_insert_sorted P x (sort xs) h in (found.0, All-of_sort P xs found.1)

  length-insert_sorted : (x : A) (xs : List A) → length (insert_sorted x xs) ≡ length (x ∷ xs)
  unfolding insert_sorted
  length-insert_sorted x [] = refl
  length-insert_sorted x (y ∷ ys) = ground (arith, length-insert_sorted x ys)

  pub length-sort : (xs : List A) → length (sort xs) ≡ length xs
  unfolding sort
  length-sort [] = refl
  length-sort (x ∷ xs) = omega (arith, length-insert_sorted x (sort xs), length-sort xs)

  sum_by-insert_sorted :
      (f : A → ℕ) (x : A) (xs : List A) → sum_by f (insert_sorted x xs) ≡ f x + sum_by f xs
  unfolding insert_sorted sum_by
  sum_by-insert_sorted f x [] = refl
  sum_by-insert_sorted f x (y ∷ ys) = ground (arith, sum_by-insert_sorted f x ys)

  -- Sorting does not change a total.
  pub sum_by-sort : (f : A → ℕ) (xs : List A) → sum_by f (sort xs) ≡ sum_by f xs
  unfolding sort sum_by
  sum_by-sort f [] = refl
  sum_by-sort f (x ∷ xs) = omega (arith, sum_by-insert_sorted f x (sort xs), sum_by-sort f xs)

module _ (before : ℕ → ℕ → Bool) where
  count-insert_sorted :
      (a x : ℕ) (xs : List ℕ) → count a (insert_sorted before x xs) ≡ count a (x ∷ xs)
  unfolding insert_sorted count
  count-insert_sorted a x [] = refl
  count-insert_sorted a x (y ∷ ys) = ground (arith, count-insert_sorted a x ys)

  pub count-sort : (a : ℕ) (xs : List ℕ) → count a (sort before xs) ≡ count a xs
  unfolding sort count
  count-sort a [] = refl
  count-sort a (x ∷ xs) = omega (arith, count-insert_sorted a x (sort before xs), count-sort a xs)
