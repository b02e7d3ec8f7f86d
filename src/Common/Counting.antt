-- ===== src/Common/Counting.antt =====
-- How often a number stands in a list, and Python's sets of numbers as lists without repetition.
use ztok.Common.{
  ℕ, zero, suc, ◌+◌, ◌≤◌, ◌≡◌, refl, Bool, true, false, ◌&&◌, ◌||◌, List, [], ◌∷◌, ◌++◌, arith, ltb,
  leb, ◌==◌, filter, Bool-cases, inl, inr, if◌then◌else◌, elem, range_from, all, any, not, All, ◌<◌,
}

abbrev pub bit : Bool → ℕ
bit true = 1
bit false = 0

unfoldable pub count : ℕ → List ℕ → ℕ
count a [] = 0
count a (x ∷ xs) = bit (x == a) + count a xs

pub count-append : (a : ℕ) (xs ys : List ℕ) → count a (xs ++ ys) ≡ count a xs + count a ys
unfolding count
count-append a [] ys = omega arith
count-append a (x ∷ xs) ys = omega (arith, count-append a xs ys)

-- A number stands in a list exactly when it is counted there.
pub elem-count : (a : ℕ) (xs : List ℕ) → elem a xs ≡ ltb 0 (count a xs)
unfolding elem count
elem-count a [] = refl
elem-count a (x ∷ xs) = ground (arith, elem-count a xs)

pub elem-filter : (p : ℕ → Bool) (a : ℕ) (xs : List ℕ) → elem a (filter p xs) ≡ (p a && elem a xs)
unfolding filter elem
elem-filter p a [] = ground arith
elem-filter p a (x ∷ xs) = elim (Bool-cases (x == a)) [
  | inl here ↦ ground (arith, elem-filter p a xs)
  | inr other ↦ ground (arith, elem-filter p a xs)
]

-- No number stands twice.
abbrev pub Distinct : List ℕ → Type 0
Distinct xs = (a : ℕ) → count a xs ≤ 1

-- `len(xs) != len(set(xs))`.
unfoldable pub has_duplicate : List ℕ → Bool
has_duplicate [] = false
has_duplicate (x ∷ xs) = elem x xs || has_duplicate xs

pub has_duplicate-Distinct : (xs : List ℕ) → has_duplicate xs ≡ false → Distinct xs
unfolding has_duplicate count
has_duplicate-Distinct [] h a = omega arith
has_duplicate-Distinct (x ∷ xs) h a =
    ground (arith, has_duplicate-Distinct xs, has_duplicate-Distinct xs _ a, elem-count a xs)

-- Whether a list has two numbers that differ.
abbrev pub differ : List ℕ → Bool
differ [] = false
differ (x ∷ xs) = any (λ y. not (y == x)) xs

-- `xs | ys` and `set(xs)`.
unfoldable pub insert : ℕ → List ℕ → List ℕ
insert x xs = if elem x xs then xs else x ∷ xs

unfoldable pub union : List ℕ → List ℕ → List ℕ
unfolding insert
union xs [] = xs
union xs (y ∷ ys) = insert y (union xs ys)

pub elem-insert : (a x : ℕ) (xs : List ℕ) → elem a (insert x xs) ≡ (x == a) || elem a xs
unfolding insert elem
elem-insert a x xs = ground arith

pub elem-union : (a : ℕ) (xs ys : List ℕ) → elem a (union xs ys) ≡ elem a ys || elem a xs
unfolding union elem
elem-union a xs [] = refl
elem-union a xs (y ∷ ys) = ground (arith, elem-insert a y (union xs ys), elem-union a xs ys)

pub insert-Distinct : (x : ℕ) (xs : List ℕ) → Distinct xs → Distinct (insert x xs)
unfolding insert count
insert-Distinct x xs h a = ground (arith, h a, elem-count a xs, elem-count x xs)

pub union-Distinct : (xs ys : List ℕ) → Distinct xs → Distinct (union xs ys)
unfolding union
union-Distinct xs [] h = h
union-Distinct xs (y ∷ ys) h = insert-Distinct y (union xs ys) (union-Distinct xs ys h)

-- In a list without repetition the count is the membership test.
pub count-elem : (a : ℕ) (xs : List ℕ) → Distinct xs → count a xs ≡ bit (elem a xs)
count-elem a xs h = ground (arith, h a, elem-count a xs)

-- Disjoint sets add up.
pub count-union :
    (a : ℕ) (xs ys : List ℕ)
    → Distinct xs
    → Distinct ys
    → count a xs + count a ys ≤ 1
    → count a (union xs ys) ≡ count a xs + count a ys
count-union a xs ys hx hy d = ground (
  arith,
  count-elem a (union xs ys) (union-Distinct xs ys hx),
  elem-union a xs ys,
  count-elem a xs hx,
  count-elem a ys hy,
)

-- `xs == ys` on sets.
unfoldable pub same_set : List ℕ → List ℕ → Bool
same_set xs ys = all (λ x. elem x ys) xs && all (λ y. elem y xs) ys

pub all-elem :
    (p : ℕ → Bool) (a : ℕ) (xs : List ℕ) → all p xs ≡ true → elem a xs ≡ true → p a ≡ true
unfolding all elem
all-elem p a [] h e = cc
all-elem p a (x ∷ xs) h e = ground (arith, all-elem p a xs)

all-elem_of :
    (xs ys : List ℕ)
    → ((a : ℕ) → elem a xs ≡ true → elem a ys ≡ true)
    → all (λ x. elem x ys) xs ≡ true
unfolding all elem
all-elem_of [] ys h = refl
all-elem_of (x ∷ xs) ys h = ground (arith, h x, all-elem_of xs ys (λ a e. h a (ground arith)))

pub same_set_refl : (xs : List ℕ) → same_set xs xs ≡ true
unfolding same_set
same_set_refl xs = ground (arith, all-elem_of xs xs (λ a e. e))

pub same_set-count :
    (xs ys : List ℕ) (a : ℕ)
    → Distinct xs
    → Distinct ys
    → same_set xs ys ≡ true
    → count a xs ≡ count a ys
unfolding same_set
same_set-count xs ys a hx hy h = ground (
  arith,
  count-elem a xs hx,
  count-elem a ys hy,
  all-elem (λ x. elem x ys) a xs,
  all-elem (λ y. elem y xs) a ys,
)

pub count-range_from :
    (a start n : ℕ) → count a (range_from start n) ≡ bit (leb start a && ltb a (start + n))
unfolding count range_from
count-range_from a start zero = ground arith
count-range_from a start (suc n) = ground (arith, count-range_from a (suc start) n)

-- The head of a list without repetition does not come back.
pub Distinct-head : (x : ℕ) (xs : List ℕ) → Distinct (x ∷ xs) → elem x xs ≡ false
unfolding count
Distinct-head x xs d = ground (arith, d x, elem-count x xs)

pub Distinct-tail : (x : ℕ) (xs : List ℕ) → Distinct (x ∷ xs) → Distinct xs
unfolding count
Distinct-tail x xs d a = omega (arith, d a)

-- Every number of a range lies below its end.
pub All-range_from : (a n k : ℕ) → a + n ≤ k → All (λ i. i < k) (range_from a n)
unfolding range_from
All-range_from a zero k h = tt
All-range_from a (suc n) k h = (omega arith, All-range_from (suc a) n k (omega arith))
