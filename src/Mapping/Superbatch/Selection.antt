-- ===== src/Mapping/Superbatch/Selection.antt =====
-- The greedy choice of `_build_superbatches`: no example is packed twice.
use ztok.Common.{ℕ, ◌+◌, ◌≤◌, ◌≢◌, ◌||◌, List, [], ◌∷◌, arith, All, elem, Bool-cases, inl, inr}
use ztok.Common.Counting.{count, bit, Distinct}
use ztok.Common.Floats.{Floats}
use ztok.Mapping.Candidates.{Candidate}
use ztok.Mapping.Superbatch.{select}

module _ {R : Type 0} ⦃fl : Floats R⦄ where
  -- The examples of the chosen pairs.
  unfoldable pub examples_of : List (Candidate R) → List ℕ
  examples_of [] = []
  examples_of (c ∷ cs) = c.left ∷ c.right ∷ examples_of cs

  pub All-select {κ} :
      (P : Candidate R → Type κ) (used : List ℕ) (cs : List (Candidate R))
      → All P cs
      → All P (select used cs)
  unfolding select
  All-select P used [] h = tt
  All-select P used (c ∷ cs) h = elim (Bool-cases (elem c.left used || elem c.right used)) [
    | inl taken ↦ rw (taken, All) (All-select P used cs h.1)
    | inr free ↦ rw (free, All) (h.0, All-select P (c.left ∷ c.right ∷ used) cs h.1)
  ]

  abbrev pub IsPair : Candidate R → Type 0
  IsPair c = c.left ≢ c.right

  -- An example that is used is not chosen again, and no example is chosen twice.
  select-fresh :
      (used : List ℕ) (cs : List (Candidate R)) (a : ℕ)
      → All IsPair cs
      → bit (elem a used) + count a (examples_of (select used cs)) ≤ 1
  unfolding select examples_of count elem
  select-fresh used [] a h = ground arith
  select-fresh used (c ∷ cs) a h =
      ground (arith, select-fresh used cs a, select-fresh (c.left ∷ c.right ∷ used) cs a)

  pub select-Distinct :
      (cs : List (Candidate R)) → All IsPair cs → Distinct (examples_of (select [] cs))
  unfolding elem
  select-Distinct cs h a = omega (arith, select-fresh [] cs a h)
