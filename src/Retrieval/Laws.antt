-- ===== src/Retrieval/Laws.antt =====
-- About the loop over the sorted candidates.
use ztok.Common.{
  ◌⊎◌, ℕ, suc, ◌+◌, ◌≤◌, ◌<◌, ◌≡◌, refl, sym, Bool, true, false, ◌||◌, List, [], ◌∷◌, leb, length,
  elem, max, arith, All, All-mono, inl, inr, subst,
}
use ztok.Common.Counting.{count, elem-count}
use ztok.Retrieval.{Pair, take_pairs}

abbrev pub pair_members : {R : Type 0} → List (Pair R) → List ℕ
pair_members [] = []
pair_members (p ∷ ps) = p.left ∷ p.right ∷ pair_members ps

module _ {R : Type 0} where
  abbrev pub Splits : Pair R → Type 0
  Splits p = p.left < p.right

  -- Whether an example of a pair is among the used ones.
  abbrev pub touches : List ℕ → Pair R → Bool
  touches used p = elem p.left used || elem p.right used

  -- A candidate is passed over, taken as the last, or taken before others.
  Turn : ℕ → List ℕ → ℕ → Pair R → List (Pair R) → List (Pair R) → List (Pair R) → Type 0
  Turn max_pairs used n c skip rest chosen =
      ((touches used c ≡ true) × (chosen ≡ skip))
      ⊎ ((touches used c ≡ false)
          × (((max_pairs ≤ suc n) × (chosen ≡ c ∷ []))
              ⊎ ((suc n < max_pairs) × (chosen ≡ c ∷ rest))))

  turn :
      (max_pairs : ℕ) (used : List ℕ) (n : ℕ) (c : Pair R) (cs : List (Pair R))
      → Turn max_pairs used n c
          (take_pairs max_pairs used n cs)
          (take_pairs max_pairs (c.left ∷ c.right ∷ used) (suc n) cs)
          (take_pairs max_pairs used n (c ∷ cs))
  unfolding take_pairs Turn
  turn max_pairs used n c cs = go (touches used c) (leb max_pairs (suc n)) refl refl
    where
      go :
          (taken full : Bool)
          → touches used c ≡ taken
          → leb max_pairs (suc n) ≡ full
          → Turn max_pairs used n c
              (take_pairs max_pairs used n cs)
              (take_pairs max_pairs (c.left ∷ c.right ∷ used) (suc n) cs)
              (elim taken as (λ t. List (Pair R)) [
                | true ↦ take_pairs max_pairs used n cs
                | false ↦ c ∷ (elim full as (λ f. List (Pair R)) [
                  | true ↦ []
                  | false ↦ take_pairs max_pairs (c.left ∷ c.right ∷ used) (suc n) cs
                ])
              ])
      go true full e f = inl (e, refl)
      go false true e f = inr (e, inl (ground arith, refl))
      go false false e f = inr (e, inr (ground arith, refl))

  -- A property of what is chosen, shown for the three turns.
  take_pairs-induct {κ} :
      (P : List ℕ → ℕ → List (Pair R) → List (Pair R) → Type κ) (max_pairs : ℕ)
      → ((used : List ℕ) (n : ℕ) → P used n [] [])
      → ((used : List ℕ) (n : ℕ) (c : Pair R) (cs chosen : List (Pair R))
          → touches used c ≡ true
          → P used n cs chosen
          → P used n (c ∷ cs) chosen)
      → ((used : List ℕ) (n : ℕ) (c : Pair R) (cs : List (Pair R))
          → touches used c ≡ false
          → max_pairs ≤ suc n
          → P used n (c ∷ cs) (c ∷ []))
      → ((used : List ℕ) (n : ℕ) (c : Pair R) (cs chosen : List (Pair R))
          → touches used c ≡ false
          → suc n < max_pairs
          → P (c.left ∷ c.right ∷ used) (suc n) cs chosen
          → P used n (c ∷ cs) (c ∷ chosen))
      → (used : List ℕ) (n : ℕ) (cs : List (Pair R)) → P used n cs (take_pairs max_pairs used n cs)
  unfolding take_pairs Turn
  take_pairs-induct P max_pairs empty skip last next used n [] = empty used n
  take_pairs-induct P max_pairs empty skip last next used n (c ∷ cs) =
      elim (turn max_pairs used n c cs) [
        | inl (t, e) ↦
            subst (P used n (c ∷ cs)) (sym e)
              (skip used n c cs _ t (take_pairs-induct P max_pairs empty skip last next used n cs))
        | inr (f, inl (full, e)) ↦ subst (P used n (c ∷ cs)) (sym e) (last used n c cs f full)
        | inr (f, inr (room, e)) ↦ subst (P used n (c ∷ cs)) (sym e) (
            next used n c cs _ f room (
              take_pairs-induct P max_pairs empty skip last next (c.left ∷ c.right ∷ used) (suc n)
                cs))
      ]

  -- The examples of a free candidate, put before those that are used.
  used-next :
      (used : List ℕ) (c : Pair R) (a : ℕ)
      → count a used ≤ 1
      → Splits c
      → touches used c ≡ false
      → count a (c.left ∷ c.right ∷ used) ≤ 1
  unfolding count
  used-next used c a d lt free = ground (arith, elem-count c.left used, elem-count c.right used)

  -- Each example stands in one chosen pair at most, and not in one when it was used before.
  pub take_pairs-count :
      (max_pairs : ℕ) (used : List ℕ) (n : ℕ) (cs : List (Pair R))
      → ((b : ℕ) → count b used ≤ 1)
      → All Splits cs
      → (a : ℕ) → count a (pair_members (take_pairs max_pairs used n cs)) + count a used ≤ 1
  unfolding count
  take_pairs-count max_pairs =
      take_pairs-induct
        (λ used n cs chosen.
          ((b : ℕ) → count b used ≤ 1)
          → All Splits cs
          → (a : ℕ) → count a (pair_members chosen) + count a used ≤ 1)
        max_pairs (λ used n d s a. omega (arith, d a)) (λ used n c cs chosen t ih d s a. ih d s.1 a)
        (λ used n c cs f full d s a. omega (arith, used-next used c a (d a) s.0 f))
        (λ used n c cs chosen f room ih d s a.
          omega (arith, ih (λ b. used-next used c b (d b) s.0 f) s.1 a))

  pub take_pairs-length :
      (max_pairs : ℕ) (used : List ℕ) (n : ℕ) (cs : List (Pair R))
      → length (take_pairs max_pairs used n cs) + n ≤ max max_pairs (suc n)
  take_pairs-length max_pairs =
      take_pairs-induct (λ used n cs chosen. length chosen + n ≤ max max_pairs (suc n)) max_pairs
        (λ used n. ground arith) (λ used n c cs chosen t ih. ih)
        (λ used n c cs f full. ground arith) (λ used n c cs chosen f room ih. ground arith)

  -- What holds of all candidates holds of the chosen ones.
  pub take_pairs-All {κ} :
      (P : Pair R → Type κ) (max_pairs : ℕ) (used : List ℕ) (n : ℕ) (cs : List (Pair R))
      → All P cs
      → All P (take_pairs max_pairs used n cs)
  take_pairs-All P max_pairs =
      take_pairs-induct (λ used n cs chosen. All P cs → All P chosen) max_pairs (λ used n h. h)
        (λ used n c cs chosen t ih h. ih h.1) (λ used n c cs f full h. (h.0, tt))
        (λ used n c cs chosen f room ih h. (h.0, ih h.1))

  -- When fewer pairs than allowed were chosen, each candidate shares an example with one of them.
  abbrev pub Taken : List ℕ → List (Pair R) → Pair R → Type 0
  Taken used chosen c =
      0
      < count c.left used
        + count c.right used
        + count c.left (pair_members chosen)
        + count c.right (pair_members chosen)

  pub take_pairs-maximal :
      (max_pairs : ℕ) (used : List ℕ) (n : ℕ) (cs : List (Pair R))
      → length (take_pairs max_pairs used n cs) + n < max_pairs
      → All (Taken used (take_pairs max_pairs used n cs)) cs
  unfolding count
  take_pairs-maximal max_pairs =
      take_pairs-induct
        (λ used n cs chosen. length chosen + n < max_pairs → All (Taken used chosen) cs) max_pairs
        (λ used n h. tt)
        (λ used n c cs chosen t ih h.
          (ground (arith, elem-count c.left used, elem-count c.right used), ih h))
        (λ used n c cs f full h. let e : ⊥ = omega arith in elim e [ ])
        (λ used n c cs chosen f room ih h.
          (ground arith, All-mono _ _ cs (λ p g. omega (arith, g)) (ih (omega arith))))
