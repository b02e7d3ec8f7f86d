-- ===== src/Mapping/Cluster/Links.antt =====
-- The accepted pairs that hold a cluster together.
use ztok.Common.{ℕ, ◌≡◌, ◌≢◌, ◌⊎◌, inl, inr, true, List, arith, elem, min, max, all, ◌∙◌}
use ztok.Common.Counting.{union, elem-union, all-elem}
use ztok.Mapping.{PairDecision}
use ztok.Mapping.Cluster.{pair_passes}

module _ {R : Type 0} (decisions : List (PairDecision R)) where
  -- Any two indices of a cluster are an accepted pair.
  abbrev pub IsLinked : List ℕ → Type 0
  IsLinked c =
      (l r : ℕ) → elem l c ≡ true → elem r c ≡ true → l ≢ r → pair_passes decisions l r ≡ true

  pair_passes_comm : (l r : ℕ) → pair_passes decisions l r ≡ pair_passes decisions r l
  unfolding pair_passes
  pair_passes_comm l r =
      let e₁ : min l r ≡ min r l = omega arith in
      let e₂ : max l r ≡ max r l = omega arith in ground (arith, e₁, e₂)

  member_side :
      (a : ℕ) (xs ys : List ℕ)
      → elem a (union xs ys) ≡ true
      → (elem a xs ≡ true) ⊎ (elem a ys ≡ true)
  member_side a xs ys h = ground (arith, elem-union a xs ys)

  pub union-IsLinked :
      (xs ys : List ℕ)
      → IsLinked xs
      → IsLinked ys
      → all (λ l. all (λ r. pair_passes decisions l r) ys) xs ≡ true
      → IsLinked (union xs ys)
  union-IsLinked xs ys hx hy across l r ml mr n = elim (member_side l xs ys ml) [
    | inl lx ↦ elim (member_side r xs ys mr) [ inl rx ↦ hx l r lx rx n | inr ry ↦ cross l r lx ry ]
    | inr ly ↦ elim (member_side r xs ys mr) [
      | inl rx ↦ pair_passes_comm l r ∙ cross r l rx ly
      | inr ry ↦ hy l r ly ry n
    ]
  ]
    where
      cross : (a b : ℕ) → elem a xs ≡ true → elem b ys ≡ true → pair_passes decisions a b ≡ true
      cross a b ma mb =
          all-elem (λ r. pair_passes decisions a r) b ys
            (all-elem (λ l. all (λ r. pair_passes decisions l r) ys) a xs across ma) mb
