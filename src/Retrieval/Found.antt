-- ===== src/Retrieval/Found.antt =====
-- About the two loops that collect the candidates.
use ztok.Common.{
  ℕ, zero, suc, ◌+◌, ◌≤◌, ◌<◌, ◌≡◌, refl, Bool, true, false, List, [], ◌∷◌, ◌++◌, some, ltb,
  if◌then◌else◌, get_elem?, arith, All, All-append, subst,
}
use ztok.Common.Floats.{Floats}
use mathlib.Core.Option.{some-injective}
use ztok.Retrieval.{
  Featured, Pair, pair_of, feature_count, weighted_jaccard, rights, candidate_pairs,
}

module _ {R : Type 0} ⦃fl : Floats R⦄ where
  abbrev pub found_pair : ℕ → Featured → ℕ → Featured → Pair R
  found_pair i l j r = pair_of (weighted_jaccard l.1 r.1) i l j r

module _ {R : Type 0} ⦃fl : Floats R⦄ (minimum_score : R) (minimum_content_spans : ℕ) where
  -- Both examples have enough features, and the score is high enough.
  abbrev pub IsSuitable : Featured → Featured → Type 0
  IsSuitable l r =
      (minimum_content_spans ≤ feature_count l.1)
      × (minimum_content_spans ≤ feature_count r.1)
      × (fl.le minimum_score (weighted_jaccard l.1 r.1) ≡ true)

  rights-All {κ} :
      (Q : Pair R → Type κ) (left : ℕ) (l : Featured) (right : ℕ) (more : List Featured)
      → minimum_content_spans ≤ feature_count l.1
      → ((k j : ℕ) (r : Featured)
          → j ≡ right + k
          → get_elem? more k ≡ some r
          → IsSuitable l r
          → Q (found_pair left l j r))
      → All Q (rights minimum_score minimum_content_spans left l right more)
  unfolding rights
  rights-All Q left l right [] full q = tt
  rights-All Q left l right (r ∷ more) full q =
      go (ltb (feature_count r.1) minimum_content_spans)
        (fl.le minimum_score (weighted_jaccard l.1 r.1)) refl refl
        (rights-All Q left l (suc right) more full
          (λ k j s e g u. q (suc k) j s (omega (arith, e)) g u))
    where
      go :
          (short high : Bool)
          → ltb (feature_count r.1) minimum_content_spans ≡ short
          → fl.le minimum_score (weighted_jaccard l.1 r.1) ≡ high
          → All Q (rights minimum_score minimum_content_spans left l (suc right) more)
          → All Q (
              if short
              then rights minimum_score minimum_content_spans left l (suc right) more
              else if high
              then found_pair left l right r
                ∷ rights minimum_score minimum_content_spans left l (suc right) more
              else rights minimum_score minimum_content_spans left l (suc right) more)
      go true high e f h = h
      go false false e f h = h
      go false true e f h = (q 0 right r (omega arith) refl (full, ground arith, f), h)

  -- What holds of the candidates from an index on holds of the first of them and of the later ones.
  rights-step {κ} :
      (Q : Pair R → Type κ) (left : ℕ) (l : Featured) (right : ℕ) (r : Featured)
      (more : List Featured)
      → All Q (rights minimum_score minimum_content_spans left l right (r ∷ more))
      → (IsSuitable l r → Q (found_pair left l right r))
        × All Q (rights minimum_score minimum_content_spans left l (suc right) more)
  unfolding rights
  rights-step Q left l right r more h =
      go (ltb (feature_count r.1) minimum_content_spans)
        (fl.le minimum_score (weighted_jaccard l.1 r.1)) refl refl h
    where
      later : List (Pair R)
      later = rights minimum_score minimum_content_spans left l (suc right) more

      go :
          (short high : Bool)
          → ltb (feature_count r.1) minimum_content_spans ≡ short
          → fl.le minimum_score (weighted_jaccard l.1 r.1) ≡ high
          → All Q
              (if short then later else if high then found_pair left l right r ∷ later else later)
          → (IsSuitable l r → Q (found_pair left l right r)) × All Q later
      go true high e f h = (λ u. ground arith, h)
      go false false e f h = (λ u. ground arith, h)
      go false true e f h = (λ u. h.0, h.1)

  of_rights {κ} :
      (Q : Pair R → Type κ) (left : ℕ) (l : Featured) (right : ℕ) (more : List Featured)
      → All Q (rights minimum_score minimum_content_spans left l right more)
      → (k j : ℕ) (r : Featured) → j ≡ right + k
      → get_elem? more k ≡ some r
      → IsSuitable l r
      → Q (found_pair left l j r)
  of_rights Q left l right [] h k j r e g u = cc
  of_rights Q left l right (s ∷ more) h zero j r e g u =
      let same : right ≡ j = omega (arith, e) in
      subst (λ x. Q (found_pair left l x r)) same
        (subst (λ x. IsSuitable l x → Q (found_pair left l right x)) (some-injective s r g)
          (rights-step Q left l right s more h).0 u)
  of_rights Q left l right (s ∷ more) h (suc k) j r e g u =
      of_rights Q left l (suc right) more (rights-step Q left l right s more h).1 k j r
        (omega (arith, e)) g u

  pub candidate_pairs-All {κ} :
      (Q : Pair R → Type κ) (left : ℕ) (fs : List Featured)
      → ((i j a b : ℕ) (l r : Featured)
          → a ≡ left + i
          → b ≡ left + j
          → i < j
          → get_elem? fs i ≡ some l
          → get_elem? fs j ≡ some r
          → IsSuitable l r
          → Q (found_pair a l b r))
      → All Q (candidate_pairs minimum_score minimum_content_spans left fs)
  unfolding candidate_pairs
  candidate_pairs-All Q left [] q = tt
  candidate_pairs-All Q left (l ∷ more) q =
      All-append Q _ _ (first (ltb (feature_count l.1) minimum_content_spans) refl) (
        candidate_pairs-All Q (suc left) more (λ i j a b m r e f lt g h u.
          q (suc i) (suc j) a b m r (omega (arith, e)) (omega (arith, f)) (omega (arith, lt)) g h
            u))
    where
      first :
          (short : Bool)
          → ltb (feature_count l.1) minimum_content_spans ≡ short
          → All Q (
              if short
              then []
              else rights minimum_score minimum_content_spans left l (suc left) more)
      first true e = tt
      first false e = rights-All Q left l (suc left) more (ground arith) (λ k j r f g u.
          q 0 (suc k) left j l r (omega arith) (omega (arith, f)) (omega arith) refl g u)

  All-append-split {κ} :
      (Q : Pair R → Type κ) (front back : List (Pair R))
      → All Q (front ++ back)
      → All Q front × All Q back
  All-append-split Q [] back h = (tt, h)
  All-append-split Q (x ∷ front) back h =
      let rest = All-append-split Q front back h.1 in ((h.0, rest.0), rest.1)

  candidate_pairs-step {κ} :
      (Q : Pair R → Type κ) (left : ℕ) (m : Featured) (more : List Featured)
      → All Q (candidate_pairs minimum_score minimum_content_spans left (m ∷ more))
      → (minimum_content_spans ≤ feature_count m.1
          → All Q (rights minimum_score minimum_content_spans left m (suc left) more))
        × All Q (candidate_pairs minimum_score minimum_content_spans (suc left) more)
  unfolding candidate_pairs
  candidate_pairs-step Q left m more h = (
    λ full.
        go (ltb (feature_count m.1) minimum_content_spans) (ground arith)
          (All-append-split Q _
            (candidate_pairs minimum_score minimum_content_spans (suc left) more) h).0,
    (All-append-split Q _ _ h).1,
  )
    where
      inner : List (Pair R)
      inner = rights minimum_score minimum_content_spans left m (suc left) more

      go : (short : Bool) → short ≡ false → All Q (if short then [] else inner) → All Q inner
      go true e h = cc
      go false e h = h

  pub of_candidate_pairs {κ} :
      (Q : Pair R → Type κ) (left : ℕ) (fs : List Featured)
      → All Q (candidate_pairs minimum_score minimum_content_spans left fs)
      → (i j a b : ℕ) (l r : Featured) → a ≡ left + i
      → b ≡ left + j
      → i < j
      → get_elem? fs i ≡ some l
      → get_elem? fs j ≡ some r
      → IsSuitable l r
      → Q (found_pair a l b r)
  of_candidate_pairs Q left [] h i j a b l r e f lt g k u = cc
  of_candidate_pairs Q left (m ∷ more) h zero zero a b l r e f lt g k u = elim lt [ ]
  of_candidate_pairs Q left (m ∷ more) h zero (suc j) a b l r e f lt g k u =
      let same : left ≡ a = omega (arith, e) in
      let swap = subst (λ x. IsSuitable x r → Q (found_pair left x b r)) (some-injective m l g) in
      subst (λ x. Q (found_pair x l b r)) same
        (swap
          (λ v.
            of_rights Q left m (suc left) more ((candidate_pairs-step Q left m more h).0 v.0) j b r
              (omega (arith, f)) k v)
          u)
  of_candidate_pairs Q left (m ∷ more) h (suc i) zero a b l r e f lt g k u = elim lt [ ]
  of_candidate_pairs Q left (m ∷ more) h (suc i) (suc j) a b l r e f lt g k u =
      of_candidate_pairs Q (suc left) more (candidate_pairs-step Q left m more h).1 i j a b l r
        (omega (arith, e)) (omega (arith, f)) (omega (arith, lt)) g k u
