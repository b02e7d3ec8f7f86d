-- ===== src/Mapping/Validate/Overlap.antt =====
-- The check of `_validate` that the spans of an example do not overlap.
use ztok.Common.{
  ℕ, ◌≤◌, ◌<◌, ◌≡◌, ◌⊎◌, inl, inr, List, [], ◌∷◌, ok, arith, All, All-mono, raise_if-eq-ok,
  Bool-cases, ltb,
}
use ztok.Common.Sort.{sort, insert_sorted, All-sort}
use ztok.Mapping.{SpanNode}
use ztok.Mapping.Validate.{starts_before, check_ordered, check_example}

module _ {R : Type 0} where
  -- Two spans of an example do not share a token.
  abbrev pub AreApart : SpanNode R → SpanNode R → Type 0
  AreApart a b = (a.token_end ≤ b.token_start) ⊎ (b.token_end ≤ a.token_start)

  abbrev pub NoOverlap : List (SpanNode R) → Type 0
  NoOverlap [] = Unit
  NoOverlap (x ∷ xs) = All (AreApart x) xs × NoOverlap xs

  abbrev pub IsProper : SpanNode R → Type 0
  IsProper s = s.token_start < s.token_end

  after_first :
      (x : SpanNode R) (n : ℕ) (xs : List (SpanNode R))
      → n ≤ x.token_start
      → All IsProper (x ∷ xs)
      → check_ordered (x ∷ xs) ≡ ok tt
      → All (λ y. n ≤ y.token_start) (x ∷ xs)
  unfolding check_ordered
  after_first x n [] h p e = (h, tt)
  after_first x n (y ∷ ys) h p e =
      let (apart, rest) =
        raise_if-eq-ok (ltb y.token_start x.token_end) _ (check_ordered (y ∷ ys)) e in
      (h, after_first y n ys (ground arith) p.1 rest)

  check_ordered-NoOverlap :
      (xs : List (SpanNode R)) → All IsProper xs → check_ordered xs ≡ ok tt → NoOverlap xs
  unfolding check_ordered
  check_ordered-NoOverlap [] p e = tt
  check_ordered-NoOverlap (x ∷ []) p e = (tt, tt)
  check_ordered-NoOverlap (x ∷ y ∷ ys) p e =
      let (apart, rest) =
        raise_if-eq-ok (ltb y.token_start x.token_end) _ (check_ordered (y ∷ ys)) e in
      (
        All-mono (λ z. x.token_end ≤ z.token_start) (AreApart x) (y ∷ ys) (λ z h. inl h)
            (after_first y x.token_end ys (ground arith) p.1 rest),
        check_ordered-NoOverlap (y ∷ ys) p.1 rest,
      )

  All-unsort :
      (P : SpanNode R → Type 0) (x : SpanNode R) (xs : List (SpanNode R))
      → All P (insert_sorted starts_before x xs)
      → P x × All P xs
  unfolding insert_sorted
  All-unsort P x [] h = h
  All-unsort P x (y ∷ ys) h = ground (arith, All-unsort P x ys)

  NoOverlap-uninsert :
      (x : SpanNode R) (xs : List (SpanNode R))
      → NoOverlap (insert_sorted starts_before x xs)
      → NoOverlap (x ∷ xs)
  unfolding insert_sorted
  NoOverlap-uninsert x [] h = h
  NoOverlap-uninsert x (y ∷ ys) h = elim (Bool-cases (starts_before y x)) [
    | inl e ↦
        let h' : All (AreApart y) (insert_sorted starts_before x ys)
            × NoOverlap (insert_sorted starts_before x ys) =
          rw e at h in
        let ih = NoOverlap-uninsert x ys h'.1 in
        let away = All-unsort (AreApart y) x ys h'.0 in ((ground arith, ih.0), (away.1, ih.1))
    | inr e ↦ rw e at h
  ]

  All-unsort-All :
      (P : SpanNode R → Type 0) (xs : List (SpanNode R)) → All P (sort starts_before xs) → All P xs
  unfolding sort
  All-unsort-All P [] h = tt
  All-unsort-All P (x ∷ xs) h =
      let h' = All-unsort P x (sort starts_before xs) h in (h'.0, All-unsort-All P xs h'.1)

  NoOverlap-unsort : (xs : List (SpanNode R)) → NoOverlap (sort starts_before xs) → NoOverlap xs
  unfolding sort
  NoOverlap-unsort [] h = tt
  NoOverlap-unsort (x ∷ xs) h =
      let h' = NoOverlap-uninsert x (sort starts_before xs) h in
      (All-unsort-All (AreApart x) xs h'.0, NoOverlap-unsort xs h'.1)

  -- The spans of an example that is let through share no token.
  pub check_example-NoOverlap :
      (e : ℕ) (xs : List (SpanNode R))
      → All IsProper xs
      → check_example (e, xs) ≡ ok tt
      → NoOverlap xs
  unfolding check_example
  check_example-NoOverlap e xs p h =
      NoOverlap-unsort xs
        (check_ordered-NoOverlap (sort starts_before xs) (All-sort starts_before IsProper xs p) h)
