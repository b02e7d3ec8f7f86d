-- ===== src/Mapping/Cluster/Examples.antt =====
-- The examples of a cluster's spans, as `_cluster_spans` collects and compares them.
use ztok.Common.{
  ℕ, ◌<◌, ◌≡◌, refl, ◌≢◌, inl, inr, true, List, [], ◌∷◌, some, ok, arith, elem, get_elem?, length,
  Bool-cases, ◌==◌, or_raise, index_error, get_elem?_lt, >>=-eq-ok, ok-injective, ◌>>=◌,
}
use ztok.Common.Counting.{count, Distinct}
use ztok.Mapping.{SpanNode}
use ztok.Mapping.Cluster.{example_ids_of}

module _ {R : Type 0} (spans : List (SpanNode R)) where
  -- Different indices of a cluster are spans of different examples.
  abbrev pub HasOneEach : List ℕ → Type 0
  HasOneEach c =
      (l r : ℕ) (a b : SpanNode R)
      → elem l c ≡ true
      → elem r c ≡ true
      → l ≢ r
      → get_elem? spans l ≡ some a
      → get_elem? spans r ≡ some b
      → a.example_id ≢ b.example_id

  pub example_ids_of_total :
      (xs : List ℕ)
      → ((a : ℕ) → elem a xs ≡ true → a < length spans)
      → (ids : List ℕ) × (example_ids_of spans xs ≡ ok ids)
  unfolding example_ids_of elem
  example_ids_of_total [] h = ([], refl)
  example_ids_of_total (x ∷ xs) h =
      let (s, at) = get_elem?_lt spans x (h x (ground arith)) in
      let (ids, e) = example_ids_of_total xs (λ a m. h a (ground arith)) in
      (s.example_id ∷ ids, rw (at, e) refl)

  id_counted :
      (xs : List ℕ) (l : ℕ) (a : SpanNode R) {ids : List ℕ}
      → example_ids_of spans xs ≡ ok ids
      → elem l xs ≡ true
      → get_elem? spans l ≡ some a
      → 0 < count a.example_id ids
  unfolding example_ids_of elem count
  id_counted [] l a e m at = cc
  id_counted (x ∷ xs) l a {ids} e m at =
      let (v, e₁, k) =
        >>=-eq-ok (or_raise (get_elem? spans x) index_error >>= λ span. ok span.example_id) _ e in
      let (vs, e₂, done) = >>=-eq-ok (example_ids_of spans xs) _ k in
      let same : v ∷ vs ≡ ids = ok-injective (v ∷ vs) ids done in
      elim (Bool-cases (x == l)) [
        | inl here ↦ rw (← same) (ground arith)
        | inr there ↦ rw (← same) (ground (arith, id_counted xs l a e₂))
      ]

  id_counted_twice :
      (xs : List ℕ) (l r : ℕ) (a b : SpanNode R) {ids : List ℕ}
      → example_ids_of spans xs ≡ ok ids
      → elem l xs ≡ true
      → elem r xs ≡ true
      → l ≢ r
      → get_elem? spans l ≡ some a
      → get_elem? spans r ≡ some b
      → a.example_id ≡ b.example_id
      → 1 < count a.example_id ids
  unfolding example_ids_of elem count
  id_counted_twice [] l r a b e ml mr n al ar same = cc
  id_counted_twice (x ∷ xs) l r a b {ids} e ml mr n al ar same =
      let (v, e₁, k) =
        >>=-eq-ok (or_raise (get_elem? spans x) index_error >>= λ span. ok span.example_id) _ e in
      let (vs, e₂, done) = >>=-eq-ok (example_ids_of spans xs) _ k in
      let whole : v ∷ vs ≡ ids = ok-injective (v ∷ vs) ids done in
      rw (← whole)
        (ground (arith, id_counted xs l a e₂, id_counted xs r b e₂, id_counted_twice xs l r a b e₂))

  pub example_ids-HasOneEach :
      (xs ids : List ℕ) → example_ids_of spans xs ≡ ok ids → Distinct ids → HasOneEach xs
  example_ids-HasOneEach xs ids e d l r a b ml mr n al ar same =
      omega (arith, d a.example_id, id_counted_twice xs l r a b e ml mr n al ar same)
