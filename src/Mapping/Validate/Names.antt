-- ===== src/Mapping/Validate/Names.antt =====
-- The first loop of `_validate`: what it checks of each span, and the names that it collects.
use text.Mathlib.TextEquality.{eq_iff}
use ztok.Common.{
  ℕ, ◌<◌, ◌≡◌, inl, inr, true, subst, ok-injective, ◌&&◌, List, [], ◌∷◌, none, some, String, ok,
  arith, All, Result, raise_if-eq-ok, >>=-eq-ok, fold_result, ◌==◌, Bool-cases, ltb, leb, not,
  str_eq, is_some,
}
use ztok.Common.Floats.{Floats, in_unit}
use ztok.Mapping.{SpanNode, Embeddings, Identity}
use ztok.Mapping.Validate.{find_identity, register}

-- The entry that `find_identity` reads.
pub find_identity-entry :
    (P : Identity → Type 0) (example : ℕ) (span : String) (ids : List Identity) {i : ℕ}
    → All P ids
    → find_identity example span ids ≡ some i
    → (entry : Identity) × P entry
      × (entry.index ≡ i)
      × (entry.example_id ≡ example)
      × (entry.span_id ≡ span)
unfolding find_identity
find_identity-entry P example span [] p h = cc
find_identity-entry P example span (e ∷ ids) p h =
    elim (Bool-cases (e.example_id == example && str_eq e.span_id span)) [
      | inl hit ↦ (e, p.0, ground arith, ground arith, ground (arith, eq_iff e.span_id span))
      | inr miss ↦ find_identity-entry P example span ids p.1 (ground arith)
    ]

module _ {R : Type 0} ⦃fl : Floats R⦄ (embeddings : Embeddings R) where
  -- A span is not empty, its embedding exists, and its confidence is a probability.
  pub record IsWellFormed (s : SpanNode R) : Type 0 where
    pub proper : s.token_start < s.token_end
    pub embedded : s.embedding_index < embeddings.rows
    pub probable : in_unit s.confidence ≡ true

  abbrev pub entry_for : ℕ → SpanNode R → Identity
  entry_for i s = record { example_id = s.example_id; span_id = s.span_id; index = i }

  register-eq-ok :
      (ids : List Identity) (i : ℕ) (s : SpanNode R) {ids' : List Identity}
      → register embeddings ids (i, s) ≡ ok ids'
      → IsWellFormed s
        × (ids' ≡ entry_for i s ∷ ids)
        × (find_identity s.example_id s.span_id ids ≡ none)
  unfolding register
  register-eq-ok ids i s {ids'} h =
      let a = raise_if-eq-ok (is_some (find_identity s.example_id s.span_id ids)) _ _ h in
      let b = raise_if-eq-ok (leb s.token_end s.token_start) _ _ a.1 in
      let c = raise_if-eq-ok (not (ltb s.embedding_index embeddings.rows)) _ _ b.1 in
      let d = raise_if-eq-ok (not (in_unit s.confidence)) _ _ c.1 in
      (
        record { proper = ground arith; embedded = ground arith; probable = ground arith },
        ground arith,
        ground arith,
      )

  abbrev pub registers : List Identity → List (ℕ × SpanNode R) → Result (List Identity)
  registers = fold_result (register embeddings)

  -- Later spans have other names.
  registers_keep :
      (example : ℕ) (span : String) (ids : List Identity) (xs : List (ℕ × SpanNode R)) {i : ℕ}
      {ids' : List Identity}
      → registers ids xs ≡ ok ids'
      → find_identity example span ids ≡ some i
      → find_identity example span ids' ≡ some i
  unfolding fold_result find_identity
  registers_keep example span ids [] h e = ground arith
  registers_keep example span ids ((k, s) ∷ xs) h e =
      let (mid, one, more) = >>=-eq-ok (register embeddings ids (k, s)) _ h in
      let (w, same, fresh) = register-eq-ok ids k s one in
      registers_keep example span mid xs more (ground (arith, eq_iff s.span_id span))

  pub registers-find :
      (ids : List Identity) (xs : List (ℕ × SpanNode R)) {ids' : List Identity}
      → registers ids xs ≡ ok ids'
      → All (λ p. find_identity p.1.example_id p.1.span_id ids' ≡ some p.0) xs
  unfolding fold_result find_identity
  registers-find ids [] h = tt
  registers-find ids ((k, s) ∷ xs) h =
      let (mid, one, more) = >>=-eq-ok (register embeddings ids (k, s)) _ h in
      let (w, same, fresh) = register-eq-ok ids k s one in
      (
        registers_keep s.example_id s.span_id mid xs more
            (ground (arith, eq_iff s.span_id s.span_id)),
        registers-find mid xs more,
      )

  pub registers-IsWellFormed :
      (ids : List Identity) (xs : List (ℕ × SpanNode R)) {ids' : List Identity}
      → registers ids xs ≡ ok ids'
      → All (λ p. IsWellFormed p.1) xs
  unfolding fold_result
  registers-IsWellFormed ids [] h = tt
  registers-IsWellFormed ids ((k, s) ∷ xs) h =
      let (mid, one, more) = >>=-eq-ok (register embeddings ids (k, s)) _ h in
      let (w, same, fresh) = register-eq-ok ids k s one in (w, registers-IsWellFormed mid xs more)

  pub registers-All :
      (P : Identity → Type 0) (ids : List Identity) (xs : List (ℕ × SpanNode R))
      {ids' : List Identity}
      → registers ids xs ≡ ok ids'
      → All P ids
      → All (λ p. P (entry_for p.0 p.1)) xs
      → All P ids'
  unfolding fold_result
  registers-All P ids [] {ids'} h p q = subst (All P) (ok-injective ids ids' h) p
  registers-All P ids ((k, s) ∷ xs) h p q =
      let (mid, one, more) = >>=-eq-ok (register embeddings ids (k, s)) _ h in
      let (w, same, fresh) = register-eq-ok ids k s one in
      registers-All P mid xs more (rw same (q.0, p)) q.1
