-- ===== src/Mapping/Validate/Laws.antt =====
-- What `_validate` lets through.
use mathlib.Core.List.{map-id}
use ztok.Common.{
  ℕ, ◌<◌, ◌≡◌, refl, ◌≢◌, inl, inr, ◌∙◌, subst, ok-injective, List, [], some, String, ok, arith,
  length, get_elem?, All, filter, All-mono, filter-All, All-enumerated, All-enumerate, All-of_get,
  get_elem?_bound, Option-cases, raise_if-eq-ok, >>=-eq-ok, for_each, for_each-All, enumerate_from,
  ◌==◌, not,
}
use ztok.Common.Floats.{Floats}
use ztok.Common.Dict.{get_list, get_list-group_from, All-get_list}
use ztok.Mapping.{SpanNode, RelationEdge, Embeddings, Identity}
use ztok.Mapping.Validate.Overlap.{NoOverlap, IsProper, check_example-NoOverlap}
use ztok.Mapping.Validate.Names.{
  IsWellFormed, find_identity-entry, registers, registers-find, registers-IsWellFormed,
  registers-All, entry_for,
}
use ztok.Mapping.Validate.{find_identity, check_example, check_edge, by_example, validate}

-- Both ends of an edge are named by the identities, as spans of the list.
pub record IsKnown (n : ℕ) (identities : List Identity) (edge : RelationEdge) : Type 0 where
  pub source : ℕ
  pub target : ℕ
  pub source_found : find_identity edge.example_id edge.source_span_id identities ≡ some source
  pub target_found : find_identity edge.example_id edge.target_span_id identities ≡ some target
  pub source_lt : source < n
  pub target_lt : target < n

module _ {R : Type 0} ⦃fl : Floats R⦄ where
  pub record IsValidated (spans : List (SpanNode R)) (edges : List RelationEdge)
      (embeddings : Embeddings R) (identities : List Identity) : Type 0 where
    pub matrix : embeddings.ndim ≡ 2
    pub some_span : spans ≢ []
    pub well_formed : All (IsWellFormed embeddings) spans
    pub indexed :
        (i : ℕ) (s : SpanNode R)
        → get_elem? spans i ≡ some s
        → find_identity s.example_id s.span_id identities ≡ some i
    pub named :
        (example : ℕ) (span : String) (i : ℕ)
        → find_identity example span identities ≡ some i
        → (s : SpanNode R) × (get_elem? spans i ≡ some s)
          × (s.example_id ≡ example)
          × (s.span_id ≡ span)
    pub no_overlap : (e : ℕ) → NoOverlap (filter (λ s. s.example_id == e) spans)
    pub known : All (IsKnown (length spans) identities) edges

  module _ (spans : List (SpanNode R)) (edges : List RelationEdge) (embeddings : Embeddings R)
      (ids : List Identity) (loop : registers embeddings [] (enumerate_from 0 spans) ≡ ok ids) where
    All-IsWellFormed : All (IsWellFormed embeddings) spans
    All-IsWellFormed = All-of_get (IsWellFormed embeddings) spans (λ i s e.
        All-enumerated (λ p. IsWellFormed embeddings p.1) spans i
          (registers-IsWellFormed embeddings [] (enumerate_from 0 spans) loop) e)

    find_at :
        (i : ℕ) (s : SpanNode R)
        → get_elem? spans i ≡ some s
        → find_identity s.example_id s.span_id ids ≡ some i
    find_at i s e =
        All-enumerated (λ p. find_identity p.1.example_id p.1.span_id ids ≡ some p.0) spans i
          (registers-find embeddings [] (enumerate_from 0 spans) loop) e

    abbrev Names : Identity → Type 0
    Names entry =
        (s : SpanNode R) × (get_elem? spans entry.index ≡ some s)
        × (s.example_id ≡ entry.example_id)
        × (s.span_id ≡ entry.span_id)

    name_of :
        (example : ℕ) (span : String) (i : ℕ)
        → find_identity example span ids ≡ some i
        → (s : SpanNode R) × (get_elem? spans i ≡ some s)
          × (s.example_id ≡ example)
          × (s.span_id ≡ span)
    name_of example span i e =
        let (entry, (s, at, ex, sp), ix, ee, es) =
          find_identity-entry Names example span ids
            (registers-All embeddings Names [] (enumerate_from 0 spans) loop tt (
              All-enumerate (λ p. Names (entry_for embeddings p.0 p.1)) spans
                (λ i s e. (s, e, refl, refl))))
            e in
        (s, cc, ex ∙ ee, sp ∙ es)

    groups-NoOverlap :
        for_each check_example (by_example spans) ≡ ok tt
        → (e : ℕ) → NoOverlap (filter (λ s. s.example_id == e) spans)
    unfolding get_list
    groups-NoOverlap h e =
        let checked = for_each-All check_example (by_example spans) h in
        let proper =
          All-mono (IsWellFormed embeddings) IsProper spans (λ s w. w.proper) All-IsWellFormed in
        let grouped =
          All-get_list (λ xs. All IsProper xs → NoOverlap xs) e (by_example spans) (λ _. tt)
            (All-mono (λ g. check_example g ≡ ok tt) (λ g. All IsProper g.1 → NoOverlap g.1)
              (by_example spans) (λ g c p. check_example-NoOverlap g.0 g.1 p c) checked) in
        let same : get_list e (by_example spans) ≡ filter (λ s. s.example_id == e) spans =
          get_list-group_from (λ s. s.example_id) (λ s. s) e [] spans ∙ map-id _ in
        rw same at grouped (filter-All IsProper (λ s. s.example_id == e) spans proper)

    edge_IsKnown :
        (edge : RelationEdge) → check_edge ids edge ≡ ok tt → IsKnown (length spans) ids edge
    unfolding check_edge
    edge_IsKnown edge h =
        elim (Option-cases (find_identity edge.example_id edge.source_span_id ids)) [
          | inl missing ↦ ground arith
          | inr (source, e₁) ↦
              elim (Option-cases (find_identity edge.example_id edge.target_span_id ids)) [
                | inl missing ↦ ground arith
                | inr (target, e₂) ↦
                    let (s, at_s, _, _) = name_of edge.example_id edge.source_span_id source e₁ in
                    let (t, at_t, _, _) = name_of edge.example_id edge.target_span_id target e₂ in
                    record {
                      source = source;
                      target = target;
                      source_found = e₁;
                      target_found = e₂;
                      source_lt = get_elem?_bound spans source at_s;
                      target_lt = get_elem?_bound spans target at_t;
                    }
              ]
        ]

  -- `validate` succeeds only on well-formed spans with distinct names that do not overlap within
  -- an example, and on edges between named spans; and the identities that it returns are exactly
  -- the names with their indices.
  pub validate-IsValidated :
      (spans : List (SpanNode R)) (edges : List RelationEdge) (embeddings : Embeddings R)
      {ids : List Identity}
      → validate spans edges embeddings ≡ ok ids
      → IsValidated spans edges embeddings ids
  unfolding validate
  validate-IsValidated spans edges embeddings {ids} h =
      let (matrix, h₁) = raise_if-eq-ok (not (embeddings.ndim == 2)) _ _ h in
      let (some_span, h₂) = raise_if-eq-ok (length spans == 0) _ _ h₁ in
      let (ids', loop, h₃) = >>=-eq-ok (registers embeddings [] (enumerate_from 0 spans)) _ h₂ in
      let (t, groups, h₄) = >>=-eq-ok (for_each check_example (by_example spans)) _ h₃ in
      let (u, known, h₅) = >>=-eq-ok (for_each (check_edge ids') edges) _ h₄ in
      let valid : IsValidated spans edges embeddings ids' = record {
        matrix = ground arith;
        some_span = λ e. ground arith;
        well_formed = All-IsWellFormed spans edges embeddings ids' loop;
        indexed = find_at spans edges embeddings ids' loop;
        named = name_of spans edges embeddings ids' loop;
        no_overlap = groups-NoOverlap spans edges embeddings ids' loop groups;
        known =
            All-mono (λ edge. check_edge ids' edge ≡ ok tt) (IsKnown (length spans) ids') edges
              (edge_IsKnown spans edges embeddings ids' loop)
              (for_each-All (check_edge ids') edges known);
      } in
      subst (IsValidated spans edges embeddings) (ok-injective ids' ids h₅) valid
