-- ===== src/Mapping/Decision/Signatures.antt =====
-- About the signatures that `relation_signatures` makes: what stands in them.
use mathlib.Core.Option.{some-injective}
use ztok.Common.{
  ℕ, ◌≡◌, refl, List, [], ◌∷◌, ok, arith, get_elem?_lt, length, ◌<◌, fold_result, ap, sum_by,
  sum_by-append, zero, suc, ◌+◌, Option, none, some, get_elem?, ◌==◌, if◌then◌else◌, All,
  length-map, length-set, map, set, ◌++◌,
}
use ztok.Mapping.{SpanNode, RelationEdge, Identity}
use ztok.Common.Sort.{sort, sum_by-sort}
use ztok.Mapping.Validate.{find_identity}
use ztok.Mapping.Validate.Laws.{IsKnown}
use ztok.Mapping.Decision.{
  Entry, sign_edge, relation_signatures, append_entry, entry_before, entry_of,
}

-- The weights of the entries of the signature at an index, added up.
abbrev pub weight_at : (Entry → ℕ) → ℕ → List (List Entry) → ℕ
weight_at f i [] = 0
weight_at f zero (x ∷ xs) = sum_by f x
weight_at f (suc i) (x ∷ xs) = weight_at f i xs

weight_at-set :
    (f : Entry → ℕ) (i j : ℕ) (s : List (List Entry)) (old : List Entry) (entry : Entry)
    → get_elem? s j ≡ some old
    → weight_at f i (set s j (old ++ entry ∷ []))
      ≡ weight_at f i s + (if j == i then f entry else 0)
unfolding sum_by
weight_at-set f i j [] old entry e = cc
weight_at-set f zero zero (x ∷ s) old entry e =
    omega (arith, sum_by-append f old (entry ∷ []), ap (sum_by f) (some-injective x old e))
weight_at-set f (suc i) zero (x ∷ s) old entry e = ground arith
weight_at-set f zero (suc j) (x ∷ s) old entry e = ground arith
weight_at-set f (suc i) (suc j) (x ∷ s) old entry e =
    ground (arith, weight_at-set f i j s old entry e)

weight_at-sort :
    (f : Entry → ℕ) (i : ℕ) (s : List (List Entry))
    → weight_at f i (map (sort entry_before) s) ≡ weight_at f i s
weight_at-sort f i [] = refl
weight_at-sort f zero (x ∷ s) = sum_by-sort entry_before f x
weight_at-sort f (suc i) (x ∷ s) = weight_at-sort f i s

append_entry_total :
    (s : List (List Entry)) (i : ℕ) (entry : Entry)
    → i < length s
    → (t : List (List Entry)) × (append_entry s i entry ≡ ok t)
      × (length t ≡ length s)
      × ((f : Entry → ℕ) (k : ℕ)
          → weight_at f k t ≡ weight_at f k s + (if i == k then f entry else 0))
unfolding append_entry
append_entry_total s i entry h =
    let (old, e) = get_elem?_lt s i h in
    (
      set s i (old ++ entry ∷ []),
      rw e refl,
      length-set s i (old ++ entry ∷ []),
      λ f k. weight_at-set f k i s old entry e,
    )

module _ {R : Type 0} (spans : List (SpanNode R)) (identities : List Identity) where
  -- What the entry for a span weighs, when it goes to the signature of an index.
  abbrev part : (Entry → ℕ) → ℕ → (SpanNode R → Entry) → Option ℕ → Option ℕ → ℕ
  part f i entry none other = 0
  part f i entry (some a) none = 0
  part f i entry (some a) (some b) =
      if a == i then elim (get_elem? spans b) [ none ↦ 0 | some s ↦ f (entry s) ] else 0

  -- What an edge adds to the signature of an index: an "out" entry for its target if its source is
  -- there, and an "in" entry for its source if its target is.
  abbrev pub edge_weight : (Entry → ℕ) → ℕ → RelationEdge → ℕ
  edge_weight f i edge =
      let source = find_identity edge.example_id edge.source_span_id identities in
      let target = find_identity edge.example_id edge.target_span_id identities in
      part f i (entry_of "out" edge.relation) source target
      + part f i (entry_of "in" edge.relation) target source

  -- The signatures hold the entries of the edges, and no others, in some order.
  abbrev pub AreSignatures : List RelationEdge → List (List Entry) → Type 0
  AreSignatures edges signatures =
      (length signatures ≡ length spans)
      × ((f : Entry → ℕ) (i : ℕ) → weight_at f i signatures ≡ sum_by (edge_weight f i) edges)

  sign_edge_total :
      (s : List (List Entry)) (edge : RelationEdge)
      → length s ≡ length spans
      → IsKnown (length spans) identities edge
      → (t : List (List Entry)) × (sign_edge spans identities s edge ≡ ok t)
        × (length t ≡ length spans)
        × ((f : Entry → ℕ) (i : ℕ) → weight_at f i t ≡ weight_at f i s + edge_weight f i edge)
  unfolding sign_edge
  sign_edge_total s edge h k =
      let (source, e₁) = get_elem?_lt spans k.source k.source_lt in
      let (target, e₂) = get_elem?_lt spans k.target k.target_lt in
      let (t, e₃, l₃, w₃) =
        append_entry_total s k.source (entry_of "out" edge.relation target) (omega arith) in
      let (u, e₄, l₄, w₄) =
        append_entry_total t k.target (entry_of "in" edge.relation source) (omega arith) in
      (
        u,
        rw (k.source_found, k.target_found, e₁, e₂, e₃, e₄) refl,
        omega arith,
        λ f i. rw (k.source_found, k.target_found, e₁, e₂) (omega (arith, w₃ f i, w₄ f i)),
      )

  sign_edges_total :
      (s : List (List Entry)) (edges : List RelationEdge)
      → length s ≡ length spans
      → All (IsKnown (length spans) identities) edges
      → (t : List (List Entry)) × (fold_result (sign_edge spans identities) s edges ≡ ok t)
        × (length t ≡ length spans)
        × ((f : Entry → ℕ) (i : ℕ)
            → weight_at f i t ≡ weight_at f i s + sum_by (edge_weight f i) edges)
  unfolding fold_result sum_by
  sign_edges_total s [] h k = (s, refl, h, λ f i. omega arith)
  sign_edges_total s (edge ∷ edges) h (k, ks) =
      let (t, e, l, w) = sign_edge_total s edge h k in
      let (u, e', l', w') = sign_edges_total t edges l ks in
      (u, rw e e', l', λ f i. omega (arith, w f i, w' f i))

  weight_at-empty :
      (f : Entry → ℕ) (i : ℕ) (xs : List (SpanNode R)) → weight_at f i (map (λ _. []) xs) ≡ 0
  unfolding sum_by
  weight_at-empty f i [] = refl
  weight_at-empty f zero (x ∷ xs) = refl
  weight_at-empty f (suc i) (x ∷ xs) = weight_at-empty f i xs

  -- With every edge known, the signatures are made.
  pub relation_signatures_total :
      (edges : List RelationEdge)
      → All (IsKnown (length spans) identities) edges
      → (signatures : List (List Entry)) × (relation_signatures spans edges identities
          ≡ ok signatures)
        × AreSignatures edges signatures
  unfolding relation_signatures
  relation_signatures_total edges h =
      let (s, e, l, w) =
        sign_edges_total (map (λ _. []) spans) edges (length-map spans (λ _. [])) h in
      (
        map (sort entry_before) s,
        rw e refl,
        (
          omega (arith, length-map s (sort entry_before)),
          λ f i. omega (arith, weight_at-sort f i s, w f i, weight_at-empty f i spans),
        ),
      )
