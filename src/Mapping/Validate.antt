-- ===== src/Mapping/Validate.antt =====
-- `_validate` and `_relation_signatures` of dataset_mapping.py.
pub mod Overlap
pub mod Names
pub mod Laws
use Prim.Native.String.{compare as compare_str}
use Prim.Native.Nat.{Ordering}
use ztok.Common.{
  ℕ, suc, ◌+◌, ◌<◌, ◌≤◌, Bool, true, false, not, ◌&&◌, ◌||◌, List, [], ◌∷◌, ◌++◌, map, Option, none,
  some, String, Result, Check, for_each, ok, err, ◌>>=◌, ◌>>◌, raise_if, or_raise, value_error,
  key_error, index_error, ltb, leb, ◌==◌, str_eq, if◌then◌else◌, is_some, enumerate_from,
  fold_result, map_result, get_elem?, set, length,
}
use ztok.Common.Floats.{Floats, in_unit}
use ztok.Common.Sort.{sort}
use ztok.Common.Dict.{group_from}
use ztok.Mapping.{SpanNode, RelationEdge, Embeddings, Identity}

-- `identities.get((example, span))`.
unfoldable pub find_identity : ℕ → String → List Identity → Option ℕ
find_identity example span [] = none
find_identity example span (entry ∷ rest) =
    if entry.example_id == example && str_eq entry.span_id span
    then some entry.index
    else find_identity example span rest

module _ {R : Type 0} ⦃fl : Floats R⦄ where
  -- The body of the first loop of `_validate`.
  unfoldable pub register : Embeddings R → List Identity → ℕ × SpanNode R → Result (List Identity)
  register embeddings identities (index, span) = do
    raise_if (is_some (find_identity span.example_id span.span_id identities))
        (value_error "duplicate span identity")
    raise_if (leb span.token_end span.token_start) (value_error "empty or reversed token span")
    raise_if (not (ltb span.embedding_index embeddings.rows))
        (value_error "embedding index out of range")
    raise_if (not (in_unit span.confidence)) (value_error "confidence must be in [0, 1]")
    ok (record { example_id = span.example_id; span_id = span.span_id; index = index } ∷ identities)

module _ {R : Type 0} where
  -- `key=lambda span: (span.token_start, span.token_end)`.
  abbrev pub starts_before : SpanNode R → SpanNode R → Bool
  starts_before a b =
      ltb a.token_start b.token_start
      || (a.token_start == b.token_start && ltb a.token_end b.token_end)

  -- The loop over `pairwise(ordered)`.
  unfoldable pub check_ordered : List (SpanNode R) → Check
  check_ordered [] = ok tt
  check_ordered (left ∷ []) = ok tt
  check_ordered (left ∷ right ∷ rest) = do
    raise_if (ltb right.token_start left.token_end) (value_error "overlapping spans")
    check_ordered (right ∷ rest)

  -- `by_example`, in the order in which the examples come.
  abbrev pub by_example : List (SpanNode R) → List (ℕ × List (SpanNode R))
  by_example spans = group_from (λ s. s.example_id) (λ s. s) [] spans

  unfoldable pub check_example : ℕ × List (SpanNode R) → Check
  check_example (example, spans) = check_ordered (sort starts_before spans)

-- The loop over the edges.
unfoldable pub check_edge : List Identity → RelationEdge → Check
check_edge identities edge =
    raise_if
      (not (is_some (find_identity edge.example_id edge.source_span_id identities))
        || not (is_some (find_identity edge.example_id edge.target_span_id identities)))
      (value_error "relation references unknown span")

module _ {R : Type 0} ⦃fl : Floats R⦄ where
  unfoldable pub validate :
      List (SpanNode R) → List RelationEdge → Embeddings R → Result (List Identity)
  validate spans edges embeddings = do
    raise_if (not (embeddings.ndim == 2))
        (value_error "embeddings must be a [span, dimension] matrix")
    raise_if (length spans == 0) (value_error "at least one span is required")
    identities ← fold_result (register embeddings) [] (enumerate_from 0 spans)
    for_each check_example (by_example spans)
    for_each (check_edge identities) edges
    ok identities
