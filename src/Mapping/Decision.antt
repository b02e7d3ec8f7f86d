-- ===== src/Mapping/Decision.antt =====
-- `_relation_signatures`, `_known_equal` and `_pair_decision` of dataset_mapping.py.
pub mod Laws
pub mod Signatures
use Prim.Native.String.{compare as compare_str}
use Prim.Native.Nat.{Ordering}
use ztok.Common.{
  ℕ, suc, Bool, true, false, not, ◌&&◌, ◌||◌, List, [], ◌∷◌, ◌++◌, map, Option, none, some, String,
  Result, ok, err, ◌>>=◌, ◌>>◌, or_raise, key_error, index_error, min, max, ltb, ◌==◌, str_eq,
  opt_str_eq, if◌then◌else◌, is_some, is_none, fold_result, get_elem?, set, any,
}
use ztok.Common.Floats.{Floats, of_nat, ◌≺◌}
use ztok.Common.Sort.{sort}
use ztok.Mapping.{
  SpanNode, RelationEdge, DatasetMappingConfig, Embeddings, PairDecision, Identity, Reason,
}
use ztok.Mapping.Validate.{find_identity}

-- One entry of a signature: the tuple's seven texts, in order.
abbrev pub Entry : Type 0
Entry = List String

-- Comparison of tuples of texts, item by item.
unfoldable pub entry_before : Entry → Entry → Bool
entry_before [] [] = false
entry_before [] (t ∷ ts) = true
entry_before (s ∷ ss) [] = false
entry_before (s ∷ ss) (t ∷ ts) =
    let rest = entry_before ss ts in
    elim (compare_str s t) [ Ordering.lt ↦ true | Ordering.eq ↦ rest | Ordering.gt ↦ false ]

unfoldable pub entry_eq : Entry → Entry → Bool
entry_eq [] [] = true
entry_eq [] (t ∷ ts) = false
entry_eq (s ∷ ss) [] = false
entry_eq (s ∷ ss) (t ∷ ts) = str_eq s t && entry_eq ss ts

unfoldable pub signature_eq : List Entry → List Entry → Bool
unfolding entry_eq
signature_eq [] [] = true
signature_eq [] (b ∷ bs) = false
signature_eq (a ∷ as') [] = false
signature_eq (a ∷ as') (b ∷ bs) = entry_eq a b && signature_eq as' bs

-- `text or ""`.
abbrev pub or_empty : Option String → String
or_empty none = ""
or_empty (some text) = text

-- `signatures[index].append(entry)`.
append_entry : List (List Entry) → ℕ → Entry → Result (List (List Entry))
append_entry signatures index entry = do
  old ← or_raise (get_elem? signatures index) index_error
  ok (set signatures index (old ++ entry ∷ []))

module _ {R : Type 0} where
  unfoldable pub entry_of : String → String → SpanNode R → Entry
  entry_of direction relation other =
      direction
      ∷ relation
      ∷ or_empty other.grammatical_role
      ∷ or_empty other.semantic_role
      ∷ or_empty other.semantic_value
      ∷ or_empty other.entity_type
      ∷ or_empty other.binding_type
      ∷ []

  -- The body of the loop over the edges.
  pub sign_edge :
      List (SpanNode R)
      → List Identity
      → List (List Entry)
      → RelationEdge
      → Result (List (List Entry))
  sign_edge spans identities signatures edge = do
    source_index ← or_raise (find_identity edge.example_id edge.source_span_id identities) key_error
    target_index ← or_raise (find_identity edge.example_id edge.target_span_id identities) key_error
    source ← or_raise (get_elem? spans source_index) index_error
    target ← or_raise (get_elem? spans target_index) index_error
    signatures' ← append_entry signatures source_index (entry_of "out" edge.relation target)
    append_entry signatures' target_index (entry_of "in" edge.relation source)

  pub relation_signatures :
      List (SpanNode R) → List RelationEdge → List Identity → Result (List (List Entry))
  relation_signatures spans edges identities = do
    signatures ← fold_result (sign_edge spans identities) (map (λ _. []) spans) edges
    ok (map (sort entry_before) signatures)

unfoldable pub known_equal : Bool → Option String → Option String → Bool
known_equal required left right =
    if required && (is_none left || is_none right)
    then false
    else is_none left || is_none right || opt_str_eq left right

abbrev pub protected_entity_types : List String
protected_entity_types =
    "CARDINAL" ∷ "DATE" ∷ "EVENT" ∷ "FAC" ∷ "GPE" ∷ "LANGUAGE" ∷ "LAW" ∷ "LOC" ∷ "MONEY" ∷ "NORP"
    ∷ "ORDINAL" ∷ "ORG" ∷ "PERCENT" ∷ "PERSON" ∷ "PRODUCT" ∷ "QUANTITY" ∷ "TIME" ∷ "WORK_OF_ART"
    ∷ []

-- `entity_type in PROTECTED_ENTITY_TYPES`; `None` is not.
unfoldable pub is_protected_entity : Option String → Bool
unfolding any
is_protected_entity none = false
is_protected_entity (some t) = any (str_eq t) protected_entity_types

unfoldable pub ids_eq : List ℕ → List ℕ → Bool
ids_eq [] [] = true
ids_eq [] (y ∷ ys) = false
ids_eq (x ∷ xs) [] = false
ids_eq (x ∷ xs) (y ∷ ys) = x == y && ids_eq xs ys

-- `left.source_token_ids is not None and left.source_token_ids == right.source_token_ids`.
unfoldable pub same_source : Option (List ℕ) → Option (List ℕ) → Bool
unfolding ids_eq
same_source none right = false
same_source (some xs) none = false
same_source (some xs) (some ys) = ids_eq xs ys

unfoldable pub elem_pair : ℕ → ℕ → List (ℕ × ℕ) → Bool
elem_pair a b [] = false
elem_pair a b ((c, d) ∷ pairs) = c == a && d == b || elem_pair a b pairs

-- The pair is not among the allowed ones, where there are such.
unfoldable pub pair_blocked : Option (List (ℕ × ℕ)) → ℕ → ℕ → Bool
unfolding elem_pair
pair_blocked none left right = false
pair_blocked (some pairs) left right = not (elem_pair (min left right) (max left right) pairs)

-- `reason == "compatible"`.
abbrev pub is_compatible : Reason → Bool
is_compatible Reason.compatible = true
is_compatible _ = false

module _ {R : Type 0} ⦃fl : Floats R⦄ where
  unfoldable pub protected_exact : SpanNode R → SpanNode R → Bool
  unfolding same_source
  protected_exact left right =
      left.protected && right.protected && same_source left.source_token_ids right.source_token_ids

  -- The chain of tests that sets `reason`.
  unfoldable pub pair_reason :
      SpanNode R
      → SpanNode R
      → R
      → List Entry
      → List Entry
      → DatasetMappingConfig R
      → Option (List (ℕ × ℕ))
      → Reason
  pair_reason left right similarity left_signature right_signature config allowed =
      if left.example_id == right.example_id
      then Reason.same_example
      else if pair_blocked allowed left.example_id right.example_id
      then Reason.retrieval_pair_blocked
      else if (left.protected || right.protected) && not (protected_exact left right)
      then Reason.protected_span
      else if (is_protected_entity left.entity_type || is_protected_entity right.entity_type)
          && not (same_source left.source_token_ids right.source_token_ids)
      then Reason.protected_entity_identity
      else if not
          (known_equal config.require_grammatical_role left.grammatical_role right.grammatical_role)
      then Reason.grammatical_role_mismatch
      else if not (known_equal config.require_semantic_role left.semantic_role right.semantic_role)
      then Reason.semantic_role_mismatch
      else if not (known_equal false left.semantic_value right.semantic_value)
      then Reason.semantic_value_mismatch
      else if not (known_equal false left.entity_type right.entity_type)
      then Reason.entity_type_mismatch
      else if not (known_equal false left.binding_type right.binding_type)
      then Reason.binding_type_mismatch
      else if config.require_relation_signature && not (signature_eq left_signature right_signature)
      then Reason.relation_signature_mismatch
      else if similarity ≺ config.cosine_threshold
      then Reason.cosine_below_threshold
      else Reason.compatible

  -- `1.0 if protected_exact else float(torch.dot(…))`.
  abbrev pub pair_similarity : Embeddings R → SpanNode R → SpanNode R → R
  pair_similarity embeddings left right =
      if protected_exact left right
      then of_nat 1
      else embeddings.normalized_dot left.embedding_index right.embedding_index

  unfoldable pub pair_decision :
      ℕ
      → ℕ
      → List (SpanNode R)
      → Embeddings R
      → List (List Entry)
      → DatasetMappingConfig R
      → Option (List (ℕ × ℕ))
      → Result (PairDecision R)
  pair_decision left_index right_index spans embeddings signatures config allowed = do
    left ← or_raise (get_elem? spans left_index) index_error
    right ← or_raise (get_elem? spans right_index) index_error
    left_signature ← or_raise (get_elem? signatures left_index) index_error
    right_signature ← or_raise (get_elem? signatures right_index) index_error
    let similarity = pair_similarity embeddings left right
    let reason = pair_reason left right similarity left_signature right_signature config allowed
    ok (record {
      left_span_index = left_index;
      right_span_index = right_index;
      cosine_similarity = similarity;
      accepted = is_compatible reason;
      reason = reason;
    })
