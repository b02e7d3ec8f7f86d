-- ===== src/Binding/Semantic.antt =====
-- `build_semantic_plan` of superposition.py, up to the call of the native library.
use ztok.Common.{
  ℕ, suc, max, not, ◌&&◌, ◌||◌, List, [], ◌∷◌, map, Option, none, some, String, Result, Check, ok,
  err, ◌>>=◌, ◌>>◌, raise_if, map_result, value_error, length, filter_map, any, all, elem, ltb,
  ◌==◌, if◌then◌else◌, is_some, is_none, range, sum,
}
use ztok.Common.Floats.{Floats, of_nat, ◌≈◌}
use ztok.Common.Counting.{union, differ}
use ztok.Common.Sort.{sort}
use ztok.Common.Dict.{get_list, group_from}
use ztok.Mapping.Decision.{ids_eq}
use ztok.Binding.{SemanticSpan, Value, Item, Caption, SemanticDocument}

abbrev pub largest : List ℕ → ℕ
largest [] = 0
largest (x ∷ xs) = max x (largest xs)

-- `token_ends[c] = max(token_ends.get(c, 0), end)`.
unfoldable pub raise_end : ℕ → ℕ → List (ℕ × ℕ) → List (ℕ × ℕ)
raise_end c end [] = (c, max 0 end) ∷ []
raise_end c end ((k, n) ∷ ends) =
    if k == c then (k, max n end) ∷ ends else (k, n) ∷ raise_end c end ends

module _ {R : Type 0} where
  -- `_embedding_rows` on rows of floats.
  unfoldable pub embedding_rows : List (List R) → Result (List (List R))
  embedding_rows [] = ok []
  embedding_rows (row ∷ rows) = do
    let dimensions = length row
    raise_if (dimensions == 0 || any (λ r. not (length r == dimensions)) (row ∷ rows))
        (value_error "embeddings must be a rectangular non-empty-width matrix")
    ok (row ∷ rows)

  abbrev pub widths_of : List (SemanticSpan R) → List ℕ
  widths_of spans =
      filter_map (λ s. elim s.grounding [ none ↦ none | some xs ↦ some (length xs) ]) spans

  unfoldable pub check_grounding : List (SemanticSpan R) → Check
  check_grounding spans = do
    raise_if (any (λ s. is_some s.grounding) spans && any (λ s. is_none s.grounding) spans)
        (value_error "grounding vectors must be present for every span or none")
    raise_if (elem 0 (widths_of spans) || differ (widths_of spans))
        (value_error "grounding vectors must have one shared non-zero width")

  -- `max(caption_ids) + 1 if caption_ids else 0`.
  unfoldable pub caption_count : List (SemanticSpan R) → ℕ
  caption_count [] = 0
  caption_count (s ∷ ss) = suc (largest (map (λ s. s.caption_id) (s ∷ ss)))

  unfoldable pub check_captions : List (SemanticSpan R) → Check
  check_captions spans =
      raise_if
        (not (
          ids_eq (sort ltb (union [] (map (λ s. s.caption_id) spans)))
            (range (caption_count spans))))
        (value_error "caption_id values must be contiguous starting at zero")

  abbrev optional_text : String → Option String → String × Option (Value R)
  optional_text key none = (key, none)
  optional_text key (some s) = (key, some (Value.text s))

  -- The entries of a dictionary whose value is not `None`.
  unfoldable pub present : List (String × Option (Value R)) → Item R
  present entries = filter_map (λ e. elim e.1 [ none ↦ none | some v ↦ some (e.0, v) ]) entries

  unfoldable pub serialize : SemanticSpan R × List R → Item R
  serialize (span, embedding) = present (
      ("span_id", some (Value.text span.span_id))
      ∷ ("token_start", some (Value.number span.token_start))
      ∷ ("token_end", some (Value.number span.token_end))
      ∷ ("byte_start", some (Value.number span.byte_start))
      ∷ ("byte_end", some (Value.number span.byte_end))
      ∷ ("text", some (Value.text span.text))
      ∷ optional_text "role" span.role
      ∷ optional_text "entity_id" span.entity_id
      ∷ ("confidence", some (Value.float span.confidence))
      ∷ ("grounding", elim span.grounding [ none ↦ none | some xs ↦ some (Value.floats xs) ])
      ∷ ("grounding_confidence", some (Value.float span.grounding_confidence))
      ∷ ("section_reliability", some (Value.float span.section_reliability))
      ∷ ("embedding", some (Value.floats embedding))
      ∷ ("kind", some (Value.text span.kind))
      ∷ optional_text "order_class" span.order_class
      ∷ optional_text "relation_from_entity_id" span.relation_from_entity_id
      ∷ optional_text "relation_to_entity_id" span.relation_to_entity_id
      ∷ ("contradicts", some (Value.texts span.contradicts))
      ∷ [])

  -- `zip(spans, rows)`.
  abbrev pub zip_rows : List (SemanticSpan R) → List (List R) → List (SemanticSpan R × List R)
  zip_rows (s ∷ ss) (r ∷ rs) = (s, r) ∷ zip_rows ss rs
  zip_rows _ _ = []

  abbrev pub first_section : List (SemanticSpan R × List R) → Option String
  first_section [] = none
  first_section (p ∷ ps) = elim p.0.section [ some s ↦ some s | none ↦ first_section ps ]

  unfoldable pub by_caption :
      List (SemanticSpan R) → List (List R) → List (ℕ × List (SemanticSpan R × List R))
  by_caption spans rows = group_from (λ p. p.0.caption_id) (λ p. p) [] (zip_rows spans rows)

  unfoldable pub token_ends : List (ℕ × ℕ) → List (SemanticSpan R) → List (ℕ × ℕ)
  token_ends ends [] = ends
  token_ends ends (s ∷ ss) = token_ends (raise_end s.caption_id s.token_end ends) ss

module _ {R : Type 0} ⦃fl : Floats R⦄ where
  -- The quality that the spans of a caption share.
  unfoldable pub quality_of : List (SemanticSpan R × List R) → Result R
  quality_of [] = ok (of_nat 1)
  quality_of (p ∷ ps) =
      if all (λ q. q.0.caption_quality ≈ p.0.caption_quality) ps
      then ok p.0.caption_quality
      else err (value_error "all spans in a caption must share caption_quality")

  unfoldable pub caption_of : List (ℕ × List (SemanticSpan R × List R)) → ℕ → Result (Caption R)
  caption_of grouped caption_id = do
    let caption_spans = get_list caption_id grouped
    quality ← quality_of caption_spans
    ok (record {
      caption_id = caption_id;
      quality = quality;
      caption_text = "";
      tokens = [];
      spans = map serialize caption_spans;
      section = first_section caption_spans;
    })

  unfoldable pub build_semantic_document :
      List (SemanticSpan R) → List (List R) → String → Option ℕ → Result (SemanticDocument R)
  build_semantic_document spans embeddings image_id original_token_count = do
    rows ← embedding_rows embeddings
    raise_if (not (length rows == length spans))
        (value_error "embeddings row count must equal len(spans)")
    check_grounding spans
    check_captions spans
    captions ← map_result (caption_of (by_caption spans rows)) (range (caption_count spans))
    ok (record {
      schema = "ztok.semantic_spans.v1";
      image_id = image_id;
      original_token_count = elim original_token_count [
        | none ↦ sum (map (λ e. e.1) (token_ends [] spans))
        | some n ↦ n
      ];
      captions = captions;
    })
