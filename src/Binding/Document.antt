-- ===== src/Binding/Document.antt =====
-- The document that is sent for semantic spans holds every span once, in its caption.
use ztok.Common.{
  ℕ, ◌≤◌, ◌<◌, ◌≡◌, sym, ap, ◌∙◌, subst, not, ◌||◌, List, [], ◌∷◌, map, Option, none, some, String,
  ok, map_result, length, any, ◌==◌, arith, range, range_from, sum, sum_by, All, All-mono,
  length-map, length-map_result, length-range_from, >>=-eq-ok, raise_if-eq-ok, ok-injective,
}
use ztok.Common.Floats.{Floats}
use ztok.Binding.{SemanticSpan, Caption, SemanticDocument}
use ztok.Binding.Sharing.{
  map_result-map, map_result-All, sum_by-key, shared_out, All-unmap, All-both,
}
use ztok.Common.Counting.{count, All-range_from}
use ztok.Binding.Semantic.{
  embedding_rows, check_grounding, check_captions, caption_count, serialize, zip_rows, by_caption,
  token_ends, caption_of, build_semantic_document,
}
use ztok.Binding.Captions.{
  ids_below, length-zip_rows, spans_of, IsCaption, caption_of-IsCaption, caption_used, used_length,
}

embedding_rows-eq-ok :
    {R : Type 0} (embeddings : List (List R)) {rows : List (List R)}
    → embedding_rows embeddings ≡ ok rows
    → embeddings ≡ rows
unfolding embedding_rows
embedding_rows-eq-ok [] {rows} h = ok-injective [] rows h
embedding_rows-eq-ok (e ∷ es) {rows} h =
    let wrong = length e == 0 || any (λ r. not (length r == length e)) (e ∷ es) in
    let (_, done) = raise_if-eq-ok wrong _ _ h in ok-injective (e ∷ es) rows done

module _ {R : Type 0} ⦃fl : Floats R⦄ where
  -- A document holds its spans, shared out by their captions.
  abbrev pub IsDocument : List (SemanticSpan R) → List (List R) → SemanticDocument R → Type 0
  IsDocument spans rows doc =
      (map (λ c. c.caption_id) doc.captions ≡ range (length doc.captions))
      × All (λ c. IsCaption spans rows c × (1 ≤ length c.spans)) doc.captions
      × (sum_by (λ c. length c.spans) doc.captions ≡ length spans)

  captions-IsDocument :
      (spans : List (SemanticSpan R)) (rows : List (List R)) {captions : List (Caption R)}
      (schema image_id : String) (count : ℕ)
      → length rows ≡ length spans
      → check_captions spans ≡ ok tt
      → map_result (caption_of (by_caption spans rows)) (range (caption_count spans)) ≡ ok captions
      → IsDocument spans rows (record {
        schema = schema;
        image_id = image_id;
        original_token_count = count;
        captions = captions;
      })
  unfolding range
  captions-IsDocument spans rows {captions} schema image_id count same_length contiguous h =
      let n = caption_count spans in
      let f = caption_of (by_caption spans rows) in
      let ids =
        map_result-map f (λ c. c.caption_id) (λ i c e. (caption_of-IsCaption spans rows i c e).0)
          (range_from 0 n) h in
      let are =
        map_result-All f (IsCaption spans rows) (λ i c e. (caption_of-IsCaption spans rows i c e).1)
          (range_from 0 n) h in
      let counts =
        sum_by-key (λ c. length c.spans) (λ c. c.caption_id) (λ i. length (spans_of spans rows i))
          captions
          (All-mono (IsCaption spans rows)
            (λ c. length c.spans ≡ length (spans_of spans rows c.caption_id)) captions
            (λ c is. ap length is.0 ∙ length-map (spans_of spans rows c.caption_id) serialize)
            are) in
      let total = shared_out (λ p. p.0.caption_id) n (zip_rows spans rows) (ids_below spans rows) in
      let long : length captions ≡ n =
        length-map_result f (range_from 0 n) h ∙ length-range_from 0 n in
      let below =
        All-unmap (λ i. i < n) (λ c. c.caption_id) captions
          (subst (All (λ i. i < n)) (sym ids) (All-range_from 0 n n (omega arith))) in
      (
        ids ∙ ap (range_from 0) (sym long),
        All-both (IsCaption spans rows) (λ c. c.caption_id < n)
            (λ c. IsCaption spans rows c × (1 ≤ length c.spans)) captions
            (λ c is lt. (
              is,
              subst (λ k. 1 ≤ k)
                  (sym (ap length is.0 ∙ length-map (spans_of spans rows c.caption_id) serialize))
                  (used_length spans rows c.caption_id same_length
                    (caption_used spans c.caption_id contiguous lt)),
            ))
            are below,
        counts
            ∙ ap (sum_by (λ i. length (spans_of spans rows i))) ids
            ∙ total
            ∙ length-zip_rows spans rows same_length,
      )

  -- A document that is built holds every span once: its captions are numbered from zero on, each
  -- has at least one span, and has exactly the given spans of that number, in their order and
  -- with their embeddings, with the quality that they share and the first section that they name.
  pub build_semantic_document-IsDocument :
      (spans : List (SemanticSpan R)) (embeddings : List (List R)) (image_id : String)
      (original_token_count : Option ℕ) {doc : SemanticDocument R}
      → build_semantic_document spans embeddings image_id original_token_count ≡ ok doc
      → IsDocument spans embeddings doc
  unfolding build_semantic_document
  build_semantic_document-IsDocument spans embeddings image_id given {doc} h =
      let (rows, is_rows, h₁) = >>=-eq-ok (embedding_rows embeddings) _ h in
      let (same, h₂) = raise_if-eq-ok (not (length rows == length spans)) _ _ h₁ in
      let (_, _, h₃) = >>=-eq-ok (check_grounding spans) _ h₂ in
      let (_, contiguous, h₄) = >>=-eq-ok (check_captions spans) _ h₃ in
      let (captions, made, h₅) =
        >>=-eq-ok (map_result (caption_of (by_caption spans rows)) (range (caption_count spans))) _
          h₄ in
      let total : ℕ = elim given [
        | none ↦ sum (map (λ e. e.1) (token_ends [] spans))
        | some n ↦ n
      ] in
      let built : SemanticDocument R = record {
        schema = "ztok.semantic_spans.v1";
        image_id = image_id;
        original_token_count = total;
        captions = captions;
      } in
      subst (IsDocument spans embeddings) (ok-injective built doc h₅) (
        subst (λ rs. IsDocument spans rs built) (sym (embedding_rows-eq-ok embeddings is_rows))
          (captions-IsDocument spans rows "ztok.semantic_spans.v1" image_id total (ground arith)
            contiguous made))
