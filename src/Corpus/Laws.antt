-- ===== src/Corpus/Laws.antt =====
-- What a sampled batch is made of: windows of documents that are long enough.
use ztok.Common.{
  ℕ, suc, ◌+◌, ◌-◌, ◌≤◌, ◌<◌, ◌≡◌, refl, ap, ◌∙◌, List, [], ◌∷◌, some, String, ok, length,
  get_elem?, take, drop, ltb, arith, All, All-get, get_elem?_lt, Bool-cases, inl, inr,
}
use ztok.Corpus.{
  PackedCorpus, Document, document_length, TokenBatch, open_corpus, eligible_documents,
}
use ztok.Corpus.Sample.{slice, assign_row, draw_relative, sample_rows, sample}
use ztok.Corpus.Windows.{
  InTokens, IsAligned, AreWindows, DrawsInRange, length-slice, assign_row-ok, document_length-lem,
  IsEligible, before-get_elem, open_corpus-IsAligned, eligible_documents-IsEligible,
}

module _ {G : Type 0} (randint : ℕ → ℕ → G → List ℕ × G) (draws : DrawsInRange randint) where
  -- An offset is drawn below the number of windows.
  draw_relative-bound :
      (available : ℕ) (g : G)
      → 1 ≤ available
      → (relative : ℕ) × (g' : G) × (draw_relative randint available g ≡ ok (relative, g'))
        × (relative < available)
  unfolding draw_relative
  draw_relative-bound available g h =
      let (one, below) = draws available 1 g h in
      let (r, e) = get_elem?_lt (randint available 1 g).0 0 (ground arith) in
      elim (Bool-cases (ltb 1 available)) [
        | inl many ↦ (
          r,
          (randint available 1 g).1,
          rw (many, e) refl,
          All-get (λ x. x < available) (randint available 1 g).0 0 below e,
        )
        | inr single ↦ (0, g, rw single refl, h)
      ]

  module _ (c : PackedCorpus) (aligned : IsAligned c) (width : ℕ) (wide : 1 ≤ width)
      (inside : All (InTokens (length c.tokens)) c.documents) where
    sample_rows-AreWindows :
        (eligible choices : List ℕ) (g : G)
        → All (IsEligible width 0 c.documents) eligible
        → All (λ x. x < length eligible) choices
        → (batch : TokenBatch) × (g' : G) × (sample_rows randint c width eligible choices g
            ≡ ok (batch, g'))
          × (length batch.document_ids ≡ length choices)
          × AreWindows c width batch.document_ids batch.token_ids batch.source_bytes
    unfolding sample_rows
    sample_rows-AreWindows eligible [] g ok_eligible ok_choices =
        (record { token_ids = []; source_bytes = 0; document_ids = [] }, g, refl, refl, refl)
    sample_rows-AreWindows eligible (choice ∷ choices) g ok_eligible ok_choices =
        let (id, is_id) = get_elem?_lt eligible choice ok_choices.0 in
        let (i, d, at, is_d, fits) =
          All-get (IsEligible width 0 c.documents) eligible choice ok_eligible is_id in
        let in_d = All-get (InTokens (length c.tokens)) c.documents i inside is_d in
        let size = document_length-lem (length c.tokens) d in_d in
        let same : id ≡ i = omega (arith, at) in
        let here : get_elem? c.documents id ≡ some d = ap (get_elem? c.documents) same ∙ is_d in
        let (r, g₁, is_r, bound) =
          draw_relative-bound (document_length d + 1 - width) g (ground arith) in
        let start = d.token_start + r in
        let inside_d : start + width ≤ d.token_end = ground arith in
        let inside_c : start + width ≤ length c.tokens = ground arith in
        let long = length-slice c.tokens start width inside_c in
        let row = take width (drop start c.tokens) in
        let is_row : assign_row width (slice c.tokens start (start + width)) ≡ ok row =
          ap (λ w. assign_row width (take w (drop start c.tokens))) (omega arith)
          ∙ assign_row-ok width row long in
        let (first, is_first) = get_elem?_lt c.byte_starts start (ground arith) in
        let (last, at_last) = get_elem?_lt c.byte_ends (start + width - 1) (ground arith) in
        let is_last = before-get_elem c.byte_ends (start + width) (ground arith) ∙ at_last in
        let (rest, g₂, is_rest, count, windows) =
          sample_rows-AreWindows eligible choices g₁ ok_eligible ok_choices.1 in
        (
          record {
            token_ids = row ∷ rest.token_ids;
            source_bytes = (last - first) + rest.source_bytes;
            document_ids = id ∷ rest.document_ids;
          },
          g₂,
          rw (is_id, here, is_r, is_row, is_first, is_last, is_rest) refl,
          ap suc count,
          (
            last - first,
            rest.source_bytes,
            refl,
            (
              d,
              start,
              first,
              last,
              here,
              ground arith,
              inside_d,
              refl,
              long,
              is_first,
              at_last,
              refl,
            ),
            windows,
          ),
        )

  -- On a corpus that opened, whose documents lie in its tokens, with a generator that draws in
  -- range: if a document is long enough for the asked `sequence_tokens`, at least one, `sample` returns the asked number of rows, each a window
  -- of `sequence_tokens` tokens inside one document, and the sum of the windows' source bytes.
  pub sample-AreWindows :
      (schema split : String) (tokens byte_starts byte_ends : List ℕ) (documents : List Document)
      {corpus : PackedCorpus} {eligible : List ℕ} (batch_size sequence_tokens : ℕ) (g : G)
      → open_corpus schema split tokens byte_starts byte_ends documents ≡ ok corpus
      → All (InTokens (length tokens)) documents
      → 1 ≤ sequence_tokens
      → eligible_documents corpus sequence_tokens ≡ ok eligible
      → (batch : TokenBatch) × (g' : G) × (sample randint corpus batch_size sequence_tokens g
          ≡ ok (batch, g'))
        × (length batch.document_ids ≡ batch_size)
        × AreWindows corpus sequence_tokens batch.document_ids batch.token_ids batch.source_bytes
  unfolding sample
  sample-AreWindows schema split tokens byte_starts byte_ends documents {corpus} {eligible} n width
        g opened inside wide is_eligible =
      let (aligned, is_tokens, is_documents) =
        open_corpus-IsAligned schema split tokens byte_starts byte_ends documents opened in
      let (enough, one) = eligible_documents-IsEligible corpus width is_eligible in
      let inside' : All (InTokens (length corpus.tokens)) corpus.documents =
        rw (is_tokens, is_documents) inside in
      let (count, below) = draws (length eligible) n g one in
      let drawn = randint (length eligible) n g in
      let (batch, g', rows, many, windows) =
        sample_rows-AreWindows corpus aligned width wide inside' eligible drawn.0 drawn.1 enough
          below in
      (batch, g', rw is_eligible rows, many ∙ count, windows)
