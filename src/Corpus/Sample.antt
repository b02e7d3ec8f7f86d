-- ===== src/Corpus/Sample.antt =====
-- `PackedCorpus.sample` of dataset.py. The generator of random numbers is a parameter: its states,
-- and the integers that a call of `torch.randint` draws.
use ztok.Common.{
  ℕ, zero, suc, ◌+◌, ◌-◌, List, [], ◌∷◌, Option, Result, ok, err, ◌>>=◌, or_raise, value_error,
  index_error, length, get_elem?, take, drop, ltb, ◌==◌, if◌then◌else◌,
}
use ztok.Corpus.{PackedCorpus, document_length, TokenBatch, eligible_documents}

-- The element before position `i`; position zero is before the first, which is the last one.
unfoldable pub before : List ℕ → ℕ → Option ℕ
before xs zero = get_elem? xs (length xs - 1)
before xs (suc i) = get_elem? xs i

-- `xs[start:end]`.
abbrev pub slice : List ℕ → ℕ → ℕ → List ℕ
slice xs start end = take (end - start) (drop start xs)

unfoldable pub repeat : ℕ → ℕ → List ℕ
repeat zero x = []
repeat (suc n) x = x ∷ repeat n x

-- `output[row] = values`: numpy repeats a single value, and refuses another wrong length.
unfoldable pub assign_row : ℕ → List ℕ → Result (List ℕ)
assign_row width (x ∷ []) = ok (repeat width x)
assign_row width values =
    if length values == width
    then ok values
    else err (value_error "could not broadcast input array")

module _ {G : Type 0} (randint : ℕ → ℕ → G → List ℕ × G) where
  -- The offset in a document that has more than one window.
  unfoldable pub draw_relative : ℕ → G → Result (ℕ × G)
  draw_relative available g =
      let drawn = randint available 1 g in
      if ltb 1 available
      then (or_raise (get_elem? drawn.0 0) index_error >>= λ relative. ok (relative, drawn.1))
      else ok (0, g)

  -- The rows of a batch, one for each choice.
  unfoldable pub sample_rows : PackedCorpus → ℕ → List ℕ → List ℕ → G → Result (TokenBatch × G)
  sample_rows corpus sequence_tokens eligible [] g =
      ok (record { token_ids = []; source_bytes = 0; document_ids = [] }, g)
  sample_rows corpus sequence_tokens eligible (choice ∷ choices) g = do
    document_id ← or_raise (get_elem? eligible choice) index_error
    document ← or_raise (get_elem? corpus.documents document_id) index_error
    let available = document_length document + 1 - sequence_tokens
    (relative, g₁) ← draw_relative available g
    let start = document.token_start + relative
    let end = start + sequence_tokens
    row ← assign_row sequence_tokens (slice corpus.tokens start end)
    first_byte ← or_raise (get_elem? corpus.byte_starts start) index_error
    last_byte ← or_raise (before corpus.byte_ends end) index_error
    (rest, g₂) ← sample_rows corpus sequence_tokens eligible choices g₁
    ok (
      record {
        token_ids = row ∷ rest.token_ids;
        source_bytes = (last_byte - first_byte) + rest.source_bytes;
        document_ids = document_id ∷ rest.document_ids;
      },
      g₂,
    )

  unfoldable pub sample : PackedCorpus → ℕ → ℕ → G → Result (TokenBatch × G)
  sample corpus batch_size sequence_tokens g = do
    eligible ← eligible_documents corpus sequence_tokens
    let drawn = randint (length eligible) batch_size g
    sample_rows corpus sequence_tokens eligible drawn.0 drawn.1
