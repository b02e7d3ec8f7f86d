-- ===== src/Corpus.antt =====
-- experiments/nanogpt_superposition/dataset.py: a prepared corpus and its sampling.
pub mod Sample
pub mod Prefetch
pub mod Windows
pub mod Laws
pub mod Refinement
pub mod Examples
use ztok.Common.{
  ℕ, ◌+◌, ◌-◌, ◌%◌, if◌then◌else◌, Bool, not, ◌||◌, ◌&&◌, List, [], ◌∷◌, String, Result, Check, ok,
  err, ◌>>=◌, ◌>>◌, raise_if, value_error, length, leb, ◌==◌, str_eq,
}

-- A row of the documents' table: its tokens, and two columns that sampling does not read.
pub record Document : Type 0 where
  pub token_start : ℕ
  pub token_end : ℕ
  pub byte_start : ℕ
  pub byte_end : ℕ

pub record PackedCorpus : Type 0 where
  pub split : String
  pub tokens : List ℕ
  pub byte_starts : List ℕ
  pub byte_ends : List ℕ
  pub documents : List Document

pub record TokenBatch : Type 0 where
  pub token_ids : List (List ℕ)
  pub source_bytes : ℕ
  pub document_ids : List ℕ

-- `PackedCorpus.__init__` on the files' contents.
unfoldable pub open_corpus :
    (schema split : String)
    → (tokens byte_starts byte_ends : List ℕ) → List Document
    → Result PackedCorpus
open_corpus schema split tokens byte_starts byte_ends documents = do
  raise_if (not (str_eq schema "ztok.nanogpt_superposition.dataset.v1"))
      (value_error "unsupported prepared dataset schema")
  raise_if (not (str_eq split "train" || str_eq split "validation"))
      (value_error "split must be train or validation")
  raise_if (not (length tokens == length byte_starts && length byte_starts == length byte_ends))
      (value_error "prepared token and byte arrays are misaligned")
  ok (record {
    split = split;
    tokens = tokens;
    byte_starts = byte_starts;
    byte_ends = byte_ends;
    documents = documents;
  })

-- The range of `uint64`, the type of the documents' table.
abbrev pub uint64_range : ℕ
uint64_range = 18446744073709551616

-- `self.documents[:, 1] - self.documents[:, 0]`, which wraps around.
abbrev pub document_length : Document → ℕ
document_length d = (d.token_end + uint64_range - d.token_start) % uint64_range

-- The indices of the documents with enough tokens, in order.
unfoldable pub long_enough : ℕ → ℕ → List Document → List ℕ
long_enough sequence_tokens i [] = []
long_enough sequence_tokens i (d ∷ ds) =
    let rest = long_enough sequence_tokens (i + 1) ds in
    if leb sequence_tokens (document_length d) then i ∷ rest else rest

unfoldable pub eligible_documents : PackedCorpus → ℕ → Result (List ℕ)
eligible_documents corpus sequence_tokens = do
  let eligible = long_enough sequence_tokens 0 corpus.documents
  raise_if (length eligible == 0) (value_error "no document has the tokens")
  ok eligible
