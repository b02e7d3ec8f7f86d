-- ===== src/Corpus/Examples.antt =====
-- A corpus of two documents, and a counter for a generator.
use ztok.Common.{
  ℕ, zero, suc, ◌+◌, ◌%◌, ◌<◌, ◌≡◌, refl, List, [], ◌∷◌, true, false, ok, arith, All, length,
}
use ztok.Corpus.{PackedCorpus, Document, TokenBatch, open_corpus, eligible_documents, long_enough}
use ztok.Corpus.Sample.{sample, repeat}
use ztok.Corpus.Prefetch.{start}
use ztok.Corpus.Refinement.{
  Command, take_next, checkpoint, shut, restart, run, run_demand, run-run_demand,
}
use ztok.Corpus.Windows.{DrawsInRange, AreWindows}
use ztok.Corpus.Laws.{sample-AreWindows}

abbrev documents : List Document
documents =
    record { token_start = 0; token_end = 2; byte_start = 0; byte_end = 8 }
    ∷ record { token_start = 2; token_end = 6; byte_start = 8; byte_end = 20 }
    ∷ []

abbrev corpus : PackedCorpus
corpus = record {
  split = "train";
  tokens = 11 ∷ 12 ∷ 13 ∷ 14 ∷ 15 ∷ 16 ∷ [];
  byte_starts = 0 ∷ 4 ∷ 8 ∷ 11 ∷ 14 ∷ 17 ∷ [];
  byte_ends = 4 ∷ 8 ∷ 11 ∷ 14 ∷ 17 ∷ 20 ∷ [];
  documents = documents;
}

-- The draws are the counter's value, wrapped into the range.
abbrev randint : ℕ → ℕ → ℕ → List ℕ × ℕ
randint high count g = (repeat count (g % high), g + 1)

draws : DrawsInRange randint
unfolding repeat
draws high count g h = (length-repeat count (g % high), below count (g % high) (ground arith))
  where
    length-repeat : (n x : ℕ) → length (repeat n x) ≡ n
    length-repeat zero x = refl
    length-repeat (suc n) x = ground (arith, length-repeat n x)

    below : (n x : ℕ) → x < high → All (λ y. y < high) (repeat n x)
    below zero x h = tt
    below (suc n) x h = (h, below n x h)

opened :
    open_corpus "ztok.nanogpt_superposition.dataset.v1" "train" corpus.tokens corpus.byte_starts
      corpus.byte_ends documents
    ≡ ok corpus
unfolding open_corpus
opened = refl

eligible : eligible_documents corpus 3 ≡ ok (1 ∷ [])
unfolding eligible_documents long_enough
eligible = refl

sample-AreWindows_example :
    (batch : TokenBatch) × (g' : ℕ) × (sample randint corpus 2 3 5 ≡ ok (batch, g'))
    × (length batch.document_ids ≡ 2)
    × AreWindows corpus 3 batch.document_ids batch.token_ids batch.source_bytes
sample-AreWindows_example =
    sample-AreWindows randint draws "ztok.nanogpt_superposition.dataset.v1" "train" corpus.tokens
      corpus.byte_starts corpus.byte_ends documents {corpus = corpus} {eligible = 1 ∷ []} 2 3 5
      opened
      ((ground arith, ground arith, ground arith), ((ground arith, ground arith, ground arith), tt))
      (ground arith) eligible

abbrev rand : ℕ → ℕ × ℕ
rand g = (g, g + 1)

abbrev commands : List Command
commands = take_next ∷ checkpoint ∷ restart 1 2 ∷ take_next ∷ shut ∷ take_next ∷ []

run-run_demand_example :
    run randint rand corpus true commands (start randint rand corpus 2 3 5 true)
    ≡ run_demand randint rand corpus true commands
        (record { batch_size = 2; sequence_tokens = 3; generator = 5; is_shut = false })
run-run_demand_example = run-run_demand randint rand corpus true 2 3 5 commands
