-- ===== src/Corpus/Prefetch.antt =====
-- `DeterministicBatchPrefetcher` of dataset.py. A future is the outcome of its computation, which
-- is fixed when it is submitted: it works on a clone of the generator's state.
use ztok.Common.{ℕ, Bool, true, false, List, Result, ok, err, ◌>>=◌, runtime_error, if◌then◌else◌}
use ztok.Corpus.{PackedCorpus, TokenBatch}
use ztok.Corpus.Sample.{sample}

pub record Prefetcher (R G : Type 0) : Type 0 where
  pub corpus : PackedCorpus
  pub batch_size : ℕ
  pub sequence_tokens : ℕ
  pub generator : G
  pub pin_memory : Bool
  pub closed : Bool
  pub future : Result (R × TokenBatch × G)

module _ {R G : Type 0} (randint : ℕ → ℕ → G → List ℕ × G) (rand : G → R × G) where
  -- `produce`: a random value, and a batch, which pinning copies.
  unfoldable pub produce : PackedCorpus → ℕ → ℕ → Bool → G → Result (R × TokenBatch × G)
  produce corpus batch_size sequence_tokens pin g =
      let drawn = rand g in
      sample randint corpus batch_size sequence_tokens drawn.1 >>= λ sampled.
      let batch = sampled.0 in
      ok (
        drawn.0,
        (if pin
            then record {
              token_ids = batch.token_ids;
              source_bytes = batch.source_bytes;
              document_ids = batch.document_ids;
            }
            else batch),
        sampled.1,
      )

  unfoldable pub submit : Prefetcher R G → Prefetcher R G
  submit p = record {
    corpus = p.corpus;
    batch_size = p.batch_size;
    sequence_tokens = p.sequence_tokens;
    generator = p.generator;
    pin_memory = p.pin_memory;
    closed = p.closed;
    future = produce p.corpus p.batch_size p.sequence_tokens p.pin_memory p.generator;
  }

  -- `__init__`.
  unfoldable pub start : PackedCorpus → ℕ → ℕ → G → Bool → Prefetcher R G
  start corpus batch_size sequence_tokens generator pin = record {
    corpus = corpus;
    batch_size = batch_size;
    sequence_tokens = sequence_tokens;
    generator = generator;
    pin_memory = pin;
    closed = false;
    future = produce corpus batch_size sequence_tokens pin generator;
  }

  abbrev set_state : Prefetcher R G → G → Prefetcher R G
  set_state p g = record {
    corpus = p.corpus;
    batch_size = p.batch_size;
    sequence_tokens = p.sequence_tokens;
    generator = g;
    pin_memory = p.pin_memory;
    closed = p.closed;
    future = p.future;
  }

  -- The state after an error is the state before.
  unfoldable pub next : Prefetcher R G → Result (R × TokenBatch) × Prefetcher R G
  next p =
      if p.closed then (err (runtime_error "batch prefetcher is closed"), p) else elim p.future [
        | err e ↦ (err e, p)
        | ok done ↦ (ok (done.0, done.1), submit (set_state p done.2))
      ]

  -- A second call changes nothing.
  unfoldable pub close : Prefetcher R G → Prefetcher R G
  close p = record {
    corpus = p.corpus;
    batch_size = p.batch_size;
    sequence_tokens = p.sequence_tokens;
    generator = p.generator;
    pin_memory = p.pin_memory;
    closed = true;
    future = p.future;
  }
