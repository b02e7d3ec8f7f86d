-- ===== src/Corpus/Refinement.antt =====
-- A prefetcher cannot be told from sampling on demand.
use ztok.Common.{
  ℕ, ◌≡◌, refl, sym, ap, ap₂, ◌∙◌, Bool, true, false, List, [], ◌∷◌, Result, Error, ok, err,
  runtime_error, if◌then◌else◌, Bool-cases, ◌>>=◌, inl, inr,
}
use ztok.Corpus.{PackedCorpus, TokenBatch}
use ztok.Corpus.Sample.{sample}
use ztok.Corpus.Prefetch.{Prefetcher, produce, submit, start, next, close}

-- What a training loop does with its prefetcher: it takes a batch, saves the state of the
-- generator, closes the prefetcher, or makes a new one on the same generator.
pub data Command : Type 0 where
  take_next checkpoint shut : Command
  restart : (batch_size sequence_tokens : ℕ) → Command

pub data Event (R G : Type 0) : Type 0 where
  took : R → TokenBatch → Event R G
  raised : Error → Event R G
  saved : G → Event R G

-- Sampling on demand keeps the generator, the sizes, and whether it was shut.
pub record Demand (G : Type 0) : Type 0 where
  pub batch_size : ℕ
  pub sequence_tokens : ℕ
  pub generator : G
  pub is_shut : Bool

module _ {R G : Type 0} (randint : ℕ → ℕ → G → List ℕ × G) (rand : G → R × G)
    (corpus : PackedCorpus) (pin : Bool) where
  abbrev event : Result (R × TokenBatch) → Event R G
  event (ok b) = Event.took b.0 b.1
  event (err e) = Event.raised e

  -- The events of a training loop that prefetches.
  unfoldable pub run : List Command → Prefetcher R G → List (Event R G)
  run [] p = []
  run (Command.take_next ∷ cs) p = event (next randint rand p).0 ∷ run cs (next randint rand p).1
  run (Command.checkpoint ∷ cs) p = Event.saved p.generator ∷ run cs p
  run (Command.shut ∷ cs) p = run cs (close randint rand p)
  run (Command.restart b s ∷ cs) p = run cs (start randint rand corpus b s p.generator pin)

  -- A random value and a batch, one after the other, on the generator itself.
  abbrev pub sample_now : ℕ → ℕ → G → Result (R × TokenBatch × G)
  sample_now batch_size sequence_tokens g =
      sample randint corpus batch_size sequence_tokens (rand g).1 >>= λ sampled.
      ok ((rand g).0, sampled.0, sampled.1)

  -- The outcome of sampling now, and the generator after it: an error leaves it as it was.
  abbrev pub outcome : Demand G → Result (R × TokenBatch × G)
  outcome d =
      if d.is_shut
      then err (runtime_error "batch prefetcher is closed")
      else sample_now d.batch_size d.sequence_tokens d.generator

  abbrev pub advance : Demand G → Result (R × TokenBatch × G) → Demand G
  advance d (ok done) = record {
    batch_size = d.batch_size;
    sequence_tokens = d.sequence_tokens;
    generator = done.2;
    is_shut = d.is_shut;
  }
  advance d (err e) = d

  abbrev pub report : Result (R × TokenBatch × G) → Event R G
  report (ok done) = Event.took done.0 done.1
  report (err e) = Event.raised e

  -- The events of one that samples when it needs a batch.
  unfoldable pub run_demand : List Command → Demand G → List (Event R G)
  run_demand [] d = []
  run_demand (Command.take_next ∷ cs) d = report (outcome d) ∷ run_demand cs (advance d (outcome d))
  run_demand (Command.checkpoint ∷ cs) d = Event.saved d.generator ∷ run_demand cs d
  run_demand (Command.shut ∷ cs) d = run_demand cs (record {
    batch_size = d.batch_size;
    sequence_tokens = d.sequence_tokens;
    generator = d.generator;
    is_shut = true;
  })
  run_demand (Command.restart b s ∷ cs) d =
      run_demand cs
        (record { batch_size = b; sequence_tokens = s; generator = d.generator; is_shut = false })

  abbrev holding : Demand G → Result (R × TokenBatch × G) → Prefetcher R G
  holding d future = record {
    corpus = corpus;
    batch_size = d.batch_size;
    sequence_tokens = d.sequence_tokens;
    generator = d.generator;
    pin_memory = pin;
    closed = d.is_shut;
    future = future;
  }

  -- A prefetcher whose future is what its generator is going to produce.
  abbrev prefetcher : Demand G → Prefetcher R G
  prefetcher d =
      holding d (produce randint rand corpus d.batch_size d.sequence_tokens pin d.generator)

  produce-sample_now : (b s : ℕ) (g : G) → produce randint rand corpus b s pin g ≡ sample_now b s g
  unfolding produce
  produce-sample_now b s g = elim (Bool-cases pin) [ inl e ↦ rw e refl | inr e ↦ rw e refl ]

  abbrev demand : ℕ → ℕ → G → Bool → Demand G
  demand b s g is_shut = record {
    batch_size = b;
    sequence_tokens = s;
    generator = g;
    is_shut = is_shut;
  }

  -- A step of an open prefetcher, by its future.
  next-holding :
      (b s : ℕ) (g : G) (future : Result (R × TokenBatch × G))
      → let d = demand b s g false in
        (event (next randint rand (holding d future)).0 ≡ report future)
        × ((next randint rand (holding d future)).1 ≡ (elim future [
          | ok done ↦ prefetcher (advance d (ok done))
          | err e ↦ holding d (err e)
        ]))
  unfolding next submit
  next-holding b s g (ok done) = (refl, refl)
  next-holding b s g (err x) = (refl, refl)

  next-future :
      (b s : ℕ) (g : G) (future : Result (R × TokenBatch × G))
      → produce randint rand corpus b s pin g ≡ future
      → let d = demand b s g false in
        (event (next randint rand (prefetcher d)).0 ≡ report future)
        × ((next randint rand (prefetcher d)).1 ≡ prefetcher (advance d future))
  next-future b s g (ok done) e =
      let d = demand b s g false in
      let step = next-holding b s g (ok done) in
      (
        ap (λ f. event (next randint rand (holding d f)).0) e ∙ step.0,
        ap (λ f. (next randint rand (holding d f)).1) e ∙ step.1,
      )
  next-future b s g (err x) e =
      let d = demand b s g false in
      let step = next-holding b s g (err x) in
      (
        ap (λ f. event (next randint rand (holding d f)).0) e ∙ step.0,
        ap (λ f. (next randint rand (holding d f)).1) e ∙ step.1 ∙ ap (holding d) (sym e),
      )

  next-outcome :
      (b s : ℕ) (g : G) (is_shut : Bool)
      → let d = demand b s g is_shut in
        (event (next randint rand (prefetcher d)).0 ≡ report (outcome d))
        × ((next randint rand (prefetcher d)).1 ≡ prefetcher (advance d (outcome d)))
  unfolding next
  next-outcome b s g true = (refl, refl)
  next-outcome b s g false = next-future b s g (sample_now b s g) (produce-sample_now b s g)

  refines : (cs : List Command) (d : Demand G) → run cs (prefetcher d) ≡ run_demand cs d
  unfolding run run_demand start close
  refines [] d = refl
  refines (Command.take_next ∷ cs) d =
      let (same, state) = next-outcome d.batch_size d.sequence_tokens d.generator d.is_shut in
      ap₂ (λ e es. e ∷ es) same (ap (run cs) state ∙ refines cs (advance d (outcome d)))
  refines (Command.checkpoint ∷ cs) d = ap (λ es. Event.saved d.generator ∷ es) (refines cs d)
  refines (Command.shut ∷ cs) d = refines cs _
  refines (Command.restart b s ∷ cs) d = refines cs _

  -- Whatever a training loop does with a prefetcher, takes of batches, checkpoints of the
  -- generator's state, closing and restarting from the state reached, it sees the random values,
  -- batches, errors and states of sampling on demand.
  pub run-run_demand :
      (batch_size sequence_tokens : ℕ) (generator : G) (cs : List Command)
      → run cs (start randint rand corpus batch_size sequence_tokens generator pin)
        ≡ run_demand cs (record {
          batch_size = batch_size;
          sequence_tokens = sequence_tokens;
          generator = generator;
          is_shut = false;
        })
  unfolding start
  run-run_demand batch_size sequence_tokens generator cs = refines cs _
