-- ===== src/Pipeline/Examples.antt =====
-- Runs of the binding's objects and calls with a small library.
use ztok.Common.{
  ℕ, zero, suc, ◌+◌, ◌≡◌, refl, false, List, [], ◌∷◌, ◌++◌, Option, none, some, ok, err, length,
  leb, if◌then◌else◌, arith, min, ap, map, range, elem, ztok_base_error,
}
use ztok.Common.Counting.{count}
use ztok.Binding.Owner.{Wrapper, raw}
use ztok.Pipeline.{close, owner, Opening}
use ztok.Pipeline.Life.{
  Life, Reaches, another_opens, here, after, born, Frees, raw-open, close-once,
}
use ztok.Pipeline.Calls.{
  Bytes, Answer, OverlayAnswer, contents, encode, encode_with_overlays, ngram_hash, as_token_ids,
}
use ztok.Pipeline.Growth.{Answers, encode-found, ngram_hash-found}
use ztok.Pipeline.Overlays.{IsAligned, encode_with_overlays-IsAligned}
use ztok.Pipeline.Buffers.{Slot, BatchAnswer, ChunkAnswer, Chunk, encode_batch, chunk}
use ztok.Pipeline.Release.{pointers, IsBatch, encode_batch-IsBatch}
use ztok.Pipeline.Chunks.{chunk-live, ChunksHandOut}
use ztok.Pipeline.Stream.{StreamAnswer, pieces, encode_stream, Yields}
use ztok.Pipeline.Streams.{Cuts, pieces-Cuts, encode_stream-released}

abbrev pipe : Wrapper
pipe = owner 7

-- A library that gives each byte its own id, and asks for twice the bytes.
abbrev byte_encode : ℕ → Bytes → ℕ → Answer
byte_encode handle text cap = (if leb 150 cap then 0 else 3, 2, λ i. i)

byte_encode-Answers : Answers (byte_encode 7 (1 ∷ 2 ∷ [])) 150 (0 ∷ 1 ∷ [])
unfolding contents range
byte_encode-Answers cap = (
  λ h.
      let two : min 2 cap ≡ 2 = omega arith in (ground arith, ap (λ n. map (λ i. i) (range n)) two),
  λ h. ground arith,
)

encode-found_example : encode byte_encode pipe (1 ∷ 2 ∷ []) ≡ ok (0 ∷ 1 ∷ [])
unfolding raw
encode-found_example =
    encode-found byte_encode pipe 7 (1 ∷ 2 ∷ []) 150 (0 ∷ 1 ∷ []) refl byte_encode-Answers
      (omega arith)

-- The second attempt, with twice the capacity, succeeds.
encode_test : encode byte_encode pipe (1 ∷ 2 ∷ []) ≡ ok (0 ∷ 1 ∷ [])
unfolding encode
encode_test = refl

abbrev hash_call : List ℕ → ℕ → ℕ → ℕ → Answer
hash_call ids n heads cap = (if leb 4 cap then 0 else 3, 4, λ i. i)

hash_call-Answers : Answers (hash_call (as_token_ids (5 ∷ 6 ∷ 7 ∷ [])) 2 2) 4 (0 ∷ 1 ∷ 2 ∷ 3 ∷ [])
unfolding contents range
hash_call-Answers cap = (
  λ h.
      let four : min 4 cap ≡ 4 = omega arith in
      (ground arith, ap (λ n. map (λ i. i) (range n)) four),
  λ h. ground arith,
)

ngram_hash-found_example : ngram_hash hash_call (5 ∷ 6 ∷ 7 ∷ []) 2 2 ≡ ok (0 ∷ 1 ∷ 2 ∷ 3 ∷ [])
ngram_hash-found_example =
    ngram_hash-found hash_call (5 ∷ 6 ∷ 7 ∷ []) 2 2 (0 ∷ 1 ∷ 2 ∷ 3 ∷ []) hash_call-Answers

abbrev overlay_call : ℕ → Bytes → List ℕ → Option ℕ → OverlayAnswer
overlay_call handle text kinds cap = (0, 2, (λ i. i + 10), (λ c i. c))

abbrev overlay_result : List ℕ × List (ℕ × List ℕ)
overlay_result = (10 ∷ 11 ∷ [], (3, 0 ∷ 0 ∷ []) ∷ (1, 1 ∷ 1 ∷ []) ∷ [])

overlay_test : encode_with_overlays overlay_call pipe (9 ∷ []) (3 ∷ 1 ∷ []) ≡ ok overlay_result
unfolding encode_with_overlays elem
overlay_test = refl

encode_with_overlays-IsAligned_example : IsAligned (3 ∷ 1 ∷ []) overlay_result
encode_with_overlays-IsAligned_example =
    encode_with_overlays-IsAligned overlay_call pipe (9 ∷ []) (3 ∷ 1 ∷ []) overlay_test

-- Another object was made since.
abbrev in_use : Life
in_use = record { wrapper = owner 7; open_handles = 8 ∷ 7 ∷ []; collected = false }

history : Reaches (born 7 []) in_use
unfolding count
history = after _ (born 7 []) _ (here _) (another_opens (owner 7) (7 ∷ []) false 8 refl)

seven_is_new : count 7 [] ≡ 0
unfolding count
seven_is_new = refl

raw-open_example : count 7 (8 ∷ 7 ∷ []) ≡ 1
unfolding raw
raw-open_example = raw-open 7 [] in_use 7 seven_is_new history refl refl

-- The first input's ids come in a buffer; the others have none.
abbrev entry : ℕ → Slot
entry zero = record { ptr = some 40; len = 2 }
entry (suc i) = record { ptr = none; len = 0 }

abbrev batch_call : ℕ → ℕ → List Bytes → List ℕ → BatchAnswer
batch_call handle pool inputs live = record {
  status = 0;
  outs = entry;
  memory = λ p i. i + 1;
  live = pointers entry (range (length inputs)) ++ live;
}

abbrev inputs : List Bytes
inputs = (1 ∷ []) ∷ [] ∷ []

batch_test :
    encode_batch batch_call pipe (owner 3) inputs (9 ∷ []) ≡ (ok ((1 ∷ 2 ∷ []) ∷ [] ∷ []), 9 ∷ [])
unfolding encode_batch
batch_test = refl

encode_batch-IsBatch_example :
    IsBatch 2 (9 ∷ []) (encode_batch batch_call pipe (owner 3) inputs (9 ∷ []))
encode_batch-IsBatch_example =
    encode_batch-IsBatch batch_call pipe (owner 3) inputs (9 ∷ []) (λ handle pool inputs live. refl)

-- One chunk, whose ids come in a buffer.
abbrev chunk_call : ℕ → Bytes → ℕ → ℕ → ℕ → Option ℕ → List ℕ → ChunkAnswer
chunk_call handle text m o b none live = record {
  status = 3;
  out_len = 1;
  recs = λ i. record {
    ids_slot = record { ptr = none; len = 0 };
    byte_range = (0, 0);
    token_range = (0, 0);
  };
  memory = λ p i. 0;
  live = live;
}
chunk_call handle text m o b (some cap) live = record {
  status = 0;
  out_len = 1;
  recs = λ i. record {
    ids_slot = record { ptr = some 50; len = 2 };
    byte_range = (0, 2);
    token_range = (0, 2);
  };
  memory = λ p i. i + 5;
  live = 50 ∷ live;
}

chunk_call-ChunksHandOut : ChunksHandOut chunk_call
unfolding range
chunk_call-ChunksHandOut handle text m o b live = (refl, λ cap. refl)

abbrev one_chunk : Chunk
one_chunk = record {
  ids = 5 ∷ 6 ∷ [];
  byte_start = 0;
  byte_end = 2;
  token_start = 0;
  token_end = 2;
}

chunk_test : chunk chunk_call pipe (1 ∷ 2 ∷ []) 4 1 0 (9 ∷ []) ≡ (ok (one_chunk ∷ []), 9 ∷ [])
unfolding chunk
chunk_test = refl

chunk-live_example : (chunk chunk_call pipe (1 ∷ 2 ∷ []) 4 1 0 (9 ∷ [])).1 ≡ (9 ∷ [])
chunk-live_example = chunk-live chunk_call pipe (1 ∷ 2 ∷ []) 4 1 0 (9 ∷ []) chunk_call-ChunksHandOut

pieces-Cuts_example : Cuts 2 (1 ∷ 2 ∷ 3 ∷ []) (pieces 3 2 (1 ∷ 2 ∷ 3 ∷ []))
pieces-Cuts_example = pieces-Cuts 3 2 (1 ∷ 2 ∷ 3 ∷ []) (omega arith) (omega arith)

-- A stream that gives out one id for each piece, and nothing at its end.
abbrev feed : List Bytes → Bytes → List ℕ → StreamAnswer
feed fed piece live = record {
  status = 0;
  slot = record { ptr = some 60; len = 1 };
  memory = λ p i. length piece;
  live = 60 ∷ live;
}

abbrev finish : List Bytes → List ℕ → StreamAnswer
finish fed live = record {
  status = 0;
  slot = record { ptr = none; len = 0 };
  memory = λ p i. 0;
  live = live;
}

abbrev new_stream : ℕ → List ℕ → Opening
new_stream handle streams = (0, some 70, 70 ∷ streams)

stream_test :
    encode_stream feed finish new_stream pipe (1 ∷ 2 ∷ 3 ∷ []) 2 (9 ∷ []) []
    ≡ (((2 ∷ []) ∷ (1 ∷ []) ∷ [], ok tt, 9 ∷ []), [])
unfolding encode_stream
stream_test = refl

abbrev streamed : Yields × List ℕ
streamed = encode_stream feed finish new_stream pipe (1 ∷ 2 ∷ 3 ∷ []) 2 (9 ∷ []) []

encode_stream-released_example : (streamed.0.2 ≡ (9 ∷ [])) × (streamed.1 ≡ [])
encode_stream-released_example =
    encode_stream-released feed finish (λ fed piece live. (refl, omega arith, refl))
      (λ fed live. refl) new_stream pipe (1 ∷ 2 ∷ 3 ∷ []) 2 (9 ∷ []) [] (λ handle. (refl, refl))

close-once_example :
    Frees in_use (close in_use.wrapper in_use.open_handles).1
    × (raw (close in_use.wrapper in_use.open_handles).0 ≡ err (ztok_base_error "closed"))
    × ((more : List ℕ) → (close (close in_use.wrapper in_use.open_handles).0 more).1 ≡ more)
close-once_example = close-once 7 [] in_use seven_is_new history
