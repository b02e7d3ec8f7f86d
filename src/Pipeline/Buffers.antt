-- ===== src/Pipeline/Buffers.antt =====
-- The calls of `Pipeline` that get buffers from the library and give them back: `encode_batch`,
-- `chunk` and `ngram_hash_batch`. The library's calls are parameters, which are given the buffers
-- that are live and answer with those that are live afterwards.
use ztok.Common.{
  ℕ, ◌%◌, not, ◌&&◌, List, [], ◌∷◌, Option, none, some, Result, ok, err, ztok_error, index_error,
  leb, ◌==◌, ◌||◌, if◌then◌else◌, length, map, range, map_result, ◌>>◌,
}
use ztok.Binding.Fixed.{raise_for_status, free, status_ok, status_buffer_too_small}
use ztok.Binding.Owner.{Wrapper, raw}
use ztok.Pipeline.Calls.{Bytes, Buffer, as_token_ids}

-- An output entry: a pointer, or `NULL`, and a length.
pub record Slot : Type 0 where
  pub ptr : Option ℕ
  pub len : ℕ

-- The outcome of a call, and the buffers that are live after it.
abbrev pub Outcome : Type 0 → Type 0
Outcome A = Result A × List ℕ

-- What a batch call answers; the memory is read by pointer and index.
pub record BatchAnswer : Type 0 where
  pub status : ℕ
  pub outs : ℕ → Slot
  pub memory : ℕ → Buffer
  pub live : List ℕ

-- The copy of a buffer, empty for `NULL` and for no elements.
unfoldable pub values_of : (ℕ → Buffer) → Slot → List ℕ
unfolding range
values_of memory slot =
    if slot.len == 0
    then []
    else elim slot.ptr [ none ↦ [] | some p ↦ map (memory p) (range slot.len) ]

-- `for i in range(n): if out[i]: free(out[i])`
unfoldable pub release : (ℕ → Slot) → List ℕ → List ℕ → List ℕ
unfolding free
release outs [] live = live
release outs (i ∷ is) live =
    release outs is (elim (outs i).ptr [ none ↦ live | some p ↦ free p live ])

-- The copies are made when the status is good, and the buffers are freed either way.
unfoldable pub finish_batch : ℕ → BatchAnswer → Outcome (List (List ℕ))
unfolding raise_for_status values_of release range
finish_batch n a = (
  raise_for_status a.status >> ok (map (λ i. values_of a.memory (a.outs i)) (range n)),
  release a.outs (range n) a.live,
)

unfoldable pub encode_batch :
    (ℕ → ℕ → List Bytes → List ℕ → BatchAnswer)
    → Wrapper
    → Wrapper
    → List Bytes
    → List ℕ
    → Outcome (List (List ℕ))
unfolding raw finish_batch
encode_batch call pipe pool inputs live = elim (raw pipe) [
  | err e ↦ (err e, live)
  | ok handle ↦ elim (raw pool) [
    | err e ↦ (err e, live)
    | ok pool_handle ↦
        if length inputs == 0
        then (ok [], live)
        else finish_batch (length inputs) (call handle pool_handle inputs live)
  ]
]

unfoldable pub ngram_hash_batch :
    (ℕ → List (List ℕ) → ℕ → ℕ → List ℕ → BatchAnswer)
    → Wrapper
    → List (List ℕ)
    → ℕ
    → ℕ
    → List ℕ
    → Outcome (List (List ℕ))
unfolding raw as_token_ids finish_batch
ngram_hash_batch call pool streams n heads live = elim (raw pool) [
  | err e ↦ (err e, live)
  | ok pool_handle ↦
      if length streams == 0
      then (ok [], live)
      else finish_batch (length streams)
          (call pool_handle (map as_token_ids streams) (n % 4294967296) (heads % 4294967296) live)
]

pub record Chunk : Type 0 where
  pub ids : List ℕ
  pub byte_start : ℕ
  pub byte_end : ℕ
  pub token_start : ℕ
  pub token_end : ℕ

-- A record of the library: its buffer of ids, and the ranges.
pub record ChunkRec : Type 0 where
  pub ids_slot : Slot
  pub byte_range : ℕ × ℕ
  pub token_range : ℕ × ℕ

pub record ChunkAnswer : Type 0 where
  pub status : ℕ
  pub out_len : ℕ
  pub recs : ℕ → ChunkRec
  pub memory : ℕ → Buffer
  pub live : List ℕ

-- The array of records has `count` elements.
unfoldable pub chunk_at : ChunkAnswer → ℕ → ℕ → Result Chunk
unfolding values_of
chunk_at a count i =
    if leb count i
    then err index_error
    else ok (record {
      ids = values_of a.memory (a.recs i).ids_slot;
      byte_start = (a.recs i).byte_range.0;
      byte_end = (a.recs i).byte_range.1;
      token_start = (a.recs i).token_range.0;
      token_end = (a.recs i).token_range.1;
    })

-- The second pass; `ztok_chunks_free` frees the ids of the records that were reported.
unfoldable pub finish_chunk : ℕ → ChunkAnswer → Outcome (List Chunk)
unfolding raise_for_status chunk_at release range map_result
finish_chunk count a = (
  raise_for_status a.status >> map_result (chunk_at a count) (range a.out_len),
  release (λ i. (a.recs i).ids_slot) (range a.out_len) a.live,
)

-- `none` where `NULL` is passed for the records. The numbers are not negative.
unfoldable pub chunk :
    (ℕ → Bytes → ℕ → ℕ → ℕ → Option ℕ → List ℕ → ChunkAnswer)
    → Wrapper
    → Bytes
    → ℕ
    → ℕ
    → ℕ
    → List ℕ
    → Outcome (List Chunk)
unfolding raw finish_chunk
chunk call pipe text max_tokens overlap boundary live =
    if max_tokens == 0 || leb max_tokens overlap
    then (err (ztok_error 2), live)
    else elim (raw pipe) [
      | err e ↦ (err e, live)
      | ok handle ↦
          if length text == 0
          then (ok [], live)
          else (let pass =
                call handle text (max_tokens % 4294967296) (overlap % 4294967296)
                  (boundary % 4294967296) in
              let sizing = pass none live in
              if not (sizing.status == status_ok) && not (sizing.status == status_buffer_too_small)
              then (err (ztok_error sizing.status), sizing.live)
              else if sizing.out_len == 0
              then (ok [], sizing.live)
              else finish_chunk sizing.out_len (pass (some sizing.out_len) sizing.live))
    ]
