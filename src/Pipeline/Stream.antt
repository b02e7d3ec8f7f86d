-- ===== src/Pipeline/Stream.antt =====
-- `encode_stream` of `Pipeline`, run to its end: the text is cut into pieces, each is fed to a
-- stream of the library, and what the library gives out is copied and freed.
use ztok.Common.{
  ℕ, zero, suc, List, [], ◌∷◌, ◌++◌, none, some, ok, err, Check, value_error, ztok_error, ◌==◌,
  if◌then◌else◌, length, take, drop,
}
use ztok.Binding.Fixed.{raise_for_status, free}
use ztok.Binding.Owner.{Wrapper, raw}
use ztok.Pipeline.{Opening}
use ztok.Pipeline.Calls.{Bytes, Buffer}
use ztok.Pipeline.Buffers.{Slot, values_of}

-- `_materialize_and_free_ids`, on the live buffers.
unfoldable pub materialize_and_free_ids : (ℕ → Buffer) → Slot → List ℕ → List ℕ × List ℕ
unfolding values_of free
materialize_and_free_ids memory slot live = (
  values_of memory slot,
  elim slot.ptr [ none ↦ live | some p ↦ if slot.len == 0 then live else free p live ],
)

-- The pieces of a text, with fuel for each byte.
unfoldable pub pieces : ℕ → ℕ → Bytes → List Bytes
pieces zero chunk_size text = []
pieces (suc fuel) chunk_size text =
    let later = pieces fuel chunk_size (drop chunk_size text) in
    if length text == 0 then [] else take chunk_size text ∷ later

-- What a feed or the finish of a stream answers.
pub record StreamAnswer : Type 0 where
  pub status : ℕ
  pub slot : Slot
  pub memory : ℕ → Buffer
  pub live : List ℕ

-- What was yielded, how it ended, and the live buffers.
abbrev pub Yields : Type 0
Yields = List (List ℕ) × Check × List ℕ

-- `if ids: yield ids`, and what follows.
abbrev pub yield_ids : List ℕ → Yields → Yields
yield_ids ids (yields, ended, live) =
    (if length ids == 0 then yields else ids ∷ yields, ended, live)

-- The answer's ids are yielded when its status is good.
unfoldable pub take_answer : StreamAnswer → (List ℕ → Yields) → Yields
unfolding raise_for_status materialize_and_free_ids
take_answer a rest = elim (raise_for_status a.status) [
  | err e ↦ ([], err e, a.live)
  | ok done ↦
      let (ids, live) = materialize_and_free_ids a.memory a.slot a.live in yield_ids ids (rest live)
]

-- What follows the opening of a stream, given what it would yield: the stream is freed at the end,
-- however it ended. The open streams come last.
unfoldable pub on_stream : Opening → Yields → List ℕ → Yields × List ℕ
unfolding raise_for_status free
on_stream (status, stream, opened) run live = elim (raise_for_status status) [
  | err e ↦ (([], err e, live), opened)
  | ok done ↦ elim stream [
    | none ↦ (([], err (ztok_error 99), live), opened)
    | some s ↦ (run, free s opened)
  ]
]

module _ (ztok_stream_feed : List Bytes → Bytes → List ℕ → StreamAnswer)
    (ztok_stream_finish : List Bytes → List ℕ → StreamAnswer) where
  -- The loop over the pieces, after those that were fed, and the final flush.
  unfoldable pub feed_all : List Bytes → List Bytes → List ℕ → Yields
  unfolding take_answer
  feed_all fed [] live = take_answer (ztok_stream_finish fed live) (λ after. ([], ok tt, after))
  feed_all fed (piece ∷ more) live =
      take_answer (ztok_stream_feed fed piece live)
        (λ after. feed_all (fed ++ piece ∷ []) more after)

  unfoldable pub encode_stream :
      (ℕ → List ℕ → Opening) → Wrapper → Bytes → ℕ → List ℕ → List ℕ → Yields × List ℕ
  unfolding raw on_stream feed_all pieces
  encode_stream ztok_stream_new pipe text chunk_size live streams =
      if chunk_size == 0
      then (([], err (value_error "chunk_size must be > 0"), live), streams)
      else elim (raw pipe) [
        | err e ↦ (([], err e, live), streams)
        | ok handle ↦
            on_stream (ztok_stream_new handle streams)
              (feed_all [] (pieces (length text) chunk_size text) live) live
      ]
