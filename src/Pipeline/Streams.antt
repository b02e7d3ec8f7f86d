-- ===== src/Pipeline/Streams.antt =====
-- A streamed text is fed whole, and the stream and its buffers are given back.
use ztok.Common.{
  value_error, concat, min, ◌-◌, ℕ, zero, suc, ◌≤◌, ◌<◌, ◌≡◌, refl, ap, ◌∙◌, Bool, true, false,
  List, [], ◌∷◌, ◌++◌, Option, none, some, Result, ok, err, Check, ztok_error, ◌==◌, if◌then◌else◌,
  length, arith, take, drop, All,
}
use ztok.Binding.Fixed.{raise_for_status, free, status_ok}
use ztok.Binding.Handles.{free-head, Opened}
use ztok.Binding.Owner.{Wrapper, raw}
use ztok.Pipeline.{Opening}
use ztok.Pipeline.Calls.{Bytes}
use ztok.Pipeline.Buffers.{values_of}
use ztok.Pipeline.Stream.{
  materialize_and_free_ids, pieces, StreamAnswer, Yields, yield_ids, take_answer, feed_all,
  on_stream, encode_stream,
}

take-drop : (n : ℕ) (text : Bytes) → take n text ++ drop n text ≡ text
take-drop zero text = refl
take-drop (suc n) [] = refl
take-drop (suc n) (b ∷ text) = ap (λ bs. b ∷ bs) (take-drop n text)

length-take : (n : ℕ) (text : Bytes) → length (take n text) ≡ min n (length text)
length-take zero text = omega arith
length-take (suc n) [] = omega arith
length-take (suc n) (b ∷ text) = omega (arith, length-take n text)

length-drop : (n : ℕ) (text : Bytes) → length (drop n text) ≡ length text - n
length-drop zero text = omega arith
length-drop (suc n) [] = omega arith
length-drop (suc n) (b ∷ text) = omega (arith, length-drop n text)

-- A piece is not empty and no longer than asked.
abbrev pub IsPiece : ℕ → Bytes → Type 0
IsPiece chunk_size piece = (0 < length piece) × (length piece ≤ chunk_size)

abbrev pub Cuts : ℕ → Bytes → List Bytes → Type 0
Cuts chunk_size text ps = (concat ps ≡ text) × All (IsPiece chunk_size) ps

-- The pieces that are fed are the text, cut in order into non-empty pieces of at most the size
-- asked for, which is not zero: a round for each byte is enough.
pub pieces-Cuts :
    (fuel chunk_size : ℕ) (text : Bytes)
    → 0 < chunk_size
    → length text ≤ fuel
    → Cuts chunk_size text (pieces fuel chunk_size text)
unfolding pieces
pieces-Cuts zero chunk_size [] pos h = (refl, tt)
pieces-Cuts zero chunk_size (b ∷ text) pos h = elim h [ ]
pieces-Cuts (suc fuel) chunk_size [] pos h = (refl, tt)
pieces-Cuts (suc fuel) chunk_size (b ∷ text) pos h =
    let (whole, fine) =
      pieces-Cuts fuel chunk_size (drop chunk_size (b ∷ text)) pos
        (omega (arith, length-drop chunk_size (b ∷ text))) in
    let some_text : (length (b ∷ text) == 0) ≡ false = ground arith in
    rw some_text (
      ap (λ rest. take chunk_size (b ∷ text) ++ rest) whole ∙ take-drop chunk_size (b ∷ text),
      (
        (
          ground (arith, length-take chunk_size (b ∷ text)),
          ground (arith, length-take chunk_size (b ∷ text)),
        ),
        fine,
      ),
    )

-- A feed or finish hands out a buffer that is not empty, with a good status, or none.
abbrev pub HandsIds : StreamAnswer → List ℕ → Type 0
HandsIds a live = elim a.slot.ptr [
  | none ↦ a.live ≡ live
  | some p ↦ (a.live ≡ (p ∷ live)) × (0 < a.slot.len) × (a.status ≡ status_ok)
]

take_answer-live :
    (a : StreamAnswer) (live : List ℕ) (rest : List ℕ → Yields)
    → HandsIds a live
    → ((after : List ℕ) → (rest after).2 ≡ after)
    → (take_answer a rest).2 ≡ live
unfolding take_answer raise_for_status materialize_and_free_ids
take_answer-live a live rest hands keeps = go a.status a.slot.ptr a.slot.len hands
  where
    go :
        (status : ℕ) (p : Option ℕ) (len : ℕ)
        → (elim p as (λ p. Type 0) [
          | none ↦ a.live ≡ live
          | some q ↦ (a.live ≡ (q ∷ live)) × (0 < len) × (status ≡ status_ok)
        ])
        → (elim (raise_for_status status) as (λ r. Yields) [
          | err e ↦ ([], err e, a.live)
          | ok done ↦ yield_ids (values_of a.memory a.slot) (
              rest (elim p as (λ p. List ℕ) [
                | none ↦ a.live
                | some q ↦ if len == 0 then a.live else free q a.live
              ]))
        ]).2
          ≡ live
    go status none len same = settled (raise_for_status status)
      where
        settled :
            (r : Check)
            → (elim r as (λ r. Yields) [
              | err e ↦ ([], err e, a.live)
              | ok done ↦ yield_ids (values_of a.memory a.slot) (rest a.live)
            ]).2
              ≡ live
        settled (err e) = same
        settled (ok done) = keeps a.live ∙ same
    go status (some q) len (opened, some_ids, fine) =
        rw fine
          (keeps (if len == 0 then a.live else free q a.live) ∙ freed (len == 0) (ground arith))
      where
        freed : (b : Bool) → b ≡ false → (if b then a.live else free q a.live) ≡ live
        freed true no_ids = cc
        freed false no_ids = ap (free q) opened ∙ free-head q live

abbrev Released : Yields × List ℕ → List ℕ → List ℕ → Type 0
Released outcome live streams = (outcome.0.2 ≡ live) × (outcome.1 ≡ streams)

on_stream-Released :
    (status : ℕ) (stream : Option ℕ) (opened streams live : List ℕ) (run : Yields)
    → Opened status stream streams opened
    → run.2 ≡ live
    → Released (on_stream (status, stream, opened) run live) live streams
unfolding on_stream
on_stream-Released status none opened streams live run same kept = go (raise_for_status status)
  where
    go :
        (r : Check)
        → Released
            (elim r as (λ r. Yields × List ℕ) [
              | err e ↦ (([], err e, live), opened)
              | ok done ↦ (([], err (ztok_error 99), live), opened)
            ])
            live
            streams
    go (err e) = (refl, same)
    go (ok done) = (refl, same)
on_stream-Released status (some s) opened streams live run (fine, new) kept =
    rw fine (kept, ap (free s) new ∙ free-head s streams)

module _ (feed : List Bytes → Bytes → List ℕ → StreamAnswer)
    (finish : List Bytes → List ℕ → StreamAnswer)
    (feeds : (fed : List Bytes) (piece : Bytes) (live : List ℕ)
      → HandsIds (feed fed piece live) live)
    (finishes : (fed : List Bytes) (live : List ℕ) → HandsIds (finish fed live) live) where
  feed_all-live :
      (fed ps : List Bytes) (live : List ℕ) → (feed_all feed finish fed ps live).2 ≡ live
  unfolding feed_all
  feed_all-live fed [] live =
      take_answer-live (finish fed live) live (λ after. ([], ok tt, after)) (finishes fed live)
        (λ after. refl)
  feed_all-live fed (p ∷ ps) live =
      take_answer-live (feed fed p live) live (feed_all feed finish (fed ++ p ∷ []) ps)
        (feeds fed p live) (λ after. feed_all-live (fed ++ p ∷ []) ps after)

  -- A text that is streamed to its end, or to the first error, leaves alive exactly the buffers
  -- and open exactly the streams that were there before, also when the chunk size is refused, the
  -- pipeline is closed or no stream is made, if the library opens a stream on success only and
  -- hands out a buffer only with ids and a good status.
  pub encode_stream-released :
      (new : ℕ → List ℕ → Opening) (pipe : Wrapper) (text : Bytes) (chunk_size : ℕ)
      (live streams : List ℕ)
      → ((handle : ℕ)
          → Opened (new handle streams).0 (new handle streams).1 streams (new handle streams).2)
      → ((encode_stream feed finish new pipe text chunk_size live streams).0.2 ≡ live)
        × ((encode_stream feed finish new pipe text chunk_size live streams).1 ≡ streams)
  unfolding encode_stream
  encode_stream-released new pipe text chunk_size live streams opens =
      either (chunk_size == 0) (raw pipe)
    where
      run : Yields
      run = feed_all feed finish [] (pieces (length text) chunk_size text) live

      go :
          (p : Result ℕ)
          → Released
              (elim p as (λ p. Yields × List ℕ) [
                | err e ↦ (([], err e, live), streams)
                | ok handle ↦ on_stream (new handle streams) run live
              ])
              live
              streams
      go (err e) = (refl, refl)
      go (ok handle) =
          on_stream-Released (new handle streams).0 (new handle streams).1 (new handle streams).2
            streams live run (opens handle)
            (feed_all-live [] (pieces (length text) chunk_size text) live)

      either :
          (b : Bool) (p : Result ℕ)
          → Released
              (if b
                then (([], err (value_error "chunk_size must be > 0"), live), streams)
                else (elim p as (λ p. Yields × List ℕ) [
                  | err e ↦ (([], err e, live), streams)
                  | ok handle ↦ on_stream (new handle streams) run live
                ]))
              live
              streams
      either true p = (refl, refl)
      either false p = go p
