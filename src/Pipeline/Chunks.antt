-- ===== src/Pipeline/Chunks.antt =====
-- The buffers of chunks are given back, on every path.
use ztok.Common.{
  ℕ, ◌%◌, ◌≡◌, refl, ap, ◌∙◌, Bool, true, false, not, ◌&&◌, ◌||◌, List, [], ◌++◌, Option, none,
  some, Result, ok, err, ztok_error, leb, ◌==◌, if◌then◌else◌, length, range,
}
use ztok.Binding.Fixed.{status_ok, status_buffer_too_small}
use ztok.Binding.Owner.{Wrapper, raw}
use ztok.Pipeline.Calls.{Bytes}
use ztok.Pipeline.Buffers.{Outcome, release, Chunk, ChunkAnswer, finish_chunk, chunk}
use ztok.Pipeline.Release.{pointers, release-pointers}

-- The call that only asks for the count hands out nothing; the other one hands out the ids of the
-- records that it reports.
abbrev pub ChunksHandOut : (ℕ → Bytes → ℕ → ℕ → ℕ → Option ℕ → List ℕ → ChunkAnswer) → Type 0
ChunksHandOut call =
    (handle : ℕ) (text : Bytes) (m o b : ℕ) (live : List ℕ)
    → ((call handle text m o b none live).live ≡ live)
      × ((cap : ℕ)
          → (call handle text m o b (some cap) live).live
            ≡ pointers (λ i. ((call handle text m o b (some cap) live).recs i).ids_slot)
                (range (call handle text m o b (some cap) live).out_len)
              ++ live)

if_snd :
    {A : Type 0} (b : Bool) (x y : Outcome A) (live : List ℕ)
    → x.1 ≡ live
    → y.1 ≡ live
    → (if b then x else y).1 ≡ live
if_snd true x y live h k = h
if_snd false x y live h k = k

-- Cutting a text into chunks leaves alive exactly the buffers that were alive before, whether the
-- arguments are refused, the pipeline is closed, a pass fails or the chunks are returned, if the
-- library hands out buffers as described.
pub chunk-live :
    (call : ℕ → Bytes → ℕ → ℕ → ℕ → Option ℕ → List ℕ → ChunkAnswer) (pipe : Wrapper) (text : Bytes)
    (max_tokens overlap boundary : ℕ) (live : List ℕ)
    → ChunksHandOut call
    → (chunk call pipe text max_tokens overlap boundary live).1 ≡ live
unfolding chunk finish_chunk
chunk-live call pipe text max_tokens overlap boundary live hands =
    if_snd (max_tokens == 0 || leb max_tokens overlap) (err (ztok_error 2), live) _ live refl
      (go (raw pipe))
  where
    pass : ℕ → Option ℕ → List ℕ → ChunkAnswer
    pass handle =
        call handle text (max_tokens % 4294967296) (overlap % 4294967296) (boundary % 4294967296)

    filled : ℕ → ℕ → List ℕ → Outcome (List Chunk)
    filled h count before = finish_chunk count (pass h (some count) before)

    released : (h count : ℕ) (before : List ℕ) → before ≡ live → (filled h count before).1 ≡ live
    released h count before same =
        let a = pass h (some count) before in
        ap (release (λ i. (a.recs i).ids_slot) (range a.out_len)) (
          (hands h text (max_tokens % 4294967296) (overlap % 4294967296) (boundary % 4294967296)
              before).1
            count)
        ∙ release-pointers (λ i. (a.recs i).ids_slot) (range a.out_len) before
        ∙ same

    go :
        (p : Result ℕ)
        → (elim p as (λ p. Outcome (List Chunk)) [
          | err e ↦ (err e, live)
          | ok handle ↦
              if length text == 0
              then (ok [], live)
              else (let sizing = pass handle none live in
                  if not (sizing.status == status_ok)
                    && not (sizing.status == status_buffer_too_small)
                  then (err (ztok_error sizing.status), sizing.live)
                  else if sizing.out_len == 0
                  then (ok [], sizing.live)
                  else filled handle sizing.out_len sizing.live)
        ]).1
          ≡ live
    go (err e) = refl
    go (ok h) =
        let sizing = pass h none live in
        let same =
          (hands h text (max_tokens % 4294967296) (overlap % 4294967296) (boundary % 4294967296)
            live).0 in
        if_snd (length text == 0) (ok [], live) _ live refl
          (if_snd
            (not (sizing.status == status_ok) && not (sizing.status == status_buffer_too_small))
            (err (ztok_error sizing.status), sizing.live) _ live same
            (if_snd (sizing.out_len == 0) (ok [], sizing.live) _ live same
              (released h sizing.out_len sizing.live same)))
