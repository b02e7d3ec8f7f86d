-- ===== src/Pipeline/Calls.antt =====
-- The calls of `Pipeline` whose buffers Python owns: encode, decode_bytes, encode_with_overlays and
-- chunk's checks, and `ngram_hash`. The library's functions are parameters: for a capacity, `none`
-- where `NULL` is passed, a status, the length that is reported, and what the buffer holds.
use ztok.Common.{
  ℕ, zero, suc, ◌+◌, ◌-◌, ◌*◌, ◌%◌, not, ◌&&◌, List, [], ◌∷◌, Option, none, some, Result, ok, err,
  ztok_error, leb, ltb, ◌==◌, if◌then◌else◌, length, map, range, min, max, ◌>>=◌, ◌>>◌, raise_if,
}
use ztok.Common.Counting.{has_duplicate}
use ztok.Binding.Fixed.{raise_for_status, status_ok, status_buffer_too_small}
use ztok.Binding.Owner.{Wrapper, raw}

abbrev pub Bytes : Type 0
Bytes = List ℕ

-- A buffer that the library has written to, by index.
abbrev pub Buffer : Type 0
Buffer = ℕ → ℕ

-- What a call answers.
abbrev pub Answer : Type 0
Answer = ℕ × ℕ × Buffer

-- `list(buf[:out_len])` of a buffer of `cap` elements.
unfoldable pub contents : Buffer → ℕ → ℕ → List ℕ
unfolding range
contents buffer cap out_len = map buffer (range (min out_len cap))

-- An element of a `TokenId` array wraps around.
unfoldable pub as_token_ids : List ℕ → List ℕ
as_token_ids ids = map (λ id. id % 4294967296) ids

module _ (ztok_encode : ℕ → Bytes → ℕ → Answer) where
  -- The attempts that are left, with a buffer of `cap` elements.
  unfoldable pub encode_attempts : ℕ → ℕ → Bytes → ℕ → Result (List ℕ)
  unfolding contents raise_for_status
  encode_attempts zero handle text cap = err (ztok_error 99)
  encode_attempts (suc attempts) handle text cap =
      let (rc, out_len, buf) = ztok_encode handle text cap in
      let again = encode_attempts attempts handle text (max (cap * 2) (out_len + 16)) in
      if rc == status_ok
      then ok (contents buf cap out_len)
      else if rc == status_buffer_too_small
      then again
      else raise_for_status rc >> again

  unfoldable pub encode : Wrapper → Bytes → Result (List ℕ)
  unfolding raw encode_attempts
  encode pipe text = raw pipe >>= λ handle.
      if length text == 0 then ok [] else encode_attempts 8 handle text (max (length text + 16) 64)

module _ (ztok_decode : ℕ → List ℕ → Option ℕ → Answer) where
  unfoldable pub decode_bytes : Wrapper → List ℕ → Result Bytes
  unfolding raw as_token_ids contents raise_for_status
  decode_bytes pipe ids = raw pipe >>= λ handle.
      if length ids == 0
      then ok []
      else (let sizing = ztok_decode handle (as_token_ids ids) none in
          raise_if (not (sizing.0 == status_buffer_too_small) && not (sizing.0 == status_ok))
            (ztok_error sizing.0)
          >> (if sizing.1 == 0
              then ok []
              else (let (rc, out_len, buf) =
                    ztok_decode handle (as_token_ids ids) (some sizing.1) in
                  raise_for_status rc >> ok (contents buf sizing.1 out_len))))

-- What a call with overlays answers: the ids' buffer, and that of each channel, by its position.
abbrev pub OverlayAnswer : Type 0
OverlayAnswer = ℕ × ℕ × Buffer × (ℕ → Buffer)

-- `{kinds[i]: list(chan_bufs[i][:n]) for i in range(n_channels)}`
unfoldable pub overlays_of : (ℕ → Buffer) → ℕ → ℕ → ℕ → List ℕ → List (ℕ × List ℕ)
unfolding contents
overlays_of bufs cap out_len i [] = []
overlays_of bufs cap out_len i (k ∷ kinds) =
    (k, contents (bufs i) cap out_len) ∷ overlays_of bufs cap out_len (suc i) kinds

module _ (ztok_encode_with_overlays : ℕ → Bytes → List ℕ → Option ℕ → OverlayAnswer) where
  unfoldable pub encode_with_overlays :
      Wrapper → Bytes → List ℕ → Result (List ℕ × List (ℕ × List ℕ))
  unfolding raw contents overlays_of raise_for_status has_duplicate
  encode_with_overlays pipe text kinds = raw pipe >>= λ handle.
      raise_if (has_duplicate kinds) (ztok_error 2)
      >> (if length text == 0
          then ok ([], map (λ k. (k, [])) kinds)
          else (let sizing = ztok_encode_with_overlays handle text kinds none in
              raise_if (not (sizing.0 == status_ok) && not (sizing.0 == status_buffer_too_small))
                (ztok_error sizing.0)
              >> (if sizing.1 == 0
                  then ok ([], map (λ k. (k, [])) kinds)
                  else (let (rc, out_len, ids, bufs) =
                        ztok_encode_with_overlays handle text kinds (some sizing.1) in
                      raise_for_status rc
                      >> ok (
                        contents ids sizing.1 out_len,
                        overlays_of bufs sizing.1 out_len 0 kinds,
                      )))))

module _ (ztok_ngram_hash : List ℕ → ℕ → ℕ → ℕ → Answer) where
  -- The attempts that are left.
  unfoldable pub ngram_attempts : ℕ → List ℕ → ℕ → ℕ → ℕ → Result (List ℕ)
  unfolding contents raise_for_status
  ngram_attempts zero ids n heads cap = err (ztok_error 99)
  ngram_attempts (suc attempts) ids n heads cap =
      let (rc, out_len, out) = ztok_ngram_hash ids n heads cap in
      let again = ngram_attempts attempts ids n heads out_len in
      if rc == status_ok
      then ok (contents out cap out_len)
      else if rc == status_buffer_too_small
      then (if out_len == 0 then ok [] else again)
      else raise_for_status rc >> again

  -- `ngram_hash`, for numbers that are not negative.
  unfoldable pub ngram_hash : List ℕ → ℕ → ℕ → Result (List ℕ)
  unfolding ngram_attempts as_token_ids
  ngram_hash ids n heads =
      if leb n 0
      then ok []
      else if leb heads 0
      then ok []
      else if ltb (length ids) n
      then ok []
      else (let want = (length ids - n + 1) * heads in
          if want == 0
          then ok []
          else ngram_attempts 2 (as_token_ids ids) (n % 4294967296) (heads % 4294967296) want)
