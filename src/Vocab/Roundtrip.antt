-- ===== src/Vocab/Roundtrip.antt =====
-- What `write_ztm` writes, the native library reads.
use ztok.Common.{
  concat, ℕ, zero, suc, ◌+◌, ◌*◌, ◌%◌, ◌<◌, ◌≤◌, ◌≡◌, refl, sym, List, [], ◌∷◌, ◌++◌, ok, ◌==◌,
  if◌then◌else◌, length, sum_by, map, drop, arith, length-append,
}
use mathlib.Core.List.{append-nil}
use ztok.Vocab.Wire.{Bytes, le_bytes-value, got, le_bytes, length-concat}
use ztok.Vocab.Ztm.{
  Twin, written_unk, max_token_length, offsets, zeros, valid_aliases, alias_section, valid_twins,
  twin_section, write_ztm, header,
}
use ztok.Vocab.Reader.{LoadedMonster, read_header, read_body, read_bytes_meta}
use ztok.Vocab.Records.{read_pieces-back, take-front, drop-front, shown_twin}
use ztok.Vocab.Layout.{
  write_ztm-Written, alias_section-back, twin_section-back, length-zeros, length-offsets,
  written_unk-bound,
}

abbrev pub loaded : List Bytes → ℕ → ℕ → ℕ → List (ℕ × Bytes) → List Twin → LoadedMonster
loaded tokens unk_id capcode norm_flag aliases twins = record {
  pieces = tokens;
  unk_id = if length tokens == 0 then 0 else written_unk tokens unk_id;
  aliases = valid_aliases aliases;
  per_twin_alts = map shown_twin (valid_twins twins);
  capcode = capcode % 256;
  norm_flag = norm_flag % 256;
}

read_header-back :
    (capcode max_len norm_flag count unk_id total : ℕ) (rest : Bytes)
    → capcode % 256 ≤ 3
    → count < 4294967296
    → unk_id < 4294967296
    → total < 4294967296
    → read_header (
        header capcode max_len norm_flag
          (le_bytes count ++ le_bytes unk_id ++ le_bytes total ++ rest))
      ≡ got (3, capcode % 256, norm_flag % 256, count, unk_id, total) rest
unfolding read_header
read_header-back capcode max_len norm_flag count unk_id total rest c h₁ h₂ h₃ =
    rw (le_bytes-value count h₁, le_bytes-value unk_id h₂, le_bytes-value total h₃) (ground arith)

drop-zeros : (n : ℕ) (rest : Bytes) → drop n (zeros n ++ rest) ≡ rest
unfolding zeros
drop-zeros zero rest = refl
drop-zeros (suc n) rest = drop-zeros n rest

long_enough :
    (tokens : List Bytes) (later after : Bytes)
    → offsets 0 tokens ≡ ok later
    → length (concat tokens) + (length tokens + 1) * 4 + length tokens
      ≤ length (concat tokens ++ (0 ∷ 0 ∷ 0 ∷ 0 ∷ (later ++ (zeros (length tokens) ++ after))))
long_enough tokens later after h = omega (
  arith,
  length-append (concat tokens) (0 ∷ 0 ∷ 0 ∷ 0 ∷ (later ++ (zeros (length tokens) ++ after))),
  length-append later (zeros (length tokens) ++ after),
  length-append (zeros (length tokens)) after,
  length-offsets 0 tokens h,
  length-zeros (length tokens),
)

read_body-back :
    (tokens : List Bytes) (unk_id capcode norm_flag : ℕ) (aliases : List (ℕ × Bytes))
    (twins : List Twin) (later alias_part twin_part : Bytes)
    → length tokens < 4294967295
    → sum_by length tokens < 4294967296
    → offsets 0 tokens ≡ ok later
    → alias_section (length tokens) aliases ≡ ok alias_part
    → twin_section (length tokens) twins ≡ ok twin_part
    → read_body
        (
          3,
          capcode % 256,
          norm_flag % 256,
          length tokens,
          written_unk tokens unk_id,
          sum_by length tokens,
        )
        (concat tokens
          ++ (le_bytes 0 ++ later ++ (zeros (length tokens) ++ (alias_part ++ twin_part))))
      ≡ got (loaded tokens unk_id capcode norm_flag aliases twins) []
unfolding read_body
read_body-back tokens unk_id capcode norm_flag aliases twins later alias_part twin_part few small
      later_ok alias_ok twin_ok =
    rw
      (
        sym (length-concat tokens),
        take-front (concat tokens)
            (le_bytes 0 ++ later ++ (zeros (length tokens) ++ (alias_part ++ twin_part))),
        drop-front (concat tokens)
            (le_bytes 0 ++ later ++ (zeros (length tokens) ++ (alias_part ++ twin_part))),
        read_pieces-back tokens [] (concat tokens) later
            (zeros (length tokens) ++ (alias_part ++ twin_part)) 0 (length (concat tokens)) refl
            refl (omega (arith, length-concat tokens)) later_ok,
        drop-zeros (length tokens) (alias_part ++ twin_part),
        alias_section-back (length tokens) aliases alias_part twin_part alias_ok,
        sym (append-nil twin_part),
        twin_section-back (length tokens) twins twin_part [] twin_ok,
      )
      (ground (
        arith,
        long_enough tokens later (alias_part ++ (twin_part ++ [])) later_ok,
        written_unk-bound tokens unk_id,
      ))

-- A vocabulary that `write_ztm` writes is what the native library reads from the file: the same
-- tokens, each non-empty alias, each twin that has a key and an alternative with at most two of
-- its alternatives, the capcode and normalizer bytes, and the unknown token that was written, with
-- nothing left over. The capcode byte is one the reader knows, and there are fewer than 2³² - 1
-- tokens.
pub write_ztm-read_bytes_meta :
    (tokens : List Bytes) (unk_id capcode norm_flag : ℕ) (aliases : List (ℕ × Bytes))
    (twins : List Twin) {out : Bytes}
    → capcode % 256 ≤ 3
    → length tokens < 4294967295
    → write_ztm tokens unk_id capcode norm_flag aliases twins ≡ ok out
    → read_bytes_meta out ≡ got (loaded tokens unk_id capcode norm_flag aliases twins) []
unfolding read_bytes_meta
write_ztm-read_bytes_meta tokens unk_id capcode norm_flag aliases twins known few e =
    let (later, alias_part, twin_part, later_ok, alias_ok, twin_ok, small, c, u, layout) =
      write_ztm-Written tokens unk_id capcode norm_flag aliases twins e in
    rw
      (
        layout,
        read_header-back capcode (max_token_length tokens aliases twins) norm_flag (length tokens)
            (written_unk tokens unk_id) (sum_by length tokens)
            (concat tokens
              ++ (le_bytes 0 ++ later ++ (zeros (length tokens) ++ (alias_part ++ twin_part))))
            known c u small,
      )
      (read_body-back tokens unk_id capcode norm_flag aliases twins later alias_part twin_part few
        small later_ok alias_ok twin_ok)
