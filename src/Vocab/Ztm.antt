-- ===== src/Vocab/Ztm.antt =====
-- `write_ztm` of bench/convert_tm_to_ztm.py: the bytes of a `.ztm` file of version 3.
use ztok.Common.{
  concat, ℕ, ◌+◌, ◌%◌, Bool, not, List, [], ◌∷◌, ◌++◌, Result, ok, system_exit, ltb, ◌==◌,
  if◌then◌else◌, length, sum_by, filter, map, map_result, raise_if, ◌>>=◌, ◌>>◌, take, max, min,
  ◌&&◌, zero, suc,
}
use ztok.Vocab.Wire.{Bytes, pack_u32}

-- An entry of `per_twin_alts`; an alternative is an id with its length in bytes.
pub record Twin : Type 0 where
  pub key : Bytes
  pub id : ℕ
  pub alts : List (ℕ × ℕ)

-- `max((len(t) for t in tokens), default=0)`
unfoldable pub longest : List Bytes → ℕ
longest [] = 0
longest (t ∷ ts) = max (length t) (longest ts)

-- The first single-byte token, or 0, counting from `i`.
unfoldable pub first_single : ℕ → List Bytes → ℕ
first_single i [] = 0
first_single i (t ∷ ts) = if length t == 1 then i else first_single (suc i) ts

unfoldable pub written_unk : List Bytes → ℕ → ℕ
unfolding first_single
written_unk tokens unk_id = if ltb unk_id (length tokens) then unk_id else first_single 0 tokens

unfoldable pub max_token_length : List Bytes → List (ℕ × Bytes) → List Twin → ℕ
unfolding longest
max_token_length tokens aliases twins =
    let max_len_u8 = min (max (longest tokens) (longest (map (λ a. a.1) aliases))) 255 in
    let twin_max = longest (map (λ t. t.key) twins) in
    if ltb max_len_u8 twin_max then min twin_max 255 else max_len_u8

unfoldable pub offsets : ℕ → List Bytes → Result Bytes
unfolding pack_u32
offsets acc [] = ok []
offsets acc (t ∷ ts) = pack_u32 (acc + length t) >>= λ packed.
    offsets (acc + length t) ts >>= λ more. ok (packed ++ more)

unfoldable pub zeros : ℕ → Bytes
zeros zero = []
zeros (suc n) = 0 ∷ zeros n

unfoldable pub nonempty : Bytes → Bool
nonempty bytes = ltb 0 (length bytes)

unfoldable pub valid_aliases : List (ℕ × Bytes) → List (ℕ × Bytes)
unfolding nonempty filter
valid_aliases aliases = filter (λ a. nonempty a.1) aliases

unfoldable pub alias_record : ℕ → ℕ × Bytes → Result Bytes
unfolding pack_u32
alias_record count (aid, ab) =
    raise_if (not (ltb aid count)) (system_exit "alias id out of bounds")
    >> (raise_if (ltb 4294967295 (length ab)) (system_exit "alias bytes length exceeds u32 max")
        >> (pack_u32 aid >>= λ packed_id.
            pack_u32 (length ab) >>= λ packed_len. ok (packed_id ++ packed_len ++ ab)))

unfoldable pub alias_section : ℕ → List (ℕ × Bytes) → Result Bytes
unfolding pack_u32 valid_aliases alias_record map_result
alias_section count aliases = pack_u32 (length (valid_aliases aliases)) >>= λ packed_count.
    map_result (alias_record count) (valid_aliases aliases) >>= λ records.
    ok (packed_count ++ concat records)

unfoldable pub valid_twins : List Twin → List Twin
unfolding nonempty filter
valid_twins twins = filter (λ t. nonempty t.key && ltb 0 (length t.alts)) twins

unfoldable pub alt_record : ℕ → ℕ × ℕ → Result Bytes
unfolding pack_u32
alt_record count (alt_id, alt_len) =
    raise_if (not (ltb alt_id count)) (system_exit "twin alt id out of bounds")
    >> (pack_u32 alt_id >>= λ packed_id.
        pack_u32 alt_len >>= λ packed_len. ok (packed_id ++ packed_len))

unfoldable pub twin_record : ℕ → Twin → Result Bytes
unfolding pack_u32 alt_record map_result
twin_record count t =
    raise_if (not (ltb t.id count)) (system_exit "twin id out of bounds")
    >> (pack_u32 t.id >>= λ packed_id. pack_u32 (length t.key) >>= λ packed_len.
        map_result (alt_record count) (take 2 t.alts) >>= λ alts.
        ok (packed_id ++ packed_len ++ t.key ++ length (take 2 t.alts) ∷ concat alts))

unfoldable pub twin_section : ℕ → List Twin → Result Bytes
unfolding pack_u32 valid_twins twin_record map_result
twin_section count twins = pack_u32 (length (valid_twins twins)) >>= λ packed_count.
    map_result (twin_record count) (valid_twins twins) >>= λ records.
    ok (packed_count ++ concat records)

-- What stands before the token bytes, the three counts packed.
abbrev pub header : ℕ → ℕ → ℕ → Bytes → Bytes
header capcode max_len norm_flag counts =
    90 ∷ 84 ∷ 77 ∷ 3 ∷ 3 ∷ capcode % 256 ∷ max_len ∷ norm_flag % 256 ∷ counts

-- The file's content.
unfoldable pub write_ztm : List Bytes → ℕ → ℕ → ℕ → List (ℕ × Bytes) → List Twin → Result Bytes
unfolding pack_u32 sum_by written_unk max_token_length offsets zeros alias_section twin_section
write_ztm tokens unk_id capcode norm_flag aliases twins =
    let count = length tokens in
    let bytes_total = sum_by length tokens in
    raise_if (ltb 4294967295 bytes_total) (system_exit "token bytes total exceeds u32 max")
    >> (pack_u32 count >>= λ packed_count. pack_u32 (written_unk tokens unk_id) >>= λ packed_unk.
        pack_u32 bytes_total >>= λ packed_total. pack_u32 0 >>= λ first.
        offsets 0 tokens >>= λ later. alias_section count aliases >>= λ alias_part.
        twin_section count twins >>= λ twin_part. ok (
          header capcode (max_token_length tokens aliases twins) norm_flag (
            packed_count
            ++ packed_unk
            ++ packed_total
            ++ (concat tokens ++ (first ++ later ++ (zeros count ++ (alias_part ++ twin_part)))))))
