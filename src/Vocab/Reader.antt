-- ===== src/Vocab/Reader.antt =====
-- `readBytesMeta` of src/monster_io.zig: what the native library reads from a `.ztm` file and hands
-- to the builder of its encoder.
use ztok.Common.{
  ℕ, zero, suc, ◌+◌, ◌-◌, ◌*◌, not, ◌&&◌, ◌||◌, List, [], ◌∷◌, ltb, leb, ◌==◌, if◌then◌else◌,
  length, take, drop,
}
use ztok.Vocab.Wire.{
  Bytes, Read, got, truncated_file, magic_mismatch, unsupported_version, malformed_file, panic,
  ◌>>>◌, refuse_if, u8, u32,
}
use ztok.Vocab.Ztm.{Twin}

-- What the builder was given, with the metadata that goes with it.
pub record LoadedMonster : Type 0 where
  pub pieces : List Bytes
  pub unk_id : ℕ
  pub aliases : List (ℕ × Bytes)
  pub per_twin_alts : List Twin
  pub capcode : ℕ
  pub norm_flag : ℕ

abbrev pub Header : Type 0
Header = ℕ × ℕ × ℕ × ℕ × ℕ × ℕ

unfoldable pub read_header : Bytes → Read Header
read_header contents = refuse_if (ltb (length contents) 20) truncated_file (
    u8 contents >>> λ z r. u8 r >>> λ t r. u8 r >>> λ m r. u8 r >>> λ magic_version r.
    refuse_if (not (z == 90 && t == 84 && m == 77)) magic_mismatch (
      refuse_if (not (magic_version == 1 || magic_version == 2 || magic_version == 3))
        magic_mismatch
        (u8 r >>> λ version r. refuse_if (not (version == magic_version)) magic_mismatch (
          refuse_if (ltb 3 version) unsupported_version (
            u8 r >>> λ capcode r. refuse_if (ltb 3 capcode) malformed_file (
              u8 r >>> λ max_len r. u8 r >>> λ norm_flag r. u32 r >>> λ count r.
              u32 r >>> λ unk_id r. u32 r >>> λ bytes_total r.
              got (version, capcode, norm_flag, count, unk_id, bytes_total) r))))))

-- The loop over the offsets: the pieces, and the last offset.
unfoldable pub read_pieces : ℕ → ℕ → ℕ → Bytes → Bytes → Read (List Bytes × ℕ)
read_pieces zero prev_off bytes_total slice r = got ([], prev_off) r
read_pieces (suc n) prev_off bytes_total slice r = u32 r >>> λ next_off r'.
    refuse_if (ltb next_off prev_off || ltb bytes_total next_off) malformed_file (
      read_pieces n next_off bytes_total slice r' >>> λ p r''.
      got (take (next_off - prev_off) (drop prev_off slice) ∷ p.0, p.1) r'')

unfoldable pub read_alias : ℕ → Bytes → Read (ℕ × Bytes)
read_alias count r = refuse_if (ltb (length r) 8) truncated_file (
    u32 r >>> λ id r. u32 r >>> λ alt_len r.
    refuse_if (ltb 0 count && leb count id) malformed_file (
      refuse_if (ltb (length r) alt_len) truncated_file
        (refuse_if (alt_len == 0) malformed_file (got (id, take alt_len r) (drop alt_len r)))))

unfoldable pub read_alt : ℕ → Bytes → Read (ℕ × ℕ)
read_alt count r = refuse_if (ltb (length r) 8) truncated_file (
    u32 r >>> λ alt_id r. u32 r >>> λ alt_byte_len r.
    refuse_if (ltb 0 count && leb count alt_id) malformed_file (got (alt_id, alt_byte_len) r))

-- A loop of so many rounds that reads one record each time.
unfoldable pub read_many {ℓ} : {A : Type ℓ} → (Bytes → Read A) → ℕ → Bytes → Read (List A)
read_many one zero r = got [] r
read_many one (suc n) r = one r >>> λ a r'. read_many one n r' >>> λ rest r''. got (a ∷ rest) r''

unfoldable pub read_twin : ℕ → Bytes → Read Twin
unfolding read_many read_alt
read_twin count r = refuse_if (ltb (length r) 8) truncated_file (
    u32 r >>> λ id r. u32 r >>> λ key_len r.
    refuse_if (ltb 0 count && leb count id) malformed_file (
      refuse_if (key_len == 0) malformed_file (
        refuse_if (ltb (length r) key_len) truncated_file (
          refuse_if (ltb (length (drop key_len r)) 1) truncated_file (
            u8 (drop key_len r) >>> λ n_alts r'. refuse_if (ltb 2 n_alts) malformed_file (
              read_many (read_alt count) n_alts r' >>> λ alts r''.
              got (record { key = take key_len r; id = id; alts = alts }) r''))))))

-- A section: its count of records, and the records.
unfoldable pub read_section {ℓ} : {A : Type ℓ} → (Bytes → Read A) → Bytes → Read (List A)
unfolding read_many
read_section one r =
    refuse_if (ltb (length r) 4) truncated_file (u32 r >>> λ count r'. read_many one count r')

-- What follows the header. `count + 1` is computed in 32 bits, where an overflow panics.
unfoldable pub read_body : Header → Bytes → Read LoadedMonster
unfolding read_pieces read_section read_alias read_twin
read_body (version, capcode, norm_flag, count, unk_id, bytes_total) r =
    refuse_if (count == 4294967295) panic (
      refuse_if (ltb (length r) (bytes_total + (count + 1) * 4 + count)) truncated_file (
        refuse_if (ltb 0 count && leb count unk_id) malformed_file (
          u32 (drop bytes_total r) >>> λ offsets_first r'.
          refuse_if (not (offsets_first == 0)) malformed_file (
            read_pieces count 0 bytes_total (take bytes_total r) r' >>> λ p r''.
            refuse_if (ltb 0 count && not (p.1 == bytes_total)) malformed_file (
              (if leb 2 version
                then read_section (read_alias count) (drop count r'')
                else got [] (drop count r''))
              >>> λ aliases after.
                  (if version == 3 then read_section (read_twin count) after else got [] after)
                  >>> λ twins rest.
                      got
                        (record {
                          pieces = p.0;
                          unk_id = if count == 0 then 0 else unk_id;
                          aliases = aliases;
                          per_twin_alts = twins;
                          capcode = capcode;
                          norm_flag = norm_flag;
                        })
                        rest)))))

unfoldable pub read_bytes_meta : Bytes → Read LoadedMonster
unfolding read_header read_body
read_bytes_meta contents = read_header contents >>> λ header r. read_body header r
