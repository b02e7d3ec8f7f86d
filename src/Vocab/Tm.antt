-- ===== src/Vocab/Tm.antt =====
-- `parse_tm_vocab` and `main` of bench/convert_tm_to_ztm.py. A cursor is what is left of the file;
-- a read beyond its end raises, and a slice or a skip stops at its end.
use ztok.Common.{
  ℕ, zero, suc, ◌+◌, ◌*◌, List, [], ◌∷◌, Option, none, some, Result, ok, err, index_error,
  struct_error, system_exit, ltb, ◌==◌, if◌then◌else◌, length, take, drop, map, range, ◌>>=◌, ◌>>◌,
  raise_if, flat_map, max,
}
use ztok.Common.Dict.{lookup, put, append_to, get_list, keys}
use ztok.Common.Sort.{sort}
use ztok.Vocab.Wire.{Bytes}
use ztok.Vocab.Runes.{Unicode}
use ztok.Vocab.Ztm.{Twin, write_ztm}
use ztok.Vocab.Alts.{InfoEntry, bytes_eq, compute_per_twin_alts}

abbrev pub Cursor : Type 0 → Type 0
Cursor A = Result (A × Bytes)

abbrev pub read_uint8 : Bytes → Cursor ℕ
read_uint8 [] = err index_error
read_uint8 (b ∷ raw) = ok (b, raw)

-- The three bytes do not overlap, so their `|` is a sum.
unfoldable pub read_uint24 : Bytes → Cursor ℕ
read_uint24 raw = read_uint8 raw >>= λ a.
    read_uint8 a.1 >>= λ b. read_uint8 b.1 >>= λ c. ok (a.0 + b.0 * 256 + c.0 * 65536, c.1)

-- The score is read and given up: `struct.unpack_from` wants four bytes.
unfoldable pub read_score : Bytes → Result Bytes
read_score raw = if ltb (length raw) 4 then err struct_error else ok (drop 4 raw)

unfoldable pub read_info_entry : Bytes → Cursor InfoEntry
unfolding read_uint24 read_score
read_info_entry raw = read_uint8 raw >>= λ klen. read_uint8 (drop klen.0 klen.1) >>= λ flag.
    read_uint8 flag.1 >>= λ nwords. read_uint24 nwords.1 >>= λ alt_index.
    read_uint24 alt_index.1 >>= λ alt_index2. read_uint24 alt_index2.1 >>= λ alt_id.
    read_score alt_id.1 >>= λ rest.
    ok (record { key = take klen.0 klen.1; flag = flag.0; nwords = nwords.0; id = alt_id.0 }, rest)

-- `id_to_bytes` and `id_to_aliases`.
abbrev pub Tables : Type 0
Tables = List (ℕ × Bytes) × List (ℕ × List Bytes)

-- What an info entry does to the tables, given the token that its id had: the longer key becomes
-- the id's token, and the other an alias.
unfoldable pub settle : Option Bytes → Tables → InfoEntry → Tables
unfolding put append_to bytes_eq
settle none (id_to_bytes, id_to_aliases) e = (put ◌==◌ e.id e.key id_to_bytes, id_to_aliases)
settle (some existing) (id_to_bytes, id_to_aliases) e =
    if bytes_eq e.key existing
    then (id_to_bytes, id_to_aliases)
    else if ltb (length existing) (length e.key)
    then (put ◌==◌ e.id e.key id_to_bytes, append_to e.id existing id_to_aliases)
    else (id_to_bytes, append_to e.id e.key id_to_aliases)

unfoldable pub place : Tables → InfoEntry → Tables
unfolding lookup settle
place tables e = settle (lookup ◌==◌ e.id tables.0) tables e

unfoldable pub place_all : Tables → List InfoEntry → Tables
unfolding place
place_all tables [] = tables
place_all tables (e ∷ es) = place_all (place tables e) es

-- The loop over the info entries.
unfoldable pub read_info : ℕ → Bytes → Cursor (List InfoEntry)
unfolding read_info_entry
read_info zero raw = ok ([], raw)
read_info (suc n) raw =
    read_info_entry raw >>= λ e. read_info n e.1 >>= λ more. ok (e.0 ∷ more.0, more.1)

-- The loop over the deleted tokens.
unfoldable pub skip_deleted : ℕ → Bytes → Result Bytes
skip_deleted zero raw = ok raw
skip_deleted (suc n) raw =
    read_uint8 raw >>= λ dlen. skip_deleted n (drop 4 (drop 3 (drop dlen.0 dlen.1)))

abbrev pub or_empty : Option Bytes → Bytes
or_empty none = []
or_empty (some bytes) = bytes

unfoldable pub max_key : List (ℕ × Bytes) → ℕ
max_key [] = 0
max_key ((i, b) ∷ d) = max i (max_key d)

-- The dense list of tokens by id, a gap filled with an empty token.
unfoldable pub ordered_tokens : List (ℕ × Bytes) → List Bytes
unfolding lookup max_key range
ordered_tokens id_to_bytes =
    map (λ i. or_empty (lookup ◌==◌ i id_to_bytes)) (range (suc (max_key id_to_bytes)))

-- The pairs of an id and an alias, by id.
unfoldable pub flat_aliases : List (ℕ × List Bytes) → List (ℕ × Bytes)
unfolding flat_map sort get_list
flat_aliases id_to_aliases =
    flat_map (λ aid. map (λ ab. (aid, ab)) (get_list aid id_to_aliases))
      (sort ltb (keys id_to_aliases))

-- What the conversion uses of the parsed file.
pub record TmVocab : Type 0 where
  pub tokens : List Bytes
  pub aliases : List (ℕ × Bytes)
  pub per_twin_alts : List Twin
  pub unk_token : ℕ
  pub using_capcode : ℕ
  pub normalizer_flag : ℕ

-- The head of the file: the capcode, the normalizer flag, the unknown token, `nInfo`.
abbrev pub TmHeader : Type 0
TmHeader = ℕ × ℕ × ℕ × ℕ

unfoldable pub read_tm_header : Bytes → Cursor TmHeader
unfolding read_uint24
read_tm_header raw = read_uint8 raw >>= λ using_capcode. read_uint8 using_capcode.1 >>= λ charset.
    read_uint8 charset.1 >>= λ normalizer_flag. read_uint8 normalizer_flag.1 >>= λ level.
    read_uint8 level.1 >>= λ reserve.
    raise_if (charset.0 == 2) (system_exit "charset==2 (UTF-16) TM vocabs are not supported")
    >> (read_uint24 (drop 3 reserve.1) >>= λ unk_token. read_uint24 unk_token.1 >>= λ vocab_size.
        read_uint24 vocab_size.1 >>= λ n_reverse. read_uint24 n_reverse.1 >>= λ n_info.
        read_uint24 n_info.1 >>= λ delete_token. read_uint8 delete_token.1 >>= λ max_token_length.
        ok ((using_capcode.0, normalizer_flag.0, unk_token.0, n_info.0), max_token_length.1))

module _ (unicode : Unicode) where
  -- What is built of the info entries, when the whole file was read.
  unfoldable pub tm_vocab : TmHeader → List InfoEntry → Result TmVocab
  unfolding place_all ordered_tokens flat_aliases compute_per_twin_alts
  tm_vocab (using_capcode, normalizer_flag, unk_token, n_info) info_entries =
      let tables = place_all ([], []) info_entries in
      compute_per_twin_alts unicode using_capcode info_entries >>= λ per_twin_alts. ok (record {
        tokens = ordered_tokens tables.0;
        aliases = flat_aliases tables.1;
        per_twin_alts = per_twin_alts;
        unk_token = unk_token;
        using_capcode = using_capcode;
        normalizer_flag = normalizer_flag;
      })

  unfoldable pub parse_tm_vocab : Bytes → Result TmVocab
  unfolding read_tm_header read_info skip_deleted tm_vocab read_uint24
  parse_tm_vocab raw = read_tm_header raw >>= λ h. read_info h.0.3 h.1 >>= λ info.
      read_uint24 (drop 256 info.1) >>= λ n_deleted.
      skip_deleted n_deleted.0 n_deleted.1 >>= λ rest. tm_vocab h.0 info.0

  -- `main`, from the bytes of one file to those of the other.
  unfoldable pub convert : Bytes → Result Bytes
  unfolding parse_tm_vocab write_ztm
  convert raw = parse_tm_vocab raw >>= λ parsed.
      write_ztm parsed.tokens parsed.unk_token
        (if parsed.using_capcode == 2 then 3 else parsed.using_capcode) parsed.normalizer_flag
        parsed.aliases parsed.per_twin_alts
