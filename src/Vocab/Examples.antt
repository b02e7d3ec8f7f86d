-- ===== src/Vocab/Examples.antt =====
-- Runs of the converter on a small vocabulary: `a`, `ab` with the alias `b`, and `abc`.
use ztok.Common.{
  ℕ, ◌<◌, ◌≡◌, ◌≢◌, refl, true, false, ◌&&◌, List, [], ◌∷◌, ◌++◌, none, some, ok, err, sum_by, leb,
  ◌==◌, length, arith, All, value_error,
}
use ztok.Common.Dict.{lookup, get_list}
use ztok.Vocab.Wire.{Bytes, got}
use ztok.Vocab.Runes.{Unicode, decode_rune, is_letter}
use ztok.Vocab.Ztm.{Twin, write_ztm, zeros}
use ztok.Vocab.Reader.{read_bytes_meta}
use ztok.Vocab.Alts.{
  InfoEntry, ids_of, alternatives, min_alt_size_of, words_after, compute_per_twin_alts, bytes_eq,
}
use ztok.Vocab.Tm.{Tables, place_all, TmVocab, parse_tm_vocab, convert}
use ztok.Vocab.Roundtrip.{write_ztm-read_bytes_meta, loaded}
use ztok.Vocab.Total.{convert-Succeeds}
use ztok.Vocab.Plain.{Succeeds}
use ztok.Vocab.InRange.{parse_tm_vocab-InRange, InRange}
use ztok.Vocab.Primaries.{place_all-longest, longest_first, keys_of}
use ztok.Vocab.Aliases.{place_all-resolves, place_all-Fits, Fits, resolves}
use ztok.Vocab.Twins.{compute_per_twin_alts-IsTwin, IsTwin}
use ztok.Vocab.Found.{alternatives-found}
use ztok.Vocab.Words.{words_after-ends}
use ztok.Vocab.Totality.{compute_per_twin_alts-Succeeds}

-- The lower-case letters alone.
abbrev latin : Unicode
latin = record {
  isalpha = λ cp. leb 97 cp && leb cp 122;
  is_mark = λ cp. false;
  isnumeric = λ cp. leb 48 cp && leb cp 57;
  isspace = λ cp. leb cp 32;
}

abbrev entry_a : InfoEntry
entry_a = record { key = 97 ∷ []; flag = 0; nwords = 0; id = 0 }

abbrev entry_b : InfoEntry
entry_b = record { key = 98 ∷ []; flag = 0; nwords = 0; id = 1 }

abbrev entry_ab : InfoEntry
entry_ab = record { key = 97 ∷ 98 ∷ []; flag = 0; nwords = 0; id = 1 }

abbrev entry_abc : InfoEntry
entry_abc = record { key = 97 ∷ 98 ∷ 99 ∷ []; flag = 0; nwords = 0; id = 2 }

abbrev entries : List InfoEntry
entries = entry_a ∷ entry_b ∷ entry_ab ∷ entry_abc ∷ []

abbrev u24 : ℕ → Bytes
u24 n = n ∷ 0 ∷ 0 ∷ []

abbrev info_bytes : Bytes → ℕ → Bytes
info_bytes key id = length key ∷ key ++ 0 ∷ 0 ∷ u24 0 ++ u24 0 ++ u24 id ++ 0 ∷ 0 ∷ 0 ∷ 0 ∷ []

abbrev vocab_file : Bytes
vocab_file =
    0 ∷ 1 ∷ 1 ∷ 0 ∷ 0 ∷ 0 ∷ 0 ∷ 0 ∷ []
    ++ u24 7
    ++ u24 3
    ++ u24 0
    ++ u24 4
    ++ u24 0
    ++ 3 ∷ []
    ++ info_bytes (97 ∷ []) 0
    ++ info_bytes (98 ∷ []) 1
    ++ info_bytes (97 ∷ 98 ∷ []) 1
    ++ info_bytes (97 ∷ 98 ∷ 99 ∷ []) 2
    ++ zeros 256
    ++ u24 0

abbrev twins : List Twin
twins =
    record { key = 97 ∷ 98 ∷ []; id = 1; alts = (0, 1) ∷ [] }
    ∷ record { key = 97 ∷ 98 ∷ 99 ∷ []; id = 2; alts = (1, 2) ∷ (0, 1) ∷ [] }
    ∷ []

abbrev parsed : TmVocab
parsed = record {
  tokens = (97 ∷ []) ∷ (97 ∷ 98 ∷ []) ∷ (97 ∷ 98 ∷ 99 ∷ []) ∷ [];
  aliases = (1, 98 ∷ []) ∷ [];
  per_twin_alts = twins;
  unk_token = 7;
  using_capcode = 0;
  normalizer_flag = 1;
}

parse_tm_vocab_test : parse_tm_vocab latin vocab_file ≡ ok parsed
unfolding parse_tm_vocab zeros
parse_tm_vocab_test = refl

-- A malformed rune of four bytes is decoded beyond the code points, where `chr` raises.
malformed_rune_test :
    is_letter latin (decode_rune (247 ∷ 128 ∷ 128 ∷ 128 ∷ []) 0).0 0
    ≡ err (value_error "chr() arg not in range")
unfolding decode_rune is_letter
malformed_rune_test = refl

convert-Succeeds_example : Succeeds (convert latin vocab_file)
unfolding sum_by
convert-Succeeds_example = convert-Succeeds latin vocab_file parsed parse_tm_vocab_test (
  omega arith,
  omega arith,
  omega arith,
  omega arith,
  (omega arith, tt),
  (omega arith, (omega arith, tt)),
)

parse_tm_vocab-InRange_example : InRange parsed
parse_tm_vocab-InRange_example = parse_tm_vocab-InRange latin vocab_file parse_tm_vocab_test

abbrev tables : Tables
tables = ((0, 97 ∷ []) ∷ (1, 97 ∷ 98 ∷ []) ∷ (2, 97 ∷ 98 ∷ 99 ∷ []) ∷ [], (1, (98 ∷ []) ∷ []) ∷ [])

place_all_test : place_all ([], []) entries ≡ tables
unfolding place_all
place_all_test = refl

place_all-longest_example :
    lookup ◌==◌ 1 (place_all ([], []) entries).0 ≡ longest_first none (keys_of 1 entries)
unfolding lookup
place_all-longest_example = place_all-longest 1 ([], []) entries

place_all-resolves_example :
    All (λ e. resolves (place_all ([], []) entries) e.id e.key ≡ true) entries
place_all-resolves_example = place_all-resolves ([], []) entries

place_all-Fits_example :
    Fits (lookup ◌==◌ 1 (place_all ([], []) entries).0) (get_list 1 (place_all ([], []) entries).1)
unfolding lookup get_list
place_all-Fits_example = place_all-Fits ([], []) entries (λ k. refl) 1

twins_test : compute_per_twin_alts latin 0 entries ≡ ok twins
unfolding compute_per_twin_alts
twins_test = refl

compute_per_twin_alts-IsTwin_example : All (IsTwin entries) twins
compute_per_twin_alts-IsTwin_example = compute_per_twin_alts-IsTwin latin 0 entries twins_test

min_alt_size_test : min_alt_size_of latin 0 (97 ∷ 98 ∷ 99 ∷ []) ≡ ok 1
unfolding min_alt_size_of
min_alt_size_test = refl

prefix_test : lookup bytes_eq (97 ∷ 98 ∷ []) (ids_of [] entries) ≡ some 1
unfolding lookup bytes_eq ids_of
prefix_test = refl

abbrev found : List (ℕ × ℕ)
found = (1, 2) ∷ (0, 1) ∷ []

alternatives_test : alternatives latin 0 (ids_of [] entries) (97 ∷ 98 ∷ 99 ∷ []) ≡ ok found
unfolding alternatives ids_of
alternatives_test = refl

alternatives-found_example : 0 < length found
alternatives-found_example =
    alternatives-found (ids_of [] entries) (97 ∷ 98 ∷ 99 ∷ []) latin 0 1 2 min_alt_size_test
      (omega arith) (omega arith) (omega arith) prefix_test alternatives_test

words_after-ends_example : words_after latin 0 (32 ∷ 97 ∷ 32 ∷ 98 ∷ []) 1 ≢ ok none
words_after-ends_example = words_after-ends latin 0 (32 ∷ 97 ∷ 32 ∷ 98 ∷ []) 1

words_after_test : words_after latin 0 (32 ∷ 97 ∷ 32 ∷ 98 ∷ []) 1 ≡ ok (some 2)
unfolding words_after
words_after_test = refl

compute_per_twin_alts-Succeeds_example : Succeeds (compute_per_twin_alts latin 0 entries)
compute_per_twin_alts-Succeeds_example = compute_per_twin_alts-Succeeds latin 0 entries (
  (omega arith, tt),
  (
    (omega arith, tt),
    ((omega arith, (omega arith, tt)), ((omega arith, (omega arith, (omega arith, tt))), tt)),
  ),
)

abbrev tokens : List Bytes
tokens = (97 ∷ []) ∷ (97 ∷ 98 ∷ []) ∷ []

abbrev written : Bytes
written =
    90 ∷ 84 ∷ 77 ∷ 3 ∷ 3 ∷ 3 ∷ 2 ∷ 1 ∷ 2 ∷ 0 ∷ 0 ∷ 0 ∷ 0 ∷ 0 ∷ 0 ∷ 0 ∷ 3 ∷ 0 ∷ 0 ∷ 0 ∷ 97 ∷ 97 ∷ 98
    ∷ 0 ∷ 0 ∷ 0 ∷ 0 ∷ 1 ∷ 0 ∷ 0 ∷ 0 ∷ 3 ∷ 0 ∷ 0 ∷ 0 ∷ 0 ∷ 0 ∷ 1 ∷ 0 ∷ 0 ∷ 0 ∷ 1 ∷ 0 ∷ 0 ∷ 0 ∷ 1 ∷ 0
    ∷ 0 ∷ 0 ∷ 98 ∷ 1 ∷ 0 ∷ 0 ∷ 0 ∷ 1 ∷ 0 ∷ 0 ∷ 0 ∷ 2 ∷ 0 ∷ 0 ∷ 0 ∷ 97 ∷ 98 ∷ 1 ∷ 0 ∷ 0 ∷ 0 ∷ 0 ∷ 1
    ∷ 0 ∷ 0 ∷ 0 ∷ []

abbrev one_twin : List Twin
one_twin = record { key = 97 ∷ 98 ∷ []; id = 1; alts = (0, 1) ∷ [] } ∷ []

-- The unknown token is out of range, so the first single byte takes its place.
write_ztm_test : write_ztm tokens 16777215 3 1 ((1, 98 ∷ []) ∷ (0, []) ∷ []) one_twin ≡ ok written
unfolding write_ztm
write_ztm_test = refl

write_ztm-read_bytes_meta_example :
    read_bytes_meta written
    ≡ got (loaded tokens 16777215 3 1 ((1, 98 ∷ []) ∷ (0, []) ∷ []) one_twin) []
write_ztm-read_bytes_meta_example =
    write_ztm-read_bytes_meta tokens 16777215 3 1 ((1, 98 ∷ []) ∷ (0, []) ∷ []) one_twin
      (omega arith) (omega arith) write_ztm_test
