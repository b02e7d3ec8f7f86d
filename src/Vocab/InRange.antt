-- ===== src/Vocab/InRange.antt =====
-- The ids that a parsed vocabulary mentions are ids of its tokens.
use ztok.Common.{
  ℕ, suc, ◌<◌, ◌≡◌, refl, sym, true, List, [], ok, ◌==◌, length, arith, All, All-mono, All-get,
  subst, >>=-eq-ok, ok-injective, take, drop, is_some,
}
use ztok.Common.Dict.{lookup, lookup-All}
use ztok.Vocab.Wire.{Bytes}
use ztok.Vocab.Runes.{Unicode}
use ztok.Vocab.Ztm.{Twin}
use ztok.Vocab.Alts.{InfoEntry, bytes_eq, ids_of, compute_per_twin_alts}
use ztok.Vocab.Tm.{place_all, max_key, flat_aliases, TmVocab, TmHeader, tm_vocab}
use ztok.Vocab.Aliases.{place_all-Fits}
use ztok.Vocab.Prefixes.{IsPrefix}
use ztok.Vocab.Twins.{IsTwin, compute_per_twin_alts-IsTwin}
use ztok.Vocab.Range.{
  Below, lookup-max_key, length-ordered_tokens, place_all-has, ids_of-All, flat_aliases-Below,
}
use ztok.Vocab.Tm.{parse_tm_vocab, read_tm_header, read_info, skip_deleted, read_uint24}

abbrev pub TwinInRange : ℕ → Twin → Type 0
TwinInRange c t = (t.id < c) × All (λ (a : ℕ × ℕ). (a.0 < c) × (a.1 < length t.key)) t.alts

-- The ids that a vocabulary mentions are ids of its tokens.
abbrev pub InRange : TmVocab → Type 0
InRange v =
    (0 < length v.tokens)
    × All (Below (length v.tokens)) v.aliases
    × All (TwinInRange (length v.tokens)) v.per_twin_alts

IsTwin→InRange :
    (es : List InfoEntry) (c : ℕ) (t : Twin)
    → All (λ e. e.id < c) es
    → IsTwin es t
    → TwinInRange c t
IsTwin→InRange es c t h ((i, e, at, key, id), (p, apart), some_alt) = (
  rw (← id) (All-get (λ e. e.id < c) es i h at),
  All-mono (IsPrefix (ids_of [] es) t.key) (λ (a : ℕ × ℕ). (a.0 < c) × (a.1 < length t.key)) t.alts
      (λ a (pos, short, found). (
        lookup-All bytes_eq (λ i. i < c) (take a.1 t.key) (ids_of [] es)
            (ids_of-All (λ i. i < c) [] es tt h) found,
        short,
      ))
      p,
)

entries_below : (es : List InfoEntry) → All (λ e. e.id < suc (max_key (place_all ([], []) es).0)) es
entries_below es =
    let tables = place_all ([], []) es in
    All-mono (λ e. is_some (lookup ◌==◌ e.id tables.0) ≡ true) (λ e. e.id < suc (max_key tables.0))
      es (λ e h. let bound = lookup-max_key e.id tables.0 h in omega arith)
      (place_all-has ([], []) es)

module _ (unicode : Unicode) where
  tm_vocab-InRange :
      (h : TmHeader) (es : List InfoEntry) {v : TmVocab} → tm_vocab unicode h es ≡ ok v → InRange v
  unfolding tm_vocab
  tm_vocab-InRange (capcode, flag, unk, n) es {v} e =
      let tables = place_all ([], []) es in
      let (ts, e₁, done) = >>=-eq-ok (compute_per_twin_alts unicode capcode es) _ e in
      subst InRange (ok-injective _ v done) (
        subst (λ c. (0 < c) × All (Below c) (flat_aliases tables.1) × All (TwinInRange c) ts)
          (sym (length-ordered_tokens tables.0))
          (
            omega arith,
            flat_aliases-Below (suc (max_key tables.0)) tables
                (place_all-Fits ([], []) es (λ k. refl)) (omega arith),
            All-mono (IsTwin es) (TwinInRange (suc (max_key tables.0))) ts
                (λ t. IsTwin→InRange es (suc (max_key tables.0)) t (entries_below es))
                (compute_per_twin_alts-IsTwin unicode capcode es e₁),
          ))

  -- Whatever the file, when it is parsed, there is a token, and every id that the aliases, the
  -- twins and the alternatives of the twins mention is the id of a token: the writer's checks on
  -- ids are passed. Each alternative is shorter than the key of its twin.
  pub parse_tm_vocab-InRange :
      (raw : Bytes) {v : TmVocab} → parse_tm_vocab unicode raw ≡ ok v → InRange v
  unfolding parse_tm_vocab
  parse_tm_vocab-InRange raw e =
      let (h, e₁, k₁) = >>=-eq-ok (read_tm_header raw) _ e in
      let (info, e₂, k₂) = >>=-eq-ok (read_info h.0.3 h.1) _ k₁ in
      let (n, e₃, k₃) = >>=-eq-ok (read_uint24 (drop 256 info.1)) _ k₂ in
      let (rest, e₄, k₄) = >>=-eq-ok (skip_deleted n.0 n.1) _ k₃ in tm_vocab-InRange h.0 info.0 k₄
