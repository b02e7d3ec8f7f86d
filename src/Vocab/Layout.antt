-- ===== src/Vocab/Layout.antt =====
-- The parts of a `.ztm` file that was written, and what its sections read as.
use ztok.Common.{
  concat, ℕ, zero, suc, ◌+◌, ◌*◌, ◌<◌, ◌≡◌, refl, sym, ap, ◌∙◌, ◌&&◌, List, [], ◌∷◌, ◌++◌, ok, ltb,
  length, sum_by, map, map_result, >>=-eq-ok, ok-injective, raise_if-eq-ok, arith, All, system_exit,
  ◌⊎◌, inl, All-filter,
}
use mathlib.Core.List.{map-id}
use ztok.Vocab.Wire.{Bytes, pack_u32, got, le_bytes, pack_u32-eq-ok}
use ztok.Vocab.Ztm.{
  Twin, written_unk, first_single, max_token_length, offsets, zeros, nonempty, valid_aliases,
  alias_record, alias_section, valid_twins, twin_record, twin_section, write_ztm, header,
}
use ztok.Vocab.Reader.{read_alias, read_twin, read_section}
use ztok.Vocab.Records.{
  read_section-back, read_alias-back, read_twin-back, offsets-eq-ok, shown_twin,
}

first_single-bound :
    (i : ℕ) (tokens : List Bytes)
    → (first_single i tokens ≡ 0) ⊎ (first_single i tokens < i + length tokens)
unfolding first_single
first_single-bound i [] = inl refl
first_single-bound i (t ∷ ts) = ground (arith, first_single-bound (suc i) ts)

pub written_unk-bound :
    (tokens : List Bytes) (unk_id : ℕ)
    → 0 < length tokens
    → written_unk tokens unk_id < length tokens
unfolding written_unk
written_unk-bound tokens unk_id h = ground (arith, first_single-bound 0 tokens)

valid_aliases-nonempty :
    (aliases : List (ℕ × Bytes)) → All (λ a. 0 < length a.1) (valid_aliases aliases)
unfolding valid_aliases nonempty
valid_aliases-nonempty aliases =
    All-filter (λ a. 0 < length a.1) (λ a. nonempty a.1) aliases (λ a h. ground arith)

valid_twins-nonempty : (twins : List Twin) → All (λ t. 0 < length t.key) (valid_twins twins)
unfolding valid_twins nonempty
valid_twins-nonempty twins =
    All-filter (λ t. 0 < length t.key) (λ t. nonempty t.key && ltb 0 (length t.alts)) twins
      (λ t h. ground arith)

pub alias_section-back :
    (count : ℕ) (aliases : List (ℕ × Bytes)) (part rest : Bytes)
    → alias_section count aliases ≡ ok part
    → read_section (read_alias count) (part ++ rest) ≡ got (valid_aliases aliases) rest
unfolding alias_section
alias_section-back count aliases part rest e =
    let (n, e₀, k) = >>=-eq-ok (pack_u32 (length (valid_aliases aliases))) _ e in
    let (ps, e₁, done) = >>=-eq-ok (map_result (alias_record count) (valid_aliases aliases)) _ k in
    rw (sym (ok-injective (n ++ concat ps) part done)) (
      read_section-back (alias_record count) (read_alias count) (λ a. a) (λ a. 0 < length a.1)
        (read_alias-back count) (valid_aliases aliases) rest (valid_aliases-nonempty aliases) e₀ e₁
      ∙ ap (λ xs. got xs rest) (map-id (valid_aliases aliases)))

pub twin_section-back :
    (count : ℕ) (twins : List Twin) (part rest : Bytes)
    → twin_section count twins ≡ ok part
    → read_section (read_twin count) (part ++ rest) ≡ got (map shown_twin (valid_twins twins)) rest
unfolding twin_section
twin_section-back count twins part rest e =
    let (n, e₀, k) = >>=-eq-ok (pack_u32 (length (valid_twins twins))) _ e in
    let (ps, e₁, done) = >>=-eq-ok (map_result (twin_record count) (valid_twins twins)) _ k in
    rw (sym (ok-injective (n ++ concat ps) part done)) (
      read_section-back (twin_record count) (read_twin count) shown_twin (λ t. 0 < length t.key)
        (read_twin-back count) (valid_twins twins) rest (valid_twins-nonempty twins) e₀ e₁)

pub length-zeros : (n : ℕ) → length (zeros n) ≡ n
unfolding zeros
length-zeros zero = refl
length-zeros (suc n) = ap suc (length-zeros n)

pub length-offsets :
    (start : ℕ) (tokens : List Bytes) {p : Bytes}
    → offsets start tokens ≡ ok p
    → length p ≡ 4 * length tokens
unfolding offsets
length-offsets start [] {p} e = ground arith
length-offsets start (t ∷ ts) {p} e =
    let (q, more, small, layout) = offsets-eq-ok start t ts e in
    ground (arith, length-offsets (start + length t) ts more)

-- The parts of a file that was written.
abbrev pub Written : List Bytes → ℕ → ℕ → ℕ → List (ℕ × Bytes) → List Twin → Bytes → Type 0
Written tokens unk_id capcode norm_flag aliases twins out =
    (later : Bytes) × (alias_part : Bytes) × (twin_part : Bytes) × (offsets 0 tokens ≡ ok later)
    × (alias_section (length tokens) aliases ≡ ok alias_part)
    × (twin_section (length tokens) twins ≡ ok twin_part)
    × (sum_by length tokens < 4294967296)
    × (length tokens < 4294967296)
    × (written_unk tokens unk_id < 4294967296)
    × (out
        ≡ header capcode (max_token_length tokens aliases twins) norm_flag (
            le_bytes (length tokens)
            ++ le_bytes (written_unk tokens unk_id)
            ++ le_bytes (sum_by length tokens)
            ++ (concat tokens
                ++ (le_bytes 0 ++ later ++ (zeros (length tokens) ++ (alias_part ++ twin_part))))))

-- A file that was written has passed every check on the way.
pub write_ztm-Written :
    (tokens : List Bytes) (unk_id capcode norm_flag : ℕ) (aliases : List (ℕ × Bytes))
    (twins : List Twin) {out : Bytes}
    → write_ztm tokens unk_id capcode norm_flag aliases twins ≡ ok out
    → Written tokens unk_id capcode norm_flag aliases twins out
unfolding write_ztm
write_ztm-Written tokens unk_id capcode norm_flag aliases twins {out} e =
    let total = sum_by length tokens in
    let (short, e₁) =
      raise_if-eq-ok (ltb 4294967295 total) (system_exit "token bytes total exceeds u32 max") _ e in
    let (c, c_ok, e₂) = >>=-eq-ok (pack_u32 (length tokens)) _ e₁ in
    let (u, u_ok, e₃) = >>=-eq-ok (pack_u32 (written_unk tokens unk_id)) _ e₂ in
    let (t, t_ok, e₄) = >>=-eq-ok (pack_u32 total) _ e₃ in
    let (later, later_ok, e₆) = >>=-eq-ok (offsets 0 tokens) _ e₄ in
    let (alias_part, alias_ok, e₇) = >>=-eq-ok (alias_section (length tokens) aliases) _ e₆ in
    let (twin_part, twin_ok, done) = >>=-eq-ok (twin_section (length tokens) twins) _ e₇ in
    let (c_lt, c_is) = pack_u32-eq-ok (length tokens) c_ok in
    let (u_lt, u_is) = pack_u32-eq-ok (written_unk tokens unk_id) u_ok in
    let (t_lt, t_is) = pack_u32-eq-ok total t_ok in
    (
      later,
      alias_part,
      twin_part,
      later_ok,
      alias_ok,
      twin_ok,
      t_lt,
      c_lt,
      u_lt,
      sym (ok-injective _ out done) ∙ layout (later, alias_part, twin_part) c_is u_is t_is,
    )
  where
    assembled : Bytes → Bytes → Bytes → Bytes × Bytes × Bytes → Bytes
    assembled c u t (later, alias_part, twin_part) =
        header capcode (max_token_length tokens aliases twins) norm_flag (
          c
          ++ u
          ++ t
          ++ (concat tokens
              ++ (le_bytes 0 ++ later ++ (zeros (length tokens) ++ (alias_part ++ twin_part)))))

    layout :
        {c u t c' u' t' : Bytes} (parts : Bytes × Bytes × Bytes)
        → c ≡ c'
        → u ≡ u'
        → t ≡ t'
        → assembled c u t parts ≡ assembled c' u' t' parts
    layout parts p q r = cc
