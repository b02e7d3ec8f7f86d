-- ===== src/Vocab/Total.antt =====
-- A parsed vocabulary whose sizes fit in 32 bits is written.
use ztok.Common.{
  ℕ, zero, suc, ◌+◌, ◌<◌, ◌≡◌, refl, sym, ◌∙◌, Bool, true, false, List, [], ◌∷◌, ◌++◌, Result, ok,
  ltb, ◌==◌, if◌then◌else◌, length, arith, All, subst, ok-injective, take, sum_by, map_result,
  raise_if, ◌>>◌, Error, length-filter-le, ◌&&◌,
}
use ztok.Vocab.Wire.{Bytes}
use ztok.Vocab.Runes.{Unicode}
use ztok.Vocab.Ztm.{Twin}
use ztok.Vocab.Tm.{TmVocab}
use ztok.Vocab.Range.{Below}
use ztok.Vocab.Wire.{pack_u32, pack_u32-ok, le_bytes}
use ztok.Vocab.Plain.{Succeeds, >>=-Succeeds}
use ztok.Vocab.Tm.{parse_tm_vocab, convert}
use ztok.Vocab.Ztm.{
  written_unk, offsets, nonempty, valid_aliases, alias_record, alias_section, valid_twins,
  alt_record, twin_record, twin_section, write_ztm,
}
use ztok.Vocab.Layout.{written_unk-bound}
use ztok.Vocab.InRange.{InRange, TwinInRange, parse_tm_vocab-InRange}
use ztok.Common.{filter-All, not, system_exit}

-- The sizes that the format keeps in 32 bits.
abbrev pub Fits32 : TmVocab → Type 0
Fits32 v =
    (sum_by length v.tokens < 4294967296)
    × (length v.tokens < 4294967296)
    × (length v.aliases < 4294967296)
    × (length v.per_twin_alts < 4294967296)
    × All (λ (a : ℕ × Bytes). length a.1 < 4294967296) v.aliases
    × All (λ (t : Twin). length t.key < 4294967296) v.per_twin_alts

pack-Succeeds : (n : ℕ) → n < 4294967296 → Succeeds (pack_u32 n)
pack-Succeeds n h = (le_bytes n, pack_u32-ok n h)

check-Succeeds :
    {A : Type 0} (test : Bool) (e : Error) (k : Result A)
    → test ≡ false
    → Succeeds k
    → Succeeds (raise_if test e >> k)
check-Succeeds true e k h s = cc
check-Succeeds false e k h s = s

offsets-Succeeds :
    (start : ℕ) (ts : List Bytes)
    → start + sum_by length ts < 4294967296
    → Succeeds (offsets start ts)
unfolding offsets sum_by
offsets-Succeeds start [] h = ([], refl)
offsets-Succeeds start (t ∷ ts) h =
    >>=-Succeeds _ _ (pack-Succeeds (start + length t) (omega arith)) (λ p _.
      >>=-Succeeds _ _ (offsets-Succeeds (start + length t) ts (omega arith))
        (λ q _. (p ++ q, refl)))

map-Succeeds :
    {A : Type 0} {B : Type 0} (P : A → Type 0) (f : A → Result B) (xs : List A)
    → ((x : A) → P x → Succeeds (f x))
    → All P xs
    → Succeeds (map_result f xs)
unfolding map_result
map-Succeeds P f [] h k = ([], refl)
map-Succeeds P f (x ∷ xs) h (p, ps) =
    >>=-Succeeds (f x) _ (h x p)
      (λ y _. >>=-Succeeds (map_result f xs) _ (map-Succeeds P f xs h ps) (λ ys _. (y ∷ ys, refl)))

abbrev AliasFits : ℕ → ℕ × Bytes → Type 0
AliasFits c a = (a.0 < c) × (length a.1 < 4294967296)

alias_record-Succeeds :
    (c : ℕ) (a : ℕ × Bytes) → c < 4294967296 → AliasFits c a → Succeeds (alias_record c a)
unfolding alias_record
alias_record-Succeeds c (aid, ab) few (below, short) =
    check-Succeeds (not (ltb aid c)) (system_exit "alias id out of bounds") _ (ground arith) (
      check-Succeeds (ltb 4294967295 (length ab)) (system_exit "alias bytes length exceeds u32 max")
        _ (ground arith)
        (>>=-Succeeds _ _ (pack-Succeeds aid (omega arith))
          (λ p _. >>=-Succeeds _ _ (pack-Succeeds (length ab) short) (λ q _. (_, refl)))))

alias_section-Succeeds :
    (c : ℕ) (aliases : List (ℕ × Bytes))
    → c < 4294967296
    → length aliases < 4294967296
    → All (AliasFits c) aliases
    → Succeeds (alias_section c aliases)
unfolding alias_section valid_aliases
alias_section-Succeeds c aliases few short h =
    >>=-Succeeds _ _
      (pack-Succeeds (length (valid_aliases aliases))
        (omega (arith, length-filter-le (λ (a : ℕ × Bytes). nonempty a.1) aliases)))
      (λ p _.
        >>=-Succeeds _ _
          (map-Succeeds (AliasFits c) (alias_record c) _ (λ a. alias_record-Succeeds c a few)
            (filter-All (AliasFits c) (λ a. nonempty a.1) aliases h))
          (λ q _. (_, refl)))

alt_record-Succeeds :
    (c : ℕ) (a : ℕ × ℕ)
    → c < 4294967296
    → (a.0 < c) × (a.1 < 4294967296)
    → Succeeds (alt_record c a)
unfolding alt_record
alt_record-Succeeds c (alt_id, alt_len) few (below, short) =
    check-Succeeds (not (ltb alt_id c)) (system_exit "twin alt id out of bounds") _ (ground arith) (
      >>=-Succeeds _ _ (pack-Succeeds alt_id (omega arith))
        (λ p _. >>=-Succeeds _ _ (pack-Succeeds alt_len short) (λ q _. (_, refl))))

abbrev TwinFits : ℕ → Twin → Type 0
TwinFits c t = TwinInRange c t × (length t.key < 4294967296)

All-take : {A : Type 0} (P : A → Type 0) (n : ℕ) (xs : List A) → All P xs → All P (take n xs)
All-take P zero xs h = tt
All-take P (suc n) [] h = tt
All-take P (suc n) (x ∷ xs) (p, ps) = (p, All-take P n xs ps)

twin_record-Succeeds :
    (c : ℕ) (t : Twin) → c < 4294967296 → TwinFits c t → Succeeds (twin_record c t)
unfolding twin_record
twin_record-Succeeds c t few ((below, inside), short) =
    check-Succeeds (not (ltb t.id c)) (system_exit "twin id out of bounds") _ (ground arith) (
      >>=-Succeeds _ _ (pack-Succeeds t.id (omega arith)) (λ p _.
        >>=-Succeeds _ _ (pack-Succeeds (length t.key) short) (λ q _.
          >>=-Succeeds _ _
            (map-Succeeds (λ (a : ℕ × ℕ). (a.0 < c) × (a.1 < length t.key)) (alt_record c) _
              (λ a (b, l). alt_record-Succeeds c a few (b, omega arith))
              (All-take (λ (a : ℕ × ℕ). (a.0 < c) × (a.1 < length t.key)) 2 t.alts inside))
            (λ r _. (_, refl)))))

twin_section-Succeeds :
    (c : ℕ) (twins : List Twin)
    → c < 4294967296
    → length twins < 4294967296
    → All (TwinFits c) twins
    → Succeeds (twin_section c twins)
unfolding twin_section valid_twins
twin_section-Succeeds c twins few short h =
    >>=-Succeeds _ _
      (pack-Succeeds (length (valid_twins twins)) (
        omega
          (arith, length-filter-le (λ (t : Twin). nonempty t.key && ltb 0 (length t.alts)) twins)))
      (λ p _.
        >>=-Succeeds _ _
          (map-Succeeds (TwinFits c) (twin_record c) _ (λ t. twin_record-Succeeds c t few)
            (filter-All (TwinFits c) (λ t. nonempty t.key && ltb 0 (length t.alts)) twins h))
          (λ q _. (_, refl)))

All-both :
    {A : Type 0} (P Q : A → Type 0) (xs : List A) → All P xs → All Q xs → All (λ x. P x × Q x) xs
All-both P Q [] h k = tt
All-both P Q (x ∷ xs) (p, ps) (q, qs) = ((p, q), All-both P Q xs ps qs)

write_ztm-Succeeds :
    (v : TmVocab) (capcode : ℕ)
    → InRange v
    → Fits32 v
    → Succeeds (write_ztm v.tokens v.unk_token capcode v.normalizer_flag v.aliases v.per_twin_alts)
unfolding write_ztm
write_ztm-Succeeds v capcode (some_token, aliases, twins)
      (total, few, few_a, few_t, short_a, short_t) =
    let c = length v.tokens in
    check-Succeeds (ltb 4294967295 (sum_by length v.tokens))
      (system_exit "token bytes total exceeds u32 max") _ (ground arith)
      (>>=-Succeeds _ _ (pack-Succeeds c few) (λ pc _.
        >>=-Succeeds _ _
          (pack-Succeeds (written_unk v.tokens v.unk_token)
            (omega (arith, written_unk-bound v.tokens v.unk_token)))
          (λ pu _. >>=-Succeeds _ _ (pack-Succeeds (sum_by length v.tokens) total) (λ pt _.
            >>=-Succeeds _ _ (offsets-Succeeds 0 v.tokens (omega arith)) (λ o _.
              >>=-Succeeds _ _
                (alias_section-Succeeds c v.aliases few few_a (
                  All-both (Below c) (λ (a : ℕ × Bytes). length a.1 < 4294967296) v.aliases aliases
                    short_a))
                (λ a _.
                  >>=-Succeeds _ _
                    (twin_section-Succeeds c v.per_twin_alts few few_t (
                      All-both (TwinInRange c) (λ (t : Twin). length t.key < 4294967296)
                        v.per_twin_alts twins short_t))
                    (λ t _. (_, refl))))))))

-- A file that is parsed is converted, if what it holds fits in the 32-bit fields of the format:
-- no other check of the writer fails.
pub convert-Succeeds :
    (unicode : Unicode) (raw : Bytes) (v : TmVocab)
    → parse_tm_vocab unicode raw ≡ ok v
    → Fits32 v
    → Succeeds (convert unicode raw)
unfolding convert
convert-Succeeds unicode raw v parsed fits =
    >>=-Succeeds (parse_tm_vocab unicode raw) _ (v, parsed)
      (λ w e. subst Written (ok-injective v w (sym parsed ∙ e)) (
        write_ztm-Succeeds v (if v.using_capcode == 2 then 3 else v.using_capcode)
          (parse_tm_vocab-InRange unicode raw parsed) fits))
  where
    Written : TmVocab → Type 0
    Written w = Succeeds (
        write_ztm w.tokens w.unk_token (if w.using_capcode == 2 then 3 else w.using_capcode)
          w.normalizer_flag w.aliases w.per_twin_alts)
