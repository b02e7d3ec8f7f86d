-- ===== src/Vocab/Words.antt =====
-- The word-counting loop of the preamble ends.
use ztok.Common.{
  ℕ, zero, suc, ◌+◌, ◌≤◌, ◌≡◌, ◌≢◌, Bool, Option, none, some, Result, ok, ltb, ◌==◌, if◌then◌else◌,
  length, arith, subst, Bool-cases, inl, inr, >>=-eq-ok, ok-injective, ◌>>=◌,
}
use ztok.Vocab.Wire.{Bytes}
use ztok.Vocab.Runes.{Unicode, decode_rune, is_alphanum, ◌and◌}
use ztok.Vocab.Alts.{count_words, words_after}

-- Fuel for each byte that is left is enough: the loop never runs out of it.
count_words-ends :
    (unicode : Unicode) (using_capcode fuel : ℕ) (token : Bytes) (i prev nwords : ℕ)
    → length token ≤ i + fuel
    → count_words unicode using_capcode fuel token i prev nwords ≢ ok none
unfolding count_words
count_words-ends unicode capcode zero token i prev nwords h e = ground arith
count_words-ends unicode capcode (suc fuel) token i prev nwords h e =
    elim (Bool-cases (ltb i (length token))) [
      | inr done ↦
          elim (some_not_none (ok-injective _ _ (subst (λ b. Round b ≡ ok none) done e))) [ ]
      | inl more ↦
          let (word, e₁, rest) = >>=-eq-ok word_begins _ (subst (λ b. Round b ≡ ok none) more e) in
          count_words-ends unicode capcode fuel token _ _ _ (ground arith) rest
    ]
  where
    some_not_none : some nwords ≡ none → ⊥
    some_not_none h = cc

    word_begins : Result Bool
    word_begins = ok (prev == 32) and is_alphanum unicode (decode_rune token i).0 capcode

    Round : Bool → Result (Option ℕ)
    Round b =
        if b
        then (word_begins >>= λ word.
            count_words unicode capcode fuel token
              (i + (if ltb 0 (decode_rune token i).1 then (decode_rune token i).1 else 1))
              (decode_rune token i).0 (if word then nwords + 1 else nwords))
        else ok (some nwords)

-- The loop that counts the words of a token ends, whatever the token: it never takes more rounds
-- than the token has bytes.
pub words_after-ends :
    (unicode : Unicode) (using_capcode : ℕ) (token : Bytes) (nwords : ℕ)
    → words_after unicode using_capcode token nwords ≢ ok none
unfolding words_after
words_after-ends unicode using_capcode token nwords =
    count_words-ends unicode using_capcode (length token) token
      ((decode_rune token 0).1 + (decode_rune token (decode_rune token 0).1).1)
      (decode_rune token (decode_rune token 0).1).0 nwords (omega arith)
