-- ===== src/Vocab/Totality.antt =====
-- The alternatives of tokens whose runes are code points are always computed.
use ztok.Common.{
  ℕ, zero, suc, ◌+◌, ◌-◌, refl, List, [], ◌∷◌, Option, none, some, Result, ok, ◌==◌, if◌then◌else◌,
  length, take, All, ◌>>=◌,
}
use ztok.Common.Dict.{lookup}
use ztok.Vocab.Wire.{Bytes}
use ztok.Vocab.Runes.{Unicode, decode_rune}
use ztok.Vocab.Alts.{
  Ids, bytes_eq, Alternatives, no_alternatives, offer, priority_of, consider, ladder, alternatives,
  min_alt_size_of, count_words, words_after, begins_spaced, InfoEntry, ids_of, twins_of,
  compute_per_twin_alts,
}
use ztok.Vocab.Plain.{
  IsPlain, Succeeds, >>=-Succeeds, if-Succeeds, and-Succeeds, alphanum-Succeeds,
  priority_of-Succeeds, decode_rune-plain,
}

module _ (unicode : Unicode) (using_capcode : ℕ) where
  consider-Succeeds :
      (table : Ids) (token : Bytes) (len : ℕ) (s : Alternatives)
      → IsPlain token
      → Succeeds (consider unicode using_capcode table token len s)
  unfolding consider
  consider-Succeeds table token len s h = go (lookup bytes_eq (take len token) table)
    where
      go :
          (found : Option ℕ)
          → Succeeds (elim found as (λ f. Result Alternatives) [
            | none ↦ ok s
            | some sub_id ↦ priority_of unicode using_capcode token len >>= λ priority.
                ok (offer s sub_id len priority)
          ])
      go none = (s, refl)
      go (some id) =
          >>=-Succeeds _ _ (priority_of-Succeeds unicode using_capcode token len h)
            (λ priority _. (offer s id len priority, refl))

  ladder-Succeeds :
      (table : Ids) (token : Bytes) (m len : ℕ) (s : Alternatives)
      → IsPlain token
      → Succeeds (ladder unicode using_capcode table token m len s)
  unfolding ladder
  ladder-Succeeds table token m zero s h = (s, refl)
  ladder-Succeeds table token m (suc len) s h =
      if-Succeeds _ (ok s) _ (s, refl)
        (>>=-Succeeds _ _ (consider-Succeeds table token (suc len) s h)
          (λ s' _. ladder-Succeeds table token m len s' h))

  count_words-Succeeds :
      (fuel : ℕ) (token : Bytes) (i prev nwords : ℕ)
      → IsPlain token
      → Succeeds (count_words unicode using_capcode fuel token i prev nwords)
  unfolding count_words
  count_words-Succeeds zero token i prev nwords h =
      if-Succeeds _ (ok none) (ok (some nwords)) (none, refl) (some nwords, refl)
  count_words-Succeeds (suc fuel) token i prev nwords h =
      if-Succeeds _ _ (ok (some nwords))
        (>>=-Succeeds _ _
          (and-Succeeds _ _ (prev == 32, refl)
            (alphanum-Succeeds unicode using_capcode _ (decode_rune-plain token i h)))
          (λ word _. count_words-Succeeds fuel token _ _ _ h))
        (some nwords, refl)

  begins_spaced-Succeeds :
      (token : Bytes) → IsPlain token → Succeeds (begins_spaced unicode using_capcode token)
  unfolding begins_spaced
  begins_spaced-Succeeds token h =
      and-Succeeds (ok ((decode_rune token 0).0 == 32)) _ ((decode_rune token 0).0 == 32, refl)
        (alphanum-Succeeds unicode using_capcode _
          (decode_rune-plain token (decode_rune token 0).1 h))

  words_after-Succeeds :
      (token : Bytes) (nwords : ℕ)
      → IsPlain token
      → Succeeds (words_after unicode using_capcode token nwords)
  unfolding words_after
  words_after-Succeeds token nwords h =
      count_words-Succeeds (length token) token
        ((decode_rune token 0).1 + (decode_rune token (decode_rune token 0).1).1)
        (decode_rune token (decode_rune token 0).1).0 nwords h

  min_alt_size_of-Succeeds :
      (token : Bytes) → IsPlain token → Succeeds (min_alt_size_of unicode using_capcode token)
  unfolding min_alt_size_of
  min_alt_size_of-Succeeds token h =
      >>=-Succeeds (begins_spaced unicode using_capcode token) _ (begins_spaced-Succeeds token h)
        (λ spaced _.
          >>=-Succeeds (words_after unicode using_capcode token (if spaced then 1 else 0)) _
            (words_after-Succeeds token (if spaced then 1 else 0) h) (λ nwords _. (_, refl)))

  alternatives-Succeeds :
      (table : Ids) (token : Bytes)
      → IsPlain token
      → Succeeds (alternatives unicode using_capcode table token)
  unfolding alternatives
  alternatives-Succeeds table token h =
      if-Succeeds _ (ok []) _ ([], refl)
        (>>=-Succeeds _ _ (min_alt_size_of-Succeeds token h) (λ m _.
          >>=-Succeeds _ _ (ladder-Succeeds table token m (length token - 1) no_alternatives h)
            (λ s _. (_, refl))))

  twins_of-Succeeds :
      (table : Ids) (es : List InfoEntry)
      → All (λ e. IsPlain e.key) es
      → Succeeds (twins_of unicode using_capcode table es)
  unfolding twins_of
  twins_of-Succeeds table [] h = ([], refl)
  twins_of-Succeeds table (e ∷ es) (h, hs) =
      >>=-Succeeds _ _ (alternatives-Succeeds table e.key h)
        (λ alts _. >>=-Succeeds _ _ (twins_of-Succeeds table es hs) (λ more _. (_, refl)))

  -- If no key has a byte of 244 or more, the alternatives of all info entries are computed: no
  -- rune is decoded to a number beyond the code points, at which `chr` would raise.
  pub compute_per_twin_alts-Succeeds :
      (info_entries : List InfoEntry)
      → All (λ e. IsPlain e.key) info_entries
      → Succeeds (compute_per_twin_alts unicode using_capcode info_entries)
  unfolding compute_per_twin_alts
  compute_per_twin_alts-Succeeds info_entries h =
      twins_of-Succeeds (ids_of [] info_entries) info_entries h
