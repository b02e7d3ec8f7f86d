-- ===== src/Vocab/Alts.antt =====
-- `compute_per_twin_alts` of bench/convert_tm_to_ztm.py: the two best proper prefixes of a token
-- that are tokens themselves, by TokenMonster's ladder of priorities.
use ztok.Common.{
  ℕ, zero, suc, ◌+◌, ◌-◌, Bool, true, false, not, ◌&&◌, ◌||◌, List, [], ◌∷◌, Option, none, some,
  Result, ok, ltb, leb, ◌==◌, if◌then◌else◌, length, take, get_elem?, ◌>>=◌,
}
use ztok.Common.Dict.{lookup, set_default}
use ztok.Vocab.Wire.{Bytes}
use ztok.Vocab.Runes.{
  Unicode, decode_rune, decode_last_rune, is_letter, is_number, is_space, is_alphanum, is_capcode,
  ◌and◌, ◌or◌, negated,
}
use ztok.Vocab.Ztm.{Twin}

-- An entry of `info_entries`.
pub record InfoEntry : Type 0 where
  pub key : Bytes
  pub flag : ℕ
  pub nwords : ℕ
  pub id : ℕ

-- `==` on bytes.
unfoldable pub bytes_eq : Bytes → Bytes → Bool
bytes_eq [] [] = true
bytes_eq [] (b ∷ bs) = false
bytes_eq (a ∷ rest) [] = false
bytes_eq (a ∷ rest) (b ∷ bs) = a == b && bytes_eq rest bs

abbrev pub Ids : Type 0
Ids = List (Bytes × ℕ)

unfoldable pub ids_of : Ids → List InfoEntry → Ids
unfolding set_default bytes_eq
ids_of table [] = table
ids_of table (e ∷ es) = ids_of (set_default bytes_eq e.key e.id table) es

-- The two alternatives of the ladder, each with its id, its length and its priority.
pub record Alternatives : Type 0 where
  pub index1 : Option ℕ
  pub length1 : ℕ
  pub priority1 : ℕ
  pub index2 : Option ℕ
  pub length2 : ℕ
  pub priority2 : ℕ

abbrev pub no_alternatives : Alternatives
no_alternatives = record {
  index1 = none;
  length1 = 0;
  priority1 = 0;
  index2 = none;
  length2 = 0;
  priority2 = 0;
}

-- The block that every rung repeats: the weaker alternative gives way if the new one beats it.
unfoldable pub offer : Alternatives → ℕ → ℕ → ℕ → Alternatives
offer s sub_id length priority =
    if ltb s.priority1 s.priority2 || s.priority1 == s.priority2 && leb s.length1 s.length2
    then (if ltb s.priority1 priority
        then record {
          index1 = some sub_id;
          length1 = length;
          priority1 = priority;
          index2 = s.index2;
          length2 = s.length2;
          priority2 = s.priority2;
        }
        else s)
    else (if ltb s.priority2 priority
        then record {
          index1 = s.index1;
          length1 = s.length1;
          priority1 = s.priority1;
          index2 = some sub_id;
          length2 = length;
          priority2 = priority;
        }
        else s)

-- The better alternative first.
unfoldable pub ordered : Alternatives → Alternatives
ordered s =
    if ltb 0 s.length2
      && (ltb s.priority1 s.priority2 || s.priority2 == s.priority1 && ltb s.length1 s.length2)
    then record {
      index1 = s.index2;
      length1 = s.length2;
      priority1 = s.priority1;
      index2 = s.index1;
      length2 = s.length1;
      priority2 = s.priority2;
    }
    else s

unfoldable pub alts_of : Alternatives → List (ℕ × ℕ)
alts_of s = pair s.index1 s.length1 (pair s.index2 s.length2 [])
  where
    pair : Option ℕ → ℕ → List (ℕ × ℕ) → List (ℕ × ℕ)
    pair none len more = []
    pair (some i) len more = if ltb 0 len then (i, len) ∷ more else []

-- `test or cp == ord("_")`
abbrev pub or_underscore : Result Bool → ℕ → Result Bool
or_underscore test cp = test or ok (cp == 95)

module _ (unicode : Unicode) (using_capcode : ℕ) where
  abbrev letter : ℕ → Result Bool
  letter cp = is_letter unicode cp using_capcode

  -- Something that is no letter before a letter, or no number before a number.
  unfoldable pub begins_word : ℕ → ℕ → Result Bool
  unfolding is_letter is_number
  begins_word rl nr =
      if using_capcode == 0
      then (negated (letter rl) and ok (not (rl == 95)) and or_underscore (letter nr) nr
          or negated (is_number unicode rl) and is_number unicode nr)
      else ok false

  unfoldable pub ends_word : ℕ → ℕ → Result Bool
  unfolding is_letter is_number
  ends_word rl nr =
      or_underscore (letter rl) rl and (negated (letter nr) and ok (not (nr == 95)))
      or is_number unicode rl and negated (is_number unicode nr)

  -- The priorities of the rungs below the first, in the order in which they are tried.
  unfoldable pub boundary_priority : ℕ → ℕ → Result ℕ
  unfolding begins_word ends_word is_space is_capcode
  boundary_priority rl nr = begins_word rl nr >>= λ begins.
      if begins
      then ok 9
      else (ends_word rl nr >>= λ cond9.
          is_space unicode rl and negated (is_space unicode nr) >>= λ cond7.
          negated (is_space unicode rl) and is_space unicode nr >>= λ cond8. ok (
            if cond9
            then 9
            else if cond7
            then 7
            else if cond8
            then 8
            else if is_capcode nr using_capcode
            then 9
            else 1))

  -- Anything before a space that a letter or a number follows.
  unfoldable pub before_word : Bytes → ℕ → Result Bool
  unfolding is_letter is_number decode_rune
  before_word token len =
      if leb (len + 2) (length token) && is_some_space (get_elem? token len)
      then letter (decode_rune token (len + 1)).0
        or is_number unicode (decode_rune token (len + 1)).0
      else ok false
    where
      is_some_space : Option ℕ → Bool
      is_some_space none = false
      is_some_space (some b) = b == 32

  unfoldable pub priority_of : Bytes → ℕ → Result ℕ
  unfolding before_word boundary_priority decode_rune decode_last_rune
  priority_of token len = before_word token len >>= λ first.
      if first
      then ok 10
      else boundary_priority (decode_last_rune (take len token)) (decode_rune token len).0

  -- One round of the ladder.
  unfoldable pub consider : Ids → Bytes → ℕ → Alternatives → Result Alternatives
  unfolding lookup bytes_eq priority_of offer
  consider table token len s = elim (lookup bytes_eq (take len token) table) [
    | none ↦ ok s
    | some sub_id ↦ priority_of token len >>= λ priority. ok (offer s sub_id len priority)
  ]

  -- The loop from a length down to `min_alt_size`, which is never 0.
  unfoldable pub ladder : Ids → Bytes → ℕ → ℕ → Alternatives → Result Alternatives
  unfolding consider
  ladder table token min_alt_size zero s = ok s
  ladder table token min_alt_size (suc len) s =
      if ltb (suc len) min_alt_size
      then ok s
      else (consider table token (suc len) s >>= λ s'. ladder table token min_alt_size len s')

  -- The word-counting loop from offset `i`, with the rune before it; `none` when out of fuel.
  unfoldable pub count_words : ℕ → Bytes → ℕ → ℕ → ℕ → Result (Option ℕ)
  unfolding is_alphanum decode_rune
  count_words zero token i prev nwords = if ltb i (length token) then ok none else ok (some nwords)
  count_words (suc fuel) token i prev nwords =
      if ltb i (length token)
      then ((ok (prev == 32) and is_alphanum unicode (decode_rune token i).0 using_capcode)
          >>= λ word.
              count_words fuel token
                (i + (if ltb 0 (decode_rune token i).1 then (decode_rune token i).1 else 1))
                (decode_rune token i).0 (if word then nwords + 1 else nwords))
      else ok (some nwords)

  -- Whether the token begins with a space and a letter or number.
  unfoldable pub begins_spaced : Bytes → Result Bool
  unfolding is_alphanum decode_rune
  begins_spaced token =
      ok ((decode_rune token 0).0 == 32)
      and is_alphanum unicode (decode_rune token (decode_rune token 0).1).0 using_capcode

  -- The words of a token, the first one aside: the loop that its first two runes start.
  unfoldable pub words_after : Bytes → ℕ → Result (Option ℕ)
  unfolding count_words decode_rune
  words_after token nwords =
      let first = decode_rune token 0 in
      let second = decode_rune token first.1 in
      count_words (length token) token (first.1 + second.1) second.0 nwords

  -- The preamble. The loop has fuel for each byte of the token.
  unfoldable pub min_alt_size_of : Bytes → Result ℕ
  unfolding begins_spaced words_after
  min_alt_size_of token = begins_spaced token >>= λ spaced.
      words_after token (if spaced then 1 else 0) >>= λ nwords.
      ok (if spaced && not (few nwords) then 2 else 1)
    where
      few : Option ℕ → Bool
      few none = true
      few (some n) = leb n 1

  -- One round of the outer loop: the alternatives of a token, none for one of at most a byte.
  unfoldable pub alternatives : Ids → Bytes → Result (List (ℕ × ℕ))
  unfolding min_alt_size_of ladder ordered alts_of
  alternatives table token =
      if leb (length token) 1
      then ok []
      else (min_alt_size_of token >>= λ min_alt_size.
          ladder table token min_alt_size (length token - 1) no_alternatives >>= λ s.
          ok (alts_of (ordered s)))

  unfoldable pub twins_of : Ids → List InfoEntry → Result (List Twin)
  unfolding alternatives
  twins_of table [] = ok []
  twins_of table (e ∷ es) = alternatives table e.key >>= λ alts. twins_of table es >>= λ more.
      ok (
        if ltb 0 (length alts) then record { key = e.key; id = e.id; alts = alts } ∷ more else more)

  unfoldable pub compute_per_twin_alts : List InfoEntry → Result (List Twin)
  unfolding ids_of twins_of
  compute_per_twin_alts info_entries = twins_of (ids_of [] info_entries) info_entries
