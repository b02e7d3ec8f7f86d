-- ===== src/Vocab/Prefixes.antt =====
-- The alternatives of a token are proper prefixes of it that are tokens, and there is one if any
-- such prefix is long enough.
use ztok.Common.{
  ℕ, ◌-◌, ◌<◌, ◌≡◌, ◌≢◌, Bool, List, [], ◌∷◌, Option, none, some, Result, ok, leb, if◌then◌else◌,
  length, take, arith, All, subst, Bool-cases, inl, inr, >>=-eq-ok, ok-injective, ◌>>=◌,
}
use ztok.Common.Dict.{lookup}
use ztok.Vocab.Wire.{Bytes}
use ztok.Vocab.Runes.{Unicode}
use ztok.Vocab.Alts.{
  Ids, bytes_eq, no_alternatives, ladder, ordered, alts_of, alternatives, min_alt_size_of,
}
use ztok.Vocab.Ladder.{Slots, ladder-IsLadder}

-- An alternative: a proper prefix of the token, with the id that the bytes of the prefix have.
abbrev pub IsPrefix : Ids → Bytes → ℕ × ℕ → Type 0
IsPrefix table token a =
    (0 < a.1) × (a.1 < length token) × (lookup bytes_eq (take a.1 token) table ≡ some a.0)

-- At most two, of different lengths.
abbrev pub Apart : List (ℕ × ℕ) → Type 0
Apart [] = Unit
Apart (a ∷ []) = Unit
Apart (a ∷ b ∷ []) = a.1 ≢ b.1
Apart (a ∷ b ∷ c ∷ more) = ⊥

abbrev pub ArePrefixes : Ids → Bytes → List (ℕ × ℕ) → Type 0
ArePrefixes table token alts = All (IsPrefix table token) alts × Apart alts

module _ (table : Ids) (token : Bytes) where
  alts_of-Slots :
      (i₁ : Option ℕ) (l₁ p₁ : ℕ) (i₂ : Option ℕ) (l₂ p₂ : ℕ)
      → Slots table token 1 i₁ l₁ p₁ i₂ l₂ p₂
      → ArePrefixes table token (
          alts_of (
            ordered (record {
              index1 = i₁;
              length1 = l₁;
              priority1 = p₁;
              index2 = i₂;
              length2 = l₂;
              priority2 = p₂;
            })))
  unfolding alts_of ordered
  alts_of-Slots none l₁ p₁ none l₂ p₂ s = ground arith
  alts_of-Slots none l₁ p₁ (some i₂) l₂ p₂ s = ground arith
  alts_of-Slots (some i₁) l₁ p₁ none l₂ p₂ s = ground arith
  alts_of-Slots (some i₁) l₁ p₁ (some i₂) l₂ p₂ s = ground arith

  module _ (unicode : Unicode) (using_capcode : ℕ) where
    -- The alternatives that are found for a token are at most two, of different lengths, and each
    -- is a proper, non-empty prefix of the token with the id that its bytes have.
    pub alternatives-ArePrefixes :
        {alts : List (ℕ × ℕ)}
        → alternatives unicode using_capcode table token ≡ ok alts
        → ArePrefixes table token alts
    unfolding alternatives
    alternatives-ArePrefixes {alts} e = elim (Bool-cases (leb (length token) 1)) [
      | inl short ↦
          subst (ArePrefixes table token)
            (ok-injective [] alts (subst (λ b. Rest b ≡ ok alts) short e)) (tt, tt)
      | inr long ↦
          let (m, e₁, k) =
            >>=-eq-ok (min_alt_size_of unicode using_capcode token) _
              (subst (λ b. Rest b ≡ ok alts) long e) in
          let (s, e₂, done) =
            >>=-eq-ok
              (ladder unicode using_capcode table token m (length token - 1) no_alternatives) _ k in
          subst (ArePrefixes table token) (ok-injective _ alts done) (
            alts_of-Slots s.index1 s.length1 s.priority1 s.index2 s.length2 s.priority2 (
              ladder-IsLadder table token unicode using_capcode m (length token - 1) no_alternatives
                (ground arith) (ground arith) e₂))
    ]
      where
        Rest : Bool → Result (List (ℕ × ℕ))
        Rest b =
            if b
            then ok []
            else (min_alt_size_of unicode using_capcode token >>= λ min_alt_size.
                ladder unicode using_capcode table token min_alt_size (length token - 1)
                  no_alternatives
                >>= λ s. ok (alts_of (ordered s)))
