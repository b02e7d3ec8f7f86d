-- ===== src/Vocab/Found.antt =====
-- A token that has a long enough prefix among the tokens gets an alternative.
use ztok.Common.{
  ℕ, zero, suc, ◌-◌, ◌≤◌, ◌<◌, ◌≡◌, refl, sym, Bool, true, false, List, [], Option, none, some,
  Result, ok, ltb, leb, if◌then◌else◌, length, take, arith, subst, Bool-cases, inl, inr, >>=-eq-ok,
  ok-injective, is_some, ◌>>=◌, ◌⊎◌,
}
use ztok.Common.Dict.{lookup}
use ztok.Vocab.Wire.{Bytes}
use ztok.Vocab.Runes.{Unicode}
use ztok.Vocab.Alts.{
  Ids, bytes_eq, Alternatives, no_alternatives, offer, consider, ladder, ordered, alts_of,
  alternatives, min_alt_size_of,
}
use ztok.Vocab.Ladder.{Slots, IsLadder, Round, round, consider-IsLadder, ladder-IsLadder}

abbrev Filled : Alternatives → Type 0
Filled s = is_some s.index1 ≡ true

at_or_below : (at len : ℕ) → at ≤ suc len → (at ≡ suc len) ⊎ (at ≤ len)
at_or_below at len h = ground arith

offer_keeps : (s : Alternatives) (id len priority : ℕ) → Filled s → Filled (offer s id len priority)
unfolding offer
offer_keeps s id len priority h = ground arith

module _ (table : Ids) (token : Bytes) where
  offer-Filled :
      (n id len priority : ℕ) (i₁ : Option ℕ) (l₁ p₁ : ℕ) (i₂ : Option ℕ) (l₂ p₂ : ℕ)
      → 0 < priority
      → Slots table token n i₁ l₁ p₁ i₂ l₂ p₂
      → Filled (
          offer
            (record {
              index1 = i₁;
              length1 = l₁;
              priority1 = p₁;
              index2 = i₂;
              length2 = l₂;
              priority2 = p₂;
            })
            id
            len
            priority)
  unfolding offer
  offer-Filled n id len priority none l₁ p₁ none l₂ p₂ prio s = ground arith
  offer-Filled n id len priority none l₁ p₁ (some i₂) l₂ p₂ prio s = ground arith
  offer-Filled n id len priority (some i₁) l₁ p₁ i₂ l₂ p₂ prio s = ground arith

  module _ (unicode : Unicode) (using_capcode : ℕ) where
    Round-keeps :
        (len : ℕ) (s s' : Alternatives)
        → Round table token unicode using_capcode len s s'
        → Filled s
        → Filled s'
    Round-keeps len s s' (inl (h, same)) f = subst Filled (sym same) f
    Round-keeps len s s' (inr (id, p, h, prio, offered)) f =
        subst Filled (sym offered) (offer_keeps s id len p f)

    Round-Filled :
        (len : ℕ) (s s' : Alternatives) {i : ℕ}
        → lookup bytes_eq (take len token) table ≡ some i
        → IsLadder table token (suc len) s
        → Round table token unicode using_capcode len s s'
        → Filled s'
    Round-Filled len s s' found inv (inl (h, same)) = cc
    Round-Filled len s s' found inv (inr (id, p, h, prio, offered)) = subst Filled (sym offered) (
        offer-Filled (suc len) id len p s.index1 s.length1 s.priority1 s.index2 s.length2
          s.priority2 prio inv)

    -- The part of the ladder below a length, if there is one.
    abbrev Rest : ℕ → ℕ → Alternatives → Bool → Result Alternatives
    Rest m len s b =
        if b
        then ok s
        else (consider unicode using_capcode table token (suc len) s >>= λ s₁.
            ladder unicode using_capcode table token m len s₁)

    ladder_keeps :
        (m len : ℕ) (s : Alternatives) {s' : Alternatives}
        → Filled s
        → ladder unicode using_capcode table token m len s ≡ ok s'
        → Filled s'
    unfolding ladder
    ladder_keeps m zero s f e = subst Filled (ok-injective s _ e) f
    ladder_keeps m (suc len) s {s'} f e = elim (Bool-cases (ltb (suc len) m)) [
      | inl done ↦ subst Filled (ok-injective s s' (subst (λ b. Rest m len s b ≡ ok s') done e)) f
      | inr more ↦
          let (t, e₁, rest) =
            >>=-eq-ok (consider unicode using_capcode table token (suc len) s) _
              (subst (λ b. Rest m len s b ≡ ok s') more e) in
          ladder_keeps m len t
            (Round-keeps (suc len) s t
              (round table token unicode using_capcode (suc len) s
                (lookup bytes_eq (take (suc len) token) table) refl e₁)
              f)
            rest
    ]

    ladder-Filled :
        (m len at : ℕ) (s : Alternatives) {i : ℕ} {s' : Alternatives}
        → 0 < m
        → m ≤ at
        → at ≤ len
        → len < length token
        → lookup bytes_eq (take at token) table ≡ some i
        → IsLadder table token (suc len) s
        → ladder unicode using_capcode table token m len s ≡ ok s'
        → Filled s'
    unfolding ladder
    ladder-Filled m zero at s pos low high short found inv e = ground arith
    ladder-Filled m (suc len) at s {i} {s'} pos low high short found inv e =
        let more : ltb (suc len) m ≡ false = ground arith in
        let (t, e₁, rest) =
          >>=-eq-ok (consider unicode using_capcode table token (suc len) s) _
            (subst (λ b. Rest m len s b ≡ ok s') more e) in
        let step =
          round table token unicode using_capcode (suc len) s
            (lookup bytes_eq (take (suc len) token) table) refl e₁ in
        elim (at_or_below at len high) [
          | inl here ↦
              ladder_keeps m len t
                (Round-Filled (suc len) s t
                  (subst (λ n. lookup bytes_eq (take n token) table ≡ some i) here found) inv step)
                rest
          | inr below ↦
              ladder-Filled m len at t pos low below (omega arith) found
                (consider-IsLadder table token unicode using_capcode (suc len) s t (omega arith)
                  short inv step)
                rest
        ]

    alts_of-Filled :
        (n : ℕ) (i₁ : Option ℕ) (l₁ p₁ : ℕ) (i₂ : Option ℕ) (l₂ p₂ : ℕ)
        → is_some i₁ ≡ true
        → Slots table token (suc n) i₁ l₁ p₁ i₂ l₂ p₂
        → 0
          < length (
              alts_of (
                ordered (record {
                  index1 = i₁;
                  length1 = l₁;
                  priority1 = p₁;
                  index2 = i₂;
                  length2 = l₂;
                  priority2 = p₂;
                })))
    unfolding alts_of ordered
    alts_of-Filled n none l₁ p₁ i₂ l₂ p₂ f s = ground arith
    alts_of-Filled n (some i₁) l₁ p₁ none l₂ p₂ f s = ground arith
    alts_of-Filled n (some i₁) l₁ p₁ (some i₂) l₂ p₂ f s = ground arith

    -- A token that has a prefix among the tokens, proper and of at least the least length that the
    -- preamble allows, is given an alternative, whenever its alternatives can be computed.
    pub alternatives-found :
        (m at : ℕ) {i : ℕ} {alts : List (ℕ × ℕ)}
        → min_alt_size_of unicode using_capcode token ≡ ok m
        → 0 < m
        → m ≤ at
        → at < length token
        → lookup bytes_eq (take at token) table ≡ some i
        → alternatives unicode using_capcode table token ≡ ok alts
        → 0 < length alts
    unfolding alternatives
    alternatives-found m at {i} {alts} size pos low short found e =
        let long : leb (length token) 1 ≡ false = ground arith in
        let whole = subst (λ r. Inner r ≡ ok alts) size (subst (λ b. Outer b ≡ ok alts) long e) in
        finish (
          >>=-eq-ok (ladder unicode using_capcode table token m (length token - 1) no_alternatives)
            _ whole)
      where
        start : IsLadder table token (suc (length token - 1)) no_alternatives
        start = (((refl, refl)), ((refl, refl)), (λ _. refl), (λ h. h))

        Inner : Result ℕ → Result (List (ℕ × ℕ))
        Inner r = r >>= λ min_alt_size.
            ladder unicode using_capcode table token min_alt_size (length token - 1) no_alternatives
            >>= λ s. ok (alts_of (ordered s))

        Outer : Bool → Result (List (ℕ × ℕ))
        Outer b = if b then ok [] else Inner (min_alt_size_of unicode using_capcode token)

        finish :
            (s : Alternatives) × (ladder unicode using_capcode table token m
                  (length token - 1)
                  no_alternatives
                ≡ ok s)
              × (ok (alts_of (ordered s)) ≡ ok alts)
            → 0 < length alts
        finish (s, e₂, done) =
            subst (λ xs. 0 < length xs) (ok-injective _ alts done)
              (alts_of-Filled 0 s.index1 s.length1 s.priority1 s.index2 s.length2 s.priority2
                (ladder-Filled m (length token - 1) at no_alternatives pos low (omega arith)
                  (omega arith) found start e₂)
                (ladder-IsLadder table token unicode using_capcode m (length token - 1)
                  no_alternatives (omega arith) start e₂))
