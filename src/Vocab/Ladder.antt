-- ===== src/Vocab/Ladder.antt =====
-- What the ladder of priorities finds: proper prefixes of the token that are tokens themselves.
use ztok.Common.{
  ℕ, zero, suc, ◌≤◌, ◌<◌, ◌≡◌, refl, sym, Bool, true, false, Option, none, some, Result, ok, ltb,
  if◌then◌else◌, length, take, arith, subst, Bool-cases, inl, inr, >>=-eq-ok, ok-injective, is_some,
  ◌>>=◌, ◌⊎◌,
}
use ztok.Common.Dict.{lookup}
use ztok.Vocab.Wire.{Bytes}
use ztok.Vocab.Runes.{Unicode, decode_rune, decode_last_rune}
use ztok.Vocab.Alts.{
  Ids, bytes_eq, Alternatives, offer, boundary_priority, priority_of, consider, ladder, before_word,
}

module _ (table : Ids) (token : Bytes) where
  -- A slot of the ladder that is empty, or holds a prefix of at least `n` bytes.
  abbrev pub Slot : ℕ → Option ℕ → ℕ → ℕ → Type 0
  Slot n none len priority = (len ≡ 0) × (priority ≡ 0)
  Slot n (some i) len priority =
      (n ≤ len)
      × (len < length token)
      × (lookup bytes_eq (take len token) table ≡ some i)
      × (0 < priority)

  -- The first slot fills first, and the two slots differ in length.
  abbrev pub Slots : ℕ → Option ℕ → ℕ → ℕ → Option ℕ → ℕ → ℕ → Type 0
  Slots n i₁ l₁ p₁ i₂ l₂ p₂ =
      Slot n i₁ l₁ p₁
      × Slot n i₂ l₂ p₂
      × (l₁ ≡ l₂ → l₁ ≡ 0)
      × (is_some i₂ ≡ true → is_some i₁ ≡ true)

  abbrev pub IsLadder : ℕ → Alternatives → Type 0
  IsLadder n s = Slots n s.index1 s.length1 s.priority1 s.index2 s.length2 s.priority2

  lower : (n len : ℕ) (i : Option ℕ) (l p : ℕ) → n ≤ len → Slot len i l p → Slot n i l p
  lower n len none l p h s = s
  lower n len (some i) l p h (a, b, c, d) = (omega arith, b, c, d)

  offer-Slots :
      (len id priority : ℕ) (i₁ : Option ℕ) (l₁ p₁ : ℕ) (i₂ : Option ℕ) (l₂ p₂ : ℕ)
      → 0 < len
      → len < length token
      → 0 < priority
      → lookup bytes_eq (take len token) table ≡ some id
      → Slots (suc len) i₁ l₁ p₁ i₂ l₂ p₂
      → IsLadder len (
          offer
            (record {
              index1 = i₁;
              length1 = l₁;
              priority1 = p₁;
              index2 = i₂;
              length2 = l₂;
              priority2 = p₂;
            })
            id
            len
            priority)
  unfolding offer
  offer-Slots len id priority none l₁ p₁ none l₂ p₂ pos short prio found s = ground arith
  offer-Slots len id priority none l₁ p₁ (some i₂) l₂ p₂ pos short prio found s = ground arith
  offer-Slots len id priority (some i₁) l₁ p₁ none l₂ p₂ pos short prio found s = ground arith
  offer-Slots len id priority (some i₁) l₁ p₁ (some i₂) l₂ p₂ pos short prio found s = ground arith

  lower-IsLadder : (n len : ℕ) (s : Alternatives) → n ≤ len → IsLadder len s → IsLadder n s
  lower-IsLadder n len s h (a, b, c, d) = (
    lower n len s.index1 s.length1 s.priority1 h a,
    lower n len s.index2 s.length2 s.priority2 h b,
    c,
    d,
  )

  module _ (unicode : Unicode) (using_capcode : ℕ) where
    boundary_priority-positive :
        (rl nr : ℕ) {p : ℕ} → boundary_priority unicode using_capcode rl nr ≡ ok p → 0 < p
    unfolding boundary_priority
    boundary_priority-positive rl nr e = ground arith

    priority_of-positive :
        (len : ℕ) {p : ℕ} → priority_of unicode using_capcode token len ≡ ok p → 0 < p
    unfolding priority_of
    priority_of-positive len {p} e =
        let (first, f, k) = >>=-eq-ok (before_word unicode using_capcode token len) _ e in
        either first k
      where
        rl : ℕ
        rl = decode_last_rune (take len token)

        nr : ℕ
        nr = (decode_rune token len).0

        either :
            (first : Bool)
            → (if first then ok 10 else boundary_priority unicode using_capcode rl nr) ≡ ok p
            → 0 < p
        either true k = ground arith
        either false k = boundary_priority-positive rl nr k

    -- A round passes a length by, or offers the prefix of that length to the slots.
    abbrev pub Round : ℕ → Alternatives → Alternatives → Type 0
    Round len s s' =
        ((lookup bytes_eq (take len token) table ≡ none) × (s' ≡ s))
        ⊎ ((id : ℕ) × (priority : ℕ) × (lookup bytes_eq (take len token) table ≡ some id)
            × (0 < priority)
            × (s' ≡ offer s id len priority))

    pub round :
        (len : ℕ) (s : Alternatives) (found : Option ℕ) {s' : Alternatives}
        → lookup bytes_eq (take len token) table ≡ found
        → consider unicode using_capcode table token len s ≡ ok s'
        → Round len s s'
    unfolding consider
    round len s none {s'} h e = inl (h, ground arith)
    round len s (some id) {s'} h e =
        let (p, e₁, done) =
          >>=-eq-ok (priority_of unicode using_capcode token len) _
            (subst (λ o. Rest o ≡ ok s') h e) in
        inr (id, p, h, priority_of-positive len e₁, sym (ok-injective _ s' done))
      where
        Rest : Option ℕ → Result Alternatives
        Rest o = elim o [
          | none ↦ ok s
          | some sub_id ↦ priority_of unicode using_capcode token len >>= λ priority.
              ok (offer s sub_id len priority)
        ]

    pub consider-IsLadder :
        (len : ℕ) (s s' : Alternatives)
        → 0 < len
        → len < length token
        → IsLadder (suc len) s
        → Round len s s'
        → IsLadder len s'
    consider-IsLadder len s s' pos short inv (inl (h, same)) =
        subst (IsLadder len) (sym same) (lower-IsLadder len (suc len) s (omega arith) inv)
    consider-IsLadder len s s' pos short inv (inr (id, p, h, prio, offered)) =
        subst (IsLadder len) (sym offered) (
          offer-Slots len id p s.index1 s.length1 s.priority1 s.index2 s.length2 s.priority2 pos
            short prio h inv)

    pub ladder-IsLadder :
        (min_alt_size len : ℕ) (s : Alternatives) {s' : Alternatives}
        → len < length token
        → IsLadder (suc len) s
        → ladder unicode using_capcode table token min_alt_size len s ≡ ok s'
        → IsLadder 1 s'
    unfolding ladder
    ladder-IsLadder m zero s short inv e = subst (IsLadder 1) (ok-injective s _ e) inv
    ladder-IsLadder m (suc len) s {s'} short inv e = elim (Bool-cases (ltb (suc len) m)) [
      | inl done ↦
          subst (IsLadder 1) (ok-injective s s' (subst (λ b. Rest b ≡ ok s') done e))
            (lower-IsLadder 1 (suc (suc len)) s (omega arith) inv)
      | inr more ↦
          let (t, e₁, rest) =
            >>=-eq-ok (consider unicode using_capcode table token (suc len) s) _
              (subst (λ b. Rest b ≡ ok s') more e) in
          ladder-IsLadder m len t (omega arith)
            (consider-IsLadder (suc len) s t (omega arith) short inv
              (round (suc len) s (lookup bytes_eq (take (suc len) token) table) refl e₁))
            rest
    ]
      where
        Rest : Bool → Result Alternatives
        Rest b =
            if b
            then ok s
            else (consider unicode using_capcode table token (suc len) s >>= λ s₁.
                ladder unicode using_capcode table token m len s₁)
