-- ===== src/Vocab/Records.antt =====
-- Each record that `write_ztm` writes is read back by the native library, whatever follows it.
use ztok.Common.{
  concat, ℕ, ◌+◌, ◌-◌, ◌<◌, ◌≡◌, refl, sym, ap, ap₂, ◌∙◌, false, List, [], ◌∷◌, ◌++◌, Result, ok,
  err, ltb, length, sum_by, map, map_result, >>=-eq-ok, ok-injective, take, drop, arith, All,
  Result-cases, Error, length-append, inl, inr,
}
use mathlib.Core.List.{append_assoc}
use ztok.Vocab.Wire.{Bytes, le_bytes-value, pack_u32, Read, got, le_bytes, pack_u32-eq-ok}
use ztok.Vocab.Ztm.{Twin, offsets, alias_record, alt_record, twin_record}
use ztok.Vocab.Reader.{read_pieces, read_alias, read_alt, read_many, read_twin, read_section}

pub take-front : {A : Type 0} (front back : List A) → take (length front) (front ++ back) ≡ front
take-front [] back = refl
take-front (x ∷ front) back = ap (λ xs. x ∷ xs) (take-front front back)

pub drop-front : {A : Type 0} (front back : List A) → drop (length front) (front ++ back) ≡ back
drop-front [] back = refl
drop-front (x ∷ front) back = drop-front front back

module _ {A : Type 0} (put : A → Result Bytes) (one : Bytes → Read A) (shown : A → A)
    (Fits : A → Type 0)
    (back : (a : A) (p rest : Bytes)
      → Fits a
      → put a ≡ ok p
      → one (p ++ rest) ≡ got (shown a) rest) where
  pub read_many-back :
      (xs : List A) {ps : List Bytes} (rest : Bytes)
      → All Fits xs
      → map_result put xs ≡ ok ps
      → read_many one (length xs) (concat ps ++ rest) ≡ got (map shown xs) rest
  unfolding read_many map_result
  read_many-back [] {ps} rest h e = rw (sym (ok-injective [] ps e)) refl
  read_many-back (x ∷ xs) {ps} rest (fit, fits) e =
      let (p, e₁, k) = >>=-eq-ok (put x) _ e in
      let (qs, e₂, done) = >>=-eq-ok (map_result put xs) _ k in
      rw
        (
          sym (ok-injective (p ∷ qs) ps done),
          append_assoc p (concat qs) rest,
          back x p (concat qs ++ rest) fit e₁,
          read_many-back xs rest fits e₂,
        )
        refl

  pub read_section-back :
      (xs : List A) {ps : List Bytes} {n : Bytes} (rest : Bytes)
      → All Fits xs
      → pack_u32 (length xs) ≡ ok n
      → map_result put xs ≡ ok ps
      → read_section one ((n ++ concat ps) ++ rest) ≡ got (map shown xs) rest
  unfolding read_section
  read_section-back xs {ps} {n} rest h e₀ e =
      let (small, packed) = pack_u32-eq-ok (length xs) e₀ in
      rw (packed, le_bytes-value (length xs) small) (ground (arith, read_many-back xs rest h e))

-- A record that was written has ids in range, and this layout.
alias_record-eq-ok :
    (count aid : ℕ) (ab : Bytes) {p : Bytes}
    → alias_record count (aid, ab) ≡ ok p
    → (aid < count)
      × (aid < 4294967296)
      × (length ab < 4294967296)
      × (p ≡ le_bytes aid ++ le_bytes (length ab) ++ ab)
unfolding alias_record pack_u32
alias_record-eq-ok count aid ab e = ground arith

pub read_alias-back :
    (count : ℕ) (a : ℕ × Bytes) (p rest : Bytes)
    → 0 < length a.1
    → alias_record count a ≡ ok p
    → read_alias count (p ++ rest) ≡ got a rest
unfolding read_alias
read_alias-back count (aid, ab) p rest some_bytes e =
    let (bound, small, short, layout) = alias_record-eq-ok count aid ab e in
    rw
      (
        layout,
        le_bytes-value aid small,
        le_bytes-value (length ab) short,
        take-front ab rest,
        drop-front ab rest,
      )
      (ground (arith, length-append ab rest))

alt_record-eq-ok :
    (count alt_id alt_len : ℕ) {p : Bytes}
    → alt_record count (alt_id, alt_len) ≡ ok p
    → (alt_id < count)
      × (alt_id < 4294967296)
      × (alt_len < 4294967296)
      × (p ≡ le_bytes alt_id ++ le_bytes alt_len)
unfolding alt_record pack_u32
alt_record-eq-ok count alt_id alt_len e = ground arith

read_alt-back :
    (count : ℕ) (a : ℕ × ℕ) (p rest : Bytes)
    → Unit {0}
    → alt_record count a ≡ ok p
    → read_alt count (p ++ rest) ≡ got a rest
unfolding read_alt
read_alt-back count (alt_id, alt_len) p rest h e =
    let (bound, small, short, layout) = alt_record-eq-ok count alt_id alt_len e in
    rw (layout, le_bytes-value alt_id small, le_bytes-value alt_len short) (ground arith)

-- At most two alternatives are written.
abbrev pub shown_twin : Twin → Twin
shown_twin t = record { key = t.key; id = t.id; alts = take 2 t.alts }

twin_record-eq-ok :
    (count : ℕ) (t : Twin) (alts : List Bytes) {p : Bytes}
    → map_result (alt_record count) (take 2 t.alts) ≡ ok alts
    → twin_record count t ≡ ok p
    → (t.id < count)
      × (t.id < 4294967296)
      × (length t.key < 4294967296)
      × (p
          ≡ le_bytes t.id
            ++ le_bytes (length t.key)
            ++ t.key
            ++ length (take 2 t.alts) ∷ concat alts)
unfolding twin_record pack_u32
twin_record-eq-ok count t alts h e = ground arith

twin_record-alts :
    (count : ℕ) (t : Twin) {p : Bytes}
    → twin_record count t ≡ ok p
    → (alts : List Bytes) × (map_result (alt_record count) (take 2 t.alts) ≡ ok alts)
unfolding twin_record pack_u32
twin_record-alts count t e = elim (Result-cases (map_result (alt_record count) (take 2 t.alts))) [
  | inl found ↦ found
  | inr (why, failed) ↦ elim (test why failed) [ ]
]
  where
    test : (why : Error) → map_result (alt_record count) (take 2 t.alts) ≡ err why → ⊥
    test why failed = ground arith

pub offsets-eq-ok :
    (start : ℕ) (t : Bytes) (ts : List Bytes) {p : Bytes}
    → offsets start (t ∷ ts) ≡ ok p
    → (q : Bytes) × (offsets (start + length t) ts ≡ ok q)
      × (start + length t < 4294967296)
      × (p ≡ le_bytes (start + length t) ++ q)
unfolding offsets pack_u32
offsets-eq-ok start t ts e = elim (Result-cases (offsets (start + length t) ts)) [
  | inl (q, more) ↦ (q, more, ground arith, ground arith)
  | inr (why, failed) ↦ elim (impossible why failed) [ ]
]
  where
    impossible : (why : Error) → offsets (start + length t) ts ≡ err why → ⊥
    impossible why failed = ground arith

piece-front :
    (front t back : Bytes) (start : ℕ)
    → start ≡ length front
    → take (start + length t - start) (drop start (front ++ (t ++ back))) ≡ t
piece-front front t back start h =
    ap₂ take (sum_less start (length t))
      (ap (λ n. drop n (front ++ (t ++ back))) h ∙ drop-front front (t ++ back))
    ∙ take-front t back
  where
    sum_less : (a b : ℕ) → a + b - a ≡ b
    sum_less a b = omega arith

-- The offsets cut the token bytes into the tokens again.
pub read_pieces-back :
    (tokens : List Bytes) (front slice p rest : Bytes) (start total : ℕ)
    → start ≡ length front
    → slice ≡ front ++ concat tokens
    → start + sum_by length tokens ≡ total
    → offsets start tokens ≡ ok p
    → read_pieces (length tokens) start total slice (p ++ rest) ≡ got (tokens, total) rest
unfolding read_pieces offsets sum_by
read_pieces-back [] front slice p rest start total h cut s e = ground arith
read_pieces-back (t ∷ ts) front slice p rest start total h cut s e =
    let (q, more, small, layout) = offsets-eq-ok start t ts e in
    rw
      (
        layout,
        le_bytes-value (start + length t) small,
        read_pieces-back ts (front ++ t) slice q rest (start + length t) total
            (ground (arith, length-append front t)) (cut ∙ sym (append_assoc front t (concat ts)))
            (omega arith) more,
        cut,
      )
      (ground (arith, piece-front front t (concat ts) start h))

short-take : (xs : List (ℕ × ℕ)) → ltb 2 (length (take 2 xs)) ≡ false
short-take [] = refl
short-take (x ∷ []) = refl
short-take (x ∷ y ∷ xs) = refl

pub read_twin-back :
    (count : ℕ) (t : Twin) (p rest : Bytes)
    → 0 < length t.key
    → twin_record count t ≡ ok p
    → read_twin count (p ++ rest) ≡ got (shown_twin t) rest
unfolding read_twin
read_twin-back count t p rest some_bytes e =
    let (alts, written) = twin_record-alts count t e in
    let (bound, small, short, layout) = twin_record-eq-ok count t alts written e in
    rw
      (
        layout,
        le_bytes-value t.id small,
        le_bytes-value (length t.key) short,
        append_assoc t.key (length (take 2 t.alts) ∷ concat alts) rest,
        take-front t.key ((length (take 2 t.alts) ∷ concat alts) ++ rest),
        drop-front t.key ((length (take 2 t.alts) ∷ concat alts) ++ rest),
        short-take t.alts,
        read_many-back (alt_record count) (read_alt count) (λ a. a) (λ a. Unit)
            (read_alt-back count) (take 2 t.alts) rest (always (take 2 t.alts)) written,
      )
      (ground (arith, length-append t.key ((length (take 2 t.alts) ∷ concat alts) ++ rest)))
  where
    always : (xs : List (ℕ × ℕ)) → All (λ a. Unit {0}) xs
    always [] = tt
    always (x ∷ xs) = (tt, always xs)
