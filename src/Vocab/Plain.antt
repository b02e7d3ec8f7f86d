-- ===== src/Vocab/Plain.antt =====
-- On tokens whose runes are code points, the tests of the ladder raise nothing.
use ztok.Common.{
  ℕ, zero, suc, ◌+◌, ◌<◌, ◌≡◌, refl, Bool, true, false, [], ◌∷◌, Result, ok, err, ◌==◌,
  if◌then◌else◌, length, take, drop, arith, All, ◌>>=◌, not,
}
use ztok.Vocab.Wire.{Bytes}
use ztok.Vocab.Runes.{
  Unicode, byte_at, decode_head, decode_rune, decode_last_rune, rune_start, on_chr, is_letter,
  is_number, is_space, is_alphanum, ◌and◌, ◌or◌, negated,
}
use ztok.Vocab.Alts.{
  begins_word, ends_word, boundary_priority, before_word, priority_of, or_underscore,
}

-- Bytes that begin no rune beyond the code points.
abbrev pub IsPlain : Bytes → Type 0
IsPlain token = All (λ b. b < 244) token

byte_at-plain : (buf : Bytes) (i : ℕ) → IsPlain buf → byte_at buf i < 244
byte_at-plain [] i h = ground arith
byte_at-plain (b ∷ buf) zero h = h.0
byte_at-plain (b ∷ buf) (suc i) h = byte_at-plain buf i h.1

decode_head-plain : (buf : Bytes) → IsPlain buf → (decode_head buf).0 < 1114112
unfolding decode_head
decode_head-plain [] h = ground arith
decode_head-plain (b ∷ buf) h = ground arith

drop-IsPlain : (n : ℕ) (buf : Bytes) → IsPlain buf → IsPlain (drop n buf)
drop-IsPlain zero buf h = h
drop-IsPlain (suc n) [] h = tt
drop-IsPlain (suc n) (b ∷ buf) h = drop-IsPlain n buf h.1

take-IsPlain : (n : ℕ) (buf : Bytes) → IsPlain buf → IsPlain (take n buf)
take-IsPlain zero buf h = tt
take-IsPlain (suc n) [] h = tt
take-IsPlain (suc n) (b ∷ buf) h = (h.0, take-IsPlain n buf h.1)

pub decode_rune-plain : (buf : Bytes) (off : ℕ) → IsPlain buf → (decode_rune buf off).0 < 1114112
unfolding decode_rune
decode_rune-plain buf off h = decode_head-plain (drop off buf) (drop-IsPlain off buf h)

decode_last_rune-plain : (buf : Bytes) → IsPlain buf → decode_last_rune buf < 1114112
unfolding decode_last_rune
decode_last_rune-plain [] h = omega arith
decode_last_rune-plain (b ∷ buf) h =
    decode_rune-plain (b ∷ buf) (rune_start (b ∷ buf) (length buf)) h

abbrev pub Succeeds : {A : Type 0} → Result A → Type 0
Succeeds {A} r = (a : A) × (r ≡ ok a)

module _ {A : Type 0} {B : Type 0} where
  pub >>=-Succeeds :
      (r : Result A) (next : A → Result B)
      → Succeeds r
      → ((a : A) → r ≡ ok a → Succeeds (next a))
      → Succeeds (r >>= next)
  >>=-Succeeds r next (a, e) h = let (b, e') = h a e in (b, rw e e')

pub and-Succeeds : (a b : Result Bool) → Succeeds a → Succeeds b → Succeeds (a and b)
and-Succeeds (err why) b (x, e) s = cc
and-Succeeds (ok true) b h s = s
and-Succeeds (ok false) b h s = (false, refl)

or-Succeeds : (a b : Result Bool) → Succeeds a → Succeeds b → Succeeds (a or b)
or-Succeeds (err why) b (x, e) s = cc
or-Succeeds (ok true) b h s = (true, refl)
or-Succeeds (ok false) b h s = s

negated-Succeeds : (a : Result Bool) → Succeeds a → Succeeds (negated a)
negated-Succeeds (err why) (x, e) = cc
negated-Succeeds (ok true) h = (false, refl)
negated-Succeeds (ok false) h = (true, refl)

on_chr-Succeeds : (test : ℕ → Bool) (cp : ℕ) → cp < 1114112 → Succeeds (on_chr test cp)
unfolding on_chr
on_chr-Succeeds test cp h = (test cp, ground arith)

pub if-Succeeds :
    {A : Type 0} (b : Bool) (x y : Result A)
    → Succeeds x
    → Succeeds y
    → Succeeds (if b then x else y)
if-Succeeds true x y h k = h
if-Succeeds false x y h k = k

module _ (unicode : Unicode) (using_capcode : ℕ) where
  letter-Succeeds : (cp : ℕ) → cp < 1114112 → Succeeds (is_letter unicode cp using_capcode)
  unfolding is_letter
  letter-Succeeds cp h =
      if-Succeeds _ (ok false) _ (false, refl)
        (or-Succeeds _ _ (on_chr-Succeeds unicode.isalpha cp h)
          (on_chr-Succeeds unicode.is_mark cp h))

  number-Succeeds : (cp : ℕ) → cp < 1114112 → Succeeds (is_number unicode cp)
  unfolding is_number
  number-Succeeds cp h = on_chr-Succeeds unicode.isnumeric cp h

  space-Succeeds : (cp : ℕ) → cp < 1114112 → Succeeds (is_space unicode cp)
  unfolding is_space
  space-Succeeds cp h = on_chr-Succeeds unicode.isspace cp h

  pub alphanum-Succeeds : (cp : ℕ) → cp < 1114112 → Succeeds (is_alphanum unicode cp using_capcode)
  unfolding is_alphanum
  alphanum-Succeeds cp h = or-Succeeds _ _ (letter-Succeeds cp h) (number-Succeeds cp h)

  underscore-Succeeds :
      (cp : ℕ) → cp < 1114112 → Succeeds (or_underscore (is_letter unicode cp using_capcode) cp)
  underscore-Succeeds cp h = or-Succeeds _ _ (letter-Succeeds cp h) (cp == 95, refl)

  not_letter-Succeeds :
      (cp : ℕ)
      → cp < 1114112
      → Succeeds (negated (is_letter unicode cp using_capcode) and ok (not (cp == 95)))
  not_letter-Succeeds cp h =
      and-Succeeds _ _ (negated-Succeeds _ (letter-Succeeds cp h)) (not (cp == 95), refl)

  begins_word-Succeeds :
      (rl nr : ℕ) → rl < 1114112 → nr < 1114112 → Succeeds (begins_word unicode using_capcode rl nr)
  unfolding begins_word
  begins_word-Succeeds rl nr h k =
      if-Succeeds _ _ (ok false)
        (or-Succeeds _ _ (and-Succeeds _ _ (not_letter-Succeeds rl h) (underscore-Succeeds nr k))
          (and-Succeeds _ _ (negated-Succeeds _ (number-Succeeds rl h)) (number-Succeeds nr k)))
        (false, refl)

  ends_word-Succeeds :
      (rl nr : ℕ) → rl < 1114112 → nr < 1114112 → Succeeds (ends_word unicode using_capcode rl nr)
  unfolding ends_word
  ends_word-Succeeds rl nr h k =
      or-Succeeds _ _ (and-Succeeds _ _ (underscore-Succeeds rl h) (not_letter-Succeeds nr k))
        (and-Succeeds _ _ (number-Succeeds rl h) (negated-Succeeds _ (number-Succeeds nr k)))

  boundary_priority-Succeeds :
      (rl nr : ℕ)
      → rl < 1114112
      → nr < 1114112
      → Succeeds (boundary_priority unicode using_capcode rl nr)
  unfolding boundary_priority
  boundary_priority-Succeeds rl nr h k =
      >>=-Succeeds _ _ (begins_word-Succeeds rl nr h k) (λ begins _.
        if-Succeeds begins (ok 9) _ (9, refl)
          (>>=-Succeeds _ _ (ends_word-Succeeds rl nr h k) (λ cond9 _.
            >>=-Succeeds _ _
              (and-Succeeds _ _ (space-Succeeds rl h) (negated-Succeeds _ (space-Succeeds nr k)))
              (λ cond7 _.
                >>=-Succeeds _ _
                  (and-Succeeds _ _ (negated-Succeeds _ (space-Succeeds rl h))
                    (space-Succeeds nr k))
                  (λ cond8 _. (_, refl))))))

  pub priority_of-Succeeds :
      (token : Bytes) (len : ℕ)
      → IsPlain token
      → Succeeds (priority_of unicode using_capcode token len)
  unfolding priority_of before_word
  priority_of-Succeeds token len h =
      >>=-Succeeds _ _
        (if-Succeeds _ _ (ok false)
          (or-Succeeds _ _ (letter-Succeeds _ (decode_rune-plain token (len + 1) h))
            (number-Succeeds _ (decode_rune-plain token (len + 1) h)))
          (false, refl))
        (λ first _.
          if-Succeeds first (ok 10) _ (10, refl)
            (boundary_priority-Succeeds _ _
              (decode_last_rune-plain (take len token) (take-IsPlain len token h))
              (decode_rune-plain token len h)))
