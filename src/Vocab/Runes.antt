-- ===== src/Vocab/Runes.antt =====
-- The rune helpers of bench/convert_tm_to_ztm.py. Bits are taken by division and remainder; what
-- Python's Unicode tables say of a code point is a parameter.
use ztok.Common.{
  ℕ, zero, suc, ◌+◌, ◌*◌, ◌/◌, ◌%◌, Bool, true, false, ◌&&◌, ◌||◌, [], ◌∷◌, Result, ok, err,
  value_error, ltb, leb, ◌==◌, if◌then◌else◌, length, drop, ◌≤◌, arith,
}
use ztok.Vocab.Wire.{Bytes}

pub record Unicode : Type 0 where
  pub isalpha : ℕ → Bool
  -- `unicodedata.category(ch) in ("Mn", "Mc", "Me")`
  pub is_mark : ℕ → Bool
  pub isnumeric : ℕ → Bool
  pub isspace : ℕ → Bool

-- `buf[i]`, for an index that is in range.
abbrev pub byte_at : Bytes → ℕ → ℕ
byte_at [] i = 0
byte_at (b ∷ buf) zero = b
byte_at (b ∷ buf) (suc i) = byte_at buf i

-- The rune at the head of `buf[off:]`, with its width.
unfoldable pub decode_head : Bytes → ℕ × ℕ
decode_head [] = (0, 0)
decode_head (b0 ∷ rest) =
    if ltb b0 128
    then (b0, 1)
    else if b0 / 32 == 6 && leb 1 (length rest)
    then (b0 % 32 * 64 + byte_at rest 0 % 64, 2)
    else if b0 / 16 == 14 && leb 2 (length rest)
    then (b0 % 16 * 4096 + byte_at rest 0 % 64 * 64 + byte_at rest 1 % 64, 3)
    else if b0 / 8 == 30 && leb 3 (length rest)
    then (
      b0 % 8 * 262144 + byte_at rest 0 % 64 * 4096 + byte_at rest 1 % 64 * 64 + byte_at rest 2 % 64,
      4,
    )
    else (b0, 1)

unfoldable pub decode_rune : Bytes → ℕ → ℕ × ℕ
unfolding decode_head
decode_rune buf off = decode_head (drop off buf)

-- The walk back over continuation bytes.
unfoldable pub rune_start : Bytes → ℕ → ℕ
rune_start buf zero = 0
rune_start buf (suc i) = if byte_at buf (suc i) / 64 % 4 == 2 then rune_start buf i else suc i

unfoldable pub decode_last_rune : Bytes → ℕ
unfolding decode_rune rune_start
decode_last_rune [] = 0
decode_last_rune (b ∷ buf) = (decode_rune (b ∷ buf) (rune_start (b ∷ buf) (length buf))).0

-- `a and b` and `a or b`, where evaluating an operand may raise.
infixl 7 ◌and◌
abbrev pub ◌and◌ : Result Bool → Result Bool → Result Bool
err why and b = err why
ok true and b = b
ok false and b = ok false

infixl 6 ◌or◌
abbrev pub ◌or◌ : Result Bool → Result Bool → Result Bool
err why or b = err why
ok true or b = ok true
ok false or b = b

abbrev pub negated : Result Bool → Result Bool
negated (err why) = err why
negated (ok true) = ok false
negated (ok false) = ok true

-- A test on `chr(cp)`, which raises for a number that is no code point.
unfoldable pub on_chr : (ℕ → Bool) → ℕ → Result Bool
on_chr test cp = if ltb cp 1114112 then ok (test cp) else err (value_error "chr() arg not in range")

abbrev pub is_marker : ℕ → Bool
is_marker cp = cp == 67 || cp == 87 || cp == 68

module _ (unicode : Unicode) where
  unfoldable pub is_letter : ℕ → ℕ → Result Bool
  unfolding on_chr
  is_letter cp using_capcode =
      if using_capcode == 2 && is_marker cp
      then ok false
      else on_chr unicode.isalpha cp or on_chr unicode.is_mark cp

  unfoldable pub is_number : ℕ → Result Bool
  unfolding on_chr
  is_number cp = on_chr unicode.isnumeric cp

  unfoldable pub is_space : ℕ → Result Bool
  unfolding on_chr
  is_space cp = on_chr unicode.isspace cp

  unfoldable pub is_alphanum : ℕ → ℕ → Result Bool
  unfolding is_letter is_number
  is_alphanum cp using_capcode = is_letter cp using_capcode or is_number cp

unfoldable pub is_capcode : ℕ → ℕ → Bool
is_capcode cp using_capcode =
    if using_capcode == 1 then cp == 127 else if using_capcode == 2 then is_marker cp else false

pub decode_head-width : (b : ℕ) (buf : Bytes) → 1 ≤ (decode_head (b ∷ buf)).1
unfolding decode_head
decode_head-width b buf = ground arith
