-- ===== src/Common/Milli.antt =====
-- A concrete stand-in for floats, for runs on small inputs: signed thousandths.
use ztok.Common.{
  ℕ, suc, ◌+◌, ◌-◌, ◌*◌, ◌/◌, ◌≡◌, refl, ◌⊎◌, Bool, true, not, arith, ltb, leb, ◌==◌, if◌then◌else◌,
}
use ztok.Common.Floats.{Floats, IsOrdered}

-- `negsuc n` is -(n + 1) thousandths.
pub data Milli : Type 0 where
  pos : ℕ → Milli
  negsuc : ℕ → Milli

abbrev pub pos_part : Milli → ℕ
pos_part (pos n) = n
pos_part (negsuc n) = 0

abbrev pub neg_part : Milli → ℕ
neg_part (pos n) = 0
neg_part (negsuc n) = suc n

abbrev sub_ℕ : ℕ → ℕ → Milli
sub_ℕ a b = if leb b a then pos (a - b) else negsuc (b - a - 1)

abbrev milli_plus : Milli → Milli → Milli
milli_plus a b = sub_ℕ (pos_part a + pos_part b) (neg_part a + neg_part b)

abbrev milli_neg : Milli → Milli
milli_neg a = sub_ℕ (neg_part a) (pos_part a)

abbrev milli_minus : Milli → Milli → Milli
milli_minus a b = milli_plus a (milli_neg b)

-- Products and quotients of magnitudes, by sign.
abbrev milli_times : Milli → Milli → Milli
milli_times a b =
    sub_ℕ ((pos_part a * pos_part b + neg_part a * neg_part b) / 1000)
      ((pos_part a * neg_part b + neg_part a * pos_part b) / 1000)

abbrev milli_over : Milli → Milli → Milli
milli_over a b =
    let size = pos_part b + neg_part b in
    if ltb 0 (pos_part b)
    then sub_ℕ (pos_part a * 1000 / size) (neg_part a * 1000 / size)
    else sub_ℕ (neg_part a * 1000 / size) (pos_part a * 1000 / size)

abbrev milli_lt : Milli → Milli → Bool
milli_lt a b = ltb (pos_part a + neg_part b) (pos_part b + neg_part a)

abbrev milli_eq : Milli → Milli → Bool
milli_eq a b = (pos_part a + neg_part b) == (pos_part b + neg_part a)

instance abbrev pub milli : Floats Milli
milli = record {
  of_nat = λ n. pos (n * 1000);
  plus = milli_plus;
  minus = milli_minus;
  times = milli_times;
  over = milli_over;
  neg = milli_neg;
  lt = milli_lt;
  le = λ a b. not (milli_lt b a);
  eq = milli_eq;
}

pub milli-IsOrdered : IsOrdered milli
milli-IsOrdered = record {
  irrefl = λ a. ground arith;
  trans = λ a b c h k. ground arith;
  cotrans = λ a b c h. cotrans a b c h;
  le_lt = λ a b. refl;
}
  where
    cotrans : (a b c : Milli) → milli_lt a c ≡ true → (milli_lt a b ≡ true) ⊎ (milli_lt b c ≡ true)
    cotrans a b c h = ground arith
