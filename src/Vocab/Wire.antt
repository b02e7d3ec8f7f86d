-- ===== src/Vocab/Wire.antt =====
-- The little-endian integers of bench/convert_tm_to_ztm.py and src/monster_io.zig: `struct.pack`
-- of a u32, the reads of the TokenMonster file, and the reader's cursor.
use ztok.Common.{
  concat, ℕ, ◌+◌, ◌*◌, ◌/◌, ◌%◌, ◌<◌, ◌≡◌, refl, ap, Bool, true, false, List, [], ◌∷◌, ◌++◌, Result,
  ok, err, struct_error, ltb, if◌then◌else◌, arith, length, sum_by, length-append,
}

-- What is left of a file is the list of its bytes from the current offset on.
abbrev pub Bytes : Type 0
Bytes = List ℕ

abbrev pub le_bytes : ℕ → Bytes
le_bytes n = n % 256 ∷ n / 256 % 256 ∷ n / 65536 % 256 ∷ n / 16777216 % 256 ∷ []

-- `struct.pack("<I", n)`
unfoldable pub pack_u32 : ℕ → Result Bytes
pack_u32 n = if ltb n 4294967296 then ok (le_bytes n) else err struct_error

-- What the reader of src/monster_io.zig fails with; `panic` is an out-of-range access.
pub data ReadError : Type 0 where
  truncated_file magic_mismatch unsupported_version malformed_file panic : ReadError

-- A read: what was read with the rest of the file, or the failure.
pub data Read {ℓ} (A : Type ℓ) : Type ℓ where
  got : A → Bytes → Read A
  refused : ReadError → Read A

infixl 5 ◌>>>◌
abbrev pub ◌>>>◌ {ℓ κ} : {B : Type κ} {A : Type ℓ} → Read A → (A → Bytes → Read B) → Read B
got a rest >>> next = next a rest
refused why >>> next = refused why

-- `if (test) return e;`
abbrev pub refuse_if {ℓ} : {A : Type ℓ} → Bool → ReadError → Read A → Read A
refuse_if true e next = refused e
refuse_if false e next = next

abbrev pub u8 : Bytes → Read ℕ
u8 [] = refused panic
u8 (a ∷ rest) = got a rest

abbrev pub u32 : Bytes → Read ℕ
u32 [] = refused panic
u32 (a ∷ []) = refused panic
u32 (a ∷ b ∷ []) = refused panic
u32 (a ∷ b ∷ c ∷ []) = refused panic
u32 (a ∷ b ∷ c ∷ d ∷ rest) = got (a + b * 256 + c * 65536 + d * 16777216) rest

pub length-concat : (ts : List Bytes) → length (concat ts) ≡ sum_by length ts
unfolding sum_by
length-concat [] = refl
length-concat (t ∷ ts) = omega (arith, length-append t (concat ts), length-concat ts)

pub le_bytes-value :
    (n : ℕ)
    → n < 4294967296
    → n % 256 + n / 256 % 256 * 256 + n / 65536 % 256 * 65536 + n / 16777216 % 256 * 16777216 ≡ n
le_bytes-value n h = omega arith

-- A number below 2³² is read back.
pub u32-le_bytes : (n : ℕ) (rest : Bytes) → n < 4294967296 → u32 (le_bytes n ++ rest) ≡ got n rest
u32-le_bytes n rest h = ap (λ k. got k rest) (le_bytes-value n h)

pub pack_u32-ok : (n : ℕ) → n < 4294967296 → pack_u32 n ≡ ok (le_bytes n)
unfolding pack_u32
pack_u32-ok n h = ground arith

pub pack_u32-eq-ok : (n : ℕ) {p : Bytes} → pack_u32 n ≡ ok p → (n < 4294967296) × (p ≡ le_bytes n)
unfolding pack_u32
pack_u32-eq-ok n h = ground arith
