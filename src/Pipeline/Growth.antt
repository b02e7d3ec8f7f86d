-- ===== src/Pipeline/Growth.antt =====
-- The retries of `encode` are enough.
use ztok.Common.{
  ℕ, zero, suc, ◌+◌, ◌-◌, ◌*◌, ◌%◌, ◌≤◌, ◌<◌, ◌≡◌, refl, ap, Bool, true, false, ◌&&◌, List, [], ok,
  leb, ltb, ◌==◌, if◌then◌else◌, length, max, arith, Bool-cases, inl, inr,
}
use native.Mathlib.Nat.{mul-suc}
use ztok.Binding.Fixed.{status_ok, status_buffer_too_small}
use ztok.Binding.Owner.{Wrapper, raw}
use ztok.Pipeline.Calls.{
  Bytes, Answer, contents, as_token_ids, encode_attempts, encode, ngram_attempts, ngram_hash,
}

-- The documented answer of a call that needs a buffer of `need` elements for what it returns: with
-- less it reports that the buffer is too small, and otherwise it returns that.
abbrev pub Answers : (ℕ → Answer) → ℕ → List ℕ → Type 0
Answers call need found =
    (cap : ℕ)
    → (need ≤ cap → ((call cap).0 ≡ status_ok) × (contents (call cap).2 cap (call cap).1 ≡ found))
      × (cap < need → (call cap).0 ≡ status_buffer_too_small)

-- The capacity after so many doublings.
abbrev doubled : ℕ → ℕ → ℕ
doubled zero cap = cap
doubled (suc n) cap = doubled n (cap * 2)

doubled_mono : (n a b : ℕ) → a ≤ b → doubled n a ≤ doubled n b
doubled_mono zero a b h = h
doubled_mono (suc n) a b h = doubled_mono n (a * 2) (b * 2) (omega arith)

module _ (ztok_encode : ℕ → Bytes → ℕ → Answer) where
  encode_attempts-found :
      (n handle : ℕ) (text : Bytes) (cap need : ℕ) (found : List ℕ)
      → Answers (ztok_encode handle text) need found
      → need ≤ doubled n cap
      → encode_attempts ztok_encode (suc n) handle text cap ≡ ok found
  unfolding encode_attempts
  encode_attempts-found zero handle text cap need found answers h =
      let (fits, small) = answers cap in let (fine, is) = fits h in rw fine (ap ok is)
  encode_attempts-found (suc n) handle text cap need found answers h =
      elim (Bool-cases (leb need cap)) [
        | inl enough ↦ let (fine, is) = (answers cap).0 (ground arith) in rw fine (ap ok is)
        | inr short ↦
            let too_small = (answers cap).1 (ground arith) in
            rw too_small (
              encode_attempts-found n handle text
                (max (cap * 2) ((ztok_encode handle text cap).1 + 16)) need found answers
                (omega (
                  arith,
                  doubled_mono n (cap * 2) (max (cap * 2) ((ztok_encode handle text cap).1 + 16))
                      (omega arith),
                )))
      ]

  -- An open pipeline encodes a text to what the library finds for it, if the library answers as
  -- documented and needs a buffer of at most 128 times the starting capacity: eight attempts are
  -- enough. An empty text gives no ids.
  pub encode-found :
      (pipe : Wrapper) (handle : ℕ) (text : Bytes) (need : ℕ) (found : List ℕ)
      → raw pipe ≡ ok handle
      → Answers (ztok_encode handle text) need found
      → need ≤ 128 * max (length text + 16) 64
      → encode ztok_encode pipe text ≡ ok (if length text == 0 then [] else found)
  unfolding encode
  encode-found pipe handle text need found opened answers h = rw opened (either (length text == 0))
    where
      either :
          (b : Bool)
          → (if b
              then ok []
              else encode_attempts ztok_encode 8 handle text (max (length text + 16) 64))
            ≡ ok (if b then [] else found)
      either true = refl
      either false =
          encode_attempts-found 7 handle text (max (length text + 16) 64) need found answers
            (omega arith)

ngram_attempts-found :
    (call : List ℕ → ℕ → ℕ → ℕ → Answer) (attempts : ℕ) (ids : List ℕ) (n heads cap : ℕ)
    (found : List ℕ)
    → Answers (call ids n heads) cap found
    → ngram_attempts call (suc attempts) ids n heads cap ≡ ok found
unfolding ngram_attempts
ngram_attempts-found call attempts ids n heads cap found answers =
    let (fine, is) = (answers cap).0 (omega arith) in rw fine (ap ok is)

-- The hashes of all windows, if the library answers as documented for a buffer of one hash for
-- each position and head: the first attempt returns them. A stream shorter than a window, and
-- windows or heads of none, have no hashes, and the library is not asked.
pub ngram_hash-found :
    (call : List ℕ → ℕ → ℕ → ℕ → Answer) (ids : List ℕ) (n heads : ℕ) (found : List ℕ)
    → Answers
        (call (as_token_ids ids) (n % 4294967296) (heads % 4294967296))
        ((length ids - n + 1) * heads)
        found
    → ngram_hash call ids n heads
      ≡ ok (if ltb 0 n && ltb 0 heads && leb n (length ids) then found else [])
unfolding ngram_hash
ngram_hash-found call ids n zero found answers = ground arith
ngram_hash-found call ids n (suc heads) found answers = ground (
  arith,
  mul-suc (length ids - n + 1) heads,
  ngram_attempts-found call 1 (as_token_ids ids) (n % 4294967296) (suc heads % 4294967296)
      ((length ids - n + 1) * suc heads) found answers,
)
