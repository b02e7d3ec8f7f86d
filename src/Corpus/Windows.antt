-- ===== src/Corpus/Windows.antt =====
-- Windows of documents, and what opening a corpus and finding its eligible documents ensure.
use ztok.Common.{
  ℕ, zero, suc, ◌+◌, ◌-◌, ◌≤◌, ◌<◌, ◌≡◌, refl, ap, subst, true, false, not, ◌&&◌, ◌||◌, List, [],
  ◌∷◌, some, String, ok, length, get_elem?, take, drop, leb, ◌==◌, arith, All, All-mono,
  raise_if-eq-ok, ok-injective, str_eq, Bool-cases, inl, inr,
}
use ztok.Corpus.{
  PackedCorpus, Document, document_length, open_corpus, long_enough, eligible_documents,
  uint64_range,
}
use ztok.Corpus.Sample.{before, repeat, assign_row}

-- A document's tokens lie in the corpus, whose length a `uint64` can hold.
abbrev pub InTokens : ℕ → Document → Type 0
InTokens size d = (d.token_start ≤ d.token_end) × (d.token_end ≤ size) × (size < uint64_range)

-- The byte arrays have an entry for each token.
abbrev pub IsAligned : PackedCorpus → Type 0
IsAligned c = (length c.byte_starts ≡ length c.tokens) × (length c.byte_ends ≡ length c.tokens)

-- `row` is a window of the document's tokens, of so many source bytes.
abbrev pub IsWindow : PackedCorpus → ℕ → ℕ → List ℕ → ℕ → Type 0
IsWindow c width id row bytes =
    (d : Document) × (start : ℕ) × (first : ℕ) × (last : ℕ) × (get_elem? c.documents id ≡ some d)
    × (d.token_start ≤ start)
    × (start + width ≤ d.token_end)
    × (row ≡ take width (drop start c.tokens))
    × (length row ≡ width)
    × (get_elem? c.byte_starts start ≡ some first)
    × (get_elem? c.byte_ends (start + width - 1) ≡ some last)
    × (bytes ≡ last - first)

-- A batch of windows: `total` is the sum of their source bytes.
abbrev pub AreWindows : PackedCorpus → ℕ → List ℕ → List (List ℕ) → ℕ → Type 0
AreWindows c width [] [] total = total ≡ 0
AreWindows c width (id ∷ ids) (row ∷ rows) total =
    (bytes : ℕ) × (rest : ℕ) × (total ≡ bytes + rest)
    × IsWindow c width id row bytes
    × AreWindows c width ids rows rest
AreWindows c width _ _ total = true ≡ false

-- What `torch.randint` draws from a range that is not empty: as many integers as asked for,
-- each in the range.
abbrev pub DrawsInRange : {G : Type 0} → (ℕ → ℕ → G → List ℕ × G) → Type 0
DrawsInRange {G} randint =
    (high count : ℕ) (g : G)
    → 1 ≤ high
    → (length (randint high count g).0 ≡ count) × All (λ x. x < high) (randint high count g).0

pub length-slice :
    (xs : List ℕ) (start width : ℕ)
    → start + width ≤ length xs
    → length (take width (drop start xs)) ≡ width
length-slice xs zero zero h = ground arith
length-slice [] zero (suc width) h = ground arith
length-slice (x ∷ xs) zero (suc width) h = ground (arith, length-slice xs zero width)
length-slice [] (suc start) width h = ground arith
length-slice (x ∷ xs) (suc start) width h = length-slice xs start width (ground arith)

pub assign_row-ok : (width : ℕ) (row : List ℕ) → length row ≡ width → assign_row width row ≡ ok row
unfolding assign_row repeat
assign_row-ok width [] h = ground arith
assign_row-ok width (x ∷ []) h = subst (λ w. ok (repeat w x) ≡ ok (x ∷ [])) h refl
assign_row-ok width (x ∷ y ∷ row) h = ground arith

pub document_length-lem :
    (size : ℕ) (d : Document) → InTokens size d → document_length d ≡ d.token_end - d.token_start
document_length-lem size d (h, k, l) = omega arith

-- An eligible index belongs to a document that is long enough.
abbrev pub IsEligible : ℕ → ℕ → List Document → ℕ → Type 0
IsEligible width k ds j =
    (i : ℕ) × (d : Document) × (j ≡ k + i) × (get_elem? ds i ≡ some d) × (width ≤ document_length d)

pub long_enough-IsEligible :
    (width k : ℕ) (ds : List Document) → All (IsEligible width k ds) (long_enough width k ds)
unfolding long_enough
long_enough-IsEligible width k [] = tt
long_enough-IsEligible width k (d ∷ ds) =
    let later =
      All-mono (IsEligible width (k + 1) ds) (IsEligible width k (d ∷ ds))
        (long_enough width (k + 1) ds) (λ j e. (suc e.0, e.1, omega (arith, e.2), e.3, e.4))
        (long_enough-IsEligible width (k + 1) ds) in
    elim (Bool-cases (leb width (document_length d))) [
      | inl fits ↦ rw fits ((0, d, ground arith, refl, ground arith), later)
      | inr short ↦ rw short later
    ]

pub before-get_elem : (xs : List ℕ) (n : ℕ) → 1 ≤ n → before xs n ≡ get_elem? xs (n - 1)
unfolding before
before-get_elem xs zero h = ground arith
before-get_elem xs (suc i) h = ap (get_elem? xs) (omega arith)

pub open_corpus-IsAligned :
    (schema split : String) (tokens byte_starts byte_ends : List ℕ) (documents : List Document)
    {corpus : PackedCorpus}
    → open_corpus schema split tokens byte_starts byte_ends documents ≡ ok corpus
    → IsAligned corpus × (corpus.tokens ≡ tokens) × (corpus.documents ≡ documents)
unfolding open_corpus
open_corpus-IsAligned schema split tokens byte_starts byte_ends documents {corpus} opened =
    let (_, h₁) =
      raise_if-eq-ok (not (str_eq schema "ztok.nanogpt_superposition.dataset.v1")) _ _ opened in
    let (_, h₂) = raise_if-eq-ok (not (str_eq split "train" || str_eq split "validation")) _ _ h₁ in
    let (same, h₃) =
      raise_if-eq-ok
        (not (length tokens == length byte_starts && length byte_starts == length byte_ends)) _ _
        h₂ in
    let made : PackedCorpus = record {
      split = split;
      tokens = tokens;
      byte_starts = byte_starts;
      byte_ends = byte_ends;
      documents = documents;
    } in
    subst (λ c. IsAligned c × (c.tokens ≡ tokens) × (c.documents ≡ documents))
      (ok-injective made corpus h₃) ((ground arith, ground arith), refl, refl)

pub eligible_documents-IsEligible :
    (corpus : PackedCorpus) (width : ℕ) {eligible : List ℕ}
    → eligible_documents corpus width ≡ ok eligible
    → All (IsEligible width 0 corpus.documents) eligible × (1 ≤ length eligible)
unfolding eligible_documents
eligible_documents-IsEligible corpus width {eligible} h =
    let found = long_enough width 0 corpus.documents in
    let (some_left, h₁) = raise_if-eq-ok (length found == 0) _ _ h in
    subst (λ es. All (IsEligible width 0 corpus.documents) es × (1 ≤ length es))
      (ok-injective found eligible h₁)
      (long_enough-IsEligible width 0 corpus.documents, ground arith)
