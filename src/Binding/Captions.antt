-- ===== src/Binding/Captions.antt =====
-- The captions of a document: which spans they hold, and that none is empty.
use ztok.Common.{
  ℕ, suc, ◌≤◌, ◌<◌, ◌≡◌, refl, ap, ◌∙◌, subst, true, List, [], ◌∷◌, map, ok, length, filter, elem,
  ltb, ◌==◌, arith, range, All, All-mono, >>=-eq-ok, ok-injective,
}
use ztok.Common.Floats.{Floats}
use ztok.Common.Counting.{union}
use ztok.Common.Sort.{sort}
use ztok.Common.Dict.{get_list, get_list-group_from}
use ztok.Binding.{SemanticSpan, Caption}
use ztok.Binding.Sharing.{map-id}
use ztok.Mapping.Decision.Laws.{ids_eq-eq}
use ztok.Common.Counting.{count, elem-count, elem-union, count-range_from}
use ztok.Common.Sort.{count-sort}
use ztok.Binding.Semantic.{
  check_captions, caption_count, largest, serialize, zip_rows, by_caption, quality_of, caption_of,
  first_section,
}

pub largest-bound :
    (n : ℕ) (ns : List ℕ) → All (λ m. m ≤ n) ns → (k : ℕ) → n ≤ k → All (λ m. m ≤ k) ns
largest-bound n ns a k h = All-mono (λ m. m ≤ n) (λ m. m ≤ k) ns (λ m b. omega arith) a

pub All-largest : (ns : List ℕ) → All (λ m. m ≤ largest ns) ns
All-largest [] = tt
All-largest (n ∷ ns) =
    (omega arith, largest-bound (largest ns) ns (All-largest ns) (largest (n ∷ ns)) (omega arith))

module _ {R : Type 0} where
  pub All-ids :
      (P : ℕ → Type 0) (spans : List (SemanticSpan R)) (rows : List (List R))
      → All P (map (λ s. s.caption_id) spans)
      → All (λ p. P p.0.caption_id) (zip_rows spans rows)
  All-ids P [] rows a = tt
  All-ids P (s ∷ ss) [] a = tt
  All-ids P (s ∷ ss) (r ∷ rs) a = (a.0, All-ids P ss rs a.1)

  pub ids_below :
      (spans : List (SemanticSpan R)) (rows : List (List R))
      → All (λ p. p.0.caption_id < caption_count spans) (zip_rows spans rows)
  unfolding caption_count
  ids_below [] rows = tt
  ids_below (s ∷ ss) rows =
      let ids = map (λ s. s.caption_id) (s ∷ ss) in
      All-ids (λ n. n < suc (largest ids)) (s ∷ ss) rows
        (All-mono (λ m. m ≤ largest ids) (λ n. n < suc (largest ids)) ids (λ m b. omega arith)
          (All-largest ids))

  pub length-zip_rows :
      (spans : List (SemanticSpan R)) (rows : List (List R))
      → length rows ≡ length spans
      → length (zip_rows spans rows) ≡ length spans
  length-zip_rows [] rows h = refl
  length-zip_rows (s ∷ ss) [] h = ground arith
  length-zip_rows (s ∷ ss) (r ∷ rs) h = ap suc (length-zip_rows ss rs (omega arith))

  -- The spans of a caption, with their rows, in the order of the input.
  abbrev pub spans_of : List (SemanticSpan R) → List (List R) → ℕ → List (SemanticSpan R × List R)
  spans_of spans rows i = filter (λ p. p.0.caption_id == i) (zip_rows spans rows)

  pub by_caption-spans_of :
      (spans : List (SemanticSpan R)) (rows : List (List R)) (i : ℕ)
      → get_list i (by_caption spans rows) ≡ spans_of spans rows i
  unfolding by_caption get_list
  by_caption-spans_of spans rows i =
      get_list-group_from (λ p. p.0.caption_id) (λ p. p) i [] (zip_rows spans rows)
      ∙ map-id (spans_of spans rows i)

module _ {R : Type 0} ⦃fl : Floats R⦄ where
  -- What a caption of the document holds.
  abbrev pub IsCaption : List (SemanticSpan R) → List (List R) → Caption R → Type 0
  IsCaption spans rows c =
      (c.spans ≡ map serialize (spans_of spans rows c.caption_id))
      × (quality_of (spans_of spans rows c.caption_id) ≡ ok c.quality)
      × (c.section ≡ first_section (spans_of spans rows c.caption_id))

  pub caption_of-IsCaption :
      (spans : List (SemanticSpan R)) (rows : List (List R)) (i : ℕ) (c : Caption R)
      → caption_of (by_caption spans rows) i ≡ ok c
      → (c.caption_id ≡ i) × IsCaption spans rows c
  unfolding caption_of
  caption_of-IsCaption spans rows i c h =
      let found = get_list i (by_caption spans rows) in
      let same = by_caption-spans_of spans rows i in
      let (q, is_q, done) = >>=-eq-ok (quality_of found) _ h in
      let made : Caption R = record {
        caption_id = i;
        quality = q;
        caption_text = "";
        tokens = [];
        spans = map serialize found;
        section = first_section found;
      } in
      subst (λ c. (c.caption_id ≡ i) × IsCaption spans rows c) (ok-injective made c done)
        (
          refl,
          (
            ap (map serialize) same,
            subst (λ ps. quality_of ps ≡ ok q) same is_q,
            ap first_section same,
          ),
        )

-- Every number below the count of captions is some span's caption.
pub caption_used :
    {R : Type 0} (spans : List (SemanticSpan R)) (i : ℕ)
    → check_captions spans ≡ ok tt
    → i < caption_count spans
    → elem i (map (λ s. s.caption_id) spans) ≡ true
unfolding check_captions range elem
caption_used spans i h lt =
    let ids = map (λ s. s.caption_id) spans in
    let found = sort ltb (union [] ids) in
    let same = ids_eq-eq found (range (caption_count spans)) (ground arith) in
    let a = elem-union i [] ids in
    let b = elem-count i (union [] ids) in
    let c = count-sort ltb i (union [] ids) in
    let d = ap (count i) same in let e = count-range_from i 0 (caption_count spans) in ground arith

pub used_length :
    {R : Type 0} (spans : List (SemanticSpan R)) (rows : List (List R)) (i : ℕ)
    → length rows ≡ length spans
    → elem i (map (λ s. s.caption_id) spans) ≡ true
    → 1 ≤ length (spans_of spans rows i)
unfolding elem filter
used_length [] rows i h e = ground arith
used_length (s ∷ ss) [] i h e = ground arith
used_length (s ∷ ss) (r ∷ rs) i h e = ground (arith, used_length ss rs i)
