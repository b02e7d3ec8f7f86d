-- ===== src/Retrieval.antt =====
-- retrieve_structural_pairs.py of experiments/nanogpt_superposition: the features of an example, the
-- weighted Jaccard score of two, and the choice of disjoint pairs. The file is read as a record;
-- the fields of a span that are missing are `None`.
pub mod Laws
pub mod Found
pub mod Chosen
pub mod Examples
use Prim.Native.String.{◌++◌ as cat, compare}
use text.Mathlib.Text.{is_lt}
use ztok.Common.{
  ℕ, zero, suc, ◌+◌, Bool, true, false, not, ◌&&◌, ◌||◌, List, [], ◌∷◌, ◌++◌, Option, none, some,
  String, leb, ltb, ◌==◌, if◌then◌else◌, str_eq, opt_str_eq, length, map, filter, sum_by, elem, min,
  max, enumerate_from,
}
use ztok.Common.Dict.{lookup, put}
use ztok.Common.Sort.{sort}
use ztok.Common.Floats.{Floats}

pub record Span : Type 0 where
  pub span_id : String
  pub protected : Bool
  pub grammatical_role : Option String
  pub semantic_role : Option String
  pub entity_type : Option String
  pub binding_type : Option String

pub record Edge : Type 0 where
  pub source_span_id : String
  pub relation : String
  pub target_span_id : String

pub record Example : Type 0 where
  pub example_id : String
  pub spans : List Span
  pub relations : List Edge

-- `str(x or "")`
abbrev text_of : Option String → String
text_of none = ""
text_of (some s) = s

-- `":".join` of a first part and others.
abbrev joined : String → List String → String
joined first [] = first
joined first (s ∷ more) = joined (cat first (cat ":" s)) more

-- The dictionary of the spans by id, where a later span takes the place of an earlier one.
unfoldable spans_by_id : List (String × Span) → List Span → List (String × Span)
unfolding put
spans_by_id d [] = d
spans_by_id d (s ∷ more) = spans_by_id (put str_eq s.span_id s d) more

unfoldable eligible_spans : List Span → List (String × Span)
unfolding spans_by_id filter
eligible_spans spans =
    filter (λ e. not e.1.protected && not (opt_str_eq e.1.semantic_role (some "syntax")))
      (spans_by_id [] spans)

abbrev pub Counter : Type 0
Counter = List (String × ℕ)

-- `counter[key]`
abbrev count_of : Option ℕ → ℕ
count_of none = 0
count_of (some n) = n

unfoldable pub get : Counter → String → ℕ
unfolding lookup
get counter key = count_of (lookup str_eq key counter)

-- `counter[key] += 1`
unfoldable bump : Counter → String → Counter
unfolding get put
bump counter key = put str_eq key (get counter key + 1) counter

unfoldable node_features : Counter → List (String × Span) → Counter
unfolding bump
node_features counter [] = counter
node_features counter ((i, s) ∷ more) =
    node_features
      (bump counter (
        cat "node:" (
          joined (text_of s.grammatical_role)
            (text_of s.semantic_role ∷ text_of s.entity_type ∷ text_of s.binding_type ∷ []))))
      more

unfoldable edge_features : List (String × Span) → Counter → List Edge → Counter
unfolding bump lookup
edge_features spans counter [] = counter
edge_features spans counter (e ∷ more) =
    edge_features spans
      (elim (lookup str_eq e.source_span_id spans) [
        | none ↦ counter
        | some source ↦ elim (lookup str_eq e.target_span_id spans) [
          | none ↦ counter
          | some target ↦ bump counter (
              cat "edge:" (
                joined (text_of source.semantic_role)
                  (e.relation ∷ text_of target.semantic_role ∷ [])))
        ]
      ])
      more

unfoldable pub structural_features : Example → Counter
unfolding eligible_spans node_features edge_features
structural_features example =
    let spans = eligible_spans example.spans in
    edge_features spans (node_features [] spans) example.relations

-- `sum(counter.values())`
unfoldable pub feature_count : Counter → ℕ
unfolding sum_by
feature_count counter = sum_by (λ e. e.1) counter

-- `left.keys() | right.keys()`
unfoldable pub key_union : Counter → Counter → List String
unfolding filter lookup
key_union left right =
    map (λ e. e.0) left ++ map (λ e. e.0) (filter (λ e. missing (lookup str_eq e.0 left)) right)
  where
    missing : Option ℕ → Bool
    missing none = true
    missing (some n) = false

module _ {R : Type 0} ⦃fl : Floats R⦄ where
  unfoldable pub weighted_jaccard : Counter → Counter → R
  unfolding key_union sum_by get
  weighted_jaccard left right =
      let keys = key_union left right in
      let union = sum_by (λ k. max (get left k) (get right k)) keys in
      if union == 0
      then fl.of_nat 0
      else fl.over (fl.of_nat (sum_by (λ k. min (get left k) (get right k)) keys)) (fl.of_nat union)

-- A candidate, with the ids of its examples and the counts of their features.
pub record Pair (R : Type 0) : Type 0 where
  pub score : R
  pub left : ℕ
  pub right : ℕ
  pub left_id : String
  pub right_id : String
  pub left_feature_count : ℕ
  pub right_feature_count : ℕ

-- An example with its features.
abbrev pub Featured : Type 0
Featured = Example × Counter

-- The entry of a pair of indices, with what `main` writes of it.
abbrev pub pair_of : {R : Type 0} → R → ℕ → Featured → ℕ → Featured → Pair R
pair_of score left l right r = record {
  score = score;
  left = left;
  right = right;
  left_id = l.0.example_id;
  right_id = r.0.example_id;
  left_feature_count = feature_count l.1;
  right_feature_count = feature_count r.1;
}

module _ {R : Type 0} ⦃fl : Floats R⦄ (minimum_score : R) (minimum_content_spans : ℕ) where
  -- The inner loop, from an index `right` on.
  unfoldable pub rights : ℕ → Featured → ℕ → List Featured → List (Pair R)
  unfolding feature_count weighted_jaccard
  rights left l right [] = []
  rights left l right (r ∷ more) =
      let later = rights left l (suc right) more in
      if ltb (feature_count r.1) minimum_content_spans
      then later
      else (let score = weighted_jaccard l.1 r.1 in
          if fl.le minimum_score score then pair_of score left l right r ∷ later else later)

  unfoldable pub candidate_pairs : ℕ → List Featured → List (Pair R)
  unfolding rights feature_count
  candidate_pairs left [] = []
  candidate_pairs left (l ∷ more) =
      (if ltb (feature_count l.1) minimum_content_spans then [] else rights left l (suc left) more)
      ++ candidate_pairs (suc left) more

abbrev str_lt : String → String → Bool
str_lt s t = is_lt (compare s t)

module _ {R : Type 0} ⦃fl : Floats R⦄ where
  -- The order of the keys `(-score, left id, right id)`.
  unfoldable pub key_before : Pair R → Pair R → Bool
  key_before a b =
      if not (fl.eq (fl.neg a.score) (fl.neg b.score))
      then fl.lt (fl.neg a.score) (fl.neg b.score)
      else if not (str_eq a.left_id b.left_id)
      then str_lt a.left_id b.left_id
      else str_lt a.right_id b.right_id

-- The loop over the sorted candidates: what is used, and how many pairs were selected.
unfoldable pub take_pairs : {R : Type 0} → ℕ → List ℕ → ℕ → List (Pair R) → List (Pair R)
unfolding elem
take_pairs max_pairs used selected [] = []
take_pairs max_pairs used selected (c ∷ more) = elim (elem c.left used || elem c.right used) [
  | true ↦ take_pairs max_pairs used selected more
  | false ↦ c ∷ (elim (leb max_pairs (suc selected)) [
    | true ↦ []
    | false ↦ take_pairs max_pairs (c.left ∷ c.right ∷ used) (suc selected) more
  ])
]

abbrev pub featured : List Example → List Featured
featured examples = map (λ e. (e, structural_features e)) examples

-- The pairs of `main`, for the examples of its input.
unfoldable pub retrieve : {R : Type 0} → ⦃fl : Floats R⦄ → ℕ → R → ℕ → List Example → List (Pair R)
unfolding structural_features candidate_pairs sort key_before take_pairs
retrieve max_pairs minimum_score minimum_content_spans examples =
    take_pairs max_pairs [] 0
      (sort key_before (candidate_pairs minimum_score minimum_content_spans 0 (featured examples)))
