-- ===== src/Primer/Slot.antt =====
-- About the expansions that are kept: the slot of their branches.
use ztok.Common.{
  ℕ, zero, suc, ◌+◌, ◌-◌, ◌<◌, ◌≤◌, ◌⊎◌, inl, inr, Bool-cases, elem, filter_map, range, range_from,
  get_elem?_lt, ap, ◌≡◌, refl, sym, ◌∙◌, ◌≢◌, subst, Bool, true, false, not, ◌||◌, List, [], ◌∷◌,
  map, Option, none, some, String, Result, ok, or_raise, key_error, index_error, length, get_elem?,
  ltb, leb, any, ◌==◌, if◌then◌else◌, arith, All, All-mono, length-map_result, map_result, sum,
  >>=-eq-ok,
}
use ztok.Common.Floats.{Floats, of_nat, ◌≼◌, ◌⊘◌, sum_f}
use ztok.Common.Counting.{has_duplicate, has_duplicate-Distinct, Distinct, differ, elem-filter}
use ztok.Primer.{StatementExpansion, Inventory}
use ztok.Primer.Align.{
  column, differing, single, expansion_of, align, aligned_expansion, weights_of, or_unknown,
}

single-eq : (is : List ℕ) {i : ℕ} → single is ≡ some i → is ≡ (i ∷ [])
single-eq [] h = cc
single-eq (j ∷ []) h = ground arith
single-eq (j ∷ k ∷ is) h = cc

equal_lengths :
    (n : ℕ) (bs : List (List ℕ))
    → any (λ b. not (length b == n)) bs ≡ false
    → All (λ b. length b ≡ n) bs
unfolding any
equal_lengths n [] h = tt
equal_lengths n (b ∷ bs) h = (ground arith, equal_lengths n bs (ground arith))

elem-range_from : (start n j : ℕ) → start ≤ j → j < start + n → elem j (range_from start n) ≡ true
unfolding elem range_from
elem-range_from start zero j l h = absurd (omega arith)
elem-range_from start (suc n) j l h = ground (arith, elem-range_from (suc start) n j)

column_step :
    (b : List ℕ) (bs : List (List ℕ)) (j : ℕ) {y : ℕ}
    → get_elem? b j ≡ some y
    → column (b ∷ bs) j ≡ (y ∷ column bs j)
unfolding column filter_map
column_step b bs j at = ground arith

-- What does not stand in the column of differences is the same in all branches.
same_column :
    (n j x : ℕ) (bs : List (List ℕ))
    → j < n
    → All (λ b. length b ≡ n) bs
    → any (λ y. not (y == x)) (column bs j) ≡ false
    → All (λ b. get_elem? b j ≡ some x) bs
unfolding column filter_map any
same_column n j x [] l h d = tt
same_column n j x (b ∷ bs) l (e, h) d =
    let (y, at) = get_elem?_lt b j (omega (arith, e)) in
    let d' = subst (λ ys. any (λ y. not (y == x)) ys ≡ false) (column_step b bs j at) d in
    (at ∙ ap some (ground arith), same_column n j x bs l h (ground arith))

beyond : (b : List ℕ) (j : ℕ) → length b ≤ j → get_elem? b j ≡ none
beyond [] j l = refl
beyond (x ∷ b) zero l = absurd (omega arith)
beyond (x ∷ b) (suc j) l = beyond b j (omega arith)

column-some :
    (n j : ℕ) (bs : List (List ℕ))
    → j < n
    → All (λ b. length b ≡ n) bs
    → map some (column bs j) ≡ map (λ b. get_elem? b j) bs
unfolding column filter_map
column-some n j [] l h = refl
column-some n j (b ∷ bs) l (e, h) =
    let (y, at) = get_elem?_lt b j (omega (arith, e)) in
    ap (map some) (column_step b bs j at)
    ∙ ap (λ ys. some y ∷ ys) (column-some n j bs l h)
    ∙ ap (λ o. o ∷ map (λ b. get_elem? b j) bs) (sym at)

-- If the branches differ at one index only, they are the first branch everywhere else.
inside_same :
    (first : List ℕ) (rest : List (List ℕ)) (i j : ℕ)
    → All (λ b. length b ≡ length first) rest
    → differing first (first ∷ rest) ≡ (i ∷ [])
    → j ≢ i
    → j < length first
    → All (λ b. get_elem? b j ≡ get_elem? first j) rest
unfolding differing range elem
inside_same first rest i j lengths one other l =
    let (x, at) = get_elem?_lt first j l in
    let kept =
      elem-filter (λ i. differ (column (first ∷ rest) i)) j (range_from 0 (length first)) in
    let gone = ap (elem j) one in
    let even : differ (column (first ∷ rest) j) ≡ false =
      ground (arith, elem-range_from 0 (length first) j) in
    All-mono _ _ rest (λ b e. e ∙ sym at)
      (same_column (length first) j x rest l lengths
        (subst (λ ys. differ ys ≡ false) (column_step first rest j at) even))

elsewhere :
    (first : List ℕ) (rest : List (List ℕ)) (i j : ℕ)
    → All (λ b. length b ≡ length first) rest
    → differing first (first ∷ rest) ≡ (i ∷ [])
    → (j ≡ i) ⊎ All (λ b. get_elem? b j ≡ get_elem? first j) (first ∷ rest)
elsewhere first rest i j lengths one = elim (Bool-cases (j == i)) [
  | inl here ↦ inl (ground arith)
  | inr other ↦ inr (
    refl,
    elim (Bool-cases (ltb j (length first))) [
      | inl inside ↦ inside_same first rest i j lengths one (ground arith) (ground arith)
      | inr past ↦
          All-mono (λ b. length b ≡ length first) _ rest
            (λ b e. beyond b j (ground arith) ∙ sym (beyond first j (ground arith))) lengths
    ],
  )
]

-- A guard before a result that was kept.
kept :
    {A : Type 0} (test : Bool) (rest : Result (Option A)) {a : A}
    → (if test then ok none else rest) ≡ ok (some a)
    → (test ≡ false) × (rest ≡ ok (some a))
kept true rest h = cc
kept false rest h = (refl, h)

kept-injective : {A : Type 0} (a b : A) → ok (some a) ≡ ok (some b) → a ≡ b
kept-injective a b h = cc

-- One slot of the branches: before their last token, the only place where they differ, with a
-- different token in each. The branches have the length of the first, whose tokens are kept.
abbrev pub HasSlot : {R : Type 0} → List (List ℕ) → StatementExpansion R → Type 0
HasSlot branches e =
    (get_elem? branches 0 ≡ some e.token_ids)
    × All (λ b. length b ≡ length e.token_ids) branches
    × (suc e.expanded_token_index < length e.token_ids)
    × ((j : ℕ)
        → (j ≡ e.expanded_token_index)
          ⊎ All (λ b. get_elem? b j ≡ get_elem? e.token_ids j) branches)
    × (map some e.alternative_token_ids ≡ map (λ b. get_elem? b e.expanded_token_index) branches)
    × Distinct e.alternative_token_ids

module _ {R : Type 0} ⦃fl : Floats R⦄ (encode : String → List ℕ) (utf8_length : String → ℕ) where
  expansion_of-HasSlot :
      (r : Inventory R) (statements : List String) (first : List ℕ) (rest : List (List ℕ)) (i : ℕ)
      {e : StatementExpansion R}
      → All (λ b. length b ≡ length first) rest
      → differing first (first ∷ rest) ≡ (i ∷ [])
      → expansion_of encode utf8_length r statements first (first ∷ rest) i ≡ ok (some e)
      → HasSlot (first ∷ rest) e
  unfolding expansion_of
  expansion_of-HasSlot r statements first rest i {e} lengths one h =
      let branches = first ∷ rest in
      let total = sum_f (weights_of encode utf8_length r) in
      let late = leb (length first - 1) i in
      let twice = has_duplicate (column branches i) in
      let (passed, h₁) = kept (late || twice || (total ≼ of_nat 0)) _ h in
      let (id, _, done) = >>=-eq-ok (or_raise r.expansion_id key_error) _ h₁ in
      let made : StatementExpansion R = record {
        expansion_id = id;
        token_ids = first;
        expanded_token_index = i;
        alternative_token_ids = column branches i;
        weights = map (λ w. w ⊘ total) (weights_of encode utf8_length r);
        explicit_source_bytes = sum (map utf8_length statements);
        statement_kind = or_unknown r.statement_kind;
        slot_kind = or_unknown r.expanded_slot_kind;
      } in
      let before_last : suc i < length first = ground arith in
      let once = has_duplicate-Distinct (column branches i) (ground arith) in
      subst (HasSlot branches) (kept-injective made e done) (
        refl,
        (refl, lengths),
        before_last,
        λ j. elsewhere first rest i j lengths one,
        column-some (length first) i branches (omega (arith, before_last)) (refl, lengths),
        once,
      )

  align-HasSlot :
      (r : Inventory R) (statements : List String) (branches : List (List ℕ))
      {e : StatementExpansion R}
      → align encode utf8_length r statements branches ≡ ok (some e)
      → HasSlot branches e
  unfolding align
  align-HasSlot r statements [] h = cc
  align-HasSlot r statements (first ∷ rest) {e} h =
      let uneven = any (λ b. not (length b == length first)) rest in
      let (passed, h₁) = kept (uneven || ltb (length first) 2) _ h in
      slot (single (differing first (first ∷ rest))) refl (ground arith) h₁
    where
      slot :
          (found : Option ℕ)
          → single (differing first (first ∷ rest)) ≡ found
          → any (λ b. not (length b == length first)) rest ≡ false
          → elim found [
            | none ↦ ok none
            | some i ↦ expansion_of encode utf8_length r statements first (first ∷ rest) i
          ]
            ≡ ok (some e)
          → HasSlot (first ∷ rest) e
      slot none is even h₁ = cc
      slot (some i) is even h₁ =
          expansion_of-HasSlot r statements first rest i (equal_lengths (length first) rest even)
            (single-eq (differing first (first ∷ rest)) is) h₁

  -- An expansion that is kept comes from the token lists of at least two alternatives, all of the
  -- length of the first one, whose tokens it has. All of them agree at every index but the expanded
  -- one; that lies before the last token, and the alternatives are the tokens there, one for each
  -- list and no two the same.
  pub aligned_expansion-HasSlot :
      (r : Inventory R) {e : StatementExpansion R}
      → aligned_expansion encode utf8_length r ≡ ok (some e)
      → (statements : List String) × (map_result
            (λ a. or_raise (get_elem? a.statements 0) index_error)
            r.alternatives
          ≡ ok statements)
        × (1 < length statements)
        × HasSlot (map encode statements) e
  unfolding aligned_expansion
  aligned_expansion-HasSlot r {e} h =
      let (several, h₁) = kept (ltb (length r.alternatives) 2) _ h in
      let (statements, is, h₂) =
        >>=-eq-ok (map_result (λ a. or_raise (get_elem? a.statements 0) index_error) r.alternatives)
          _ h₁ in
      let same = length-map_result _ r.alternatives is in
      (statements, is, ground arith, align-HasSlot r statements (map encode statements) h₂)
