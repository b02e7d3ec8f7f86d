-- ===== src/Mapping/Decision/Laws.antt =====
-- What an accepted pair of `_pair_decision` has in common.
use text.Mathlib.TextEquality.{eq_iff}
use ztok.Common.{
  ℕ, ◌≡◌, refl, ◌≢◌, ◌⊎◌, Bool, true, false, List, [], ◌∷◌, Option, none, some, String, ok, arith,
  get_elem?, ap, index_error, or_raise, get_elem?_lt, length, ◌<◌, >>=-eq-ok, or_raise-eq-ok,
  ok-injective, ◌∙◌, subst,
}
use ztok.Common.Floats.{Floats, ◌≺◌}
use ztok.Mapping.{SpanNode, DatasetMappingConfig, Embeddings, PairDecision, Reason}
use ztok.Mapping.Decision.{
  Entry, entry_eq, signature_eq, known_equal, ids_eq, same_source, pair_blocked,
  is_protected_entity, protected_exact, pair_reason, pair_similarity, pair_decision, is_compatible,
}

-- Two optional texts agree: both are there if that is required, and there they are equal.
pub record Agrees (required : Bool) (l r : Option String) : Type 0 where
  pub known : required ≡ true → (t : String) × (l ≡ some t) × (r ≡ some t)
  pub equal : (s t : String) → l ≡ some s → r ≡ some t → s ≡ t

known_equal-Agrees :
    (required : Bool) (l r : Option String) → known_equal required l r ≡ true → Agrees required l r
unfolding known_equal
known_equal-Agrees required none r h = record {
  known = λ e. ground arith;
  equal = λ s t e f. ground arith;
}
known_equal-Agrees required (some a) none h = record {
  known = λ e. ground arith;
  equal = λ s t e f. ground arith;
}
known_equal-Agrees required (some a) (some b) h =
    let same : a ≡ b = ground (arith, eq_iff a b) in
    record { known = λ e. (b, ap some same, refl); equal = λ s t e f. cc }

pub ids_eq-eq : (xs ys : List ℕ) → ids_eq xs ys ≡ true → xs ≡ ys
unfolding ids_eq
ids_eq-eq [] [] h = refl
ids_eq-eq [] (y ∷ ys) h = cc
ids_eq-eq (x ∷ xs) [] h = cc
ids_eq-eq (x ∷ xs) (y ∷ ys) h = ground (arith, ids_eq-eq xs ys)

same_source-eq :
    (l r : Option (List ℕ))
    → same_source l r ≡ true
    → (ids : List ℕ) × (l ≡ some ids) × (r ≡ some ids)
unfolding same_source
same_source-eq none r h = cc
same_source-eq (some xs) none h = cc
same_source-eq (some xs) (some ys) h = (ys, ap some (ids_eq-eq xs ys h), refl)

entry_eq-eq : (a b : Entry) → entry_eq a b ≡ true → a ≡ b
unfolding entry_eq
entry_eq-eq [] [] h = refl
entry_eq-eq [] (t ∷ ts) h = cc
entry_eq-eq (s ∷ ss) [] h = cc
entry_eq-eq (s ∷ ss) (t ∷ ts) h = ground (arith, eq_iff s t, entry_eq-eq ss ts)

signature_eq-eq : (xs ys : List Entry) → signature_eq xs ys ≡ true → xs ≡ ys
unfolding signature_eq
signature_eq-eq [] [] h = refl
signature_eq-eq [] (t ∷ ts) h = cc
signature_eq-eq (s ∷ ss) [] h = cc
signature_eq-eq (s ∷ ss) (t ∷ ts) h = ground (arith, entry_eq-eq s t, signature_eq-eq ss ts)

is_compatible-eq : (r : Reason) → is_compatible r ≡ true → r ≡ Reason.compatible
is_compatible-eq r h = ground arith

module _ {R : Type 0} ⦃fl : Floats R⦄ where
  -- What makes two spans fit to be fused.
  pub record IsCompatible (config : DatasetMappingConfig R) (allowed : Option (List (ℕ × ℕ)))
      (left right : SpanNode R) (left_signature right_signature : List Entry) (similarity : R)
      : Type 0 where
    pub other_example : left.example_id ≢ right.example_id
    pub retrieved : pair_blocked allowed left.example_id right.example_id ≡ false
    pub exact_if_protected :
        (left.protected ≡ true) ⊎ (right.protected ≡ true)
        → (ids : List ℕ) × (left.source_token_ids ≡ some ids) × (right.source_token_ids ≡ some ids)
    pub both_protected : left.protected ≡ right.protected
    pub exact_if_entity :
        (is_protected_entity left.entity_type ≡ true)
          ⊎ (is_protected_entity right.entity_type ≡ true)
        → (ids : List ℕ) × (left.source_token_ids ≡ some ids) × (right.source_token_ids ≡ some ids)
    pub same_grammar :
        Agrees config.require_grammatical_role left.grammatical_role right.grammatical_role
    pub same_semantic_role :
        Agrees config.require_semantic_role left.semantic_role right.semantic_role
    pub same_value : Agrees false left.semantic_value right.semantic_value
    pub same_entity : Agrees false left.entity_type right.entity_type
    pub same_binding : Agrees false left.binding_type right.binding_type
    pub same_relations : config.require_relation_signature ≡ true → left_signature ≡ right_signature
    pub similar : (similarity ≺ config.cosine_threshold) ≡ false

  pair_reason-IsCompatible :
      (left right : SpanNode R) (similarity : R) (ls rs : List Entry)
      (config : DatasetMappingConfig R) (allowed : Option (List (ℕ × ℕ)))
      → pair_reason left right similarity ls rs config allowed ≡ Reason.compatible
      → IsCompatible config allowed left right ls rs similarity
  unfolding pair_reason protected_exact
  pair_reason-IsCompatible left right similarity ls rs config allowed h = record {
    other_example = ground arith;
    retrieved = ground arith;
    exact_if_protected =
        λ p. same_source-eq left.source_token_ids right.source_token_ids (ground arith);
    both_protected = ground arith;
    exact_if_entity =
        λ p. same_source-eq left.source_token_ids right.source_token_ids (ground arith);
    same_grammar = known_equal-Agrees _ left.grammatical_role right.grammatical_role (ground arith);
    same_semantic_role = known_equal-Agrees _ left.semantic_role right.semantic_role (ground arith);
    same_value = known_equal-Agrees _ left.semantic_value right.semantic_value (ground arith);
    same_entity = known_equal-Agrees _ left.entity_type right.entity_type (ground arith);
    same_binding = known_equal-Agrees _ left.binding_type right.binding_type (ground arith);
    same_relations = λ e. signature_eq-eq ls rs (ground arith);
    similar = ground arith;
  }

  -- The two spans of an accepted decision, which fit.
  pub record FitPair (spans : List (SpanNode R)) (signatures : List (List Entry))
      (config : DatasetMappingConfig R) (allowed : Option (List (ℕ × ℕ))) (li ri : ℕ)
      (d : PairDecision R) : Type 0 where
    pub left : SpanNode R
    pub right : SpanNode R
    pub ls : List Entry
    pub rs : List Entry
    pub left_at : get_elem? spans li ≡ some left
    pub right_at : get_elem? spans ri ≡ some right
    pub ls_at : get_elem? signatures li ≡ some ls
    pub rs_at : get_elem? signatures ri ≡ some rs
    pub fit : IsCompatible config allowed left right ls rs d.cosine_similarity

  -- An accepted decision is about two spans that fit: they belong to different examples, and to a
  -- retrieved pair where retrieval restricts the pairs; both are protected or neither, and
  -- protected spans and named entities have the same source tokens; their roles agree, where
  -- required as known texts, and so do their values, entity types and binding types where known;
  -- their relation signatures are equal if that is required; and their similarity is not below
  -- the threshold.
  pub pair_decision-FitPair :
      (li ri : ℕ) (spans : List (SpanNode R)) (embeddings : Embeddings R)
      (signatures : List (List Entry)) (config : DatasetMappingConfig R)
      (allowed : Option (List (ℕ × ℕ))) {d : PairDecision R}
      → pair_decision li ri spans embeddings signatures config allowed ≡ ok d
      → d.accepted ≡ true
      → FitPair spans signatures config allowed li ri d
  unfolding pair_decision
  pair_decision-FitPair li ri spans embeddings signatures config allowed {d} h acc =
      let (left, e₁, h₁) = >>=-eq-ok (or_raise (get_elem? spans li) index_error) _ h in
      let (right, e₂, h₂) = >>=-eq-ok (or_raise (get_elem? spans ri) index_error) _ h₁ in
      let (ls, e₃, h₃) = >>=-eq-ok (or_raise (get_elem? signatures li) index_error) _ h₂ in
      let (rs, e₄, h₄) = >>=-eq-ok (or_raise (get_elem? signatures ri) index_error) _ h₃ in
      let similarity = pair_similarity embeddings left right in
      let reason = pair_reason left right similarity ls rs config allowed in
      let same = ok-injective _ d h₄ in
      let fit =
        pair_reason-IsCompatible left right similarity ls rs config allowed
          (is_compatible-eq reason (ap (λ (x : PairDecision R). x.accepted) same ∙ acc)) in
      record {
        left = left;
        right = right;
        ls = ls;
        rs = rs;
        left_at = or_raise-eq-ok _ _ e₁;
        right_at = or_raise-eq-ok _ _ e₂;
        ls_at = or_raise-eq-ok _ _ e₃;
        rs_at = or_raise-eq-ok _ _ e₄;
        fit =
            subst
              (λ (x : PairDecision R).
                IsCompatible config allowed left right ls rs x.cosine_similarity)
              same fit;
      }

  module _ (spans : List (SpanNode R)) (embeddings : Embeddings R) (signatures : List (List Entry))
      (config : DatasetMappingConfig R) (allowed : Option (List (ℕ × ℕ))) where
    -- The two spans of a decision, and what an accepted decision says of them.
    pub record Decided (li ri : ℕ) (d : PairDecision R) : Type 0 where
      pub left : SpanNode R
      pub right : SpanNode R
      pub ls : List Entry
      pub rs : List Entry
      pub left_at : get_elem? spans li ≡ some left
      pub right_at : get_elem? spans ri ≡ some right
      pub ls_at : get_elem? signatures li ≡ some ls
      pub rs_at : get_elem? signatures ri ≡ some rs
      pub left_index : d.left_span_index ≡ li
      pub right_index : d.right_span_index ≡ ri
      pub similarity : d.cosine_similarity ≡ pair_similarity embeddings left right
      pub accepts :
          d.accepted ≡ true → IsCompatible config allowed left right ls rs d.cosine_similarity

    decision_of :
        (li ri : ℕ) (left right : SpanNode R) (ls rs : List Entry)
        → get_elem? spans li ≡ some left
        → get_elem? spans ri ≡ some right
        → get_elem? signatures li ≡ some ls
        → get_elem? signatures ri ≡ some rs
        → (d : PairDecision R) × (pair_decision li ri spans embeddings signatures config allowed
            ≡ ok d)
          × Decided li ri d
    unfolding pair_decision
    decision_of li ri left right ls rs e₁ e₂ e₃ e₄ =
        let similarity = pair_similarity embeddings left right in
        let reason = pair_reason left right similarity ls rs config allowed in
        let d : PairDecision R = record {
          left_span_index = li;
          right_span_index = ri;
          cosine_similarity = similarity;
          accepted = is_compatible reason;
          reason = reason;
        } in
        (
          d,
          ground arith,
          record {
            left = left;
            right = right;
            ls = ls;
            rs = rs;
            left_at = e₁;
            right_at = e₂;
            ls_at = e₃;
            rs_at = e₄;
            left_index = refl;
            right_index = refl;
            similarity = refl;
            accepts = λ h.
                pair_reason-IsCompatible left right similarity ls rs config allowed
                  (is_compatible-eq reason h);
          },
        )

    pub pair_decision_total :
        (li ri : ℕ)
        → li < length spans
        → ri < length spans
        → length signatures ≡ length spans
        → (d : PairDecision R) × (pair_decision li ri spans embeddings signatures config allowed
            ≡ ok d)
          × Decided li ri d
    pair_decision_total li ri hl hr same =
        let (left, e₁) = get_elem?_lt spans li hl in
        let (right, e₂) = get_elem?_lt spans ri hr in
        let (ls, e₃) = get_elem?_lt signatures li (omega arith) in
        let (rs, e₄) = get_elem?_lt signatures ri (omega arith) in
        decision_of li ri left right ls rs e₁ e₂ e₃ e₄
