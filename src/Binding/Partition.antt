-- ===== src/Binding/Partition.antt =====
-- The groups of a plan are a partition of its sources.
use ztok.Common.{
  ℕ, zero, suc, ◌+◌, ◌-◌, ◌≤◌, ◌≡◌, refl, sym, ap, ◌∙◌, subst, not, ◌&&◌, List, [], ◌∷◌, ◌++◌,
  Result, ok, err, or_raise, map_result, key_error, length, take, drop, ◌==◌, get_elem?, range,
  range_from, flat_map, arith, >>=-eq-ok, raise_if-eq-ok, ok-injective, length-map_result,
  length-range_from,
}
use ztok.Binding.Fixed.{
  fusion_by_code, SourceToken, NativeGroup, SuperpositionGroup, SuperpositionPlan, NativePlan,
  group_kind_names, raise_for_status, materialize_group, read_offset, materialize_plan,
}

-- The groups' ranges follow one another and end with the sources.
abbrev pub Tiles : {R : Type 0} → ℕ → ℕ → List (NativeGroup R) → Type 0
Tiles start size [] = start ≡ size
Tiles start size (g ∷ gs) =
    (g.source_start ≡ start)
    × (start + g.source_count ≤ size)
    × Tiles (start + g.source_count) size gs

take-drop : {A : Type 0} (xs : List A) (n : ℕ) → take n xs ++ drop n xs ≡ xs
take-drop xs zero = refl
take-drop [] (suc n) = refl
take-drop (x ∷ xs) (suc n) = ap (λ ys. x ∷ ys) (take-drop xs n)

drop-nil : {A : Type 0} (n : ℕ) → drop {A = A} n [] ≡ []
drop-nil zero = refl
drop-nil (suc n) = refl

drop-drop : {A : Type 0} (xs : List A) (a b : ℕ) → drop b (drop a xs) ≡ drop (a + b) xs
drop-drop xs zero b = ap (λ n. drop n xs) (omega arith)
drop-drop [] (suc a) b = drop-nil b ∙ sym (drop-nil (suc a + b))
drop-drop (x ∷ xs) (suc a) b =
    let e : suc (a + b) ≡ suc a + b = omega arith in drop-drop xs a b ∙ ap (λ n. drop n (x ∷ xs)) e

drop-all : {A : Type 0} (xs : List A) → drop (length xs) xs ≡ []
drop-all [] = refl
drop-all (x ∷ xs) = drop-all xs

module _ {R : Type 0} where
  -- A group's sources are its range of the plan's.
  materialize_group-sources :
      (sources : List (SourceToken R)) (g : NativeGroup R) {made : SuperpositionGroup R}
      → materialize_group sources g ≡ ok made
      → made.sources ≡ take g.source_count (drop g.source_start sources)
  unfolding materialize_group
  materialize_group-sources sources g {made} h =
      let (f, _, h₁) = >>=-eq-ok (fusion_by_code g.fusion) _ h in
      let (kind, _, h₂) = >>=-eq-ok (or_raise (get_elem? group_kind_names g.kind) key_error) _ h₁ in
      let count : g.source_start + g.source_count - g.source_start ≡ g.source_count = omega arith in
      sym (ap (λ r. sources_of r) h₂) ∙ ap (λ n. take n (drop g.source_start sources)) count
    where
      sources_of : Result (SuperpositionGroup R) → List (SourceToken R)
      sources_of (ok m) = m.sources
      sources_of (err e) = []

  groups-flat :
      (sources : List (SourceToken R)) (start : ℕ) (gs : List (NativeGroup R))
      {made : List (SuperpositionGroup R)}
      → map_result (materialize_group sources) gs ≡ ok made
      → Tiles start (length sources) gs
      → flat_map (λ m. m.sources) made ≡ drop start sources
  unfolding map_result flat_map
  groups-flat sources start [] {made} h t =
      ap (flat_map (λ m. m.sources)) (sym (ok-injective [] made h))
      ∙ sym (ap (λ n. drop n sources) t ∙ drop-all sources)
  groups-flat sources start (g ∷ gs) {made} h (at, fits, t) =
      let (m, e₁, k) = >>=-eq-ok (materialize_group sources g) _ h in
      let (ms, e₂, done) = >>=-eq-ok (map_result (materialize_group sources) gs) _ k in
      let head =
        materialize_group-sources sources g e₁
        ∙ ap (λ n. take g.source_count (drop n sources)) at in
      let rest =
        groups-flat sources (start + g.source_count) gs e₂ t
        ∙ sym (drop-drop sources start g.source_count) in
      ap (flat_map (λ m. m.sources)) (sym (ok-injective (m ∷ ms) made done))
      ∙ ap (λ xs. xs ++ flat_map (λ m. m.sources) ms) head
      ∙ ap (λ ys. take g.source_count (drop start sources) ++ ys) rest
      ∙ take-drop (drop start sources) g.source_count

  -- If the library's groups are ranges that follow one another and cover the sources, then a plan
  -- that is read has these groups: their sources, one group after the other, are the library's
  -- sources; the token ids are the library's, each with an offset.
  pub materialize_plan-partition :
      (plan : NativePlan R) {made : SuperpositionPlan R}
      → materialize_plan plan ≡ ok made
      → Tiles 0 (length plan.sources) plan.groups
      → (flat_map (λ g. g.sources) made.groups ≡ plan.sources)
        × (length made.groups ≡ length plan.groups)
        × (made.original_ids ≡ plan.ids)
        × (length made.original_offsets ≡ length plan.ids)
  unfolding materialize_plan range
  materialize_plan-partition plan {made} h tiles =
      let (offsets, is_offsets, h₁) =
        >>=-eq-ok (map_result (read_offset plan) (range (length plan.ids))) _ h in
      let (groups, is_groups, h₂) =
        >>=-eq-ok (map_result (materialize_group plan.sources) plan.groups) _ h₁ in
      let (_, h₃) =
        raise_if-eq-ok (not (plan.json_size_status == 3) && not (plan.json_size_status == 0)) _ _
          h₂ in
      let (_, _, h₄) = >>=-eq-ok (raise_for_status plan.json_status) _ h₃ in
      let read : SuperpositionPlan R = record {
        original_ids = plan.ids;
        original_offsets = offsets;
        groups = groups;
        json = plan.json;
      } in
      subst
        (λ p.
          (flat_map (λ g. g.sources) p.groups ≡ plan.sources)
          × (length p.groups ≡ length plan.groups)
          × (p.original_ids ≡ plan.ids)
          × (length p.original_offsets ≡ length plan.ids))
        (ok-injective read made h₄)
        (
          groups-flat plan.sources 0 plan.groups is_groups tiles,
          length-map_result (materialize_group plan.sources) plan.groups is_groups,
          refl,
          length-map_result (read_offset plan) (range_from 0 (length plan.ids)) is_offsets
              ∙ length-range_from 0 (length plan.ids),
        )
