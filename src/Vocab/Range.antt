-- ===== src/Vocab/Range.antt =====
-- The ids that a parsed vocabulary hands to `write_ztm` are all ids of its tokens.
use ztok.Common.{
  ℕ, suc, ◌≤◌, ◌<◌, ◌≡◌, ap, sym, ◌∙◌, true, List, [], ◌∷◌, Option, none, some, ltb, ◌==◌,
  if◌then◌else◌, length, map, arith, All, All-append, subst, Option-cases, inl, inr, is_some,
  flat_map, length-map, range, length-range_from,
}
use ztok.Common.Dict.{lookup, get_list, set_default, keys, All-set_default}
use ztok.Common.Sort.{sort}
use ztok.Vocab.Wire.{Bytes}
use ztok.Vocab.Alts.{InfoEntry, Ids, bytes_eq, ids_of}
use ztok.Vocab.Tm.{Tables, place, place_all, max_key, ordered_tokens, flat_aliases, or_empty}
use ztok.Vocab.Primaries.{longer, lookup-place}
use ztok.Vocab.Aliases.{Fits}

pub lookup-max_key :
    (k : ℕ) (ids : List (ℕ × Bytes)) → is_some (lookup ◌==◌ k ids) ≡ true → k ≤ max_key ids
unfolding lookup max_key
lookup-max_key k [] h = ground arith
lookup-max_key k ((j, b) ∷ ids) h = ground (arith, lookup-max_key k ids)

pub length-ordered_tokens :
    (ids : List (ℕ × Bytes)) → length (ordered_tokens ids) ≡ suc (max_key ids)
unfolding ordered_tokens range
length-ordered_tokens ids =
    length-map (range (suc (max_key ids))) (λ i. or_empty (lookup ◌==◌ i ids))
    ∙ length-range_from 0 (suc (max_key ids))

place_keeps :
    (k : ℕ) (tables : Tables) (e : InfoEntry)
    → is_some (lookup ◌==◌ k tables.0) ≡ true
    → is_some (lookup ◌==◌ k (place tables e).0) ≡ true
place_keeps k tables e h = go (lookup ◌==◌ k tables.0) h (lookup-place k tables e)
  where
    go :
        (found : Option Bytes)
        → is_some found ≡ true
        → lookup ◌==◌ k (place tables e).0 ≡ (if e.id == k then longer found e.key else found)
        → is_some (lookup ◌==◌ k (place tables e).0) ≡ true
    go none h q = cc
    go (some b) h q = ground arith

place_adds :
    (tables : Tables) (e : InfoEntry) → is_some (lookup ◌==◌ e.id (place tables e).0) ≡ true
place_adds tables e = go (lookup ◌==◌ e.id tables.0) (lookup-place e.id tables e)
  where
    go :
        (found : Option Bytes)
        → lookup ◌==◌ e.id (place tables e).0 ≡ (if e.id == e.id then longer found e.key else found)
        → is_some (lookup ◌==◌ e.id (place tables e).0) ≡ true
    go none q = ground arith
    go (some b) q = ground arith

place_all_keeps :
    (k : ℕ) (tables : Tables) (es : List InfoEntry)
    → is_some (lookup ◌==◌ k tables.0) ≡ true
    → is_some (lookup ◌==◌ k (place_all tables es).0) ≡ true
unfolding place_all
place_all_keeps k tables [] h = h
place_all_keeps k tables (e ∷ es) h =
    place_all_keeps k (place tables e) es (place_keeps k tables e h)

-- Every info entry's id has a token.
pub place_all-has :
    (tables : Tables) (es : List InfoEntry)
    → All (λ e. is_some (lookup ◌==◌ e.id (place_all tables es).0) ≡ true) es
unfolding place_all
place_all-has tables [] = tt
place_all-has tables (e ∷ es) = (
  place_all_keeps e.id (place tables e) es (place_adds tables e),
  place_all-has (place tables e) es,
)

pub ids_of-All :
    (P : ℕ → Type 0) (table : Ids) (es : List InfoEntry)
    → All (λ x. P x.1) table
    → All (λ e. P e.id) es
    → All (λ x. P x.1) (ids_of table es)
unfolding ids_of
ids_of-All P table [] h k = h
ids_of-All P table (e ∷ es) h (p, ps) =
    ids_of-All P (set_default bytes_eq e.key e.id table) es
      (All-set_default bytes_eq P e.key e.id table p h) ps

-- An alias of an id below a bound.
abbrev pub Below : ℕ → ℕ × Bytes → Type 0
Below c a = a.0 < c

aliases_of :
    (c aid : ℕ) (ids : List (ℕ × Bytes)) (list : List Bytes)
    → Fits (lookup ◌==◌ aid ids) list
    → max_key ids < c
    → All (Below c) (map (λ ab. (aid, ab)) list)
aliases_of c aid ids list f h = elim (Option-cases (lookup ◌==◌ aid ids)) [
  | inl gone ↦
      subst (λ xs. All (Below c) (map (λ ab. (aid, ab)) xs)) (sym (subst (λ o. Fits o list) gone f))
        tt
  | inr (token, found) ↦ every list (lookup-max_key aid ids (ap is_some found))
]
  where
    every : (xs : List Bytes) → aid ≤ max_key ids → All (Below c) (map (λ ab. (aid, ab)) xs)
    every [] b = tt
    every (x ∷ xs) b = (omega arith, every xs b)

pub flat_aliases-Below :
    (c : ℕ) (tables : Tables)
    → ((k : ℕ) → Fits (lookup ◌==◌ k tables.0) (get_list k tables.1))
    → max_key tables.0 < c
    → All (Below c) (flat_aliases tables.1)
unfolding flat_aliases flat_map
flat_aliases-Below c tables f h = go (sort ltb (keys tables.1))
  where
    go :
        (ks : List ℕ)
        → All (Below c) (flat_map (λ aid. map (λ ab. (aid, ab)) (get_list aid tables.1)) ks)
    go [] = tt
    go (k ∷ ks) =
        All-append (Below c) (map (λ ab. (k, ab)) (get_list k tables.1)) _
          (aliases_of c k tables.0 (get_list k tables.1) (f k) h) (go ks)
