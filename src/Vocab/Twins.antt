-- ===== src/Vocab/Twins.antt =====
-- What `compute_per_twin_alts` computes for the info entries.
use ztok.Common.{
  ℕ, ◌<◌, ◌≡◌, refl, true, some, get_elem?, All-of_get, List, [], ◌∷◌, ok, ltb, if◌then◌else◌,
  length, arith, All, subst, >>=-eq-ok, ok-injective,
}
use ztok.Vocab.Runes.{Unicode}
use ztok.Vocab.Ztm.{Twin}
use ztok.Vocab.Alts.{InfoEntry, ids_of, alternatives, twins_of, compute_per_twin_alts}
use ztok.Vocab.Prefixes.{ArePrefixes, alternatives-ArePrefixes}

-- An info entry with the key and the id of a twin.
abbrev pub IsEntryOf : List InfoEntry → Twin → Type 0
IsEntryOf entries t =
    (i : ℕ) × (e : InfoEntry) × (get_elem? entries i ≡ some e) × (e.key ≡ t.key) × (e.id ≡ t.id)

-- A twin of the section: its key and id are those of an info entry, and its alternatives, at least
-- one, are prefixes of the key.
abbrev pub IsTwin : List InfoEntry → Twin → Type 0
IsTwin entries t =
    IsEntryOf entries t × ArePrefixes (ids_of [] entries) t.key t.alts × (0 < length t.alts)

module _ (unicode : Unicode) (using_capcode : ℕ) (all : List InfoEntry) where
  abbrev Stands : InfoEntry → Type 0
  Stands e = (i : ℕ) × (get_elem? all i ≡ some e)

  twins_of-IsTwin :
      (es : List InfoEntry) {ts : List Twin}
      → All Stands es
      → twins_of unicode using_capcode (ids_of [] all) es ≡ ok ts
      → All (IsTwin all) ts
  unfolding twins_of
  twins_of-IsTwin [] {ts} h e = subst (All (IsTwin all)) (ok-injective [] ts e) tt
  twins_of-IsTwin (e ∷ es) {ts} (h, hs) q =
      let (alts, e₁, k) =
        >>=-eq-ok (alternatives unicode using_capcode (ids_of [] all) e.key) _ q in
      let (more, e₂, done) = >>=-eq-ok (twins_of unicode using_capcode (ids_of [] all) es) _ k in
      subst (All (IsTwin all)) (ok-injective _ ts done) (
        go alts more (alternatives-ArePrefixes (ids_of [] all) e.key unicode using_capcode e₁)
          (twins_of-IsTwin es hs e₂))
    where
      go :
          (alts : List (ℕ × ℕ)) (more : List Twin)
          → ArePrefixes (ids_of [] all) e.key alts
          → All (IsTwin all) more
          → All (IsTwin all) (
              if ltb 0 (length alts)
              then record { key = e.key; id = e.id; alts = alts } ∷ more
              else more)
      go [] more p m = m
      go (a ∷ alts) more p m =
          let several : ltb 0 (length (a ∷ alts)) ≡ true = ground arith in
          rw several (((h.0, e, h.1, refl, refl), p, omega arith), m)

module _ (unicode : Unicode) (using_capcode : ℕ) where
  -- The twin section that is computed for info entries: each of its twins has the key and the id of
  -- one of the entries, and at least one alternative; its alternatives are at most two, of
  -- different lengths, and each is a proper, non-empty prefix of the twin's own key, with the id
  -- that the bytes of the prefix have as a key.
  pub compute_per_twin_alts-IsTwin :
      (info_entries : List InfoEntry) {ts : List Twin}
      → compute_per_twin_alts unicode using_capcode info_entries ≡ ok ts
      → All (IsTwin info_entries) ts
  unfolding compute_per_twin_alts
  compute_per_twin_alts-IsTwin info_entries e =
      twins_of-IsTwin unicode using_capcode info_entries info_entries
        (All-of_get (Stands unicode using_capcode info_entries) info_entries (λ i x at. (i, at))) e
