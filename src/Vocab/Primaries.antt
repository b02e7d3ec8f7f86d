-- ===== src/Vocab/Primaries.antt =====
-- Which key becomes the token of an id, and which become its aliases.
use ztok.Common.{
  ℕ, ◌≡◌, refl, true, List, [], ◌∷◌, Option, none, some, ltb, ◌==◌, if◌then◌else◌, length, map,
  filter, arith,
}
use ztok.Common.Dict.{lookup, lookup-put}
use ztok.Vocab.Wire.{Bytes}
use ztok.Vocab.Alts.{InfoEntry, bytes_eq}
use ztok.Vocab.Tm.{Tables, settle, place, place_all}

pub bytes_eq→eq : (a b : Bytes) → bytes_eq a b ≡ true → a ≡ b
unfolding bytes_eq
bytes_eq→eq [] [] h = refl
bytes_eq→eq [] (b ∷ bs) h = cc
bytes_eq→eq (a ∷ more) [] h = cc
bytes_eq→eq (a ∷ more) (b ∷ bs) h = ground (arith, bytes_eq→eq more bs)

pub bytes_eq_refl : (a : Bytes) → bytes_eq a a ≡ true
unfolding bytes_eq
bytes_eq_refl [] = refl
bytes_eq_refl (b ∷ bs) = ground (arith, bytes_eq_refl bs)

-- The first of the longest.
abbrev pub longer : Option Bytes → Bytes → Option Bytes
longer none key = some key
longer (some best) key = if ltb (length best) (length key) then some key else some best

abbrev pub longest_first : Option Bytes → List Bytes → Option Bytes
longest_first best [] = best
longest_first best (key ∷ keys) = longest_first (longer best key) keys

abbrev pub keys_of : ℕ → List InfoEntry → List Bytes
keys_of k es = map (λ e. e.key) (filter (λ e. e.id == k) es)

lookup-settle :
    (k : ℕ) (tables : Tables) (e : InfoEntry) (found : Option Bytes)
    → lookup ◌==◌ e.id tables.0 ≡ found
    → lookup ◌==◌ k (settle found tables e).0
      ≡ (if e.id == k then longer (lookup ◌==◌ k tables.0) e.key else lookup ◌==◌ k tables.0)
unfolding settle
lookup-settle k (ids, aliases) e none h = ground (arith, lookup-put k e.id e.key ids)
lookup-settle k (ids, aliases) e (some existing) h =
    ground (arith, lookup-put k e.id e.key ids, bytes_eq→eq e.key existing)

pub lookup-place :
    (k : ℕ) (tables : Tables) (e : InfoEntry)
    → lookup ◌==◌ k (place tables e).0
      ≡ (if e.id == k then longer (lookup ◌==◌ k tables.0) e.key else lookup ◌==◌ k tables.0)
unfolding place
lookup-place k tables e = lookup-settle k tables e (lookup ◌==◌ e.id tables.0) refl

-- Whatever the order of the info entries, the token of an id is the first of the longest keys
-- that the entries of that id have, and an id of no entry has none.
pub place_all-longest :
    (k : ℕ) (tables : Tables) (es : List InfoEntry)
    → lookup ◌==◌ k (place_all tables es).0 ≡ longest_first (lookup ◌==◌ k tables.0) (keys_of k es)
unfolding place_all filter
place_all-longest k tables [] = refl
place_all-longest k tables (e ∷ es) =
    ground (arith, place_all-longest k (place tables e) es, lookup-place k tables e)
