-- ===== src/Vocab/Aliases.antt =====
-- Nothing that an info entry says is lost: its key is its id's token or one of its aliases.
use ztok.Common.{
  ℕ, ◌≤◌, ◌<◌, ◌≡◌, refl, sym, Bool, true, false, ◌||◌, List, [], ◌∷◌, ◌++◌, Option, none, some,
  ltb, ◌==◌, if◌then◌else◌, length, any, arith, All, All-append, All-mono, subst, Bool-cases, inl,
  inr,
}
use ztok.Common.Dict.{lookup, get_list, lookup-put, get_list-append_to}
use ztok.Vocab.Wire.{Bytes}
use ztok.Vocab.Alts.{InfoEntry, bytes_eq}
use ztok.Vocab.Tm.{Tables, settle, place, place_all}
use ztok.Vocab.Primaries.{bytes_eq_refl}

abbrev matches : Option Bytes → Bytes → Bool
matches none key = false
matches (some token) key = bytes_eq key token

-- Whether a key is the token of an id or one of its aliases.
abbrev pub resolves : Tables → ℕ → Bytes → Bool
resolves tables id key =
    matches (lookup ◌==◌ id tables.0) key || any (λ ab. bytes_eq key ab) (get_list id tables.1)

any-append : (p : Bytes → Bool) (xs ys : List Bytes) → any p (xs ++ ys) ≡ any p xs || any p ys
unfolding any
any-append p [] ys = refl
any-append p (x ∷ xs) ys = ground (arith, any-append p xs ys)

settle-keeps :
    (tables : Tables) (e : InfoEntry) (found : Option Bytes) (k : ℕ) (key : Bytes)
    → lookup ◌==◌ e.id tables.0 ≡ found
    → resolves tables k key ≡ true
    → resolves (settle found tables e) k key ≡ true
unfolding settle any
settle-keeps (ids, aliases) e none k key h r = ground (arith, lookup-put k e.id e.key ids)
settle-keeps (ids, aliases) e (some existing) k key h r = ground (
  arith,
  lookup-put k e.id e.key ids,
  get_list-append_to k e.id existing aliases,
  get_list-append_to k e.id e.key aliases,
  any-append (λ ab. bytes_eq key ab) (get_list k aliases) (existing ∷ []),
  any-append (λ ab. bytes_eq key ab) (get_list k aliases) (e.key ∷ []),
)

settle-adds :
    (tables : Tables) (e : InfoEntry) (found : Option Bytes)
    → lookup ◌==◌ e.id tables.0 ≡ found
    → resolves (settle found tables e) e.id e.key ≡ true
unfolding settle any
settle-adds (ids, aliases) e none h =
    ground (arith, lookup-put e.id e.id e.key ids, bytes_eq_refl e.key)
settle-adds (ids, aliases) e (some existing) h = ground (
  arith,
  lookup-put e.id e.id e.key ids,
  bytes_eq_refl e.key,
  get_list-append_to e.id e.id e.key aliases,
  any-append (λ ab. bytes_eq e.key ab) (get_list e.id aliases) (e.key ∷ []),
)

place_all-keeps :
    (tables : Tables) (es : List InfoEntry) (k : ℕ) (key : Bytes)
    → resolves tables k key ≡ true
    → resolves (place_all tables es) k key ≡ true
unfolding place_all place
place_all-keeps tables [] k key r = r
place_all-keeps tables (e ∷ es) k key r =
    place_all-keeps (place tables e) es k key
      (settle-keeps tables e (lookup ◌==◌ e.id tables.0) k key refl r)

-- The key of every info entry, wherever it stands in the file, is in the end the token of its id
-- or one of the aliases of its id.
pub place_all-resolves :
    (tables : Tables) (es : List InfoEntry)
    → All (λ e. resolves (place_all tables es) e.id e.key ≡ true) es
unfolding place_all place
place_all-resolves tables [] = tt
place_all-resolves tables (e ∷ es) = (
  place_all-keeps (place tables e) es e.id e.key
      (settle-adds tables e (lookup ◌==◌ e.id tables.0) refl),
  place_all-resolves (place tables e) es,
)

-- The aliases that an id may have beside its token: none longer, and none at all with no token.
abbrev pub Fits : Option Bytes → List Bytes → Type 0
Fits none aliases = aliases ≡ []
Fits (some token) aliases = All (λ ab. length ab ≤ length token) aliases

Fits-new :
    (b : Bool) (L : Option Bytes) (G : List Bytes) (key : Bytes)
    → Fits L G
    → (b ≡ true → L ≡ none)
    → Fits (if b then some key else L) G
Fits-new false L G key f h = f
Fits-new true L G key f h =
    let empty : G ≡ [] = subst (λ o. Fits o G) (h refl) f in
    subst (λ xs. All (λ ab. length ab ≤ length key) xs) (sym empty) tt

Fits-longer :
    (b : Bool) (L : Option Bytes) (G : List Bytes) (key existing : Bytes)
    → Fits L G
    → (b ≡ true → L ≡ some existing)
    → length existing < length key
    → Fits (if b then some key else L) (if b then G ++ existing ∷ [] else G)
Fits-longer false L G key existing f h l = f
Fits-longer true L G key existing f h l =
    let before : Fits (some existing) G = subst (λ o. Fits o G) (h refl) f in
    All-append (λ ab. length ab ≤ length key) G (existing ∷ [])
      (All-mono (λ ab. length ab ≤ length existing) (λ ab. length ab ≤ length key) G
        (λ ab le. omega arith) before)
      (omega arith, tt)

Fits-alias :
    (b : Bool) (L : Option Bytes) (G : List Bytes) (key existing : Bytes)
    → Fits L G
    → (b ≡ true → L ≡ some existing)
    → length key ≤ length existing
    → Fits L (if b then G ++ key ∷ [] else G)
Fits-alias false L G key existing f h l = f
Fits-alias true L G key existing f h l =
    let before : Fits (some existing) G = subst (λ o. Fits o G) (h refl) f in
    subst (λ o. Fits o (G ++ key ∷ [])) (sym (h refl))
      (All-append (λ ab. length ab ≤ length existing) G (key ∷ []) before (l, tt))

same_id :
    (ids : List (ℕ × Bytes)) (k j : ℕ) (found : Option Bytes)
    → lookup ◌==◌ j ids ≡ found
    → (j == k) ≡ true
    → lookup ◌==◌ k ids ≡ found
same_id ids k j found h e =
    let same : j ≡ k = ground arith in subst (λ i. lookup ◌==◌ i ids ≡ found) same h

settle-Fits :
    (tables : Tables) (e : InfoEntry) (found : Option Bytes) (k : ℕ)
    → lookup ◌==◌ e.id tables.0 ≡ found
    → Fits (lookup ◌==◌ k tables.0) (get_list k tables.1)
    → Fits (lookup ◌==◌ k (settle found tables e).0) (get_list k (settle found tables e).1)
unfolding settle
settle-Fits (ids, aliases) e none k h f = rw (lookup-put k e.id e.key ids) (
    Fits-new (e.id == k) (lookup ◌==◌ k ids) (get_list k aliases) e.key f
      (same_id ids k e.id none h))
settle-Fits (ids, aliases) e (some existing) k h f = elim (Bool-cases (bytes_eq e.key existing)) [
  | inl same ↦ rw same f
  | inr new ↦ elim (Bool-cases (ltb (length existing) (length e.key))) [
    | inl grows ↦
        rw (new, grows, lookup-put k e.id e.key ids, get_list-append_to k e.id existing aliases)
          (Fits-longer (e.id == k) (lookup ◌==◌ k ids) (get_list k aliases) e.key existing f
            (same_id ids k e.id (some existing) h) (ground arith))
    | inr stays ↦
        rw (new, stays, get_list-append_to k e.id e.key aliases)
          (Fits-alias (e.id == k) (lookup ◌==◌ k ids) (get_list k aliases) e.key existing f
            (same_id ids k e.id (some existing) h) (ground arith))
  ]
]

-- Placing info entries keeps the aliases of every id no longer than its token, and an id that has
-- no token without aliases.
pub place_all-Fits :
    (tables : Tables) (es : List InfoEntry)
    → ((k : ℕ) → Fits (lookup ◌==◌ k tables.0) (get_list k tables.1))
    → (k : ℕ) → Fits (lookup ◌==◌ k (place_all tables es).0) (get_list k (place_all tables es).1)
unfolding place_all place
place_all-Fits tables [] f k = f k
place_all-Fits tables (e ∷ es) f k =
    place_all-Fits (place tables e) es
      (λ j. settle-Fits tables e (lookup ◌==◌ e.id tables.0) j refl (f j)) k
