-- ===== src/Common/Dict.antt =====
-- `d.setdefault(key, []).append(value)`: a dictionary of lists as an association list, in the
-- order in which the keys came.
use ztok.Common.{
  ℕ, ◌≡◌, List, [], ◌∷◌, ◌++◌, map, arith, ◌==◌, if◌then◌else◌, filter, All, elem, ◌||◌, ◌+◌, Bool,
  Option, none, some, Bool-cases, inl, inr, subst,
}
use ztok.Common.Counting.{count, Distinct, elem-count, bit}
use mathlib.Core.List.{append-nil, append_assoc}
use mathlib.Core.Option.{some-injective}

module _ {ℓ} {A : Type ℓ} where
  unfoldable pub append_to : ℕ → A → List (ℕ × List A) → List (ℕ × List A)
  append_to k a [] = (k, a ∷ []) ∷ []
  append_to k a ((j, xs) ∷ d) = if j == k then (j, xs ++ a ∷ []) ∷ d else (j, xs) ∷ append_to k a d

  -- `d.get(key, [])`.
  unfoldable pub get_list : ℕ → List (ℕ × List A) → List A
  get_list k [] = []
  get_list k ((j, xs) ∷ d) = if j == k then xs else get_list k d

  abbrev pub keys : List (ℕ × List A) → List ℕ
  keys [] = []
  keys ((j, xs) ∷ d) = j ∷ keys d

  pub get_list-append_to :
      (k j : ℕ) (a : A) (d : List (ℕ × List A))
      → get_list k (append_to j a d) ≡ (if j == k then get_list k d ++ a ∷ [] else get_list k d)
  unfolding get_list append_to
  get_list-append_to k j a [] = ground arith
  get_list-append_to k j a ((i, xs) ∷ d) = ground (arith, get_list-append_to k j a d)

  pub elem-keys-append_to :
      (k j : ℕ) (a : A) (d : List (ℕ × List A))
      → elem k (keys (append_to j a d)) ≡ ((j == k) || elem k (keys d))
  unfolding elem append_to
  elem-keys-append_to k j a [] = ground arith
  elem-keys-append_to k j a ((i, xs) ∷ d) = ground (arith, elem-keys-append_to k j a d)

  count-keys-append_to :
      (k j : ℕ) (a : A) (d : List (ℕ × List A))
      → count k (keys (append_to j a d))
        ≡ (if elem j (keys d) then count k (keys d) else bit (j == k) + count k (keys d))
  unfolding append_to count elem
  count-keys-append_to k j a [] = ground arith
  count-keys-append_to k j a ((i, xs) ∷ d) = ground (arith, count-keys-append_to k j a d)

  pub append_to-Distinct :
      (j : ℕ) (a : A) (d : List (ℕ × List A))
      → Distinct (keys d)
      → Distinct (keys (append_to j a d))
  append_to-Distinct j a d h k =
      ground
        (arith, h k, count-keys-append_to k j a d, elem-count j (keys d), elem-count k (keys d))

  -- What holds of every list holds of the one that is looked up.
  pub All-get_list {κ} :
      (P : List A → Type κ) (k : ℕ) (d : List (ℕ × List A))
      → P []
      → All (λ e. P e.1) d
      → P (get_list k d)
  unfolding get_list
  All-get_list P k [] p h = p
  All-get_list P k ((j, xs) ∷ d) p h = ground (arith, All-get_list P k d p h.1)

module _ {ℓ κ} {A : Type ℓ} {B : Type κ} (key : A → ℕ) (value : A → B) where
  unfoldable pub group_from : List (ℕ × List B) → List A → List (ℕ × List B)
  group_from d [] = d
  group_from d (x ∷ xs) = group_from (append_to (key x) (value x) d) xs

  -- Grouping keeps, for each key, the elements of that key in their order.
  pub get_list-group_from :
      (k : ℕ) (d : List (ℕ × List B)) (xs : List A)
      → get_list k (group_from d xs) ≡ get_list k d ++ map value (filter (λ x. key x == k) xs)
  unfolding group_from filter
  get_list-group_from k d [] = ground (arith, append-nil (get_list k d))
  get_list-group_from k d (x ∷ xs) = ground (
    arith,
    get_list-group_from k (append_to (key x) (value x) d) xs,
    get_list-append_to k (key x) (value x) d,
    append_assoc (get_list k d) (value x ∷ []) (map value (filter (λ x. key x == k) xs)),
  )

  pub group_from-Distinct :
      (d : List (ℕ × List B)) (xs : List A) → Distinct (keys d) → Distinct (keys (group_from d xs))
  unfolding group_from
  group_from-Distinct d [] h = h
  group_from-Distinct d (x ∷ xs) h =
      group_from-Distinct (append_to (key x) (value x) d) xs
        (append_to-Distinct (key x) (value x) d h)

  pub elem-keys-group_from :
      (k : ℕ) (d : List (ℕ × List B)) (xs : List A)
      → elem k (keys (group_from d xs)) ≡ (elem k (keys d) || elem k (map key xs))
  unfolding group_from elem
  elem-keys-group_from k d [] = ground arith
  elem-keys-group_from k d (x ∷ xs) = ground (
    arith,
    elem-keys-group_from k (append_to (key x) (value x) d) xs,
    elem-keys-append_to k (key x) (value x) d,
  )

module _ {ℓ κ} {K : Type ℓ} {A : Type κ} (same : K → K → Bool) where
  -- `d.get(key)`, with the equality of the keys.
  unfoldable pub lookup : K → List (K × A) → Option A
  lookup k [] = none
  lookup k ((j, a) ∷ d) = if same j k then some a else lookup k d

  -- `d[key] = value`
  unfoldable pub put : K → A → List (K × A) → List (K × A)
  put k a [] = (k, a) ∷ []
  put k a ((j, b) ∷ d) = if same j k then (j, a) ∷ d else (j, b) ∷ put k a d

  -- `d.setdefault(key, value)`
  unfoldable pub set_default : K → A → List (K × A) → List (K × A)
  set_default k a [] = (k, a) ∷ []
  set_default k a ((j, b) ∷ d) = if same j k then (j, b) ∷ d else (j, b) ∷ set_default k a d

  -- What a lookup finds stands under a key that equals it.
  pub lookup-All {μ} :
      (P : A → Type μ) (k : K) (d : List (K × A)) {a : A}
      → All (λ e. P e.1) d
      → lookup k d ≡ some a
      → P a
  unfolding lookup
  lookup-All P k [] h e = cc
  lookup-All P k ((j, b) ∷ d) {a} (p, h) e = elim (Bool-cases (same j k)) [
    | inl hit ↦
        subst P
          (some-injective b a (subst (λ t. (if t then some b else lookup k d) ≡ some a) hit e)) p
    | inr miss ↦
        lookup-All P k d h (subst (λ t. (if t then some b else lookup k d) ≡ some a) miss e)
  ]

  pub All-set_default {μ} :
      (P : A → Type μ) (k : K) (a : A) (d : List (K × A))
      → P a
      → All (λ e. P e.1) d
      → All (λ e. P e.1) (set_default k a d)
  unfolding set_default
  All-set_default P k a [] p h = (p, tt)
  All-set_default P k a ((j, b) ∷ d) p (q, h) = ground (arith, All-set_default P k a d p h)

pub lookup-put {ℓ} :
    {A : Type ℓ} (k j : ℕ) (a : A) (d : List (ℕ × A))
    → lookup ◌==◌ k (put ◌==◌ j a d) ≡ (if j == k then some a else lookup ◌==◌ k d)
unfolding lookup put
lookup-put k j a [] = ground arith
lookup-put k j a ((i, b) ∷ d) = ground (arith, lookup-put k j a d)
