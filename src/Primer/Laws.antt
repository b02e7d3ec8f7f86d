-- ===== src/Primer/Laws.antt =====
-- Batches are the expansions, cut and mixed, with one length per batch.
use ztok.Common.{
  ℕ, zero, suc, ◌+◌, ◌≤◌, ◌≡◌, refl, sym, ap, ◌∙◌, subst, true, false, List, [], ◌∷◌, map, ok,
  length, take, drop, filter, ltb, ◌==◌, elem, arith, All, All-append, All-mono, sum_by,
  sum_by-append, All-filter,
}
use ztok.Common.Counting.{count, elem-count}
use ztok.Common.Sort.{sort, sum_by-sort}
use ztok.Common.Dict.{
  get_list, keys, get_list-group_from, group_from-Distinct, elem-keys-group_from,
}
use ztok.Binding.Sharing.{map-id}
use ztok.Primer.{StatementExpansion}
use ztok.Primer.Batches.{chunks_fuel, chunks, buckets_of, batches_from, statement_primer_batches}

module _ {A : Type 0} where
  sum_by-take :
      (f : A → ℕ) (n : ℕ) (xs : List A) → sum_by f (take n xs) + sum_by f (drop n xs) ≡ sum_by f xs
  unfolding sum_by
  sum_by-take f zero xs = omega arith
  sum_by-take f (suc n) [] = omega arith
  sum_by-take f (suc n) (x ∷ xs) = omega (arith, sum_by-take f n xs)

  length-take-le : (n : ℕ) (xs : List A) → length (take n xs) ≤ n
  length-take-le zero xs = omega arith
  length-take-le (suc n) [] = omega arith
  length-take-le (suc n) (x ∷ xs) = omega (arith, length-take-le n xs)

  length-drop-le : (n : ℕ) (xs : List A) → length (drop n xs) + n ≤ length xs + n
  length-drop-le zero xs = omega arith
  length-drop-le (suc n) [] = omega arith
  length-drop-le (suc n) (x ∷ xs) = omega (arith, length-drop-le n xs)

  All-take :
      (P : A → Type 0) (n : ℕ) (xs : List A) → All P xs → All P (take n xs) × All P (drop n xs)
  All-take P zero xs a = (tt, a)
  All-take P (suc n) [] a = (tt, tt)
  All-take P (suc n) (x ∷ xs) (h, a) = let (l, r) = All-take P n xs a in ((h, l), r)

  -- Chunks of at least one element lose nothing, and none is empty or too long.
  chunks_fuel-whole :
      (P : A → Type 0) (rounds size : ℕ) (xs : List A)
      → 1 ≤ size
      → length xs ≤ rounds
      → All P xs
      → ((f : A → ℕ) → sum_by (sum_by f) (chunks_fuel rounds size xs) ≡ sum_by f xs)
        × All (λ b. (1 ≤ length b) × (length b ≤ size) × All P b) (chunks_fuel rounds size xs)
  unfolding chunks_fuel sum_by
  chunks_fuel-whole P zero size [] h l a = ((λ f. refl), tt)
  chunks_fuel-whole P zero size (x ∷ xs) h l a = ground arith
  chunks_fuel-whole P (suc rounds) size [] h l a = ((λ f. refl), tt)
  chunks_fuel-whole P (suc rounds) (suc n) (x ∷ xs) h l (p, a) =
      let (front, back) = All-take P n xs a in
      let (sums, are) =
        chunks_fuel-whole P rounds (suc n) (drop n xs) h (omega (arith, length-drop-le n xs))
          back in
      (
        (λ f. omega (arith, sums f, sum_by-take f n xs)),
        ((omega arith, omega (arith, length-take-le n xs), (p, front)), are),
      )
  chunks_fuel-whole P (suc rounds) zero (x ∷ xs) h l a = ground arith

  -- The total over the keys of the elements with a key.
  abbrev by_key : (A → ℕ) → (A → ℕ) → List A → List ℕ → ℕ
  by_key f key xs ks = sum_by (λ l. sum_by f (filter (λ x. key x == l) xs)) ks

  by_key-none :
      (f key : A → ℕ) (x : A) (xs : List A) (ks : List ℕ)
      → count (key x) ks ≡ 0
      → by_key f key (x ∷ xs) ks ≡ by_key f key xs ks
  unfolding filter sum_by count
  by_key-none f key x xs [] h = refl
  by_key-none f key x xs (k ∷ ks) h = ground (arith, by_key-none f key x xs ks)

  by_key-one :
      (f key : A → ℕ) (x : A) (xs : List A) (ks : List ℕ)
      → count (key x) ks ≡ 1
      → by_key f key (x ∷ xs) ks ≡ f x + by_key f key xs ks
  unfolding filter sum_by count
  by_key-one f key x xs [] h = ground arith
  by_key-one f key x xs (k ∷ ks) h =
      ground (arith, by_key-one f key x xs ks, by_key-none f key x xs ks)

  by_key-empty : (f key : A → ℕ) (ks : List ℕ) → by_key f key [] ks ≡ 0
  unfolding filter sum_by
  by_key-empty f key [] = refl
  by_key-empty f key (k ∷ ks) = omega (arith, by_key-empty f key ks)

  -- Sharing out by a key over keys that have each key once loses nothing.
  by_key-whole :
      (f key : A → ℕ) (ks : List ℕ) (xs : List A)
      → All (λ x. count (key x) ks ≡ 1) xs
      → by_key f key xs ks ≡ sum_by f xs
  unfolding sum_by
  by_key-whole f key ks [] a = by_key-empty f key ks
  by_key-whole f key ks (x ∷ xs) (one, a) =
      omega (arith, by_key-one f key x xs ks one, by_key-whole f key ks xs a)

-- What a shuffle does: it keeps every total over the elements, hence how often each element
-- stands, and what holds of all elements.
abbrev pub Shuffles : {G : Type 0} → ((A : Type 0) → G → List A → List A × G) → Type 1
Shuffles {G} shuffle =
    (A : Type 0) (g : G) (xs : List A)
    → ((f : A → ℕ) → sum_by f (shuffle A g xs).0 ≡ sum_by f xs)
      × ((P : A → Type 0) → All P xs → All P (shuffle A g xs).0)

-- A batch has between one and `size` expansions, of one length.
abbrev pub IsBatch : {R : Type 0} → ℕ → List (StatementExpansion R) → Type 0
IsBatch size b = (1 ≤ length b) × (length b ≤ size) × (l : ℕ) × All (λ e. length e.token_ids ≡ l) b

module _ {R : Type 0} where
  -- The length of an expansion, and the lengths that there are.
  abbrev size_of : StatementExpansion R → ℕ
  size_of e = length e.token_ids

  All-elem :
      (es : List (StatementExpansion R)) → All (λ e. elem (size_of e) (map size_of es) ≡ true) es
  unfolding elem
  All-elem [] = tt
  All-elem (e ∷ es) = (
    ground arith,
    All-mono (λ d. elem (size_of d) (map size_of es) ≡ true)
        (λ d. elem (size_of d) (map size_of (e ∷ es)) ≡ true) es (λ d h. ground arith)
        (All-elem es),
  )

  buckets-keys :
      (es : List (StatementExpansion R))
      → All (λ e. count (size_of e) (keys (buckets_of es)) ≡ 1) es
  unfolding elem count
  buckets-keys es =
      All-mono (λ e. elem (size_of e) (map size_of es) ≡ true)
        (λ e. count (size_of e) (keys (buckets_of es)) ≡ 1) es
        (λ e h.
          let once = group_from-Distinct size_of (λ d. d) [] es (λ a. omega arith) (size_of e) in
          let there = elem-keys-group_from size_of (λ d. d) (size_of e) [] es in
          ground (arith, elem-count (size_of e) (keys (buckets_of es))))
        (All-elem es)

  get_list-buckets_of :
      (es : List (StatementExpansion R)) (l : ℕ)
      → get_list l (buckets_of es) ≡ filter (λ e. size_of e == l) es
  unfolding get_list
  get_list-buckets_of es l =
      get_list-group_from size_of (λ e. e) l [] es ∙ map-id (filter (λ e. size_of e == l) es)

  buckets-lengths :
      (es : List (StatementExpansion R)) (ls : List ℕ)
      → All (λ l. All (λ e. size_of e ≡ l) (get_list l (buckets_of es))) ls
  buckets-lengths es [] = tt
  buckets-lengths es (l ∷ ls) = (
    subst (All (λ e. size_of e ≡ l)) (sym (get_list-buckets_of es l))
        (All-filter (λ e. size_of e ≡ l) (λ e. size_of e == l) es (λ e h. ground arith)),
    buckets-lengths es ls,
  )

  buckets-total :
      (f : StatementExpansion R → ℕ) (es : List (StatementExpansion R)) (ls : List ℕ)
      → sum_by (λ l. sum_by f (get_list l (buckets_of es))) ls ≡ by_key f size_of es ls
  unfolding sum_by
  buckets-total f es [] = refl
  buckets-total f es (l ∷ ls) =
      ap (λ b. sum_by f b + sum_by (λ l. sum_by f (get_list l (buckets_of es))) ls)
        (get_list-buckets_of es l)
      ∙ ap (λ n. sum_by f (filter (λ e. size_of e == l) es) + n) (buckets-total f es ls)

module _ {R G : Type 0} (shuffle : (A : Type 0) → G → List A → List A × G)
    (fair : Shuffles shuffle) where
  batches_from-IsBatch :
      (size : ℕ) (buckets : List (ℕ × List (StatementExpansion R))) (g : G) (ls : List ℕ)
      → 1 ≤ size
      → All (λ l. All (λ e. length e.token_ids ≡ l) (get_list l buckets)) ls
      → ((f : StatementExpansion R → ℕ)
          → sum_by (sum_by f) (batches_from shuffle size buckets g ls).0
            ≡ sum_by (λ l. sum_by f (get_list l buckets)) ls)
        × All (IsBatch size) (batches_from shuffle size buckets g ls).0
  unfolding batches_from chunks sum_by
  batches_from-IsBatch size buckets g [] h a = ((λ f. refl), tt)
  batches_from-IsBatch size buckets g (l ∷ ls) h (at, a) =
      let bucket = get_list l buckets in
      let (totals, keeps) = fair (StatementExpansion R) g bucket in
      let (mixed, after) = shuffle (StatementExpansion R) g bucket in
      let (whole, cut) =
        chunks_fuel-whole (λ e. length e.token_ids ≡ l) (length mixed) size mixed h (omega arith)
          (keeps (λ e. length e.token_ids ≡ l) at) in
      let (sums, are) = batches_from-IsBatch size buckets after ls h a in
      let made = chunks_fuel (length mixed) size mixed in
      let rest = (batches_from shuffle size buckets after ls).0 in
      (
        (λ f. omega (arith, sum_by-append (sum_by f) made rest, whole f, totals f, sums f)),
        All-append (IsBatch size) made rest
            (All-mono _ (IsBatch size) made (λ b c. (c.0, c.1, l, c.2)) cut) are,
      )

  -- For a positive batch size the batches are the given expansions, cut and mixed: no total over
  -- the expansions changes, so that each stands in the batches as often as before; and each batch
  -- has at least one and at most `batch_size` expansions, all with the same number of tokens.
  pub statement_primer_batches-IsBatch :
      (expansions : List (StatementExpansion R)) (batch_size : ℕ) (g : G)
      → 1 ≤ batch_size
      → (batches : List (List (StatementExpansion R))) × (statement_primer_batches shuffle
            expansions batch_size g
          ≡ ok batches)
        × ((f : StatementExpansion R → ℕ) → sum_by (sum_by f) batches ≡ sum_by f expansions)
        × All (IsBatch batch_size) batches
  unfolding statement_primer_batches
  statement_primer_batches-IsBatch es size g h =
      let buckets = buckets_of es in
      let ls = sort ltb (keys buckets) in
      let (sums, are) = batches_from-IsBatch size buckets g ls h (buckets-lengths es ls) in
      let made = batches_from shuffle size buckets g ls in
      let (totals, keeps) = fair (List (StatementExpansion R)) made.1 made.0 in
      let positive : (size == 0) ≡ false = ground arith in
      (
        (shuffle (List (StatementExpansion R)) made.1 made.0).0,
        rw positive refl,
        (λ f.
            totals (sum_by f)
            ∙ sums f
            ∙ sum_by-sort ltb (λ l. sum_by f (get_list l buckets)) (keys buckets)
            ∙ buckets-total f es (keys buckets)
            ∙ by_key-whole f size_of (keys buckets) es (buckets-keys es)),
        keeps (IsBatch size) are,
      )
