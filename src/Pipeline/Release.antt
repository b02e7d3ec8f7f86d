-- ===== src/Pipeline/Release.antt =====
-- Every buffer that the library hands out is given back, on every path.
use ztok.Common.{
  ℕ, ◌≡◌, refl, ap, sym, ◌∙◌, Bool, true, false, List, [], ◌∷◌, ◌++◌, Option, none, some, Result,
  ok, err, Error, ◌==◌, if◌then◌else◌, length, range, arith, >>=-eq-ok, ok-injective, length-map,
  length-range_from,
}
use ztok.Binding.Fixed.{raise_for_status, free}
use ztok.Binding.Handles.{free-head}
use ztok.Binding.Owner.{Wrapper, raw}
use ztok.Pipeline.Calls.{Bytes}
use ztok.Pipeline.Buffers.{
  Slot, Outcome, BatchAnswer, values_of, release, finish_batch, encode_batch,
}

-- The buffers of the entries, those that are not `NULL`.
abbrev pub pointers : (ℕ → Slot) → List ℕ → List ℕ
pointers outs [] = []
pointers outs (i ∷ is) = elim (outs i).ptr [
  | none ↦ pointers outs is
  | some p ↦ p ∷ pointers outs is
]

pub release-pointers :
    (outs : ℕ → Slot) (is live : List ℕ) → release outs is (pointers outs is ++ live) ≡ live
unfolding release
release-pointers outs [] live = refl
release-pointers outs (i ∷ is) live = go (outs i).ptr (release-pointers outs is live)
  where
    go :
        (p : Option ℕ)
        → release outs is (pointers outs is ++ live) ≡ live
        → release outs is (elim p as (λ p. List ℕ) [
          | none ↦
              (elim p as (λ p. List ℕ) [ none ↦ pointers outs is | some q ↦ q ∷ pointers outs is ])
              ++ live
          | some q ↦ free q (
              (elim p as (λ p. List ℕ) [ none ↦ pointers outs is | some r ↦ r ∷ pointers outs is ])
              ++ live)
        ])
          ≡ live
    go none h = h
    go (some q) h = ap (release outs is) (free-head q (pointers outs is ++ live)) ∙ h

finish_batch-live :
    (n : ℕ) (a : BatchAnswer) (live : List ℕ)
    → a.live ≡ pointers a.outs (range n) ++ live
    → (finish_batch n a).1 ≡ live
unfolding finish_batch
finish_batch-live n a live h =
    ap (release a.outs (range n)) h ∙ release-pointers a.outs (range n) live

finish_batch-length :
    (n : ℕ) (a : BatchAnswer) {rs : List (List ℕ)} → (finish_batch n a).0 ≡ ok rs → length rs ≡ n
unfolding finish_batch range
finish_batch-length n a {rs} e =
    let (t, fine, done) = >>=-eq-ok (raise_for_status a.status) _ e in
    ap length (sym (ok-injective _ rs done))
    ∙ length-map (range n) (λ i. values_of a.memory (a.outs i))
    ∙ length-range_from 0 n

-- The batch call hands out its non-`NULL` entries, whatever its status.
abbrev pub HandsOut : (ℕ → ℕ → List Bytes → List ℕ → BatchAnswer) → Type 0
HandsOut call =
    (handle pool : ℕ) (inputs : List Bytes) (live : List ℕ)
    → (call handle pool inputs live).live
      ≡ pointers (call handle pool inputs live).outs (range (length inputs)) ++ live

-- A batch that is encoded has a result for each input.
abbrev pub IsBatch : ℕ → List ℕ → Outcome (List (List ℕ)) → Type 0
IsBatch n live outcome =
    (outcome.1 ≡ live) × ((rs : List (List ℕ)) → outcome.0 ≡ ok rs → length rs ≡ n)

finish_batch-IsBatch :
    (n : ℕ) (a : BatchAnswer) (live : List ℕ)
    → a.live ≡ pointers a.outs (range n) ++ live
    → IsBatch n live (finish_batch n a)
finish_batch-IsBatch n a live h = (finish_batch-live n a live h, λ rs e. finish_batch-length n a e)

refused-IsBatch : (n : ℕ) (live : List ℕ) (e : Error) → IsBatch n live (err e, live)
refused-IsBatch n live e = (refl, λ rs h. cc)

-- Encoding a batch leaves alive exactly the buffers that were alive before, on success and on every
-- error, and on success it has a result for each input, if the library hands out a buffer for
-- each entry that is not `NULL`.
pub encode_batch-IsBatch :
    (call : ℕ → ℕ → List Bytes → List ℕ → BatchAnswer) (pipe pool : Wrapper) (inputs : List Bytes)
    (live : List ℕ)
    → HandsOut call
    → IsBatch (length inputs) live (encode_batch call pipe pool inputs live)
unfolding encode_batch
encode_batch-IsBatch call pipe pool inputs live hands = go (raw pipe) (raw pool)
  where
    empty :
        (n : ℕ) (inputs : List Bytes)
        → (b : Bool) → (b ≡ true → n ≡ 0)
        → (o : Outcome (List (List ℕ))) → IsBatch n live o
        → IsBatch n live (if b then (ok [], live) else o)
    empty n inputs true none_left o h =
        (refl, λ rs e. ap length (sym (ok-injective [] rs e)) ∙ sym (none_left refl))
    empty n inputs false none_left o h = h

    go :
        (p q : Result ℕ)
        → IsBatch (length inputs) live (elim p as (λ p. Outcome (List (List ℕ))) [
          | err e ↦ (err e, live)
          | ok handle ↦ elim q as (λ q. Outcome (List (List ℕ))) [
            | err e ↦ (err e, live)
            | ok pool_handle ↦
                if length inputs == 0
                then (ok [], live)
                else finish_batch (length inputs) (call handle pool_handle inputs live)
          ]
        ])
    go (err e) q = refused-IsBatch (length inputs) live e
    go (ok h) (err e) = refused-IsBatch (length inputs) live e
    go (ok h) (ok p) =
        empty (length inputs) inputs (length inputs == 0) (λ z. ground arith) _
          (finish_batch-IsBatch (length inputs) (call h p inputs live) live (hands h p inputs live))
