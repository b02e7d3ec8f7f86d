-- ===== src/Pipeline/Overlays.antt =====
-- Overlays are aligned with the ids.
use ztok.Common.{
  ℕ, suc, ◌≡◌, refl, ap, sym, ◌∙◌, subst, not, ◌&&◌, List, [], ◌∷◌, Option, none, some, ok,
  ztok_error, ◌==◌, length, map, range, min, All, inl, inr, length-map, length-range_from,
  >>=-eq-ok, raise_if-eq-ok, ok-injective, if-eq-ok,
}
use ztok.Common.Counting.{has_duplicate, Distinct, has_duplicate-Distinct}
use ztok.Binding.Fixed.{raise_for_status, status_ok, status_buffer_too_small}
use ztok.Binding.Owner.{Wrapper, raw}
use ztok.Pipeline.Calls.{Bytes, Buffer, OverlayAnswer, contents, overlays_of, encode_with_overlays}

length-contents :
    (buffer : Buffer) (cap out_len : ℕ) → length (contents buffer cap out_len) ≡ min out_len cap
unfolding contents range
length-contents buffer cap out_len =
    length-map (range (min out_len cap)) buffer ∙ length-range_from 0 (min out_len cap)

abbrev pub kind_of : ℕ × List ℕ → ℕ
kind_of o = o.0

-- A list of values per token for each kind.
abbrev pub IsAligned : List ℕ → List ℕ × List (ℕ × List ℕ) → Type 0
IsAligned kinds (ids, overlays) =
    (map kind_of overlays ≡ kinds) × All (λ o. length o.1 ≡ length ids) overlays × Distinct kinds

overlays_of-aligned :
    (bufs : ℕ → Buffer) (cap out_len i : ℕ) (kinds ids : List ℕ)
    → Distinct kinds
    → length ids ≡ min out_len cap
    → IsAligned kinds (ids, overlays_of bufs cap out_len i kinds)
unfolding overlays_of
overlays_of-aligned bufs cap out_len i kinds ids d h = (keys i kinds, lengths i kinds, d)
  where
    keys : (i : ℕ) (kinds : List ℕ) → map kind_of (overlays_of bufs cap out_len i kinds) ≡ kinds
    keys i [] = refl
    keys i (k ∷ kinds) = ap (λ ks. k ∷ ks) (keys (suc i) kinds)

    lengths :
        (i : ℕ) (kinds : List ℕ)
        → All (λ o. length o.1 ≡ length ids) (overlays_of bufs cap out_len i kinds)
    lengths i [] = tt
    lengths i (k ∷ kinds) = (length-contents (bufs i) cap out_len ∙ sym h, lengths (suc i) kinds)

none-aligned : (kinds : List ℕ) → Distinct kinds → IsAligned kinds ([], map (λ k. (k, [])) kinds)
none-aligned kinds d = (keys kinds, lengths kinds, d)
  where
    keys : (kinds : List ℕ) → map kind_of (map (λ k. (k, [])) kinds) ≡ kinds
    keys [] = refl
    keys (k ∷ kinds) = ap (λ ks. k ∷ ks) (keys kinds)

    lengths : (kinds : List ℕ) → All (λ (o : ℕ × List ℕ). length o.1 ≡ 0) (map (λ k. (k, [])) kinds)
    lengths [] = tt
    lengths (k ∷ kinds) = (refl, lengths kinds)

module _ (call : ℕ → Bytes → List ℕ → Option ℕ → OverlayAnswer) where
  -- What is returned with overlays is aligned, whatever the library answers: the requested kinds,
  -- which are distinct, in their order, each with a value for each id.
  pub encode_with_overlays-IsAligned :
      (pipe : Wrapper) (text : Bytes) (kinds : List ℕ) {result : List ℕ × List (ℕ × List ℕ)}
      → encode_with_overlays call pipe text kinds ≡ ok result
      → IsAligned kinds result
  unfolding encode_with_overlays
  encode_with_overlays-IsAligned pipe text kinds {result} e =
      let (handle, opened, e₁) = >>=-eq-ok (raw pipe) _ e in
      let (new, e₂) = raise_if-eq-ok (has_duplicate kinds) (ztok_error 2) _ e₁ in
      let distinct = has_duplicate-Distinct kinds new in
      elim (if-eq-ok (length text == 0) _ _ e₂) [
        | inl (empty, done) ↦
            subst (IsAligned kinds) (ok-injective _ result done) (none-aligned kinds distinct)
        | inr (some_text, e₃) ↦
            let (fine, e₄) =
              raise_if-eq-ok
                (not ((call handle text kinds none).0 == status_ok)
                  && not ((call handle text kinds none).0 == status_buffer_too_small))
                _ _ e₃ in
            elim (if-eq-ok ((call handle text kinds none).1 == 0) _ _ e₄) [
              | inl (empty, done) ↦
                  subst (IsAligned kinds) (ok-injective _ result done) (none-aligned kinds distinct)
              | inr (some_ids, e₅) ↦
                  let cap = (call handle text kinds none).1 in
                  let answer = call handle text kinds (some cap) in
                  let (t, filled, done) = >>=-eq-ok (raise_for_status answer.0) _ e₅ in
                  subst (IsAligned kinds) (ok-injective _ result done) (
                    overlays_of-aligned answer.3 cap answer.1 0 kinds
                      (contents answer.2 cap answer.1) distinct
                      (length-contents answer.2 cap answer.1))
            ]
      ]
