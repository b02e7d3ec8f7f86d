-- ===== src/Binding/Handles.antt =====
-- A plan of the native library is read whole, and its handle is given back.
use ztok.Common.{
  ℕ, ◌≡◌, refl, ap, ◌∙◌, List, ◌∷◌, Option, none, some, String, Result, ok, err, arith,
}
use ztok.Binding.Owner.{Wrapper, raw}
use ztok.Binding.Fixed.{
  FixedSuperpositionConfig, FixedConfig, as_c, SuperpositionPlan, raise_for_status, status_ok,
  Library, free, finish, build_fixed_plan,
}

-- What a call of the encoder did to the open handles.
abbrev pub Opened : ℕ → Option ℕ → List ℕ → List ℕ → Type 0
Opened status none hs after = after ≡ hs
Opened status (some h) hs after = (status ≡ status_ok) × (after ≡ (h ∷ hs))

-- On success the library's encoder opens a handle, and otherwise it opens none.
abbrev pub OpensOnSuccess : {R : Type 0} → Library R → Type 0
OpensOnSuccess lib =
    (p : ℕ) (text : String) (c : FixedConfig) (hs : List ℕ)
    → Opened (lib.encode p text c hs).0 (lib.encode p text c hs).1 hs (lib.encode p text c hs).2

pub free-head : (h : ℕ) (hs : List ℕ) → free h (h ∷ hs) ≡ hs
unfolding free
free-head h hs = ground arith

module _ {R : Type 0} (lib : Library R) where
  finish-handles :
      (status : ℕ) (handle : Option ℕ) (hs after : List ℕ)
      → Opened status handle hs after
      → (finish lib status handle after).1 ≡ hs
  unfolding finish raise_for_status
  finish-handles status none hs after h = ground arith
  finish-handles status (some k) hs after (fine, opened) =
      rw fine (ap (free k) opened ∙ free-head k hs)

  -- Whatever happens, on success and on every error, a configuration that is refused and a pipeline
  -- that is closed among them, building a fixed plan leaves open exactly the handles that were open
  -- before, if the library's encoder opens one on success only.
  pub build_fixed_plan-handles :
      OpensOnSuccess lib
      → (pipeline : Wrapper) (text : String) (config : FixedSuperpositionConfig) (hs : List ℕ)
      → (build_fixed_plan lib pipeline text config hs).1 ≡ hs
  unfolding build_fixed_plan
  build_fixed_plan-handles opens pipeline text config hs = go (as_c config) (raw pipeline)
    where
      go :
          (r : Result FixedConfig) (p : Result ℕ)
          → (elim r as (λ r. Result (SuperpositionPlan R) × List ℕ) [
            | err e ↦ (err e, hs)
            | ok c ↦ elim p as (λ p. Result (SuperpositionPlan R) × List ℕ) [
              | err e ↦ (err e, hs)
              | ok k ↦
                  finish lib
                    (lib.encode k text c hs).0
                    (lib.encode k text c hs).1
                    (lib.encode k text c hs).2
            ]
          ]).1
            ≡ hs
      go (err e) p = refl
      go (ok c) (err e) = refl
      go (ok c) (ok k) =
          finish-handles (lib.encode k text c hs).0 (lib.encode k text c hs).1 hs
            (lib.encode k text c hs).2 (opens k text c hs)
