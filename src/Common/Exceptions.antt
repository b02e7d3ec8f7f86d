-- ===== src/Common/Exceptions.antt =====
-- Python's exceptions as values: a call returns `ok`, or `err` with what it raised.
use Prim.Native.Nat.{ℕ, suc}
use Prim.Native.String.{String}
use mathlib.Core.Path.{◌≡◌, refl, sym, ap, ◌∙◌, subst}
use mathlib.Core.Logic.{◌⊎◌, inl, inr}
use mathlib.Core.Bool.{Bool, true, false}
use mathlib.Core.Option.{Option, none, some}
use mathlib.Core.List.{List, [], ◌∷◌}
use ztok.Common.Lists.{All, length}
use ztok.Common.Tests.{if◌then◌else◌}

-- The text is the constant part of the message.
pub data Error : Type 0 where
  value_error type_error runtime_error assertion_error system_exit ztok_base_error : String → Error
  key_error index_error stop_iteration zero_division struct_error : Error
  ztok_error : ℕ → Error

pub data Result {ℓ} (A : Type ℓ) : Type ℓ where
  ok : A → Result A
  err : Error → Result A

-- What a validation returns.
abbrev pub Check : Type 0
Check = Result (Unit {0})

infixl 5 ◌>>=◌
-- What follows a call that may raise.
abbrev pub ◌>>=◌ {ℓ κ} : {B : Type κ} {A : Type ℓ} → Result A → (A → Result B) → Result B
err raised >>= next = err raised
ok value >>= next = next value

-- `if test: raise e`
abbrev pub raise_if : Bool → Error → Check
raise_if true e = err e
raise_if false e = ok tt

infixl 5 ◌>>◌
-- What follows a check.
abbrev pub ◌>>◌ {ℓ} : {B : Type ℓ} → Check → Result B → Result B
check >> next = check >>= λ _. next

-- The value of an optional, or what its absence raises.
abbrev pub or_raise {ℓ} : {A : Type ℓ} → Option A → Error → Result A
or_raise none e = err e
or_raise (some a) e = ok a

-- A comprehension whose body may raise.
unfoldable pub map_result {ℓ κ} :
    {A : Type ℓ} {B : Type κ} → (A → Result B) → List A → Result (List B)
map_result f [] = ok []
map_result f (x ∷ xs) = f x >>= λ y. map_result f xs >>= λ ys. ok (y ∷ ys)

-- A loop over a list whose body may raise.
unfoldable pub fold_result {ℓ κ} :
    {A : Type ℓ} {S : Type κ} → (S → A → Result S) → S → List A → Result S
fold_result f s [] = ok s
fold_result f s (x ∷ xs) = f s x >>= λ s'. fold_result f s' xs

-- A loop whose body only checks.
unfoldable pub for_each {ℓ} : {A : Type ℓ} → (A → Check) → List A → Check
for_each body [] = ok tt
for_each body (x ∷ xs) = body x >> for_each body xs

-- A chain that returned: its first part returned a value, and the rest did on that value.
pub >>=-eq-ok {ℓ κ} :
    {B : Type κ} {A : Type ℓ} (first : Result A) (rest : A → Result B) {y : B}
    → (first >>= rest) ≡ ok y
    → (x : A) × (first ≡ ok x) × (rest x ≡ ok y)
>>=-eq-ok (err why) rest done = cc
>>=-eq-ok (ok x) rest done = (x, refl, done)

-- Every round of a loop that ended was passed.
pub for_each-All {ℓ} :
    {A : Type ℓ} (body : A → Check) (xs : List A)
    → for_each body xs ≡ ok tt
    → All (λ x. body x ≡ ok tt) xs
unfolding for_each
for_each-All body [] h = tt
for_each-All body (x ∷ xs) h =
    let (t, e, rest) = >>=-eq-ok (body x) (λ _. for_each body xs) h in
    (e, for_each-All body xs rest)

pub ok-injective {ℓ} : {A : Type ℓ} (a b : A) → ok a ≡ ok b → a ≡ b
ok-injective a b h = cc

-- A guard that was passed.
pub raise_if-eq-ok {ℓ} :
    {B : Type ℓ} (test : Bool) (e : Error) (k : Result B) {b : B}
    → (raise_if test e >> k) ≡ ok b
    → (test ≡ false) × (k ≡ ok b)
raise_if-eq-ok true e k h = cc
raise_if-eq-ok false e k h = (refl, h)

module _ {ℓ κ μ ν} {A : Type ℓ} {S : Type κ} (f : S → A → Result S) (I : S → Type μ)
    (P : A → Type ν) (step : (s : S) (x : A) → I s → P x → (s' : S) × (f s x ≡ ok s') × I s') where
  -- A loop whose body always succeeds and keeps an invariant does so as a whole.
  pub fold_result_total :
      (s : S) (xs : List A) → I s → All P xs → (s' : S) × (fold_result f s xs ≡ ok s') × I s'
  unfolding fold_result
  fold_result_total s [] i p = (s, refl, i)
  fold_result_total s (x ∷ xs) i p =
      let (s', e, i') = step s x i p.0 in
      let (t, e', j) = fold_result_total s' xs i' p.1 in (t, rw e e', j)

module _ {ℓ κ μ} {A : Type ℓ} {S : Type κ} (f : S → A → Result S) (I : S → Type μ)
    (keep : (s : S) (x : A) (t : S) → I s → f s x ≡ ok t → I t) where
  -- A body that keeps an invariant whenever it succeeds.
  pub fold_result_keeps : (s : S) (xs : List A) {t : S} → I s → fold_result f s xs ≡ ok t → I t
  unfolding fold_result
  fold_result_keeps s [] {t} i e = subst (λ r. Holds r) e i
    where
      Holds : Result S → Type μ
      Holds (ok a) = I a
      Holds (err _) = I s
  fold_result_keeps s (x ∷ xs) i e =
      let (s', e₁, e₂) = >>=-eq-ok (f s x) (λ s'. fold_result f s' xs) e in
      fold_result_keeps s' xs (keep s x s' i e₁) e₂

module _ {ℓ κ μ ν} {A : Type ℓ} {B : Type κ} (f : A → Result B) (Q : A → Type μ) (P : B → Type ν)
    (step : (x : A) → Q x → (y : B) × (f x ≡ ok y) × P y) where
  -- A comprehension whose body always succeeds.
  pub map_result_total :
      (xs : List A) → All Q xs → (ys : List B) × (map_result f xs ≡ ok ys) × All P ys
  unfolding map_result
  map_result_total [] q = ([], refl, tt)
  map_result_total (x ∷ xs) q =
      let (y, e, p) = step x q.0 in
      let (ys, e', ps) = map_result_total xs q.1 in (y ∷ ys, rw (e, e') refl, (p, ps))

pub length-map_result {ℓ κ} :
    {A : Type ℓ} {B : Type κ} (f : A → Result B) (xs : List A) {ys : List B}
    → map_result f xs ≡ ok ys
    → length ys ≡ length xs
unfolding map_result
length-map_result f [] {ys} e = ap length (sym (ok-injective [] ys e))
length-map_result f (x ∷ xs) {ys} e =
    let (v, e₁, k) = >>=-eq-ok (f x) _ e in
    let (vs, e₂, done) = >>=-eq-ok (map_result f xs) _ k in
    ap length (sym (ok-injective (v ∷ vs) ys done)) ∙ ap suc (length-map_result f xs e₂)

pub or_raise-eq-ok {ℓ} :
    {A : Type ℓ} (o : Option A) (e : Error) {a : A} → or_raise o e ≡ ok a → o ≡ some a
or_raise-eq-ok none e h = cc
or_raise-eq-ok (some b) e {a} h = ap some (ok-injective b a h)

pub Result-cases {ℓ} :
    {A : Type ℓ} (r : Result A) → ((a : A) × (r ≡ ok a)) ⊎ ((e : Error) × (r ≡ err e))
Result-cases (ok a) = inl (a, refl)
Result-cases (err e) = inr (e, refl)

-- A conditional that returned did so in the branch that the test chose.
pub if-eq-ok {ℓ} :
    {A : Type ℓ} (b : Bool) (x y : Result A) {r : A}
    → (if b then x else y) ≡ ok r
    → ((b ≡ true) × (x ≡ ok r)) ⊎ ((b ≡ false) × (y ≡ ok r))
if-eq-ok true x y e = inl (refl, e)
if-eq-ok false x y e = inr (refl, e)
