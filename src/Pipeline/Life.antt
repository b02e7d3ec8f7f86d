-- ===== src/Pipeline/Life.antt =====
-- The life of an object that owns a handle: closing it, using it, its collection, and what other
-- objects do to the library's handles in the meantime.
use ztok.Common.{
  ℕ, ◌≡◌, ◌≢◌, refl, sym, ◌⊎◌, inl, inr, Bool, true, false, List, [], ◌∷◌, Option, none, some,
  Result, ok, err, arith, ap, ◌∙◌, Bool-cases, ◌==◌, ztok_base_error,
}
use ztok.Common.Counting.{count}
use ztok.Binding.Fixed.{free}
use ztok.Binding.Owner.{Wrapper, raw}
use ztok.Pipeline.{finalize, close, owner}

pub record Life : Type 0 where
  pub wrapper : Wrapper
  pub open_handles : List ℕ
  pub collected : Bool

-- One event. The library's allocator gives a new handle an address that no open handle has, which
-- may be that of a handle that was freed.
pub data Step : Life → Life → Type 0 where
  uses :
      (w : Wrapper) (hs : List ℕ) (h : ℕ)
      → raw w ≡ ok h
      → Step
          (record { wrapper = w; open_handles = hs; collected = false })
          (record { wrapper = w; open_handles = hs; collected = false })
  closes :
      (w : Wrapper) (hs : List ℕ)
      → Step
          (record { wrapper = w; open_handles = hs; collected = false })
          (record { wrapper = (close w hs).0; open_handles = (close w hs).1; collected = false })
  collects :
      (w : Wrapper) (hs : List ℕ)
      → Step
          (record { wrapper = w; open_handles = hs; collected = false })
          (record {
            wrapper = record { handle = w.handle; finalizer = none };
            open_handles = finalize w hs;
            collected = true;
          })
  another_opens :
      (w : Wrapper) (hs : List ℕ) (c : Bool) (k : ℕ)
      → count k hs ≡ 0
      → Step
          (record { wrapper = w; open_handles = hs; collected = c })
          (record { wrapper = w; open_handles = k ∷ hs; collected = c })
  another_closes :
      (w : Wrapper) (hs : List ℕ) (c : Bool) (k : ℕ)
      → w.finalizer ≢ some k
      → Step
          (record { wrapper = w; open_handles = hs; collected = c })
          (record { wrapper = w; open_handles = free k hs; collected = c })

pub data Reaches : Life → Life → Type 0 where
  here : (s : Life) → Reaches s s
  after : (s t u : Life) → Reaches s t → Step t u → Reaches s u

-- The handle is the object's and open as long as the finalizer is alive; after that the object has
-- no handle, or it is gone.
abbrev Owns : Option ℕ → Option ℕ → List ℕ → Bool → Type 0
Owns handle (some h) hs collected = (handle ≡ some h) × (count h hs ≡ 1) × (collected ≡ false)
Owns handle none hs collected = (handle ≡ none) ⊎ (collected ≡ true)

abbrev IsLife : Life → Type 0
IsLife s = Owns s.wrapper.handle s.wrapper.finalizer s.open_handles s.collected

count-free : (k h : ℕ) (hs : List ℕ) → k ≢ h → count h (free k hs) ≡ count h hs
unfolding count free
count-free k h [] d = refl
count-free k h (x ∷ hs) d = ground (arith, count-free k h hs d)

Owns-new :
    (handle f : Option ℕ) (hs : List ℕ) (c : Bool) (k : ℕ)
    → count k hs ≡ 0
    → Owns handle f hs c
    → Owns handle f (k ∷ hs) c
unfolding count
Owns-new handle none hs c k new i = i
Owns-new handle (some h) hs c k new (mine, opened, alive) = (mine, ground arith, alive)

Owns-free :
    (handle f : Option ℕ) (hs : List ℕ) (c : Bool) (k : ℕ)
    → f ≢ some k
    → Owns handle f hs c
    → Owns handle f (free k hs) c
Owns-free handle none hs c k other i = i
Owns-free handle (some h) hs c k other (mine, opened, alive) =
    (mine, count-free k h hs (λ same. other (ap some (sym same))) ∙ opened, alive)

Step-IsLife : (s t : Life) → Step s t → IsLife s → IsLife t
unfolding close
Step-IsLife s t (uses w hs h e) i = i
Step-IsLife s t (closes w hs) i = inl refl
Step-IsLife s t (collects w hs) i = inr refl
Step-IsLife s t (another_opens w hs c k new) i = Owns-new w.handle w.finalizer hs c k new i
Step-IsLife s t (another_closes w hs c k other) i = Owns-free w.handle w.finalizer hs c k other i

Reaches-IsLife : (s t : Life) → Reaches s t → IsLife s → IsLife t
Reaches-IsLife s t (here _) i = i
Reaches-IsLife s t (after _ u _ r step) i = Step-IsLife u t step (Reaches-IsLife s u r i)

-- The state in which a constructor leaves an object.
abbrev pub born : ℕ → List ℕ → Life
born h hs = record { wrapper = owner h; open_handles = h ∷ hs; collected = false }

count-single : (h : ℕ) (hs : List ℕ) → count h hs ≡ 0 → count h (h ∷ hs) ≡ 1
unfolding count
count-single h hs new = ground arith

raw-of :
    (w : Wrapper) (hs : List ℕ) (c : Bool) {k : ℕ}
    → c ≡ false
    → Owns w.handle w.finalizer hs c
    → raw w ≡ ok k
    → count k hs ≡ 1
unfolding raw
raw-of w hs c alive i e = go w.handle w.finalizer i e
  where
    go :
        (handle f : Option ℕ) {k : ℕ}
        → Owns handle f hs c
        → (elim handle as (λ o. Result ℕ) [ none ↦ err (ztok_base_error "closed") | some h ↦ ok h ])
          ≡ ok k
        → count k hs ≡ 1
    go none none i e = cc
    go none (some g) i e = cc
    go (some h) none (inl gone) e = cc
    go (some h) none (inr dead) e = cc
    go (some h) (some g) (mine, opened, live) e = cc

-- Whatever happened since an object was made with a new handle, uses, closings of it and of other
-- objects and handles given anew among them: as long as it is not collected, a handle that it
-- hands out is open, once.
pub raw-open :
    (h : ℕ) (hs : List ℕ) (s : Life) (k : ℕ)
    → count h hs ≡ 0
    → Reaches (born h hs) s
    → s.collected ≡ false
    → raw s.wrapper ≡ ok k
    → count k s.open_handles ≡ 1
raw-open h hs s k new r alive e =
    raw-of s.wrapper s.open_handles s.collected alive
      (Reaches-IsLife (born h hs) s r (refl, count-single h hs new, refl)) e

-- What closing does to the open handles: nothing, if the object holds none any more, or else it
-- frees the object's own.
abbrev pub Frees : Life → List ℕ → Type 0
Frees s left =
    ((s.wrapper.finalizer ≡ none) × (left ≡ s.open_handles))
    ⊎ ((k : ℕ) × (raw s.wrapper ≡ ok k)
        × (count k s.open_handles ≡ 1)
        × (count k left ≡ 0)
        × ((a : ℕ) → (a ≡ k) ⊎ (count a left ≡ count a s.open_handles)))

count-free-same : (k : ℕ) (hs : List ℕ) → count k hs ≡ 1 → count k (free k hs) ≡ 0
unfolding count free
count-free-same k [] one = cc
count-free-same k (x ∷ hs) one = ground (arith, count-free-same k hs)

-- Closing an object in any state that it reached after it was made with a new handle: either it
-- holds no handle any more and the open handles stay as they are, or the handle that it hands out
-- was open, once, is not open afterwards, and every other handle is as open as before. Once closed
-- it hands out no handle, and closing it again frees nothing.
pub close-once :
    (h : ℕ) (hs : List ℕ) (s : Life)
    → count h hs ≡ 0
    → Reaches (born h hs) s
    → Frees s (close s.wrapper s.open_handles).1
      × (raw (close s.wrapper s.open_handles).0 ≡ err (ztok_base_error "closed"))
      × ((more : List ℕ) → (close (close s.wrapper s.open_handles).0 more).1 ≡ more)
unfolding raw close finalize
close-once h hs s new r = (
  held s.wrapper.finalizer refl
      (Reaches-IsLife (born h hs) s r (refl, count-single h hs new, refl)),
  refl,
  λ more. refl,
)
  where
    held :
        (f : Option ℕ)
        → s.wrapper.finalizer ≡ f
        → Owns s.wrapper.handle f s.open_handles s.collected
        → Frees s (elim f [ none ↦ s.open_handles | some k ↦ free k s.open_handles ])
    held none gone i = inl (gone, refl)
    held (some k) alive (mine, opened, live) =
        inr (k, rw mine refl, opened, count-free-same k s.open_handles opened, λ a. others a)
      where
        others : (a : ℕ) → (a ≡ k) ⊎ (count a (free k s.open_handles) ≡ count a s.open_handles)
        others a = elim (Bool-cases (k == a)) [
          | inl same ↦ inl (ground arith)
          | inr other ↦ inr (count-free k a s.open_handles (ground arith))
        ]
