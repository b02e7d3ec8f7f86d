-- ===== src/Binding/Owner.antt =====
-- The objects of bindings/python/ztok/__init__.py that own a handle of the native library: what they
-- keep, and what they hand out for a call.
use ztok.Common.{ℕ, Option, none, some, Result, ok, err, ztok_base_error}

-- An object with its handle, `None` once it is closed, and the handle that its finalizer frees as
-- long as it is alive.
pub record Wrapper : Type 0 where
  pub handle : Option ℕ
  pub finalizer : Option ℕ

-- `_raw`
unfoldable pub raw : Wrapper → Result ℕ
raw w = elim w.handle [ none ↦ err (ztok_base_error "closed") | some h ↦ ok h ]
