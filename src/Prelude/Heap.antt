-- ===== src/Prelude/Heap.antt =====
-- Objects behind pointers: a heap of one type is a function from addresses.
use Prim.Native.Nat.{ℕ}
use mathlib.Core.Path.{◌≡◌}
use mathlib.Core.Logic.{◌≢◌}
use native.Mathlib.Omega.{arith}
use spoon_microkernel.Prelude.Tests.{◌==◌, if◌then◌else◌}

module _ {ℓ} {A : Type ℓ} where
  -- A write through the pointer `p`.
  abbrev pub update : (ℕ → A) → ℕ → A → ℕ → A
  update f p a q = if p == q then a else f q

  pub update_self : (f : ℕ → A) (p : ℕ) (a : A) → update f p a p ≡ a
  update_self f p a = ground arith

  pub update_ne : (f : ℕ → A) {p q : ℕ} (a : A) → p ≢ q → update f p a q ≡ f q
  update_ne f a h = ground arith
