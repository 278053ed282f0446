-- ===== src/Ports/Blocks.antt =====
-- Reading a port's block after a write to one.
use spoon_microkernel.Prelude.{
  ℕ, zero, suc, ◌<◌, ◌≡◌, ◌≢◌, refl, ap, List, [], ◌∷◌, length, get_or, set, length-set, arith,
}
use spoon_microkernel.Kernel.{Kernel, IpcBlock}
use spoon_microkernel.Ports.{max_ports, block, set_block, free_block}

module _ {ℓ} {A : Type ℓ} where
  pub get_or-set_self :
      (xs : List A) (i : ℕ) (v d : A) → i < length xs → get_or (set xs i v) i d ≡ v
  get_or-set_self [] i v d h = absurd (omega arith)
  get_or-set_self (x ∷ xs) zero v d h = refl
  get_or-set_self (x ∷ xs) (suc i) v d h = get_or-set_self xs i v d (omega arith)

  pub get_or-set_ne :
      (xs : List A) (i j : ℕ) (v d : A) → i ≢ j → get_or (set xs i v) j d ≡ get_or xs j d
  get_or-set_ne [] i j v d h = refl
  get_or-set_ne (x ∷ xs) zero zero v d h = absurd (h refl)
  get_or-set_ne (x ∷ xs) zero (suc j) v d h = refl
  get_or-set_ne (x ∷ xs) (suc i) zero v d h = refl
  get_or-set_ne (x ∷ xs) (suc i) (suc j) v d h = get_or-set_ne xs i j v d (λ e. h (ap suc e))

  pub set-set : (xs : List A) (i : ℕ) (v w : A) → set (set xs i v) i w ≡ set xs i w
  set-set [] i v w = refl
  set-set (x ∷ xs) zero v w = refl
  set-set (x ∷ xs) (suc i) v w = ap (λ l. x ∷ l) (set-set xs i v w)

-- Every process has all its ports.
abbrev pub HasPorts : Kernel → ℕ → Type 0
HasPorts k proc = length (k.proc proc).ipc ≡ max_ports

pub block-set_block :
    (k : Kernel) (proc i : ℕ) (b : IpcBlock)
    → HasPorts k proc
    → i < max_ports
    → block (set_block k proc i b) proc i ≡ b
block-set_block k proc i b h lt = ground (arith, get_or-set_self (k.proc proc).ipc i b free_block)

pub block-set_block_ne :
    (k : Kernel) (proc i j : ℕ) (b : IpcBlock)
    → i ≢ j
    → block (set_block k proc i b) proc j ≡ block k proc j
block-set_block_ne k proc i j b ne =
    ground (arith, get_or-set_ne (k.proc proc).ipc i j b free_block ne)

pub block-set_block_other :
    (k : Kernel) (proc other i j : ℕ) (b : IpcBlock)
    → proc ≢ other
    → block (set_block k proc i b) other j ≡ block k other j
block-set_block_other k proc other i j b ne = ground arith

pub HasPorts-set_block :
    (k : Kernel) (proc i : ℕ) (b : IpcBlock)
    → HasPorts k proc
    → HasPorts (set_block k proc i b) proc
HasPorts-set_block k proc i b h = ground (arith, length-set (k.proc proc).ipc i b)
