-- ===== src/Release/Laws.antt =====
-- What is left of a port and of its thread's list of ports after a release.
use spoon_microkernel.Prelude.{
  ℕ, ◌<◌, ◌≡◌, ◌≢◌, refl, ap, ◌∙◌, Bool, true, false, some, List, [], ◌∷◌, if◌then◌else◌,
  update_self, Returns, Bool-cases, inl, inr,
}
use spoon_microkernel.Prelude.Int.{ℤ, pos, minus_one, ◌==ℤ◌}
use spoon_microkernel.Aqueue.{Aqueue}
use spoon_microkernel.Kernel.{Kernel, Message, Pulse}
use spoon_microkernel.Ports.{max_ports, block, free_block}
use spoon_microkernel.Ports.Blocks.{HasPorts, block-set_block, block-set_block_ne}
use spoon_microkernel.Release.{unclaim, close_port}

-- The ports that a list names: its entries before the first -1.
abbrev pub listed : List ℤ → List ℤ
listed [] = []
listed (x ∷ ports) = if x ==ℤ minus_one then [] else x ∷ listed ports

-- A list of ports without the first entry for `port`.
abbrev pub without : ℤ → List ℤ → List ℤ
without port [] = []
without port (x ∷ ports) = if x ==ℤ port then ports else x ∷ without port ports

-- The value that the first entry of a list takes when it is shifted.
abbrev shifted : (port : ℤ) → List ℤ → List ℤ
shifted port [] = minus_one ∷ []
shifted port (y ∷ ports) = y ∷ unclaim port true (y ∷ ports)

-- One round of the loop, with `found` as it is then.
abbrev pass : (port x : ℤ) (found : Bool) → List ℤ → List ℤ
pass port x found ports =
    let rest = unclaim port found ports in
    if found then elim ports [ [] ↦ minus_one ∷ [] | y ∷ _ ↦ y ∷ rest ] else x ∷ rest

unclaim_step :
    (port x : ℤ) (found : Bool) (ports : List ℤ)
    → unclaim port found (x ∷ ports) ≡ (
        if x ==ℤ minus_one
        then x ∷ ports
        else pass port x (if x ==ℤ port then true else found) ports)
unfolding unclaim
unclaim_step port x found ports = refl

pass-true : (port x : ℤ) (ports : List ℤ) → pass port x true ports ≡ shifted port ports
pass-true port x [] = refl
pass-true port x (y ∷ ports) = refl

unclaim_found :
    (port x : ℤ) (found : Bool) (ports : List ℤ)
    → (x ==ℤ minus_one) ≡ false
    → (if x ==ℤ port then true else found) ≡ true
    → unclaim port found (x ∷ ports) ≡ shifted port ports
unclaim_found port x found ports used now =
    unclaim_step port x found ports
    ∙ ap (λ b. if b then x ∷ ports else pass port x (if x ==ℤ port then true else found) ports) used
    ∙ ap (λ b. pass port x b ports) now
    ∙ pass-true port x ports

unclaim_ends :
    (port x : ℤ) (found : Bool) (ports : List ℤ)
    → (x ==ℤ minus_one) ≡ true
    → unclaim port found (x ∷ ports) ≡ x ∷ ports
unfolding unclaim
unclaim_ends port x found ports end = rw (end, unclaim) refl

unclaim_keeps :
    (port x : ℤ) (ports : List ℤ)
    → (x ==ℤ minus_one) ≡ false
    → (x ==ℤ port) ≡ false
    → unclaim port false (x ∷ ports) ≡ x ∷ unclaim port false ports
unfolding unclaim
unclaim_keeps port x ports used other = rw (used, unclaim) (rw other refl)

found_stays : (b : Bool) → (if b then true else true) ≡ true
found_stays true = refl
found_stays false = refl

-- Once the port was met every entry takes the value of the next.
listed-shifted : (port : ℤ) (ports : List ℤ) → listed (shifted port ports) ≡ listed ports
listed-shifted port [] = refl
listed-shifted port (y ∷ ports) = elim (Bool-cases (y ==ℤ minus_one)) [
  | inl end ↦ rw end refl
  | inr more ↦ rw more (
      ap (λ l. y ∷ l)
        (ap listed (unclaim_found port y true ports more (found_stays (y ==ℤ port)))
          ∙ listed-shifted port ports))
]

-- After the release of a port its thread's list names the other ports, in the same order.
pub listed-unclaim :
    (port : ℤ) (ports : List ℤ) → listed (unclaim port false ports) ≡ without port (listed ports)
unfolding unclaim
listed-unclaim port [] = refl
listed-unclaim port (x ∷ ports) = elim (Bool-cases (x ==ℤ minus_one)) [
  | inl end ↦ rw (unclaim_ends port x false ports end, end) refl
  | inr used ↦ elim (Bool-cases (x ==ℤ port)) [
    | inl here ↦
        rw (unclaim_found port x false ports used (rw here refl), used, here)
          (listed-shifted port ports)
    | inr there ↦
        rw (unclaim_keeps port x ports used there, used, there)
          (ap (λ l. x ∷ l) (listed-unclaim port ports))
  ]
]

-- Closing a port that has both its queues frees its block, leaves the blocks of all other ports, and takes the port from the
-- list of the thread that owned it.
pub close_port_lem :
    (k : Kernel) (proc i tr : ℕ) (port : ℤ) (pulses : Aqueue Pulse) (messages : Aqueue Message)
    → HasPorts k proc
    → i < max_ports
    → (block k proc i).pulse_q ≡ some pulses
    → (block k proc i).message_q ≡ some messages
    → Returns (close_port proc i (some tr) port k) (λ r.
      (r.0 ≡ pos 0)
      × (block r.1 proc i ≡ free_block)
      × ((j : ℕ) → i ≢ j → block r.1 proc j ≡ block k proc j)
      × (listed (r.1.thread tr).ports ≡ without port (listed (k.thread tr).ports)))
unfolding close_port
close_port_lem k proc i tr port pulses messages h lt p m =
    rw (p, m)
      (
        refl,
        block-set_block k proc i free_block h lt,
        (λ j ne. block-set_block_ne k proc i j free_block ne),
        ap (λ t. listed t.ports)
              (update_self k.thread tr
                (record (k.thread tr) { ports = unclaim port false (k.thread tr).ports }))
            ∙ listed-unclaim port (k.thread tr).ports,
      )
