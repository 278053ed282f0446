-- ===== src/Messages/Mailboxes.antt =====
-- The messages that wait in the ports of a process, as one list for each port.
use spoon_microkernel.Prelude.{
  ℕ, ◌<◌, ◌≡◌, refl, ap, ◌∙◌, sym, false, some, List, [], ◌∷◌, ltb, ltb→lt, drop, update,
  update_self, update_ne, Returns, Bool-cases, inl, inr,
}
use mathlib.Core.Bool.{true≢false}
use native.Mathlib.Decide.{ℕ_discrete}
use mathlib.Core.List.{map, head?}
use spoon_microkernel.Prelude.Int.{ℤ, pos, negsuc}
use spoon_microkernel.Aqueue.{Aqueue, pull}
use spoon_microkernel.Aqueue.Inv.{IsValid}
use spoon_microkernel.Aqueue.Fifo.{contents}
use spoon_microkernel.Aqueue.Pull.{uncons, pull_refines, pull-IsValid}
use spoon_microkernel.Kernel.{Kernel, Message}
use spoon_microkernel.Ports.{max_ports, port_flags, block}
use spoon_microkernel.Ports.Blocks.{
  HasPorts, HasPorts-set_block, block-set_block, block-set_block_ne,
}
use spoon_microkernel.Messages.{is_masked, with_messages, take_message}
use spoon_microkernel.Messages.Send.{Waiting, OnlyMessages, with_messages-OnlyMessages}

-- Every port that is open and not masked holds the messages of its list, oldest first.
pub record Mailboxes (k : Kernel) (proc : ℕ) (boxes : ℕ → List Message) : Type 0 where
  pub all_ports : HasPorts k proc
  pub holds : (i : ℕ) → is_masked k proc (pos i) ≡ false → Waiting k proc i (map some (boxes i))

-- A number that is not masked is that of a port.
pub unmasked_lt : (k : Kernel) (proc i : ℕ) → is_masked k proc (pos i) ≡ false → i < max_ports
unfolding port_flags
unmasked_lt k proc i e = elim (Bool-cases (ltb i max_ports)) [
  | inl lt ↦ ltb→lt i max_ports lt
  | inr out ↦ absurd (true≢false (rw (out, port_flags) at e))
]

pub take_message_at :
    (k : Kernel) (proc i : ℕ) (q : Aqueue Message)
    → (block k proc i).message_q ≡ some q
    → take_message proc i k ≡ some ((pull q).0, with_messages k proc i (pull q).1)
unfolding take_message
take_message_at k proc i q held = rw (held, take_message) refl

same_owner :
    {k k' : Kernel} {proc i : ℕ}
    → OnlyMessages proc i k k'
    → (j : ℕ)
    → ((block k' proc j).tid ≡ (block k proc j).tid)
      × ((block k' proc j).flags ≡ (block k proc j).flags)
same_owner {k} {k'} {proc} {i} o j = elim (ℕ_discrete i j) [
  | yes here ↦ rw (sym here) (o.same_tid, o.same_flags)
  | no there ↦ (ap (λ b. b.tid) (o.elsewhere j there), ap (λ b. b.flags) (o.elsewhere j there))
]

-- What is masked does not depend on the messages.
pub is_masked-OnlyMessages :
    {k k' : Kernel} {proc i : ℕ} (port : ℤ)
    → OnlyMessages proc i k k'
    → is_masked k' proc port ≡ is_masked k proc port
unfolding port_flags
is_masked-OnlyMessages (negsuc n) o = refl
is_masked-OnlyMessages {k} {k'} {proc} {i} (pos j) o =
    let (tids, flags) = same_owner o j in
    elim (Bool-cases (ltb j max_ports)) [
      | inl lt ↦ rw (lt, port_flags) (rw (tids, flags) refl)
      | inr out ↦ rw (out, port_flags) refl
    ]

uncons_box : (l : List Message) → (uncons (map some l)).0 ≡ head? l
uncons_box [] = refl
uncons_box (m ∷ l) = refl

uncons_rest : (l : List Message) → (uncons (map some l)).1 ≡ map some (drop 1 l)
uncons_rest [] = refl
uncons_rest (m ∷ l) = refl

-- Taking from a port leaves the other ports' messages and takes the first of its own.
module _ {k : Kernel} {proc : ℕ} {boxes : ℕ → List Message} (b : Mailboxes k proc boxes) where
  open b use {all_ports, holds}

  -- The lists after those of port `i` become `l`.
  pub Mailboxes-with_messages :
      (i : ℕ) (l : List Message) (q : Aqueue Message)
      → i < max_ports
      → IsValid q
      → contents q ≡ map some l
      → Mailboxes (with_messages k proc i q) proc (update boxes i l)
  Mailboxes-with_messages i l q lt v e = record {
    all_ports =
        HasPorts-set_block k proc i (record (block k proc i) { message_q = some q }) all_ports;
    holds = λ j open_port. elim (ℕ_discrete i j) [
      | yes here ↦
          rw (sym here, update_self boxes i l)
            (
              q,
              ap (λ c. c.message_q)
                  (block-set_block k proc i (record (block k proc i) { message_q = some q })
                    all_ports lt),
              v,
              e,
            )
      | no there ↦
          let before =
            sym
              (is_masked-OnlyMessages (pos j) (with_messages-OnlyMessages k proc i q all_ports lt))
            ∙ open_port in
          let (q', held, v', e') = holds j before in
          rw (update_ne boxes l there) (
            q',
            ap (λ c. c.message_q)
                  (block-set_block_ne k proc i j (record (block k proc i) { message_q = some q })
                    there)
                ∙ held,
            v',
            e',
          )
    ];
  }

  pub take_message_lem :
      (i : ℕ)
      → i < max_ports
      → is_masked k proc (pos i) ≡ false
      → Returns (take_message proc i k) (λ r.
        (r.0 ≡ head? (boxes i))
        × Mailboxes r.1 proc (update boxes i (drop 1 (boxes i)))
        × OnlyMessages proc i k r.1)
  take_message_lem i lt open_port =
      let (q, held, v, e) = holds i open_port in
      let first = pull_refines v ∙ ap uncons e in
      rw (take_message_at k proc i q held) (
        ap (λ p. p.0) first ∙ uncons_box (boxes i),
        Mailboxes-with_messages i (drop 1 (boxes i)) (pull q).1 lt (pull-IsValid v)
            (ap (λ p. p.1) first ∙ uncons_rest (boxes i)),
        with_messages-OnlyMessages k proc i (pull q).1 all_ports lt,
      )
