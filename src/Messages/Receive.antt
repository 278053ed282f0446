-- ===== src/Messages/Receive.antt =====
-- `recv_message`, seen as an operation on one list of waiting messages for each port.
use spoon_microkernel.Prelude.{
  ℕ, ◌<◌, ◌≡◌, refl, ap, ◌∙◌, sym, Bool, true, false, Option, none, some, List, [], ◌∷◌, lt→ltb,
  drop, if◌then◌else◌, update, update_self, update_ne, ◌>>=◌, Returns, Returns-bind, Bool-cases,
  inl, inr,
}
use native.Mathlib.Decide.{ℕ_discrete}
use mathlib.Core.Path.{fun_ext, subst}
use mathlib.Core.List.{head?}
use spoon_microkernel.Prelude.Int.{ℤ, pos, negsuc, minus_one, ◌==ℤ◌}
use spoon_microkernel.Kernel.{Kernel, Message}
use spoon_microkernel.Ports.{max_ports, port_index, port_flags}
use spoon_microkernel.Messages.{
  is_masked, take_message, search_messages, recv_message, copied, message_hint,
}
use spoon_microkernel.Messages.Send.{OnlyMessages}
use spoon_microkernel.Messages.Mailboxes.{
  Mailboxes, unmasked_lt, is_masked-OnlyMessages, take_message_lem,
}

-- The search over the ports of a thread up to the first -1, on the lists of waiting messages: the
-- first message of the first port that is not masked and has one.
unfoldable pub first_waiting :
    (masked : ℤ → Bool) → List ℤ → (ℕ → List Message) → Option Message × (ℕ → List Message)
first_waiting masked [] boxes = (none, boxes)
first_waiting masked (negsuc n ∷ ports) boxes =
    let later = first_waiting masked ports boxes in
    if negsuc n ==ℤ minus_one then (none, boxes) else later
first_waiting masked (pos i ∷ ports) boxes =
    let later = first_waiting masked ports boxes in
    if masked (pos i)
    then later
    else elim (boxes i) [ [] ↦ later | m ∷ l ↦ (some m, update boxes i l) ]

-- What a search does, on the lists: its result, and the lists after it.
abbrev pub Searched :
    (proc : ℕ) → Option Message × (ℕ → List Message) → Option Message × Kernel → Type 0
Searched proc found r = (r.0 ≡ found.0) × Mailboxes r.1 proc found.1

-- How a search goes on after a port.
abbrev go_on : (proc : ℕ) → List ℤ → Option Message × Kernel → Option (Option Message × Kernel)
go_on proc ports r = elim r.0 [
  | none ↦ search_messages proc ports r.1
  | some m ↦ some (some m, r.1)
]

search_open :
    (k : Kernel) (proc i : ℕ) (ports : List ℤ)
    → i < max_ports
    → is_masked k proc (pos i) ≡ false
    → search_messages proc (pos i ∷ ports) k ≡ (take_message proc i k >>= go_on proc ports)
unfolding search_messages
search_open k proc i ports lt e =
    rw (e, search_messages) (rw (lt→ltb i max_ports lt, search_messages) refl)

search_skips :
    (k : Kernel) (proc i : ℕ) (ports : List ℤ)
    → is_masked k proc (pos i) ≡ true
    → search_messages proc (pos i ∷ ports) k ≡ search_messages proc ports k
unfolding search_messages
search_skips k proc i ports e = rw (e, search_messages) refl

search_negative :
    (k : Kernel) (proc n : ℕ) (ports : List ℤ)
    → search_messages proc (negsuc n ∷ ports) k
      ≡ (if negsuc n ==ℤ minus_one then some (none, k) else search_messages proc ports k)
unfolding search_messages port_flags
search_negative k proc n ports = refl

same_boxes : (boxes : ℕ → List Message) (i : ℕ) → boxes i ≡ [] → update boxes i [] ≡ boxes
same_boxes boxes i e = fun_ext λ j. elim (ℕ_discrete i j) [
  | yes here ↦ rw (sym here, update_self boxes i []) (sym e)
  | no there ↦ update_ne boxes [] there
]

-- What the search finds from a port on that has the messages `l`.
abbrev from_box :
    (masked : ℤ → Bool)
    → List ℤ
    → (ℕ → List Message)
    → (i : ℕ) → List Message
    → Option Message × (ℕ → List Message)
from_box masked ports boxes i l = elim l [
  | [] ↦ first_waiting masked ports boxes
  | m ∷ l' ↦ (some m, update boxes i l')
]

go_on_lem :
    (k : Kernel) (proc i : ℕ) (ports : List ℤ) (boxes : ℕ → List Message) (l : List Message)
    → boxes i ≡ l
    → ((k' : Kernel)
        → Mailboxes k' proc boxes
        → Returns
            (search_messages proc ports k')
            (Searched proc (first_waiting (is_masked k' proc) ports boxes)))
    → (r : Option Message × Kernel)
    → (r.0 ≡ head? l) × Mailboxes r.1 proc (update boxes i (drop 1 l)) × OnlyMessages proc i k r.1
    → Returns (go_on proc ports r) (Searched proc (from_box (is_masked k proc) ports boxes i l))
go_on_lem k proc i ports boxes [] e ih r (out, b, o) = rw out (
    subst
      (λ (f : ℤ → Bool).
        Returns (search_messages proc ports r.1) (Searched proc (first_waiting f ports boxes)))
      (fun_ext λ port. is_masked-OnlyMessages port o)
      (ih r.1 (subst (Mailboxes r.1 proc) (same_boxes boxes i e) b)))
go_on_lem k proc i ports boxes (m ∷ l) e ih r (out, b, o) = rw out (refl, b)

-- The search through the ports of a thread is the search on the lists of waiting messages: it never
-- halts, finds the first message of the first port that is not masked and has one, takes that
-- message out and leaves all others.
pub search_messages_refines :
    (ports : List ℤ) (k : Kernel) (proc : ℕ) (boxes : ℕ → List Message)
    → Mailboxes k proc boxes
    → Returns
        (search_messages proc ports k)
        (Searched proc (first_waiting (is_masked k proc) ports boxes))
unfolding search_messages first_waiting
search_messages_refines [] k proc boxes b = (refl, b)
search_messages_refines (negsuc n ∷ ports) k proc boxes b =
    elim (Bool-cases (negsuc n ==ℤ minus_one)) [
      | inl end ↦ rw (search_negative k proc n ports, end) (refl, b)
      | inr more ↦
          rw (search_negative k proc n ports, more) (search_messages_refines ports k proc boxes b)
    ]
search_messages_refines (pos i ∷ ports) k proc boxes b =
    elim (Bool-cases (is_masked k proc (pos i))) [
      | inl masked ↦
          rw (search_skips k proc i ports masked, masked)
            (search_messages_refines ports k proc boxes b)
      | inr open_port ↦
          let lt = unmasked_lt k proc i open_port in
          rw (search_open k proc i ports lt open_port, open_port)
            (Returns-bind (take_message proc i k) (go_on proc ports) _ _
              (go_on_lem k proc i ports boxes (boxes i) refl
                (λ k' b'. search_messages_refines ports k' proc boxes b'))
              (take_message_lem b i lt open_port))
    ]

-- What a receiver with room for `bytes` bytes gets out of a search.
abbrev pub Received :
    (proc bytes : ℕ) → Option Message × (ℕ → List Message) → Option Message × Kernel → Type 0
Received proc bytes found r =
    (r.0 ≡ elim found.0 [ none ↦ none | some m ↦ some (copied bytes m) ])
    × Mailboxes r.1 proc found.1

is_masked-message_hint :
    (k : Kernel) (tr proc : ℕ) (hint port : ℤ)
    → is_masked (message_hint k tr hint) proc port ≡ is_masked k proc port
unfolding port_flags
is_masked-message_hint k tr proc hint port = refl

Mailboxes-message_hint :
    {k : Kernel} {proc : ℕ} {boxes : ℕ → List Message} (tr : ℕ) (hint : ℤ)
    → Mailboxes k proc boxes
    → Mailboxes (message_hint k tr hint) proc boxes
Mailboxes-message_hint {k} {proc} tr hint b = record {
  all_ports = b.all_ports;
  holds = λ i e. b.holds i (sym (is_masked-message_hint k tr proc hint (pos i)) ∙ e);
}

module _ (tr : ℕ) (k : Kernel) (boxes : ℕ → List Message) (bytes : ℕ)
    (b : Mailboxes k (k.thread tr).process boxes) where
  hinted : Mailboxes (message_hint k tr minus_one) (k.thread tr).process boxes
  hinted = Mailboxes-message_hint tr minus_one b

  -- Where every port that is not masked holds a valid queue, and without a port and without a hint,
  -- `recv_message` searches the ports of the thread: it returns,
  -- with the first message of the first port that is not masked and has one, cut to the room there
  -- is, or with -1 where no such port has one; the message is taken out and all others stay.
  pub recv_message_any :
      (dest_port : ℤ)
      → port_index dest_port ≡ none
      → port_index (k.thread tr).last_port_message ≡ none
      → Returns (recv_message tr dest_port bytes k) (
          Received
            (k.thread tr).process
            bytes
            (first_waiting (is_masked k (k.thread tr).process) (k.thread tr).ports boxes))
  unfolding recv_message
  recv_message_any dest_port nowhere no_hint =
      rw (nowhere, recv_message)
        (rw (no_hint, recv_message)
          (rw
            (ap (λ t. t.ports)
              (update_self k.thread tr (record (k.thread tr) { last_port_message = minus_one })))
            (Returns-bind
              (search_messages (k.thread tr).process (k.thread tr).ports
                (message_hint k tr minus_one))
              _ _ _
              (λ r s. (
                ap
                    (λ o. elim o as (λ x. Option Message) [
                      | none ↦ none
                      | some m ↦ some (copied bytes m)
                    ])
                    s.0,
                s.1,
              ))
              (subst
                (λ (f : ℤ → Bool).
                  Returns
                    (search_messages (k.thread tr).process (k.thread tr).ports
                      (message_hint k tr minus_one))
                    (Searched (k.thread tr).process (first_waiting f (k.thread tr).ports boxes)))
                (fun_ext λ port. is_masked-message_hint k tr (k.thread tr).process minus_one port)
                (search_messages_refines (k.thread tr).ports (message_hint k tr minus_one)
                  (k.thread tr).process boxes hinted)))))

  -- Where every port that is not masked holds a valid queue, `recv_message` from one of them takes
  -- the first message there, or returns -1 if there is none.
  pub recv_message_from :
      (i : ℕ)
      → is_masked k (k.thread tr).process (pos i) ≡ false
      → Returns (recv_message tr (pos i) bytes k) (
          Received (k.thread tr).process bytes (head? (boxes i), update boxes i (drop 1 (boxes i))))
  unfolding recv_message
  recv_message_from i open_port =
      let lt = unmasked_lt k (k.thread tr).process i open_port in
      let open_still =
        is_masked-message_hint k tr (k.thread tr).process minus_one (pos i) ∙ open_port in
      rw (lt→ltb i max_ports lt, recv_message)
        (rw (lt→ltb i max_ports lt, recv_message)
          (rw (lt→ltb i max_ports lt, open_still)
            (Returns-bind (take_message (k.thread tr).process i (message_hint k tr minus_one)) _ _ _
              (λ r s. (
                ap
                    (λ o. elim o as (λ x. Option Message) [
                      | none ↦ none
                      | some m ↦ some (copied bytes m)
                    ])
                    s.0,
                s.1,
              ))
              (take_message_lem hinted i lt open_still))))
