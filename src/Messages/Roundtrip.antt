-- ===== src/Messages/Roundtrip.antt =====
-- A message sent and then received.
use mathlib.Core.List.{map, head?}
use native.Mathlib.Decide.{ℕ_discrete}
use spoon_microkernel.Prelude.{
  ℕ, ◌≡◌, refl, ap, ◌∙◌, sym, true, false, Option, none, some, List, [], ◌∷◌, ◌++◌, update,
  update_self, update_ne, Returns, Returns-map,
}
use spoon_microkernel.Prelude.Int.{ℤ, pos}
use spoon_microkernel.Aqueue.{Aqueue}
use spoon_microkernel.Aqueue.Fifo.{contents}
use spoon_microkernel.Kernel.{Kernel, Message}
use spoon_microkernel.Ports.Blocks.{HasPorts}
use spoon_microkernel.Messages.{is_masked, send_message, recv_message, copied}
use spoon_microkernel.Messages.Send.{
  CanSend, CanTell, stored, letter, Waiting, OnlyMessages, Delivered, send_message_delivers,
}
use spoon_microkernel.Messages.Mailboxes.{Mailboxes, is_masked-OnlyMessages}
use spoon_microkernel.Messages.Receive.{recv_message_from}

-- What the waiting lists become when one port's messages change.
Mailboxes-OnlyMessages :
    {k k' : Kernel} {proc i : ℕ} {boxes : ℕ → List Message} (l : List Message)
    → Mailboxes k proc boxes
    → OnlyMessages proc i k k'
    → HasPorts k' proc
    → Waiting k' proc i (map some l)
    → Mailboxes k' proc (update boxes i l)
Mailboxes-OnlyMessages {k} {k'} {proc} {i} {boxes} l b o h w = record {
  all_ports = h;
  holds = λ j e. elim (ℕ_discrete i j) [
    | yes here ↦ rw (sym here, update_self boxes i l) w
    | no there ↦
        let (q, held, v, c) = b.holds j (sym (is_masked-OnlyMessages (pos j) o) ∙ e) in
        rw (update_ne boxes l there) (q, ap (λ p. p.message_q) (o.elsewhere j there) ∙ held, v, c)
  ];
}

-- What a receiver gets of the first of a list.
abbrev cut : (bytes : ℕ) → List Message → Option Message
cut bytes l = elim (head? l) [ none ↦ none | some m ↦ some (copied bytes m) ]

map-some_snoc :
    (l : List Message) (m : Message) → map some l ++ (some m ∷ []) ≡ map some (l ++ (m ∷ []))
map-some_snoc [] m = refl
map-some_snoc (x ∷ l) m = ap (λ r. some x ∷ r) (map-some_snoc l m)

module _ (k : Kernel) (proc i tr t : ℕ) (q : Aqueue Message) (can : CanSend k proc i tr t q)
    (source_pid source_port : ℤ) (location : List ℕ) (boxes : ℕ → List Message)
    (b : Mailboxes k proc boxes) (open_port : is_masked k proc (pos i) ≡ false)
    (tell : CanTell proc
      (pos i)
      tr
      (stored k proc i q (letter source_pid source_port i location))) where
  abbrev pub posted : ℕ → List Message
  posted = update boxes i (boxes i ++ (letter source_pid source_port i location ∷ []))

  -- The queue is the one that the list describes.
  contents_lem : contents q ≡ map some (boxes i)
  contents_lem =
      let (q', held, v, c) = b.holds i open_port in
      let same : q ≡ q' =
        ap (λ o. elim o as (λ x. Aqueue Message) [ none ↦ q | some x ↦ x ]) (sym can.held ∙ held) in
      ap contents same ∙ c

  -- On the lists of waiting messages, a send with memory to a port that is not masked and whose
  -- thread can be told returns 0 and appends to the list of
  -- that port.
  pub send_message_refines :
      Returns (send_message source_pid source_port proc (pos i) location true true k) (λ r.
        (r.0 ≡ pos 0)
        × Mailboxes r.1 proc posted
        × (is_masked r.1 proc (pos i) ≡ false)
        × ((p : ℕ) → (r.1.thread p).process ≡ (k.thread p).process))
  send_message_refines =
      Returns-map (send_message source_pid source_port proc (pos i) location true true k) _ _
        posted_lem (send_message_delivers k proc i tr t q can source_pid source_port location tell)
    where
      m : Message
      m = letter source_pid source_port i location

      posted_lem :
          (r : ℤ × Kernel)
          → Delivered k proc i tr t q can source_pid source_port location r
          → (r.0 ≡ pos 0)
            × Mailboxes r.1 proc posted
            × (is_masked r.1 proc (pos i) ≡ false)
            × ((p : ℕ) → (r.1.thread p).process ≡ (k.thread p).process)
      posted_lem r (done, (q', held, v, c), o, h, same) = (
        done,
        Mailboxes-OnlyMessages (boxes i ++ (m ∷ [])) b o h (
          q',
          held,
          v,
          c ∙ ap (λ l. l ++ (some m ∷ [])) contents_lem ∙ map-some_snoc (boxes i) m,
        ),
        is_masked-OnlyMessages (pos i) o ∙ open_port,
        same,
      )

  -- Where every port that is not masked holds a valid queue, a message that was sent, with memory, to
  -- one of them where none waited and whose thread can be told is the next that a thread of the process
  -- receives from there, cut to the room it gives.
  pub recv_message-send_message :
      (reader bytes : ℕ)
      → (k.thread reader).process ≡ proc
      → boxes i ≡ []
      → Returns (send_message source_pid source_port proc (pos i) location true true k) (λ r.
        Returns
          (recv_message reader (pos i) bytes r.1)
          (λ s. s.0 ≡ some (copied bytes (letter source_pid source_port i location))))
  recv_message-send_message reader bytes ours bare =
      Returns-map (send_message source_pid source_port proc (pos i) location true true k) _ _
        (λ r (done, b', e', same).
          let here : (r.1.thread reader).process ≡ proc = same reader ∙ ours in
          Returns-map (recv_message reader (pos i) bytes r.1) _ _
            (λ s rec.
              rec.0
              ∙ ap (cut bytes) (
                  update_self boxes i _
                  ∙ ap (λ l. l ++ (letter source_pid source_port i location ∷ [])) bare))
            (recv_message_from reader r.1 posted bytes (rw here b') i (rw here e')))
        send_message_refines
