-- ===== src/Dmesg/Format/Ring.antt =====
-- `dmesg`, `get_dmesg` and `get_dmesg_size` of kernel/src/dmesg.c: the kernel's log.
use native.Mathlib.Nat.{mod-eq_of_lt}
use mathlib.Core.List.{append_assoc, append-nil}
use spoon_microkernel.Prelude.{
  ℕ, zero, suc, ◌+◌, ◌%◌, ◌≤◌, ◌<◌, ◌≡◌, refl, sym, ap, ◌∙◌, false, Option, none, some, List, [],
  ◌∷◌, ◌++◌, length, length-set, take, drop, set, get_or, get_elem?, ltb, ◌==◌, if◌then◌else◌,
  Returns, Returns-bind, ◌>>=◌, arith,
}
use spoon_microkernel.Dmesg.Format.{Argument, sdmesg}
use spoon_microkernel.Dmesg.Format.Text.{format_text}
use spoon_microkernel.Dmesg.Format.Whole.{sdmesg_lem}

-- `DMESG_BUFSIZE` and `DMESG_TMPSIZE`
abbrev pub dmesg_bufsize : ℕ
dmesg_bufsize = 16384

abbrev pub dmesg_tmpsize : ℕ
dmesg_tmpsize = 512

-- `dmesg_buffer` and `dmesg_position`
pub record Log : Type 0 where
  pub buffer : List ℕ
  pub position : ℕ

-- The loop of `dmesg`: `rounds` are left, from `i` on.
unfoldable pub log_loop : (rounds i position : ℕ) (text log : List ℕ) → List ℕ
log_loop zero i position text log = log
log_loop (suc rounds) i position text log =
    log_loop rounds (i + 1) position text
      (set log ((position + i) % dmesg_bufsize) (get_or text i 0))

-- `dmesg`, with what stood in its own buffer before: the result, the log, and the text for the screen.
unfoldable pub dmesg :
    (scratch format : List ℕ) → List Argument → Log → Option (ℕ × Log × Option (List ℕ))
dmesg scratch format args log = do
  f ← sdmesg scratch dmesg_tmpsize format args
  some (
    f.position,
    record {
      buffer = log_loop f.position 0 log.position f.buffer log.buffer;
      position = (log.position + f.position) % dmesg_bufsize;
    },
    if f.flags == 1 then some f.buffer else none,
  )

-- `get_dmesg`, for a length that is not negative.
unfoldable pub get_dmesg : (len : ℕ) → Log → ℕ × List ℕ
get_dmesg len log =
    let size = if ltb len log.position then len else log.position in (size, take size log.buffer)

-- `get_dmesg_size`
abbrev pub get_dmesg_size : ℕ
get_dmesg_size = dmesg_bufsize

take-set-suc :
    (k : ℕ) (l : List ℕ) (v : ℕ) → k < length l → take (suc k) (set l k v) ≡ take k l ++ v ∷ []
take-set-suc k [] v lt = absurd (omega arith)
take-set-suc zero (x ∷ l) v lt = refl
take-set-suc (suc k) (x ∷ l) v lt = ap (λ (m : List ℕ). x ∷ m) (take-set-suc k l v (omega arith))

take-drop-suc :
    (i n : ℕ) (l : List ℕ)
    → i < length l
    → take (suc n) (drop i l) ≡ get_or l i 0 ∷ take n (drop (suc i) l)
take-drop-suc i n [] lt = absurd (omega arith)
take-drop-suc zero n (x ∷ l) lt = refl
take-drop-suc (suc i) n (x ∷ l) lt = take-drop-suc i n l (omega arith)

-- Short of the end of the ring, the text stands behind what was there.
log_loop_lem :
    (rounds i position : ℕ) (text log : List ℕ)
    → length log ≡ dmesg_bufsize
    → position + i + rounds ≤ dmesg_bufsize
    → i + rounds ≤ length text
    → take (position + i + rounds) (log_loop rounds i position text log)
      ≡ take (position + i) log ++ take rounds (drop i text)
unfolding log_loop
log_loop_lem zero i position text log size fits long =
    ap (λ (n : ℕ). take n log) (omega arith) ∙ sym (append-nil (take (position + i) log))
log_loop_lem (suc rounds) i position text log size fits long =
    let v = get_or text i 0 in
    let place : (position + i) % dmesg_bufsize ≡ position + i =
      mod-eq_of_lt (omega (arith, fits)) in
    let next : position + (i + 1) ≡ suc (position + i) = omega arith in
    let later : i + 1 ≡ suc i = omega arith in
    let whole : position + i + suc rounds ≡ position + (i + 1) + rounds = omega arith in
    let rest =
      log_loop_lem rounds (i + 1) position text (set log (position + i) v)
        (length-set log (position + i) v ∙ size) (omega (arith, fits)) (omega (arith, long)) in
    rw place (
      ap (λ (n : ℕ). take n (log_loop rounds (i + 1) position text (set log (position + i) v)))
        whole
      ∙ rest
      ∙ ap (λ (n : ℕ). take n (set log (position + i) v) ++ take rounds (drop (i + 1) text)) next
      ∙ ap (λ (l : List ℕ). l ++ take rounds (drop (i + 1) text))
          (take-set-suc (position + i) log v (omega (arith, fits, size)))
      ∙ append_assoc (take (position + i) log) (v ∷ []) (take rounds (drop (i + 1) text))
      ∙ ap (λ (n : ℕ). take (position + i) log ++ v ∷ take rounds (drop n text)) later
      ∙ ap (λ (l : List ℕ). take (position + i) log ++ l)
          (sym (take-drop-suc i rounds text (omega (arith, long)))))

-- `dmesg` of a text shorter than 512 bytes, short of the end of the ring, returns the length of the
-- text; from then on `get_dmesg` with room for the whole log returns the text behind what it returned
-- before.
pub get_dmesg-dmesg :
    (scratch format : List ℕ) (args : List Argument) (log : Log) (text : List ℕ) (len : ℕ)
    → length scratch ≡ dmesg_tmpsize
    → length log.buffer ≡ dmesg_bufsize
    → format_text format false args ≡ some text
    → length text < dmesg_tmpsize
    → log.position + length text < dmesg_bufsize
    → log.position + length text ≤ len
    → Returns (dmesg scratch format args log) (λ r.
      (r.0 ≡ length text)
      × (get_dmesg len r.1 ≡ (log.position + length text, (get_dmesg len log).1 ++ text)))
unfolding dmesg get_dmesg
get_dmesg-dmesg scratch format args log text len scratch_size size e short room fits =
    Returns-bind (sdmesg scratch dmesg_tmpsize format args) _
      (λ f.
        (f.position ≡ length text)
        × (take (length text) f.buffer ≡ text)
        × (get_elem? f.buffer (length text) ≡ some 0)
        × (length f.buffer ≡ dmesg_tmpsize))
      _
      (λ f (at, start, _, whole).
        let n = length text in
        let end : (log.position + n) % dmesg_bufsize ≡ log.position + n = mod-eq_of_lt room in
        let reads : ltb len (log.position + n) ≡ false = ground (arith, fits) in
        let read : ltb len log.position ≡ false = ground (arith, fits) in
        let same : log.position + n ≡ log.position + 0 + n = omega arith in
        let none_yet : log.position + 0 ≡ log.position = omega arith in
        let loop =
          log_loop_lem n 0 log.position f.buffer log.buffer size (omega (arith, room))
            (omega (arith, whole, short)) in
        (
          at,
          rw at (
              rw end (
                rw (reads, read)
                  (ap (λ (l : List ℕ). (log.position + n, l))
                    (ap (λ (k : ℕ). take k (log_loop n 0 log.position f.buffer log.buffer)) same
                      ∙ loop
                      ∙ ap (λ (k : ℕ). take k log.buffer ++ take n f.buffer) none_yet
                      ∙ ap (λ (l : List ℕ). take log.position log.buffer ++ l) start)))),
        ))
      (sdmesg_lem dmesg_tmpsize scratch format args text scratch_size e short)
