-- ===== src/Dmesg/Format/Whole.antt =====
-- `sdmesg` with room for the whole text: the buffer that it leaves.
use mathlib.Core.Path.{subst}
use mathlib.Core.Option.{some-injective}
use mathlib.Core.List.{append_assoc}
use spoon_microkernel.Prelude.{
  ℕ, zero, suc, ◌+◌, ◌-◌, ◌<◌, ◌≡◌, refl, sym, ap, ◌∙◌, Bool, true, false, Option, none, some, List,
  [], ◌∷◌, ◌++◌, length, length-append, length-set, take, set, get_elem?, get_elem?-set_self, ltb,
  ◌==◌, if◌then◌else◌, Returns, Returns-bind, ◌>>=◌, arith,
}
use spoon_microkernel.Dmesg.{dmesg_string}
use spoon_microkernel.Dmesg.Format.{
  Argument, modifier, Formatted, written, convert, format_loop, sdmesg,
}
use spoon_microkernel.Dmesg.Format.Text.{
  part_text, format_text, Wrote, written-Wrote, nothing-Wrote, string_lem, convert_lem,
}

-- The parts of a chain that returns.
bind_inv :
    {A B : Type 0} (o : Option A) (f : A → Option B) (b : B)
    → (o >>= f) ≡ some b
    → (a : A) × (o ≡ some a) × (f a ≡ some b)
bind_inv none f b e = cc
bind_inv (some a) f b e = (a, refl, e)

-- A byte of the format, if it is not a `%`.
letter_Wrote :
    (max_len letter : ℕ) (percent : Bool) (done : List ℕ) (f : Formatted)
    → Wrote max_len done f
    → length done + length (if percent then [] else letter ∷ []) < max_len
    → Wrote max_len
        (done ++ (if percent then [] else letter ∷ []))
        (if percent then f else written (dmesg_string (max_len - f.position) (letter ∷ [])) f)
letter_Wrote max_len letter true done f w fits = nothing-Wrote max_len done f w
letter_Wrote max_len letter false done f w fits =
    rw (string_lem (max_len - f.position) (letter ∷ []) (omega (arith, w.position)))
      (written-Wrote max_len done (letter ∷ []) f w (omega (arith, fits)))

format_loop_lem :
    (max_len : ℕ) (format : List ℕ) (m : Bool) (args : List Argument) (f : Formatted)
    (done text : List ℕ)
    → Wrote max_len done f
    → format_text format m args ≡ some text
    → length done + length text < max_len
    → Returns (format_loop max_len format m args f) (Wrote max_len (done ++ text))
unfolding format_loop
format_loop_lem max_len [] m args f done text w e fits =
    subst (λ l. Wrote max_len (done ++ l) f) (some-injective [] text e)
      (nothing-Wrote max_len done f w)
format_loop_lem max_len (letter ∷ format) true args f done text w e fits =
    let ((t, args'), first, e1) = bind_inv (part_text (modifier letter) args) _ text e in
    let (rest, then_text, e2) = bind_inv (format_text format false args') _ text e1 in
    let whole : t ++ rest ≡ text = some-injective (t ++ rest) text e2 in
    let long : length t + length rest ≡ length text =
      sym (length-append t rest) ∙ ap (λ (l : List ℕ). length l) whole in
    Returns-bind (convert (modifier letter) (max_len - f.position) args f) _
      (λ r. Wrote max_len (done ++ t) r.0 × (r.1 ≡ args')) _
      (λ r h.
        subst (λ l. Returns (format_loop max_len format false r.1 r.0) (Wrote max_len l))
          (append_assoc done t rest ∙ ap (λ (l : List ℕ). done ++ l) whole)
          (format_loop_lem max_len format false r.1 r.0 (done ++ t) rest h.0
            (ap (format_text format false) h.1 ∙ then_text)
            (omega (arith, long, fits, length-append done t))))
      (convert_lem max_len (modifier letter) args f done t args' w first
        (omega (arith, long, fits)))
format_loop_lem max_len (letter ∷ format) false args f done text w e fits =
    let percent = letter == 37 in
    let t = if percent then [] else letter ∷ [] in
    let (rest, then_text, e2) = bind_inv (format_text format percent args) _ text e in
    let whole : t ++ rest ≡ text = some-injective (t ++ rest) text e2 in
    let long : length t + length rest ≡ length text =
      sym (length-append t rest) ∙ ap (λ (l : List ℕ). length l) whole in
    subst
      (λ l.
        Returns
          (format_loop max_len format percent args
            (if percent then f else written (dmesg_string (max_len - f.position) (letter ∷ [])) f))
          (Wrote max_len l))
      (append_assoc done t rest ∙ ap (λ (l : List ℕ). done ++ l) whole)
      (format_loop_lem max_len format percent args _ (done ++ t) rest
        (letter_Wrote max_len letter percent done f w (omega (arith, long, fits))) then_text
        (omega (arith, long, fits, length-append done t)))

take-set : (n : ℕ) (l : List ℕ) (v : ℕ) → take n (set l n v) ≡ take n l
take-set zero l v = refl
take-set (suc n) [] v = refl
take-set (suc n) (x ∷ l) v = ap (λ (m : List ℕ). x ∷ m) (take-set n l v)

-- `sdmesg` into a buffer of `max_len` bytes, where the arguments fit the format and the text is shorter
-- than the buffer, leaves the text with a 0 behind it in the buffer, and returns its length.
pub sdmesg_lem :
    (max_len : ℕ) (buffer format : List ℕ) (args : List Argument) (text : List ℕ)
    → length buffer ≡ max_len
    → format_text format false args ≡ some text
    → length text < max_len
    → Returns (sdmesg buffer max_len format args) (λ f.
      (f.position ≡ length text)
      × (take (length text) f.buffer ≡ text)
      × (get_elem? f.buffer (length text) ≡ some 0)
      × (length f.buffer ≡ max_len))
unfolding sdmesg
sdmesg_lem max_len buffer format args text size e fits =
    Returns-bind
      (format_loop max_len format false args (record { position = 0; buffer = buffer; flags = 0 }))
      _ (Wrote max_len text) _
      (λ f w.
        let room : ltb f.position max_len ≡ true = ground (arith, w.position, fits) in
        rw room (
          w.position,
          rw w.position (take-set (length text) f.buffer 0 ∙ w.start),
          rw w.position (get_elem?-set_self f.buffer (length text) 0 (omega (arith, w.size, fits))),
          length-set f.buffer f.position 0 ∙ w.size,
        ))
      (format_loop_lem max_len format false args
        (record { position = 0; buffer = buffer; flags = 0 }) [] text
        (record { size = size; position = refl; start = refl }) e (omega (arith, fits)))
