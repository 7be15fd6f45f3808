-- ===== src/Dlv/Proc/Ring.antt =====
-- The ring keeps the last lines of everything printed, and each read gives what was not yet seen.
use golang_debugger_skill.Base.{
  ℕ, ◌+◌, ◌-◌, ◌≤◌, ◌≡◌, refl, sym, ap, ◌∙◌, false, List, [], ◌∷◌, ◌++◌, append_assoc, append-nil,
  arith, Text, length, drop, last, length-append, length-drop, last-append_last, ltb,
  drop-append_le, drop-drop, if◌then◌else◌, Bool-cases, inl, inr,
}
use golang_debugger_skill.Dlv.Proc.{
  Proc, output_ring_size, is_notice, trim_ring, append_output, append_lines, new_output,
}

-- The slice `p.output[p.seen:]` is in range, and the buffer is bounded.
pub record IsRing (p : Proc) : Type 0 where
  pub bounded : length p.output ≤ output_ring_size
  pub in_range : p.seen ≤ length p.output

pub append_output-IsRing : (line : Text) {p : Proc} → IsRing p → IsRing (append_output line p)
unfolding append_output
append_output-IsRing line {p} h = ground (
  arith,
  length-append p.output (line ∷ []),
  length-drop (length (p.output ++ (line ∷ [])) - output_ring_size) (p.output ++ (line ∷ [])),
)

-- The lines that are kept at all, in order.
abbrev pub accepted : List Text → List Text
accepted [] = []
accepted (line ∷ lines) = if is_notice line then accepted lines else line ∷ accepted lines

-- One line, and the ring by the lines that ever came: both branches of the trim in one equation.
excess : List Text → ℕ
excess lines = length lines - output_ring_size

trim_ring-drop :
    (lines : List Text) (seen : ℕ)
    → trim_ring (record { output = lines; seen = seen })
      ≡ record { output = drop (excess lines) lines; seen = seen - excess lines }
unfolding trim_ring excess
trim_ring-drop lines seen = elim (Bool-cases (ltb output_ring_size (length lines))) [
  | inl more ↦ rw more
  | inr fits ↦
      let none : length lines - output_ring_size ≡ 0 = ground arith in
      rw (fits, none) (ap (λ n. record { output = lines; seen = n }) (omega arith))
]

-- What the next read would give.
abbrev pub unseen : Proc → List Text
unseen p = drop p.seen p.output

drop_at : (lines : List Text) (m n : ℕ) → m ≡ n → drop m lines ≡ drop n lines
drop_at lines m n e = ap (λ k. drop k lines) e

unseen-trim :
    (lines : List Text) (seen : ℕ)
    → seen ≤ length lines
    → unseen (trim_ring (record { output = lines; seen = seen }))
      ≡ last output_ring_size (drop seen lines)
unfolding excess
unseen-trim lines seen h =
    ap unseen (trim_ring-drop lines seen)
    ∙ drop-drop (seen - excess lines) (excess lines) lines
    ∙ drop_at lines _ (length (drop seen lines) - output_ring_size + seen)
        (omega (arith, length-drop seen lines))
    ∙ sym (drop-drop (length (drop seen lines) - output_ring_size) seen lines)

unseen-append_output :
    (line : Text) (p : Proc)
    → IsRing p
    → is_notice line ≡ false
    → unseen (append_output line p) ≡ last output_ring_size (unseen p ++ (line ∷ []))
unfolding append_output
unseen-append_output line p h e = rw e (
    unseen-trim (p.output ++ (line ∷ [])) p.seen
      (omega (arith, length-append p.output (line ∷ []), h.in_range))
    ∙ ap (last output_ring_size) (drop-append_le p.seen p.output (line ∷ []) h.in_range))

unseen-append_lines_onto :
    (lines history : List Text) (p : Proc)
    → IsRing p
    → unseen p ≡ last output_ring_size history
    → unseen (append_lines lines p) ≡ last output_ring_size (history ++ accepted lines)
unfolding append_lines
unseen-append_lines_onto [] history p h e =
    e ∙ ap (last output_ring_size) (sym (append-nil history))
unseen-append_lines_onto (line ∷ lines) history p h e = elim (Bool-cases (is_notice line)) [
  | inl notice ↦ rw notice (
      unseen-append_lines_onto lines history (append_output line p) (append_output-IsRing line h)
        (unfold append_output in rw notice e))
  | inr new ↦
      rw (new, ← append_assoc history (line ∷ []) (accepted lines))
        (unseen-append_lines_onto lines (history ++ (line ∷ [])) (append_output line p)
          (append_output-IsRing line h)
          (unseen-append_output line p h new
            ∙ ap (λ u. last output_ring_size (u ++ (line ∷ []))) e
            ∙ last-append_last output_ring_size history (line ∷ [])))
]

append_lines-IsRing : (lines : List Text) {p : Proc} → IsRing p → IsRing (append_lines lines p)
unfolding append_lines
append_lines-IsRing [] h = h
append_lines-IsRing (line ∷ lines) h = append_lines-IsRing lines (append_output-IsRing line h)

-- A read gives the lines that arrived since the read before it, in order and without dlv's
-- notices, the last 400 of them if there were more; a further read gives nothing. The buffer
-- stays within 400 lines and the slice within the buffer.
pub new_output-append_lines :
    (p : Proc) (lines : List Text)
    → IsRing p
    → let q = append_lines lines (new_output p).1 in
      ((new_output q).0 ≡ last output_ring_size (accepted lines))
      × ((new_output (new_output q).1).0 ≡ [])
      × IsRing (new_output q).1
unfolding new_output
new_output-append_lines p lines h =
    let read : Proc = record p { seen = length p.output } in
    let ring : IsRing read = record { bounded = h.bounded; in_range = omega arith } in
    (
      unseen-append_lines_onto lines [] read ring (drop_length p.output),
      drop_length (append_lines lines read).output,
      record { bounded = (append_lines-IsRing lines ring).bounded; in_range = omega arith },
    )
  where
    drop_length : (xs : List Text) → drop (length xs) xs ≡ []
    drop_length [] = refl
    drop_length (x ∷ xs) = drop_length xs
