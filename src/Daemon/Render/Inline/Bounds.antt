-- ===== src/Daemon/Render/Inline/Bounds.antt =====
-- How long a one-line value is, and that it is never empty.
use golang_debugger_skill.Base.{
  ℕ, ◌-◌, ◌≤◌, ◌<◌, ◌==◌, ◌≡◌, ◌≢◌, refl, ap, ◌∙◌, Bool, true, false, [], ◌∷◌, ◌++◌, arith, Text,
  text, length, length-append, length-take, take, ltb, Bool-cases, inl, inr, is_empty,
}
use golang_debugger_skill.Dlv.Types.{
  Info, Variable, variable, Variables, nil, cons, kind_of, Kind, array, func, interface, map_kind,
  pointer, slice, string, struct, other, info, count,
}
use golang_debugger_skill.Daemon.Render.Inline.{
  value_or_brace, ptr_value, quoted, inline_value, inline_pointer, inline_interface, cap,
  inline_var, value_or_nil,
}

cap_fits : (s : Text) (max_len : ℕ) → length s ≤ max_len → cap s max_len ≡ s
unfolding cap
cap_fits s max_len h = ground arith

cap_long :
    (s : Text) (max_len : ℕ) → max_len < length s → cap s max_len ≡ take (max_len - 1) s ++ text "…"
unfolding cap
cap_long s max_len h = ground arith

length-cap_long :
    (s : Text) (max_len : ℕ) → 0 < max_len → max_len < length s → length (cap s max_len) ≡ max_len
length-cap_long s max_len h long =
    rw (cap_long s max_len long, length-append (take (max_len - 1) s) (text "…"))
      (unfold text in omega (arith, length-take (max_len - 1) s))

-- With a positive cap, what is within the cap is shown whole, and anything longer is cut to the cap exactly: its first
-- characters, and an ellipsis.
pub inline_var-cap :
    (printable : ℕ → Bool) (v : Variable) (max_len : ℕ)
    → 0 < max_len
    → let whole = inline_value printable v 3 in
      (length whole ≤ max_len → inline_var printable v max_len ≡ whole)
      × (max_len < length whole
          → (inline_var printable v max_len ≡ take (max_len - 1) whole ++ text "…")
            × (length (inline_var printable v max_len) ≡ max_len))
inline_var-cap printable v max_len h =
    let whole = inline_value printable v 3 in
    let same : inline_var printable v max_len ≡ cap whole max_len = unfold inline_var in refl in
    (
      λ fits. same ∙ cap_fits whole max_len fits,
      λ long. (
        same ∙ cap_long whole max_len long,
        ap length same ∙ length-cap_long whole max_len h long,
      ),
    )

abbrev Full : Text → Type 0
Full s = is_empty s ≡ false

Full-append : (s t : Text) → Full t → Full (s ++ t)
Full-append [] t h = h
Full-append (c ∷ s) t h = refl

Full-cap : (s : Text) (max_len : ℕ) → Full s → Full (cap s max_len)
unfolding cap text
Full-cap s max_len h = elim (Bool-cases (ltb max_len (length s))) [
  | inl long ↦ rw long (Full-append (take (max_len - 1) s) (text "…") refl)
  | inr fits ↦ rw fits h
]

value_or_brace-Full : (i : Info) (c : Variables) → Full (value_or_brace i c)
unfolding value_or_brace
value_or_brace-Full i nil = ground arith
value_or_brace-Full i (cons c cs) = ground arith

value_or_nil-Full : (s : Text) → Full (value_or_nil s)
unfolding text
value_or_nil-Full [] = refl
value_or_nil-Full (c ∷ s) = refl

ptr_value-Full : (i : Info) (c : Variables) → Full (ptr_value i c)
unfolding ptr_value
ptr_value-Full i nil = value_or_nil-Full i.value
ptr_value-Full i (cons (variable c _) nil) = elim (Bool-cases c.only_addr) [
  | inl only ↦ rw only (elim (Bool-cases (c.addr == 0)) [ inl e ↦ rw e refl | inr e ↦ rw e refl ])
  | inr whole ↦ rw whole (value_or_nil-Full i.value)
]
ptr_value-Full i (cons (variable c _) (cons d cs)) = value_or_nil-Full i.value

quoted-Full : (printable : ℕ → Bool) (i : Info) → Full (quoted printable i)
unfolding quoted
quoted-Full printable i = ground arith

module _ (printable : ℕ → Bool) (i : Info) (c : Variables) (depth : ℕ) where
  inline_value-by_kind :
      (k : Kind)
      → kind_of i.kind ≡ k
      → is_empty i.unreadable ≡ true
      → (depth == 0) ≡ false
      → Full (inline_pointer printable i c depth)
      → Full (inline_interface printable c depth)
      → Full (inline_value printable (variable i c) depth)
  unfolding inline_value
  inline_value-by_kind string e fine more p q = rw (fine, more, e) (quoted-Full printable i)
  inline_value-by_kind struct e fine more p q =
      rw (fine, more, e)
        (elim (Bool-cases (count c == 0)) [
          | inl none ↦ rw none (value_or_brace-Full i c)
          | inr some ↦ rw some (Full-append i.type (b'{' ∷ _) refl)
        ])
  inline_value-by_kind slice e fine more p q = rw (fine, more, e) refl
  inline_value-by_kind array e fine more p q = rw (fine, more, e) refl
  inline_value-by_kind map_kind e fine more p q = rw (fine, more, e) refl
  inline_value-by_kind pointer e fine more p q = rw (fine, more, e) p
  inline_value-by_kind interface e fine more p q = rw (fine, more, e) q
  inline_value-by_kind func e fine more p q = rw (fine, more, e) (value_or_brace-Full i c)
  inline_value-by_kind other e fine more p q = rw (fine, more, e) (value_or_brace-Full i c)

module _ (printable : ℕ → Bool) where
  mutual
    unfolding inline_value

    inline_value-Full : (v : Variable) (depth : ℕ) → Full (inline_value printable v depth)
    inline_value-Full (variable i c) depth = elim (Bool-cases (is_empty i.unreadable)) [
      | inr bad ↦ rw bad refl
      | inl fine ↦ elim (Bool-cases (depth == 0)) [
        | inl none ↦ rw (fine, none) refl
        | inr more ↦
            inline_value-by_kind printable i c depth (kind_of i.kind) refl fine more
              (inline_pointer-Full i c depth) (inline_interface-Full c depth)
      ]
    ]

    inline_pointer-Full :
        (i : Info) (c : Variables) (depth : ℕ) → Full (inline_pointer printable i c depth)
    inline_pointer-Full i nil depth = ptr_value-Full i nil
    inline_pointer-Full i (cons v nil) depth = elim (Bool-cases (info v).only_addr) [
      | inl only ↦ rw only (ptr_value-Full i (cons v nil))
      | inr whole ↦ rw whole refl
    ]
    inline_pointer-Full i (cons v (cons w c)) depth = ptr_value-Full i (cons v (cons w c))

    inline_interface-Full : (c : Variables) (depth : ℕ) → Full (inline_interface printable c depth)
    inline_interface-Full nil depth = refl
    inline_interface-Full (cons v nil) depth = inline_value-Full v depth
    inline_interface-Full (cons v (cons w c)) depth = refl

inline_var-Full :
    (printable : ℕ → Bool) (v : Variable) (max_len : ℕ) → Full (inline_var printable v max_len)
inline_var-Full printable v max_len =
    unfold inline_var in
    Full-cap (inline_value printable v 3) max_len (inline_value-Full printable v 3)

-- A value's one line is never empty, whatever the value and the cap.
pub inline_var-ne-nil :
    (printable : ℕ → Bool) (v : Variable) (max_len : ℕ) → inline_var printable v max_len ≢ []
inline_var-ne-nil printable v max_len e = cc (ap is_empty e, inline_var-Full printable v max_len)
