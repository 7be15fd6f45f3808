-- ===== src/Daemon/Session/Logpoint/Pieces.antt =====
-- How a template is cut at its expressions.
use golang_debugger_skill.Base.{
  ℕ, ◌==◌, ==_iff, ◌≡◌, ◌≢◌, refl, sym, ap, ◌∙◌, false, Bool-cases, inl, inr, Option, none, some,
  List, [], append-nil, ◌∷◌, ◌++◌, append_assoc, Text, All, All-append, arith,
}
use golang_debugger_skill.Daemon.Session.Logpoint.{Piece, plain, hole, pieces, closed}

-- A piece as the template has it.
abbrev pub source : Piece → Text
source (plain t) = t
source (hole e) = b'{' ∷ (e ++ (b'}' ∷ []))

abbrev pub written : List Piece → Text
written [] = []
written (p ∷ ps) = source p ++ written ps

-- What the template has from an open brace on.
abbrev opened : Option Text → Text
opened none = []
opened (some e) = b'{' ∷ e

-- A match of the pattern has at least one character between its braces, and no brace among them.
abbrev pub IsInner : Text → Type 0
IsInner = All (λ c. (c ≢ b'{') × (c ≢ b'}'))

abbrev pub IsMatch : Piece → Type 0
IsMatch (plain t) = Unit {0}
IsMatch (hole e) = (e ≢ []) × IsInner e

abbrev InnerOpen : Option Text → Type 0
InnerOpen none = Unit {0}
InnerOpen (some e) = IsInner e

source-closed : (e : Text) → source (closed e) ≡ b'{' ∷ (e ++ (b'}' ∷ []))
source-closed [] = refl
source-closed (c ∷ e) = refl

closed-IsMatch : (e : Text) → IsInner e → IsMatch (closed e)
closed-IsMatch [] h = tt
closed-IsMatch (c ∷ e) h = ((λ p. cc), h)

is_other : (c d : ℕ) → c ≢ d → (c == d) ≡ false
is_other c d ne = ground arith

other_is : (c d : ℕ) → (c == d) ≡ false → c ≢ d
other_is c d h = ground arith

written-pieces : (o : Option Text) (tmpl : Text) → written (pieces o tmpl) ≡ opened o ++ tmpl
unfolding pieces
written-pieces none [] = refl
written-pieces none (c ∷ s) = elim (Bool-cases (c == b'{')) [
  | inl e ↦
      rw (e, pieces) (written-pieces (some []) s ∙ ap (λ d. d ∷ s) (sym ((==_iff c b'{').0 e)))
  | inr e ↦ rw (e, pieces) (ap (λ t. c ∷ t) (written-pieces none s))
]
written-pieces (some e) [] = refl
written-pieces (some e) (c ∷ s) = elim (Bool-cases (c == b'}')) [
  | inl f ↦
      rw (f, pieces)
        (ap (λ t. t ++ written (pieces none s)) (source-closed e)
          ∙ ap (λ t. b'{' ∷ t)
              (append_assoc e (b'}' ∷ []) (written (pieces none s))
                ∙ ap (λ t. e ++ t)
                    (ap (λ t. b'}' ∷ t) (written-pieces none s)
                      ∙ ap (λ d. d ∷ s) (sym ((==_iff c b'}').0 f)))))
  | inr f ↦ elim (Bool-cases (c == b'{')) [
    | inl g ↦
        rw (f, g, pieces)
          (ap (λ t. b'{' ∷ (e ++ t))
            (written-pieces (some []) s ∙ ap (λ d. d ∷ s) (sym ((==_iff c b'{').0 g))))
    | inr g ↦
        rw (f, g, pieces)
          (written-pieces (some (e ++ (c ∷ []))) s ∙ ap (λ t. b'{' ∷ t) (append_assoc e (c ∷ []) s))
  ]
]

pieces-IsMatch : (o : Option Text) (tmpl : Text) → InnerOpen o → All IsMatch (pieces o tmpl)
unfolding pieces
pieces-IsMatch none [] h = tt
pieces-IsMatch none (c ∷ s) h = elim (Bool-cases (c == b'{')) [
  | inl e ↦ rw (e, pieces) (pieces-IsMatch (some []) s tt)
  | inr e ↦ rw (e, pieces) (tt, pieces-IsMatch none s tt)
]
pieces-IsMatch (some e) [] h = (tt, tt)
pieces-IsMatch (some e) (c ∷ s) h = elim (Bool-cases (c == b'}')) [
  | inl f ↦ rw (f, pieces) (closed-IsMatch e h, pieces-IsMatch none s tt)
  | inr f ↦ elim (Bool-cases (c == b'{')) [
    | inl g ↦ rw (f, g, pieces) (tt, pieces-IsMatch (some []) s tt)
    | inr g ↦
        rw (f, g, pieces)
          (pieces-IsMatch (some (e ++ (c ∷ []))) s
            (All-append _ e (c ∷ []) h ((other_is c b'{' g, other_is c b'}' f), tt)))
  ]
]

-- Behind an open brace, characters that are no braces are collected up to the closing one.
pieces-inner :
    (e f rest : Text)
    → IsInner f
    → pieces (some e) (f ++ (b'}' ∷ rest)) ≡ closed (e ++ f) ∷ pieces none rest
unfolding pieces
pieces-inner e [] rest h = rw append-nil refl
pieces-inner e (c ∷ f) rest ((ne, ne'), h) =
    rw (is_other c b'}' ne', pieces, is_other c b'{' ne)
      (pieces-inner (e ++ (c ∷ [])) f rest h
        ∙ ap (λ t. closed t ∷ pieces none rest) (append_assoc e (c ∷ []) f))

-- At an opening brace, what came before is done with.
pieces-brace :
    (o : Option Text) (p s : Text) → pieces o (p ++ (b'{' ∷ s)) ≡ pieces o p ++ pieces (some []) s
unfolding pieces
pieces-brace none [] s = refl
pieces-brace none (c ∷ p) s = elim (Bool-cases (c == b'{')) [
  | inl e ↦ rw (e, pieces) (pieces-brace (some []) p s)
  | inr e ↦ rw (e, pieces) (ap (λ ps. plain (c ∷ []) ∷ ps) (pieces-brace none p s))
]
pieces-brace (some e) [] s = refl
pieces-brace (some e) (c ∷ p) s = elim (Bool-cases (c == b'}')) [
  | inl f ↦ rw (f, pieces) (ap (λ ps. closed e ∷ ps) (pieces-brace none p s))
  | inr f ↦ elim (Bool-cases (c == b'{')) [
    | inl g ↦ rw (f, g, pieces) (ap (λ ps. plain (b'{' ∷ e) ∷ ps) (pieces-brace (some []) p s))
    | inr g ↦ rw (f, g, pieces) (pieces-brace (some (e ++ (c ∷ []))) p s)
  ]
]

pieces-match :
    (p : Text) (c : ℕ) (e rest : Text)
    → IsInner (c ∷ e)
    → pieces none (p ++ (b'{' ∷ ((c ∷ e) ++ (b'}' ∷ rest))))
      ≡ pieces none p ++ (hole (c ∷ e) ∷ pieces none rest)
pieces-match p c e rest h =
    pieces-brace none p ((c ∷ e) ++ (b'}' ∷ rest))
    ∙ ap (λ ps. pieces none p ++ ps) (pieces-inner [] (c ∷ e) rest h)

-- Cut into pieces and put together again, a template is as it was; every expression has a character
-- and no brace; and wherever in a template an opening brace, characters without a brace, at least one,
-- and a closing brace stand, they are read as that expression, and what is before and behind them is
-- read as it is alone.
pub pieces-written :
    (tmpl : Text)
    → (written (pieces none tmpl) ≡ tmpl)
      × (All IsMatch (pieces none tmpl)
          × ((p : Text) (c : ℕ) (e rest : Text)
              → IsInner (c ∷ e)
              → pieces none (p ++ (b'{' ∷ ((c ∷ e) ++ (b'}' ∷ rest))))
                ≡ pieces none p ++ (hole (c ∷ e) ∷ pieces none rest)))
pieces-written tmpl = (written-pieces none tmpl, (pieces-IsMatch none tmpl tt, pieces-match))
