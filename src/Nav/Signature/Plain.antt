-- ===== src/Nav/Signature/Plain.antt =====
-- When a result stands without parentheses.
use golang_debugger_skill.Base.{
  is_some, ℕ, ◌≡◌, refl, ◌∙◌, ap, ◌==◌, Bool, true, false, ◌||◌, none, some, [], ◌∷◌, ◌++◌, Text,
  text, join, contains, has_prefix, strip_prefix,
}
use golang_debugger_skill.Nav.Syntax.{
  Expr, ident, star, selector, array, map_of, ellipsis, func_type, interface_type, chan, index,
  other, Func,
}
use golang_debugger_skill.Nav.Signature.{
  type_string, field_string, signature, result_text, comma, field_strings,
}

abbrev pub NoSpace : Text → Type 0
NoSpace s = contains s (b' ' ∷ []) ≡ false

-- A type written with no channel, its names without a space.
abbrev pub IsPlain : Expr → Type 0
IsPlain (ident name) = NoSpace name
IsPlain (star x) = IsPlain x
IsPlain (selector x sel) = IsPlain x × NoSpace sel
IsPlain (array len elt) = IsPlain elt
IsPlain (map_of k v) = IsPlain k × IsPlain v
IsPlain (ellipsis elt) = IsPlain elt
IsPlain func_type = Unit {0}
IsPlain interface_type = Unit {0}
IsPlain (chan receive_only v) = ⊥
IsPlain (index x) = IsPlain x
IsPlain other = Unit {0}

has_prefix-space : (c : ℕ) (s : Text) → has_prefix (c ∷ s) (b' ' ∷ []) ≡ (b' ' == c)
unfolding has_prefix strip_prefix
has_prefix-space c s = by_test (b' ' == c)
  where
    by_test : (b : Bool) → is_some {A = Text} (elim b [ true ↦ some s | false ↦ none ]) ≡ b
    by_test true = refl
    by_test false = refl

cons-NoSpace : (c : ℕ) (s : Text) → (b' ' == c) ≡ false → NoSpace s → NoSpace (c ∷ s)
unfolding contains
cons-NoSpace c s e h = rw (has_prefix-space c s, e, h)

contains-cons :
    (c : ℕ) (s t : Text)
    → contains (s ++ t) (b' ' ∷ []) ≡ (contains s (b' ' ∷ []) || contains t (b' ' ∷ []))
    → contains (c ∷ (s ++ t)) (b' ' ∷ []) ≡ (contains (c ∷ s) (b' ' ∷ []) || contains t (b' ' ∷ []))
unfolding contains
contains-cons c s t h = rw (has_prefix-space c (s ++ t), has_prefix-space c s) (by_test (b' ' == c))
  where
    by_test :
        (b : Bool)
        → (b || contains (s ++ t) (b' ' ∷ []))
          ≡ ((b || contains s (b' ' ∷ [])) || contains t (b' ' ∷ []))
    by_test true = refl
    by_test false = h

contains-append :
    (s t : Text)
    → contains (s ++ t) (b' ' ∷ []) ≡ (contains s (b' ' ∷ []) || contains t (b' ' ∷ []))
contains-append [] t = unfold contains in refl
contains-append (c ∷ s) t = contains-cons c s t (contains-append s t)

append-NoSpace : (s t : Text) → NoSpace s → NoSpace t → NoSpace (s ++ t)
append-NoSpace s t hs ht = contains-append s t ∙ rw (hs, ht)

-- The words between the parts of a type.
words-NoSpace :
    NoSpace (text "[]")
    × NoSpace (text "map[")
    × NoSpace (text "...")
    × NoSpace (text "func(…)")
    × NoSpace (text "interface{…}")
    × NoSpace (text "[…]")
    × NoSpace (text "?")
unfolding text contains has_prefix strip_prefix
words-NoSpace = (refl, refl, refl, refl, refl, refl, refl)

type_string-NoSpace : (e : Expr) → IsPlain e → NoSpace (type_string e)
unfolding type_string
type_string-NoSpace (ident name) h = h
type_string-NoSpace (star x) h = cons-NoSpace b'*' _ refl (type_string-NoSpace x h)
type_string-NoSpace (selector x sel) (hx, hs) =
    append-NoSpace _ _ (type_string-NoSpace x hx) (cons-NoSpace b'.' sel refl hs)
type_string-NoSpace (array len elt) h =
    append-NoSpace _ _ words-NoSpace.0 (type_string-NoSpace elt h)
type_string-NoSpace (map_of k v) (hk, hv) = append-NoSpace _ _ words-NoSpace.1 (
    append-NoSpace _ _ (type_string-NoSpace k hk)
      (cons-NoSpace b']' _ refl (type_string-NoSpace v hv)))
type_string-NoSpace (ellipsis elt) h =
    append-NoSpace _ _ words-NoSpace.2 (type_string-NoSpace elt h)
type_string-NoSpace func_type h = words-NoSpace.3
type_string-NoSpace interface_type h = words-NoSpace.4
type_string-NoSpace (chan receive_only v) h = absurd h
type_string-NoSpace (index x) h = append-NoSpace _ _ (type_string-NoSpace x h) words-NoSpace.5
type_string-NoSpace other h = words-NoSpace.6

result_text-plain : (r : Text) → NoSpace r → result_text (r ∷ []) ≡ b' ' ∷ r
unfolding result_text
result_text-plain r h = rw h

-- A function with one result, unnamed and of a type without a channel, has its signature end in the
-- type, after a space and without parentheses.
pub signature-plain :
    (f : Func) (e : Expr)
    → IsPlain e
    → f.results ≡ some (record { names = []; type = e } ∷ [])
    → signature f
      ≡ text "(" ++ (join comma (field_strings f.params) ++ (text ")" ++ (b' ' ∷ type_string e)))
unfolding signature field_string
signature-plain f e h r = rw r (
    ap (λ t. text "(" ++ (join comma (field_strings f.params) ++ (text ")" ++ t)))
      (result_text-plain (type_string e) (type_string-NoSpace e h)))
