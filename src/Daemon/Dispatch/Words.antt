-- ===== src/Daemon/Dispatch/Words.antt =====
-- The words of a script are no longer than the script.
use golang_debugger_skill.Base.{
  ℕ, suc, ◌+◌, ◌≤◌, ◌<◌, ◌==◌, List, [], ◌∷◌, ◌++◌, map, arith, Text, All, length, length-append,
  join, split, fields, fields_from, is_space, flush, onto_first, Bool-cases, inl, inr,
}

-- The length of a command line whose words are joined by blanks.
abbrev pub size : List Text → ℕ
size words = length (join (b' ' ∷ []) words)

size-cons : (w : Text) (ws : List Text) → size (w ∷ ws) ≤ length w + suc (size ws)
unfolding join
size-cons w [] = omega arith
size-cons w (v ∷ ws) = omega (arith, length-append w (b' ' ∷ join (b' ' ∷ []) (v ∷ ws)))

pub size-tail : (cmd a : Text) (args : List Text) → size (a ∷ args) < size (cmd ∷ a ∷ args)
unfolding join
size-tail cmd a args = omega (arith, length-append cmd (b' ' ∷ join (b' ' ∷ []) (a ∷ args)))

size-flush :
    (word : Text) (rest : List Text) (n : ℕ)
    → size rest ≤ n
    → size (flush word rest) ≤ length word + suc n
size-flush [] rest n h = omega arith
size-flush (c ∷ word) rest n h = omega (arith, size-cons (c ∷ word) rest)

size-flush_nil : (word : Text) → size (flush word []) ≤ length word
unfolding join
size-flush_nil [] = omega arith
size-flush_nil (c ∷ word) = omega arith

size-fields_from : (word s : Text) → size (fields_from word s) ≤ length word + length s
unfolding fields_from
size-fields_from word [] = omega (arith, size-flush_nil word)
size-fields_from word (c ∷ s) = elim (Bool-cases (is_space c)) [
  | inl space ↦
      rw (space, fields_from)
        (size-flush word (fields_from [] s) (length s) (omega (arith, size-fields_from [] s)))
  | inr other ↦
      rw (other, fields_from)
        (omega (arith, size-fields_from (word ++ (c ∷ [])) s, length-append word (c ∷ [])))
]

pub size-fields : (s : Text) → size (fields s) ≤ length s
unfolding fields
size-fields s = omega (arith, size-fields_from [] s)

All-weaker : (n : ℕ) (ps : List Text) → All (λ p. length p ≤ n) ps → All (λ p. length p ≤ suc n) ps
All-weaker n [] h = tt
All-weaker n (p ∷ ps) (h, hs) = (omega arith, All-weaker n ps hs)

onto_first-All :
    (c n : ℕ) (ps : List Text)
    → All (λ p. length p ≤ n) ps
    → All (λ p. length p ≤ suc n) (onto_first c ps)
onto_first-All c n [] h = omega arith
onto_first-All c n (p ∷ ps) (h, hs) = (omega arith, All-weaker n ps hs)

length-split : (sep : ℕ) (s : Text) → All (λ p. length p ≤ length s) (split sep s)
unfolding split
length-split sep [] = (omega arith, tt)
length-split sep (c ∷ s) = elim (Bool-cases (c == sep)) [
  | inl e ↦ rw e (omega arith, All-weaker (length s) (split sep s) (length-split sep s))
  | inr e ↦ rw e (onto_first-All c (length s) (split sep s) (length-split sep s))
]

map-fields :
    (n : ℕ) (ps : List Text) → All (λ p. length p ≤ n) ps → All (λ ws. size ws ≤ n) (map fields ps)
map-fields n [] h = tt
map-fields n (p ∷ ps) (h, hs) = (omega (arith, size-fields p), map-fields n ps hs)

-- Every command of a script is no longer than the script.
pub size-script :
    (args : List Text)
    → All (λ ws. size ws ≤ size args) (map fields (split b';' (join (b' ' ∷ []) args)))
size-script args =
    map-fields (size args) (split b';' (join (b' ' ∷ []) args))
      (length-split b';' (join (b' ' ∷ []) args))
