-- ===== src/Daemon/Session/Stop/Changes.antt =====
-- What the next stop reports of the locals.
use golang_debugger_skill.Base.{
  Option, none, text_eq, if◌then◌else◌, Bool-cases, inl, inr, sym, subst, ◌≡◌, ◌≢◌, refl, ℕ, Bool,
  some, List, [], ◌∷◌, Text, All, text_eq_iff, text_eq_refl, ◌∙◌, arith, ap, Res, ok, pure,
  and_then, ◌>>=◌, ◌>>◌,
}
use golang_debugger_skill.Dlv.Types.{Variable, info, default_load}
use golang_debugger_skill.Daemon.Args.Flags.{lookup, insert}
use golang_debugger_skill.Daemon.Args.Laws.{lookup-insert}
use golang_debugger_skill.Daemon.Render.Inline.{inline_var}
use golang_debugger_skill.Daemon.Session.Stop.{
  Change, change_of, changes, next_locals, delta_text, current_vars, render_delta_locals,
}
use golang_debugger_skill.Dlv.Client.{Outside}
use golang_debugger_skill.Daemon.State.{World, Io, current, update}
use golang_debugger_skill.Daemon.Commands.Inspect.Keeps.{current_vars-Keeps}

-- No later variable has the name.
abbrev Fresh : Text → List Variable → Type 0
Fresh name = All (λ v. (info v).name ≢ name)

-- No two variables have one name.
abbrev pub IsDistinct : List Variable → Type 0
IsDistinct [] = Unit {0}
IsDistinct (v ∷ vs) = Fresh (info v).name vs × IsDistinct vs

module _ (printable : ℕ → Bool) where
  lookup-next_locals :
      (name : Text) (last : List (Text × Text)) (vs : List Variable)
      → Fresh name vs
      → lookup name (next_locals printable last vs) ≡ lookup name last
  unfolding next_locals
  lookup-next_locals name last [] h = refl
  lookup-next_locals name last (v ∷ vs) (h, hs) =
      lookup-next_locals name (insert (info v).name (inline_var printable v 90) last) vs hs
      ∙ ground (
        arith,
        text_eq_iff (info v).name name,
        lookup-insert (info v).name name (inline_var printable v 90) last,
      )

  -- The value that is kept for each of the variables.
  kept :
      (last : List (Text × Text)) (vs : List Variable)
      → IsDistinct vs
      → All
          (λ v.
            lookup (info v).name (next_locals printable last vs) ≡ some (inline_var printable v 90))
          vs
  unfolding next_locals
  kept last [] h = tt
  kept last (v ∷ vs) (h, hs) = (
    lookup-next_locals (info v).name (insert (info v).name (inline_var printable v 90) last) vs h
        ∙ ground (
          arith,
          text_eq_iff (info v).name (info v).name,
          text_eq_refl (info v).name,
          lookup-insert (info v).name (info v).name (inline_var printable v 90) last,
        ),
    kept (insert (info v).name (inline_var printable v 90) last) vs hs,
  )

  none_changed :
      (last : List (Text × Text)) (vs : List Variable)
      → All (λ v. lookup (info v).name last ≡ some (inline_var printable v 90)) vs
      → changes printable last vs ≡ []
  unfolding changes
  none_changed last [] h = refl
  none_changed last (v ∷ vs) (h, hs) =
      rw (h, text_eq_refl (inline_var printable v 90)) (none_changed last vs hs)

  changes-next_locals :
      (vs : List Variable) → IsDistinct vs → changes printable (next_locals printable [] vs) vs ≡ []
  changes-next_locals vs h = none_changed (next_locals printable [] vs) vs (kept [] vs h)

-- The variable of a name
abbrev pub named : Text → List Variable → Option Variable
named name [] = none
named name (u ∷ us) = if text_eq (info u).name name then some u else named name us

Fresh-named : (name : Text) (vs : List Variable) → Fresh name vs → named name vs ≡ none
Fresh-named name [] h = refl
Fresh-named name (v ∷ vs) (h, hs) =
    ground (arith, text_eq_iff (info v).name name, h, Fresh-named name vs hs)

module _ (printable : ℕ → Bool) where
  -- Between the variables of two stops: those that are new or have another value, as it is shown, at the second.
  abbrev pub differing : (olds news : List Variable) → List Change
  differing olds [] = []
  differing olds (v ∷ news) =
      let now = inline_var printable v 90 in
      let rest = differing olds news in
      elim (named (info v).name olds) [
        | none ↦ record { name = (info v).name; now = now; was = [] } ∷ rest
        | some u ↦
            if text_eq (inline_var printable u 90) now
            then rest
            else record { name = (info v).name; now = now; was = inline_var printable u 90 } ∷ rest
      ]

  abbrev or_last : Option Text → Option Variable → Option Text
  or_last last none = last
  or_last last (some u) = some (inline_var printable u 90)

  named-next_locals :
      (name : Text) (last : List (Text × Text)) (vs : List Variable)
      → IsDistinct vs
      → lookup name (next_locals printable last vs) ≡ or_last (lookup name last) (named name vs)
  unfolding next_locals
  named-next_locals name last [] h = refl
  named-next_locals name last (v ∷ vs) (h, hs) = elim (Bool-cases (text_eq (info v).name name)) [
    | inl e ↦ rw e (
        lookup-next_locals printable name (insert (info v).name (inline_var printable v 90) last) vs
          (subst (λ n. Fresh n vs) ((text_eq_iff (info v).name name).0 e) h)
        ∙ ground (
          arith,
          e,
          text_eq_iff (info v).name name,
          lookup-insert (info v).name name (inline_var printable v 90) last,
        ))
    | inr e ↦ rw e (
        named-next_locals name (insert (info v).name (inline_var printable v 90) last) vs hs
        ∙ ap (λ o. or_last o (named name vs))
            (ground (
              arith,
              e,
              text_eq_iff (info v).name name,
              lookup-insert (info v).name name (inline_var printable v 90) last,
            )))
  ]

  changes-differing :
      (olds news : List Variable)
      → IsDistinct olds
      → changes printable (next_locals printable [] olds) news ≡ differing olds news
  unfolding changes
  changes-differing olds [] d = refl
  changes-differing olds (v ∷ news) d =
      by_name (named (info v).name olds) (named-next_locals (info v).name [] olds d)
        (changes-differing olds news d)
    where
      by_name :
          (u : Option Variable)
          → lookup (info v).name (next_locals printable [] olds) ≡ or_last none u
          → changes printable (next_locals printable [] olds) news ≡ differing olds news
          → change_of
              (info v).name
              (inline_var printable v 90)
              (lookup (info v).name (next_locals printable [] olds))
              (changes printable (next_locals printable [] olds) news)
            ≡ elim u [
              | none ↦
                  record { name = (info v).name; now = inline_var printable v 90; was = [] }
                  ∷ differing olds news
              | some t ↦
                  if text_eq (inline_var printable t 90) (inline_var printable v 90)
                  then differing olds news
                  else record {
                    name = (info v).name;
                    now = inline_var printable v 90;
                    was = inline_var printable t 90;
                  }
                    ∷ differing olds news
            ]
      by_name none h ih = rw (h, ih) refl
      by_name (some t) h ih = rw (h, ih) refl

module _ (X : Outside) where
  abbrev vars_of : World X → Res (List Variable)
  vars_of w = (current_vars X default_load w).0

  -- The calls for the variables do not touch the values of the stop before.
  current_vars-last_locals :
      (w : World X) → (current_vars X default_load w).1.session.last_locals ≡ w.session.last_locals
  current_vars-last_locals w =
      (current_vars-Keeps X (λ s. s.last_locals ≡ w.session.last_locals) default_load).at w refl

  abbrev shown : List Variable → Io X Text
  shown vs = do
    s ← current X
    update X (λ t. record t { last_locals = next_locals X.printable [] vs })
    pure (delta_text (changes X.printable s.last_locals vs))

  render-text :
      (vs : List Variable) (r : Res (List Variable) × World X)
      → r.0 ≡ ok vs
      → (and_then r shown).0 ≡ ok (delta_text (changes X.printable r.1.session.last_locals vs))
  unfolding ◌>>=◌ current update pure
  render-text vs (x, w) h = rw h refl

  render-last_locals :
      (vs : List Variable) (r : Res (List Variable) × World X)
      → r.0 ≡ ok vs
      → (and_then r shown).1.session.last_locals ≡ next_locals X.printable [] vs
  unfolding ◌>>=◌ current update pure
  render-last_locals vs (x, w) h = rw h refl

  pub render_delta_locals-differing :
      (w w' : World X) (olds news : List Variable)
      → IsDistinct olds
      → (current_vars X default_load w).0 ≡ ok olds
      → w'.session.last_locals ≡ (render_delta_locals X w).1.session.last_locals
      → (current_vars X default_load w').0 ≡ ok news
      → ((render_delta_locals X w').0 ≡ ok (delta_text (differing X.printable olds news)))
        × (differing X.printable olds olds ≡ [])
  unfolding render_delta_locals ◌>>=◌
  render_delta_locals-differing w w' olds news d h k h' = (
    render-text news (current_vars X default_load w') h'
        ∙ ap (λ last. ok (delta_text (changes X.printable last news)))
            (current_vars-last_locals w'
              ∙ k
              ∙ render-last_locals olds (current_vars X default_load w) h)
        ∙ ap (λ cs. ok (delta_text cs)) (changes-differing X.printable olds news d),
    sym (changes-differing X.printable olds olds d) ∙ changes-next_locals X.printable olds d,
  )
