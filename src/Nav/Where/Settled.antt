-- ===== src/Nav/Where/Settled.antt =====
-- Navigation comes to an end.
use golang_debugger_skill.Base.{Finishes, finishes_rules, Option, none, some, List, Text, ℤ}
use golang_debugger_skill.Client.Root.{FilePath}
use golang_debugger_skill.Nav.Where.{Navigator, where_, has_gopls, run, result, ask_gopls, gopls}

module _ {S : Type 0} (V : Navigator S) where
  pub where_-Finishes : (root : FilePath) (name : Text) → Finishes (where_ V root name)
  unfolding where_
  where_-Finishes root name = record { at = λ s. tt }

  has_gopls-Finishes : Finishes (has_gopls V)
  unfolding has_gopls
  has_gopls-Finishes = record { at = λ s. tt }

  run-Finishes : (args : List Text) (root : FilePath) → Finishes (run V args root)
  unfolding run
  run-Finishes args root = record { at = λ s. tt }

  result-Finishes : (verb : Text) (r : Text × Option Text) → Finishes (result V verb r)
  unfolding result
  result-Finishes verb (out, none) = search finishes_rules
  result-Finishes verb (out, some e) = search finishes_rules

  ask_gopls-Finishes :
      (root : FilePath) (verb file : Text) (line col : ℤ)
      → Finishes (ask_gopls V root verb file line col)
  unfolding ask_gopls
  ask_gopls-Finishes root verb file line col =
      search (finishes_rules, run-Finishes, result-Finishes) depth 5

  pub gopls-Finishes :
      (root : FilePath) (verb file : Text) (line col : ℤ)
      → Finishes (gopls V root verb file line col)
  unfolding gopls
  gopls-Finishes root verb file line col =
      search (finishes_rules, has_gopls-Finishes, ask_gopls-Finishes) depth 6
