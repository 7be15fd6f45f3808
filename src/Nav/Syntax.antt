-- ===== src/Nav/Syntax.antt =====
-- The parts of go/ast that `Where` reads, and what it finds in a directory tree.
use golang_debugger_skill.Base.{ℕ, Bool, Option, List, Text, Try}

-- The types that `typeString` tells apart. An array keeps the text of its length, which is empty for a
-- slice; a channel keeps whether one only receives from it.
pub data Expr : Type 0 where
  ident : Text → Expr
  star : Expr → Expr
  selector : Expr → Text → Expr
  array : (len : Text) → Expr → Expr
  map_of : Expr → Expr → Expr
  ellipsis : Expr → Expr
  func_type : Expr
  interface_type : Expr
  chan : (receive_only : Bool) → Expr → Expr
  index : Expr → Expr
  other : Expr

pub record Field : Type 0 where
  pub names : List Text
  pub type : Expr

-- A declaration of a function. The lists are nil where there are no parentheses.
pub record Func : Type 0 where
  pub name : Text
  pub receiver : Option (List Field)
  pub params : Option (List Field)
  pub results : Option (List Field)
  pub line : ℕ

pub data Spec : Type 0 where
  type_spec : (name : Text) (line : ℕ) → Spec
  value_spec : (names : List (Text × ℕ)) → Spec
  import_spec : Spec

pub data Decl : Type 0 where
  func_decl : Func → Decl
  gen_decl : (is_const : Bool) → List Spec → Decl
  bad_decl : Decl

-- A directory tree, each file with what the parser makes of it.
mutual
  pub data Entry : Type 0 where
    file : (base : Text) → Try (List Decl) → Entry
    dir : (base : Text) → Entries → Entry
    unreadable : Entry

  pub data Entries : Type 0 where
    end : Entries
    entry : Entry → Entries → Entries
