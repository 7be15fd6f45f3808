-- ===== src/Dlv/Types.antt =====
-- internal/dlv/types.go: the structs that gdbg reads, and the parameters that it sends.
use golang_debugger_skill.Base.{
  ℕ, ◌+◌, ◌==◌, Bool, true, Option, List, [], ◌∷◌, Text, ℤ, pos, negsuc, if◌then◌else◌,
}

-- `EvalScope`; the goroutine -1 is the current one.
pub record EvalScope : Type 0 where
  pub goroutine_id : ℤ
  pub frame : ℤ
  pub deferred_call : ℤ

pub record LoadConfig : Type 0 where
  pub follow_pointers : Bool
  pub max_variable_recurse : ℤ
  pub max_string_len : ℤ
  pub max_array_values : ℤ
  pub max_struct_fields : ℤ

abbrev pub default_load : LoadConfig
default_load = record {
  follow_pointers = true;
  max_variable_recurse = pos 2;
  max_string_len = pos 200;
  max_array_values = pos 24;
  max_struct_fields = negsuc 0;
}

pub record Breakpoint : Type 0 where
  pub id : ℤ
  pub name : Text
  pub file : Text
  pub line : ℤ
  pub function_name : Text
  pub cond : Text
  pub hit_cond : Text
  pub watch_expr : Text
  pub total_hit_count : ℕ
  pub disabled : Bool

-- A location's `Function` is a pointer to its name.
pub record Location : Type 0 where
  pub file : Text
  pub line : ℤ
  pub function : Option Text

pub record Goroutine : Type 0 where
  pub id : ℤ
  pub current_loc : Location
  pub user_current_loc : Location

-- The fields of a `Variable` besides its children.
pub record Info : Type 0 where
  pub name : Text
  pub type : Text
  pub kind : ℕ
  pub value : Text
  pub len : ℤ
  pub unreadable : Text
  pub addr : ℕ
  pub only_addr : Bool

mutual
  pub data Variable : Type 0 where
    variable : Info → Variables → Variable

  pub data Variables : Type 0 where
    nil : Variables
    cons : Variable → Variables → Variables

abbrev pub info : Variable → Info
info (variable i c) = i

abbrev pub children : Variable → Variables
children (variable i c) = c

abbrev pub var_list : Variables → List Variable
var_list nil = []
var_list (cons v vs) = v ∷ var_list vs

abbrev pub count : Variables → ℕ
count nil = 0
count (cons v vs) = 1 + count vs

-- `withName`
abbrev pub with_name : Variable → Text → Variable
with_name (variable i c) n = variable (record i { name = n }) c

pub record Thread : Type 0 where
  pub file : Text
  pub line : ℤ
  pub function : Option Text
  pub goroutine_id : ℤ
  pub breakpoint : Option Breakpoint
  pub return_values : List Variable

pub record DebuggerState : Type 0 where
  pub current_thread : Option Thread
  pub watch_out_of_scope : List Breakpoint
  pub exited : Bool
  pub exit_status : ℤ

-- The command names in use.
pub data Command : Type 0 where
  continue next step step_out step_instruction : Command

-- The kinds of `reflect` that rendering tells apart, from their numbers.
pub data Kind : Type 0 where
  array func interface map_kind pointer slice string struct other : Kind

unfoldable pub kind_of : ℕ → Kind
kind_of k =
    if k == 17
    then array
    else if k == 19
    then func
    else if k == 20
    then interface
    else if k == 21
    then map_kind
    else if k == 22
    then pointer
    else if k == 23
    then slice
    else if k == 24
    then string
    else if k == 25
    then struct
    else other
