-- ===== src/Daemon/Render/Tree.antt =====
-- `renderVars` and `renderVarTree`: what each writes to the builder.
use golang_debugger_skill.Base.{
  ℕ, suc, ◌==◌, Bool, List, [], ◌∷◌, ◌++◌, Text, text, is_empty, repeat, if◌then◌else◌, pos, show,
  show_int, trim_newlines, newline, sub_int,
}
use golang_debugger_skill.Dlv.Types.{
  Info, Variable, variable, Variables, nil, cons, info, count, kind_of, array, interface, map_kind,
  pointer, slice, string, struct,
}
use golang_debugger_skill.Daemon.Render.Inline.{
  lacks_children, value_or_brace, ptr_value, quoted, inline_var,
}

-- `strings.Repeat("  ", depth)`, and a line that begins with it and the label.
line : ℕ → Text → Text → Text
unfolding repeat text
line depth label more =
    repeat (text "  ") depth ++ (label ++ (text ": " ++ (more ++ (newline ∷ []))))

assigned : Text → Text → Text
unfolding text
assigned type value = type ++ (text " = " ++ value)

with_len : Info → Text
unfolding text show_int
with_len i = i.type ++ (text " (len " ++ (show_int i.len ++ text ")"))

more_line : ℕ → Info → Variables → Text
unfolding repeat text show_int
more_line depth i c =
    if lacks_children i c
    then repeat (text "  ") depth
      ++ (text "  … " ++ (show_int (sub_int i.len (pos (count c))) ++ text " more\n"))
    else []

abbrev label_or : Text → Text → Text
label_or label name = if is_empty label then name else label

bracketed : Text → Text
bracketed key = b'[' ∷ (key ++ (b']' ∷ []))

arrow : Text → Text → Text
unfolding text
arrow label type = label ++ (text ": " ++ (type ++ text " ->"))

module _ (printable : ℕ → Bool) where
  unfoldable mutual
    unfolding line assigned with_len more_line bracketed arrow value_or_brace ptr_value quoted
        inline_var kind_of show text

    pub render_var_tree : Variable → ℕ → Text → Text
    render_var_tree (variable i c) depth given =
        let label = label_or given i.name in
        if is_empty i.unreadable
        then elim (kind_of i.kind) [
          | struct ↦
              if count c == 0
              then line depth label (assigned i.type (value_or_brace i c))
              else line depth label i.type ++ render_fields c (suc depth)
          | slice ↦
              line depth label (with_len i) ++ (render_items c (suc depth) 0 ++ more_line depth i c)
          | array ↦
              line depth label (with_len i) ++ (render_items c (suc depth) 0 ++ more_line depth i c)
          | map_kind ↦ line depth label (with_len i) ++ render_pairs c (suc depth)
          | pointer ↦ render_pointer i c depth label
          | interface ↦ render_interface i c depth label
          | string ↦ line depth label (assigned (text "string") (quoted printable i))
          | _ ↦ line depth label (assigned i.type (value_or_brace i c))
        ]
        else line depth label (assigned i.type (text "<unreadable: " ++ (i.unreadable ++ text ">")))

    render_fields : Variables → ℕ → Text
    render_fields nil depth = []
    render_fields (cons v vs) depth =
        render_var_tree v depth (info v).name ++ render_fields vs depth

    render_items : Variables → ℕ → ℕ → Text
    render_items nil depth i = []
    render_items (cons v vs) depth i =
        render_var_tree v depth (bracketed (show i)) ++ render_items vs depth (suc i)

    render_pairs : Variables → ℕ → Text
    render_pairs (cons k (cons v vs)) depth =
        render_var_tree v depth (bracketed (inline_var printable k 40)) ++ render_pairs vs depth
    render_pairs _ depth = []

    render_pointer : Info → Variables → ℕ → Text → Text
    render_pointer i (cons v nil) depth label =
        if (info v).only_addr
        then line depth label (assigned i.type (ptr_value i (cons v nil)))
        else render_var_tree v depth (arrow label i.type)
    render_pointer i c depth label = line depth label (assigned i.type (ptr_value i c))

    render_interface : Info → Variables → ℕ → Text → Text
    render_interface i (cons v nil) depth label = render_var_tree v depth label
    render_interface i c depth label = line depth label (assigned i.type (text "nil"))

  render_all : List Variable → Text
  render_all [] = []
  render_all (v ∷ vs) = render_var_tree v 1 (info v).name ++ render_all vs

  unfoldable pub render_vars : List Variable → Text
  unfolding render_all render_var_tree trim_newlines
  render_vars vars = trim_newlines (render_all vars)
