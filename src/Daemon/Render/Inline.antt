-- ===== src/Daemon/Render/Inline.antt =====
-- `inlineVar`, `inlineValue`, `quoted`, `ptrValue` and `valueOrBrace`.
pub mod Bounds
use golang_debugger_skill.Base.{
  ℕ, zero, suc, ◌-◌, ◌==◌, Bool, true, false, ◌&&◌, not, List, [], ◌∷◌, ◌++◌, Text, text, is_empty,
  join, byte_len, length, take, ltb, if◌then◌else◌, ℤ, pos, show_int, ltb_ℤ, hex, quote,
}
use golang_debugger_skill.Dlv.Types.{
  Info, Variable, variable, Variables, nil, cons, info, children, count, kind_of, array, func,
  interface, map_kind, pointer, slice, string, struct, other, Kind,
}

-- `int64(len(v.Children)) < v.Len`
abbrev pub lacks_children : Info → Variables → Bool
lacks_children i c = ltb_ℤ (pos (count c)) i.len

ellipsis : Text
unfolding text
ellipsis = text "…"

abbrev brace : Kind → Text
brace func = text "nil"
brace _ = text "{}"

unfoldable pub value_or_brace : Info → Variables → Text
unfolding text kind_of ellipsis
value_or_brace i nil = if is_empty i.value then brace (kind_of i.kind) else i.value
value_or_brace i (cons c cs) =
    if is_empty i.value then b'{' ∷ (ellipsis ++ (b'}' ∷ [])) else i.value

abbrev value_or_nil : Text → Text
value_or_nil value = if is_empty value then text "nil" else value

-- A nil slice of children and an empty one both lead to the value, or to "nil".
unfoldable pub ptr_value : Info → Variables → Text
unfolding text hex
ptr_value i (cons (variable c _) nil) =
    if c.only_addr
    then (if c.addr == 0 then text "nil" else text "0x" ++ hex c.addr)
    else value_or_nil i.value
ptr_value i _ = value_or_nil i.value

list_text : Info → Variables → List Text → Text
unfolding text join
list_text i c parts =
    b'[' ∷ (join (text ", ") parts ++ ((if lacks_children i c then text ", …" else []) ++ text "]"))

-- The cap is in characters; each caller's is 40 at least.
unfoldable pub cap : Text → ℕ → Text
unfolding ellipsis
cap s max_len = if ltb max_len (length s) then take (max_len - 1) s ++ ellipsis else s

module _ (printable : ℕ → Bool) where
  unfoldable pub quoted : Info → Text
  unfolding quote ellipsis byte_len show_int text
  quoted i =
      if ltb_ℤ (pos (byte_len i.value)) i.len
      then quote printable i.value ++ (ellipsis ++ (text " (len " ++ (show_int i.len ++ text ")")))
      else quote printable i.value

  -- At depth 0 nothing is looked into. A pointer and an interface do not count as a level.
  unfoldable mutual
    unfolding quoted value_or_brace ptr_value ellipsis list_text text join kind_of

    pub inline_value : Variable → ℕ → Text
    inline_value (variable i c) depth =
        if is_empty i.unreadable
        then (if depth == 0 then ellipsis else elim (kind_of i.kind) [
          | string ↦ quoted i
          | struct ↦
              if count c == 0
              then value_or_brace i c
              else i.type ++ (b'{' ∷ (join (text ", ") (inline_fields c (depth - 1)) ++ text "}"))
          | slice ↦ list_text i c (inline_items c (depth - 1))
          | array ↦ list_text i c (inline_items c (depth - 1))
          | map_kind ↦ text "map[" ++ (join (text ", ") (inline_pairs c (depth - 1)) ++ text "]")
          | pointer ↦ inline_pointer i c depth
          | interface ↦ inline_interface c depth
          | _ ↦ value_or_brace i c
        ])
        else text "<unreadable>"

    inline_fields : Variables → ℕ → List Text
    inline_fields nil depth = []
    inline_fields (cons v vs) depth =
        ((info v).name ++ (text ": " ++ inline_value v depth)) ∷ inline_fields vs depth

    inline_items : Variables → ℕ → List Text
    inline_items nil depth = []
    inline_items (cons v vs) depth = inline_value v depth ∷ inline_items vs depth

    inline_pairs : Variables → ℕ → List Text
    inline_pairs (cons k (cons v vs)) depth =
        (inline_value k depth ++ (text ": " ++ inline_value v depth)) ∷ inline_pairs vs depth
    inline_pairs _ depth = []

    inline_pointer : Info → Variables → ℕ → Text
    inline_pointer i (cons v nil) depth =
        if (info v).only_addr then ptr_value i (cons v nil) else b'&' ∷ inline_value v depth
    inline_pointer i c depth = ptr_value i c

    inline_interface : Variables → ℕ → Text
    inline_interface (cons v nil) depth = inline_value v depth
    inline_interface c depth = text "nil"

  unfoldable pub inline_var : Variable → ℕ → Text
  unfolding inline_value cap
  inline_var v max_len = cap (inline_value v 3) max_len
