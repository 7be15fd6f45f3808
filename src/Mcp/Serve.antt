-- ===== src/Mcp/Serve.antt =====
-- `Serve`, its requests and responses, and what a tool's `run` does.
pub mod Replies
use golang_debugger_skill.Base.{
  ℤ, negsuc, Bool, true, false, Option, none, some, List, [], ◌∷◌, ◌++◌, Text, text, text_eq,
  if◌then◌else◌, Try, value, error, M, pure, fail, attempt, ◌>>=◌, atoi_value, ℕ,
}
use golang_debugger_skill.Client.Root.{FilePath}
use golang_debugger_skill.Client.Link.{Link}
use golang_debugger_skill.Client.Send.{send}
use golang_debugger_skill.Daemon.Serve.{Response}
use golang_debugger_skill.Nav.Where.{Navigator, where_, gopls}
use golang_debugger_skill.Mcp.Json.{
  Json, Items, Members, boolean, string, array, object, no_items, item, no_members, string_arg,
}
use golang_debugger_skill.Mcp.Schema.{Tool, Run, forward, find_symbol, nav_run, members}
use golang_debugger_skill.Mcp.Tools.{tools, tool_named}

-- A request, as it is decoded, without its version, which is not read. The id is the text of its JSON; `tool_name` and `arguments` are what
-- the parameters of a `tools/call` leave.
pub record RpcRequest : Type 0 where
  pub id : Option Text
  pub method : Text
  pub tool_name : Text
  pub arguments : Members

pub record RpcError : Type 0 where
  pub code : ℤ
  pub message : Text

-- A response; its version is always 2.0, and what is not there is left out of its text.
pub record RpcResponse : Type 0 where
  pub id : Text
  pub result : Option Json
  pub failure : Option RpcError

-- A line of the input.
pub data Line : Type 0 where
  blank : Line
  garbled : Line
  request : RpcRequest → Line

-- `reply`: a request without an id has no answer.
abbrev pub reply : Option Text → Option Json → Option RpcError → Option RpcResponse
reply none result failure = none
reply (some id) result failure = some (record { id = id; result = result; failure = failure })

abbrev pub unknown_tool : Text → RpcError
unknown_tool name = record { code = negsuc 32601; message = text "unknown tool " ++ name }

abbrev pub no_method : Text → RpcError
no_method name = record { code = negsuc 32600; message = text "method not found: " ++ name }

version : Text
version = text "0.1.0"

initialized : Json
unfolding version text
initialized = object (
    members (
      (text "protocolVersion", string (text "2024-11-05"))
      ∷ (text "capabilities", object (members ((text "tools", object no_members) ∷ [])))
      ∷ (
        text "serverInfo",
        object
            (members ((text "name", string (text "gdbg")) ∷ (text "version", string version) ∷ [])),
      )
      ∷ []))

abbrev tool_json : Tool → Json
tool_json t = object (
    members (
      (text "name", string t.name)
      ∷ (text "description", string t.description)
      ∷ (text "inputSchema", t.input_schema)
      ∷ []))

abbrev tool_items : List Tool → Items
tool_items [] = no_items
tool_items (t ∷ ts) = item (tool_json t) (tool_items ts)

tool_list : Json
unfolding text
tool_list = object (members ((text "tools", array (tool_items tools)) ∷ []))

-- The result of a tool's run: its text and whether it is an error's.
content : Text → (is_err : Bool) → Json
unfolding text
content t is_err = object (
    members (
      (
        text "content",
        array (
            item
              (object
                (members ((text "type", string (text "text")) ∷ (text "text", string t) ∷ [])))
              no_items),
      )
      ∷ (text "isError", boolean is_err)
      ∷ []))

unfoldable pub called : Try Text → Json
unfolding content
called (value t) = content t false
called (error e) = content e true

abbrev pub with_reply : Option RpcResponse → List RpcResponse → List RpcResponse
with_reply none rs = rs
with_reply (some r) rs = r ∷ rs

module _ (N : Link) (V : Navigator N.State) (rounds : ℕ) (root : FilePath) where
  abbrev Task : Type 0 → Type 0
  Task A = M N.State A

  unfoldable pub as_result : Response → Task Text
  as_result resp = if resp.is_error then fail resp.content else pure resp.content

  unfoldable pub run_tool : Run → Members → Task Text
  unfolding send as_result where_ gopls string_arg atoi_value text
  run_tool (forward build) a = send N rounds root (build a) >>= as_result
  run_tool find_symbol a = where_ V root (string_arg a (text "name"))
  run_tool (nav_run verb) a =
      gopls V root verb (string_arg a (text "file")) (atoi_value (string_arg a (text "line")))
        (atoi_value (string_arg a (text "col")))

  call_tool : RpcRequest → Option Tool → Task (Option RpcResponse)
  unfolding run_tool called
  call_tool req none = pure (reply req.id none (some (unknown_tool req.tool_name)))
  call_tool req (some t) = do
    r ← attempt (run_tool t.run req.arguments)
    pure (reply req.id (some (called r)) none)

  unfoldable pub respond : RpcRequest → Task (Option RpcResponse)
  unfolding call_tool initialized tool_list tool_named text text_eq
  respond req =
      if text_eq req.method (text "initialize")
      then pure (reply req.id (some initialized) none)
      else if text_eq req.method (text "ping")
      then pure (reply req.id (some (object no_members)) none)
      else if text_eq req.method (text "tools/list")
      then pure (reply req.id (some tool_list) none)
      else if text_eq req.method (text "tools/call")
      then call_tool req (tool_named req.tool_name)
      else pure (reply req.id none (some (no_method req.method)))

  -- What is written for the lines read, in order.
  unfoldable pub serve_lines : List Line → Task (List RpcResponse)
  unfolding respond
  serve_lines [] = pure []
  serve_lines (blank ∷ lines) = serve_lines lines
  serve_lines (garbled ∷ lines) = serve_lines lines
  serve_lines (request req ∷ lines) = do
    r ← respond req
    rs ← serve_lines lines
    pure (with_reply r rs)
