-- ===== src/Mcp/Serve/Replies.antt =====
-- Each request is answered, whatever happens to the call that it asks for.
use golang_debugger_skill.Base.{
  Finishes, finishes_rules, Yields, Holds, Yields-pure, Yields-if, Yields-attempt, Yields-bind, ◌≡◌,
  refl, Option, none, some, List, [], ◌∷◌, map, Text, pure,
}
use golang_debugger_skill.Client.Root.{FilePath}
use golang_debugger_skill.Client.Link.{Link}
use golang_debugger_skill.Client.Send.Retry.{IsClock, enough, send-Finishes}
use golang_debugger_skill.Daemon.Serve.{Response}
use golang_debugger_skill.Nav.Where.{Navigator}
use golang_debugger_skill.Nav.Where.Settled.{where_-Finishes, gopls-Finishes}
use golang_debugger_skill.Mcp.Json.{Json, Members}
use golang_debugger_skill.Mcp.Schema.{Tool, Run, forward, find_symbol, nav_run}
use golang_debugger_skill.Mcp.Serve.{
  RpcRequest, RpcResponse, RpcError, Line, blank, garbled, request, reply, as_result, run_tool,
  call_tool, respond, with_reply, serve_lines,
}

abbrev onto : Option Text → List Text → List Text
onto none is = is
onto (some id) is = id ∷ is

-- The ids of the requests that have one.
abbrev pub ids : List Line → List Text
ids [] = []
ids (blank ∷ lines) = ids lines
ids (garbled ∷ lines) = ids lines
ids (request req ∷ lines) = onto req.id (ids lines)

abbrev id_of : Option RpcResponse → Option Text
id_of none = none
id_of (some r) = some r.id

id_of-reply : (id : Option Text) (j : Option Json) (e : Option RpcError) → id_of (reply id j e) ≡ id
id_of-reply none j e = refl
id_of-reply (some id) j e = refl

module _ (N : Link) (clocked : IsClock N) (V : Navigator N.State) (root : FilePath) where
  as_result-Finishes : (r : Response) → Finishes (as_result N V enough root r)
  unfolding as_result
  as_result-Finishes r = search finishes_rules

  run_tool-Finishes : (r : Run) (a : Members) → Finishes (run_tool N V enough root r a)
  unfolding run_tool
  run_tool-Finishes (forward build) a =
      search (finishes_rules, send-Finishes N clocked, as_result-Finishes)
  run_tool-Finishes find_symbol a = where_-Finishes V root _
  run_tool-Finishes (nav_run verb) a = search (gopls-Finishes V root verb)

  -- An answer has the request's id, or there is none.
  abbrev Fits : RpcRequest → Option RpcResponse → Type 0
  Fits req r = id_of r ≡ req.id

  reply-Fits :
      (req : RpcRequest) (j : Option Json) (e : Option RpcError)
      → Yields {S = N.State} (Fits req) (pure (reply req.id j e))
  reply-Fits req j e = Yields-pure _ (id_of-reply req.id j e)

  call_tool-Fits :
      (req : RpcRequest) (t : Option Tool) → Yields (Fits req) (call_tool N V enough root req t)
  unfolding call_tool
  call_tool-Fits req none = reply-Fits req _ _
  call_tool-Fits req (some t) =
      Yields-bind _ _ (Yields-attempt _ (run_tool-Finishes t.run req.arguments))
        (λ r _. reply-Fits req _ _)

  respond-Fits : (req : RpcRequest) → Yields (Fits req) (respond N V enough root req)
  unfolding respond
  respond-Fits req = search (Yields-if, reply-Fits, call_tool-Fits) depth 8

  -- The answers have the lines' ids.
  abbrev pub AreFor : List Line → List RpcResponse → Type 0
  AreFor lines rs = map (λ r. r.id) rs ≡ ids lines

  with_reply-AreFor :
      (req : RpcRequest) (lines : List Line) (r : Option RpcResponse) (rs : List RpcResponse)
      → Fits req r
      → AreFor lines rs
      → AreFor (request req ∷ lines) (with_reply r rs)
  with_reply-AreFor req lines none rs f k = rw (← f) k
  with_reply-AreFor req lines (some r) rs f k = rw (← f, k) refl

  pub serve_lines-Yields :
      (lines : List Line) → Yields (AreFor lines) (serve_lines N V enough root lines)
  unfolding serve_lines
  serve_lines-Yields [] = Yields-pure [] refl
  serve_lines-Yields (blank ∷ lines) = serve_lines-Yields lines
  serve_lines-Yields (garbled ∷ lines) = serve_lines-Yields lines
  serve_lines-Yields (request req ∷ lines) = Yields-bind _ _ (respond-Fits req) (λ r f.
      Yields-bind _ _ (serve_lines-Yields lines)
        (λ rs k. Yields-pure _ (with_reply-AreFor req lines r rs f k)))

  -- On a clock that does not go back and with sleeps that take their time, the server reads every line
  -- and stops with a list of answers: one for each request with an id, in the order of the requests,
  -- whether the call succeeds, fails or is of no known tool or method, and none for the other lines.
  pub serve_lines-answers :
      (lines : List Line) (s : N.State)
      → Holds (λ rs. map (λ r. r.id) rs ≡ ids lines) (serve_lines N V enough root lines s).0
  serve_lines-answers lines s = (serve_lines-Yields lines).at s
