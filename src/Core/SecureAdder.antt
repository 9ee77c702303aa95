-- ===== src/Core/SecureAdder.antt =====
-- src/core/secure_adder.go: the gate between the sources' tools and the MCP server. The server of
-- mcp-go is seen as the list of the AddTool calls that reach it. The arguments and the results of
-- tools, the audit logger and what handlers change are unknown types.
pub mod Laws
pub mod Rate
use mcpyeahyouknowme.Prelude.{
  ℕ, ◌<>◌, String, Bool, true, false, not, ◌&&◌, Option, none, some, List, [], ◌∷◌, ◌++◌,
  if◌then◌else◌, contains, string_eq,
}
use mcpyeahyouknowme.Prelude.Int.{pos}
use mcpyeahyouknowme.Core.RateLimiter.{RateLimiter, new_rate_limiter, allow, minute}
use mcpyeahyouknowme.Core.Config.{McpConfig, effective_mutating_tools_per_min}

-- mcp.Tool, as far as the gate reads it.
pub record Tool : Type 0 where
  pub name : String
  pub read_only_hint : Option Bool

unfoldable pub tool_is_read_only : Tool → Bool
tool_is_read_only tool = elim tool.read_only_hint [ none ↦ false | some hint ↦ hint ]

unfoldable pub tool_needs_rate_limit : Tool → Bool
unfolding tool_is_read_only
tool_needs_rate_limit tool = not (tool_is_read_only tool)

-- What the wrapped handlers of one server share.
pub record Shared (Audit World : Type 0) : Type 0 where
  pub audit : Audit
  pub limiter : RateLimiter
  pub world : World

abbrev pub Handler : Type 0 → Type 0 → Type 0 → Type 0
Handler Args Result World = Args → World → Result × World

-- The second test of the wrapped handler: the limiter is asked only for a mutating tool.
unfoldable pub pass : Tool → ℕ → RateLimiter → RateLimiter × Bool
unfolding tool_needs_rate_limit
pass tool now limiter =
    if tool_needs_rate_limit tool then allow limiter tool.name now else (limiter, true)

abbrev pub rate_limit_message : String → String
rate_limit_message name = "rate limit: too many mutating tool calls for " <> name <> " this minute"

-- `log` is the audit logger's Log on a receiver that may be nil, and `tool_error` is
-- mcp.NewToolResultError.
module _ {Args Result World Audit : Type 0} (log : Audit → String → Args → Audit)
    (tool_error : String → Result) where
  unfoldable pub wrapped :
      Tool → Handler Args Result World → ℕ → Args → Shared Audit World → Result × Shared Audit World
  unfolding pass
  wrapped tool handler now args s =
      let audit = log s.audit tool.name args in
      let (limiter, allowed) = pass tool now s.limiter in
      if allowed
      then (let (result, world) = handler args s.world in
          (result, record { audit = audit; limiter = limiter; world = world }))
      else (
        tool_error (rate_limit_message tool.name),
        record s { audit = audit; limiter = limiter },
      )

-- The adder; `H` is the type of handlers, and `inner` the AddTool calls so far, each with the handler
-- that the server would run through `wrapped`.
pub record SecureToolAdder {ℓ} (H : Type ℓ) : Type ℓ where
  pub inner : List (Tool × H)
  pub cfg : McpConfig
  pub disabled : List String
  pub limiter : RateLimiter

unfoldable pub new_secure_tool_adder {ℓ} : {H : Type ℓ} → McpConfig → SecureToolAdder H
new_secure_tool_adder cfg = record {
  inner = [];
  cfg = cfg;
  disabled = cfg.disabled_tools;
  limiter = new_rate_limiter (pos (effective_mutating_tools_per_min cfg)) (pos minute);
}

-- AddTool; a nil handler is `none`.
unfoldable pub add_tool {ℓ} : {H : Type ℓ} → SecureToolAdder H → Tool → Option H → SecureToolAdder H
unfolding tool_is_read_only
add_tool a tool none = a
add_tool a tool (some handler) =
    if contains a.disabled tool.name
    then a
    else if a.cfg.read_only && not (tool_is_read_only tool)
    then a
    else record a { inner = a.inner ++ ((tool, handler) ∷ []) }

-- RegisterTools of the sources: a row of AddTool calls.
unfoldable pub add_tools {ℓ} :
    {H : Type ℓ} → SecureToolAdder H → List (Tool × Option H) → SecureToolAdder H
unfolding add_tool
add_tools a [] = a
add_tools a ((tool, handler) ∷ ts) = add_tools (add_tool a tool handler) ts
