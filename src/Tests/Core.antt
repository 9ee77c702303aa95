-- ===== src/Tests/Core.antt =====
-- The limiter, the gate and the configuration at work.
use mcpyeahyouknowme.Prelude.{
  ℕ, ◌+◌, ◌≤◌, ◌≡◌, refl, String, true, Option, none, some, List, [], ◌∷◌, ◌++◌, arith, ◌==◌, ◌||◌,
  not, length, keep, ltb, string_eq, nat_eq,
}
use mcpyeahyouknowme.Prelude.Int.{pos}
use mcpyeahyouknowme.Prelude.Dict.{lookup, insert}
use mcpyeahyouknowme.Core.RateLimiter.{RateLimiter, new_rate_limiter, allow, within, minute}
use mcpyeahyouknowme.Core.RateLimiter.Window.{
  Chronological, grants, run, grants-le-limit, allow_exact,
}
use mcpyeahyouknowme.Core.RateLimiter.Tracks.{in_window}
use mcpyeahyouknowme.Core.SecureAdder.{
  Tool, tool_is_read_only, tool_needs_rate_limit, Shared, Handler, add_tools, new_secure_tool_adder,
}
use mcpyeahyouknowme.Core.SecureAdder.Laws.{offered, inner-add_tools}
use mcpyeahyouknowme.Core.SecureAdder.Rate.{Request, ran, ran-le-limit}
use mcpyeahyouknowme.Core.Config.{McpConfig, zero_mcp, effective_mutating_tools_per_min}

-- Two calls in any hundred nanoseconds.
abbrev limiter : RateLimiter
limiter = new_rate_limiter (pos 2) (pos 100)

abbrev calls : List (String × ℕ)
calls = ("send", 10) ∷ ("send", 20) ∷ ("send", 30) ∷ ("other", 40) ∷ ("send", 115) ∷ []

calls-Chronological : Chronological 0 calls
calls-Chronological = (omega arith, (omega arith, (omega arith, (omega arith, (omega arith, tt)))))

granted : grants "send" limiter calls ≡ 10 ∷ 20 ∷ 115 ∷ []
unfolding grants allow new_rate_limiter lookup insert string_eq
granted = refl

grants-le-limit_example :
    length (keep (in_window limiter.window 15) (grants "send" limiter calls)) ≤ limiter.limit
grants-le-limit_example = grants-le-limit (pos 2) (pos 100) "send" 0 calls calls-Chronological 15

allow_exact_example :
    (allow (run limiter calls) "send" 118).1
    ≡ ltb (length (keep (within limiter.window 118) (grants "send" limiter calls))) limiter.limit
allow_exact_example =
    allow_exact (pos 2) (pos 100) "send" 0 calls 118 calls-Chronological (omega arith)

abbrev send_tool : Tool
send_tool = record { name = "send_message"; read_only_hint = none }

abbrev list_tool : Tool
list_tool = record { name = "list_chats"; read_only_hint = some true }

abbrev read_only_config : McpConfig
read_only_config = record zero_mcp { read_only = true; disabled_tools = "search" ∷ [] }

abbrev tools : List (Tool × Option ℕ)
tools =
    (send_tool, some 1)
    ∷ (list_tool, some 2)
    ∷ (record list_tool { name = "search" }, some 3)
    ∷ (list_tool, none)
    ∷ []

offered_one : offered read_only_config tools ≡ (list_tool, 2) ∷ []
unfolding tool_is_read_only string_eq
offered_one = refl

inner-add_tools_example :
    (add_tools (new_secure_tool_adder read_only_config) tools).inner
    ≡ offered read_only_config tools
inner-add_tools_example = inner-add_tools read_only_config tools

abbrev count_calls : Handler String String ℕ
count_calls args world = (args, 1 + world)

abbrev write_log : List String → String → String → List String
write_log audit name args = audit ++ (name ∷ [])

abbrev same_text : String → String
same_text message = message

abbrev shared : Shared (List String) ℕ
shared = record { audit = []; limiter = limiter; world = 0 }

abbrev ask : ℕ → Request String
ask now = record { tool = send_tool; args = "hello"; now = now }

abbrev asked : List (Request String)
asked = ask 5 ∷ ask 6 ∷ ask 7 ∷ []

asked_mutating : (tool_needs_rate_limit send_tool || not (send_tool.name == "send_message")) ≡ true
unfolding tool_needs_rate_limit
asked_mutating = refl

abbrev one_per_min : McpConfig
one_per_min = record zero_mcp { mutating_tools_per_min = pos 1 }

ran-le-limit_example :
    let s : Shared (List String) ℕ = record {
      audit = [];
      limiter = (new_secure_tool_adder {H = Handler String String ℕ} one_per_min).limiter;
      world = 0;
    } in
    length (
      keep
        (in_window minute 4)
        (ran write_log same_text (λ tool. count_calls) "send_message" s asked))
    ≤ effective_mutating_tools_per_min one_per_min
ran-le-limit_example =
    ran-le-limit write_log same_text (λ tool. count_calls) one_per_min [] 0 "send_message" 0 asked
      (omega arith, (omega arith, (omega arith, tt)))
      (asked_mutating, (asked_mutating, (asked_mutating, tt))) 4
