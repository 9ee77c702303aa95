-- ===== src/Search/Tool.antt =====
-- The search tool: src/search_mcp.go. `Hit` is SearchResult of src/search_store.go.
pub mod Laws
use mcpyeahyouknowme.Prelude.{
  ℕ, String, Bool, true, false, ◌||◌, ◌⊎◌, Option, none, some, List, [], ◌∷◌, if◌then◌else◌, ◌==◌,
  contains, string_eq,
}
use mcpyeahyouknowme.Prelude.Int.{ℤ, pos}
use mcpyeahyouknowme.Prelude.Dict.{lookup}
use mcpyeahyouknowme.Sources.Text.{Text, codes, text_eq}
use mcpyeahyouknowme.Search.Exec.{Result, ok, err}
use mcpyeahyouknowme.Search.Results.{SearchResult}
use mcpyeahyouknowme.Core.Tools.{
  ToolResult, tool_error, tool_text, Value, number, whole, flag, text, other, int_arg,
  require_string_argument, json_result, untrusted_json_result, Args,
}

abbrev pub no_results_hint : Text
no_results_hint =
    codes
      "No matches found. BM25 requires exact word overlap. Tips: (1) extract 2–4 core keywords, drop filler words; (2) add synonyms or alternate phrasing (e.g. \"invoice bill payment\"); (3) try a shorter or different query angle."

abbrev pub search_tool_example : Text
search_tool_example =
    codes
      "{\"query\":\"birthday dinner 2024\",\"after\":\"2024-01-01T00:00:00Z\",\"before\":\"2025-01-01T00:00:00Z\"}"

unfoldable pub search_result_source_may_carry_injection : String → Bool
search_result_source_may_carry_injection source =
    contains ("whatsapp" ∷ "gsuite" ∷ "browser_history" ∷ "notebook" ∷ []) source

-- searchToolStore: Search with the arguments query, limit, source, content type, after and before
abbrev pub SearchToolStore : Type 0 → Type 0
SearchToolStore Score = Text → ℤ → Text → Text → Text → Text → Result (List (SearchResult Score))

unfoldable pub search_results_need_untrusted_warning :
    {Score : Type 0} → List (SearchResult Score) → Bool
unfolding search_result_source_may_carry_injection
search_results_need_untrusted_warning [] = false
search_results_need_untrusted_warning (r ∷ rs) =
    search_result_source_may_carry_injection r.source || search_results_need_untrusted_warning rs

-- `json` is json.MarshalIndent, and `quote` is %q.
module _ {Score : Type 0} (quote : Text → Text)
    (json : List (SearchResult Score) → Text ⊎ Text) where
  -- The end of the handler, from what the store answers.
  unfoldable pub search_answer : Result (List (SearchResult Score)) → ToolResult
  unfolding search_results_need_untrusted_warning
  search_answer (err e) = tool_error (codes e)
  search_answer (ok []) = tool_text no_results_hint
  search_answer (ok (r ∷ rs)) =
      if search_results_need_untrusted_warning (r ∷ rs)
      then untrusted_json_result quote (json (r ∷ rs)) (codes "search")
      else json_result (json (r ∷ rs))

  -- args[key].(string), without its second result
  string_in : {Float : Type 0} → Option (Value Float) → Text
  string_in (some (text t)) = t
  string_in none = []
  string_in (some (number x)) = []
  string_in (some (whole n)) = []
  string_in (some (flag b)) = []
  string_in (some other) = []

  module _ {Float : Type 0} (to_int : Float → ℤ) (to_float : ℤ → Float)
      (require_string : Args to_int to_float → Text → Option Text)
      (store : SearchToolStore Score) where
    search_for : Args to_int to_float → Text × Option ToolResult → ToolResult
    unfolding search_answer string_in int_arg
    search_for args (query, some e) = e
    search_for args (query, none) = search_answer (
        store query (int_arg to_int to_float args (codes "limit") (pos 20))
          (string_in (lookup (codes "source") args))
          (string_in (lookup (codes "content_type") args)) (string_in (lookup (codes "after") args))
          (string_in (lookup (codes "before") args)))

    -- The handler that RegisterSearchTool registers.
    unfoldable pub handle_search : Args to_int to_float → ToolResult
    unfolding search_for
    handle_search args = search_for args (
        require_string_argument to_int to_float require_string args (codes "query")
          search_tool_example)
