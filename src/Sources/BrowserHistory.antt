-- ===== src/Sources/BrowserHistory.antt =====
-- src/sources/browser_history: the queries and paths (store.go, helpers.go) and the handler of the tools (mcp.go). Times of
-- visits are numbers, and what SQLite answers is a parameter.
pub mod Snapshot
pub mod Laws
use mcpyeahyouknowme.Prelude.{
  ℕ, suc, ◌-◌, Bool, true, false, not, ◌&&◌, ◌||◌, ◌⊎◌, inl, inr, Option, none, some, List, [], ◌∷◌,
  ◌++◌, if◌then◌else◌, ◌==◌, nat_eq, leb, ltb, length, take, drop, keep,
}
use mcpyeahyouknowme.Prelude.Int.{ℤ, pos, negsuc}
use mcpyeahyouknowme.Sources.Text.{Text, codes, text_eq, trim_space, is_empty, has_prefix, join}
use mcpyeahyouknowme.Core.Tools.{ToolResult, tool_error, untrusted_json_result}

-- normalizeBrowser
unfoldable pub normalize_browser : (Text → Text) → Text → Text
normalize_browser to_lower browser =
    let name = to_lower (trim_space browser) in
    if name == codes "chrome"
    then codes "chrome"
    else if name == codes "brave"
    then codes "brave"
    else []

-- resolveHistoryPathForOS, its error or the path; `quote` is %q and the home folder has no separator at its end.
unfoldable pub resolve_history_path_for_os :
    (Text → Text) → (Text → Text) → Text → Text → Text → Text ⊎ Text
unfolding normalize_browser
resolve_history_path_for_os to_lower quote browser home goos =
    let name = normalize_browser to_lower browser in
    let below : List Text → Text =
      λ names. join (codes "/") (home ∷ codes "Library" ∷ codes "Application Support" ∷ names) in
    if is_empty name
    then inl (codes "unsupported browser " ++ quote browser)
    else if not (goos == codes "darwin")
    then inl (codes "browser_history currently supports macOS only")
    else if name == codes "chrome"
    then inr (below (codes "Google" ∷ codes "Chrome" ∷ codes "Default" ∷ codes "History" ∷ []))
    else if name == codes "brave"
    then inr (
        below
          (codes "BraveSoftware" ∷ codes "Brave-Browser" ∷ codes "Default" ∷ codes "History" ∷ []))
    else inl (codes "unsupported browser " ++ quote browser)

-- normalizePagination
unfoldable pub normalize_limit : ℤ → ℕ
normalize_limit (negsuc n) = 50
normalize_limit (pos n) = if leb n 0 then 50 else if ltb 200 n then 200 else n

unfoldable pub normalize_offset : ℤ → ℕ
normalize_offset (negsuc n) = 0
normalize_offset (pos n) = n

unfoldable pub normalize_pagination : ℤ → ℤ → ℕ × ℕ
unfolding normalize_limit normalize_offset
normalize_pagination limit offset = (normalize_limit limit, normalize_offset offset)

-- strings.TrimPrefix, and strings.SplitN(t, sep, 2)[0] for one rune
abbrev pub trim_prefix : Text → Text → Text
trim_prefix t prefix = if has_prefix t prefix then drop (length prefix) t else t

unfoldable pub before_first : ℕ → Text → Text
before_first sep [] = []
before_first sep (r ∷ t) = let rest = before_first sep t in if r == sep then [] else r ∷ rest

-- domainFromURL
unfoldable pub domain_from_url : Text → Text
unfolding before_first
domain_from_url url =
    let trimmed = trim_space url in
    let without_scheme = trim_prefix (trim_prefix trimmed (codes "https://")) (codes "http://") in
    if is_empty trimmed
    then []
    else trim_space (before_first 58 (before_first 63 (before_first 47 without_scheme)))

-- A visit joined with its page.
pub record Visit : Type 0 where
  pub visit_id : ℕ
  pub visit_time : ℕ
  pub url : Text
  pub title : Text

-- listVisits, on the visits in the order of their times. `like` is LIKE of SQLite with a pattern.
unfoldable pub list_visits :
    (Text → Text → Bool) → (List Visit → List Visit) → List Visit → Text → Text → ℕ → ℕ → List Visit
list_visits like backwards visits query sort_order limit offset =
    let pattern =
      if is_empty (trim_space query)
      then codes "%"
      else codes "%" ++ (trim_space query ++ codes "%") in
    let matches : Visit → Bool =
      λ v. pattern == codes "%" || (like v.url pattern || like v.title pattern) in
    let sorted = if sort_order == codes "oldest" then visits else backwards visits in
    take limit (drop offset (keep matches sorted))

-- The answer of handleSearchTool, from what it reads of the configuration and the arguments: the browser, the query
-- or the error of a required one, the sort order, limit and offset; and from the visits or the error of
-- the snapshot.
pub record Request : Type 0 where
  pub browser : Text
  pub query : Text ⊎ ToolResult
  pub sort : Text
  pub limit : ℤ
  pub offset : ℤ

module _ (to_lower quote : Text → Text) (like : Text → Text → Bool)
    (backwards : List Visit → List Visit) (json : List Visit → Text ⊎ Text) where
  list_tool : Text ⊎ List Visit → Text → Text → ℕ × ℕ → ToolResult
  unfolding list_visits
  list_tool (inl e) query sort_order page = tool_error e
  list_tool (inr visits) query sort_order (limit, offset) =
      untrusted_json_result quote
        (json (list_visits like backwards visits query sort_order limit offset))
        (codes "browser_history")

  with_query : Text ⊎ List Visit → Text ⊎ ToolResult → Text → ℤ → ℤ → ToolResult
  unfolding list_tool normalize_pagination
  with_query db (inr e) sort_arg limit offset = e
  with_query db (inl query) sort_arg limit offset =
      let sort_order = if is_empty sort_arg then codes "recent" else sort_arg in
      if not (sort_order == codes "recent") && not (sort_order == codes "oldest")
      then tool_error (codes "sort must be \"recent\" or \"oldest\"")
      else list_tool db query sort_order (normalize_pagination limit offset)

  unfoldable pub handle_search_tool : Text ⊎ List Visit → Request → ToolResult
  unfolding with_query normalize_browser
  handle_search_tool db req =
      if is_empty (normalize_browser to_lower req.browser)
      then tool_error (
          codes
            "browser_history is not configured; run 'mcpyeahyouknowme browser_history enable <chrome|brave>'")
      else with_query db req.query req.sort req.limit req.offset
