-- ===== src/Sources/Notebook/Tools.antt =====
-- The tools of src/sources/notebook/mcp.go. Configured directories exist as folders or not at all, and a file of a
-- folder answers d.Info().
pub mod Laws
use mcpyeahyouknowme.Prelude.{
  ℕ, Bool, true, false, not, ◌&&◌, ◌||◌, ◌⊎◌, inl, inr, Option, none, some, List, [], ◌∷◌, ◌++◌,
  if◌then◌else◌, ◌==◌,
}
use mcpyeahyouknowme.Prelude.Int.{ℤ}
use mcpyeahyouknowme.Prelude.Dict.{lookup}
use mcpyeahyouknowme.Sources.Text.{Text, codes, text_eq, trim_space, is_empty, has_prefix, join}
use mcpyeahyouknowme.Sources.Notebook.Files.{Nodes, Found, walk_nodes}
use mcpyeahyouknowme.Sources.Notebook.Entries.{base, stem_name}
use mcpyeahyouknowme.Sources.Notebook.Paths.{
  separator, split_path, without_last, clean_names, is_abs, render, is_path_in_configured_dirs,
}
use mcpyeahyouknowme.Core.Tools.{
  ToolResult, tool_error, tool_text, untrusted_text, Value, text, number, whole, flag, other, Args,
  Required, require_string_argument, untrusted_text_result, json_result, after_first,
}

-- filepath.Clean of a path that is not rooted, element by element: `..` is kept at the front.
abbrev climbs : List Text → Bool
climbs [] = true
climbs (n ∷ []) = n == codes ".."
climbs (n ∷ m ∷ names) = climbs (m ∷ names)

unfoldable pub clean_relative : List Text → List Text → List Text
clean_relative done [] = done
clean_relative done (name ∷ names) =
    clean_relative
      (if is_empty name || name == codes "."
        then done
        else if name == codes ".." && not (climbs done)
        then without_last done
        else done ++ (name ∷ []))
      names

-- filepath.Clean
unfoldable pub clean : Text → Text
unfolding clean_relative clean_names split_path
clean path =
    if is_abs path
    then render (clean_names [] (split_path [] path))
    else let names = clean_relative [] (split_path [] path) in
      elim names [ [] ↦ codes "." | ◌∷◌ n ns ↦ join (separator ∷ []) (n ∷ ns) ]

-- filepath.Join of two elements
unfoldable pub join_path : Text → Text → Text
unfolding clean
join_path dir path =
    if is_empty dir
    then (if is_empty path then [] else clean path)
    else clean (dir ++ (separator ∷ path))

-- What the file system and the packages outside the repository answer.
pub record Outside : Type 0 where
  -- the working directory
  pub cwd : Text
  -- whether os.Stat finds the path
  pub exists : Text → Bool
  -- os.ReadFile: the message of its error, or the contents
  pub read_file : Text → Text ⊎ Text
  -- extractPDF with Vision, its error or the content
  pub extract_pdf : Text → Text ⊎ Text
  -- base64.StdEncoding.EncodeToString
  pub base64 : Text → Text
  -- %q of fmt
  pub quote : Text → Text
  -- json.Marshal of the image's path and data
  pub image_json : Text → Text → Text

-- resolvePath
unfoldable pub in_first_dir : (Text → Bool) → List Text → Text → Text
unfolding join_path
in_first_dir exists [] path = path
in_first_dir exists (dir ∷ dirs) path =
    let rest = in_first_dir exists dirs path in
    if exists (join_path dir path) then join_path dir path else rest

unfoldable pub resolve_path : (Text → Bool) → List Text → Text → Text
unfolding in_first_dir clean
resolve_path exists dirs path = if is_abs path then clean path else in_first_dir exists dirs path

module _ (out : Outside) where
  outside_error : Text → ToolResult
  outside_error path = tool_error (
      codes "path " ++ (out.quote path ++ codes " is not inside any configured notebook directory"))

  -- handleRead, from the value that the argument `path` has
  unfoldable pub read_resolved : List Text → Text → ToolResult
  unfolding outside_error
  read_resolved dirs path =
      if is_path_in_configured_dirs out.cwd path dirs
      then elim (out.read_file path) [
        | inl e ↦ tool_error e
        | inr contents ↦ untrusted_text_result out.quote contents (codes "notebook")
      ]
      else outside_error path

  unfoldable pub handle_read : List Text → Text × Option ToolResult → ToolResult
  unfolding read_resolved resolve_path
  handle_read dirs (path, some e) = e
  handle_read dirs (path, none) = read_resolved dirs (resolve_path out.exists dirs path)

  -- handleReadPDF
  unfoldable pub read_pdf_resolved : List Text → Text → ToolResult
  unfolding outside_error
  read_pdf_resolved dirs path =
      if is_path_in_configured_dirs out.cwd path dirs
      then elim (out.extract_pdf path) [
        | inl e ↦ tool_error e
        | inr content ↦
            untrusted_text_result out.quote
              (if is_empty content then codes "(no extractable text found)" else content)
              (codes "notebook")
      ]
      else outside_error path

  unfoldable pub handle_read_pdf : List Text → Text × Option ToolResult → ToolResult
  unfolding read_pdf_resolved resolve_path
  handle_read_pdf dirs (path, some e) = e
  handle_read_pdf dirs (path, none) = read_pdf_resolved dirs (resolve_path out.exists dirs path)

  -- handleGetImage and readFileBase64
  unfoldable pub image_resolved : List Text → Text → ToolResult
  unfolding outside_error
  image_resolved dirs path =
      if is_path_in_configured_dirs out.cwd path dirs
      then elim (out.read_file path) [
        | inl e ↦ tool_error e
        | inr contents ↦ tool_text (out.image_json path (out.base64 contents))
      ]
      else outside_error path

  unfoldable pub handle_get_image : List Text → Text × Option ToolResult → ToolResult
  unfolding image_resolved resolve_path
  handle_get_image dirs (path, some e) = e
  handle_get_image dirs (path, none) = image_resolved dirs (resolve_path out.exists dirs path)

-- FileInfo of mcp.go
pub record Listed : Type 0 where
  pub path : Text
  pub title : Text
  pub file_type : Text
  pub mod_time : Text
  pub dir : Text

-- An optional text filter: the argument if it is a text.
filter_of : {Float : Type 0} → Option (Value Float) → Text
filter_of none = []
filter_of (some (text t)) = t
filter_of (some (number x)) = []
filter_of (some (whole n)) = []
filter_of (some (flag b)) = []
filter_of (some other) = []

has_part : Text → Text → Bool
has_part t part = elim (after_first part t) [ none ↦ false | some rest ↦ true ]

-- `to_lower`, `rel` and `rfc3339` are strings.ToLower, filepath.Rel (the empty text if it fails) and the format
-- of times; `folder` is what os.Stat and filepath.WalkDir see of a directory.
module _ (to_lower : Text → Text) (rel : Text → Text → Text) (rfc3339 : ℕ → Text)
    (folder : Text → Option Nodes) where
  -- The callback of handleList on a file of a known type.
  list_file : Text → Text → Text → Found → List Listed
  unfolding has_part
  list_file type_filter query_filter dir f =
      let title = stem_name (base f.path) in
      if not (is_empty type_filter) && not (f.file_type == type_filter)
      then []
      else if not (is_empty query_filter)
          && (not (has_part (to_lower (rel dir f.path)) query_filter)
              && not (has_part (to_lower title) query_filter))
      then []
      else record {
        path = f.path;
        title = title;
        file_type = f.file_type;
        mod_time = rfc3339 (f.info.mod_time);
        dir = dir;
      }
        ∷ []

  list_found : Text → Text → Text → List Found → List Listed
  unfolding list_file
  list_found type_filter query_filter dir [] = []
  list_found type_filter query_filter dir (f ∷ fs) =
      list_file type_filter query_filter dir f ++ list_found type_filter query_filter dir fs

  unfoldable pub list_dirs : Text → Text → List Text → List Listed
  unfolding list_found walk_nodes
  list_dirs type_filter query_filter [] = []
  list_dirs type_filter query_filter (dir ∷ dirs) =
      let rest = list_dirs type_filter query_filter dirs in
      elim (folder dir) [
        | none ↦ rest
        | some nodes ↦
            list_found type_filter query_filter dir (walk_nodes to_lower dir nodes) ++ rest
      ]

  -- handleList; `json` is json.MarshalIndent of the list.
  unfoldable pub handle_list :
      {Float : Type 0}
      → (List Listed → Text ⊎ Text)
      → List Text
      → Option (Value Float)
      → Option (Value Float)
      → ToolResult
  unfolding list_dirs filter_of
  handle_list json dirs type_arg query_arg = json_result (
      json (
        list_dirs (to_lower (trim_space (filter_of type_arg))) (to_lower (filter_of query_arg))
          dirs))
