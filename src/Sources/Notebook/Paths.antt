-- ===== src/Sources/Notebook/Paths.antt =====
-- Which files the notebook tools may read: isInsideDir and isPathInConfiguredDirs of
-- src/sources/notebook/scanner.go, on lexical paths as filepath.Abs makes them.
pub mod Elements
pub mod Laws
use mcpyeahyouknowme.Prelude.{
  ℕ, Bool, true, false, not, ◌&&◌, ◌||◌, List, [], ◌∷◌, ◌++◌, if◌then◌else◌, ◌==◌, nat_eq,
}
use mcpyeahyouknowme.Sources.Text.{Text, text_eq, has_prefix, is_empty}

abbrev pub separator : ℕ
separator = 47

-- strings.Split(path, "/"); `name` is the element so far.
unfoldable pub split_path : Text → Text → List Text
split_path name [] = name ∷ []
split_path name (r ∷ t) = elim (r == separator) [
  | true ↦ name ∷ split_path [] t
  | false ↦ split_path (name ++ (r ∷ [])) t
]

abbrev pub without_last : List Text → List Text
without_last [] = []
without_last (n ∷ []) = []
without_last (n ∷ m ∷ names) = n ∷ without_last (m ∷ names)

-- filepath.Clean of a rooted path, element by element; `..` does not leave the root.
unfoldable pub clean_names : List Text → List Text → List Text
clean_names done [] = done
clean_names done (name ∷ names) =
    clean_names
      (if is_empty name || name == 46 ∷ []
        then done
        else if name == 46 ∷ 46 ∷ []
        then without_last done
        else done ++ (name ∷ []))
      names

abbrev pub is_abs : Text → Bool
is_abs path = has_prefix path (separator ∷ [])

-- The elements of filepath.Abs(path), in the working directory `cwd`.
unfoldable pub abs_names : Text → Text → List Text
unfolding split_path clean_names
abs_names cwd path =
    clean_names [] (split_path [] (if is_abs path then path else cwd ++ (separator ∷ path)))

-- The text of a clean rooted path.
unfoldable pub rooted : List Text → Text
rooted [] = []
rooted (name ∷ names) = (separator ∷ name) ++ rooted names

abbrev pub render : List Text → Text
render [] = separator ∷ []
render (name ∷ names) = rooted (name ∷ names)

-- filepath.Abs, on a system that can tell its working directory
unfoldable pub abs : Text → Text → Text
unfolding abs_names rooted
abs cwd path = render (abs_names cwd path)

unfoldable pub is_inside_dir : Text → Text → Text → Bool
unfolding abs
is_inside_dir cwd dir path =
    has_prefix (abs cwd path) (abs cwd dir ++ (separator ∷ [])) || abs cwd path == abs cwd dir

unfoldable pub is_path_in_configured_dirs : Text → Text → List Text → Bool
is_path_in_configured_dirs cwd path [] = false
is_path_in_configured_dirs cwd path (d ∷ dirs) =
    is_inside_dir cwd d path || is_path_in_configured_dirs cwd path dirs
