-- ===== src/Sources/Notebook/Tools/Laws.antt =====
-- What the notebook's tools can read.
use mcpyeahyouknowme.Prelude.{
  ◌≡◌, ◌⊎◌, refl, true, Bool-cases, inl, inr, Option, none, some, List, contains,
}
use mcpyeahyouknowme.Core.Tools.{ToolResult}
use mcpyeahyouknowme.Sources.Text.{Text, text_eq}
use mcpyeahyouknowme.Sources.Notebook.Paths.{is_path_in_configured_dirs}
use mcpyeahyouknowme.Sources.Notebook.Paths.Laws.{IsUnder, is_path_in_configured_dirs-IsUnder}
use mcpyeahyouknowme.Sources.Notebook.Tools.{
  Outside, resolve_path, read_resolved, read_pdf_resolved, image_resolved, handle_read,
  handle_read_pdf, handle_get_image,
}

-- Two file systems that agree on every path below a configured directory.
abbrev pub Agree : Text → List Text → (Text → Text ⊎ Text) → (Text → Text ⊎ Text) → Type 0
Agree cwd dirs read read' =
    (path dir : Text) → contains dirs dir ≡ true → IsUnder cwd dir path → read path ≡ read' path

Agree-there :
    (cwd : Text) (dirs : List Text) (read read' : Text → Text ⊎ Text) (path : Text)
    → Agree cwd dirs read read'
    → is_path_in_configured_dirs cwd path dirs ≡ true
    → read path ≡ read' path
Agree-there cwd dirs read read' path h inside =
    let (dir, m, u) = is_path_in_configured_dirs-IsUnder cwd path dirs inside in h path dir m u

read_resolved-confined :
    (out : Outside) (dirs : List Text) (read : Text → Text ⊎ Text) (path : Text)
    → Agree out.cwd dirs read out.read_file
    → read_resolved (record out { read_file = read }) dirs path ≡ read_resolved out dirs path
unfolding read_resolved
read_resolved-confined out dirs read path h =
    elim (Bool-cases (is_path_in_configured_dirs out.cwd path dirs)) [
      | inl t ↦ rw (Agree-there out.cwd dirs read out.read_file path h t) refl
      | inr f ↦ rw f refl
    ]

image_resolved-confined :
    (out : Outside) (dirs : List Text) (read : Text → Text ⊎ Text) (path : Text)
    → Agree out.cwd dirs read out.read_file
    → image_resolved (record out { read_file = read }) dirs path ≡ image_resolved out dirs path
unfolding image_resolved
image_resolved-confined out dirs read path h =
    elim (Bool-cases (is_path_in_configured_dirs out.cwd path dirs)) [
      | inl t ↦ rw (Agree-there out.cwd dirs read out.read_file path h t) refl
      | inr f ↦ rw f refl
    ]

pdf_resolved-confined :
    (out : Outside) (dirs : List Text) (pdf : Text → Text ⊎ Text) (path : Text)
    → Agree out.cwd dirs pdf out.extract_pdf
    → read_pdf_resolved (record out { extract_pdf = pdf }) dirs path
      ≡ read_pdf_resolved out dirs path
unfolding read_pdf_resolved
pdf_resolved-confined out dirs pdf path h =
    elim (Bool-cases (is_path_in_configured_dirs out.cwd path dirs)) [
      | inl t ↦ rw (Agree-there out.cwd dirs pdf out.extract_pdf path h t) refl
      | inr f ↦ rw f refl
    ]

-- Of two file systems in which os.Stat finds the same paths, and in which reading a path and extracting a PDF
-- give the same at every path that lies, as written, below a configured directory: the tools that read a note,
-- a PDF or an image answer the same for every argument. What lies behind a symbolic link counts as read at the
-- path of the link.
pub tools-confined :
    (out : Outside) (dirs : List Text) (read pdf : Text → Text ⊎ Text)
    (arg : Text × Option ToolResult)
    → Agree out.cwd dirs read out.read_file
    → Agree out.cwd dirs pdf out.extract_pdf
    → (handle_read (record out { read_file = read }) dirs arg ≡ handle_read out dirs arg)
      × (handle_read_pdf (record out { extract_pdf = pdf }) dirs arg ≡ handle_read_pdf out dirs arg)
      × (handle_get_image (record out { read_file = read }) dirs arg
          ≡ handle_get_image out dirs arg)
unfolding handle_read handle_read_pdf handle_get_image
tools-confined out dirs read pdf (path, some e) h g = (refl, refl, refl)
tools-confined out dirs read pdf (path, none) h g = (
  read_resolved-confined out dirs read (resolve_path out.exists dirs path) h,
  pdf_resolved-confined out dirs pdf (resolve_path out.exists dirs path) g,
  image_resolved-confined out dirs read (resolve_path out.exists dirs path) h,
)
