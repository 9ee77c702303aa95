-- ===== src/Tests/Notebook.antt =====
-- The notebook source and fuzzy matching on small inputs.
use mcpyeahyouknowme.Prelude.{
  ℕ, zero, suc, ◌≡◌, ◌⊎◌, inl, inr, refl, sym, ap, ◌∙◌, Bool-cases, ◌==◌, eq_true, true, false, not,
  ◌&&◌, Option, none, some, List, [], ◌∷◌, ◌++◌, arith, nat_eq, if◌then◌else◌, contains, length,
}
use mcpyeahyouknowme.Prelude.Dict.{insert, lookup}
use mcpyeahyouknowme.Sources.Text.{Text, codes, text_eq, is_space}
use mcpyeahyouknowme.Sources.Notebook.ChunkText.{chunk_text}
use mcpyeahyouknowme.Sources.Notebook.ChunkText.Laws.{
  solid, chunk_text-solid, Holds, chunk_text-Holds,
}
use mcpyeahyouknowme.Sources.Notebook.Files.{
  upsert_cache_row, Found, CacheRow, Cache, prune_stale_entries,
}
use mcpyeahyouknowme.Sources.Notebook.Entries.{Outside, extract_file}
use mcpyeahyouknowme.Sources.Notebook.Scan.{row_for, visit, visit_all, scan_files}
use mcpyeahyouknowme.Sources.Notebook.Scan.Laws.{extracted}
use mcpyeahyouknowme.Sources.Notebook.Scan.Rescan.{Scan, IsStamped, cache_after, rescan-entries}
use mcpyeahyouknowme.Sources.Notebook.Scan.Prune.{in_dir, IsUnique, lookup-prune_stale_entries}
use mcpyeahyouknowme.Sources.Notebook.Paths.{abs_names, is_inside_dir, abs}
use mcpyeahyouknowme.Sources.Notebook.Paths.Laws.{IsUnder, is_inside_dir-IsUnder}
use mcpyeahyouknowme.Sources.Notebook.Tools.{handle_read, handle_read_pdf, handle_get_image}
use mcpyeahyouknowme.Sources.Notebook.Tools as Tools
use mcpyeahyouknowme.Sources.Notebook.Tools.Laws.{Agree, tools-confined}
use mcpyeahyouknowme.Sources.Whatsapp.Fuzzy.{lcs_length}
use mcpyeahyouknowme.Sources.Whatsapp.Fuzzy.Subsequences.{IsLcs}
use mcpyeahyouknowme.Sources.Whatsapp.Fuzzy.Laws.{lcs_length-IsLcs}

abbrev repeat : ℕ → ℕ → Text
repeat zero r = []
repeat (suc n) r = r ∷ repeat n r

solid-repeat : (n : ℕ) → solid (repeat n 97) ≡ true
unfolding is_space nat_eq
solid-repeat zero = refl
solid-repeat (suc n) = solid-repeat n

length-repeat : (n r : ℕ) → length (repeat n r) ≡ n
length-repeat zero r = refl
length-repeat (suc n) r = omega (arith, length-repeat n r)

long_word_whole : chunk_text (repeat 2001 97) ≡ some (repeat 2001 97 ∷ [])
long_word_whole =
    chunk_text-solid (repeat 2001 97) (solid-repeat 2001) (omega (arith, length-repeat 2001 97))

chunk_text-Holds_example : Holds (codes "a b") (chunk_text (codes "a b"))
chunk_text-Holds_example = chunk_text-Holds (codes "a b")

abbrev cwd : Text
cwd = codes "/home"

inside : is_inside_dir cwd (codes "notes") (codes "/home/x/../notes/./a.md") ≡ true
unfolding is_inside_dir abs nat_eq text_eq
inside = refl

beside : is_inside_dir cwd (codes "notes") (codes "/home/notes2/a.md") ≡ false
unfolding is_inside_dir abs nat_eq text_eq
beside = refl

-- The root as a configured directory accepts no file.
below_root : is_inside_dir cwd (codes "/") (codes "/home/a.md") ≡ false
unfolding is_inside_dir abs nat_eq text_eq
below_root = refl

note-IsUnder : IsUnder cwd (codes "notes") (codes "/home/x/../notes/./a.md")
note-IsUnder = is_inside_dir-IsUnder cwd (codes "notes") (codes "/home/x/../notes/./a.md") inside

abbrev disk : Tools.Outside
disk = record {
  cwd = cwd;
  exists = λ path. true;
  read_file = λ path. inr (codes "secret");
  extract_pdf = λ path. inr (codes "secret");
  base64 = λ bytes. bytes;
  quote = λ t. t;
  image_json = λ path image. path ++ image;
}

abbrev password_file : Text
password_file = codes "/etc/passwd"

abbrev first_rune : List Text → ℕ
first_rune [] = 0
first_rune ([] ∷ names) = 0
first_rune ((r ∷ name) ∷ names) = r

only_one : (dir : Text) → contains (codes "notes" ∷ []) dir ≡ true → codes "notes" ≡ dir
only_one dir h = eq_true (codes "notes") dir (ground arith)

notes-names : abs_names cwd (codes "notes") ≡ codes "home" ∷ codes "notes" ∷ []
unfolding abs_names nat_eq text_eq
notes-names = refl

password-names : abs_names cwd password_file ≡ codes "etc" ∷ codes "passwd" ∷ []
unfolding abs_names nat_eq text_eq
password-names = refl

passwords-outside : IsUnder cwd (codes "notes") password_file → ⊥
passwords-outside (rest, e) =
    omega
      (arith, ap first_rune (sym (ap (λ names. names ++ rest) notes-names) ∙ (e ∙ password-names)))

-- A disk whose password file reads differently.
abbrev changed : Text → Text ⊎ Text
changed path = if path == password_file then inl (codes "denied") else disk.read_file path

changed-agrees : Agree cwd (codes "notes" ∷ []) changed (disk.read_file)
changed-agrees path dir among (rest, e) = elim (Bool-cases (path == password_file)) [
  | inr f ↦ rw f refl
  | inl t ↦ absurd (
      passwords-outside (
        rest,
        ap (λ d. abs_names cwd d ++ rest) (only_one dir among)
            ∙ (e ∙ ap (abs_names cwd) (eq_true path password_file t)),
      ))
]

tools-confined_example :
    (handle_read (record disk { read_file = changed }) (codes "notes" ∷ []) (codes "a.md", none)
      ≡ handle_read disk (codes "notes" ∷ []) (codes "a.md", none))
    × (handle_read_pdf
          (record disk { extract_pdf = changed })
          (codes "notes" ∷ [])
          (codes "a.md", none)
        ≡ handle_read_pdf disk (codes "notes" ∷ []) (codes "a.md", none))
    × (handle_get_image
          (record disk { read_file = changed })
          (codes "notes" ∷ [])
          (codes "a.md", none)
        ≡ handle_get_image disk (codes "notes" ∷ []) (codes "a.md", none))
tools-confined_example =
    tools-confined disk (codes "notes" ∷ []) changed changed (codes "a.md", none) changed-agrees
      changed-agrees

abbrev extractor : Outside
extractor = record {
  read_file = λ path. some (codes "Some text.");
  pdf_text = λ path. none;
  has_analyzer = false;
  ocr_pdf_pages = λ path. none;
  analyze_image = λ path. none;
  labels_json = λ labels. [];
  parse_labels = λ labels. none;
  clean_markdown = λ t. t;
  rel = λ dir path. none;
}

abbrev note : Found
note = record {
  path = codes "/n/a.md";
  file_type = codes "md";
  info = record { mod_time = 5; size = 10 };
}

-- The same file in a later scan.
abbrev first_scan : Scan
first_scan = record { out = extractor; now = 9; dir = codes "/n"; files = note ∷ [] }

abbrev later_scan : Scan
later_scan = record first_scan { now = 20 }

abbrev recorded : Text → ℕ → ℕ → CacheRow
recorded path mod_time size = record {
  path = path;
  dir = codes "/n";
  mod_time = mod_time;
  size = size;
  file_type = codes "md";
  title = codes "a";
  content = codes "Some text.";
  labels = codes "[]";
  cached_at = 0;
}

first-IsStamped : IsStamped (codes "notebook") recorded first_scan
unfolding extract_file text_eq nat_eq
first-IsStamped = (refl, tt)

later-IsStamped : IsStamped (codes "notebook") recorded later_scan
unfolding extract_file text_eq nat_eq
later-IsStamped = (refl, tt)

abbrev stored_at : Option CacheRow → ℕ
stored_at o = elim o [ none ↦ 0 | some row ↦ row.cached_at ]

-- The later scan meets a row that the first one has stored.
cached :
    stored_at (
      lookup
        (codes "/n/a.md")
        (cache_after (codes "notebook") recorded (first_scan ∷ later_scan ∷ []) []))
    ≡ 9
unfolding scan_files extract_file lookup text_eq nat_eq prune_stale_entries visit_all visit row_for
    upsert_cache_row insert
cached = refl

rescan-entries_example :
    (scan_files extractor 20
      (codes "notebook")
      (codes "/n")
      (note ∷ [])
      (cache_after (codes "notebook") recorded (first_scan ∷ []) [])).0
    ≡ extracted extractor 20 (codes "notebook") (codes "/n") (note ∷ [])
rescan-entries_example =
    rescan-entries (codes "notebook") recorded (first_scan ∷ []) later_scan (first-IsStamped, tt)
      later-IsStamped (tt, tt)

abbrev row : Text → CacheRow
row path = record {
  path = path;
  dir = codes "/n";
  mod_time = 5;
  size = 10;
  file_type = codes "md";
  title = [];
  content = [];
  labels = [];
  cached_at = 1;
}

abbrev cache : Cache
cache = (codes "/n/a", row (codes "/n/a")) ∷ (codes "/n/b", row (codes "/n/b")) ∷ []

cache-IsUnique : IsUnique cache
unfolding lookup text_eq
cache-IsUnique = (refl, (refl, tt))

lookup-prune_stale_entries_example :
    lookup (codes "/n/b") (prune_stale_entries (codes "/n") (codes "/n/a" ∷ []) cache) ≡ (
      if in_dir (codes "/n") (lookup (codes "/n/b") cache)
        && not (contains (codes "/n/a" ∷ []) (codes "/n/b"))
      then none
      else lookup (codes "/n/b") cache)
lookup-prune_stale_entries_example =
    lookup-prune_stale_entries (codes "/n") (codes "/n/a" ∷ []) cache (codes "/n/b") cache-IsUnique

common : lcs_length (codes "whatsapp") (codes "wahtsap") ≡ 6
unfolding lcs_length nat_eq
common = refl

lcs_length-IsLcs_example : IsLcs (codes "ab") (codes "ba") (lcs_length (codes "ab") (codes "ba"))
lcs_length-IsLcs_example = lcs_length-IsLcs (codes "ab") (codes "ba")
