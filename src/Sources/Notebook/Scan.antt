-- ===== src/Sources/Notebook/Scan.antt =====
-- scanDirs and scanOneDir of src/sources/notebook/scanner.go.
pub mod Laws
pub mod Prune
pub mod Rescan
use mcpyeahyouknowme.Prelude.{
  ℕ, Bool, true, false, ◌&&◌, Option, none, some, List, [], ◌∷◌, ◌++◌, if◌then◌else◌, ◌==◌, nat_eq,
}
use mcpyeahyouknowme.Sources.Text.{Text}
use mcpyeahyouknowme.Sources.Notebook.Files.{
  Nodes, Found, CacheRow, Cache, get_cache_row, upsert_cache_row, prune_stale_entries, walk_nodes,
}
use mcpyeahyouknowme.Sources.Notebook.Entries.{Outside, Entry, extract_file, build_search_entries}

-- The variables of scanOneDir that the walk changes.
pub record Scanning : Type 0 where
  pub db : Cache
  pub active : List Text
  pub entries : List Entry

-- A row that still fits the file.
abbrev pub is_hit : Found → CacheRow → Bool
is_hit f row = row.mod_time == f.info.mod_time && row.size == f.info.size

module _ (out : Outside) (now : ℕ) (source : Text) where
  unfoldable pub miss : Text → Found → Cache → CacheRow × Cache
  miss dir f db = let row = extract_file out now dir f in (row, upsert_cache_row now row db)

  -- The row for a file, from the cache or extracted and stored.
  unfoldable pub row_for : Text → Found → Cache → CacheRow × Cache
  unfolding miss
  row_for dir f db = elim (get_cache_row db f.path) [
    | none ↦ miss dir f db
    | some row ↦ if is_hit f row then (row, db) else miss dir f db
  ]

  -- The callback, on a file of a supported type.
  unfoldable pub visit : Text → Found → Scanning → Scanning
  visit dir f s =
      let (row, db) = row_for dir f s.db in
      record {
        db = db;
        active = f.path ∷ s.active;
        entries = s.entries ++ build_search_entries out source row;
      }

  unfoldable pub visit_all : Text → List Found → Scanning → Scanning
  visit_all dir [] s = s
  visit_all dir (f ∷ fs) s = visit_all dir fs (visit dir f s)

  -- The scan of a folder that exists, with the files that the walk finds.
  unfoldable pub scan_files : Text → List Found → Cache → List Entry × Cache
  scan_files dir files db =
      let s = visit_all dir files (record { db = db; active = []; entries = [] }) in
      (s.entries, prune_stale_entries dir s.active s.db)

  -- `to_lower` is strings.ToLower; the folders come with their contents, if they can be read.
  module _ (to_lower : Text → Text) where
    unfoldable pub scan_one_dir : Text → Option Nodes → Cache → Option (List Entry) × Cache
    scan_one_dir dir none db = (none, db)
    scan_one_dir dir (some nodes) db =
        let (entries, db') = scan_files dir (walk_nodes to_lower dir nodes) db in
        (some entries, db')

    unfoldable pub scan_dirs : List (Text × Option Nodes) → Cache → List Entry × Cache
    scan_dirs [] db = ([], db)
    scan_dirs ((dir, nodes) ∷ dirs) db =
        let (found, db') = scan_one_dir dir nodes db in
        let (rest, db'') = scan_dirs dirs db' in
        (elim found [ none ↦ rest | some entries ↦ entries ++ rest ], db'')
