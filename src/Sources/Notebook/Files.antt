-- ===== src/Sources/Notebook/Files.antt =====
-- Folders and the file cache of the notebook: the walk and the types of files of
-- src/sources/notebook/scanner.go and source.go, and the table file_cache of store.go. The database answers
-- without errors.
use mcpyeahyouknowme.Prelude.{
  ℕ, suc, Bool, Option, none, some, List, [], ◌∷◌, ◌++◌, if◌then◌else◌, ◌==◌, contains, nat_eq,
}
use mcpyeahyouknowme.Prelude.Dict.{Dict, lookup, insert, erase}
use mcpyeahyouknowme.Sources.Text.{Text, codes, text_eq, has_prefix, is_empty}

-- fs.FileInfo, as far as the scan reads it; times are in seconds.
pub record FileInfo : Type 0 where
  pub mod_time : ℕ
  pub size : ℕ

-- A folder as WalkDir visits it: names in lexical order.
mutual
  pub data Node : Type 0 where
    file : Text → FileInfo → Node
    folder : Text → Nodes → Node

  pub data Nodes : Type 0 where
    end : Nodes
    also : Node → Nodes → Nodes

-- filepath.Ext: from the last dot of a name.
abbrev ext_from : Text → Option Text
ext_from [] = none
ext_from (r ∷ t) = elim (ext_from t) [
  | some e ↦ some e
  | none ↦ if r == 46 then some (r ∷ t) else none
]

abbrev pub ext : Text → Text
ext name = elim (ext_from name) [ none ↦ [] | some e ↦ e ]

-- supportedExts
abbrev pub supported_exts : Dict Text Text
supported_exts =
    (codes ".md", codes "md")
    ∷ (codes ".txt", codes "md")
    ∷ (codes ".pdf", codes "pdf")
    ∷ (codes ".jpg", codes "image")
    ∷ (codes ".jpeg", codes "image")
    ∷ (codes ".png", codes "image")
    ∷ (codes ".gif", codes "image")
    ∷ (codes ".webp", codes "image")
    ∷ (codes ".heic", codes "image")
    ∷ (codes ".heif", codes "image")
    ∷ (codes ".tiff", codes "image")
    ∷ (codes ".tif", codes "image")
    ∷ (codes ".bmp", codes "image")
    ∷ []

-- A file that the walk meets.
pub record Found : Type 0 where
  pub path : Text
  pub file_type : Text
  pub info : FileInfo

abbrev pub child_path : Text → Text → Text
child_path dir name = dir ++ (47 ∷ name)

-- The map that countFilesInDir fills.
pub record Counts : Type 0 where
  pub md : ℕ
  pub pdf : ℕ
  pub image : ℕ

-- `to_lower` is strings.ToLower.
module _ (to_lower : Text → Text) where
  -- fileTypeOf, with the empty text for a file that is not supported
  unfoldable pub file_type_of : Text → Text
  file_type_of name = elim (lookup (to_lower (ext name)) supported_exts) [
    | none ↦ []
    | some ty ↦ ty
  ]

  found_file : Text → Text → FileInfo → List Found
  unfolding file_type_of
  found_file dir name info =
      let ty = file_type_of name in
      if is_empty ty
      then []
      else record { path = child_path dir name; file_type = ty; info = info } ∷ []

  -- The files below a folder that the callback of WalkDir handles: hidden folders are skipped.
  unfoldable mutual
    unfolding found_file

    pub walk_node : Text → Node → List Found
    walk_node dir (file name info) = found_file dir name info
    walk_node dir (folder name nodes) =
        let below = walk_nodes (child_path dir name) nodes in
        if has_prefix name (46 ∷ []) then [] else below

    pub walk_nodes : Text → Nodes → List Found
    walk_nodes dir end = []
    walk_nodes dir (also node nodes) = walk_node dir node ++ walk_nodes dir nodes

  -- countFilesInDir
  unfoldable pub count_file : Text → Counts → Counts
  unfolding file_type_of
  count_file name c =
      let ty = file_type_of name in
      if ty == codes "md"
      then record c { md = suc c.md }
      else if ty == codes "pdf"
      then record c { pdf = suc c.pdf }
      else if ty == codes "image"
      then record c { image = suc c.image }
      else c

  unfoldable mutual
    unfolding count_file

    pub count_node : Node → Counts → Counts
    count_node (file name info) c = count_file name c
    count_node (folder name nodes) c =
        let below = count_nodes nodes c in if has_prefix name (46 ∷ []) then c else below

    pub count_nodes : Nodes → Counts → Counts
    count_nodes end c = c
    count_nodes (also node nodes) c = count_nodes nodes (count_node node c)

-- CacheRow
pub record CacheRow : Type 0 where
  pub path : Text
  pub dir : Text
  pub mod_time : ℕ
  pub size : ℕ
  pub file_type : Text
  pub title : Text
  pub content : Text
  pub labels : Text
  pub cached_at : ℕ

abbrev pub Cache : Type 0
Cache = Dict Text CacheRow

-- GetCacheRow
abbrev pub get_cache_row : Cache → Text → Option CacheRow
get_cache_row db path = lookup path db

-- UpsertCacheRow at the time `now`
unfoldable pub upsert_cache_row : ℕ → CacheRow → Cache → Cache
upsert_cache_row now r db =
    insert r.path (if r.cached_at == 0 then record r { cached_at = now } else r) db

-- DELETE FROM file_cache WHERE …, row by row
unfoldable pub delete_rows : (CacheRow → Bool) → Cache → Cache
delete_rows gone [] = []
delete_rows gone ((path, row) ∷ db) =
    let rest = delete_rows gone db in if gone row then rest else (path, row) ∷ rest

-- AllCachePathsForDir
unfoldable pub all_cache_paths_for_dir : Text → Cache → List Text
all_cache_paths_for_dir dir [] = []
all_cache_paths_for_dir dir ((path, row) ∷ db) =
    let rest = all_cache_paths_for_dir dir db in if row.dir == dir then path ∷ rest else rest

-- The loop of PruneStaleEntries over the cached paths.
unfoldable pub prune_paths : List Text → List Text → Cache → Cache
prune_paths active [] db = db
prune_paths active (path ∷ paths) db =
    prune_paths active paths (if contains active path then db else erase path db)

unfoldable pub prune_stale_entries : Text → List Text → Cache → Cache
unfolding all_cache_paths_for_dir prune_paths
prune_stale_entries dir active db = prune_paths active (all_cache_paths_for_dir dir db) db

-- PruneDir
unfoldable pub prune_dir : Text → Cache → Cache
unfolding delete_rows
prune_dir dir = delete_rows (λ row. row.dir == dir)
