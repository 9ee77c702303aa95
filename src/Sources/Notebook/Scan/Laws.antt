-- ===== src/Sources/Notebook/Scan/Laws.antt =====
-- A scan with the cache finds what a scan without one would.
use mathlib.Core.List.{append_assoc, append-nil}
use mcpyeahyouknowme.Prelude.{
  ℕ, suc, ◌≡◌, refl, sym, ap, ◌∙◌, true, false, some, List, [], ◌∷◌, ◌++◌, arith, ◌==◌, nat_eq, All,
  Bool-cases, Option-cases, inl, inr,
}
use mcpyeahyouknowme.Prelude.Dict.{lookup, lookup-insert}
use mcpyeahyouknowme.Sources.Text.{Text, text_eq, codes}
use mcpyeahyouknowme.Sources.Notebook.Files.{Found, CacheRow, Cache, upsert_cache_row}
use mcpyeahyouknowme.Sources.Notebook.Entries.{
  Outside, Entry, extract_file, build_search_entries, blank_row, build_text_entries, chunk_entries,
  chunks_of, image_row, image_content,
}
use mcpyeahyouknowme.Sources.Notebook.Scan.{
  Scanning, is_hit, miss, row_for, visit, visit_all, scan_files,
}

-- A row but for the time at which it was stored.
abbrev pub content_of : CacheRow → CacheRow
content_of row = record row { cached_at = 0 }

-- No two files have one path.
abbrev pub Distinct : List Found → Type 0
Distinct [] = Unit
Distinct (f ∷ fs) = All (λ (g : Found). (g.path == f.path) ≡ false) fs × Distinct fs

module _ (out : Outside) (now : ℕ) (source : Text) (dir : Text) where
  -- A cached row of the file that counts as a hit is what extracting the file gives now.
  abbrev pub IsFresh : Cache → Found → Type 0
  IsFresh db f =
      (row : CacheRow)
      → lookup f.path db ≡ some row
      → is_hit f row ≡ true
      → content_of row ≡ content_of (extract_file out now dir f)

  -- The entries of the files, each extracted now.
  abbrev pub extracted : List Found → List Entry
  extracted [] = []
  extracted (f ∷ fs) = build_search_entries out source (extract_file out now dir f) ++ extracted fs

  chunk_entries-content_of :
      (row : CacheRow) (ty : Text) (i : ℕ) (chunks : List Text)
      → chunk_entries out (content_of row) source ty i chunks
        ≡ chunk_entries out row source ty i chunks
  unfolding chunk_entries
  chunk_entries-content_of row ty i [] = refl
  chunk_entries-content_of row ty i (c ∷ cs) =
      ground (arith, chunk_entries-content_of row ty (suc i) cs)

  build_text-content_of :
      (row : CacheRow) (title_type ty : Text)
      → build_text_entries out (content_of row) source title_type ty
        ≡ build_text_entries out row source title_type ty
  unfolding build_text_entries
  build_text-content_of row title_type ty =
      ground
        (arith, chunk_entries-content_of row ty 0 (chunks_of out (out.clean_markdown row.content)))

  image_content-content_of :
      (row : CacheRow) → image_content out (content_of row) ≡ image_content out row
  unfolding image_content
  image_content-content_of row = ground arith

  build-content_of :
      (row : CacheRow)
      → build_search_entries out source (content_of row) ≡ build_search_entries out source row
  unfolding build_search_entries
  build-content_of row = ground (
    arith,
    build_text-content_of row (codes "note_title") (codes "note_content"),
    build_text-content_of row (codes "pdf_title") (codes "pdf_content"),
    image_content-content_of row,
  )

  row_for-content :
      (f : Found) (db : Cache)
      → IsFresh db f
      → content_of (row_for out now source dir f db).0 ≡ content_of (extract_file out now dir f)
  unfolding row_for miss
  row_for-content f db fresh = elim (Option-cases (lookup f.path db)) [
    | inl e ↦ ground (arith, e)
    | inr (row, e) ↦ elim (Bool-cases (is_hit f row)) [
      | inl hit ↦ ground (arith, e, hit, fresh row e hit)
      | inr stale ↦ ground (arith, e, stale)
    ]
  ]

  image_row-path : (row : CacheRow) (path : Text) → (image_row out row path).path ≡ row.path
  unfolding image_row
  image_row-path row path = ground arith

  extract_file-path : (f : Found) → (extract_file out now dir f).path ≡ f.path
  unfolding extract_file
  extract_file-path f = ground (arith, image_row-path (blank_row out now dir f) f.path)

  lookup-upsert :
      (f g : Found) (db : Cache)
      → (g.path == f.path) ≡ false
      → lookup g.path (upsert_cache_row now (extract_file out now dir f) db) ≡ lookup g.path db
  unfolding upsert_cache_row
  lookup-upsert f g db other =
      lookup-insert g.path (extract_file out now dir f).path _ db
      ∙ (rw (extract_file-path f, other) refl)

  lookup-row_for :
      (f g : Found) (db : Cache)
      → (g.path == f.path) ≡ false
      → lookup g.path (row_for out now source dir f db).1 ≡ lookup g.path db
  unfolding row_for miss
  lookup-row_for f g db other = ground (arith, lookup-upsert f g db other)

  visit-entries :
      (f : Found) (s : Scanning)
      → IsFresh s.db f
      → (visit out now source dir f s).entries
        ≡ s.entries ++ build_search_entries out source (extract_file out now dir f)
  unfolding visit
  visit-entries f s fresh =
      ap (λ l. s.entries ++ l)
        (sym (build-content_of (row_for out now source dir f s.db).0)
          ∙ ap (build_search_entries out source) (row_for-content f s.db fresh)
          ∙ build-content_of (extract_file out now dir f))

  visit-db :
      (f : Found) (s : Scanning)
      → (visit out now source dir f s).db ≡ (row_for out now source dir f s.db).1
  unfolding visit
  visit-db f s = refl

  -- The other files stay fresh.
  visit-IsFresh :
      (f : Found) (s : Scanning) (gs : List Found)
      → All (λ (g : Found). (g.path == f.path) ≡ false) gs
      → All (IsFresh s.db) gs
      → All (IsFresh (visit out now source dir f s).db) gs
  visit-IsFresh f s [] other fresh = tt
  visit-IsFresh f s (g ∷ gs) (o, other) (h, fresh) = (
    λ row found hit.
        h row (sym (lookup-row_for f g s.db o) ∙ ap (lookup g.path) (sym (visit-db f s)) ∙ found)
          hit,
    visit-IsFresh f s gs other fresh,
  )

  visit_all-entries :
      (fs : List Found) (s : Scanning)
      → Distinct fs
      → All (IsFresh s.db) fs
      → (visit_all out now source dir fs s).entries ≡ s.entries ++ extracted fs
  unfolding visit_all
  visit_all-entries [] s distinct fresh = sym (append-nil s.entries)
  visit_all-entries (f ∷ fs) s (others, distinct) (h, fresh) =
      visit_all-entries fs (visit out now source dir f s) distinct
        (visit-IsFresh f s fs others fresh)
      ∙ ap (λ l. l ++ extracted fs) (visit-entries f s h)
      ∙ append_assoc s.entries _ (extracted fs)

  -- If the walk meets no path twice, and every cached row whose time and size still fit its file is what
  -- extracting the file gives now, up to the time of storing: then a scan returns the entries of all the
  -- files, in order, as if each were extracted now.
  pub scan_files-entries :
      (fs : List Found) (db : Cache)
      → Distinct fs
      → All (IsFresh db) fs
      → (scan_files out now source dir fs db).0 ≡ extracted fs
  unfolding scan_files
  scan_files-entries fs db distinct fresh =
      visit_all-entries fs (record { db = db; active = []; entries = [] }) distinct fresh
