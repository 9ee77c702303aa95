-- ===== src/Sources/Notebook/Scan/Rescan.antt =====
-- Scans that share one file cache: what a later scan answers after any earlier ones.
use mathlib.Core.Path.{subst}
use mcpyeahyouknowme.Prelude.{
  ℕ, ◌≡◌, sym, ap, ◌∙◌, Bool, true, none, some, List, [], ◌∷◌, arith, ◌==◌, ◌&&◌, nat_eq, All,
  Bool-cases, Option-cases, inl, inr, contains, eq_true,
}
use mcpyeahyouknowme.Prelude.Dict.{lookup, insert, erase, lookup-insert, lookup-erase}
use mcpyeahyouknowme.Sources.Text.{Text, text_eq}
use mcpyeahyouknowme.Sources.Notebook.Files.{
  Found, CacheRow, Cache, upsert_cache_row, all_cache_paths_for_dir, prune_paths,
  prune_stale_entries,
}
use mcpyeahyouknowme.Sources.Notebook.Entries.{Outside, extract_file, blank_row, image_row}
use mcpyeahyouknowme.Sources.Notebook.Scan.{
  Scanning, is_hit, miss, row_for, visit, visit_all, scan_files,
}
use mcpyeahyouknowme.Sources.Notebook.Scan.Laws.{
  content_of, Distinct, IsFresh, extracted, scan_files-entries,
}

-- One scan: the folder, the files that its walk meets, and what reading and extracting them gives at that time.
pub record Scan : Type 0 where
  pub out : Outside
  pub now : ℕ
  pub dir : Text
  pub files : List Found

none-ne-some : (row : CacheRow) → none ≡ some row → ⊥
none-ne-some row e = cc

some-inj : (a b : CacheRow) → some a ≡ some b → a ≡ b
some-inj a b e = cc

and_both : (a b : Bool) → (a && b) ≡ true → (a ≡ true) × (b ≡ true)
and_both a b h = ground arith

nat_eq-eq : (a b : ℕ) → (a == b) ≡ true → a ≡ b
nat_eq-eq a b t = ground arith

image_row-stamp :
    (out : Outside) (row : CacheRow) (path : Text)
    → ((image_row out row path).path ≡ row.path)
      × ((image_row out row path).mod_time ≡ row.mod_time)
      × ((image_row out row path).size ≡ row.size)
unfolding image_row
image_row-stamp out row path = ground arith

extract_file-stamp :
    (out : Outside) (now : ℕ) (dir : Text) (f : Found)
    → ((extract_file out now dir f).path ≡ f.path)
      × ((extract_file out now dir f).mod_time ≡ f.info.mod_time)
      × ((extract_file out now dir f).size ≡ f.info.size)
unfolding extract_file
extract_file-stamp out now dir f =
    ground (arith, image_row-stamp out (blank_row out now dir f) f.path)

module _ (source : Text) (recorded : Text → ℕ → ℕ → CacheRow) where
  -- Extracting a file at this scan gives what is recorded for its path, time and size.
  abbrev pub IsStamped : Scan → Type 0
  IsStamped s =
      All
        (λ f.
          content_of (extract_file s.out s.now s.dir f)
          ≡ content_of (recorded f.path f.info.mod_time f.info.size))
        s.files

  -- The cache after a row of scans.
  abbrev pub cache_after : List Scan → Cache → Cache
  cache_after [] db = db
  cache_after (s ∷ scans) db = cache_after scans (scan_files s.out s.now source s.dir s.files db).1

  -- Every cached row is what is recorded for its path, time and size.
  IsRecorded : Cache → Type 0
  IsRecorded db =
      (p : Text) (row : CacheRow)
      → lookup p db ≡ some row
      → content_of row ≡ content_of (recorded p row.mod_time row.size)

  insert-IsRecorded :
      (k : Text) (row : CacheRow) (db : Cache)
      → content_of row ≡ content_of (recorded k row.mod_time row.size)
      → IsRecorded db
      → IsRecorded (insert k row db)
  unfolding IsRecorded
  insert-IsRecorded k row db new old p found e = elim (Bool-cases (p == k)) [
    | inl t ↦
        let same : row ≡ found =
          some-inj row found (sym (lookup-insert p k row db ∙ ground (arith, t)) ∙ e) in
        subst (λ r. content_of r ≡ content_of (recorded p r.mod_time r.size)) same
          (subst (λ q. content_of row ≡ content_of (recorded q row.mod_time row.size))
            (sym (eq_true p k t)) new)
    | inr f ↦ old p found (sym (lookup-insert p k row db ∙ ground (arith, f)) ∙ e)
  ]

  erase-IsRecorded : (k : Text) (db : Cache) → IsRecorded db → IsRecorded (erase k db)
  unfolding IsRecorded
  erase-IsRecorded k db old p row e = elim (Bool-cases (p == k)) [
    | inl t ↦ absurd (none-ne-some row (sym (lookup-erase p k db ∙ ground (arith, t)) ∙ e))
    | inr f ↦ old p row (sym (lookup-erase p k db ∙ ground (arith, f)) ∙ e)
  ]

  prune_paths-IsRecorded :
      (active paths : List Text) (db : Cache)
      → IsRecorded db
      → IsRecorded (prune_paths active paths db)
  unfolding prune_paths
  prune_paths-IsRecorded active [] db old = old
  prune_paths-IsRecorded active (p ∷ paths) db old = elim (Bool-cases (contains active p)) [
    | inl t ↦ rw t (prune_paths-IsRecorded active paths db old)
    | inr f ↦ rw f (prune_paths-IsRecorded active paths (erase p db) (erase-IsRecorded p db old))
  ]

  upsert-IsRecorded :
      (now : ℕ) (row : CacheRow) (db : Cache)
      → content_of row ≡ content_of (recorded row.path row.mod_time row.size)
      → IsRecorded db
      → IsRecorded (upsert_cache_row now row db)
  unfolding upsert_cache_row
  upsert-IsRecorded now row db new old = elim (Bool-cases (row.cached_at == 0)) [
    | inl t ↦ rw t (insert-IsRecorded row.path (record row { cached_at = now }) db new old)
    | inr f ↦ rw f (insert-IsRecorded row.path row db new old)
  ]

  module _ (out : Outside) (now : ℕ) (dir : Text) where
    abbrev Fits : Found → Type 0
    Fits f =
        content_of (extract_file out now dir f)
        ≡ content_of (recorded f.path f.info.mod_time f.info.size)

    miss-IsRecorded :
        (f : Found) (db : Cache)
        → Fits f
        → IsRecorded db
        → IsRecorded (miss out now source dir f db).1
    unfolding miss
    miss-IsRecorded f db fits old =
        let (path, time, size) = extract_file-stamp out now dir f in
        let row = extract_file out now dir f in
        let fits' : content_of row ≡ content_of (recorded row.path row.mod_time row.size) =
          fits
          ∙ ap (λ p. content_of (recorded p f.info.mod_time f.info.size)) (sym path)
          ∙ ap (λ n. content_of (recorded row.path n f.info.size)) (sym time)
          ∙ ap (λ n. content_of (recorded row.path row.mod_time n)) (sym size) in
        upsert-IsRecorded now row db fits' old

    row_for-IsRecorded :
        (f : Found) (db : Cache)
        → Fits f
        → IsRecorded db
        → IsRecorded (row_for out now source dir f db).1
    unfolding row_for
    row_for-IsRecorded f db fits old = elim (Option-cases (lookup f.path db)) [
      | inl e ↦ rw (row_for, e) (miss-IsRecorded f db fits old)
      | inr (row, e) ↦ elim (Bool-cases (is_hit f row)) [
        | inl hit ↦ rw (row_for, e, hit) old
        | inr stale ↦ rw (row_for, e, stale) (miss-IsRecorded f db fits old)
      ]
    ]

    visit_all-IsRecorded :
        (fs : List Found) (s : Scanning)
        → All Fits fs
        → IsRecorded s.db
        → IsRecorded (visit_all out now source dir fs s).db
    unfolding visit_all visit
    visit_all-IsRecorded [] s fits old = old
    visit_all-IsRecorded (f ∷ fs) s (fit, fits) old =
        visit_all-IsRecorded fs (visit out now source dir f s) fits
          (row_for-IsRecorded f s.db fit old)

    scan_files-IsRecorded :
        (fs : List Found) (db : Cache)
        → All Fits fs
        → IsRecorded db
        → IsRecorded (scan_files out now source dir fs db).1
    unfolding scan_files prune_stale_entries
    scan_files-IsRecorded fs db fits old =
        let start : Scanning = record { db = db; active = []; entries = [] } in
        let s = visit_all out now source dir fs start in
        prune_paths-IsRecorded s.active (all_cache_paths_for_dir dir s.db) s.db
          (visit_all-IsRecorded fs start fits old)

    Fits-IsFresh :
        (fs : List Found) (db : Cache)
        → All Fits fs
        → IsRecorded db
        → All (IsFresh out now source dir db) fs
    unfolding IsRecorded
    Fits-IsFresh [] db fits old = tt
    Fits-IsFresh (f ∷ fs) db (fit, fits) old = (
      λ row found hit.
          let (time, size) =
            and_both (row.mod_time == f.info.mod_time) (row.size == f.info.size) hit in
          old f.path row found
          ∙ ap (λ n. content_of (recorded f.path n row.size))
              (nat_eq-eq row.mod_time f.info.mod_time time)
          ∙ ap (λ n. content_of (recorded f.path f.info.mod_time n))
              (nat_eq-eq row.size f.info.size size)
          ∙ sym fit,
      Fits-IsFresh fs db fits old,
    )

  cache_after-IsRecorded :
      (scans : List Scan) (db : Cache)
      → All IsStamped scans
      → IsRecorded db
      → IsRecorded (cache_after scans db)
  cache_after-IsRecorded [] db fits old = old
  cache_after-IsRecorded (s ∷ scans) db (fit, fits) old =
      cache_after-IsRecorded scans (scan_files s.out s.now source s.dir s.files db).1 fits
        (scan_files-IsRecorded s.out s.now s.dir s.files db fit old)

  empty-IsRecorded : IsRecorded []
  unfolding IsRecorded lookup
  empty-IsRecorded p row e = absurd (none-ne-some row e)

  pub rescan-entries :
      (before : List Scan) (s : Scan)
      → All IsStamped before
      → IsStamped s
      → Distinct s.files
      → (scan_files s.out s.now source s.dir s.files (cache_after before [])).0
        ≡ extracted s.out s.now source s.dir s.files
  rescan-entries before s fits fit distinct =
      let db = cache_after before [] in
      scan_files-entries s.out s.now source s.dir s.files db distinct (
        Fits-IsFresh s.out s.now s.dir s.files db fit
          (cache_after-IsRecorded before [] fits empty-IsRecorded))
