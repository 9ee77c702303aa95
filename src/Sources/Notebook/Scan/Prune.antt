-- ===== src/Sources/Notebook/Scan/Prune.antt =====
-- PruneStaleEntries and countFilesInDir against what they are meant to do.
use mcpyeahyouknowme.Prelude.{
  ◌≡◌, refl, ap, Bool, false, not, ◌&&◌, Option, none, some, List, [], ◌∷◌, arith, if◌then◌else◌,
  ◌==◌, contains, Bool-cases, inl, inr, eq_true, eq_sym,
}
use mcpyeahyouknowme.Prelude.Dict.{lookup, erase, lookup-erase}
use mcpyeahyouknowme.Sources.Text.{Text, text_eq}
use mcpyeahyouknowme.Sources.Notebook.Files.{
  CacheRow, Cache, all_cache_paths_for_dir, prune_paths, prune_stale_entries,
}

-- The table's primary key: one row for a path.
abbrev pub IsUnique : Cache → Type 0
IsUnique [] = Unit
IsUnique ((path, row) ∷ db) = (lookup path db ≡ none) × IsUnique db

lookup-prune_paths :
    (active paths : List Text) (db : Cache) (p : Text)
    → lookup p (prune_paths active paths db)
      ≡ (if contains paths p && not (contains active p) then none else lookup p db)
unfolding prune_paths
lookup-prune_paths active [] db p = refl
lookup-prune_paths active (q ∷ paths) db p = elim (Bool-cases (q == p)) [
  | inl t ↦ ground (
    arith,
    lookup-prune_paths active paths (if contains active q then db else erase q db) p,
    lookup-erase p q db,
    ap (contains active) (eq_true q p t),
    eq_sym q p,
  )
  | inr t ↦ ground (
    arith,
    lookup-prune_paths active paths (if contains active q then db else erase q db) p,
    lookup-erase p q db,
    eq_sym q p,
  )
]

abbrev pub in_dir : Text → Option CacheRow → Bool
in_dir dir none = false
in_dir dir (some row) = row.dir == dir

contains-paths :
    (dir : Text) (db : Cache) (p : Text)
    → IsUnique db
    → contains (all_cache_paths_for_dir dir db) p ≡ in_dir dir (lookup p db)
unfolding all_cache_paths_for_dir lookup
contains-paths dir [] p h = refl
contains-paths dir ((q, row) ∷ db) p (new, h) = elim (Bool-cases (q == p)) [
  | inl t ↦
      ground
        (arith, contains-paths dir db p h, eq_sym q p, new, ap (λ k. lookup k db) (eq_true q p t))
  | inr t ↦ ground (arith, contains-paths dir db p h, eq_sym q p)
]

-- With one row for a path, PruneStaleEntries deletes exactly the rows of the folder whose path was not met.
pub lookup-prune_stale_entries :
    (dir : Text) (active : List Text) (db : Cache) (p : Text)
    → IsUnique db
    → lookup p (prune_stale_entries dir active db)
      ≡ (if in_dir dir (lookup p db) && not (contains active p) then none else lookup p db)
unfolding prune_stale_entries
lookup-prune_stale_entries dir active db p h = ground (
  arith,
  lookup-prune_paths active (all_cache_paths_for_dir dir db) db p,
  contains-paths dir db p h,
)
