-- ===== src/Sources/BrowserHistory/Snapshot.antt =====
-- The snapshot of a browser's history (src/sources/browser_history/source.go and helpers.go): when it is copied, and
-- what a copy that fails leaves. What the file system answers is a parameter.
use mcpyeahyouknowme.Prelude.{
  ℕ, ◌-◌, Bool, true, false, not, ◌&&◌, ◌||◌, ◌⊎◌, inl, inr, Option, none, some, List, [], ◌∷◌,
  if◌then◌else◌, ◌==◌, nat_eq, leb, ltb,
}
use mcpyeahyouknowme.Sources.Text.{Text, text_eq}

-- sourceFileMeta
pub record SourceFileMeta : Type 0 where
  pub size : ℕ
  pub modified_at : ℕ

-- The fields of Source that a refresh changes, and the snapshot: the browser whose history it copies. A time is
-- `none` if it is zero.
pub record Source : Type 0 where
  pub last_browser : Text
  pub last_source_meta : SourceFileMeta
  pub last_refreshed : Option ℕ
  pub snapshot_of : Option Text

unfoldable pub is_changed : Source → Text → SourceFileMeta → Bool
is_changed s browser info =
    not (s.last_browser == browser)
    || (not (s.last_source_meta.size == info.size)
        || not (s.last_source_meta.modified_at == info.modified_at))

unfoldable pub is_stale : Source → ℕ → ℕ → Bool
is_stale s fallback_refresh now = elim s.last_refreshed [
  | none ↦ true
  | some t ↦ leb fallback_refresh (now - t)
]

-- What copyFile answers for a file: its error, or that it is copied, with what Stat told of it.
abbrev pub FileCopy : Type 0
FileCopy = Text ⊎ SourceFileMeta

-- copyOptionalSidecar, by whether the source has the sidecar; removing a stale one may fail.
pub data Sidecar : Type 0 where
  present : FileCopy → Sidecar
  absent : Option Text → Sidecar
  unreadable : Text → Sidecar

unfoldable pub copy_optional_sidecar : Sidecar → Option Text
copy_optional_sidecar (present (inl e)) = some e
copy_optional_sidecar (present (inr meta)) = none
copy_optional_sidecar (absent removed) = removed
copy_optional_sidecar (unreadable e) = some e

-- The outcomes of the three copies of copyHistorySnapshot.
pub record Copies : Type 0 where
  pub main : FileCopy
  pub wal : Sidecar
  pub shm : Sidecar

-- copyHistorySnapshot: whether it replaces the snapshot, and its error or the meta data.
unfoldable pub after_main : SourceFileMeta → Option Text → Option Text → FileCopy
after_main meta (some e) shm = inl e
after_main meta none (some e) = inl e
after_main meta none none = inr meta

unfoldable pub copy_from : FileCopy → Sidecar → Sidecar → Bool × FileCopy
unfolding after_main copy_optional_sidecar
copy_from (inl e) wal shm = (false, inl e)
copy_from (inr meta) wal shm =
    (true, after_main meta (copy_optional_sidecar wal) (copy_optional_sidecar shm))

unfoldable pub copy_history_snapshot : Copies → Bool × FileCopy
unfolding copy_from
copy_history_snapshot c = copy_from c.main c.wal c.shm

-- The end of refreshSnapshotIfNeeded, from what copySnapshot answers.
unfoldable pub after_copy : Source → Text → ℕ → Bool × FileCopy → Option Text × Source
after_copy s browser now (replaced, inl e) =
    (some e, record s { snapshot_of = if replaced then some browser else s.snapshot_of })
after_copy s browser now (replaced, inr meta) = (
  none,
  record {
    last_browser = browser;
    last_source_meta = meta;
    last_refreshed = some now;
    snapshot_of = if replaced then some browser else s.snapshot_of;
  },
)

-- refreshSnapshotIfNeeded for a normalized browser, from what resolvePath and os.Stat answer.
unfoldable pub refresh_snapshot_if_needed :
    Source → Text → ℕ → ℕ → FileCopy → Copies → Option Text × Source
unfolding is_changed is_stale after_copy copy_history_snapshot
refresh_snapshot_if_needed s browser fallback_refresh now (inl e) copies = (some e, s)
refresh_snapshot_if_needed s browser fallback_refresh now (inr info) copies =
    if not (is_changed s browser info) && not (is_stale s fallback_refresh now)
    then (none, s)
    else after_copy s browser now (copy_history_snapshot copies)

-- latestBrowserSnapshotModTime, from the times of the files that are there
unfoldable pub latest_of : List (Option ℕ) → Option ℕ → Option ℕ
latest_of [] latest = latest
latest_of (none ∷ times) latest = latest_of times latest
latest_of (some t ∷ times) none = latest_of times (some t)
latest_of (some t ∷ times) (some latest) =
    latest_of times (some (if ltb latest t then t else latest))

-- HasChangesSince
unfoldable pub has_changes_since : List (Option ℕ) → Option ℕ → Bool
unfolding latest_of
has_changes_since files none = true
has_changes_since files (some t) = elim (latest_of files none) [
  | none ↦ true
  | some latest ↦ not (ltb latest t)
]
