-- ===== src/Sources/BrowserHistory/Laws.antt =====
-- When the snapshot is one of the browser that was asked for.
use mcpyeahyouknowme.Prelude.{
  ℕ, ◌≤◌, ◌≡◌, refl, Bool, true, false, not, ◌&&◌, Bool-cases, inl, inr, Option, none, some,
  eq_true, arith,
}
use mcpyeahyouknowme.Prelude.Int.{ℤ, pos, negsuc}
use mcpyeahyouknowme.Sources.Text.{Text, text_eq}
use mcpyeahyouknowme.Sources.BrowserHistory.{normalize_limit}
use mcpyeahyouknowme.Sources.BrowserHistory.Snapshot.{
  SourceFileMeta, Source, Sidecar, FileCopy, Copies, after_main, copy_optional_sidecar, copy_from,
  copy_history_snapshot, after_copy, is_changed, is_stale, refresh_snapshot_if_needed,
}

-- The snapshot is one of the last browser.
abbrev pub IsSynced : Source → Type 0
IsSynced s = s.snapshot_of ≡ some s.last_browser

-- A refresh that reports no error leaves a snapshot of its browser.
abbrev pub IsRefreshed : Text → Option Text × Source → Type 0
IsRefreshed browser (some e, s) = Unit
IsRefreshed browser (none, s) = (s.last_browser ≡ browser) × IsSynced s

sidecars-IsRefreshed :
    (s : Source) (browser : Text) (now : ℕ) (meta : SourceFileMeta) (wal shm : Option Text)
    → IsRefreshed browser (after_copy s browser now (true, after_main meta wal shm))
unfolding after_copy after_main
sidecars-IsRefreshed s browser now meta (some e) shm = tt
sidecars-IsRefreshed s browser now meta none (some e) = tt
sidecars-IsRefreshed s browser now meta none none = (refl, refl)

after_copy-IsRefreshed :
    (s : Source) (browser : Text) (now : ℕ) (main : FileCopy) (wal shm : Sidecar)
    → IsRefreshed browser (after_copy s browser now (copy_from main wal shm))
unfolding after_copy copy_from
after_copy-IsRefreshed s browser now (inl e) wal shm = tt
after_copy-IsRefreshed s browser now (inr meta) wal shm =
    sidecars-IsRefreshed s browser now meta (copy_optional_sidecar wal) (copy_optional_sidecar shm)

not_and : (a b : Bool) → (not a && not b) ≡ true → a ≡ false
not_and a b h = ground arith

unchanged-browser :
    (s : Source) (browser : Text) (info : SourceFileMeta)
    → is_changed s browser info ≡ false
    → s.last_browser ≡ browser
unfolding is_changed
unchanged-browser s browser info h = eq_true s.last_browser browser (ground (arith, h))

-- If the snapshot is one of the last browser, then a refresh that reports no error leaves a snapshot of the
-- browser that it was asked for, copied now or before.
pub refresh_snapshot-IsRefreshed :
    (s : Source) (browser : Text) (fallback_refresh now : ℕ) (info : FileCopy) (copies : Copies)
    → IsSynced s
    → IsRefreshed browser (refresh_snapshot_if_needed s browser fallback_refresh now info copies)
unfolding refresh_snapshot_if_needed copy_history_snapshot
refresh_snapshot-IsRefreshed s browser fallback_refresh now (inl e) copies synced = tt
refresh_snapshot-IsRefreshed s browser fallback_refresh now (inr info) copies synced =
    elim (Bool-cases (not (is_changed s browser info) && not (is_stale s fallback_refresh now))) [
      | inl t ↦ rw t (
        unchanged-browser s browser info
            (not_and (is_changed s browser info) (is_stale s fallback_refresh now) t),
        synced,
      )
      | inr f ↦ rw f (after_copy-IsRefreshed s browser now copies.main copies.wal copies.shm)
    ]

-- A sidecar that fails after the history was copied leaves a snapshot of the new browser behind, and the
-- source still takes it for one of the old: a refresh for the old browser that finds its file as it was copies
-- nothing and reports no error.
pub refresh_snapshot-other_browser :
    (s : Source) (browser e : Text) (meta : SourceFileMeta) (fallback_refresh now : ℕ)
    (shm : Sidecar) (copies : Copies)
    → is_changed s s.last_browser s.last_source_meta ≡ false
    → is_stale s fallback_refresh now ≡ false
    → let s' : Source =
        (after_copy s browser now (copy_from (inr meta) (Sidecar.unreadable e) shm)).1 in
      (refresh_snapshot_if_needed s' s.last_browser fallback_refresh now
          (inr s.last_source_meta)
          copies
        ≡ (none, s'))
      × (s'.snapshot_of ≡ some browser)
unfolding refresh_snapshot_if_needed after_copy copy_from is_changed is_stale copy_optional_sidecar
    after_main
refresh_snapshot-other_browser s browser e meta fallback_refresh now shm copies same fresh =
    (rw (same, fresh) refl, refl)

-- A page of visits has between one and two hundred of them at most.
pub normalize_limit-bounds :
    (limit : ℤ) → (1 ≤ normalize_limit limit) × (normalize_limit limit ≤ 200)
unfolding normalize_limit
normalize_limit-bounds (negsuc n) = (omega arith, omega arith)
normalize_limit-bounds (pos n) = (ground arith, ground arith)
