-- ===== src/Search/Store/BulkPass.antt =====
-- BeginBulkIndex and EndBulkIndex: what holds after a bulk load, and after one that could not begin.
use mcpyeahyouknowme.Prelude.{
  ℕ, ◌≡◌, refl, sym, String, true, false, List, [], ◌∷◌, arith, string_eq, ◌==◌,
}
use mathlib.Core.Path.{subst}
use mcpyeahyouknowme.Search.Tables.{Db, rebuild}
use mcpyeahyouknowme.Search.Tables.Sync.{IsWellFormed, rebuild-InSync, upsert-IsWellFormed}
use mcpyeahyouknowme.Search.Exec.{ok, err, SearchStore, no_effect}
use mcpyeahyouknowme.Search.Exec.Keeps.{
  Keeps, Keeps-pure, Keeps-statement, Keeps-then, Keeps-transaction,
}
use mcpyeahyouknowme.Search.Store.{
  SearchEntry, begin_bulk_index, end_bulk_index, clear, delete_by_source, upsert_entries,
  upsert_all, rebuild_fts_if_needed, refresh_fts, index_entries,
}
use mcpyeahyouknowme.Search.Store.Bulk.{IsLive, all_triggers, delete_where-IsLive, rebuild-IsLive}

end_bulk_index-db :
    (s : SearchStore)
    → s.bulk_fts ≡ true
    → (end_bulk_index s).0 ≡ ok tt
    → ((end_bulk_index s).1.db ≡ rebuild (record s.db { triggers = all_triggers }))
      × ((end_bulk_index s).1.bulk_fts ≡ false)
unfolding end_bulk_index
end_bulk_index-db s bulk h = ground arith

-- In bulk mode, that is with the bulk flag set as after a BeginBulkIndex that has succeeded, and on a table whose
-- ids are distinct and below the next one: an EndBulkIndex that reports success makes the index live, whatever the
-- triggers and the full-text index were during the load, and clears the flag. Outside of bulk mode it reports
-- success without touching the index, so nothing is said of it then.
pub end_bulk_index-IsLive :
    (s : SearchStore)
    → s.bulk_fts ≡ true
    → IsWellFormed s.db
    → (end_bulk_index s).0 ≡ ok tt
    → IsLive (end_bulk_index s).1.db × ((end_bulk_index s).1.bulk_fts ≡ false)
unfolding rebuild
end_bulk_index-IsLive s bulk formed h =
    let (same, off) = end_bulk_index-db s bulk h in
    (
      subst IsLive (sym same) (record {
        triggers = refl;
        sync = rebuild-InSync (record s.db { triggers = all_triggers });
        formed = record { below = formed.below; nodup = formed.nodup };
      }),
      off,
    )

-- A BeginBulkIndex that fails has cleared no flag: EndBulkIndex does nothing then, so a trigger that
-- was dropped before the failure stays dropped.
pub end_bulk_index-begin_failed :
    (s : SearchStore) {e : String}
    → (begin_bulk_index s).0 ≡ err e
    → end_bulk_index (begin_bulk_index s).1 ≡ (ok tt, (begin_bulk_index s).1)
unfolding begin_bulk_index end_bulk_index
end_bulk_index-begin_failed s h = ground arith

rebuild-IsWellFormed : (db : Db) → IsWellFormed db → IsWellFormed (rebuild db)
unfolding rebuild
rebuild-IsWellFormed db h = record { below = h.below; nodup = h.nodup }

meta-IsLive : (db : Db) → IsLive db → IsLive (record db { meta = [] })
meta-IsLive db h = record {
  triggers = h.triggers;
  sync = record { at_id = h.sync.at_id };
  formed = record { below = h.formed.below; nodup = h.formed.nodup };
}

-- Clear and DeleteBySource keep a live index live, also when they fail halfway.
pub clear-Keeps : Keeps IsLive clear
unfolding clear
clear-Keeps = Keeps-then IsLive _ _ (Keeps-statement IsLive _ _ (delete_where-IsLive (λ k. true))) (
    Keeps-then IsLive _ _ (Keeps-statement IsLive _ rebuild rebuild-IsLive)
      (Keeps-statement IsLive _ _ meta-IsLive))

pub delete_by_source-Keeps : (source : String) → Keeps IsLive (delete_by_source source)
unfolding delete_by_source
delete_by_source-Keeps source =
    Keeps-statement IsLive _ _ (delete_where-IsLive (λ k. k.source == source))

upsert_entries-IsWellFormed :
    (rfc3339 : ℕ → String) (es : List SearchEntry) → Keeps IsWellFormed (upsert_entries rfc3339 es)
unfolding upsert_entries
upsert_entries-IsWellFormed rfc3339 [] = Keeps-pure IsWellFormed tt
upsert_entries-IsWellFormed rfc3339 (e ∷ es) =
    Keeps-then IsWellFormed _ _
      (Keeps-statement IsWellFormed _ _ (λ db. upsert-IsWellFormed _ _ db))
      (upsert_entries-IsWellFormed rfc3339 es)

refresh_fts-IsWellFormed : (fts_count : Db → ℕ) → Keeps IsWellFormed (refresh_fts fts_count)
unfolding refresh_fts rebuild_fts_if_needed
refresh_fts-IsWellFormed fts_count = record {
  at = λ s h. ground (arith, rebuild-IsWellFormed s.db h);
}

-- Row ids stay below the next one and distinct, in a bulk load as well.
pub index_entries_formed-Keeps :
    (rfc3339 : ℕ → String) (fts_count : Db → ℕ) (es : List SearchEntry)
    → Keeps IsWellFormed (index_entries rfc3339 fts_count es)
unfolding index_entries
index_entries_formed-Keeps rfc3339 fts_count es =
    Keeps-then IsWellFormed _ _
      (Keeps-transaction IsWellFormed (upsert_all rfc3339 es) (
        Keeps-then IsWellFormed _ _ (Keeps-statement IsWellFormed _ no_effect (λ db h. h))
          (upsert_entries-IsWellFormed rfc3339 es)))
      (refresh_fts-IsWellFormed fts_count)
