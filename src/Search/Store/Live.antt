-- ===== src/Search/Store/Live.antt =====
-- The methods that write outside a bulk load.
use mcpyeahyouknowme.Prelude.{ℕ, String, List}
use mcpyeahyouknowme.Search.Tables.{IndexKey, Db}
use mcpyeahyouknowme.Search.Exec.{SearchStore}
use mcpyeahyouknowme.Search.Store.{
  SearchEntry, index_entries, prune_source_keys, clear, delete_by_source,
}
use mcpyeahyouknowme.Search.Store.Bulk.{IsLive, index_entries-Keeps, prune_source_keys-Keeps}
use mcpyeahyouknowme.Search.Store.BulkPass.{clear-Keeps, delete_by_source-Keeps}

-- If the three triggers exist, the full-text index has the title and content of every row and nothing
-- else, and the row ids are distinct and below the next one, then all this still holds after IndexEntries,
-- PruneSourceKeys, Clear and DeleteBySource, whichever of their statements fail.
pub writes-IsLive :
    (rfc3339 : ℕ → String) (fts_count : Db → ℕ) (s : SearchStore) (es : List SearchEntry)
    (source : String) (keys : List IndexKey)
    → IsLive s.db
    → IsLive (index_entries rfc3339 fts_count es s).1.db
      × IsLive (prune_source_keys source keys s).1.db
      × IsLive (clear s).1.db
      × IsLive (delete_by_source source s).1.db
writes-IsLive rfc3339 fts_count s es source keys h = (
  (index_entries-Keeps rfc3339 fts_count es).at s h,
  (prune_source_keys-Keeps source keys).at s h,
  clear-Keeps.at s h,
  (delete_by_source-Keeps source).at s h,
)
