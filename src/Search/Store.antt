-- ===== src/Search/Store.antt =====
-- src/search_store.go: the methods that write the index, and the trigger statements of
-- src/search_store_init.go. Times are written and read by `rfc3339` and `parse_rfc3339`, and
-- `fts_count` is what SELECT COUNT(*) FROM search_fts answers.
pub mod Writes
pub mod Prune
pub mod Bulk
pub mod BulkPass
pub mod Live
use mcpyeahyouknowme.Prelude.{
  ℕ, zero, suc, String, ◌<>◌, Bool, true, false, not, ◌&&◌, ◌||◌, Option, none, some, List, [], ◌∷◌,
  ◌++◌, length, if◌then◌else◌, ◌==◌, contains, string_eq, nat_eq, ltb,
}
use mcpyeahyouknowme.Prelude.Dict.{lookup}
use mcpyeahyouknowme.Search.Tables.{
  Key, IndexKey, index_key_eq, Fields, Triggers, Db, upsert, delete_where, rebuild,
  set_last_indexed,
}
use mcpyeahyouknowme.Search.Exec.{
  Result, ok, err, SearchStore, Exec, pure, ◌>>=◌, ◌>>◌, statement, no_effect, transaction,
}

-- core.SearchEntry; `metadata` is empty for a nil json.RawMessage, and a time is a number of seconds.
pub record SearchEntry : Type 0 where
  pub source : String
  pub source_id : String
  pub content_type : String
  pub title : String
  pub content : String
  pub metadata : String
  pub timestamp : Option ℕ

abbrev pub key_of : SearchEntry → Key
key_of e = record { source = e.source; source_id = e.source_id; content_type = e.content_type }

-- searchStoreExecSQL, on the statement that makes or drops one trigger.
abbrev set_triggers : String → (Triggers → Triggers) → Exec (Unit {0})
set_triggers e f = statement e (λ db. record db { triggers = f db.triggers })

unfoldable pub create_search_fts_triggers : Exec (Unit {0})
unfolding statement
create_search_fts_triggers = do
  set_triggers "create search_fts_insert trigger" (λ t. record t { on_insert = true })
  set_triggers "create search_fts_delete trigger" (λ t. record t { on_delete = true })
  set_triggers "create search_fts_update trigger" (λ t. record t { on_update = true })

unfoldable pub drop_search_fts_triggers : Exec (Unit {0})
unfolding statement
drop_search_fts_triggers = do
  set_triggers "drop search_fts_insert" (λ t. record t { on_insert = false })
  set_triggers "drop search_fts_delete" (λ t. record t { on_delete = false })
  set_triggers "drop search_fts_update" (λ t. record t { on_update = false })

unfoldable pub search_store_rebuild_fts : Exec (Unit {0})
unfolding statement
search_store_rebuild_fts = statement "rebuild search fts" rebuild

abbrev set_bulk : Bool → Exec (Unit {0})
set_bulk b s = (ok tt, record s { bulk_fts = b })

unfoldable pub begin_bulk_index : Exec (Unit {0})
unfolding drop_search_fts_triggers
begin_bulk_index s =
    if s.bulk_fts then (ok tt, s) else (do drop_search_fts_triggers; set_bulk true) s

unfoldable pub end_bulk_index : Exec (Unit {0})
unfolding create_search_fts_triggers search_store_rebuild_fts
end_bulk_index s =
    if not s.bulk_fts
    then (ok tt, s)
    else (do create_search_fts_triggers; set_bulk false; search_store_rebuild_fts) s

-- The three statements of Clear, which one Exec call runs in order.
unfoldable pub clear : Exec (Unit {0})
unfolding statement
clear = do
  statement "clear search index" (delete_where (λ k. true))
  statement "clear search index" rebuild
  statement "clear search index" (λ db. record db { meta = [] })

unfoldable pub delete_by_source : String → Exec (Unit {0})
unfolding statement
delete_by_source source =
    statement ("delete search entries for source " <> source)
      (delete_where (λ k. k.source == source))

module _ (rfc3339 : ℕ → String) where
  -- The columns that IndexEntries binds for one entry.
  abbrev pub fields_of : SearchEntry → Fields
  fields_of e = record {
    title = e.title;
    content = e.content;
    metadata = if e.metadata == "" then none else some e.metadata;
    timestamp = elim e.timestamp [ none ↦ none | some t ↦ some (rfc3339 t) ];
  }

  unfoldable pub upsert_entries : List SearchEntry → Exec (Unit {0})
  upsert_entries [] = pure tt
  upsert_entries (e ∷ es) = do
    statement ("upsert entry " <> (e.source <> ("/" <> e.source_id)))
        (upsert (key_of e) (fields_of e))
    upsert_entries es

module _ (fts_count : Db → ℕ) where
  -- The two counts are queries, so they may fail too.
  unfoldable pub rebuild_fts_if_needed : Exec (Unit {0})
  unfolding search_store_rebuild_fts statement
  rebuild_fts_if_needed = do
    statement "count search entries" no_effect
    λ s.
        if length s.db.entries == 0
        then (ok tt, s)
        else (do
          statement "count fts rows" no_effect
          λ s'. if fts_count s'.db == 0 then search_store_rebuild_fts s' else (ok tt, s'))
            s

  -- What IndexEntries does after its commit: a failed rebuild is only logged.
  unfoldable pub refresh_fts : Exec (Unit {0})
  refresh_fts s = if s.bulk_fts then (ok tt, s) else (ok tt, (rebuild_fts_if_needed s).1)

-- The body of the transaction of IndexEntries.
abbrev pub upsert_all : (ℕ → String) → List SearchEntry → Exec (Unit {0})
upsert_all rfc3339 entries = do statement "prepare upsert" no_effect; upsert_entries rfc3339 entries

unfoldable pub index_entries : (ℕ → String) → (Db → ℕ) → List SearchEntry → Exec (Unit {0})
index_entries rfc3339 fts_count entries = do
  transaction (upsert_all rfc3339 entries)
  refresh_fts fts_count

-- INSERT OR IGNORE INTO prune_keep_keys
abbrev pub add_key : IndexKey → Db → Db
add_key k db = record db {
  keep_keys = if contains db.keep_keys k then db.keep_keys else db.keep_keys ++ (k ∷ []);
}

unfoldable pub insert_keys : List IndexKey → Exec (Unit {0})
insert_keys [] = pure tt
insert_keys (k ∷ ks) = do statement "insert prune key" (add_key k); insert_keys ks

-- The condition of the DELETE that prunes.
abbrev pub is_stale : String → List IndexKey → Key → Bool
is_stale source keep k =
    k.source == source
    && not (contains keep (record { source_id = k.source_id; content_type = k.content_type }))

-- Without current keys no statement is prepared.
abbrev pub keep_current : List IndexKey → Exec (Unit {0})
keep_current [] = pure tt
keep_current (k ∷ ks) = do statement "prepare prune keys" no_effect; insert_keys (k ∷ ks)

-- The body of the transaction of PruneSourceKeys.
abbrev pub prune_body : String → List IndexKey → Exec (Unit {0})
prune_body source current = do
  statement "create prune keys" no_effect
  statement "clear prune keys" (λ db. record db { keep_keys = [] })
  keep_current current
  statement "prune stale entries" (λ db. delete_where (is_stale source db.keep_keys) db)
  statement "reset prune keys" (λ db. record db { keep_keys = [] })

unfoldable pub prune_source_keys : String → List IndexKey → Exec (Unit {0})
prune_source_keys source current = transaction (prune_body source current)

-- UpdateSourceTimestamp; an error is only logged.
unfoldable pub update_source_timestamp : (ℕ → String) → String → ℕ → SearchStore → SearchStore
unfolding statement
update_source_timestamp rfc3339 source t s =
    (statement "update source timestamp" (set_last_indexed source (rfc3339 t)) s).1

read_meta : String → Result (Unit {0}) → SearchStore → Option String
read_meta source (ok _) s = lookup source s.db.meta
read_meta source (err _) s = none

-- LastIndexed, whose zero time is `none`. A query that fails reads as no row.
unfoldable pub last_indexed : (String → Option ℕ) → String → SearchStore → Option ℕ × SearchStore
unfolding statement read_meta
last_indexed parse_rfc3339 source s =
    let (r, s') = statement "read last indexed" no_effect s in
    (elim (read_meta source r s') [ none ↦ none | some ts ↦ parse_rfc3339 ts ], s')
