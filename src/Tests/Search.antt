-- ===== src/Tests/Search.antt =====
-- A small search store, with two sources.
use mcpyeahyouknowme.Prelude.{
  ℕ, ◌≡◌, refl, String, true, false, none, some, [], ◌∷◌, if◌then◌else◌, string_eq, nat_eq,
}
use mcpyeahyouknowme.Prelude.Dict.{lookup, insert}
use mcpyeahyouknowme.Search.Tables.{Db, key_eq, index_key_eq, empty_db, upsert}
use mcpyeahyouknowme.Search.Tables.Laws.{fields_at}
use mcpyeahyouknowme.Search.Tables.Sync.{doc_at}
use mcpyeahyouknowme.Search.Exec.{ok, err, SearchStore, transaction}
use mcpyeahyouknowme.Search.Store.{
  rebuild_fts_if_needed, refresh_fts, upsert_entries, SearchEntry, key_of, fields_of, index_entries,
  prune_source_keys, clear, delete_by_source, begin_bulk_index, end_bulk_index, is_stale,
}
use mcpyeahyouknowme.Search.Store.Writes.{latest, index_entries-fields, index_entries-err}
use mcpyeahyouknowme.Search.Store.Prune.{prune_source_keys-fields}
use mcpyeahyouknowme.Search.Store.Bulk.{IsLive}
use mcpyeahyouknowme.Search.Store.BulkPass.{end_bulk_index-IsLive, end_bulk_index-begin_failed}
use mcpyeahyouknowme.Search.Store.Live.{writes-IsLive}

abbrev note : SearchEntry
note = record {
  source = "notebook";
  source_id = "a.md#0";
  content_type = "note";
  title = "a";
  content = "first text";
  metadata = "";
  timestamp = some 7;
}

abbrev newer_note : SearchEntry
newer_note = record note { content = "second text" }

abbrev mail : SearchEntry
mail = record note { source = "gmail"; source_id = "t1" }

abbrev time_text : ℕ → String
time_text n = "1970-01-01T00:00:07Z"

abbrev no_count : Db → ℕ
no_count db = 1

abbrev start : SearchStore
start = record { db = empty_db; bulk_fts = false; faults = [] }

abbrev filled : SearchStore
filled = (index_entries time_text no_count (note ∷ mail ∷ newer_note ∷ []) start).1

filled_ok : (index_entries time_text no_count (note ∷ mail ∷ newer_note ∷ []) start).0 ≡ ok tt
unfolding index_entries transaction upsert_entries refresh_fts
filled_ok = refl

-- The later of two entries with one key is kept.
filled_note : fields_at (key_of note) filled.db ≡ some (fields_of time_text newer_note)
unfolding index_entries transaction upsert fields_at lookup insert key_eq string_eq nat_eq
    upsert_entries refresh_fts rebuild_fts_if_needed
filled_note = refl

index_entries-fields_example :
    fields_at (key_of note) filled.db
    ≡ latest time_text
        (key_of note)
        (note ∷ mail ∷ newer_note ∷ [])
        (fields_at (key_of note) start.db)
index_entries-fields_example =
    index_entries-fields time_text no_count (note ∷ mail ∷ newer_note ∷ []) start (key_of note)
      filled_ok

-- The second upsert fails, after BEGIN, the prepared statement and the first upsert.
abbrev failing : SearchStore
failing = record start { faults = false ∷ false ∷ false ∷ true ∷ [] }

failing_err :
    (index_entries time_text no_count (note ∷ mail ∷ []) failing).0 ≡ err "upsert entry gmail/t1"
unfolding index_entries transaction upsert_entries
failing_err = refl

index_entries-err_example :
    (index_entries time_text no_count (note ∷ mail ∷ []) failing).1.db ≡ empty_db
index_entries-err_example =
    index_entries-err time_text no_count (note ∷ mail ∷ []) failing failing_err

prune_ok : (prune_source_keys "notebook" [] filled).0 ≡ ok tt
unfolding prune_source_keys transaction index_entries upsert_entries refresh_fts
    rebuild_fts_if_needed nat_eq upsert lookup key_eq string_eq insert
prune_ok = refl

prune_source_keys-fields_example :
    fields_at (key_of mail) (prune_source_keys "notebook" [] filled).1.db
    ≡ (if is_stale "notebook" [] (key_of mail) then none else fields_at (key_of mail) filled.db)
prune_source_keys-fields_example =
    prune_source_keys-fields "notebook" [] filled (key_of mail) prune_ok

empty-IsLive : IsLive empty_db
unfolding lookup doc_at
empty-IsLive = record {
  triggers = refl;
  sync = record { at_id = λ i. refl };
  formed = record { below = tt; nodup = tt };
}

writes-IsLive_example :
    IsLive (index_entries time_text no_count (note ∷ mail ∷ []) failing).1.db
    × IsLive (prune_source_keys "gmail" [] failing).1.db
    × IsLive (clear failing).1.db
    × IsLive (delete_by_source "gmail" failing).1.db
writes-IsLive_example =
    writes-IsLive time_text no_count failing (note ∷ mail ∷ []) "gmail" [] empty-IsLive

abbrev loading : SearchStore
loading = (begin_bulk_index start).1

end_ok : (end_bulk_index loading).0 ≡ ok tt
unfolding begin_bulk_index end_bulk_index
end_ok = refl

loading_bulk : loading.bulk_fts ≡ true
unfolding begin_bulk_index
loading_bulk = refl

end_bulk_index-IsLive_example :
    IsLive (end_bulk_index loading).1.db × ((end_bulk_index loading).1.bulk_fts ≡ false)
unfolding begin_bulk_index
end_bulk_index-IsLive_example =
    end_bulk_index-IsLive loading loading_bulk (record { below = tt; nodup = tt }) end_ok

-- The second DROP TRIGGER fails.
abbrev not_begun : SearchStore
not_begun = record start { faults = false ∷ true ∷ [] }

begin_failed : (begin_bulk_index not_begun).0 ≡ err "drop search_fts_delete"
unfolding begin_bulk_index
begin_failed = refl

end_bulk_index-begin_failed_example :
    end_bulk_index (begin_bulk_index not_begun).1 ≡ (ok tt, (begin_bulk_index not_begun).1)
end_bulk_index-begin_failed_example = end_bulk_index-begin_failed not_begun begin_failed
