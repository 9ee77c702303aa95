-- ===== src/Search/Store/Bulk.antt =====
-- The full-text index agrees with the rows whenever no bulk load is under way.
use mcpyeahyouknowme.Prelude.{ℕ, ◌≡◌, ap, ◌∙◌, String, Bool, true, List, [], ◌∷◌, arith, string_eq}
use mcpyeahyouknowme.Search.Tables.{
  Key, IndexKey, Fields, Db, Triggers, upsert, delete_where, rebuild,
}
use mcpyeahyouknowme.Search.Tables.Sync.{
  InSync, IsWellFormed, rebuild-InSync, upsert-InSync, upsert-IsWellFormed, delete_where-InSync,
  delete_where-IsWellFormed,
}
use mcpyeahyouknowme.Search.Exec.{no_effect}
use mcpyeahyouknowme.Search.Exec.Keeps.{
  Keeps, Keeps-pure, Keeps-statement, Keeps-then, Keeps-transaction,
}
use mcpyeahyouknowme.Search.Store.{
  SearchEntry, upsert_entries, upsert_all, rebuild_fts_if_needed, refresh_fts, index_entries,
  insert_keys, keep_current, prune_body, prune_source_keys,
}

abbrev pub all_triggers : Triggers
all_triggers = record { on_insert = true; on_delete = true; on_update = true }

-- Outside of a bulk load: the triggers are there, and what they maintain is right.
pub record IsLive (db : Db) : Type 0 where
  pub triggers : db.triggers ≡ all_triggers
  pub sync : InSync db
  pub formed : IsWellFormed db

triggers-upsert : (k : Key) (f : Fields) (db : Db) → (upsert k f db).triggers ≡ db.triggers
unfolding upsert
triggers-upsert k f db = ground arith

upsert-IsLive : (k : Key) (f : Fields) (db : Db) → IsLive db → IsLive (upsert k f db)
upsert-IsLive k f db h = record {
  triggers = triggers-upsert k f db ∙ h.triggers;
  sync =
      upsert-InSync k f db h.formed (ap Triggers.on_insert h.triggers)
        (ap Triggers.on_update h.triggers) h.sync;
  formed = upsert-IsWellFormed k f db h.formed;
}

pub delete_where-IsLive : (gone : Key → Bool) (db : Db) → IsLive db → IsLive (delete_where gone db)
unfolding delete_where
delete_where-IsLive gone db h = record {
  triggers = h.triggers;
  sync = delete_where-InSync gone db h.formed (ap Triggers.on_delete h.triggers) h.sync;
  formed = delete_where-IsWellFormed gone db h.formed;
}

pub rebuild-IsLive : (db : Db) → IsLive db → IsLive (rebuild db)
unfolding rebuild
rebuild-IsLive db h = record {
  triggers = h.triggers;
  sync = rebuild-InSync db;
  formed = record { below = h.formed.below; nodup = h.formed.nodup };
}

-- The other columns of the database play no part.
keys-IsLive : (ks : List IndexKey) (db : Db) → IsLive db → IsLive (record db { keep_keys = ks })
keys-IsLive ks db h = record {
  triggers = h.triggers;
  sync = record { at_id = h.sync.at_id };
  formed = record { below = h.formed.below; nodup = h.formed.nodup };
}

insert_keys-IsLive : (ks : List IndexKey) → Keeps IsLive (insert_keys ks)
unfolding insert_keys
insert_keys-IsLive [] = Keeps-pure IsLive tt
insert_keys-IsLive (k ∷ ks) =
    Keeps-then IsLive _ _ (Keeps-statement IsLive _ _ (λ db. keys-IsLive _ db))
      (insert_keys-IsLive ks)

keep_current-IsLive : (ks : List IndexKey) → Keeps IsLive (keep_current ks)
keep_current-IsLive [] = Keeps-pure IsLive tt
keep_current-IsLive (k ∷ ks) =
    Keeps-then IsLive _ _ (Keeps-statement IsLive _ no_effect (λ db h. h))
      (insert_keys-IsLive (k ∷ ks))

pub prune_source_keys-Keeps :
    (source : String) (ks : List IndexKey) → Keeps IsLive (prune_source_keys source ks)
unfolding prune_source_keys
prune_source_keys-Keeps source ks = Keeps-transaction IsLive (prune_body source ks) (
    Keeps-then IsLive _ _ (Keeps-statement IsLive _ no_effect (λ db h. h)) (
      Keeps-then IsLive _ _ (Keeps-statement IsLive _ _ (λ db. keys-IsLive [] db)) (
        Keeps-then IsLive _ _ (keep_current-IsLive ks) (
          Keeps-then IsLive _ _ (Keeps-statement IsLive _ _ (λ db. delete_where-IsLive _ db))
            (Keeps-statement IsLive _ _ (λ db. keys-IsLive [] db))))))

module _ (rfc3339 : ℕ → String) (fts_count : Db → ℕ) where
  upsert_entries-IsLive : (es : List SearchEntry) → Keeps IsLive (upsert_entries rfc3339 es)
  unfolding upsert_entries
  upsert_entries-IsLive [] = Keeps-pure IsLive tt
  upsert_entries-IsLive (e ∷ es) =
      Keeps-then IsLive _ _ (Keeps-statement IsLive _ _ (λ db. upsert-IsLive _ _ db))
        (upsert_entries-IsLive es)

  refresh_fts-IsLive : Keeps IsLive (refresh_fts fts_count)
  unfolding refresh_fts rebuild_fts_if_needed
  refresh_fts-IsLive = record { at = λ s h. ground (arith, rebuild-IsLive s.db h) }

  -- IndexEntries, whichever of its statements fail, leaves a live index live: the full-text index has
  -- the title and the content of every row and nothing else.
  pub index_entries-Keeps :
      (es : List SearchEntry) → Keeps IsLive (index_entries rfc3339 fts_count es)
  unfolding index_entries
  index_entries-Keeps es =
      Keeps-then IsLive _ _
        (Keeps-transaction IsLive (upsert_all rfc3339 es) (
          Keeps-then IsLive _ _ (Keeps-statement IsLive _ no_effect (λ db h. h))
            (upsert_entries-IsLive es)))
        refresh_fts-IsLive
