-- ===== src/Search/Store/Writes.antt =====
-- What the writing methods leave in the index, whichever statements fail.
use mcpyeahyouknowme.Prelude.{
  ℕ, ◌≡◌, refl, ◌∙◌, sym, ap, String, ◌<>◌, Option, some, List, [], ◌∷◌, arith, if◌then◌else◌, ◌==◌,
  string_eq, inl, inr,
}
use mcpyeahyouknowme.Search.Tables.{Key, key_eq, index_key_eq, Fields, Db, upsert, rebuild}
use mcpyeahyouknowme.Search.Tables.Laws.{fields_at, fields_at-upsert}
use mcpyeahyouknowme.Search.Exec.{ok, err, SearchStore, statement, no_effect, transaction}
use mcpyeahyouknowme.Search.Exec.Laws.{
  statement-db, >>=-ok, transaction-ok, transaction-err, ok-ne-err, Result-cases,
}
use mcpyeahyouknowme.Search.Store.{
  SearchEntry, key_of, fields_of, upsert_entries, rebuild_fts_if_needed, refresh_fts, upsert_all,
  index_entries,
}

module _ (rfc3339 : ℕ → String) where
  -- What the entries say of a key: the last one that has it, otherwise what was there.
  abbrev pub latest : Key → List SearchEntry → Option Fields → Option Fields
  latest k [] old = old
  latest k (e ∷ es) old = latest k es (if k == key_of e then some (fields_of rfc3339 e) else old)

  upsert_entries-fields :
      (es : List SearchEntry) (s : SearchStore) (k : Key)
      → (upsert_entries rfc3339 es s).0 ≡ ok tt
      → fields_at k (upsert_entries rfc3339 es s).1.db ≡ latest k es (fields_at k s.db)
  unfolding upsert_entries
  upsert_entries-fields [] s k h = refl
  upsert_entries-fields (e ∷ es) s k h =
      let msg = "upsert entry " <> (e.source <> ("/" <> e.source_id)) in
      let f = upsert (key_of e) (fields_of rfc3339 e) in
      let (a, done, steps) = >>=-ok (statement msg f) (λ _. upsert_entries rfc3339 es) s h in
      ap (λ o. fields_at k o.1.db) steps
      ∙ upsert_entries-fields es (statement msg f s).1 k (sym (ap (λ o. o.0) steps) ∙ h)
      ∙ ap (latest k es) (
          ap (fields_at k) (statement-db msg f s done)
          ∙ fields_at-upsert (key_of e) k (fields_of rfc3339 e) s.db)

rebuild-fields : (db : Db) (k : Key) → fields_at k (rebuild db) ≡ fields_at k db
unfolding rebuild fields_at
rebuild-fields db k = refl

module _ (fts_count : Db → ℕ) where
  rebuild_fts_if_needed-fields :
      (s : SearchStore) (k : Key)
      → fields_at k (rebuild_fts_if_needed fts_count s).1.db ≡ fields_at k s.db
  unfolding rebuild_fts_if_needed
  rebuild_fts_if_needed-fields s k = ground (arith, rebuild-fields s.db k)

  refresh_fts-fields :
      (s : SearchStore) (k : Key) → fields_at k (refresh_fts fts_count s).1.db ≡ fields_at k s.db
  unfolding refresh_fts
  refresh_fts-fields s k = ground (arith, rebuild_fts_if_needed-fields s k)

  refresh_fts-ok : (s : SearchStore) → (refresh_fts fts_count s).0 ≡ ok tt
  unfolding refresh_fts
  refresh_fts-ok s = ground arith

module _ (rfc3339 : ℕ → String) (fts_count : Db → ℕ) where
  upsert_all-fields :
      (es : List SearchEntry) (s : SearchStore) (k : Key)
      → (upsert_all rfc3339 es s).0 ≡ ok tt
      → fields_at k (upsert_all rfc3339 es s).1.db ≡ latest rfc3339 k es (fields_at k s.db)
  upsert_all-fields es s k h =
      let m = statement "prepare upsert" no_effect in
      let (a, done, steps) = >>=-ok m (λ _. upsert_entries rfc3339 es) s h in
      ap (λ o. fields_at k o.1.db) steps
      ∙ upsert_entries-fields rfc3339 es (m s).1 k (sym (ap (λ o. o.0) steps) ∙ h)
      ∙ ap (λ db. latest rfc3339 k es (fields_at k db))
          (statement-db "prepare upsert" no_effect s done)

  -- IndexEntries that reports success has written every entry, the last one of a key winning, and no
  -- other row.
  pub index_entries-fields :
      (es : List SearchEntry) (s : SearchStore) (k : Key)
      → (index_entries rfc3339 fts_count es s).0 ≡ ok tt
      → fields_at k (index_entries rfc3339 fts_count es s).1.db
        ≡ latest rfc3339 k es (fields_at k s.db)
  unfolding index_entries
  index_entries-fields es s k h =
      let m = transaction (upsert_all rfc3339 es) in
      let (a, done, steps) = >>=-ok m (λ _. refresh_fts fts_count) s h in
      let (began, _, wrote, kept) = transaction-ok (upsert_all rfc3339 es) s done in
      ap (λ o. fields_at k o.1.db) steps
      ∙ refresh_fts-fields fts_count (m s).1 k
      ∙ ap (fields_at k) kept
      ∙ upsert_all-fields es (statement "begin" no_effect s).1 k wrote
      ∙ ap (λ db. latest rfc3339 k es (fields_at k db)) began

  -- IndexEntries that reports an error has changed nothing.
  pub index_entries-err :
      (es : List SearchEntry) (s : SearchStore) {e : String}
      → (index_entries rfc3339 fts_count es s).0 ≡ err e
      → (index_entries rfc3339 fts_count es s).1.db ≡ s.db
  unfolding index_entries
  index_entries-err es s {e} h = elim (Result-cases ((transaction (upsert_all rfc3339 es) s).0)) [
    | inl (a, done) ↦ absurd (ok-ne-err (sym (refresh_fts-ok fts_count _) ∙ (rw done at h)))
    | inr (e', failed) ↦ rw failed (transaction-err (upsert_all rfc3339 es) s failed)
  ]
