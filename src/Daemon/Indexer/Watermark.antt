-- ===== src/Daemon/Indexer/Watermark.antt =====
-- search_meta during a pass over one source of the search store.
use mcpyeahyouknowme.Prelude.{
  ℕ, ◌≡◌, refl, ap, ◌∙◌, ◌⊎◌, String, Bool, false, Option, none, some, List, [], ◌∷◌, arith, ◌==◌,
  string_eq, Bool-cases, inl, inr,
}
use mcpyeahyouknowme.Prelude.Dict.{Dict, lookup, lookup-insert}
use mcpyeahyouknowme.Search.Tables.{
  Key, Fields, IndexKey, Db, upsert, set_last_indexed, delete_where, rebuild,
}
use mcpyeahyouknowme.Search.Tables.Laws.{meta-upsert}
use mcpyeahyouknowme.Search.Exec.{Result, ok, err, SearchStore, statement, no_effect}
use mcpyeahyouknowme.Search.Exec.Keeps.{
  Keeps, Keeps-pure, Keeps-statement, Keeps-then, Keeps-transaction,
}
use mcpyeahyouknowme.Search.Store.{
  SearchEntry, upsert_entries, upsert_all, index_entries, refresh_fts, rebuild_fts_if_needed,
  prune_source_keys, insert_keys, keep_current, prune_body, update_source_timestamp, last_indexed,
}
use mcpyeahyouknowme.Daemon.Indexer.{
  SourceIndexer, search_indexer, Context, check, Contents, loaded, streamed, Failure, failed,
  canceled, ActiveSource, Outcome, complete, unreadable, interrupted, Pass, indexed, emit, stream,
  settle, index_source_entries, conclude, should_index_source, index_source,
}

abbrev Meta : Dict String String → Db → Type 0
Meta m db = db.meta ≡ m

upsert-Meta :
    (m : Dict String String) (k : Key) (f : Fields) (db : Db) → Meta m db → Meta m (upsert k f db)
upsert-Meta m k f db h = meta-upsert k f db ∙ h

upsert_entries-Meta :
    (m : Dict String String) (rfc3339 : ℕ → String) (es : List SearchEntry)
    → Keeps (Meta m) (upsert_entries rfc3339 es)
unfolding upsert_entries
upsert_entries-Meta m rfc3339 [] = Keeps-pure (Meta m) tt
upsert_entries-Meta m rfc3339 (e ∷ es) =
    Keeps-then (Meta m) _ _ (Keeps-statement (Meta m) _ _ (λ db. upsert-Meta m _ _ db))
      (upsert_entries-Meta m rfc3339 es)

refresh_fts-Meta :
    (m : Dict String String) (fts_count : Db → ℕ) → Keeps (Meta m) (refresh_fts fts_count)
unfolding refresh_fts rebuild_fts_if_needed rebuild
refresh_fts-Meta m fts_count = record { at = λ s h. ground arith }

index_entries-Meta :
    (m : Dict String String) (rfc3339 : ℕ → String) (fts_count : Db → ℕ) (es : List SearchEntry)
    → Keeps (Meta m) (index_entries rfc3339 fts_count es)
unfolding index_entries
index_entries-Meta m rfc3339 fts_count es =
    Keeps-then (Meta m) _ _
      (Keeps-transaction (Meta m) (upsert_all rfc3339 es) (
        Keeps-then (Meta m) _ _ (Keeps-statement (Meta m) _ no_effect (λ db h. h))
          (upsert_entries-Meta m rfc3339 es)))
      (refresh_fts-Meta m fts_count)

insert_keys-Meta : (m : Dict String String) (ks : List IndexKey) → Keeps (Meta m) (insert_keys ks)
unfolding insert_keys
insert_keys-Meta m [] = Keeps-pure (Meta m) tt
insert_keys-Meta m (k ∷ ks) =
    Keeps-then (Meta m) _ _ (Keeps-statement (Meta m) _ _ (λ db h. h)) (insert_keys-Meta m ks)

keep_current-Meta : (m : Dict String String) (ks : List IndexKey) → Keeps (Meta m) (keep_current ks)
keep_current-Meta m [] = Keeps-pure (Meta m) tt
keep_current-Meta m (k ∷ ks) =
    Keeps-then (Meta m) _ _ (Keeps-statement (Meta m) _ no_effect (λ db h. h))
      (insert_keys-Meta m (k ∷ ks))

prune_source_keys-Meta :
    (m : Dict String String) (source : String) (ks : List IndexKey)
    → Keeps (Meta m) (prune_source_keys source ks)
unfolding prune_source_keys delete_where
prune_source_keys-Meta m source ks = Keeps-transaction (Meta m) (prune_body source ks) (
    Keeps-then (Meta m) _ _ (Keeps-statement (Meta m) _ no_effect (λ db h. h)) (
      Keeps-then (Meta m) _ _ (Keeps-statement (Meta m) _ _ (λ db h. h)) (
        Keeps-then (Meta m) _ _ (keep_current-Meta m ks) (
          Keeps-then (Meta m) _ _ (Keeps-statement (Meta m) _ _ (λ db h. h))
            (Keeps-statement (Meta m) _ _ (λ db h. h))))))

module _ (rfc3339 : ℕ → String) (parse_rfc3339 : String → Option ℕ) (fts_count : Db → ℕ) where
  abbrev ix : SourceIndexer SearchStore
  ix = search_indexer rfc3339 parse_rfc3339 fts_count

  indexed-meta :
      (es : List SearchEntry) (r : Result (Unit {0}) × SearchStore) (p : Pass SearchStore)
      → (indexed ix es r p).1.store ≡ r.1
  unfolding indexed
  indexed-meta es (ok tt, s) p = refl
  indexed-meta es (err e, s) p = refl

  emit-meta :
      (es : List SearchEntry) (p : Pass SearchStore)
      → (emit ix es p).1.store.db.meta ≡ p.store.db.meta
  unfolding emit
  emit-meta [] p = ground arith
  emit-meta (e ∷ es) p = ground (
    arith,
    indexed-meta (e ∷ es) (index_entries rfc3339 fts_count (e ∷ es) p.store)
        (record p { ctx = (check p.ctx).1 }),
    (index_entries-Meta p.store.db.meta rfc3339 fts_count (e ∷ es)).at p.store refl,
  )

  stream-meta :
      (bs : List (List SearchEntry)) (failure : Option String) (p : Pass SearchStore)
      → (stream ix bs failure p).1.store.db.meta ≡ p.store.db.meta
  unfolding stream
  stream-meta [] none p = refl
  stream-meta [] (some e) p = refl
  stream-meta (b ∷ bs) failure p =
      ground (arith, emit-meta b p, stream-meta bs failure (emit ix b p).1)

  settle-store : (o : Option Failure × Pass SearchStore) → (settle ix o).2 ≡ o.1.store
  unfolding settle
  settle-store (none, p) = refl
  settle-store (some canceled, p) = refl
  settle-store (some (failed e), p) = refl

  index_source_entries-meta :
      (c : Contents) (ctx : Context) (s : SearchStore)
      → (index_source_entries ix c ctx s).2.db.meta ≡ s.db.meta
  unfolding index_source_entries
  index_source_entries-meta (loaded (err e)) ctx s = refl
  index_source_entries-meta (loaded (ok es)) ctx s =
      let p : Pass SearchStore = record { ctx = ctx; keys = []; store = s } in
      ap (λ s. s.db.meta) (settle-store (emit ix es p)) ∙ emit-meta es p
  index_source_entries-meta (streamed bs failure) ctx s =
      let p : Pass SearchStore = record { ctx = ctx; keys = []; store = s } in
      ap (λ s. s.db.meta) (settle-store (stream ix bs failure p)) ∙ stream-meta bs failure p

  update_source_timestamp-meta :
      (name j : String) (t : ℕ) (s : SearchStore)
      → (j == name) ≡ false
      → lookup j (update_source_timestamp rfc3339 name t s).db.meta ≡ lookup j s.db.meta
  unfolding update_source_timestamp statement set_last_indexed
  update_source_timestamp-meta name j t s n =
      ground (arith, lookup-insert j name (rfc3339 t) s.db.meta)

  last_indexed-meta :
      (name : String) (s : SearchStore) → (last_indexed parse_rfc3339 name s).1.db.meta ≡ s.db.meta
  unfolding last_indexed statement
  last_indexed-meta name s = ground arith

  should_index_source-meta :
      (full : Bool) (active : ActiveSource) (s : SearchStore)
      → (should_index_source ix full active s).1.db.meta ≡ s.db.meta
  unfolding should_index_source
  should_index_source-meta full active s = ground (arith, last_indexed-meta active.name s)

  module _ (now : String → ℕ) (full : Bool) where
    conclude-other :
        (name j : String) (o : Outcome × Context × SearchStore)
        → (j == name) ≡ false
        → lookup j (conclude ix now full name o).2.db.meta ≡ lookup j o.2.db.meta
    unfolding conclude
    conclude-other name j (interrupted, ctx, s) n = refl
    conclude-other name j (unreadable e, ctx, s) n = refl
    conclude-other name j (complete keys, ctx, s) n = ground (
      arith,
      update_source_timestamp-meta name j (now name) s n,
      update_source_timestamp-meta name j (now name) (prune_source_keys name keys s).1 n,
      ap (lookup j) ((prune_source_keys-Meta s.db.meta name keys).at s refl),
    )

    conclude-incomplete :
        (name : String) (o : Outcome × Context × SearchStore)
        → ((conclude ix now full name o).2.db.meta ≡ o.2.db.meta)
          ⊎ ((keys : List IndexKey) × (o.0 ≡ complete keys))
    unfolding conclude
    conclude-incomplete name (interrupted, ctx, s) = inl refl
    conclude-incomplete name (unreadable e, ctx, s) = inl refl
    conclude-incomplete name (complete keys, ctx, s) = inr (keys, refl)

    index_source-due :
        (active : ActiveSource) (ctx : Context) (s : SearchStore)
        → let s' = (should_index_source ix full active s).1 in
          (index_source ix now full active ctx s
            ≡ conclude ix now full active.name (index_source_entries ix active.contents ctx s'))
          ⊎ ((index_source ix now full active ctx s).2.db.meta ≡ s.db.meta)
    unfolding index_source
    index_source-due active ctx s = elim (Bool-cases active.index_globally) [
      | inl g ↦ elim (Bool-cases (should_index_source ix full active s).0) [
        | inl due ↦ inl (ground arith)
        | inr due ↦ inr (ground (arith, should_index_source-meta full active s))
      ]
      | inr g ↦ inr (ground arith)
    ]

    -- One source's round of a pass leaves the stored times of all the other sources alone.
    pub index_source-other :
        (active : ActiveSource) (ctx : Context) (s : SearchStore) (j : String)
        → (j == active.name) ≡ false
        → lookup j (index_source ix now full active ctx s).2.db.meta ≡ lookup j s.db.meta
    index_source-other active ctx s j n =
        let s' = (should_index_source ix full active s).1 in
        let o = index_source_entries ix active.contents ctx s' in
        let kept =
          index_source_entries-meta active.contents ctx s'
          ∙ should_index_source-meta full active s in
        elim (index_source-due active ctx s) [
          | inl e ↦
              ap (λ r. lookup j r.2.db.meta) e
              ∙ conclude-other active.name j o n
              ∙ ap (lookup j) kept
          | inr e ↦ ap (lookup j) e
        ]

    -- One source's round of a pass changes a stored time only if indexSourceEntries has completed: an
    -- interrupted or failing source keeps the time of its last good pass.
    pub index_source-watermark :
        (active : ActiveSource) (ctx : Context) (s : SearchStore)
        → let s' = (should_index_source ix full active s).1 in
          ((index_source ix now full active ctx s).2.db.meta ≡ s.db.meta)
          ⊎ ((keys : List IndexKey) × ((index_source_entries ix active.contents ctx s').0
                ≡ complete keys))
    index_source-watermark active ctx s =
        let s' = (should_index_source ix full active s).1 in
        let o = index_source_entries ix active.contents ctx s' in
        let kept =
          index_source_entries-meta active.contents ctx s'
          ∙ should_index_source-meta full active s in
        elim (index_source-due active ctx s) [
          | inl e ↦ elim (conclude-incomplete active.name o) [
            | inl same ↦ inl (ap (λ r. r.2.db.meta) e ∙ same ∙ kept)
            | inr read ↦ inr read
          ]
          | inr e ↦ inl e
        ]
