-- ===== src/Daemon/Indexer/FullPass.antt =====
-- A full pass over one source, with its pruning.
use mathlib.Core.Path.{subst}
use mcpyeahyouknowme.Prelude.{
  ℕ, ◌≡◌, refl, sym, ap, ◌∙◌, String, true, false, Option, none, some, List, [], ◌∷◌, map, arith,
  if◌then◌else◌, ◌==◌, contains, string_eq, All, inl, inr, eq_true, eq_refl, true-ne-false, eq-eq,
  Bool-cases,
}
use mcpyeahyouknowme.Search.Tables.{
  Key, key_eq, index_key_eq, IndexKey, Fields, Db, set_last_indexed,
}
use mcpyeahyouknowme.Search.Tables.Laws.{fields_at}
use mcpyeahyouknowme.Search.Exec.{ok, SearchStore, statement}
use mcpyeahyouknowme.Search.Store.{
  SearchEntry, key_of, fields_of, prune_source_keys, is_stale, update_source_timestamp,
}
use mcpyeahyouknowme.Search.Store.Writes.{latest}
use mcpyeahyouknowme.Search.Store.Prune.{prune_source_keys-fields}
use mcpyeahyouknowme.Daemon.Indexer.{
  SourceIndexer, search_indexer, Context, Contents, index_key, complete, index_source_entries,
  conclude,
}
use mcpyeahyouknowme.Daemon.Indexer.Search.{entries_of, index_source_entries-complete}

module _ (rfc3339 : ℕ → String) (parse_rfc3339 : String → Option ℕ) (fts_count : Db → ℕ) where
  abbrev ix : SourceIndexer SearchStore
  ix = search_indexer rfc3339 parse_rfc3339 fts_count

  abbrev index_key_of : Key → IndexKey
  index_key_of k = record { source_id = k.source_id; content_type = k.content_type }

  same_key :
      (k : Key) (e : SearchEntry)
      → k.source ≡ e.source
      → (k == key_of e) ≡ (index_key e == index_key_of k)
  same_key k e h =
      eq-eq k (key_of e) (index_key e) (index_key_of k) (λ p. sym (ap index_key_of p))
        (λ q. ground (arith, h, ap IndexKey.source_id q, ap IndexKey.content_type q))

  abbrev pub From : String → List SearchEntry → Type 0
  From name es = All (λ e. e.source ≡ name) es

  -- A row of the source is written exactly if its key was collected.
  latest-collected :
      (k : Key) (es : List SearchEntry) (old : Option Fields)
      → From k.source es
      → latest rfc3339 k es old
        ≡ (if contains (map index_key es) (index_key_of k) then latest rfc3339 k es none else old)
  latest-collected k [] old h = refl
  latest-collected k (e ∷ es) old (h, hs) =
      let f : Option Fields = some (fields_of rfc3339 e) in
      ground (arith, same_key k e (sym h), latest-collected k es f hs, latest-collected k es old hs)

  latest-other :
      (k : Key) (name : String) (es : List SearchEntry) (old : Option Fields)
      → (k.source == name) ≡ false
      → From name es
      → latest rfc3339 k es old ≡ old
  latest-other k name [] old n h = refl
  latest-other k name (e ∷ es) old n (h, hs) = elim (Bool-cases (k == key_of e)) [
    | inl t ↦
        let same : k.source ≡ name = ap Key.source (eq_true k (key_of e) t) ∙ h in
        absurd (true-ne-false (sym (eq_refl name) ∙ (rw same at n)))
    | inr t ↦ rw t (latest-other k name es old n hs)
  ]

  conclude-db :
      (now : String → ℕ) (name : String) (keys : List IndexKey) (ctx : Context) (s : SearchStore)
      (k : Key)
      → (prune_source_keys name keys s).0 ≡ ok tt
      → fields_at k (conclude ix now true name (complete keys, ctx, s)).2.db
        ≡ fields_at k (prune_source_keys name keys s).1.db
  unfolding conclude update_source_timestamp statement set_last_indexed fields_at
  conclude-db now name keys ctx s k h = ground arith

  -- What pruning leaves of the rows that the pass has written.
  pruned-latest :
      (name : String) (es : List SearchEntry) (k : Key) (old : Option Fields)
      → From name es
      → (if is_stale name (map index_key es) k then none else latest rfc3339 k es old)
        ≡ (if k.source == name then latest rfc3339 k es none else old)
  pruned-latest name es k old from = elim (Bool-cases (k.source == name)) [
    | inl t ↦ ground (
      arith,
      t,
      latest-collected k es old (subst (λ n. From n es) (sym (eq_true k.source name t)) from),
      latest-collected k es none (subst (λ n. From n es) (sym (eq_true k.source name t)) from),
    )
    | inr t ↦ ground (arith, t, latest-other k name es old t from)
  ]

  -- A full pass over a source whose entries bear its name, if it completes and prunes: the rows of the
  -- source are then exactly its entries, the last one of each key, and no other source's row is changed.
  pub conclude-fields :
      (now : String → ℕ) (name : String) (c : Contents) (ctx : Context) (s : SearchStore)
      (keys : List IndexKey) (k : Key)
      → From name (entries_of c)
      → (index_source_entries ix c ctx s).0 ≡ complete keys
      → (prune_source_keys name keys (index_source_entries ix c ctx s).2).0 ≡ ok tt
      → fields_at k (conclude ix now true name (index_source_entries ix c ctx s)).2.db
        ≡ (if k.source == name then latest rfc3339 k (entries_of c) none else fields_at k s.db)
  conclude-fields now name c ctx s keys k from h pruned =
      let after = index_source_entries ix c ctx s in
      let read = index_source_entries-complete rfc3339 parse_rfc3339 fts_count c ctx s keys h in
      ap (λ o. fields_at k (conclude ix now true name (o, after.1, after.2)).2.db) h
      ∙ conclude-db now name keys after.1 after.2 k pruned
      ∙ prune_source_keys-fields name keys after.2 k pruned
      ∙ ap (λ f. if is_stale name keys k then none else f) (read.1 k)
      ∙ ap
          (λ l.
            if is_stale name l k then none else latest rfc3339 k (entries_of c) (fields_at k s.db))
          read.0
      ∙ pruned-latest name (entries_of c) k (fields_at k s.db) from
