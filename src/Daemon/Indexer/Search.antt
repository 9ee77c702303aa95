-- ===== src/Daemon/Indexer/Search.antt =====
-- Passes over one source, on the search store: what the rows are after them.
use mathlib.Core.List.{append_assoc, append-nil}
use mcpyeahyouknowme.Prelude.{
  ℕ, ◌≡◌, refl, sym, ap, ◌∙◌, String, Option, none, some, List, [], ◌∷◌, ◌++◌, map, arith,
  string_eq, Option-cases, inl, inr,
}
use mcpyeahyouknowme.Search.Tables.{Key, key_eq, index_key_eq, IndexKey, Fields, Db}
use mcpyeahyouknowme.Search.Tables.Laws.{fields_at}
use mcpyeahyouknowme.Search.Exec.{Result, ok, err, SearchStore}
use mcpyeahyouknowme.Search.Store.{SearchEntry, index_entries}
use mcpyeahyouknowme.Search.Store.Writes.{latest, index_entries-fields}
use mcpyeahyouknowme.Daemon.Indexer.{
  SourceIndexer, search_indexer, Context, check, Contents, loaded, streamed, index_key, Failure,
  failed, canceled, complete, Pass, indexed, emit, stream, settle, index_source_entries,
}

-- All the entries of a source, in order.
abbrev pub concat : List (List SearchEntry) → List SearchEntry
concat [] = []
concat (b ∷ bs) = b ++ concat bs

abbrev pub entries_of : Contents → List SearchEntry
entries_of (streamed batches failure) = concat batches
entries_of (loaded (ok entries)) = entries
entries_of (loaded (err e)) = []

module _ (rfc3339 : ℕ → String) (parse_rfc3339 : String → Option ℕ) (fts_count : Db → ℕ) where
  abbrev ix : SourceIndexer SearchStore
  ix = search_indexer rfc3339 parse_rfc3339 fts_count

  latest-append :
      (k : Key) (a b : List SearchEntry) (old : Option Fields)
      → latest rfc3339 k (a ++ b) old ≡ latest rfc3339 k b (latest rfc3339 k a old)
  latest-append k [] b old = refl
  latest-append k (e ∷ a) b old = latest-append k a b _

  map-append :
      (a b : List SearchEntry) → map index_key (a ++ b) ≡ map index_key a ++ map index_key b
  map-append [] b = refl
  map-append (e ∷ a) b = ap (λ l. index_key e ∷ l) (map-append a b)

  -- What a step of the pass over these entries leaves in the variables and in the rows.
  abbrev Took : List SearchEntry → Pass SearchStore → Pass SearchStore → Type 0
  Took es p q =
      (q.keys ≡ p.keys ++ map index_key es)
      × ((k : Key) → fields_at k q.store.db ≡ latest rfc3339 k es (fields_at k p.store.db))

  indexed-ok :
      (es : List SearchEntry) (r : Result (Unit {0}) × SearchStore) (p : Pass SearchStore)
      → (indexed ix es r p).0 ≡ none
      → (r.0 ≡ ok tt)
        × ((indexed ix es r p).1.keys ≡ p.keys ++ map index_key es)
        × ((indexed ix es r p).1.store ≡ r.1)
  unfolding indexed
  indexed-ok es (ok tt, s) p h = (refl, refl, refl)
  indexed-ok es (err e, s) p h = ground arith

  emit-cons :
      (e : SearchEntry) (es : List SearchEntry) (p : Pass SearchStore)
      → (emit ix (e ∷ es) p).0 ≡ none
      → emit ix (e ∷ es) p
        ≡ indexed ix
            (e ∷ es)
            (index_entries rfc3339 fts_count (e ∷ es) p.store)
            (record p { ctx = (check p.ctx).1 })
  unfolding emit
  emit-cons e es p h = ground arith

  emit-Took :
      (es : List SearchEntry) (p : Pass SearchStore)
      → (emit ix es p).0 ≡ none
      → Took es p (emit ix es p).1
  unfolding emit
  emit-Took [] p h = (ground (arith, append-nil p.keys), λ k. ground arith)
  emit-Took (e ∷ es) p h =
      let steps = emit-cons e es p h in
      let done =
        indexed-ok (e ∷ es) _ (record p { ctx = (check p.ctx).1 })
          (sym (ap (λ o. o.0) steps) ∙ h) in
      (
        ap (λ o. o.1.keys) steps ∙ done.1,
        λ k.
            ap (λ o. fields_at k o.1.store.db) steps
            ∙ ap (λ s. fields_at k s.db) done.2
            ∙ index_entries-fields rfc3339 fts_count (e ∷ es) p.store k done.0,
      )

  stream-on :
      (b : List SearchEntry) (bs : List (List SearchEntry)) (failure : Option String)
      (p : Pass SearchStore)
      → (emit ix b p).0 ≡ none
      → stream ix (b ∷ bs) failure p ≡ stream ix bs failure (emit ix b p).1
  unfolding stream
  stream-on b bs failure p e = ground arith

  stream-Took :
      (batches : List (List SearchEntry)) (failure : Option String) (p : Pass SearchStore)
      → (stream ix batches failure p).0 ≡ none
      → Took (concat batches) p (stream ix batches failure p).1
  unfolding stream
  stream-Took [] none p h = (sym (append-nil p.keys), λ k. refl)
  stream-Took [] (some e) p h = ground arith
  stream-Took (b ∷ bs) failure p h = elim (Option-cases (emit ix b p).0) [
    | inl e ↦
        let now = emit-Took b p e in
        let steps = stream-on b bs failure p e in
        let rest = stream-Took bs failure (emit ix b p).1 (sym (ap (λ o. o.0) steps) ∙ h) in
        (
          ap (λ o. o.1.keys) steps
              ∙ rest.0
              ∙ ap (λ l. l ++ map index_key (concat bs)) now.0
              ∙ append_assoc p.keys _ _
              ∙ ap (λ l. p.keys ++ l) (sym (map-append b (concat bs))),
          λ k.
              ap (λ o. fields_at k o.1.store.db) steps
              ∙ rest.1 k
              ∙ ap (latest rfc3339 k (concat bs)) (now.1 k)
              ∙ sym (latest-append k b (concat bs) _),
        )
    | inr (f, e) ↦ ground arith
  ]

  settle-complete :
      (o : Option Failure × Pass SearchStore) (keys : List IndexKey)
      → (settle ix o).0 ≡ complete keys
      → (o.0 ≡ none) × (o.1.keys ≡ keys) × ((settle ix o).2 ≡ o.1.store)
  unfolding settle
  settle-complete (none, p) keys h = (refl, ground arith, refl)
  settle-complete (some canceled, p) keys h = ground arith
  settle-complete (some (failed e), p) keys h = ground arith

  -- indexSourceEntries that completes has collected the keys of all the source's entries, in order, and
  -- has written the last entry of each key; every other row is as it was.
  pub index_source_entries-complete :
      (c : Contents) (ctx : Context) (s : SearchStore) (keys : List IndexKey)
      → (index_source_entries ix c ctx s).0 ≡ complete keys
      → (keys ≡ map index_key (entries_of c))
        × ((k : Key)
            → fields_at k (index_source_entries ix c ctx s).2.db
              ≡ latest rfc3339 k (entries_of c) (fields_at k s.db))
  unfolding index_source_entries
  index_source_entries-complete (loaded (err e)) ctx s keys h = ground arith
  index_source_entries-complete (loaded (ok es)) ctx s keys h =
      let p : Pass SearchStore = record { ctx = ctx; keys = []; store = s } in
      let done = settle-complete (emit ix es p) keys h in
      let took = emit-Took es p done.0 in
      (sym done.1 ∙ took.0, λ k. ap (λ s. fields_at k s.db) done.2 ∙ took.1 k)
  index_source_entries-complete (streamed batches failure) ctx s keys h =
      let p : Pass SearchStore = record { ctx = ctx; keys = []; store = s } in
      let done = settle-complete (stream ix batches failure p) keys h in
      let took = stream-Took batches failure p done.0 in
      (sym done.1 ∙ took.0, λ k. ap (λ s. fields_at k s.db) done.2 ∙ took.1 k)
