-- ===== src/Daemon/Indexer.antt =====
-- src/indexer.go: the pass over the sources, on any store that has the sourceIndexer interface.
pub mod Search
pub mod FullPass
pub mod Watermark
use mcpyeahyouknowme.Prelude.{
  ℕ, zero, suc, String, Bool, true, false, not, Option, none, some, List, [], ◌∷◌, ◌++◌, map,
  if◌then◌else◌,
}
use mcpyeahyouknowme.Search.Tables.{IndexKey, Db}
use mcpyeahyouknowme.Search.Exec.{Result, ok, err, SearchStore}
use mcpyeahyouknowme.Search.Store.{
  SearchEntry, index_entries, prune_source_keys, update_source_timestamp, last_indexed,
}

-- sourceIndexer
pub record SourceIndexer (S : Type 0) : Type 0 where
  pub index_entries : List SearchEntry → S → Result (Unit {0}) × S
  pub prune_source_keys : String → List IndexKey → S → Result (Unit {0}) × S
  pub update_source_timestamp : String → ℕ → S → S
  pub last_indexed : String → S → Option ℕ × S

-- *SearchStore as a sourceIndexer.
abbrev pub search_indexer :
    (ℕ → String) → (String → Option ℕ) → (Db → ℕ) → SourceIndexer SearchStore
search_indexer rfc3339 parse_rfc3339 fts_count = record {
  index_entries = index_entries rfc3339 fts_count;
  prune_source_keys = prune_source_keys;
  update_source_timestamp = update_source_timestamp rfc3339;
  last_indexed = last_indexed parse_rfc3339;
}

-- A context: after how many more looks at ctx.Err() it is seen cancelled, if ever. It stays cancelled.
abbrev pub Context : Type 0
Context = Option ℕ

unfoldable pub check : Context → Bool × Context
check none = (false, none)
check (some zero) = (true, some zero)
check (some (suc n)) = (false, some n)

-- What a source gives: SearchEntries, or the batches of StreamSearchEntries with its own error at the end.
-- A stream returns the error of its callback.
pub data Contents : Type 0 where
  loaded : Result (List SearchEntry) → Contents
  streamed : List (List SearchEntry) → Option String → Contents

-- activeSource, with what its data source answers; `has_changes_since` is there for an IncrementalSource.
pub record ActiveSource : Type 0 where
  pub name : String
  pub index_globally : Bool
  pub has_changes_since : Option (Option ℕ → Bool)
  pub contents : Contents

abbrev pub index_key : SearchEntry → IndexKey
index_key e = record { source_id = e.source_id; content_type = e.content_type }

abbrev pub collect_index_keys : List SearchEntry → List IndexKey
collect_index_keys entries = map index_key entries

pub data Failure : Type 0 where
  canceled : Failure
  failed : String → Failure

-- The three ways in which indexSourceEntries returns.
pub data Outcome : Type 0 where
  interrupted : Outcome
  unreadable : String → Outcome
  complete : List IndexKey → Outcome

-- The variables that `emit` shares with its function.
pub record Pass (S : Type 0) : Type 0 where
  pub ctx : Context
  pub keys : List IndexKey
  pub store : S

module _ {S : Type 0} (ix : SourceIndexer S) where
  -- The second half of `emit`, by the result of IndexEntries.
  indexed : List SearchEntry → Result (Unit {0}) × S → Pass S → Option Failure × Pass S
  unfolding check
  indexed batch (err e, store) p = (some (failed e), record p { store = store })
  indexed batch (ok _, store) p =
      let (done, ctx) = check p.ctx in
      (
        if done then some canceled else none,
        record { ctx = ctx; keys = p.keys ++ collect_index_keys batch; store = store },
      )

  unfoldable pub emit : List SearchEntry → Pass S → Option Failure × Pass S
  unfolding check indexed
  emit batch p =
      let (done, ctx) = check p.ctx in
      if done then (some canceled, record p { ctx = ctx }) else elim batch [
        | [] ↦ (none, record p { ctx = ctx })
        | e ∷ es ↦ indexed (e ∷ es) (ix.index_entries (e ∷ es) p.store) (record p { ctx = ctx })
      ]

  unfoldable pub stream : List (List SearchEntry) → Option String → Pass S → Option Failure × Pass S
  unfolding emit
  stream [] none p = (none, p)
  stream [] (some e) p = (some (failed e), p)
  stream (batch ∷ batches) failure p =
      let (r, p') = emit batch p in
      elim r [ none ↦ stream batches failure p' | some e ↦ (some e, p') ]

  unfoldable pub settle : Option Failure × Pass S → Outcome × Context × S
  unfolding check
  settle (none, p) = (complete p.keys, p.ctx, p.store)
  settle (some canceled, p) = (interrupted, p.ctx, p.store)
  settle (some (failed e), p) =
      let (done, ctx) = check p.ctx in (if done then interrupted else unreadable e, ctx, p.store)

  unfoldable pub index_source_entries : Contents → Context → S → Outcome × Context × S
  unfolding stream settle
  index_source_entries (streamed batches failure) ctx store =
      settle (stream batches failure (record { ctx = ctx; keys = []; store = store }))
  index_source_entries (loaded (err e)) ctx store = (unreadable e, ctx, store)
  index_source_entries (loaded (ok entries)) ctx store =
      settle (emit entries (record { ctx = ctx; keys = []; store = store }))

  unfoldable pub should_index_source : Bool → ActiveSource → S → Bool × S
  should_index_source full_pass active store =
      if full_pass then (true, store) else elim active.has_changes_since [
        | none ↦ (true, store)
        | some changed ↦
            (let (since, store') = ix.last_indexed active.name store in (changed since, store'))
      ]

  module _ (now : String → ℕ) (full_pass : Bool) where
    -- What one source's round of the loop does after indexSourceEntries.
    unfoldable pub conclude : String → Outcome × Context × S → Bool × Context × S
    conclude name (interrupted, ctx, store) = (false, ctx, store)
    conclude name (unreadable e, ctx, store) = (true, ctx, store)
    conclude name (complete keys, ctx, store) =
        if full_pass
        then (let (r, store') = ix.prune_source_keys name keys store in
            elim r [
              | ok _ ↦ (true, ctx, ix.update_source_timestamp name (now name) store')
              | err _ ↦ (true, ctx, store')
            ])
        else (true, ctx, ix.update_source_timestamp name (now name) store)

    -- One round, after the look at the context: false is `return false`.
    unfoldable pub index_source : ActiveSource → Context → S → Bool × Context × S
    unfolding conclude index_source_entries should_index_source
    index_source active ctx store =
        if not active.index_globally
        then (true, ctx, store)
        else (let (due, store') = should_index_source full_pass active store in
            if due
            then conclude active.name (index_source_entries active.contents ctx store')
            else (true, ctx, store'))

    unfoldable pub index_sources : List ActiveSource → Context → S → Bool × Context × S
    unfolding index_source check
    index_sources [] ctx store = (true, ctx, store)
    index_sources (active ∷ rest) ctx store =
        let (done, ctx') = check ctx in
        if done
        then (false, ctx', store)
        else (let (go_on, ctx'', store') = index_source active ctx' store in
            if go_on then index_sources rest ctx'' store' else (false, ctx'', store'))
