-- ===== src/Search/Store/Prune.antt =====
-- PruneSourceKeys leaves, of one source, exactly the rows with a current key.
use mcpyeahyouknowme.Prelude.{
  ◌≡◌, refl, ◌∙◌, sym, ap, String, ◌||◌, none, List, [], ◌∷◌, ◌++◌, arith, if◌then◌else◌, ◌==◌,
  contains, string_eq,
}
use mcpyeahyouknowme.Search.Tables.{Key, IndexKey, index_key_eq, Db, delete_where}
use mcpyeahyouknowme.Search.Tables.Laws.{fields_at, fields_at-delete_where}
use mcpyeahyouknowme.Search.Exec.{ok, SearchStore, Exec, ◌>>◌, statement, no_effect}
use mcpyeahyouknowme.Search.Exec.Laws.{statement-db, statement-ok, >>=-ok, transaction-ok}
use mcpyeahyouknowme.Search.Store.{
  insert_keys, add_key, keep_current, is_stale, prune_body, prune_source_keys,
}

add_keys : List IndexKey → Db → Db
add_keys [] db = db
add_keys (k ∷ ks) db = add_keys ks (add_key k db)

insert_keys-db :
    (ks : List IndexKey) (s : SearchStore)
    → (insert_keys ks s).0 ≡ ok tt
    → (insert_keys ks s).1.db ≡ add_keys ks s.db
unfolding insert_keys add_keys
insert_keys-db [] s h = refl
insert_keys-db (k ∷ ks) s h =
    let m = statement "insert prune key" (add_key k) in
    let (a, done, steps) = >>=-ok m (λ _. insert_keys ks) s h in
    ap (λ o. o.1.db) steps
    ∙ insert_keys-db ks (m s).1 (sym (ap (λ o. o.0) steps) ∙ h)
    ∙ ap (add_keys ks) (statement-db "insert prune key" (add_key k) s done)

contains-append :
    (xs : List IndexKey) (x y : IndexKey) → contains (xs ++ (x ∷ [])) y ≡ (contains xs y || x == y)
contains-append [] x y = ground arith
contains-append (z ∷ xs) x y = ground (arith, contains-append xs x y)

contains-add_keys :
    (ks : List IndexKey) (db : Db) (x : IndexKey)
    → contains (add_keys ks db).keep_keys x ≡ (contains db.keep_keys x || contains ks x)
unfolding add_keys
contains-add_keys [] db x = ground arith
contains-add_keys (k ∷ ks) db x =
    contains-add_keys ks (add_key k db) x ∙ ground (arith, contains-append db.keep_keys k x)

fields_at-add_keys :
    (ks : List IndexKey) (db : Db) (j : Key) → fields_at j (add_keys ks db) ≡ fields_at j db
unfolding add_keys fields_at
fields_at-add_keys [] db j = refl
fields_at-add_keys (k ∷ ks) db j = fields_at-add_keys ks (add_key k db) j

abbrev empty_keys : Db → Db
empty_keys db = record db { keep_keys = [] }

abbrev rest : String → Exec (Unit {0})
rest source = do
  statement "prune stale entries" (λ db. delete_where (is_stale source db.keep_keys) db)
  statement "reset prune keys" empty_keys

-- The table of kept keys holds the current keys, and no row has changed.
record Kept (current : List IndexKey) (before after : Db) : Type 0 where
  keys : (x : IndexKey) → contains after.keep_keys x ≡ contains current x
  rows : (j : Key) → fields_at j after ≡ fields_at j before

keep_current-Kept :
    (current : List IndexKey) (s : SearchStore)
    → s.db.keep_keys ≡ []
    → (keep_current current s).0 ≡ ok tt
    → Kept current s.db (keep_current current s).1.db
keep_current-Kept [] s empty h = record { keys = λ x. rw empty; rows = λ j. refl }
keep_current-Kept (k ∷ ks) s empty h =
    let (s1, same, went, steps) =
      statement-ok "prepare prune keys" no_effect (insert_keys (k ∷ ks)) s h in
    let written =
      ap (λ o. o.1.db) steps ∙ insert_keys-db (k ∷ ks) s1 went ∙ ap (add_keys (k ∷ ks)) same in
    rw written (record {
      keys = λ x.
          contains-add_keys (k ∷ ks) s.db x ∙ ap (λ l. contains l x || contains (k ∷ ks) x) empty;
      rows = fields_at-add_keys (k ∷ ks) s.db;
    })

stale_delete : (source : String) → Db → Db
stale_delete source db = delete_where (is_stale source db.keep_keys) db

fields_at-stale_delete :
    (source : String) (current : List IndexKey) (before db : Db) (j : Key)
    → Kept current before db
    → fields_at j (stale_delete source db)
      ≡ (if is_stale source current j then none else fields_at j before)
unfolding stale_delete
fields_at-stale_delete source current before db j h =
    fields_at-delete_where (is_stale source db.keep_keys) j db
    ∙ ground (
      arith,
      h.rows j,
      h.keys (record { source_id = j.source_id; content_type = j.content_type }),
    )

fields_at-prune_body :
    (source : String) (current : List IndexKey) (s : SearchStore) (j : Key)
    → (prune_body source current s).0 ≡ ok tt
    → fields_at j (prune_body source current s).1.db
      ≡ (if is_stale source current j then none else fields_at j s.db)
unfolding stale_delete fields_at
fields_at-prune_body source current s j h =
    let (s1, db1, h1, e1) = statement-ok "create prune keys" no_effect _ s h in
    let (s2, db2, h2, e2) = statement-ok "clear prune keys" empty_keys _ s1 h1 in
    let (a, kept, e3) = >>=-ok (keep_current current) (λ _. rest source) s2 h2 in
    let s3 = (keep_current current s2).1 in
    let (s4, db4, h4, e4) =
      statement-ok "prune stale entries" (stale_delete source) _ s3 (sym (ap (λ o. o.0) e3) ∙ h2) in
    let db5 = statement-db "reset prune keys" empty_keys s4 h4 in
    let k = keep_current-Kept current s2 (ap Db.keep_keys db2) kept in
    ap (λ o. fields_at j o.1.db) (e1 ∙ e2 ∙ e3 ∙ e4)
    ∙ ap (fields_at j) db5
    ∙ ap (fields_at j) db4
    ∙ fields_at-stale_delete source current s2.db s3.db j k
    ∙ ap (λ db. if is_stale source current j then none else fields_at j db)
        (db2 ∙ ap empty_keys db1)

-- PruneSourceKeys that reports success has removed the rows of the source whose key is not current,
-- and no other row.
pub prune_source_keys-fields :
    (source : String) (current : List IndexKey) (s : SearchStore) (j : Key)
    → (prune_source_keys source current s).0 ≡ ok tt
    → fields_at j (prune_source_keys source current s).1.db
      ≡ (if is_stale source current j then none else fields_at j s.db)
unfolding prune_source_keys
prune_source_keys-fields source current s j h =
    let (began, _, done, kept) = transaction-ok (prune_body source current) s h in
    ap (fields_at j) kept
    ∙ fields_at-prune_body source current (statement "begin" no_effect s).1 j done
    ∙ ap (λ db. if is_stale source current j then none else fields_at j db) began
