-- ===== src/Search/Tables.antt =====
-- The tables of search.db (src/search_store_init.go), and the SQL statements of
-- src/search_store.go as functions on them. `search_entries` is keyed by its UNIQUE columns; `search_fts`
-- holds the indexed title and content of a row id.
pub mod Laws
pub mod Sync
use mathlib.Core.Path.{refl}
use mcpyeahyouknowme.Prelude.{
  ℕ, suc, ◌+◌, String, Bool, true, false, not, ◌&&◌, Option, none, some, List, [], ◌∷◌, ◌++◌, map,
  if◌then◌else◌, ◌==◌, Eq, contains, string_eq, nat_eq, arith,
}
use mcpyeahyouknowme.Prelude.Dict.{Dict, lookup, insert, erase}

-- UNIQUE(source, source_id, content_type)
pub record Key : Type 0 where
  pub source : String
  pub source_id : String
  pub content_type : String

pub Key_discrete : Discrete Key
Key_discrete = hlevel (string_eq.dec)

-- Shut in proofs, like the instances of the prelude.
instance unfoldable pub key_eq : Eq Key
unfolding Key_discrete
key_eq = record { dec = Key_discrete }

-- indexKey
pub record IndexKey : Type 0 where
  pub source_id : String
  pub content_type : String

-- The other columns of a row, but for its id; NULL is `none`.
pub record Fields : Type 0 where
  pub title : String
  pub content : String
  pub metadata : Option String
  pub timestamp : Option String

pub record Row : Type 0 where
  pub id : ℕ
  pub fields : Fields

pub IndexKey_discrete : Discrete IndexKey
IndexKey_discrete = hlevel (string_eq.dec)

instance unfoldable pub index_key_eq : Eq IndexKey
unfolding IndexKey_discrete
index_key_eq = record { dec = IndexKey_discrete }

-- What the full-text index knows of a row id.
pub record Doc : Type 0 where
  pub title : String
  pub content : String

-- Which of the three maintenance triggers exist.
pub record Triggers : Type 0 where
  pub on_insert : Bool
  pub on_delete : Bool
  pub on_update : Bool

pub record Db : Type 0 where
  pub entries : Dict Key Row
  pub next_id : ℕ
  pub fts : Dict ℕ Doc
  pub triggers : Triggers
  pub meta : Dict String String
  -- the temporary table prune_keep_keys
  pub keep_keys : List IndexKey

abbrev pub doc_of : Fields → Doc
doc_of f = record { title = f.title; content = f.content }

-- INSERT of a new row, with search_fts_insert.
insert_row : Key → Fields → Db → Db
insert_row k f db = record db {
  entries = db.entries ++ ((k, record { id = db.next_id; fields = f }) ∷ []);
  next_id = suc db.next_id;
  fts = if db.triggers.on_insert then insert db.next_id (doc_of f) db.fts else db.fts;
}

-- UPDATE of the row that a conflict found, with search_fts_update.
update_row : Key → Row → Fields → Db → Db
update_row k row f db = record db {
  entries = insert k (record row { fields = f }) db.entries;
  fts = if db.triggers.on_update then insert row.id (doc_of f) (erase row.id db.fts) else db.fts;
}

-- INSERT … ON CONFLICT(source, source_id, content_type) DO UPDATE
unfoldable pub upsert : Key → Fields → Db → Db
unfolding insert_row update_row
upsert k f db = elim (lookup k db.entries) [
  | none ↦ insert_row k f db
  | some row ↦ update_row k row f db
]

-- The rows that a DELETE with this condition leaves.
unfoldable pub remaining : (Key → Bool) → Dict Key Row → Dict Key Row
remaining gone [] = []
remaining gone ((k, row) ∷ rows) =
    let rest = remaining gone rows in if gone k then rest else (k, row) ∷ rest

-- search_fts_delete, for each deleted row.
unfoldable pub unindex : (Key → Bool) → Dict Key Row → Dict ℕ Doc → Dict ℕ Doc
unindex gone [] fts = fts
unindex gone ((k, row) ∷ rows) fts =
    let fts' = unindex gone rows fts in if gone k then erase row.id fts' else fts'

-- DELETE FROM search_entries WHERE …
unfoldable pub delete_where : (Key → Bool) → Db → Db
unfolding remaining unindex
delete_where gone db = record db {
  entries = remaining gone db.entries;
  fts = if db.triggers.on_delete then unindex gone db.entries db.fts else db.fts;
}

-- INSERT INTO search_fts(search_fts) VALUES('rebuild')
unfoldable pub indexed : Dict Key Row → Dict ℕ Doc
indexed [] = []
indexed ((k, row) ∷ rows) = (row.id, doc_of row.fields) ∷ indexed rows

unfoldable pub rebuild : Db → Db
unfolding indexed
rebuild db = record db { fts = indexed db.entries }

-- INSERT INTO search_meta … ON CONFLICT(source) DO UPDATE
unfoldable pub set_last_indexed : String → String → Db → Db
set_last_indexed source ts db = record db { meta = insert source ts db.meta }

-- initSearchSchema on a new file.
abbrev pub empty_db : Db
empty_db = record {
  entries = [];
  next_id = 1;
  fts = [];
  triggers = record { on_insert = true; on_delete = true; on_update = true };
  meta = [];
  keep_keys = [];
}
