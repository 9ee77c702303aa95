-- ===== src/Search/Tables/Laws.antt =====
-- What the statements do to the rows, key by key.
use mcpyeahyouknowme.Prelude.{
  ◌≡◌, Bool, Option, none, some, [], ◌∷◌, arith, if◌then◌else◌, ◌==◌, string_eq, nat_eq,
  Option-cases, inl, inr,
}
use mcpyeahyouknowme.Prelude.Dict.{Dict, lookup, lookup-insert, lookup-append}
use mcpyeahyouknowme.Search.Tables.{
  Key, key_eq, Fields, Row, Db, insert_row, update_row, upsert, remaining, delete_where,
}

unfoldable pub fields_at : Key → Db → Option Fields
fields_at k db = elim (lookup k db.entries) [ none ↦ none | some row ↦ some row.fields ]

-- An upsert writes the row of its key and no other.
pub fields_at-upsert :
    (k j : Key) (f : Fields) (db : Db)
    → fields_at j (upsert k f db) ≡ (if j == k then some f else fields_at j db)
unfolding upsert fields_at lookup
fields_at-upsert k j f db = elim (Option-cases (lookup k db.entries)) [
  | inl e ↦
      ground (arith, lookup-append j db.entries ((k, record { id = db.next_id; fields = f }) ∷ []))
  | inr (row, e) ↦ ground (arith, lookup-insert j k (record row { fields = f }) db.entries)
]

lookup-remaining :
    (gone : Key → Bool) (j : Key) (rows : Dict Key Row)
    → lookup j (remaining gone rows) ≡ (if gone j then none else lookup j rows)
unfolding remaining lookup
lookup-remaining gone j [] = ground arith
lookup-remaining gone j ((k, row) ∷ rows) = ground (arith, lookup-remaining gone j rows)

pub fields_at-delete_where :
    (gone : Key → Bool) (j : Key) (db : Db)
    → fields_at j (delete_where gone db) ≡ (if gone j then none else fields_at j db)
unfolding delete_where fields_at
fields_at-delete_where gone j db = ground (arith, lookup-remaining gone j db.entries)

pub meta-upsert : (k : Key) (f : Fields) (db : Db) → (upsert k f db).meta ≡ db.meta
unfolding upsert insert_row update_row
meta-upsert k f db = ground arith
