-- ===== src/Search/Tables/Sync.antt =====
-- When the full-text index agrees with the rows.
use mcpyeahyouknowme.Prelude.{
  ℕ, suc, ◌<◌, ◌≤◌, ◌≡◌, ◌≢◌, refl, Bool, true, false, ◌&&◌, ◌||◌, Option, none, some, [], ◌∷◌,
  ◌++◌, arith, if◌then◌else◌, ◌==◌, nat_eq, Option-cases, inl, inr,
}
use mcpyeahyouknowme.Prelude.Dict.{Dict, lookup, insert, erase, lookup-insert, lookup-erase}
use mcpyeahyouknowme.Search.Tables.{
  Key, key_eq, Fields, Row, Doc, Db, doc_of, upsert, remaining, unindex, delete_where, indexed,
  rebuild,
}

-- The document of a row id, by the rows.
unfoldable pub doc_at : ℕ → Dict Key Row → Option Doc
doc_at i [] = none
doc_at i ((k, row) ∷ rows) = if i == row.id then some (doc_of row.fields) else doc_at i rows

-- Ids are below the next one, and no two rows share one.
abbrev pub IdsBelow : ℕ → Dict Key Row → Type 0
IdsBelow n [] = Unit
IdsBelow n ((k, row) ∷ rows) = (row.id < n) × IdsBelow n rows

abbrev pub NodupIds : Dict Key Row → Type 0
NodupIds [] = Unit
NodupIds ((k, row) ∷ rows) = (doc_at row.id rows ≡ none) × NodupIds rows

-- The index holds the title and content of every row, and nothing else.
pub record InSync (db : Db) : Type 0 where
  pub at_id : (i : ℕ) → lookup i db.fts ≡ doc_at i db.entries

pub record IsWellFormed (db : Db) : Type 0 where
  pub below : IdsBelow db.next_id db.entries
  pub nodup : NodupIds db.entries

-- A rebuild brings the index in line with any rows.
lookup-indexed : (i : ℕ) (rows : Dict Key Row) → lookup i (indexed rows) ≡ doc_at i rows
unfolding lookup indexed doc_at
lookup-indexed i [] = refl
lookup-indexed i ((k, row) ∷ rows) = ground (arith, lookup-indexed i rows)

pub rebuild-InSync : (db : Db) → InSync (rebuild db)
unfolding rebuild
rebuild-InSync db = record { at_id = λ i. lookup-indexed i db.entries }

doc_at-append :
    (i n : ℕ) (rows : Dict Key Row) (k : Key) (f : Fields)
    → IdsBelow n rows
    → doc_at i (rows ++ ((k, record { id = n; fields = f }) ∷ []))
      ≡ (if i == n then some (doc_of f) else doc_at i rows)
unfolding doc_at
doc_at-append i n [] k f b = refl
doc_at-append i n ((j, row) ∷ rows) k f (lt, b) = ground (arith, doc_at-append i n rows k f b)

doc_at-below : (i n : ℕ) (rows : Dict Key Row) → IdsBelow n rows → n ≤ i → doc_at i rows ≡ none
unfolding doc_at
doc_at-below i n [] b le = refl
doc_at-below i n ((j, row) ∷ rows) (lt, b) le = ground (arith, doc_at-below i n rows b le)

lookup-doc_at :
    (k : Key) (row : Row) (rows : Dict Key Row)
    → lookup k rows ≡ some row
    → doc_at row.id rows ≢ none
unfolding doc_at lookup
lookup-doc_at k row [] e = cc
lookup-doc_at k row ((j, r) ∷ rows) e = ground (arith, lookup-doc_at k row rows)

-- Writing the fields of a row that is there.
doc_at-insert :
    (i : ℕ) (k : Key) (row : Row) (f : Fields) (rows : Dict Key Row)
    → NodupIds rows
    → lookup k rows ≡ some row
    → doc_at i (insert k (record row { fields = f }) rows)
      ≡ (if i == row.id then some (doc_of f) else doc_at i rows)
unfolding doc_at lookup insert
doc_at-insert i k row f [] u e = cc
doc_at-insert i k row f ((j, r) ∷ rows) (fresh, u) e =
    ground (arith, doc_at-insert i k row f rows u, lookup-doc_at k row rows)

pub upsert-InSync :
    (k : Key) (f : Fields) (db : Db)
    → IsWellFormed db
    → db.triggers.on_insert ≡ true
    → db.triggers.on_update ≡ true
    → InSync db
    → InSync (upsert k f db)
unfolding upsert
upsert-InSync k f db w ti tu h = elim (Option-cases (lookup k db.entries)) [
  | inl e ↦
      rw (e, upsert)
        (record {
          at_id = λ i. ground (
            arith,
            lookup-insert i db.next_id (doc_of f) db.fts,
            doc_at-append i db.next_id db.entries k f w.below,
            h.at_id i,
          );
        })
  | inr (row, e) ↦
      rw (e, upsert)
        (record {
          at_id = λ i. ground (
            arith,
            lookup-insert i row.id (doc_of f) (erase row.id db.fts),
            lookup-erase i row.id db.fts,
            doc_at-insert i k row f db.entries w.nodup e,
            h.at_id i,
          );
        })
]

IdsBelow-append :
    (n : ℕ) (rows : Dict Key Row) (k : Key) (f : Fields)
    → IdsBelow n rows
    → IdsBelow (suc n) (rows ++ ((k, record { id = n; fields = f }) ∷ []))
IdsBelow-append n [] k f b = (omega arith, tt)
IdsBelow-append n ((j, r) ∷ rows) k f (lt, b) = (omega arith, IdsBelow-append n rows k f b)

NodupIds-append :
    (n : ℕ) (rows : Dict Key Row) (k : Key) (f : Fields)
    → IdsBelow n rows
    → NodupIds rows
    → NodupIds (rows ++ ((k, record { id = n; fields = f }) ∷ []))
unfolding doc_at
NodupIds-append n [] k f b u = (refl, tt)
NodupIds-append n ((j, r) ∷ rows) k f (lt, b) (fresh, u) =
    (ground (arith, doc_at-append r.id n rows k f b), NodupIds-append n rows k f b u)

IdsBelow-insert :
    (n : ℕ) (k : Key) (row : Row) (f : Fields) (rows : Dict Key Row)
    → row.id < n
    → IdsBelow n rows
    → IdsBelow n (insert k (record row { fields = f }) rows)
unfolding insert
IdsBelow-insert n k row f [] lt b = (lt, tt)
IdsBelow-insert n k row f ((j, r) ∷ rows) lt (l, b) =
    ground (arith, IdsBelow-insert n k row f rows lt b)

NodupIds-insert :
    (k : Key) (row : Row) (f : Fields) (rows : Dict Key Row)
    → NodupIds rows
    → lookup k rows ≡ some row
    → NodupIds (insert k (record row { fields = f }) rows)
unfolding lookup insert
NodupIds-insert k row f [] u e = cc
NodupIds-insert k row f ((j, r) ∷ rows) (fresh, u) e = ground (
  arith,
  NodupIds-insert k row f rows u,
  doc_at-insert r.id k row f rows u,
  lookup-doc_at k row rows,
)

id_below :
    (n : ℕ) (k : Key) (row : Row) (rows : Dict Key Row)
    → IdsBelow n rows
    → lookup k rows ≡ some row
    → row.id < n
unfolding lookup
id_below n k row [] b e = cc
id_below n k row ((j, r) ∷ rows) (l, b) e = ground (arith, id_below n k row rows b)

pub upsert-IsWellFormed :
    (k : Key) (f : Fields) (db : Db) → IsWellFormed db → IsWellFormed (upsert k f db)
unfolding upsert
upsert-IsWellFormed k f db w = elim (Option-cases (lookup k db.entries)) [
  | inl e ↦
      rw (e, upsert)
        (record {
          below = IdsBelow-append db.next_id db.entries k f w.below;
          nodup = NodupIds-append db.next_id db.entries k f w.below w.nodup;
        })
  | inr (row, e) ↦
      rw (e, upsert)
        (record {
          below =
              IdsBelow-insert db.next_id k row f db.entries
                (id_below db.next_id k row db.entries w.below e) w.below;
          nodup = NodupIds-insert k row f db.entries w.nodup e;
        })
]

-- Some row of that id goes.
gone_id : ℕ → (Key → Bool) → Dict Key Row → Bool
gone_id i gone [] = false
gone_id i gone ((k, row) ∷ rows) = gone k && i == row.id || gone_id i gone rows

lookup-unindex :
    (i : ℕ) (gone : Key → Bool) (rows : Dict Key Row) (fts : Dict ℕ Doc)
    → lookup i (unindex gone rows fts) ≡ (if gone_id i gone rows then none else lookup i fts)
unfolding unindex gone_id
lookup-unindex i gone [] fts = refl
lookup-unindex i gone ((k, row) ∷ rows) fts =
    ground (arith, lookup-unindex i gone rows fts, lookup-erase i row.id (unindex gone rows fts))

gone_id-absent :
    (i : ℕ) (gone : Key → Bool) (rows : Dict Key Row)
    → doc_at i rows ≡ none
    → gone_id i gone rows ≡ false
unfolding doc_at gone_id
gone_id-absent i gone [] h = refl
gone_id-absent i gone ((k, row) ∷ rows) h = ground (arith, gone_id-absent i gone rows)

doc_at-remaining :
    (i : ℕ) (gone : Key → Bool) (rows : Dict Key Row)
    → NodupIds rows
    → doc_at i (remaining gone rows) ≡ (if gone_id i gone rows then none else doc_at i rows)
unfolding doc_at remaining gone_id
doc_at-remaining i gone [] u = refl
doc_at-remaining i gone ((k, row) ∷ rows) (fresh, u) =
    ground (arith, doc_at-remaining i gone rows u, gone_id-absent row.id gone rows)

pub delete_where-InSync :
    (gone : Key → Bool) (db : Db)
    → IsWellFormed db
    → db.triggers.on_delete ≡ true
    → InSync db
    → InSync (delete_where gone db)
unfolding delete_where
delete_where-InSync gone db w t h = record {
  at_id = λ i. ground (
    arith,
    lookup-unindex i gone db.entries db.fts,
    doc_at-remaining i gone db.entries w.nodup,
    h.at_id i,
  );
}

IdsBelow-remaining :
    (n : ℕ) (gone : Key → Bool) (rows : Dict Key Row)
    → IdsBelow n rows
    → IdsBelow n (remaining gone rows)
unfolding remaining
IdsBelow-remaining n gone [] b = tt
IdsBelow-remaining n gone ((k, r) ∷ rows) (l, b) = ground (arith, IdsBelow-remaining n gone rows b)

NodupIds-remaining :
    (gone : Key → Bool) (rows : Dict Key Row) → NodupIds rows → NodupIds (remaining gone rows)
unfolding remaining
NodupIds-remaining gone [] u = tt
NodupIds-remaining gone ((k, r) ∷ rows) (fresh, u) =
    ground (arith, NodupIds-remaining gone rows u, doc_at-remaining r.id gone rows u)

pub delete_where-IsWellFormed :
    (gone : Key → Bool) (db : Db) → IsWellFormed db → IsWellFormed (delete_where gone db)
unfolding delete_where
delete_where-IsWellFormed gone db w = record {
  below = IdsBelow-remaining db.next_id gone db.entries w.below;
  nodup = NodupIds-remaining gone db.entries w.nodup;
}
