-- ===== src/Search/Exec/Laws.antt =====
-- What a statement and a transaction can do to the tables.
use mcpyeahyouknowme.Prelude.{
  ◌≡◌, ◌⊎◌, inl, inr, refl, ◌∙◌, sym, ap, String, Bool, true, false, List, [], ◌∷◌, arith,
}
use mcpyeahyouknowme.Search.Tables.{Db}
use mcpyeahyouknowme.Search.Exec.{
  Result, ok, err, SearchStore, Exec, attempt, continue, ◌>>=◌, ◌>>◌, statement, no_effect,
  transaction,
}

pub Result-cases :
    {A : Type 0} (r : Result A) → ((a : A) × (r ≡ ok a)) ⊎ ((e : String) × (r ≡ err e))
Result-cases (ok a) = inl (a, refl)
Result-cases (err e) = inr (e, refl)

pub ok-ne-err : {A : Type 0} {a : A} {e : String} → ok a ≡ err e → ⊥
ok-ne-err h = cc

pub statement-db :
    (e : String) (f : Db → Db) (s : SearchStore)
    → (statement e f s).0 ≡ ok tt
    → (statement e f s).1.db ≡ f s.db
unfolding statement
statement-db e f s h = ground arith

pub statement-bulk_fts :
    (e : String) (f : Db → Db) (s : SearchStore) → (statement e f s).1.bulk_fts ≡ s.bulk_fts
unfolding statement
statement-bulk_fts e f s = ground arith

-- A statement keeps what its function keeps, also if it fails.
pub statement-keeps :
    (P : Db → Type 0) (e : String) (f : Db → Db) (s : SearchStore)
    → (P s.db → P (f s.db))
    → P s.db
    → P (statement e f s).1.db
unfolding statement
statement-keeps P e f s step h = go s.faults
  where
    go : (faults : List Bool) → P (attempt faults e f s).1.db
    go [] = step h
    go (false ∷ faults) = step h
    go (true ∷ faults) = h

-- A chain that ends well has taken both of its steps.
pub >>=-ok :
    {A B : Type 0} (m : Exec A) (f : A → Exec B) (s : SearchStore) {b : B}
    → ((m >>= f) s).0 ≡ ok b
    → (a : A) × ((m s).0 ≡ ok a) × ((m >>= f) s ≡ f a (m s).1)
>>=-ok {A} {B} m f s {b} h = go (m s).0 (m s).1 h
  where
    go :
        (r : Result A) (s' : SearchStore)
        → (continue r f s').0 ≡ ok b
        → (a : A) × (r ≡ ok a) × (continue r f s' ≡ f a s')
    go (ok a) s' h = (a, refl, refl)
    go (err e) s' h = absurd (ok-ne-err (sym h))

-- A statement whose method ends well has done its work, and the rest goes on from there.
pub statement-ok :
    {B : Type 0} (e : String) (f : Db → Db) (k : Exec B) (s : SearchStore) {b : B}
    → ((statement e f >> k) s).0 ≡ ok b
    → (s' : SearchStore) × (s'.db ≡ f s.db) × ((k s').0 ≡ ok b) × ((statement e f >> k) s ≡ k s')
statement-ok e f k s h =
    let (a, done, steps) = >>=-ok (statement e f) (λ _. k) s h in
    ((statement e f s).1, statement-db e f s done, sym (ap (λ o. o.0) steps) ∙ h, steps)

-- After an error a transaction has changed no table.
pub transaction-err :
    {A : Type 0} (body : Exec A) (s : SearchStore) {e : String}
    → (transaction body s).0 ≡ err e
    → (transaction body s).1.db ≡ s.db
unfolding transaction
transaction-err body s h = ground arith

pub transaction-ok :
    {A : Type 0} (body : Exec A) (s : SearchStore) {a : A}
    → (transaction body s).0 ≡ ok a
    → let s' = (statement "begin" no_effect s).1 in
      (s'.db ≡ s.db)
      × (s'.bulk_fts ≡ s.bulk_fts)
      × ((body s').0 ≡ ok a)
      × ((transaction body s).1.db ≡ (body s').1.db)
unfolding transaction
transaction-ok body s h = ground arith
