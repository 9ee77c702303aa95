-- ===== src/Search/Exec.antt =====
-- Methods of SearchStore (src/search_store.go): actions on the store that may fail. Which statements
-- SQLite refuses is a script: each statement takes its head, and fails without effect if that is true.
pub mod Laws
pub mod Keeps
use mcpyeahyouknowme.Prelude.{String, Bool, true, false, List, [], ◌∷◌}
use mcpyeahyouknowme.Search.Tables.{Db}

pub data Result (A : Type 0) : Type 0 where
  ok : A → Result A
  err : String → Result A

pub record SearchStore : Type 0 where
  pub db : Db
  pub bulk_fts : Bool
  pub faults : List Bool

abbrev pub Exec : Type 0 → Type 0
Exec A = SearchStore → Result A × SearchStore

abbrev pub pure : {A : Type 0} → A → Exec A
pure a s = (ok a, s)

-- What follows a step, by its outcome; an error ends the method.
abbrev pub continue : {A B : Type 0} → Result A → (A → Exec B) → Exec B
continue (ok a) f s = f a s
continue (err e) f s = (err e, s)

infixl 5 ◌>>=◌ ◌>>◌
abbrev pub ◌>>=◌ : {A B : Type 0} → Exec A → (A → Exec B) → Exec B
◌>>=◌ m f s = let (r, s') = m s in continue r f s'

abbrev pub ◌>>◌ : {B : Type 0} → Exec (Unit {0}) → Exec B → Exec B
m >> k = m >>= λ _. k

-- One Exec call: `e` is the error that the method returns if it fails.
abbrev pub attempt : List Bool → String → (Db → Db) → Exec (Unit {0})
attempt [] e f s = (ok tt, record s { db = f s.db })
attempt (false ∷ faults) e f s = (ok tt, record s { db = f s.db; faults = faults })
attempt (true ∷ faults) e f s = (err e, record s { faults = faults })

unfoldable pub statement : String → (Db → Db) → Exec (Unit {0})
statement e f s = attempt s.faults e f s

abbrev pub no_effect : Db → Db
no_effect db = db

-- The outcome of a transaction's body: COMMIT after a success, and the deferred ROLLBACK after an
-- error or a COMMIT that fails.
abbrev finish : {A : Type 0} → Db → Result A → Exec A
finish before (ok a) s =
    let (r, s') = statement "commit" no_effect s in
    elim r [ ok _ ↦ (ok a, s') | err e ↦ (err e, record s' { db = before }) ]
finish before (err e) s = (err e, record s { db = before })

unfoldable pub transaction : {A : Type 0} → Exec A → Exec A
unfolding statement
transaction body s =
    let (r, s') = statement "begin" no_effect s in
    elim r [ ok _ ↦ (let (r', s'') = body s' in finish s'.db r' s'') | err e ↦ (err e, s') ]
