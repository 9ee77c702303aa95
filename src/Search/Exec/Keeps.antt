-- ===== src/Search/Exec/Keeps.antt =====
-- Invariants of the tables, one rule for each way to build a method. A method that keeps an invariant
-- keeps it whether it succeeds or fails.
use mcpyeahyouknowme.Prelude.{sym, String, inl, inr}
use mcpyeahyouknowme.Search.Tables.{Db}
use mcpyeahyouknowme.Search.Exec.{
  Result, ok, err, SearchStore, Exec, pure, continue, ◌>>=◌, ◌>>◌, statement, no_effect,
  transaction,
}
use mcpyeahyouknowme.Search.Exec.Laws.{
  statement-keeps, Result-cases, transaction-err, transaction-ok,
}
use mathlib.Core.Path.{subst}

pub record Keeps {A : Type 0} (P : Db → Type 0) (m : Exec A) : Type 0 where
  pub at : (s : SearchStore) → P s.db → P (m s).1.db

module _ (P : Db → Type 0) where
  pub Keeps-pure : {A : Type 0} (a : A) → Keeps P (pure a)
  Keeps-pure a = record { at = λ s h. h }

  pub Keeps-statement :
      (e : String) (f : Db → Db) → ((db : Db) → P db → P (f db)) → Keeps P (statement e f)
  Keeps-statement e f step = record { at = λ s h. statement-keeps P e f s (step s.db) h }

  pub Keeps-bind :
      {A B : Type 0} (m : Exec A) (k : A → Exec B)
      → Keeps P m
      → ((a : A) → Keeps P (k a))
      → Keeps P (m >>= k)
  Keeps-bind {A} {B} m k hm hk = record { at = λ s h. go (m s).0 (m s).1 (hm.at s h) }
    where
      go : (r : Result A) (s' : SearchStore) → P s'.db → P (continue r k s').1.db
      go (ok a) s' h = (hk a).at s' h
      go (err e) s' h = h

  pub Keeps-then :
      {B : Type 0} (m : Exec (Unit {0})) (k : Exec B) → Keeps P m → Keeps P k → Keeps P (m >> k)
  Keeps-then m k hm hk = Keeps-bind m (λ _. k) hm (λ _. hk)

  pub Keeps-transaction : {A : Type 0} (body : Exec A) → Keeps P body → Keeps P (transaction body)
  Keeps-transaction body hb = record {
    at = λ s h. elim (Result-cases (transaction body s).0) [
      | inl (a, done) ↦
          (let t = transaction-ok body s done in
            subst P (sym t.3) (hb.at (statement "begin" no_effect s).1 (subst P (sym t.0) h)))
      | inr (e, failed) ↦ subst P (sym (transaction-err body s failed)) h
    ];
  }

pub ruleset keeps_rules = (Keeps-pure, Keeps-statement, Keeps-then, Keeps-bind, Keeps-transaction)
