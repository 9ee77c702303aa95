-- ===== src/Daemon/Pool/Maps.antt =====
-- Maps of sources by name, and how often a source stands in them.
use mcpyeahyouknowme.Prelude.{
  ℕ, ◌+◌, ◌≡◌, refl, sym, ap, ◌∙◌, String, true, false, Bool-cases, inl, inr, none, some, List, [],
  ◌∷◌, ◌++◌, if◌then◌else◌, ◌==◌, nat_eq, string_eq, eq_true, eq_sym, All, arith,
}
use mcpyeahyouknowme.Prelude.Dict.{Dict, lookup, insert, erase, lookup-insert, lookup-erase}
use mcpyeahyouknowme.Daemon.Pool.{PooledSource, by_name}

-- How often the source number `h` occurs.
abbrev pub times : ℕ → List ℕ → ℕ
times h [] = 0
times h (n ∷ ns) = (if n == h then 1 else 0) + times h ns

abbrev pub numbers : List PooledSource → List ℕ
numbers [] = []
numbers (s ∷ ss) = s.src ∷ numbers ss

abbrev pub numbers_in : Dict String PooledSource → List ℕ
numbers_in [] = []
numbers_in ((name, s) ∷ d) = s.src ∷ numbers_in d

-- A map has one entry for a key.
abbrev pub IsMap : Dict String PooledSource → Type 0
IsMap [] = Unit
IsMap ((name, s) ∷ d) = (lookup name d ≡ none) × IsMap d

pub times-append : (h : ℕ) (a b : List ℕ) → times h (a ++ b) ≡ times h a + times h b
times-append h [] b = omega arith
times-append h (n ∷ a) b = omega (arith, times-append h a b)

pub numbers-append : (a b : List PooledSource) → numbers (a ++ b) ≡ numbers a ++ numbers b
numbers-append [] b = refl
numbers-append (s ∷ a) b = ap (λ ns. s.src ∷ ns) (numbers-append a b)

pub erase-absent :
    (name : String) (d : Dict String PooledSource) → lookup name d ≡ none → erase name d ≡ d
unfolding lookup erase
erase-absent name [] h = refl
erase-absent name ((k, s) ∷ d) h = ground (arith, erase-absent name d)

pub erase-IsMap : (name : String) (d : Dict String PooledSource) → IsMap d → IsMap (erase name d)
unfolding erase
erase-IsMap name [] h = tt
erase-IsMap name ((k, s) ∷ d) (n, h) = elim (Bool-cases (name == k)) [
  | inl t ↦ rw t (erase-IsMap name d h)
  | inr f ↦ rw f (lookup-erase k name d ∙ ground (arith, n), erase-IsMap name d h)
]

lookup-empty : (name : String) → lookup {V = PooledSource} name [] ≡ none
unfolding lookup
lookup-empty name = refl

none-ne-some : (s : PooledSource) → none ≡ some s → ⊥
none-ne-some s e = cc

pub lookup-hit :
    (name k : String) (t : PooledSource) (d : Dict String PooledSource)
    → (name == k) ≡ true
    → lookup name ((k, t) ∷ d) ≡ some t
unfolding lookup
lookup-hit name k t d c = ground arith

lookup-other :
    (name k : String) (t : PooledSource) (d : Dict String PooledSource)
    → (name == k) ≡ false
    → lookup name ((k, t) ∷ d) ≡ lookup name d
unfolding lookup
lookup-other name k t d c = ground arith

pub erase-hit :
    (name k : String) (t : PooledSource) (d : Dict String PooledSource)
    → (name == k) ≡ true
    → erase name ((k, t) ∷ d) ≡ erase name d
unfolding erase
erase-hit name k t d c = ground arith

erase-other :
    (name k : String) (t : PooledSource) (d : Dict String PooledSource)
    → (name == k) ≡ false
    → erase name ((k, t) ∷ d) ≡ (k, t) ∷ erase name d
unfolding erase
erase-other name k t d c = ground arith

some-inj : (s t : PooledSource) → some s ≡ some t → s ≡ t
some-inj s t e = cc

-- Erasing a key takes its source out, once.
pub times-erase :
    (h : ℕ) (name : String) (s : PooledSource) (d : Dict String PooledSource)
    → IsMap d
    → lookup name d ≡ some s
    → times h (s.src ∷ numbers_in (erase name d)) ≡ times h (numbers_in d)
times-erase h name s [] m e = absurd (none-ne-some s (sym (lookup-empty name) ∙ e))
times-erase h name s ((k, t) ∷ d) (n, m) e = elim (Bool-cases (name == k)) [
  | inl c ↦
      let gone : lookup name d ≡ none = ap (λ j. lookup j d) (eq_true name k c) ∙ n in
      let same : s ≡ t = some-inj s t (sym e ∙ lookup-hit name k t d c) in
      ap (λ d'. times h (s.src ∷ numbers_in d')) (erase-hit name k t d c ∙ erase-absent name d gone)
      ∙ ap (λ u. times h (u.src ∷ numbers_in d)) same
  | inr f ↦
      let rest : times h (s.src ∷ numbers_in (erase name d)) ≡ times h (numbers_in d) =
        times-erase h name s d m (sym (lookup-other name k t d f) ∙ e) in
      ap (λ d'. times h (s.src ∷ numbers_in d')) (erase-other name k t d f) ∙ omega (arith, rest)
]

-- No two sources have one name.
abbrev pub AreDistinct : List PooledSource → Type 0
AreDistinct [] = Unit
AreDistinct (s ∷ ss) = All (λ t. (t.name == s.name) ≡ false) ss × AreDistinct ss

insert-IsMap :
    (name : String) (s : PooledSource) (d : Dict String PooledSource)
    → IsMap d
    → IsMap (insert name s d)
unfolding insert
insert-IsMap name s [] m = (lookup-empty name, tt)
insert-IsMap name s ((k, t) ∷ d) (n, m) = elim (Bool-cases (name == k)) [
  | inl c ↦ rw c (ap (λ j. lookup j d) (eq_true name k c) ∙ n, m)
  | inr f ↦
      rw f (lookup-insert k name s d ∙ ground (arith, n, eq_sym name k), insert-IsMap name s d m)
]

times-insert :
    (h : ℕ) (name : String) (s : PooledSource) (d : Dict String PooledSource)
    → lookup name d ≡ none
    → times h (numbers_in (insert name s d)) ≡ times h (s.src ∷ numbers_in d)
unfolding insert lookup
times-insert h name s [] e = refl
times-insert h name s ((k, t) ∷ d) e = ground (arith, times-insert h name s d)

pub by_name-IsMap :
    (ss : List PooledSource) (d : Dict String PooledSource) → IsMap d → IsMap (by_name ss d)
unfolding by_name
by_name-IsMap [] d m = m
by_name-IsMap (s ∷ ss) d m = by_name-IsMap ss (insert s.name s d) (insert-IsMap s.name s d m)

abbrev pub AreAbsent : Dict String PooledSource → List PooledSource → Type 0
AreAbsent d = All (λ s. lookup s.name d ≡ none)

absent-insert :
    (s : PooledSource) (ss : List PooledSource) (d : Dict String PooledSource)
    → All (λ t. (t.name == s.name) ≡ false) ss
    → AreAbsent d ss
    → AreAbsent (insert s.name s d) ss
absent-insert s [] d o a = tt
absent-insert s (t ∷ ss) d (n, o) (e, a) =
    (lookup-insert t.name s.name s d ∙ ground (arith, n, e), absent-insert s ss d o a)

pub times-by_name :
    (h : ℕ) (ss : List PooledSource) (d : Dict String PooledSource)
    → AreDistinct ss
    → AreAbsent d ss
    → times h (numbers_in (by_name ss d)) ≡ times h (numbers ss) + times h (numbers_in d)
unfolding by_name
times-by_name h [] d o a = omega arith
times-by_name h (s ∷ ss) d (n, o) (e, a) = omega (
  arith,
  times-by_name h ss (insert s.name s d) o (absent-insert s ss d n a),
  times-insert h s.name s d e,
)

pub none_there : (ss : List PooledSource) → AreAbsent [] ss
none_there [] = tt
none_there (s ∷ ss) = (lookup-empty s.name, none_there ss)

-- If no two existing sources have one name, then every source that reconcileIndexSources was given or has
-- opened is, as often as it was given or opened, in the new pool or closed: none is leaked, and none is closed
