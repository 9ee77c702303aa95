-- ===== src/Daemon/Services/Running.antt =====
-- The map `running`: what stopping, starting and a loop over names do to it.
use mcpyeahyouknowme.Prelude.{
  ◌≡◌, refl, String, Bool, true, false, not, ◌&&◌, ◌||◌, none, some, List, [], ◌∷◌, arith,
  if◌then◌else◌, ◌==◌, contains, string_eq, eq_sym, eq_true, Bool-cases, Option-cases, inl, inr,
}
use mcpyeahyouknowme.Prelude.Dict.{Dict, lookup, insert, erase, lookup-insert, lookup-erase}
use mcpyeahyouknowme.Daemon.Registry.{Descriptor}
use mcpyeahyouknowme.Daemon.Services.{
  Services, keys_of, stop_service, each, can_start, start_source,
}

-- A loop whose body changes what is seen of its own name, and no other's.
pub each_lem :
    {S O : Type 0} (visit : String → S → S) (seen : String → S → O) (f : String → O → O)
    → ((m n : String) (s : S) → seen n (visit m s) ≡ (if n == m then f n (seen n s) else seen n s))
    → ((n : String) (o : O) → f n (f n o) ≡ f n o)
    → (names : List String) (n : String) (s : S)
    → seen n (each visit names s) ≡ (if contains names n then f n (seen n s) else seen n s)
unfolding each
each_lem visit seen f step twice [] n s = refl
each_lem visit seen f step twice (m ∷ names) n s = ground (
  arith,
  each_lem visit seen f step twice names n (visit m s),
  step m n s,
  twice n (seen n s),
  eq_sym m n,
)

abbrev pub has_key {ℓ} : {V : Type ℓ} → String → Dict String V → Bool
has_key n d = elim (lookup n d) [ none ↦ false | some v ↦ true ]

pub contains-keys_of {ℓ} :
    {V : Type ℓ} (d : Dict String V) (n : String) → contains (keys_of d) n ≡ has_key n d
unfolding lookup
contains-keys_of [] n = refl
contains-keys_of ((m, v) ∷ d) n = ground (arith, contains-keys_of d n, eq_sym m n)

pub guards :
    {S : Type 0} (e a r c : Bool) (x y : S)
    → (if not e || (not a || r) then y else if c then x else y)
      ≡ (if e && (a && (not r && c)) then x else y)
guards e a r c x y = ground arith

pub start_guards :
    {S : Type 0} (a r b c : Bool) (x y : S) (f : S → Bool)
    → f (if a && not r && not b then (if c then x else y) else y)
      ≡ (if (a && (not r && c)) && not b then f (if c then x else y) else f y)
start_guards a r b c x y f = ground arith

pub due_last : (a r c : Bool) → (a && (not r && c)) ≡ true → c ≡ true
due_last a r c h = ground arith

-- Whether `running` has a name.
abbrev pub runs : String → Services → Bool
runs n s = contains (keys_of s.running) n

pub contains-erase :
    {V : Type 0} (m n : String) (d : Dict String V)
    → contains (keys_of (erase m d)) n ≡ (if n == m then false else contains (keys_of d) n)
contains-erase m n d =
    ground (arith, contains-keys_of d n, contains-keys_of (erase m d) n, lookup-erase n m d)

contains-insert :
    {V : Type 0} (m n : String) (v : V) (d : Dict String V)
    → contains (keys_of (insert m v d)) n ≡ (if n == m then true else contains (keys_of d) n)
contains-insert m n v d =
    ground (arith, contains-keys_of d n, contains-keys_of (insert m v d) n, lookup-insert n m v d)

runs-absent : (m : String) (s : Services) → lookup m s.running ≡ none → runs m s ≡ false
runs-absent m s h = ground (arith, contains-keys_of s.running m)

pub runs-stop_service :
    (m n : String) (s : Services) → runs n (stop_service m s) ≡ (if n == m then false else runs n s)
unfolding stop_service
runs-stop_service m n s = elim (Option-cases (lookup m s.running)) [
  | inl e ↦ elim (Bool-cases (n == m)) [
    | inl t ↦ ground (arith, runs-absent m s e, eq_true n m t)
    | inr t ↦ ground arith
  ]
  | inr (id, e) ↦ ground (arith, contains-erase m n s.running)
]

module _ (registry : List Descriptor) where
  pub runs-start_source :
      (m n : String) (s : Services)
      → runs n (start_source registry m s)
        ≡ (if n == m then can_start registry m || runs n s else runs n s)
  unfolding start_source
  runs-start_source m n s = elim (Bool-cases (can_start registry m)) [
    | inl t ↦ ground (arith, contains-insert m n s.next_id s.running)
    | inr t ↦ ground arith
  ]
