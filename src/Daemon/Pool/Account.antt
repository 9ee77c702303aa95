-- ===== src/Daemon/Pool/Account.antt =====
-- Where the sources of a pool go: each is in the new pool or was closed, once.
use mcpyeahyouknowme.Prelude.{
  ℕ, ◌+◌, ◌≡◌, refl, ap, ◌∙◌, String, Bool-cases, inl, inr, Option, none, some, Option-cases, List,
  [], ◌∷◌, nat_eq, string_eq, eq_refl, arith,
}
use mcpyeahyouknowme.Prelude.Dict.{Dict, lookup, erase}
use mcpyeahyouknowme.Core.Config.{Config, SourceConfig, source_of}
use mcpyeahyouknowme.Daemon.Registry.{Descriptor}
use mcpyeahyouknowme.Daemon.Pool.{
  PooledSource, Pool, source_config_equal, close_active_source, reuse_source, build_source,
  is_wanted, take_source, reconcile_source, reconcile_sources, close_rest, by_name,
  reconcile_index_sources,
}
use mcpyeahyouknowme.Daemon.Pool.Maps.{
  times, numbers, numbers_in, IsMap, times-append, numbers-append, erase-absent, erase-IsMap,
  lookup-hit, erase-hit, times-erase, AreDistinct, by_name-IsMap, times-by_name, none_there,
}

-- Where a source number is: among the existing ones, in the new pool, or closed.
abbrev accounted : ℕ → Pool → ℕ
accounted h p =
    times h (numbers_in p.existing_by_name) + (times h (numbers p.sources) + times h p.closed)

-- Nothing is lost between two pools, apart from what was opened.
record Keeps (p q : Pool) : Type 0 where
  map : IsMap q.existing_by_name
  account : (h : ℕ) → accounted h q + times h p.opened ≡ accounted h p + times h q.opened

Keeps-refl : (p : Pool) → IsMap p.existing_by_name → Keeps p p
Keeps-refl p m = record { map = m; account = λ h. refl }

Keeps-trans : (p q r : Pool) → Keeps p q → Keeps q r → Keeps p r
Keeps-trans p q r a b = record {
  map = b.map;
  account = λ h. omega (arith, a.account h, b.account h);
}

close-Keeps :
    (name : String) (p : Pool) → IsMap p.existing_by_name → Keeps p (close_active_source name p)
unfolding close_active_source
close-Keeps name p m = elim (Option-cases (lookup name p.existing_by_name)) [
  | inl e ↦ rw (e, close_active_source) (Keeps-refl p m)
  | inr (s, e) ↦
      rw (e, close_active_source)
        (record {
          map = erase-IsMap name p.existing_by_name m;
          account = λ h. omega (arith, times-erase h name s p.existing_by_name m e);
        })
]

reuse-Keeps :
    (s : PooledSource) (name : String) (p : Pool)
    → IsMap p.existing_by_name
    → lookup name p.existing_by_name ≡ some s
    → Keeps p (reuse_source s name p)
unfolding reuse_source
reuse-Keeps s name p m e = record {
  map = erase-IsMap name p.existing_by_name m;
  account = λ h. omega (
    arith,
    times-erase h name s p.existing_by_name m e,
    ap (times h) (numbers-append p.sources (s ∷ [])),
    times-append h (numbers p.sources) (s.src ∷ []),
  );
}

build-Keeps :
    (desc : Descriptor) (sc : SourceConfig) (p : Pool)
    → IsMap p.existing_by_name
    → Keeps p (build_source desc sc p)
unfolding build_source
build-Keeps desc sc p m = elim (Option-cases desc.source) [
  | inl e ↦ rw e (Keeps-refl p m)
  | inr (made, e) ↦ rw e (record {
    map = m;
    account = λ h. omega (
      arith,
      ap (times h) (
          numbers-append p.sources
            (record { name = desc.name; src = p.next_src; config = sc } ∷ [])),
      times-append h (numbers p.sources) (p.next_src ∷ []),
    );
  })
]

rebuilt-Keeps :
    (desc : Descriptor) (sc : SourceConfig) (p : Pool)
    → IsMap p.existing_by_name
    → Keeps p (build_source desc sc (close_active_source desc.name p))
rebuilt-Keeps desc sc p m =
    let one : Keeps p (close_active_source desc.name p) = close-Keeps desc.name p m in
    Keeps-trans p (close_active_source desc.name p)
      (build_source desc sc (close_active_source desc.name p)) one
      (build-Keeps desc sc (close_active_source desc.name p) (one.map))

take-Keeps :
    (desc : Descriptor) (sc : SourceConfig) (o : Option PooledSource) (p : Pool)
    → IsMap p.existing_by_name
    → lookup desc.name p.existing_by_name ≡ o
    → Keeps p (take_source desc sc o p)
unfolding take_source
take-Keeps desc sc none p m e = rebuilt-Keeps desc sc p m
take-Keeps desc sc (some s) p m e = elim (Bool-cases (source_config_equal s.config sc)) [
  | inl t ↦ rw t (reuse-Keeps s desc.name p m e)
  | inr f ↦ rw f (rebuilt-Keeps desc sc p m)
]

reconcile_source-Keeps :
    (registry : List Descriptor) (cfg : Config) (desc : Descriptor) (p : Pool)
    → IsMap p.existing_by_name
    → Keeps p (reconcile_source registry cfg desc p)
unfolding reconcile_source
reconcile_source-Keeps registry cfg desc p m = elim (Bool-cases (is_wanted registry cfg desc)) [
  | inl t ↦
      rw t
        (take-Keeps desc (source_of cfg desc.name) (lookup desc.name p.existing_by_name) p m refl)
  | inr f ↦ rw f (close-Keeps desc.name p m)
]

reconcile_sources-Keeps :
    (registry : List Descriptor) (cfg : Config) (descs : List Descriptor) (p : Pool)
    → IsMap p.existing_by_name
    → Keeps p (reconcile_sources registry cfg descs p)
unfolding reconcile_sources
reconcile_sources-Keeps registry cfg [] p m = Keeps-refl p m
reconcile_sources-Keeps registry cfg (desc ∷ descs) p m =
    let one : Keeps p (reconcile_source registry cfg desc p) =
      reconcile_source-Keeps registry cfg desc p m in
    Keeps-trans p (reconcile_source registry cfg desc p)
      (reconcile_sources registry cfg descs (reconcile_source registry cfg desc p)) one
      (reconcile_sources-Keeps registry cfg descs (reconcile_source registry cfg desc p) (one.map))

close_rest-Keeps :
    (d : Dict String PooledSource) (p : Pool) → IsMap p.existing_by_name → Keeps p (close_rest d p)
unfolding close_rest
close_rest-Keeps [] p m = Keeps-refl p m
close_rest-Keeps ((name, s) ∷ d) p m =
    let one : Keeps p (close_active_source name p) = close-Keeps name p m in
    Keeps-trans p (close_active_source name p) (close_rest d (close_active_source name p)) one
      (close_rest-Keeps d (close_active_source name p) (one.map))

close-existing :
    (name : String) (s : PooledSource) (d : Dict String PooledSource) (p : Pool)
    → lookup name d ≡ none
    → p.existing_by_name ≡ (name, s) ∷ d
    → (close_active_source name p).existing_by_name ≡ d
unfolding close_active_source
close-existing name s d p n e =
    let there : lookup name p.existing_by_name ≡ some s =
      ap (lookup name) e ∙ lookup-hit name name s d (eq_refl name) in
    rw (there, close_active_source)
      (ap (erase name) e ∙ (erase-hit name name s d (eq_refl name) ∙ erase-absent name d n))

-- Nothing is left in the map.
close_rest-empties :
    (d : Dict String PooledSource) (p : Pool)
    → IsMap d
    → p.existing_by_name ≡ d
    → (close_rest d p).existing_by_name ≡ []
unfolding close_rest
close_rest-empties [] p m e = e
close_rest-empties ((name, s) ∷ d) p (n, m) e =
    close_rest-empties d (close_active_source name p) m (close-existing name s d p n e)

-- If the existing sources have different names, then every source number occurs as often among the sources of
-- the reconciled pool and the closed ones together as among the existing and the newly opened ones together. So a
-- number that occurs once among the latter is either in the pool or closed, and not both.
pub reconcile_index_sources-accounts :
    (registry : List Descriptor) (cfg : Config) (next_src : ℕ) (existing : List PooledSource)
    → AreDistinct existing
    → (h : ℕ)
    → times h (numbers ((reconcile_index_sources registry cfg next_src existing).sources))
        + times h ((reconcile_index_sources registry cfg next_src existing).closed)
      ≡ times h (numbers existing)
        + times h ((reconcile_index_sources registry cfg next_src existing).opened)
unfolding reconcile_index_sources
reconcile_index_sources-accounts registry cfg next_src existing distinct h =
    let start : Pool = record {
      existing_by_name = by_name existing [];
      sources = [];
      opened = [];
      closed = [];
      next_src = next_src;
    } in
    let looped : Pool = reconcile_sources registry cfg registry start in
    let first : Keeps start looped =
      reconcile_sources-Keeps registry cfg registry start (by_name-IsMap existing [] tt) in
    let rest : Keeps looped (close_rest looped.existing_by_name looped) =
      close_rest-Keeps looped.existing_by_name looped (first.map) in
    let emptied : (close_rest looped.existing_by_name looped).existing_by_name ≡ [] =
      close_rest-empties looped.existing_by_name looped (first.map) refl in
    omega (
      arith,
      first.account h,
      rest.account h,
      ap (λ d. times h (numbers_in d)) emptied,
      times-by_name h existing [] distinct (none_there existing),
    )
