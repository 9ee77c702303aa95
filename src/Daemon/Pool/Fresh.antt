-- ===== src/Daemon/Pool/Fresh.antt =====
-- A reconciled pool against a pool that is built from nothing.
use mcpyeahyouknowme.Prelude.{
  ℕ, ◌≡◌, refl, sym, ap, ◌∙◌, String, Bool, true, false, not, ◌&&◌, ◌||◌, Bool-cases, inl, inr,
  Option, none, some, Option-cases, List, [], ◌∷◌, ◌++◌, if◌then◌else◌, ◌==◌, string_eq, eq_true,
  All, arith,
}
use mathlib.Core.List.{append_assoc, append-nil}
use mcpyeahyouknowme.Prelude.Dict.{Dict, lookup, insert, erase, lookup-insert, lookup-erase}
use mcpyeahyouknowme.Core.Config.{Config, SourceConfig, source_of}
use mcpyeahyouknowme.Daemon.Registry.{Descriptor, DataSource, find, is_available}
use mcpyeahyouknowme.Daemon.Pool.{
  PooledSource, Pool, bool_equal, source_config_equal, close_active_source, reuse_source,
  build_source, is_wanted, take_source, reconcile_source, reconcile_sources, close_rest, by_name,
  reconcile_index_sources,
}

-- A source but for its number.
abbrev pub Described : Type 0
Described = String × SourceConfig

abbrev pub described : List PooledSource → List Described
described [] = []
described (s ∷ ss) = (s.name, s.config) ∷ described ss

-- Whether a test of a descriptor, if it has one, says no.
abbrev pub refuses : Option Bool → Bool
refuses o = elim o [ none ↦ false | some b ↦ not b ]

-- A source is left out if the first descriptor of its name is not available, if it is not authenticated, or if
-- it runs a core or is indexed globally and is not enabled.
abbrev pub is_called_for : List Descriptor → Config → Descriptor → Bool
is_called_for registry cfg desc = elim (find registry desc.name) [
  | none ↦ false
  | some first ↦
      if refuses first.is_enabled
      then false
      else if refuses desc.is_authenticated
      then false
      else if desc.runs_core || desc.index_globally
      then (source_of cfg desc.name).enabled
      else true
]

is_wanted-called_for :
    (registry : List Descriptor) (cfg : Config) (desc : Descriptor)
    → is_wanted registry cfg desc ≡ is_called_for registry cfg desc
unfolding is_wanted is_available
is_wanted-called_for registry cfg desc = ground arith

-- The sources that the registry and the configuration call for, in the registry's order.
abbrev pub called_for : List Descriptor → Config → List Descriptor → List Described
called_for registry cfg [] = []
called_for registry cfg (desc ∷ descs) =
    let rest = called_for registry cfg descs in
    if is_called_for registry cfg desc then (desc.name, source_of cfg desc.name) ∷ rest else rest

-- New does not return nil.
abbrev pub CanBuild : Descriptor → Type 0
CanBuild desc = (made : DataSource) × (desc.source ≡ some made)

-- An entry of the map has its key as its name.
AreKeyed : Dict String PooledSource → Type 0
AreKeyed d = (name : String) (s : PooledSource) → lookup name d ≡ some s → s.name ≡ name

described-append : (a b : List PooledSource) → described (a ++ b) ≡ described a ++ described b
described-append [] b = refl
described-append (s ∷ a) b = ap (λ ds. (s.name, s.config) ∷ ds) (described-append a b)

bool_equal-eq : (a b : Bool) → bool_equal a b ≡ true → a ≡ b
bool_equal-eq true b h = sym h
bool_equal-eq false true h = ground arith
bool_equal-eq false false h = refl

and_both : (a b : Bool) → (a && b) ≡ true → (a ≡ true) × (b ≡ true)
and_both true b h = (refl, h)
and_both false b h = ground arith

config_eq :
    (a b : SourceConfig) → a.enabled ≡ b.enabled → a.reset ≡ b.reset → a.auth ≡ b.auth → a ≡ b
config_eq a b e r t = λ i. record { enabled = e i; reset = r i; auth = t i }

source_config_equal-eq : (a b : SourceConfig) → source_config_equal a b ≡ true → a ≡ b
unfolding source_config_equal
source_config_equal-eq a b h =
    let (e, rest) =
      and_both (bool_equal a.enabled b.enabled) (bool_equal a.reset b.reset && a.auth == b.auth)
        h in
    let (r, t) = and_both (bool_equal a.reset b.reset) (a.auth == b.auth) rest in
    config_eq a b (bool_equal-eq a.enabled b.enabled e) (bool_equal-eq a.reset b.reset r)
      (eq_true a.auth b.auth t)

none-ne-some : (s : PooledSource) → none ≡ some s → ⊥
none-ne-some s e = cc

some-name : (s t : PooledSource) → some s ≡ some t → s.name ≡ t.name
some-name s t e = cc

empty-AreKeyed : AreKeyed []
unfolding AreKeyed lookup
empty-AreKeyed name s e = absurd (none-ne-some s e)

insert-AreKeyed :
    (s : PooledSource) (d : Dict String PooledSource) → AreKeyed d → AreKeyed (insert s.name s d)
unfolding AreKeyed
insert-AreKeyed s d keyed k t e = elim (Bool-cases (k == s.name)) [
  | inl c ↦
      some-name t s (sym e ∙ (lookup-insert k s.name s d ∙ ground (arith, c)))
      ∙ sym (eq_true k s.name c)
  | inr f ↦ keyed k t (sym (lookup-insert k s.name s d ∙ ground (arith, f)) ∙ e)
]

erase-AreKeyed :
    (name : String) (d : Dict String PooledSource) → AreKeyed d → AreKeyed (erase name d)
unfolding AreKeyed
erase-AreKeyed name d keyed k s e = elim (Bool-cases (k == name)) [
  | inl t ↦ absurd (none-ne-some s (sym (lookup-erase k name d ∙ ground (arith, t)) ∙ e))
  | inr f ↦ keyed k s (sym (lookup-erase k name d ∙ ground (arith, f)) ∙ e)
]

close-AreKeyed :
    (name : String) (p : Pool)
    → AreKeyed p.existing_by_name
    → AreKeyed (close_active_source name p).existing_by_name
unfolding close_active_source
close-AreKeyed name p keyed = elim (Option-cases (lookup name p.existing_by_name)) [
  | inl e ↦ rw (e, close_active_source) keyed
  | inr (s, e) ↦ rw (e, close_active_source) (erase-AreKeyed name p.existing_by_name keyed)
]

close-sources : (name : String) (p : Pool) → (close_active_source name p).sources ≡ p.sources
unfolding close_active_source
close-sources name p = elim (Option-cases (lookup name p.existing_by_name)) [
  | inl e ↦ rw (e, close_active_source) refl
  | inr (s, e) ↦ rw (e, close_active_source) refl
]

-- The new pool has these sources more.
record Gains (p q : Pool) (ds : List Described) : Type 0 where
  keyed : AreKeyed q.existing_by_name
  gained : described q.sources ≡ described p.sources ++ ds

built-Gains :
    (desc : Descriptor) (sc : SourceConfig) (p : Pool)
    → CanBuild desc
    → AreKeyed p.existing_by_name
    → Gains p (build_source desc sc p) ((desc.name, sc) ∷ [])
unfolding build_source
built-Gains desc sc p (made, e) keyed = rw e (record {
  keyed = keyed;
  gained =
      described-append p.sources (record { name = desc.name; src = p.next_src; config = sc } ∷ []);
})

closed-Gains :
    (name : String) (p : Pool)
    → AreKeyed p.existing_by_name
    → Gains p (close_active_source name p) []
closed-Gains name p keyed = record {
  keyed = close-AreKeyed name p keyed;
  gained = ap described (close-sources name p) ∙ sym (append-nil (described p.sources));
}

rebuilt-Gains :
    (desc : Descriptor) (sc : SourceConfig) (p : Pool)
    → CanBuild desc
    → AreKeyed p.existing_by_name
    → Gains p (build_source desc sc (close_active_source desc.name p)) ((desc.name, sc) ∷ [])
rebuilt-Gains desc sc p can keyed =
    let built =
      built-Gains desc sc (close_active_source desc.name p) can
        (close-AreKeyed desc.name p keyed) in
    record {
      keyed = built.keyed;
      gained =
          built.gained
          ∙ ap (λ ss. described ss ++ ((desc.name, sc) ∷ [])) (close-sources desc.name p);
    }

reused-Gains :
    (s : PooledSource) (name : String) (sc : SourceConfig) (p : Pool)
    → AreKeyed p.existing_by_name
    → s.name ≡ name
    → s.config ≡ sc
    → Gains p (reuse_source s name p) ((name, sc) ∷ [])
unfolding reuse_source
reused-Gains s name sc p keyed n c = record {
  keyed = erase-AreKeyed name p.existing_by_name keyed;
  gained =
      described-append p.sources (s ∷ [])
      ∙ (ap (λ k. described p.sources ++ ((k, s.config) ∷ [])) n
          ∙ ap (λ k. described p.sources ++ ((name, k) ∷ [])) c);
}

taken-Gains :
    (desc : Descriptor) (sc : SourceConfig) (o : Option PooledSource) (p : Pool)
    → CanBuild desc
    → AreKeyed p.existing_by_name
    → lookup desc.name p.existing_by_name ≡ o
    → Gains p (take_source desc sc o p) ((desc.name, sc) ∷ [])
unfolding take_source AreKeyed
taken-Gains desc sc none p can keyed e = rebuilt-Gains desc sc p can keyed
taken-Gains desc sc (some s) p can keyed e = elim (Bool-cases (source_config_equal s.config sc)) [
  | inl t ↦ rw t (
      reused-Gains s desc.name sc p keyed (keyed desc.name s e)
        (source_config_equal-eq s.config sc t))
  | inr f ↦ rw f (rebuilt-Gains desc sc p can keyed)
]

abbrev one_called_for : List Descriptor → Config → Descriptor → List Described
one_called_for registry cfg desc =
    if is_called_for registry cfg desc then (desc.name, source_of cfg desc.name) ∷ [] else []

called_for-cons :
    (registry : List Descriptor) (cfg : Config) (desc : Descriptor) (descs : List Descriptor)
    → called_for registry cfg (desc ∷ descs)
      ≡ one_called_for registry cfg desc ++ called_for registry cfg descs
called_for-cons registry cfg desc descs = elim (Bool-cases (is_called_for registry cfg desc)) [
  | inl t ↦ rw t refl
  | inr f ↦ rw f refl
]

reconciled-Gains :
    (registry : List Descriptor) (cfg : Config) (desc : Descriptor) (p : Pool)
    → CanBuild desc
    → AreKeyed p.existing_by_name
    → Gains p (reconcile_source registry cfg desc p) (one_called_for registry cfg desc)
unfolding reconcile_source
reconciled-Gains registry cfg desc p can keyed =
    let same = is_wanted-called_for registry cfg desc in
    elim (Bool-cases (is_called_for registry cfg desc)) [
      | inl t ↦
          rw (same, t)
            (taken-Gains desc (source_of cfg desc.name) (lookup desc.name p.existing_by_name) p can
              keyed refl)
      | inr f ↦ rw (same, f) (closed-Gains desc.name p keyed)
    ]

reconcile_sources-described :
    (registry : List Descriptor) (cfg : Config) (descs : List Descriptor) (p : Pool)
    → All CanBuild descs
    → AreKeyed p.existing_by_name
    → described ((reconcile_sources registry cfg descs p).sources)
      ≡ described p.sources ++ called_for registry cfg descs
unfolding reconcile_sources
reconcile_sources-described registry cfg [] p can keyed = sym (append-nil (described p.sources))
reconcile_sources-described registry cfg (desc ∷ descs) p (c, can) keyed =
    let one : List Described = one_called_for registry cfg desc in
    let rest : List Described = called_for registry cfg descs in
    let q : Pool = reconcile_source registry cfg desc p in
    let g : Gains p q one = reconciled-Gains registry cfg desc p c keyed in
    reconcile_sources-described registry cfg descs q can (g.keyed)
    ∙ (ap (λ ds. ds ++ rest) (g.gained)
        ∙ (append_assoc (described p.sources) one rest
            ∙ ap (λ ds. described p.sources ++ ds) (sym (called_for-cons registry cfg desc descs))))

close_rest-sources :
    (d : Dict String PooledSource) (p : Pool) → (close_rest d p).sources ≡ p.sources
unfolding close_rest
close_rest-sources [] p = refl
close_rest-sources ((name, s) ∷ d) p =
    close_rest-sources d (close_active_source name p) ∙ close-sources name p

by_name-AreKeyed :
    (ss : List PooledSource) (d : Dict String PooledSource) → AreKeyed d → AreKeyed (by_name ss d)
unfolding by_name
by_name-AreKeyed [] d keyed = keyed
by_name-AreKeyed (s ∷ ss) d keyed =
    by_name-AreKeyed ss (insert s.name s d) (insert-AreKeyed s d keyed)

-- If New never returns nil, the reconciled pool has, in the registry's order and whatever sources existed,
-- exactly the sources that are available and authenticated and, if they run a core or are indexed globally,
-- also enabled, each with its current configuration.
pub reconcile_index_sources-described :
    (registry : List Descriptor) (cfg : Config) (next_src : ℕ) (existing : List PooledSource)
    → All CanBuild registry
    → described ((reconcile_index_sources registry cfg next_src existing).sources)
      ≡ called_for registry cfg registry
unfolding reconcile_index_sources
reconcile_index_sources-described registry cfg next_src existing can =
    let start : Pool = record {
      existing_by_name = by_name existing [];
      sources = [];
      opened = [];
      closed = [];
      next_src = next_src;
    } in
    let looped : Pool = reconcile_sources registry cfg registry start in
    ap described (close_rest-sources looped.existing_by_name looped)
    ∙ reconcile_sources-described registry cfg registry start can
        (by_name-AreKeyed existing [] empty-AreKeyed)
