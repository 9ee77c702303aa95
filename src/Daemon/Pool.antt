-- ===== src/Daemon/Pool.antt =====
-- The pool of sources that the daemon reuses between index passes: reconcileIndexSources and its helpers in
-- src/indexer.go. A data source is its number; the calls of New and Close are logged. No source of a pool is
-- nil, since reconcileIndexSources leaves those out.
pub mod Maps
pub mod Account
pub mod Fresh
use mcpyeahyouknowme.Prelude.{
  ℕ, suc, String, Bool, true, false, not, ◌&&◌, ◌||◌, Option, none, some, List, [], ◌∷◌, ◌++◌,
  if◌then◌else◌, ◌==◌, string_eq,
}
use mcpyeahyouknowme.Prelude.Dict.{Dict, lookup, insert, erase}
use mcpyeahyouknowme.Core.Config.{Config, SourceConfig, source_of}
use mcpyeahyouknowme.Daemon.Registry.{Descriptor, is_available}

-- activeSource, with the name of its descriptor
pub record PooledSource : Type 0 where
  pub name : String
  pub src : ℕ
  pub config : SourceConfig

pub record Pool : Type 0 where
  pub existing_by_name : Dict String PooledSource
  pub sources : List PooledSource
  pub opened : List ℕ
  pub closed : List ℕ
  pub next_src : ℕ

abbrev pub bool_equal : Bool → Bool → Bool
bool_equal true b = b
bool_equal false b = not b

-- sourceConfigEqual
unfoldable pub source_config_equal : SourceConfig → SourceConfig → Bool
source_config_equal a b =
    bool_equal a.enabled b.enabled && (bool_equal a.reset b.reset && a.auth == b.auth)

-- closeActiveSource
unfoldable pub close_active_source : String → Pool → Pool
close_active_source name p = elim (lookup name p.existing_by_name) [
  | none ↦ p
  | some active ↦ record p {
    existing_by_name = erase name p.existing_by_name;
    closed = active.src ∷ p.closed;
  }
]

-- A source from the existing ones.
unfoldable pub reuse_source : PooledSource → String → Pool → Pool
reuse_source current name p = record p {
  sources = p.sources ++ (current ∷ []);
  existing_by_name = erase name p.existing_by_name;
}

-- A new source, unless New returns nil. cloneSourceConfig copies the configuration.
unfoldable pub build_source : Descriptor → SourceConfig → Pool → Pool
build_source desc sc p = elim desc.source [
  | none ↦ p
  | some made ↦ record p {
    sources = p.sources ++ (record { name = desc.name; src = p.next_src; config = sc } ∷ []);
    opened = p.next_src ∷ p.opened;
    next_src = suc p.next_src;
  }
]

-- Whether a source is available, enabled and authenticated.
unfoldable pub is_wanted : List Descriptor → Config → Descriptor → Bool
is_wanted registry cfg desc =
    is_available registry desc.name
    && (((source_of cfg desc.name).enabled || (not desc.runs_core && not desc.index_globally))
        && elim desc.is_authenticated [ none ↦ true | some b ↦ b ])

-- What becomes of a wanted source, by the existing one of its name.
unfoldable pub take_source : Descriptor → SourceConfig → Option PooledSource → Pool → Pool
unfolding close_active_source reuse_source build_source source_config_equal
take_source desc sc none p = build_source desc sc (close_active_source desc.name p)
take_source desc sc (some current) p =
    if source_config_equal current.config sc
    then reuse_source current desc.name p
    else build_source desc sc (close_active_source desc.name p)

-- One round of the loop over registry.All.
unfoldable pub reconcile_source : List Descriptor → Config → Descriptor → Pool → Pool
unfolding take_source is_wanted close_active_source
reconcile_source registry cfg desc p =
    if is_wanted registry cfg desc
    then take_source desc (source_of cfg desc.name) (lookup desc.name p.existing_by_name) p
    else close_active_source desc.name p

unfoldable pub reconcile_sources : List Descriptor → Config → List Descriptor → Pool → Pool
unfolding reconcile_source
reconcile_sources registry cfg [] p = p
reconcile_sources registry cfg (desc ∷ descs) p =
    reconcile_sources registry cfg descs (reconcile_source registry cfg desc p)

-- The loop over what is left in the map.
unfoldable pub close_rest : Dict String PooledSource → Pool → Pool
unfolding close_active_source
close_rest [] p = p
close_rest ((name, active) ∷ rest) p = close_rest rest (close_active_source name p)

unfoldable pub by_name : List PooledSource → Dict String PooledSource → Dict String PooledSource
by_name [] d = d
by_name (active ∷ existing) d = by_name existing (insert active.name active d)

-- reconcileIndexSources at a time when config.json reads as `cfg`; new sources are numbered from `next_src`.
unfoldable pub reconcile_index_sources : List Descriptor → Config → ℕ → List PooledSource → Pool
unfolding reconcile_sources close_rest by_name
reconcile_index_sources registry cfg next_src existing =
    let p = reconcile_sources registry cfg registry (record {
      existing_by_name = by_name existing [];
      sources = [];
      opened = [];
      closed = [];
      next_src = next_src;
    }) in
    close_rest p.existing_by_name p

-- buildActiveSources
unfoldable pub build_active_sources : List Descriptor → Config → ℕ → Pool
unfolding reconcile_index_sources
build_active_sources registry cfg next_src = reconcile_index_sources registry cfg next_src []
