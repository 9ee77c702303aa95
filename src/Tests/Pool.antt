-- ===== src/Tests/Pool.antt =====
-- A pool of sources after a change of the configuration.
use mcpyeahyouknowme.Prelude.Dict.{erase, insert, lookup}
use mcpyeahyouknowme.Prelude.{
  ◌+◌, ◌≡◌, refl, String, true, false, none, some, List, [], ◌∷◌, string_eq, nat_eq, All,
}
use mcpyeahyouknowme.Core.Config.{Config, SourceConfig, zero_mcp}
use mcpyeahyouknowme.Daemon.Registry.{is_available, Descriptor, DataSource}
use mcpyeahyouknowme.Daemon.Pool.{PooledSource, reconcile_index_sources}
use mcpyeahyouknowme.Daemon.Pool.Maps.{times, numbers, AreDistinct}
use mcpyeahyouknowme.Daemon.Pool.Account.{reconcile_index_sources-accounts}
use mcpyeahyouknowme.Daemon.Pool.Fresh.{
  CanBuild, called_for, described, reconcile_index_sources-described,
}

abbrev made : DataSource
made = record { core_service = none }

abbrev descriptor : String → Descriptor
descriptor name = record {
  name = name;
  source = some made;
  is_enabled = none;
  is_authenticated = some true;
  index_globally = true;
  runs_core = false;
}

abbrev registry : List Descriptor
registry = descriptor "whatsapp" ∷ descriptor "gsuite" ∷ descriptor "notebook" ∷ []

abbrev on : String → SourceConfig
on auth = record { enabled = true; reset = false; auth = auth }

-- The notebook has a new folder, and Google Workspace is new.
abbrev cfg : Config
cfg = record {
  sources = some (("whatsapp", on "w") ∷ ("gsuite", on "g") ∷ ("notebook", on "n2") ∷ []);
  mcp = zero_mcp;
}

abbrev existing : List PooledSource
existing =
    record { name = "whatsapp"; src = 1; config = on "w" }
    ∷ record { name = "notebook"; src = 2; config = on "n1" }
    ∷ record { name = "browser_history"; src = 3; config = on "" }
    ∷ []

reconciled : reconcile_index_sources registry cfg 4 existing ≡ record {
  existing_by_name = [];
  sources =
      record { name = "whatsapp"; src = 1; config = on "w" }
      ∷ record { name = "gsuite"; src = 4; config = on "g" }
      ∷ record { name = "notebook"; src = 5; config = on "n2" }
      ∷ [];
  opened = 5 ∷ 4 ∷ [];
  closed = 3 ∷ 2 ∷ [];
  next_src = 6;
}
unfolding reconcile_index_sources is_available string_eq lookup insert erase
reconciled = refl

existing-AreDistinct : AreDistinct existing
unfolding string_eq
existing-AreDistinct = ((refl, (refl, tt)), ((refl, tt), (tt, tt)))

reconcile_index_sources-accounts_example :
    times 2 (numbers ((reconcile_index_sources registry cfg 4 existing).sources))
      + times 2 ((reconcile_index_sources registry cfg 4 existing).closed)
    ≡ times 2 (numbers existing)
      + times 2 ((reconcile_index_sources registry cfg 4 existing).opened)
reconcile_index_sources-accounts_example =
    reconcile_index_sources-accounts registry cfg 4 existing existing-AreDistinct 2

registry-CanBuild : All CanBuild registry
registry-CanBuild = ((made, refl), ((made, refl), ((made, refl), tt)))

reconcile_index_sources-described_example :
    described ((reconcile_index_sources registry cfg 4 existing).sources)
    ≡ called_for registry cfg registry
reconcile_index_sources-described_example =
    reconcile_index_sources-described registry cfg 4 existing registry-CanBuild
