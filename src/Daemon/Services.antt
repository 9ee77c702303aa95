-- ===== src/Daemon/Services.antt =====
-- The background services that runCore of src/runtime.go starts and stops on each tick. A service is the
-- goroutine of one StartCore call, and a cancel function is its number.
pub mod Running
pub mod Tick
pub mod Restarted
use mcpyeahyouknowme.Prelude.{
  ℕ, suc, String, Bool, true, false, not, ◌&&◌, ◌||◌, Option, none, some, List, [], ◌∷◌, ◌++◌, map,
  if◌then◌else◌, ◌==◌, contains, keep, string_eq, nat_eq,
}
use mcpyeahyouknowme.Prelude.Dict.{Dict, lookup, insert, erase}
use mcpyeahyouknowme.Core.Config.{
  Config, SourceConfig, Codec, Disk, SaveOutcome, zero_source, source_map, source_of, with_source,
  set_source_disabled,
}
use mcpyeahyouknowme.Search.Exec.{SearchStore}
use mcpyeahyouknowme.Search.Store.{delete_by_source}
use mcpyeahyouknowme.Daemon.Registry.{
  DataSource, Descriptor, find, new_source, is_authenticated, is_available,
}

pub record Service : Type 0 where
  pub id : ℕ
  pub name : String
  pub cancelled : Bool

-- The map `running`, and the goroutines that have not returned.
pub record Services : Type 0 where
  pub running : Dict String ℕ
  pub live : List Service
  pub next_id : ℕ

-- The rest of what a reset changes: the files of a save, the search store if it is open, and the calls of Reset.
pub record World (Bytes : Type 0) : Type 0 where
  pub disk : Disk Bytes
  pub search : Option SearchStore
  pub resets : List String

abbrev pub keys_of {ℓ} : {V : Type ℓ} → Dict String V → List String
keys_of [] = []
keys_of ((name, v) ∷ d) = name ∷ keys_of d

-- shouldRestartSource
unfoldable pub should_restart_source : SourceConfig → SourceConfig → Bool
should_restart_source prev next =
    bool_eq prev.enabled next.enabled
    && bool_eq prev.reset next.reset
    && not (prev.auth == next.auth)
  where
    bool_eq : Bool → Bool → Bool
    bool_eq true b = b
    bool_eq false b = not b

unfoldable pub cancel : ℕ → List Service → List Service
cancel id [] = []
cancel id (s ∷ live) = (if s.id == id then record s { cancelled = true } else s) ∷ cancel id live

-- `cancel(); delete(running, name)`, if the name is there.
unfoldable pub stop_service : String → Services → Services
unfolding cancel
stop_service name s = elim (lookup name s.running) [
  | none ↦ s
  | some id ↦ record s { running = erase name s.running; live = cancel id s.live }
]

-- The end of a goroutine: `delete(running, name)`.
unfoldable pub service_ended : Service → Services → Services
service_ended service s = record s {
  running = erase service.name s.running;
  live = keep (λ l. not (l.id == service.id)) s.live;
}

-- The loops of a tick, over the names of a map.
unfoldable pub each {ℓ} : {S : Type ℓ} → (String → S → S) → List String → S → S
each visit [] s = s
each visit (name ∷ names) s = each visit names (visit name s)

module _ (registry : List Descriptor) where
  -- The guards of startSource.
  unfoldable pub can_start : String → Bool
  unfolding find is_available is_authenticated
  can_start name = elim (find registry name) [
    | none ↦ false
    | some desc ↦ is_available registry name && desc.runs_core && elim desc.source [
      | none ↦ false
      | some src ↦ elim src.core_service [
        | none ↦ false
        | some requires_auth ↦ not requires_auth || is_authenticated registry name
      ]
    ]
  ]

  unfoldable pub start_source : String → Services → Services
  start_source name s =
      if can_start name
      then record {
        running = insert name s.next_id s.running;
        live = s.live ++ (record { id = s.next_id; name = name; cancelled = false } ∷ []);
        next_id = suc s.next_id;
      }
      else s

  module _ {Bytes : Type 0} (known : List String) (codec : Codec Bytes)
      (io : SaveOutcome Bytes) where
    unfoldable pub handle_reset : String → Config × World Bytes → Config × World Bytes
    unfolding new_source delete_by_source set_source_disabled
    handle_reset name (cfg, w) = (
      with_source cfg name zero_source,
      record {
        disk = (set_source_disabled known codec io name w.disk).0;
        search = elim w.search [ none ↦ none | some store ↦ some (delete_by_source name store).1 ];
        resets = elim (new_source registry name) [
          | none ↦ w.resets
          | some src ↦ w.resets ++ (name ∷ [])
        ];
      },
    )

    -- The loops of one tick, in their order.
    unfoldable pub reset_one :
        String → Config × Services × World Bytes → Config × Services × World Bytes
    unfolding handle_reset stop_service
    reset_one name (cfg, s, w) =
        if (source_of cfg name).reset
        then (let (cfg', w') = handle_reset name (cfg, w) in (cfg', stop_service name s, w'))
        else (cfg, s, w)

    unfoldable pub restart_one : Config → Config → String → Services → Services
    unfolding should_restart_source stop_service
    restart_one cfg new_cfg name s =
        let next = source_of new_cfg name in
        if not (contains (keys_of (source_map new_cfg)) name) || (not next.enabled || next.reset)
        then s
        else (if should_restart_source (source_of cfg name) next then stop_service name s else s)

    unfoldable pub start_one : Config → String → Services → Services
    unfolding start_source
    start_one new_cfg name s =
        let next = source_of new_cfg name in
        if next.enabled && not next.reset && not (contains (keys_of s.running) name)
        then start_source name s
        else s

    unfoldable pub end_one : Config → String → Services → Services
    unfolding stop_service
    end_one new_cfg name s =
        if not (contains (keys_of (source_map new_cfg)) name)
          || not (source_of new_cfg name).enabled
        then stop_service name s
        else s

    -- One tick, from the configuration of the last one and the one that was just loaded.
    unfoldable pub tick : Config → Config → Services → World Bytes → Config × Services × World Bytes
    unfolding each reset_one restart_one start_one end_one
    tick cfg loaded s w =
        let (new_cfg, s1, w1) = each reset_one (keys_of (source_map loaded)) (loaded, s, w) in
        let s2 = each (restart_one cfg new_cfg) (keys_of s1.running) s1 in
        let s3 = each (start_one new_cfg) (keys_of (source_map new_cfg)) s2 in
        let s4 = each (end_one new_cfg) (keys_of s3.running) s3 in (new_cfg, s4, w1)
