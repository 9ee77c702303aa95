-- ===== src/Core/Config.antt =====
-- src/core/interfaces.go and the configuration part of src/core/helpers.go. The bytes of `auth` are a
-- `String`, and a map is an association list.
pub mod Laws
use mcpyeahyouknowme.Prelude.{
  ℕ, String, Bool, true, false, Option, none, some, List, [], ◌∷◌, ◌++◌, leb, if◌then◌else◌, ◌==◌,
  contains, string_eq,
}
use mcpyeahyouknowme.Prelude.Int.{ℤ, pos, negsuc}
use mcpyeahyouknowme.Prelude.Dict.{Dict, lookup, insert}

pub record McpConfig : Type 0 where
  pub read_only : Bool
  pub disabled_tools : List String
  pub mutating_tools_per_min : ℤ
  pub whatsapp_send_max_runes : ℤ

pub record SourceConfig : Type 0 where
  pub enabled : Bool
  pub reset : Bool
  pub auth : String

-- `sources` is `none` for a nil map.
pub record Config : Type 0 where
  pub sources : Option (Dict String SourceConfig)
  pub mcp : McpConfig

abbrev pub default_mutating_tools_per_min : ℕ
default_mutating_tools_per_min = 10

abbrev pub default_whatsapp_send_max_runes : ℕ
default_whatsapp_send_max_runes = 1000

-- The value of a setting if it is positive, otherwise its default.
positive_or : ℕ → ℤ → ℕ
positive_or d (pos n) = if leb n 0 then d else n
positive_or d (negsuc n) = d

unfoldable pub effective_mutating_tools_per_min : McpConfig → ℕ
unfolding positive_or
effective_mutating_tools_per_min m =
    positive_or default_mutating_tools_per_min m.mutating_tools_per_min

unfoldable pub effective_whatsapp_send_max_runes : McpConfig → ℕ
unfolding positive_or
effective_whatsapp_send_max_runes m =
    positive_or default_whatsapp_send_max_runes m.whatsapp_send_max_runes

-- The zero values of the structs.
abbrev pub zero_mcp : McpConfig
zero_mcp = record {
  read_only = false;
  disabled_tools = [];
  mutating_tools_per_min = pos 0;
  whatsapp_send_max_runes = pos 0;
}

abbrev pub zero_source : SourceConfig
zero_source = record { enabled = false; reset = false; auth = "" }

abbrev pub empty_config : Config
empty_config = record { sources = some []; mcp = zero_mcp }

-- RegisterKnownSource, on the list that the package keeps.
unfoldable pub register_known_source : List String → String → List String
register_known_source known name = if contains known name then known else known ++ (name ∷ [])

abbrev pub source_map : Config → Dict String SourceConfig
source_map cfg = elim cfg.sources [ none ↦ [] | some m ↦ m ]

-- One round of the loop over the known sources.
add_missing : String → Dict String SourceConfig → Dict String SourceConfig
add_missing name m = elim (lookup name m) [ none ↦ insert name zero_source m | some sc ↦ m ]

add_all_missing : List String → Dict String SourceConfig → Dict String SourceConfig
add_all_missing [] m = m
add_all_missing (name ∷ names) m = add_all_missing names (add_missing name m)

unfoldable pub normalize_config : List String → Config → Config
unfolding add_all_missing add_missing
normalize_config known cfg = record cfg { sources = some (add_all_missing known (source_map cfg)) }

-- cfg.Sources[name], the zero value if the key is missing.
abbrev pub source_of : Config → String → SourceConfig
source_of cfg name = elim (lookup name (source_map cfg)) [ none ↦ zero_source | some sc ↦ sc ]

abbrev pub with_source : Config → String → SourceConfig → Config
with_source cfg name sc = record cfg { sources = some (insert name sc (source_map cfg)) }

-- json.MarshalIndent and json.Unmarshal on `Config`; either can fail, the first on an `auth` that is no JSON.
pub record Codec (Bytes : Type 0) : Type 0 where
  pub encode : Config → Option Bytes
  pub decode : Bytes → Option Config

-- What os.ReadFile answers on config.json, and the contents of config.json.tmp; `none` if there is no such file.
pub record Disk (Bytes : Type 0) : Type 0 where
  pub config_file : Option Bytes
  pub temp_file : Option Bytes

-- Which system calls of one save succeed: creating the folder, writing the temporary file, which a failing
-- os.WriteFile leaves as `written`, and renaming it.
pub record SaveOutcome (Bytes : Type 0) : Type 0 where
  pub mkdir_ok : Bool
  pub write_ok : Bool
  pub written : Option Bytes
  pub rename_ok : Bool

module _ {Bytes : Type 0} (known : List String) (codec : Codec Bytes) where
  -- json.Unmarshal failed, or gave a configuration.
  parsed_or_empty : Option Config → Config
  unfolding normalize_config
  parsed_or_empty none = normalize_config known empty_config
  parsed_or_empty (some cfg) = normalize_config known cfg

  unfoldable pub load_config : Disk Bytes → Config
  unfolding parsed_or_empty
  load_config disk = elim disk.config_file [
    | none ↦ normalize_config known empty_config
    | some text ↦ parsed_or_empty (codec.decode text)
  ]

  -- os.WriteFile of the temporary file, and os.Rename of it to config.json: the disk, and whether they succeed
  write_temp : SaveOutcome Bytes → Bytes → Disk Bytes → Disk Bytes × Bool
  write_temp io bytes disk =
      (record disk { temp_file = if io.write_ok then some bytes else io.written }, io.write_ok)

  rename_temp : SaveOutcome Bytes → Disk Bytes → Disk Bytes × Bool
  rename_temp io disk =
      if io.rename_ok
      then (record { config_file = disk.temp_file; temp_file = none }, true)
      else (disk, false)

  -- The disk after the save, and whether it reported success.
  unfoldable pub save_config : SaveOutcome Bytes → Config → Disk Bytes → Disk Bytes × Bool
  unfolding normalize_config write_temp rename_temp
  save_config io cfg disk = elim (codec.encode (normalize_config known cfg)) [
    | none ↦ (disk, false)
    | some bytes ↦
        if io.mkdir_ok
        then (let (disk', ok) = write_temp io bytes disk in
            if ok then rename_temp io disk' else (disk', false))
        else (disk, false)
  ]

  unfoldable pub update_source_config :
      SaveOutcome Bytes → String → (SourceConfig → SourceConfig) → Disk Bytes → Disk Bytes × Bool
  unfolding load_config save_config
  update_source_config io name update disk =
      let cfg = load_config disk in
      save_config io (with_source cfg name (update (source_of cfg name))) disk

  unfoldable pub set_source_enabled :
      SaveOutcome Bytes → String → Bool → Disk Bytes → Disk Bytes × Bool
  unfolding update_source_config
  set_source_enabled io name enabled =
      update_source_config io name (λ sc. record sc { enabled = enabled; reset = false })

  unfoldable pub set_source_disabled : SaveOutcome Bytes → String → Disk Bytes → Disk Bytes × Bool
  unfolding set_source_enabled
  set_source_disabled io name = set_source_enabled io name false
